-- ===== src/Dispatcher/Absence.antt =====
-- membership.py: whether a failed command proves that the bot is not in the chat, and what the
-- dispatcher does then.
use Prim.Native.Char.{code}
use feishu_shadow_agent.Prelude.{
  ℕ, ◌+◌, ◌-◌, ◌*◌, String, Bool, false, not, ◌&&◌, ◌||◌, Option, none, some, List, [], ◌∷◌, ◌==◌,
  leb, if◌then◌else◌, string_eq, nat_eq, option_eq,
}
use feishu_shadow_agent.Json.{Json, null, int, str, obj, get_or_null}
use feishu_shadow_agent.Types.{LarkCliResult, result_ok}
use Prim.Native.String.{◌++◌ as concat}
use feishu_shadow_agent.Prelude.{◌≡◌, refl}
use feishu_shadow_agent.Json.{Fields, field, end}
use feishu_shadow_agent.Types.{ActionRecord, TaskRecord}
use feishu_shadow_agent.Store.Notify.{create_owner_notification_action}
use feishu_shadow_agent.Membership.{
  Fact, Notice, MembershipStatus, present, absent, unknown, is_absent_status,
  record_bot_membership_absence,
}
use feishu_shadow_agent.Dispatcher.{Env, State}

-- _command_uses_bot: two words of the command in a row are `--as bot`
unfoldable pub uses_bot : List String → Bool
uses_bot [] = false
uses_bot (a ∷ []) = false
uses_bot (a ∷ b ∷ rest) = a == "--as" && b == "bot" || uses_bot (b ∷ rest)

-- _BOT_MEMBERSHIP_ABSENCE_ENDPOINTS, by the second and third words of the command
abbrev endpoint : List String → Option String
endpoint (a ∷ b ∷ c ∷ rest) =
    if b == "im" && c == "+messages-resources-download"
    then some "resource_download"
    else if b == "im" && c == "+messages-reply"
    then some "message_reply"
    else none
endpoint _ = none

decimal : ℕ → String → Option ℕ
decimal n String.[] = some n
decimal n (String.◌∷◌ c s) =
    let d = code c in if leb 48 d && leb d 57 then decimal (n * 10 + (d - 48)) s else none

abbrev number : Json → Option ℕ
number (int n) = some n
number (str s) = if s == "" then none else decimal 0 s
number _ = none

abbrev nested_code : Json → Json
nested_code (obj d) = get_or_null "code" d
nested_code _ = null

abbrev code_or : Json → Json → Json
code_or null other = other
code_or found other = found

-- _structured_error_code, of codes in ASCII digits
unfoldable pub structured_error_code : Json → Option ℕ
unfolding decimal
structured_error_code (obj d) =
    number (code_or (get_or_null "code" d) (nested_code (get_or_null "error" d)))
structured_error_code _ = none

-- classify_bot_membership_absence: the endpoint of a confirmed absence
unfoldable pub classify_bot_membership_absence : LarkCliResult → Option String
classify_bot_membership_absence r =
    if result_ok r || not (uses_bot r.argv)
    then none
    else if structured_error_code r.json_data == some 10002
    then endpoint r.argv
    else none

-- the task of the action, if it is found
abbrev task_of : Env → State → Option ℕ → Option TaskRecord
task_of env s none = none
task_of env s (some task_id) = env.get_task_by_id s.calls task_id

-- send.error or send.stderr
abbrev error_text : LarkCliResult → Option String
error_text r = elim r.error [
  | none ↦ some r.stderr
  | some error ↦ some (if error == "" then r.stderr else error)
]

abbrev status_text : MembershipStatus → String
status_text present = "present"
status_text absent = "absent"
status_text unknown = "unknown"

-- the payload of the owner's notification about a chat
abbrev membership_payload : Env → String → Notice → Fields
membership_payload env chat_id n =
    field "type"
      (str
        (if is_absent_status n.status then "bot_membership_absent" else "bot_membership_recovered"))
      (field "chat_id" (str chat_id) (
        field "membership_status" (str (status_text n.status)) (
          field "dedupe_key"
            (str (
              concat "bot-membership:" (
                concat chat_id
                  (concat ":" (concat (status_text n.status) (concat ":" (env.show n.episode)))))))
            end)))

abbrev notify_membership : Env → ActionRecord → String → Option Notice → State → State
notify_membership env action chat_id none s = s
notify_membership env action chat_id (some n) s = record s {
  db =
      (create_owner_notification_action env.digest s.db none (membership_payload env chat_id n)
        action.execution_mode (env.now s.calls)).1;
}

abbrev set_bot_membership_fact : String → Fact → (String → Option Fact) → String → Option Fact
set_bot_membership_fact chat_id fact facts c = if c == chat_id then some fact else facts c

-- the fact is stored, and the owner told of a new absence
abbrev observed_absence :
    Env → ActionRecord → String → Option (Fact × Option Notice) → State → State
observed_absence env action chat_id none s = s
observed_absence env action chat_id (some (fact, notice)) s =
    notify_membership env action chat_id notice
      (record s { membership_fact = set_bot_membership_fact chat_id fact s.membership_fact })

abbrev fact_in : State → Option String → Option Fact
fact_in s none = none
fact_in s (some chat_id) = s.membership_fact chat_id

abbrev text_of : Option String → String
text_of none = ""
text_of (some s) = s

abbrev absence_in : Env → ActionRecord → LarkCliResult → Option TaskRecord → State → State
absence_in env action r none s = s
absence_in env action r (some task) s =
    observed_absence env action (text_of task.chat_id)
      (record_bot_membership_absence env.membership_config task.chat_id task.chat_type
        (fact_in s task.chat_id) (env.now s.calls) "dispatch_failure" (error_text r))
      s

abbrev absence_after :
    Env → ActionRecord → LarkCliResult → Option String → Option TaskRecord → State → State
absence_after env action r none task s = s
absence_after env action r (some at) task s = absence_in env action r task s

-- the part of _execute_actual about a send that failed: the absence that it proves is recorded
unfoldable pub record_absence : Env → ActionRecord → LarkCliResult → State → State
unfolding classify_bot_membership_absence record_bot_membership_absence
record_absence env action r s =
    absence_after env action r (classify_bot_membership_absence r) (task_of env s action.task_id) s

pub record_absence-calls :
    (env : Env) (action : ActionRecord) (r : LarkCliResult) (s : State)
    → (record_absence env action r s).calls ≡ s.calls
unfolding record_absence
record_absence-calls env action r s =
    classified (classify_bot_membership_absence r) (task_of env s action.task_id)
  where
    told :
        (chat_id : String) (o : Option (Fact × Option Notice))
        → (observed_absence env action chat_id o s).calls ≡ s.calls
    told chat_id none = refl
    told chat_id (some (fact, none)) = refl
    told chat_id (some (fact, some n)) = refl

    of_task : (t : Option TaskRecord) → (absence_in env action r t s).calls ≡ s.calls
    of_task none = refl
    of_task (some task) = told (text_of task.chat_id) _

    classified :
        (o : Option String) (t : Option TaskRecord)
        → (absence_after env action r o t s).calls ≡ s.calls
    classified none t = refl
    classified (some at) t = of_task t
