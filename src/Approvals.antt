-- ===== src/Approvals.antt =====
-- store/sqlite_store.py: the owner's answers to drafted replies. The tables of approvals, of the
-- commands that answer them and of the feedback that they leave; `tasks` holds the tables of Tasks.
-- An exception is a value of CommandError, one for each message; the dictionary that a command returns
-- is a value of CommandResult, one constructor for each set of keys.
pub mod Notices
pub mod Create
pub mod Feedback
pub mod Resolve
pub mod Send
pub mod Command
pub mod Cases
pub mod Steps
pub mod Once
pub mod Numbered
pub mod Settled
pub mod Authority
pub mod Rejected
pub mod Suggested
use Prim.Native.Char.{code}
use Prim.Native.String.{◌++◌ as concat}
use feishu_shadow_agent.Prelude.{
  single, ℕ, suc, String, Bool, true, false, not, ◌&&◌, ◌||◌, Option, none, some, List, [], ◌∷◌,
  ◌++◌, ◌==◌, any, if◌then◌else◌, nat_eq, string_eq, option_eq, is_some, filter, find?, sort_by,
  ltb, leb,
}
use feishu_shadow_agent.Json.{Json, bool, str, Fields}
use feishu_shadow_agent.Types.{
  Stamp, ExecutionMode, ApprovalKind, ApprovalOutcome, ApprovalTargetBinding, FeedbackReason,
  TaskRecord, is_active_task_status, is_pending_approval,
}
use feishu_shadow_agent.Store.{Db, MessageRow, ApprovalRow}
use feishu_shadow_agent.Store.Create.{KeySeed}
use feishu_shadow_agent.Store.Notify.{NoticeSeed}
use feishu_shadow_agent.Store.Index.{equals_nat}
use feishu_shadow_agent.Tasks.{TaskDb, TaskRow}
use feishu_shadow_agent.Tasks.Takeover.{pending_approval_of}

pub data Verb : Type 0 where
  approve reject send : Verb
  other_verb : String → Verb

-- The messages of the exceptions that end a command.
pub data CommandError : Type 0 where
  actor_required note_too_long outcome_not_valid not_found target_is_stale not_watching
        requires_send missing_target missing_text already_active detached needs_target
        task_not_found requires_text no_reply_target no_short_id key_in_use integrity_error
        disappeared unsupported :
      CommandError

pub data CommandStatus : Type 0 where
  applied failed duplicate : CommandStatus

-- `approval_id` is the short id; `none` under "action_id" is null.
pub data CommandResult : Type 0 where
  error_result : CommandError → CommandResult
  conflict_result : Verb → String → ℕ → List String → CommandResult
  stale_result : String → Option ℕ → ℕ → CommandResult
  kept_result : String → ℕ → ℕ → CommandResult
  answered_result : String → Option ℕ → Option ℕ → ApprovalOutcome → CommandResult

pub record CommandRow : Type 0 where
  pub message_id : String
  pub command : String
  pub status : CommandStatus
  pub result : CommandResult
  pub created_at : ℕ
  pub updated_at : ℕ

pub record FeedbackRow : Type 0 where
  pub approval_id : ℕ
  pub task_id : Option ℕ
  pub command_id : String
  pub outcome : ApprovalOutcome
  pub decision_reason : Option String
  pub suggested_reply : Option String
  pub final_reply : Option String
  pub feedback_reason : Option FeedbackReason
  pub note : Option String
  pub actor : String
  pub execution_mode : ExecutionMode
  pub created_at : ℕ

pub record ApprovalDb : Type 0 where
  pub tasks : TaskDb
  pub commands : List CommandRow
  pub feedback : List FeedbackRow
  pub next_approval_id : ℕ

-- The arguments of apply_approval_command. A feedback reason and an execution mode of another text than
-- those of their types are no values here.
pub record ApprovalCommand : Type 0 where
  pub message_id : String
  pub command : String
  pub verb : Verb
  pub target_id : String
  pub final_reply : Option String
  pub keep_watching_until : Option Stamp
  pub actor : String
  pub feedback_reason : Option FeedbackReason
  pub note : Option String
  pub execution_mode : ExecutionMode
  pub requested_outcome : Option ApprovalOutcome
  pub expected_target_binding : Option ApprovalTargetBinding

-- What the code takes from elsewhere: str.strip, the digests (json.dumps and SHA-256), the names of
-- short ids, the digits of a number, the text of an instant, and the columns of a message that its row
-- in Store leaves out.
pub record Env : Type 0 where
  pub strip : String → String
  pub digest : KeySeed → String
  pub notice_digest : NoticeSeed → String
  pub short_id_base : String → String
  pub numbered : String → ℕ → String
  pub show : ℕ → String
  pub show_instant : ℕ → String
  pub chat_type : MessageRow → Option String
  pub sender_name : MessageRow → Option String
  pub sent_at : MessageRow → Option String

-- What an operation gives: a value, or the exception that it raised with the tables as they stand at
-- the raise, all that was written before included.
pub data Attempt (A : Type 0) : Type 0 where
  raised : CommandError → ApprovalDb → Attempt A
  returns : A → Attempt A

-- what a command's handler gives
abbrev pub Handled : Type 0
Handled = Attempt (CommandResult × ApprovalDb)

infixl 5 ◌>>=◌
unfoldable pub ◌>>=◌ : {A B : Type 0} → Attempt A → (A → Attempt B) → Attempt B
returns a >>= f = f a
raised e db >>= f = raised e db

abbrev pub or_raise : {A : Type 0} → Option A → CommandError → ApprovalDb → Attempt A
or_raise none e db = raised e db
or_raise (some a) e db = returns a

-- target_id.startswith("a_") and target_id.startswith("t_"), by the code of the letter
unfoldable pub has_prefix : ℕ → String → Bool
has_prefix letter (String.◌∷◌ c (String.◌∷◌ d s)) = code c == letter && code d == 95
has_prefix letter _ = false

abbrev pub is_approval_id : String → Bool
is_approval_id s = has_prefix 97 s

abbrev pub is_task_id : String → Bool
is_task_id s = has_prefix 116 s

-- SELECT * FROM tasks WHERE short_id = ?
abbrev pub find_task : String → List TaskRow → Option TaskRow
find_task s rows = find? (λ (r : TaskRow). r.task.short_id == s) rows

-- ORDER BY created_at DESC, id DESC
abbrev pub newest_approval : ApprovalRow → ApprovalRow → Bool
newest_approval a b =
    ltb b.created_at a.created_at || (a.created_at == b.created_at && leb b.id a.id)

abbrev pub is_send_reply_approval : ApprovalKind → Bool
is_send_reply_approval ApprovalKind.send_reply = true
is_send_reply_approval ApprovalKind.tool_action = false

-- _list_pending_approvals_locked
unfoldable pub list_pending_approvals : ℕ → List ApprovalRow → List ApprovalRow
list_pending_approvals task_id rows =
    sort_by newest_approval (filter (pending_approval_of task_id) rows)

-- _list_pending_send_reply_approvals_locked
unfoldable pub list_pending_send_reply_approvals : ℕ → List ApprovalRow → List ApprovalRow
list_pending_send_reply_approvals task_id rows =
    sort_by newest_approval
      (filter (λ r. pending_approval_of task_id r && is_send_reply_approval r.kind) rows)

abbrev pub pending_with_short_id : String → ApprovalRow → Bool
pending_with_short_id s r = r.short_id == s && is_pending_approval r.status

-- JOIN tasks t ON t.id = a.task_id WHERE t.short_id = ? AND a.status = 'pending'
abbrev pub pending_of_named_task : String → List TaskRow → ApprovalRow → Bool
pending_of_named_task s tasks r =
    is_pending_approval r.status
    && any (λ (t : TaskRow). equals_nat r.task_id (some t.task.id) && t.task.short_id == s) tasks

-- _resolve_pending_approval_locked
unfoldable pub resolve_pending_approval :
    String → List TaskRow → List ApprovalRow → Option ApprovalRow
resolve_pending_approval s tasks rows =
    if is_approval_id s
    then find? (pending_with_short_id s) rows
    else if is_task_id s
    then single (sort_by newest_approval (filter (pending_of_named_task s tasks) rows))
    else none

-- _require_expected_approval_target: `true` where it does not raise
abbrev pub is_expected_target : ApprovalRow → Option ApprovalTargetBinding → Bool
is_expected_target r none = true
is_expected_target r (some b) =
    r.task_id == b.task_id
    && (r.source_message_id == b.source_message_id && r.source_revision == b.source_revision)

-- _task_is_watching
abbrev pub task_is_watching : Option TaskRow → Bool
task_is_watching none = false
task_is_watching (some r) = is_active_task_status r.task.status

-- payload.get(key) is True, and payload.get(key) is False
abbrev pub is_json_true : Json → Bool
is_json_true (bool b) = b
is_json_true _ = false

abbrev pub is_json_false : Json → Bool
is_json_false (bool b) = not b
is_json_false _ = false

-- value if isinstance(value, str) else None
abbrev pub text_value : Json → Option String
text_value (str s) = some s
text_value _ = none

-- a text beside `a` or, where it is empty, `b`
abbrev pub text_or : String → Option String → Option String
text_or a b = if a == "" then b else some a

abbrev pub joined_text : List String → String
joined_text [] = ""
joined_text (s ∷ ss) = concat s (joined_text ss)

abbrev pub with_store : ApprovalDb → Db → ApprovalDb
with_store db store = record db { tasks = record db.tasks { store = store } }
