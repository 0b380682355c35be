-- ===== src/Dispatcher/Execute.antt =====
-- dispatcher.py: one claimed action is sent: a dry run, the check of the revision, the send and the
-- readback, each recorded in the attempt.
use text.Mathlib.Text.{starts_with}
use feishu_shadow_agent.Prelude.{
  ℕ, String, Bool, true, false, not, ◌||◌, Option, none, some, List, [], ◌∷◌, ◌++◌, ◌==◌,
  if◌then◌else◌, string_eq,
}
use feishu_shadow_agent.Json.{obj, Fields}
use feishu_shadow_agent.Types.{
  ActionRecord, ActionStatus, DispatchAttemptStatus, DispatchErrorStage, LarkCliResult, result_ok,
}
use feishu_shadow_agent.Store.Dispatch.{
  AttemptUpdate, attempt_status, action_revision_is_current, update_dispatch_attempt,
}
use feishu_shadow_agent.Dispatcher.{
  Response, returned, raised, Env, State, DispatchResult, empty_result, command_result,
  exception_command_result, target_message_id,
}
use feishu_shadow_agent.Dispatcher.Extract.{extract_message_id}
use feishu_shadow_agent.Dispatcher.Send.{call_send}
use feishu_shadow_agent.Dispatcher.Absence.{record_absence}
use feishu_shadow_agent.Dispatcher.Readback.{Kept, read_back, readback_attempt_verified}

abbrev is_local : List String → Bool
is_local [] = false
is_local (a ∷ rest) = a == "dispatch"

abbrev is_rejection : String → Bool
is_rejection error =
    error == "send rejected"
    || (starts_with error "api rejected" || starts_with error "feishu api rejected")

abbrev is_rejected : Env → Option String → Bool
is_rejected env none = false
is_rejected env (some error) = is_rejection (env.strip_lower error)

-- _send_failure_proves_not_sent
unfoldable pub proves_not_sent : Env → LarkCliResult → Bool
proves_not_sent env r = is_local r.argv || is_rejected env r.error

-- What _execute_actual returns, and the state that it leaves.
abbrev pub Executed : Type 0
Executed = (DispatchResult × ActionStatus) × State

abbrev update : Env → ℕ → AttemptUpdate → State → State
update env attempt_id u s = record s {
  db = update_dispatch_attempt s.db attempt_id u (env.now s.calls);
}

-- _stale_revision_result
abbrev stale_revision_result : Env → State → ℕ → String → Executed
stale_revision_result env s attempt_id reason = (
  (
    record empty_result { error_stage = some "claim"; warnings = reason ∷ [] },
    ActionStatus.cancelled,
  ),
  update env attempt_id
      (record (attempt_status DispatchAttemptStatus.failed) {
        error_stage = some DispatchErrorStage.claim;
        finish = true;
      })
      s,
)

abbrev dry_run_failed : Env → State → ℕ → Fields → Executed
dry_run_failed env s attempt_id dry_run = (
  (
    record empty_result { dry_run = obj dry_run; error_stage = some "dry_run" },
    ActionStatus.failed,
  ),
  update env attempt_id
      (record (attempt_status DispatchAttemptStatus.failed) {
        dry_run_result = some dry_run;
        error_stage = some DispatchErrorStage.dry_run;
      })
      s,
)

-- the send failed, or its outcome is not known
abbrev send_failed :
    Env → State → ℕ → DispatchResult → Fields → DispatchAttemptStatus → ActionStatus → Executed
send_failed env s attempt_id result send attempt action_status = (
  (record result { send = obj send; error_stage = some "send" }, action_status),
  update env attempt_id
      (record (attempt_status attempt) {
        send_result = some send;
        error_stage = some DispatchErrorStage.send;
      })
      s,
)

abbrev finish_readback : Env → State → ActionRecord → ℕ → DispatchResult → Kept → Executed
finish_readback env s action attempt_id result kept =
    let verified = readback_attempt_verified action kept.readback kept.warnings in
    (
      (
        record result { readback = obj kept.readback; warnings = result.warnings ++ kept.warnings },
        ActionStatus.sent,
      ),
      update env attempt_id
          (record (attempt_status (
            if verified
            then DispatchAttemptStatus.readback_ok
            else DispatchAttemptStatus.send_ok)) {
              readback_result = some kept.readback;
              sent_message_id = result.sent_message_id;
              error_stage = if verified then none else some DispatchErrorStage.readback;
              finish = true;
            })
          (record s { db = kept.db }),
    )

unfoldable pub send_succeeded :
    Env → State → ActionRecord → ℕ → DispatchResult → LarkCliResult → Option String → Executed
send_succeeded env s action attempt_id result r none =
    send_failed env s attempt_id
      (record result { warnings = result.warnings ++ "sent_message_id_missing" ∷ [] })
      (command_result r) DispatchAttemptStatus.uncertain ActionStatus.failed_needs_review
send_succeeded env s action attempt_id result r (some m) =
    let s' =
      update env attempt_id
        (record (attempt_status DispatchAttemptStatus.send_ok) {
          send_result = some (command_result r);
          sent_message_id = some m;
        })
        s in
    finish_readback env s' action attempt_id
      (record result { send = obj (command_result r); sent_message_id = some m })
      (read_back env action m s'.db)

unfoldable pub after_send : Env → State → ActionRecord → ℕ → DispatchResult → Response → Executed
unfolding send_succeeded
after_send env s action attempt_id result (raised error) =
    send_failed env s attempt_id result (exception_command_result env action "send" error)
      DispatchAttemptStatus.uncertain ActionStatus.failed_needs_review
after_send env s action attempt_id result (returned r) =
    if not (result_ok r)
    then (if proves_not_sent env r
        then send_failed env (record_absence env action r s) attempt_id result (command_result r)
            DispatchAttemptStatus.failed ActionStatus.failed
        else send_failed env (record_absence env action r s) attempt_id result (command_result r)
            DispatchAttemptStatus.uncertain ActionStatus.failed_needs_review)
    else send_succeeded env s action attempt_id result r
        (extract_message_id r.json_data (target_message_id action))

-- revision_send_guard, and the send; meanwhile other processes may write to the store
unfoldable pub send_stage : Env → State → ActionRecord → ℕ → DispatchResult → Executed
unfolding after_send
send_stage env s action attempt_id result =
    if not (action_revision_is_current s.db action)
    then stale_revision_result env s attempt_id "stale_revision_before_send"
    else let (response, s') = call_send env s action false in
      after_send env s' action attempt_id result response

unfoldable pub after_dry_run : Env → State → ActionRecord → ℕ → Response → Executed
unfolding send_stage
after_dry_run env s action attempt_id (raised error) =
    dry_run_failed env s attempt_id (exception_command_result env action "dry_run" error)
after_dry_run env s action attempt_id (returned r) =
    if not (result_ok r)
    then dry_run_failed env s attempt_id (command_result r)
    else send_stage env
        (update env attempt_id
          (record (attempt_status DispatchAttemptStatus.dry_run_ok) {
            dry_run_result = some (command_result r);
          })
          s)
        action attempt_id (record empty_result { dry_run = obj (command_result r) })

-- Dispatcher._execute_actual; other processes may write to the store during the dry run as well
unfoldable pub execute_actual : Env → State → ActionRecord → ℕ → Executed
unfolding after_dry_run
execute_actual env s action attempt_id =
    if not (action_revision_is_current s.db action)
    then stale_revision_result env s attempt_id "stale_revision"
    else let (response, s') = call_send env s action true in
      after_dry_run env s' action attempt_id response
