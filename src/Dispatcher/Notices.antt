-- ===== src/Dispatcher/Notices.antt =====
-- dispatcher.py: the owner is told of a reply that failed, and actions that may not be sent are
-- previewed.
use Prim.Native.String.{◌++◌ as concat}
use feishu_shadow_agent.Prelude.{
  ℕ, String, Bool, true, false, not, ◌||◌, Option, none, some, [], ◌∷◌, ◌++◌, any, if◌then◌else◌,
  string_eq, ◌==◌,
}
use feishu_shadow_agent.Json.{
  Json, null, int, str, arr, obj, Items, Fields, end, field, put, get_or_null, or_else, truthy,
}
use feishu_shadow_agent.Types.{
  ActionRecord, ActionStatus, is_send_reply, is_failed_needs_review, is_cancelled, result_ok,
  TaskRecord,
}
use feishu_shadow_agent.Store.{Db}
use feishu_shadow_agent.Store.Dispatch.{record_action_preview}
use feishu_shadow_agent.Store.Notify.{create_owner_notification_action}
use feishu_shadow_agent.Dispatcher.{
  Call, List, Response, returned, raised, Env, State, DispatchResult, empty_result, command_result,
  to_fields, exception_command_result, text_or_null,
}
use feishu_shadow_agent.Dispatcher.Send.{call_send}

abbrev status_text : ActionStatus → String
status_text ActionStatus.pending = "pending"
status_text ActionStatus.sending = "sending"
status_text ActionStatus.sent = "sent"
status_text ActionStatus.failed = "failed"
status_text ActionStatus.failed_needs_review = "failed_needs_review"
status_text ActionStatus.cancelled = "cancelled"

abbrev key_of : Json → String
key_of (str s) = s
key_of _ = ""

abbrev error_in : Json → Json
error_in (obj d) = get_or_null "error" d
error_in _ = null

abbrev given_list : Json → Json
given_list (arr (Items.cons x xs)) = arr (Items.cons x xs)
given_list _ = null

-- the error of the stage at which the dispatch stopped, or else its warnings
abbrev failure_error : Fields → Json
failure_error result =
    let error = error_in (get_or_null (key_of (get_or_null "error_stage" result)) result) in
    if truthy error then error else given_list (get_or_null "warnings" result)

abbrev short_id_of : ℕ → Option TaskRecord → Json
short_id_of i none = int i
short_id_of i (some task) = str task.short_id

abbrev task_label : Env → List Call → Option ℕ → Json
task_label env calls none = null
task_label env calls (some i) = short_id_of i (env.get_task_by_id calls i)

abbrev put_text : String → Option String → Fields → Fields
put_text k none d = d
put_text k (some s) d = put k (str s) d

abbrev put_number : String → Option ℕ → Fields → Fields
put_number k none d = d
put_number k (some n) d = put k (int n) d

abbrev failure_message : Env → ActionRecord → Bool → String
failure_message env action uncertain =
    if uncertain
    then concat "Reply dispatch action "
        (concat (env.show action.id) " is uncertain; inspect evidence before retrying.")
    else concat "Reply dispatch action " (concat (env.show action.id) " failed before completion.")

-- the payload of _queue_failed_reply_notification
unfoldable pub failure_payload :
    Env → List Call → ActionRecord → ActionStatus → Fields → String → Fields
failure_payload env calls action status result dedupe_suffix =
    let uncertain = is_failed_needs_review status in
    put_number "source_revision" action.source_revision (
      put_text "source_message_id" action.source_message_id (
        field "type" (str (if uncertain then "dispatch_uncertain" else "dispatch_failed")) (
          field "task_id" (task_label env calls action.task_id) (
            field "reason" (str (status_text status)) (
              field "message" (str (failure_message env action uncertain)) (
                field "stage"
                  (or_else (get_or_null "error_stage" result)
                    (or_else (get_or_null "recovery_reason" result) (str "unknown")))
                  (field "target" (text_or_null action.target_message_id) (
                    field "error" (failure_error result) (
                      field "dedupe_key"
                        (str (
                          concat "dispatch:"
                            (concat (env.show action.id) (concat ":" dedupe_suffix))))
                        end)))))))))

-- _queue_failed_reply_notification; an error of the store leaves it as it was
unfoldable pub queue_failed_reply_notification :
    Env → List Call → ActionRecord → ActionStatus → Fields → String → Db → Db
queue_failed_reply_notification env calls action status result dedupe_suffix db =
    if not (is_send_reply action.kind)
    then db
    else (create_owner_notification_action env.digest db action.task_id
        (failure_payload env calls action status result dedupe_suffix) action.execution_mode
        (env.now calls)).1

abbrev previewed : Env → ActionRecord → Response → DispatchResult
previewed env action (raised error) = record empty_result {
  dry_run = obj (exception_command_result env action "dry_run" error);
  error_stage = some "dry_run";
}
previewed env action (returned r) =
    if result_ok r
    then record empty_result { dry_run = obj (command_result r) }
    else record empty_result { dry_run = obj (command_result r); error_stage = some "dry_run" }

-- the reason that keeps the action from being sent, if one is given
abbrev with_blocked_reason : Option String → DispatchResult → Fields
with_blocked_reason none r = to_fields r
with_blocked_reason (some reason) r =
    if reason == ""
    then to_fields r
    else put "blocked_actual_reason" (str reason) (
        to_fields (record r { warnings = r.warnings ++ concat "actual_send_blocked_" reason ∷ [] }))

-- preview_action_record, with _execute_preview: the dict that is recorded, and the state afterwards
unfoldable pub preview_action_record : Env → State → ActionRecord → Option String → Fields × State
preview_action_record env s action reason =
    let (response, s') = call_send env s action true in
    let result = with_blocked_reason reason (previewed env action response) in
    (result, record s' { db = record_action_preview s'.db action.id result (env.now s'.calls) })

-- _stale_revision_cancelled
unfoldable pub stale_revision_cancelled : ActionStatus → DispatchResult → Bool
stale_revision_cancelled status result =
    if is_cancelled status
    then any (λ w. w == "stale_revision" || w == "stale_revision_before_send") result.warnings
    else false
