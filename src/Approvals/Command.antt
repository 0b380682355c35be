-- ===== src/Approvals/Command.antt =====
-- store/sqlite_store.py: apply_approval_command. A command's id is that of the message that brought it;
-- what an exception left behind is rolled back, and the command is recorded in any case.
use Prim.Native.String.{count}
use feishu_shadow_agent.Prelude.{
  ℕ, String, Bool, true, false, not, Option, none, some, List, [], ◌∷◌, ◌++◌, ◌==◌, any,
  if◌then◌else◌, string_eq, find?, leb,
}
use feishu_shadow_agent.Json.{get_or_null}
use feishu_shadow_agent.Store.{ApprovalRow}
use feishu_shadow_agent.Store.Fence.{expire_pending_approvals}
use feishu_shadow_agent.Tasks.{TaskRow}
use feishu_shadow_agent.Approvals.{
  Handled, find_task, is_task_id, note_too_long, pending_with_short_id, unsupported, with_store,
  error_result, actor_required, conflict_result, is_json_true, list_pending_approvals,
  is_approval_id, ApprovalCommand, ApprovalDb, CommandResult, CommandRow, CommandStatus, Env, Verb,
  approve, reject, send, other_verb, raised, returns,
}
use feishu_shadow_agent.Approvals.Resolve.{approve_or_reject}
use feishu_shadow_agent.Approvals.Send.{send_reply_text}

abbrev pub note_is_long : Env → Option String → Bool
note_is_long env none = false
note_is_long env (some s) = not (leb (count (env.strip s)) 500)

abbrev pub by_verb : Env → ApprovalCommand → Verb → ℕ → ApprovalDb → Handled
by_verb env c approve now db = approve_or_reject env true c now db
by_verb env c reject now db = approve_or_reject env false c now db
by_verb env c send now db = send_reply_text env c now db
by_verb env c (other_verb s) now db = raised unsupported db

-- _apply_approval_command_locked
unfoldable pub apply_approval_command_locked : Env → ApprovalCommand → ℕ → ApprovalDb → Handled
unfolding approve_or_reject send_reply_text
apply_approval_command_locked env c now db =
    if env.strip c.actor == ""
    then raised actor_required db
    else if note_is_long env c.note
    then raised note_too_long db
    else by_verb env c c.verb now db

abbrev keeps_on_reject : ApprovalRow → Bool
keeps_on_reject r = is_json_true (get_or_null "keep_watching_on_reject" r.payload)

abbrev kept_task : Option ApprovalRow → Option ℕ
kept_task none = none
kept_task (some r) = if keeps_on_reject r then r.task_id else none

abbrev kept_named_task : Option TaskRow → List ApprovalRow → Option ℕ
kept_named_task none rows = none
kept_named_task (some t) rows =
    if any keeps_on_reject (list_pending_approvals t.task.id rows) then some t.task.id else none

abbrev kept_of_reject : String → ApprovalDb → Option ℕ
kept_of_reject s db =
    let rows = db.tasks.store.approvals in
    if is_approval_id s
    then kept_task (find? (pending_with_short_id s) rows)
    else if is_task_id s
    then kept_named_task (find_task s db.tasks.tasks) rows
    else none

-- _keep_watching_reject_task_id_locked
unfoldable pub keep_watching_reject_task_id : Verb → String → ApprovalDb → Option ℕ
unfolding list_pending_approvals
keep_watching_reject_task_id reject s db = kept_of_reject s db
keep_watching_reject_task_id _ s db = none

-- the tables after the expiry with which a command begins
unfoldable pub expire_before_command : ApprovalCommand → ℕ → ApprovalDb → ApprovalDb
unfolding keep_watching_reject_task_id
expire_before_command c now db =
    with_store db
      (expire_pending_approvals db.tasks.store now
        (keep_watching_reject_task_id c.verb c.target_id db)).1

abbrev pub command_with_id : String → CommandRow → Bool
command_with_id m r = r.message_id == m

-- "_status", or "applied"
abbrev pub status_of : CommandResult → CommandStatus
status_of (conflict_result verb s id ids) = CommandStatus.failed
status_of _ = CommandStatus.applied

abbrev pub command_row : ApprovalCommand → CommandStatus → CommandResult → ℕ → CommandRow
command_row c status result now = record {
  message_id = c.message_id;
  command = c.command;
  status = status;
  result = result;
  created_at = now;
  updated_at = now;
}

abbrev pub record_command : CommandRow → ApprovalDb → ApprovalDb
record_command row db = record db { commands = db.commands ++ row ∷ [] }

-- ROLLBACK TO SAVEPOINT: of the tables at the savepoint and those written since, the first
abbrev pub rollback_to_savepoint : ApprovalDb → ApprovalDb → ApprovalDb
rollback_to_savepoint savepoint written = savepoint

-- what is answered and recorded of an attempt that began in these tables, which are the savepoint
abbrev pub settle :
    ApprovalCommand → ℕ → ApprovalDb → Handled → (CommandStatus × CommandResult) × ApprovalDb
settle c now db (raised e written) = (
  (CommandStatus.failed, error_result e),
  record_command (command_row c CommandStatus.failed (error_result e) now)
      (rollback_to_savepoint db written),
)
settle c now db (returns (result, db')) =
    ((status_of result, result), record_command (command_row c (status_of result) result now) db')

abbrev pub apply_once :
    Env
    → ApprovalCommand
    → ℕ
    → ApprovalDb
    → Option CommandRow
    → (CommandStatus × CommandResult) × ApprovalDb
apply_once env c now db (some row) = ((CommandStatus.duplicate, row.result), db)
apply_once env c now db none = settle c now db (apply_approval_command_locked env c now db)

-- apply_approval_command: the status and the result, with the tables
unfoldable pub apply_approval_command :
    Env → ApprovalCommand → ℕ → ApprovalDb → (CommandStatus × CommandResult) × ApprovalDb
unfolding apply_approval_command_locked expire_before_command
apply_approval_command env c now db =
    let expired = expire_before_command c now db in
    apply_once env c now expired (find? (command_with_id c.message_id) expired.commands)
