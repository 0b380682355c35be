-- ===== src/Approvals/Resolve.antt =====
-- store/sqlite_store.py: /approve and /reject, the first part of _apply_approval_command_locked.
use feishu_shadow_agent.Prelude.{
  length, count_where, ℕ, String, Bool, true, false, not, ◌&&◌, Option, none, some, List, ◌==◌,
  if◌then◌else◌, nat_eq, string_eq, find?, filter, update_where, leb,
}
use feishu_shadow_agent.Json.{Json, str, Fields, get_or_null, or_else, nonempty_text, put}
use feishu_shadow_agent.Types.{
  ActionRecord, ActionStatus, ApprovalOutcome, no_send_end_task, no_send_keep_watching,
  suggestion_sent, ApprovalStatus, Stamp, TaskStatus, is_pending, is_send_reply,
}
use feishu_shadow_agent.Store.{Db, ApprovalRow, payload_send_text, source_payload_is_stale}
use feishu_shadow_agent.Store.Create.{Created, created, nothing, new_reply, create_checked}
use feishu_shadow_agent.Store.Dispatch.{set_status}
use feishu_shadow_agent.Store.Fence.{cancel_for_approval, pending_of_approval}
use feishu_shadow_agent.Tasks.{TaskDb, TaskRow, has_id}
use feishu_shadow_agent.Tasks.Attach.{update_task}
use feishu_shadow_agent.Tasks.Takeover.{cancel_for_approvals, expired_now, pending_approval_of}
use feishu_shadow_agent.Approvals.{
  Handled, missing_text, CommandError, missing_target, equals_nat, find_task, task_is_watching,
  target_is_stale, already_active, requires_send, not_found, list_pending_approvals,
  is_expected_target, is_task_id, not_watching, is_json_true, outcome_not_valid, with_store,
  resolve_pending_approval, is_json_false, ApprovalCommand, ApprovalDb, Attempt, Env, raised,
  returns, ◌>>=◌, or_raise, answered_result, kept_result,
}
use feishu_shadow_agent.Approvals.Feedback.{
  feedback_row, payload_with_source, record_approval_feedback, resolved, set_approval, stale_answer,
}
use feishu_shadow_agent.Approvals.Notices.{create_conflict_notification}

abbrev watch_or_keep : Option Stamp → Option Stamp → Option Stamp
watch_or_keep none old = old
watch_or_keep (some t) old = some t

abbrev pub kept_watching : Option Stamp → ℕ → TaskRow → TaskRow
kept_watching until now r = record r {
  task = record r.task {
    status = TaskStatus.watching;
    watch_until = watch_or_keep until r.task.watch_until;
  };
  updated_at = now;
  closed_at = none;
}

abbrev pub in_tasks : (TaskDb → TaskDb) → ApprovalDb → ApprovalDb
in_tasks f db = record db { tasks = f db.tasks }

-- _mark_task_watching_after_send_locked
abbrev pub mark_task_watching_after_send : ℕ → ℕ → ApprovalDb → ApprovalDb
mark_task_watching_after_send task_id now db =
    in_tasks (update_task task_id (kept_watching none now)) db

abbrev pub closed_after_reject : ℕ → TaskRow → TaskRow
closed_after_reject now r = record r {
  task = record r.task { status = TaskStatus.closed };
  updated_at = now;
  closed_at = some now;
}

-- task_id = ? AND kind = 'send_reply' AND status = 'pending'
abbrev pub pending_reply : ℕ → ActionRecord → Bool
pending_reply i a = equals_nat a.task_id (some i) && (is_send_reply a.kind && is_pending a.status)

-- _close_task_after_reject_locked
unfoldable pub close_task_after_reject : ℕ → ℕ → ℕ → TaskDb → TaskDb
unfolding cancel_for_approvals
close_task_after_reject task_id rejected_approval_id now db =
    update_task task_id (closed_after_reject now) (record db {
      store = record db.store {
        approvals = update_where (pending_approval_of task_id) (expired_now now) db.store.approvals;
        actions =
            cancel_for_approvals (filter (pending_approval_of task_id) db.store.approvals) now (
              cancel_for_approval rejected_approval_id now (
                update_where (pending_reply task_id) (set_status ActionStatus.cancelled now)
                  db.store.actions));
      };
    })

abbrev is_keep_watching : ApprovalOutcome → Bool
is_keep_watching no_send_keep_watching = true
is_keep_watching _ = false

abbrev pub keeps_watching : Option ApprovalOutcome → Fields → Bool
keeps_watching none payload = is_json_true (get_or_null "keep_watching_on_reject" payload)
keeps_watching (some o) payload = is_keep_watching o

-- the end of a rejection, in the tables where the approval is rejected
unfoldable pub keep_after_reject :
    Env → ApprovalCommand → ApprovalRow → Fields → ℕ → ℕ → ApprovalDb → Handled
unfolding record_approval_feedback
keep_after_reject env c r payload task_id now db = do
  let store = db.tasks.store
  let cancelled =
      with_store db (record store { actions = cancel_for_approval r.id now store.actions })
  let kept = in_tasks (update_task task_id (kept_watching c.keep_watching_until now)) cancelled
  after ←
      record_approval_feedback
        (feedback_row env c r no_send_keep_watching payload r.preview none now) kept
  returns
      (kept_result r.short_id task_id (count_where (pending_of_approval r.id) store.actions), after)

abbrev pub closed_tasks : Option ℕ → ℕ → ℕ → TaskDb → TaskDb
closed_tasks none approval_id now db = db
closed_tasks (some task_id) approval_id now db = close_task_after_reject task_id approval_id now db

abbrev pub closed_for : Option ℕ → ℕ → ℕ → ApprovalDb → ApprovalDb
closed_for task_id approval_id now db = in_tasks (closed_tasks task_id approval_id now) db

unfoldable pub end_after_reject :
    Env → ApprovalCommand → ApprovalRow → Fields → ApprovalOutcome → ℕ → ApprovalDb → Handled
unfolding close_task_after_reject record_approval_feedback
end_after_reject env c r payload outcome now db = do
  after ←
      record_approval_feedback (feedback_row env c r outcome payload r.preview none now)
        (closed_for r.task_id r.id now db)
  returns (answered_result r.short_id r.task_id none outcome, after)

abbrev rejection_outcome : Bool → ApprovalOutcome
rejection_outcome true = no_send_keep_watching
rejection_outcome false = no_send_end_task

abbrev pub reject_with :
    Env → ApprovalCommand → ApprovalRow → Fields → Bool → Option ℕ → ℕ → ApprovalDb → Handled
reject_with env c r payload true (some task_id) now db =
    keep_after_reject env c r payload task_id now db
reject_with env c r payload true none now db =
    end_after_reject env c r payload no_send_keep_watching now db
reject_with env c r payload false task_id now db =
    end_after_reject env c r payload no_send_end_task now db

unfoldable pub reject_approval :
    Env → ApprovalCommand → ApprovalRow → Fields → ℕ → ApprovalDb → Handled
unfolding keep_after_reject end_after_reject
reject_approval env c r payload now db =
    reject_with env c r payload (keeps_watching c.requested_outcome payload) r.task_id now
      (set_approval r.id (resolved ApprovalStatus.rejected now) db)

-- text if it is a text with something but blanks, else an exception
abbrev pub nonblank : Env → Json → Option String
nonblank env (str s) = if env.strip s == "" then none else some s
nonblank env _ = none

-- `none` and an integrity error end the command; the id and the tables otherwise
unfoldable pub action_created : Created × Db → ApprovalDb → Attempt (ℕ × ApprovalDb)
action_created (created id, store) db = returns (id, with_store db store)
action_created (nothing, store) db = raised already_active (with_store db store)
action_created (Created.integrity_error, store) db =
    raised CommandError.integrity_error (with_store db store)

-- _create_send_reply_action_locked
unfoldable pub create_action :
    Env → ApprovalCommand → ℕ → String → Fields → ℕ → ℕ → ApprovalDb → Attempt (ℕ × ApprovalDb)
unfolding action_created
create_action env c task_id target payload approval_id now db =
    let store = db.tasks.store in
    action_created
      (create_checked store now
        (new_reply env.digest store task_id target payload (some approval_id) c.execution_mode))
      db

abbrev pub reply_target : Fields → Option String
reply_target payload = nonempty_text (
    or_else (get_or_null "reply_target_message_id" payload)
      (get_or_null "target_message_id" payload))

-- /approve, in the tables where the approval is approved
unfoldable pub approve_reply :
    Env → ApprovalCommand → ApprovalRow → Fields → ℕ → ℕ → ApprovalDb → Handled
unfolding create_action record_approval_feedback
approve_reply env c r payload task_id now db = do
  target ←
      if is_json_false (get_or_null "approvable" payload)
      then raised requires_send db
      else or_raise (reply_target payload) missing_target db
  text ← or_raise (nonblank env (get_or_null "text" payload)) missing_text db
  made ← create_action env c task_id target (put "approved_by" (str "owner") payload) r.id now db
  after ←
      record_approval_feedback
        (feedback_row env c r suggestion_sent payload r.preview (some (payload_send_text payload))
          now)
        (mark_task_watching_after_send task_id now made.1)
  returns (answered_result r.short_id (some task_id) (some made.0) suggestion_sent, after)

abbrev pub approve_for :
    Env → ApprovalCommand → ApprovalRow → Fields → Option ℕ → ℕ → ApprovalDb → Handled
approve_for env c r payload none now db = raised not_watching db
approve_for env c r payload (some task_id) now db =
    if task_is_watching (find? (has_id task_id) db.tasks.tasks)
    then approve_reply env c r payload task_id now
        (set_approval r.id (resolved ApprovalStatus.approved now) db)
    else raised not_watching db

-- an approval that was found, is the expected one and of the current revision
abbrev pub answer_current :
    Env → Bool → ApprovalCommand → ApprovalRow → Fields → ℕ → ApprovalDb → Handled
answer_current env true c r payload now db = approve_for env c r payload r.task_id now db
answer_current env false c r payload now db = reject_approval env c r payload now db

unfoldable pub answer_approval :
    Env → Bool → ApprovalCommand → ApprovalRow → ℕ → ApprovalDb → Handled
unfolding payload_with_source stale_answer approve_reply reject_approval
answer_approval env approving c r now db =
    let payload = payload_with_source r in
    if not (is_expected_target r c.expected_target_binding)
    then raised target_is_stale db
    else if source_payload_is_stale db.tasks.store payload
    then returns (stale_answer r now db)
    else answer_current env approving c r payload now db

abbrev pub outcome_allowed : Bool → Option ApprovalOutcome → Bool
outcome_allowed approving none = true
outcome_allowed true (some suggestion_sent) = true
outcome_allowed false (some no_send_keep_watching) = true
outcome_allowed false (some no_send_end_task) = true
outcome_allowed _ (some o) = false

abbrev several : ApprovalDb → Option TaskRow → Option (ℕ × List ApprovalRow)
several db none = none
several db (some t) =
    let pending = list_pending_approvals t.task.id db.tasks.store.approvals in
    if leb 2 (length pending) then some (t.task.id, pending) else none

-- a task with several pending approvals, if the target names one
abbrev pub conflicting : String → ApprovalDb → Option (ℕ × List ApprovalRow)
conflicting target db =
    if is_task_id target then several db (find_task target db.tasks.tasks) else none

abbrev pub answer_resolved :
    Env → Bool → ApprovalCommand → Option ApprovalRow → ℕ → ApprovalDb → Handled
answer_resolved env approving c none now db = raised not_found db
answer_resolved env approving c (some r) now db = answer_approval env approving c r now db

abbrev pub answer_unless :
    Env → Bool → ApprovalCommand → Option (ℕ × List ApprovalRow) → ℕ → ApprovalDb → Handled
answer_unless env approving c (some (task_id, pending)) now db =
    create_conflict_notification env db c.verb task_id c.target_id pending now
answer_unless env approving c none now db =
    answer_resolved env approving c
      (resolve_pending_approval c.target_id db.tasks.tasks db.tasks.store.approvals) now db

-- `true` for approve, `false` for reject
unfoldable pub approve_or_reject : Env → Bool → ApprovalCommand → ℕ → ApprovalDb → Handled
unfolding answer_approval create_conflict_notification
approve_or_reject env approving c now db =
    if outcome_allowed approving c.requested_outcome
    then answer_unless env approving c (conflicting c.target_id db) now db
    else raised outcome_not_valid db
