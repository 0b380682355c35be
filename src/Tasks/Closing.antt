-- ===== src/Tasks/Closing.antt =====
-- store/sqlite_store.py: how the operator closes a task and opens it again. A task is named by its id
-- here, as _get_task_by_lookup resolves a short id to it.
use feishu_shadow_agent.Prelude.{
  subst, if-holds, ℕ, Bool, true, false, not, ◌&&◌, Option, none, some, List, [], ◌∷◌, ◌≡◌, ◌+◌,
  arith, any, find?, filter, nat_eq, update_where, count_where, if◌then◌else◌, none-update_where,
  none-after,
}
use feishu_shadow_agent.Types.{
  Stamp, TaskStatus, ActionRecord, ActionStatus, is_active_task_status, is_pending, is_send_reply,
}
use feishu_shadow_agent.Store.{ApprovalRow}
use feishu_shadow_agent.Store.Dispatch.{set_status}
use feishu_shadow_agent.Store.Fence.{pending_of_approval, cancel_for_approval}
use feishu_shadow_agent.Store.Index.{equals_nat}
use feishu_shadow_agent.Tasks.{TaskDb, TaskRow, has_id}
use feishu_shadow_agent.Tasks.Attach.{update_task}
use feishu_shadow_agent.Tasks.Takeover.{
  cancel_for_approvals, expired_now, pending_approval_of, reply_in_progress,
}
use feishu_shadow_agent.Tasks.Handover.{none-cancel_for_approvals}

-- The result: what became of the task, with the counts of a closing. `none` is the KeyError.
pub record Changed : Type 0 where
  pub changed : Bool
  pub previous_status : TaskStatus
  pub expired_approvals : ℕ
  pub cancelled_actions : ℕ

abbrev unchanged : TaskRow → Changed
unchanged r = record {
  changed = false;
  previous_status = r.task.status;
  expired_approvals = 0;
  cancelled_actions = 0;
}

-- task_id = ? AND kind = 'owner_notification' AND status = 'pending'
abbrev pub notice_waiting : ℕ → ActionRecord → Bool
notice_waiting i a =
    equals_nat a.task_id (some i) && (not (is_send_reply a.kind) && is_pending a.status)

abbrev closed_by_owner : ℕ → TaskRow → TaskRow
closed_by_owner now r = record r {
  task = record r.task { status = TaskStatus.closed_by_owner };
  updated_at = now;
  closed_at = some now;
}

abbrev cancelled : ℕ → ActionRecord → ActionRecord
cancelled now = set_status ActionStatus.cancelled now

-- the actions after both updates by task: replies, then notifications
abbrev without_task_actions : ℕ → ℕ → List ActionRecord → List ActionRecord
without_task_actions i now rows =
    update_where (notice_waiting i) (cancelled now)
      (update_where (reply_in_progress i) (cancelled now) rows)

-- how many actions _cancel_pending_actions_for_approvals_locked changes
unfoldable pub count_for_approvals : List ApprovalRow → ℕ → List ActionRecord → ℕ
count_for_approvals [] now rows = 0
count_for_approvals (a ∷ rest) now rows =
    count_where (pending_of_approval a.id) rows
    + count_for_approvals rest now (cancel_for_approval a.id now rows)

-- _close_task_by_operator_locked: the tables, and how many approvals and actions it changed
unfoldable pub close_task_by_operator_locked : ℕ → ℕ → TaskDb → (ℕ × ℕ) × TaskDb
unfolding cancel_for_approvals count_for_approvals
close_task_by_operator_locked i now db =
    let due = filter (pending_approval_of i) db.store.approvals in
    let rows = db.store.actions in
    let unsent = update_where (reply_in_progress i) (cancelled now) rows in
    (
      (
        count_where (pending_approval_of i) db.store.approvals,
        count_where (reply_in_progress i) rows
            + count_where (notice_waiting i) unsent
            + count_for_approvals due now (without_task_actions i now rows),
      ),
      update_task i (closed_by_owner now) (record db {
        store = record db.store {
          actions = cancel_for_approvals due now (without_task_actions i now rows);
          approvals = update_where (pending_approval_of i) (expired_now now) db.store.approvals;
        };
      }),
    )

abbrev closed_with : TaskRow → (ℕ × ℕ) × TaskDb → Option (Changed × TaskDb)
closed_with r ((approvals, actions), db) = some (
  record {
    changed = true;
    previous_status = r.task.status;
    expired_approvals = approvals;
    cancelled_actions = actions;
  },
  db,
)

abbrev close_found : ℕ → ℕ → TaskDb → Option TaskRow → Option (Changed × TaskDb)
close_found i now db none = none
close_found i now db (some r) =
    if is_active_task_status r.task.status
    then closed_with r (close_task_by_operator_locked i now db)
    else some (unchanged r, db)

-- close_task_by_operator
unfoldable pub close_task_by_operator : ℕ → ℕ → TaskDb → Option (Changed × TaskDb)
unfolding close_task_by_operator_locked
close_task_by_operator i now db = close_found i now db (find? (has_id i) db.tasks)

abbrev reopened : Stamp → ℕ → TaskRow → TaskRow
reopened watch_until now r = record r {
  task = record r.task { status = TaskStatus.watching; watch_until = some watch_until };
  updated_at = now;
  closed_at = none;
}

abbrev reopen_found : ℕ → Stamp → ℕ → TaskDb → Option TaskRow → Option (Changed × TaskDb)
reopen_found i watch_until now db none = none
reopen_found i watch_until now db (some r) =
    if is_active_task_status r.task.status
    then some (unchanged r, db)
    else some (record (unchanged r) { changed = true }, update_task i (reopened watch_until now) db)

-- reopen_task_by_operator
unfoldable pub reopen_task_by_operator : ℕ → Stamp → ℕ → TaskDb → Option (Changed × TaskDb)
reopen_task_by_operator i watch_until now db =
    reopen_found i watch_until now db (find? (has_id i) db.tasks)

-- No reply of the task waits or is on its way, no notification of it waits, none of its approvals can
-- be answered.
abbrev pub IsQuiet : ℕ → TaskDb → Type 0
IsQuiet i db =
    (any (reply_in_progress i) db.store.actions ≡ false)
    × (any (notice_waiting i) db.store.actions ≡ false)
    × (any (pending_approval_of i) db.store.approvals ≡ false)

close-IsQuiet : (i now : ℕ) (db : TaskDb) → IsQuiet i (close_task_by_operator_locked i now db).1
unfolding close_task_by_operator_locked
close-IsQuiet i now db =
    let due = filter (pending_approval_of i) db.store.approvals in
    let rows = db.store.actions in
    let unsent = update_where (reply_in_progress i) (cancelled now) rows in
    (
      none-cancel_for_approvals (reply_in_progress i) now (λ a. ground arith) due _
          (none-after (reply_in_progress i) (notice_waiting i) (cancelled now) (λ a. ground arith)
            unsent
            (none-update_where (reply_in_progress i) (cancelled now) (λ a t. ground arith) rows)),
      none-cancel_for_approvals (notice_waiting i) now (λ a. ground arith) due _
          (none-update_where (notice_waiting i) (cancelled now) (λ a t. ground arith) unsent),
      none-update_where (pending_approval_of i) (expired_now now) (λ a t. ground arith)
          db.store.approvals,
    )

abbrev Ends : (Changed → TaskDb → Type 0) → Option (Changed × TaskDb) → Type 0
Ends P none = Unit
Ends P (some (c, db)) = P c db

abbrev QuietIfChanged : ℕ → Changed → TaskDb → Type 0
QuietIfChanged i c db = c.changed ≡ true → IsQuiet i db

close-Ends : (i now : ℕ) (db : TaskDb) → Ends (QuietIfChanged i) (close_task_by_operator i now db)
unfolding close_task_by_operator
close-Ends i now db = by (find? (has_id i) db.tasks)
  where
    by : (o : Option TaskRow) → Ends (QuietIfChanged i) (close_found i now db o)
    by none = tt
    by (some r) =
        if-holds (Ends (QuietIfChanged i)) (is_active_task_status r.task.status) _ _
          (λ active t. close-IsQuiet i now db) (λ closed t. cc)

reopen-Ends :
    (i later : ℕ) (watch_until : Stamp) (db : TaskDb)
    → IsQuiet i db
    → Ends (λ d. IsQuiet i) (reopen_task_by_operator i watch_until later db)
unfolding reopen_task_by_operator
reopen-Ends i later watch_until db q = by (find? (has_id i) db.tasks)
  where
    by : (o : Option TaskRow) → Ends (λ d. IsQuiet i) (reopen_found i watch_until later db o)
    by none = tt
    by (some r) =
        if-holds (Ends (λ d. IsQuiet i)) (is_active_task_status r.task.status) _ _ (λ active. q)
          (λ closed. q)

-- When the operator closed a task that was watched and opens it again with nothing in between, none of
-- its replies is pending or sending, none of its notifications is pending, and none of its approvals
-- is pending.
pub reopened-IsQuiet :
    (i now later : ℕ) (watch_until : Stamp) (db db' db'' : TaskDb) (c d : Changed)
    → close_task_by_operator i now db ≡ some (c, db')
    → c.changed ≡ true
    → reopen_task_by_operator i watch_until later db' ≡ some (d, db'')
    → IsQuiet i db''
reopened-IsQuiet i now later watch_until db db' db'' c d h changed k =
    let quiet : IsQuiet i db' = subst (Ends (QuietIfChanged i)) h (close-Ends i now db) changed in
    subst (Ends (λ e. IsQuiet i)) k (reopen-Ends i later watch_until db' quiet)
