-- ===== src/Tasks/Handover.antt =====
-- What is left of a task that its owner took over.
use feishu_shadow_agent.Prelude.{
  Bool, none-update_where, none-after, ℕ, false, some, List, [], ◌∷◌, any, find?, nat_eq,
  update_where, filter, ◌≡◌, arith, ap,
}
use feishu_shadow_agent.Types.{ActionRecord, ActionStatus, human_taken_over}
use feishu_shadow_agent.Store.{ApprovalRow}
use feishu_shadow_agent.Store.Dispatch.{set_status}
use feishu_shadow_agent.Store.Fence.{pending_of_approval}
use feishu_shadow_agent.Tasks.{TaskDb, TaskRow, has_id, task_of, get_task_by_id}
use feishu_shadow_agent.Tasks.Takeover.{
  close_task_for_owner_takeover, reply_in_progress, pending_approval_of, expired_now, taken_over,
  cancel_for_approvals,
}

cancelled-idle :
    (i now : ℕ) (r : ActionRecord)
    → reply_in_progress i (set_status ActionStatus.cancelled now r) ≡ false
cancelled-idle i now r = ground arith

-- a test that no cancelled action passes still fails everywhere after more cancellations
pub none-cancel_for_approvals :
    (p : ActionRecord → Bool) (now : ℕ)
    → ((r : ActionRecord) → p (set_status ActionStatus.cancelled now r) ≡ false)
    → (approvals : List ApprovalRow) (rows : List ActionRecord) → any p rows ≡ false
    → any p (cancel_for_approvals approvals now rows) ≡ false
unfolding cancel_for_approvals
none-cancel_for_approvals p now h [] rows n = n
none-cancel_for_approvals p now h (a ∷ rest) rows n =
    none-cancel_for_approvals p now h rest _
      (none-after p (pending_of_approval a.id) (set_status ActionStatus.cancelled now) h rows n)

find-taken :
    (i now : ℕ) (rows : List TaskRow) (r : TaskRow)
    → find? (has_id i) rows ≡ some r
    → find? (has_id i) (update_where (has_id i) (taken_over now) rows) ≡ some (taken_over now r)
unfolding update_where
find-taken i now [] r h = cc
find-taken i now (x ∷ rows) r h = ground (arith, find-taken i now rows r)

-- When the owner takes a task over, none of its replies waits or is on its way any more, none of its
-- approvals can be answered, and the task is no longer watched: its status is human_taken_over.
pub takeover_leaves_nothing :
    (i now : ℕ) (db : TaskDb) (r : TaskRow)
    → find? (has_id i) db.tasks ≡ some r
    → let db' = close_task_for_owner_takeover i now db in
      (any (reply_in_progress i) db'.store.actions ≡ false)
      × ((any (pending_approval_of i) db'.store.approvals ≡ false)
          × (get_task_by_id db' i ≡ some (record r.task { status = human_taken_over })))
unfolding close_task_for_owner_takeover get_task_by_id
takeover_leaves_nothing i now db r h = (
  none-cancel_for_approvals (reply_in_progress i) now (cancelled-idle i now)
      (filter (pending_approval_of i) db.store.approvals) _
      (none-update_where (reply_in_progress i) (set_status ActionStatus.cancelled now)
        (λ x t. cancelled-idle i now x) db.store.actions),
  (
    none-update_where (pending_approval_of i) (expired_now now) (λ x t. ground arith)
        db.store.approvals,
    ap task_of (find-taken i now db.tasks r h),
  ),
)
