-- ===== src/Approvals/Rejected.antt =====
-- What is left of a task when its approval was rejected for good.
use feishu_shadow_agent.Prelude.{
  none-updated, filter, none-after, ℕ, String, false, Option, some, none, ◌≡◌, refl, arith, any,
  nat_eq, none-update_where, update_where,
}
use feishu_shadow_agent.Types.{ApprovalStatus, ApprovalOutcome, ActionRecord, ActionStatus}
use feishu_shadow_agent.Store.{ApprovalRow}
use feishu_shadow_agent.Tasks.{has_id}
use feishu_shadow_agent.Tasks.Handover.{none-cancel_for_approvals}
use feishu_shadow_agent.Approvals.{
  returns, answered_result, List, ApprovalCommand, ApprovalDb, CommandResult, Env,
}
use feishu_shadow_agent.Approvals.Cases.{
  returned, watched_task, with_feedback, IsPendingIn, Endings,
}
use feishu_shadow_agent.Approvals.Resolve.{
  closed_after_reject, closed_for, close_task_after_reject, pending_reply,
}
use feishu_shadow_agent.Approvals.Feedback.{resolved, set_approval, stale_answer}
use feishu_shadow_agent.Store.Fence.{pending_of_approval}
use feishu_shadow_agent.Tasks.Takeover.{expired_now, pending_approval_of}
use feishu_shadow_agent.Approvals.Command.{apply_approval_command_locked}
use feishu_shadow_agent.Store.Dispatch.{set_status}
use feishu_shadow_agent.Approvals.Cases.Sends.{command-Endings}

-- No reply of the task waits, none of its approvals can be answered, and it is not watched; a row of
-- the table with this short id was pending in the task, and no action of it waits.
abbrev pub IsOver : ApprovalDb → ApprovalDb → String → ℕ → Type 0
IsOver db db' short_id task_id =
    (any (pending_reply task_id) db'.tasks.store.actions ≡ false)
    × (any (pending_approval_of task_id) db'.tasks.store.approvals ≡ false)
    × (any (watched_task task_id) db'.tasks.tasks ≡ false)
    × ((r : ApprovalRow) × IsPendingIn db r
        × (r.short_id ≡ short_id)
        × (r.task_id ≡ some task_id)
        × (any (pending_of_approval r.id) db'.tasks.store.actions ≡ false))

abbrev OfTask : ApprovalDb → ApprovalDb → String → Option ℕ → Option ℕ → Type 0
OfTask db db' s (some id) task_id = Unit
OfTask db db' s none none = Unit
OfTask db db' s none (some task_id) = IsOver db db' s task_id

abbrev Over : ApprovalDb → CommandResult × ApprovalDb → Type 0
Over db (answered_result s task_id action_id outcome, db') = OfTask db db' s action_id task_id
Over db x = Unit

none-pending_of_approval :
    (i j now : ℕ) (rows : List ActionRecord)
    → any (pending_of_approval i) rows ≡ false
    → any
        (pending_of_approval i)
        (update_where (pending_of_approval j) (set_status ActionStatus.cancelled now) rows)
      ≡ false
none-pending_of_approval i j now rows h =
    none-after (pending_of_approval i) (pending_of_approval j)
      (set_status ActionStatus.cancelled now) (λ r. ground arith) rows h

closed_is_over :
    (r : ApprovalRow) (now : ℕ) (db d : ApprovalDb) (o : Option ℕ)
    → r.task_id ≡ o
    → IsPendingIn db r
    → OfTask db (closed_for o r.id now d) r.short_id none o
unfolding close_task_after_reject
closed_is_over r now db d none h p = tt
closed_is_over r now db d (some i) h p =
    let store = d.tasks.store in
    let replies =
      update_where (pending_reply i) (set_status ActionStatus.cancelled now) store.actions in
    let due = filter (pending_approval_of i) store.approvals in
    (
      none-cancel_for_approvals (pending_reply i) now (λ a. ground arith) due _
          (none-after (pending_reply i) (pending_of_approval r.id)
            (set_status ActionStatus.cancelled now) (λ a. ground arith) replies
            (none-update_where (pending_reply i) (set_status ActionStatus.cancelled now)
              (λ a t. ground arith) store.actions)),
      none-update_where (pending_approval_of i) (expired_now now) (λ a t. ground arith)
          store.approvals,
      closed i,
      (
        r,
        p,
        refl,
        h,
        none-cancel_for_approvals (pending_of_approval r.id) now (λ a. ground arith) due _
            (none-update_where (pending_of_approval r.id) (set_status ActionStatus.cancelled now)
              (λ a t. ground arith) replies),
      ),
    )
  where
    closed :
        (i : ℕ)
        → any (watched_task i) (update_where (has_id i) (closed_after_reject now) d.tasks.tasks)
          ≡ false
    closed i =
        none-updated (watched_task i) (has_id i) (closed_after_reject now) (λ t u. ground arith)
          (λ t u. ground arith) d.tasks.tasks

Over-endings :
    (env : Env) (c : ApprovalCommand) (now : ℕ) (db : ApprovalDb) → Endings env c now db (Over db)
unfolding stale_answer
Over-endings env c now db = record {
  conflicts = λ n s ids id store q. tt;
  expires = λ r payload p s. tt;
  keeps = λ r i n row p q u. tt;
  ends = λ r o row p u.
      closed_is_over r now db
        (with_feedback row (set_approval r.id (resolved ApprovalStatus.rejected now) db)) r.task_id
        refl p;
  approves = λ r i t payload id store o row v p q w f made u. tt;
  replaces = λ r i t payload id store o row v p q w f made u. tt;
  writes = λ s i t payload id store o row v w made u. tt;
}

-- When a command answers an approval of a task without a reply, and neither keeps the task watched nor
-- finds its source stale, the approval with the reported short id was a pending row of the table, of
-- this task, and the task is over: it is not watched, none of its replies is pending, none of its
-- approvals is pending, and no action of the answered approval is pending.
pub rejected_task-IsOver :
    (env : Env) (c : ApprovalCommand) (now : ℕ) (db db' : ApprovalDb) (short_id : String)
    (task_id : ℕ) (outcome : ApprovalOutcome)
    → apply_approval_command_locked env c now db
      ≡ returns (answered_result short_id (some task_id) none outcome, db')
    → IsOver db db' short_id task_id
rejected_task-IsOver env c now db db' short_id task_id outcome h =
    returned (Over db) _ (answered_result short_id (some task_id) none outcome, db')
      (command-Endings env c now db (Over db) (Over-endings env c now db)) h
