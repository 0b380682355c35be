-- ===== src/Tasks/Takeover.antt =====
-- store/sqlite_store.py: what happens to a task when its owner answers by himself. Its replies that
-- wait or are on their way are cancelled and its approvals expire.
use feishu_shadow_agent.Prelude.{
  ℕ, Bool, ◌&&◌, ◌||◌, some, List, [], ◌∷◌, filter, nat_eq, update_where, false,
}
use feishu_shadow_agent.Types.{
  human_taken_over, TaskRecord, RouteDecision, RouteName, NormalizedMessage, ActionRecord,
  ActionStatus, ApprovalStatus, is_pending, is_sending, is_send_reply, is_pending_approval,
}
use feishu_shadow_agent.Store.{ApprovalRow}
use feishu_shadow_agent.Store.Dispatch.{set_status}
use feishu_shadow_agent.Store.Index.{equals_nat}
use feishu_shadow_agent.Store.Fence.{cancel_for_approval}
use feishu_shadow_agent.Tasks.{TaskDb, TaskRow}
use feishu_shadow_agent.Tasks.Attach.{update_task}
use feishu_shadow_agent.Tasks.Audits.{record_routing_audit}

abbrev pub taken_over : ℕ → TaskRow → TaskRow
taken_over now r = record r {
  task = record r.task { status = human_taken_over };
  updated_at = now;
  closed_at = some now;
}

-- task_id = ? AND kind = 'send_reply' AND status IN ('pending', 'sending')
abbrev pub reply_in_progress : ℕ → ActionRecord → Bool
reply_in_progress i a =
    equals_nat a.task_id (some i)
    && (is_send_reply a.kind && (is_pending a.status || is_sending a.status))

-- task_id = ? AND status = 'pending'
abbrev pub pending_approval_of : ℕ → ApprovalRow → Bool
pending_approval_of i r = equals_nat r.task_id (some i) && is_pending_approval r.status

abbrev pub expired_now : ℕ → ApprovalRow → ApprovalRow
expired_now now r = record r { status = ApprovalStatus.expired; resolved_at = some now }

-- _cancel_pending_actions_for_approvals_locked
unfoldable pub cancel_for_approvals : List ApprovalRow → ℕ → List ActionRecord → List ActionRecord
cancel_for_approvals [] now rows = rows
cancel_for_approvals (a ∷ rest) now rows =
    cancel_for_approvals rest now (cancel_for_approval a.id now rows)

-- _close_task_for_owner_takeover
unfoldable pub close_task_for_owner_takeover : ℕ → ℕ → TaskDb → TaskDb
unfolding cancel_for_approvals
close_task_for_owner_takeover i now db = update_task i (taken_over now) (record db {
  store = record db.store {
    actions = cancel_for_approvals (filter (pending_approval_of i) db.store.approvals) now (
        update_where (reply_in_progress i) (set_status ActionStatus.cancelled now)
          db.store.actions);
    approvals = update_where (pending_approval_of i) (expired_now now) db.store.approvals;
  };
})

abbrev pub owner_answers : TaskRecord → RouteDecision
owner_answers task = record {
  route = RouteName.human_taken_over;
  target_task_id = some task.id;
  reason = "owner_message_related_to_active_task";
  candidates_count = 1;
  shortcut_hit = false;
  router_called = false;
  matched_by = some "owner_takeover";
}

-- close_task_for_owner_takeover_and_audit
unfoldable pub close_task_for_owner_takeover_and_audit :
    TaskRecord → NormalizedMessage → ℕ → TaskDb → RouteDecision × TaskDb
unfolding close_task_for_owner_takeover record_routing_audit
close_task_for_owner_takeover_and_audit task m now db =
    let d = owner_answers task in
    (
      d,
      record_routing_audit m.message_id m.revision d now
          (close_task_for_owner_takeover task.id now db),
    )
