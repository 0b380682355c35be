-- ===== src/Store/Fence.antt =====
-- store/sqlite_store.py: when a message is edited or deleted, the approvals and actions of its older
-- revisions are fenced; an approval that has expired takes its pending actions with it.
use feishu_shadow_agent.Prelude.{
  ℕ, ◌+◌, String, Bool, true, false, not, ◌&&◌, ◌||◌, Option, none, some, List, [], ◌∷◌, ◌==◌, any,
  if◌then◌else◌, nat_eq, string_eq, filter, sort_by, update_where, count_where, ltb, leb,
}
use feishu_shadow_agent.Json.{bool, str, Fields, end, put}
use feishu_shadow_agent.Types.{
  ActionStatus, ActionRecord, ApprovalStatus, is_pending, is_failed, is_sending,
  is_pending_approval,
}
use feishu_shadow_agent.Store.{Db, ApprovalRow}
use feishu_shadow_agent.Store.Dispatch.{set_status}
use feishu_shadow_agent.Store.Index.{equals_nat, equals_text}

abbrev pub pending_of_approval : ℕ → ActionRecord → Bool
pending_of_approval approval r = equals_nat r.approval_id (some approval) && is_pending r.status

-- _cancel_pending_actions_for_approvals_locked, for one approval: the rows, and how many it changed
abbrev pub cancel_for_approval : ℕ → ℕ → List ActionRecord → List ActionRecord
cancel_for_approval approval now rows =
    update_where (pending_of_approval approval) (set_status ActionStatus.cancelled now) rows

abbrev pub expire : ℕ → ApprovalRow → ApprovalRow
expire now r = record r { status = ApprovalStatus.expired; resolved_at = some now }

abbrev pub approval_pending_at : ℕ → ApprovalRow → Bool
approval_pending_at i r = r.id == i && is_pending_approval r.status

-- How many of each were changed.
pub record Fenced : Type 0 where
  pub expired_approvals : ℕ
  pub cancelled_actions : ℕ
  pub uncertain_actions : ℕ

-- one approval: expire it, and cancel its pending actions if it was still pending
unfoldable pub expire_approval : ℕ → ApprovalRow → Db → Db
expire_approval now a db =
    if any (approval_pending_at a.id) db.approvals
    then record db {
      approvals = update_where (approval_pending_at a.id) (expire now) db.approvals;
      actions = cancel_for_approval a.id now db.actions;
    }
    else db

-- what that adds to the numbers of expired approvals and of cancelled actions
unfoldable pub expire_counts : ApprovalRow → Db → ℕ × ℕ
expire_counts a db =
    if any (approval_pending_at a.id) db.approvals
    then (1, count_where (pending_of_approval a.id) db.actions)
    else (0, 0)

unfoldable pub expire_approvals : ℕ → List ApprovalRow → Db → (ℕ × ℕ) × Db
unfolding expire_approval expire_counts
expire_approvals now [] db = ((0, 0), db)
expire_approvals now (a ∷ rest) db =
    let (more, db') = expire_approvals now rest (expire_approval now a db) in
    let (e, c) = expire_counts a db in ((e + more.0, c + more.1), db')

abbrev before : Option ℕ → ℕ → Bool
before none now = false
before (some t) now = ltb t now

abbrev approval_is_due : ℕ → ApprovalRow → Bool
approval_is_due now r = is_pending_approval r.status && before r.expires_at now

abbrev not_excluded : Option ℕ → ApprovalRow → Bool
not_excluded none r = true
not_excluded (some task_id) r = not (equals_nat r.task_id (some task_id))

abbrev instant_or_zero : Option ℕ → ℕ
instant_or_zero none = 0
instant_or_zero (some t) = t

abbrev expiry_order : ApprovalRow → ApprovalRow → Bool
expiry_order a b =
    ltb (instant_or_zero a.expires_at) (instant_or_zero b.expires_at)
    || (instant_or_zero a.expires_at == instant_or_zero b.expires_at && leb a.id b.id)

-- _expire_pending_approvals_locked: how many approvals expired
unfoldable pub expire_pending_approvals : Db → ℕ → Option ℕ → ℕ × Db
expire_pending_approvals db now exclude_task_id =
    let (counts, db') =
      expire_approvals now
        (sort_by expiry_order
          (filter (λ r. approval_is_due now r && not_excluded exclude_task_id r) db.approvals))
        db in
    (counts.0, db')

-- source_message_id = ? AND source_revision IS NOT NULL AND source_revision != ?
abbrev pub is_other_revision : String → ℕ → Option String → Option ℕ → Bool
is_other_revision m current source none = false
is_other_revision m current source (some r) = equals_text source (some m) && not (r == current)

abbrev pub cancels : String → ℕ → ActionRecord → Bool
cancels m current r =
    is_other_revision m current r.source_message_id r.source_revision
    && (is_pending r.status || is_failed r.status)

abbrev pub fences : String → ℕ → ActionRecord → Bool
fences m current r =
    is_other_revision m current r.source_message_id r.source_revision && is_sending r.status

abbrev fence_result : String → String → Fields → Fields
fence_result reason m result =
    put "no_retry" (bool true) (put "source_message_id" (str m) (put "reason" (str reason) result))

abbrev pub cancel_stale : String → String → ℕ → ActionRecord → ActionRecord
cancel_stale reason m now r = record r {
  status = ActionStatus.cancelled;
  result = put "source_message_id" (str m) (put "reason" (str reason) end);
  updated_at = now;
}

abbrev pub fence_sending : String → String → ℕ → ActionRecord → ActionRecord
fence_sending reason m now r = record r {
  status = ActionStatus.failed_needs_review;
  result = fence_result reason m r.result;
  updated_at = now;
}

abbrev pub stale_approval : String → ℕ → ApprovalRow → Bool
stale_approval m current r =
    is_pending_approval r.status
    && is_other_revision m current r.source_message_id r.source_revision

-- invalidate_stale_revision_side_effects
unfoldable pub invalidate_stale_revision_side_effects : Db → String → ℕ → String → ℕ → Fenced × Db
invalidate_stale_revision_side_effects db m current reason now =
    let (counts, db') = expire_approvals now (filter (stale_approval m current) db.approvals) db in
    let actions = update_where (cancels m current) (cancel_stale reason m now) db'.actions in
    (
      record {
        expired_approvals = counts.0;
        cancelled_actions = counts.1 + count_where (cancels m current) db'.actions;
        uncertain_actions = count_where (fences m current) actions;
      },
      record db' { actions = update_where (fences m current) (fence_sending reason m now) actions },
    )
