-- ===== src/Store/Lifecycle/Settling.antt =====
-- What recovery, expiry and fencing do to the statuses of actions.
use feishu_shadow_agent.Prelude.{
  ℕ, String, nat_eq, string_eq, any, true, Option, none, some, List, [], ◌∷◌, ◌≡◌, refl, arith,
  Bool-cases, inl, inr,
}
use feishu_shadow_agent.Types.{
  is_sending, ActionStatus, ActionRecord, DispatchAttemptRecord, sent, failed_needs_review,
  cancelled,
}
use feishu_shadow_agent.Store.{Db, ApprovalRow, latest_attempt}
use feishu_shadow_agent.Store.Dispatch.{at_status, set_status, set_result}
use feishu_shadow_agent.Store.Recovery.{
  find_stale_sending_actions, attempt_proves_readback, stale_sent_result, stale_needs_review_result,
  recover_with, recover_row, mark_stale_sending_actions, recover_rows,
}
use feishu_shadow_agent.Store.Fence.{
  expire_approval, approval_pending_at, pending_of_approval, cancels, cancel_stale, fences,
  fence_sending, expire_approvals, invalidate_stale_revision_side_effects,
}
use feishu_shadow_agent.Store.Moves.{Moves, Moves-refl, Moves-trans, Moves-weaken}
use feishu_shadow_agent.Store.Lifecycle.{settles, fenced, automatic}
use feishu_shadow_agent.Store.Lifecycle.Rules.{update-Moves}

settles_trans :
    (s t u : ActionStatus) → settles s t ≡ true → settles t u ≡ true → settles s u ≡ true
settles_trans s t u p q = ground arith

settles_refl : (s : ActionStatus) → settles s s ≡ true
settles_refl s = ground arith

pub settles-automatic : (s t : ActionStatus) → settles s t ≡ true → automatic s t ≡ true
settles-automatic s t p = ground arith

recover_with-Moves :
    (now : ℕ) (row : ActionRecord) (latest : Option DispatchAttemptRecord) (db : Db)
    → Moves settles db.actions (recover_with now row latest db).actions
unfolding recover_with
recover_with-Moves now row none db =
    update-Moves settles (at_status row.id is_sending)
      (set_result failed_needs_review (stale_needs_review_result row none) now) db.actions
      (λ r. refl) (λ r. refl) (λ r. refl) (λ r. ground arith)
recover_with-Moves now row (some latest) db =
    elim (Bool-cases (attempt_proves_readback (some latest))) [
      | inl t ↦ rw t (
          update-Moves settles (at_status row.id is_sending)
            (set_result sent (stale_sent_result row latest) now) db.actions (λ r. refl) (λ r. refl)
            (λ r. refl) (λ r. ground arith))
      | inr t ↦ rw t (
          update-Moves settles (at_status row.id is_sending)
            (set_result failed_needs_review (stale_needs_review_result row (some latest)) now)
            db.actions (λ r. refl) (λ r. refl) (λ r. refl) (λ r. ground arith))
    ]

recover_rows-Moves :
    (now : ℕ) (rows : List ActionRecord) (db : Db)
    → Moves settles db.actions (recover_rows now rows db).1.actions
unfolding recover_rows
recover_rows-Moves now [] db = Moves-refl settles settles_refl db.actions
recover_rows-Moves now (row ∷ rows) db =
    Moves-trans settles_trans (recover_with-Moves now row (latest_attempt row.id db.attempts) db)
      (recover_rows-Moves now rows (recover_row now row db))

pub recover-Moves :
    (db : Db) (seconds now : ℕ)
    → Moves automatic db.actions (mark_stale_sending_actions db seconds now).1.actions
unfolding mark_stale_sending_actions
recover-Moves db seconds now =
    Moves-weaken settles-automatic
      (recover_rows-Moves now (find_stale_sending_actions db seconds now) db)

fenced_trans : (s t u : ActionStatus) → fenced s t ≡ true → fenced t u ≡ true → fenced s u ≡ true
fenced_trans s t u p q = ground arith

pub fenced-automatic : (s t : ActionStatus) → fenced s t ≡ true → automatic s t ≡ true
fenced-automatic s t p = ground arith

fenced_refl : (s : ActionStatus) → fenced s s ≡ true
fenced_refl s = ground arith

expire_approval-Moves :
    (now : ℕ) (a : ApprovalRow) (db : Db)
    → Moves fenced db.actions (expire_approval now a db).actions
unfolding expire_approval
expire_approval-Moves now a db = elim (Bool-cases (any (approval_pending_at a.id) db.approvals)) [
  | inl t ↦ rw t (
      update-Moves fenced (pending_of_approval a.id) (set_status cancelled now) db.actions
        (λ r. refl) (λ r. refl) (λ r. refl) (λ r. ground arith))
  | inr t ↦ rw t (Moves-refl fenced fenced_refl db.actions)
]

pub expire_approvals-Moves :
    (now : ℕ) (rows : List ApprovalRow) (db : Db)
    → Moves fenced db.actions (expire_approvals now rows db).1.actions
unfolding expire_approvals
expire_approvals-Moves now [] db = Moves-refl fenced fenced_refl db.actions
expire_approvals-Moves now (a ∷ rest) db =
    Moves-trans fenced_trans (expire_approval-Moves now a db)
      (expire_approvals-Moves now rest (expire_approval now a db))

pub fence-Moves :
    (db : Db) (m : String) (current : ℕ) (reason : String) (now : ℕ)
    → Moves fenced db.actions
        (invalidate_stale_revision_side_effects db m current reason now).1.actions
unfolding invalidate_stale_revision_side_effects
fence-Moves db m current reason now = Moves-trans fenced_trans (expire_approvals-Moves now _ db) (
    Moves-trans fenced_trans
      (update-Moves fenced (cancels m current) (cancel_stale reason m now) _ (λ r. refl) (λ r. refl)
        (λ r. refl) (λ r. ground arith))
      (update-Moves fenced (fences m current) (fence_sending reason m now) _ (λ r. refl) (λ r. refl)
        (λ r. refl) (λ r. ground arith)))
