-- ===== src/Store/Claims.antt =====
-- store/sqlite_store.py: who may work on an action. A claim takes it once, it is finished once, and
-- a send that was under way when its source was edited is still recorded.
use feishu_shadow_agent.Prelude.{
  ℕ, String, Bool, true, false, Option, none, some, List, [], ◌∷◌, ◌≡◌, ◌⊎◌, refl, ap, ◌∙◌, arith,
  ◌==◌, any, if◌then◌else◌, nat_eq, string_eq, option_eq, Bool-cases, inl, inr, update_where,
}
use feishu_shadow_agent.Json.{Fields}
use feishu_shadow_agent.Types.{
  ActionStatus, ActionRecord, DispatchAttemptRecord, sending, sent, failed_needs_review, is_pending,
  is_sending, is_failed_needs_review,
}
use feishu_shadow_agent.Store.{Db, ApprovalRow, find_action, latest_attempt}
use feishu_shadow_agent.Store.Dispatch.{
  claim_action_for_dispatch, finish_claimed_action, finish_checked, finish_current, at_status,
  set_status, set_result, same_sent_message, written, merged_result,
}
use feishu_shadow_agent.Store.Fence.{
  expire_approval, expire_approvals, invalidate_stale_revision_side_effects,
}
use feishu_shadow_agent.Store.Lifecycle.Settling.{fence-Moves}
use feishu_shadow_agent.Store.Moves.{find-update_where, find-id}

any-update_where :
    (p : ActionRecord → Bool) (f : ActionRecord → ActionRecord) (rows : List ActionRecord)
    → ((r : ActionRecord) → p (if p r then f r else r) ≡ false)
    → any p (update_where p f rows) ≡ false
unfolding update_where
any-update_where p f [] h = refl
any-update_where p f (r ∷ rows) h = ground (arith, h r, any-update_where p f rows h)

-- An action is claimed once: straight after a claim, whether it was granted or not, another claim
-- of the same action is refused and changes nothing.
pub claim_exclusive :
    (db : Db) (i now later : ℕ)
    → claim_action_for_dispatch (claim_action_for_dispatch db i now).1 i later
      ≡ (none, (claim_action_for_dispatch db i now).1)
unfolding claim_action_for_dispatch
claim_exclusive db i now later = elim (Bool-cases (any (at_status i is_pending) db.actions)) [
  | inr f ↦ rw f (rw f refl)
  | inl t ↦ rw t (
      rw
        (any-update_where (at_status i is_pending) (set_status sending now) db.actions
          (λ r. ground arith))
        refl)
]

-- an end that is recorded returns the row as it then stands, with the status that was written
record Closed (i : ℕ) (status : ActionStatus) (x : Option ActionRecord × Db) : Type 0 where
  row :
      (row : ActionRecord)
      → x.0 ≡ some row
      → (find_action i x.1.actions ≡ some row) × ((row.status ≡ status) ⊎ (row.status ≡ sent))

module _ (db : Db) (i now : ℕ) (result : Fields) (a : ActionRecord)
    (found : find_action i db.actions ≡ some a) where
  -- what an update of the action writes
  found_written :
      (p : ActionStatus → Bool) (status : ActionStatus) (r : Fields)
      → p a.status ≡ true
      → (written db i p status r now).0 ≡ some (set_result status r now a)
  found_written p status r h =
      let e =
        find-update_where (at_status i p) (set_result status r now) (λ x. refl) i db.actions a
          found in
      ground (arith, find-id i db.actions a found)

expire_approvals-attempts :
    (now : ℕ) (rows : List ApprovalRow) (db : Db)
    → (expire_approvals now rows db).1.attempts ≡ db.attempts
unfolding expire_approvals expire_approval
expire_approvals-attempts now [] db = refl
expire_approvals-attempts now (a ∷ rest) db =
    expire_approvals-attempts now rest (expire_approval now a db) ∙ kept
  where
    kept : (expire_approval now a db).attempts ≡ db.attempts
    kept = ground arith

fence-attempts :
    (db : Db) (m : String) (current : ℕ) (reason : String) (now : ℕ)
    → (invalidate_stale_revision_side_effects db m current reason now).1.attempts ≡ db.attempts
unfolding invalidate_stale_revision_side_effects
fence-attempts db m current reason now = expire_approvals-attempts now _ db

nat_same : (n : ℕ) → (n == n) ≡ true
nat_same n = ground arith

-- the end of an action that is being sent, or was fenced meanwhile, and whose attempt has the id
sent_is_recorded :
    (db : Db) (i now : ℕ) (result : Fields) (a : ActionRecord) (latest : DispatchAttemptRecord)
    → find_action i db.actions ≡ some a
    → latest_attempt i db.attempts ≡ some latest
    → (a.status ≡ sending) ⊎ (a.status ≡ failed_needs_review)
    → same_sent_message latest.sent_message_id result ≡ true
    → (row : ActionRecord) × ((finish_claimed_action db i latest.id sent result now).0 ≡ some row)
      × (row.status ≡ sent)
unfolding finish_claimed_action finish_checked finish_current
sent_is_recorded db i now result a latest found attempt w h = elim w [
  | inl s ↦
      rw (found, attempt, s)
        (
          set_result sent result now a,
          rw (nat_same latest.id)
              (found_written db i now result a found is_sending sent result (ground arith)),
          refl,
        )
  | inr s ↦
      rw (found, attempt, s)
        (
          set_result sent (merged_result a.result result) now a,
          rw (nat_same latest.id, h)
              (found_written db i now result a found is_failed_needs_review sent
                (merged_result a.result result) (ground arith)),
          refl,
        )
]

-- A reply whose send is under way when its source message is edited or deleted is still recorded as
-- sent: if the action is in `sending` and its latest attempt has the id of the sent message, then
-- after the fence of the older revisions the end of that attempt with this id succeeds.
pub sent_despite_fence :
    (db : Db) (i now later : ℕ) (m reason : String) (current : ℕ) (result : Fields)
    (a : ActionRecord) (latest : DispatchAttemptRecord)
    → find_action i db.actions ≡ some a
    → a.status ≡ sending
    → latest_attempt i db.attempts ≡ some latest
    → same_sent_message latest.sent_message_id result ≡ true
    → (row : ActionRecord) × ((finish_claimed_action
          (invalidate_stale_revision_side_effects db m current reason now).1
          i
          latest.id
          sent
          result
          later).0
        ≡ some row)
      × (row.status ≡ sent)
sent_despite_fence db i now later m reason current result a latest found s attempt same =
    let (b, at, moved) = (fence-Moves db m current reason now).at i a found in
    sent_is_recorded (invalidate_stale_revision_side_effects db m current reason now).1 i later
      result b latest at
      (cc (attempt, ap (λ x. latest_attempt i x) (fence-attempts db m current reason now)))
      (ground (arith, s, moved.status)) same
