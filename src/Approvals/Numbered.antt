-- ===== src/Approvals/Numbered.antt =====
-- The ids of approvals, through updates and insertions of rows.
use feishu_shadow_agent.Prelude.{
  inr, inl, ℕ, suc, Bool, true, false, not, ◌&&◌, List, [], ◌∷◌, ◌++◌, ◌≡◌, ◌==◌, refl, arith, any,
  all, some, find?, ltb, nat_eq, nat_beq_iff, Bool-cases, update_where, sym,
}
use feishu_shadow_agent.Types.{is_pending_approval}
use feishu_shadow_agent.Store.{ApprovalRow}
use feishu_shadow_agent.Store.Fence.{approval_pending_at}
use feishu_shadow_agent.Approvals.Feedback.{approval_with_id}

-- PRIMARY KEY AUTOINCREMENT: the ids differ, and the next one is above them.
abbrev pub below : ℕ → ApprovalRow → Bool
below n r = ltb r.id n

abbrev pub distinct_ids : List ApprovalRow → Bool
distinct_ids [] = true
distinct_ids (x ∷ xs) = not (any (approval_with_id x.id) xs) && distinct_ids xs

abbrev pub IsNumbered : ℕ → List ApprovalRow → Type 0
IsNumbered n rows = (distinct_ids rows ≡ true) × (all (below n) rows ≡ true)

any-update :
    (i : ℕ) (q : ApprovalRow → Bool) (f : ApprovalRow → ApprovalRow)
    → ((r : ApprovalRow) → (f r).id ≡ r.id)
    → (rows : List ApprovalRow)
    → any (approval_with_id i) (update_where q f rows) ≡ any (approval_with_id i) rows
unfolding update_where
any-update i q f same [] = refl
any-update i q f same (x ∷ xs) = elim (Bool-cases (q x)) [
  | inl t ↦ rw t (rw (same x) (rw (any-update i q f same xs) refl))
  | inr t ↦ rw t (rw (any-update i q f same xs) refl)
]

pub distinct-update :
    (q : ApprovalRow → Bool) (f : ApprovalRow → ApprovalRow)
    → ((r : ApprovalRow) → (f r).id ≡ r.id)
    → (rows : List ApprovalRow) → distinct_ids (update_where q f rows) ≡ distinct_ids rows
unfolding update_where
distinct-update q f same [] = refl
distinct-update q f same (x ∷ xs) = elim (Bool-cases (q x)) [
  | inl t ↦
      rw t (rw (same x) (rw (any-update x.id q f same xs) (rw (distinct-update q f same xs) refl)))
  | inr t ↦ rw t (rw (any-update x.id q f same xs) (rw (distinct-update q f same xs) refl))
]

pub below-update :
    (n : ℕ) (q : ApprovalRow → Bool) (f : ApprovalRow → ApprovalRow)
    → ((r : ApprovalRow) → (f r).id ≡ r.id)
    → (rows : List ApprovalRow) → all (below n) (update_where q f rows) ≡ all (below n) rows
unfolding update_where
below-update n q f same [] = refl
below-update n q f same (x ∷ xs) = elim (Bool-cases (q x)) [
  | inl t ↦ rw t (rw (same x) (rw (below-update n q f same xs) refl))
  | inr t ↦ rw t (rw (below-update n q f same xs) refl)
]

fresh-append :
    (i : ℕ) (rows : List ApprovalRow) (r : ApprovalRow)
    → any (approval_with_id i) rows ≡ false
    → (r.id == i) ≡ false
    → any (approval_with_id i) (rows ++ r ∷ []) ≡ false
fresh-append i [] r h u = ground arith
fresh-append i (x ∷ xs) r h u = ground (arith, fresh-append i xs r)

pub IsNumbered-append :
    (n : ℕ) (rows : List ApprovalRow) (r : ApprovalRow)
    → r.id ≡ n
    → IsNumbered n rows
    → IsNumbered (suc n) (rows ++ r ∷ [])
IsNumbered-append n [] r e (d, b) = (refl, ground arith)
IsNumbered-append n (x ∷ xs) r e (d, b) =
    let (d', b') = IsNumbered-append n xs r e (ground arith, ground arith) in
    let fresh = fresh-append x.id xs r (ground arith) (ground arith) in (rw fresh d', ground arith)

none-pending :
    (i : ℕ) (rows : List ApprovalRow)
    → any (approval_with_id i) rows ≡ false
    → any (approval_pending_at i) rows ≡ false
none-pending i [] h = refl
none-pending i (x ∷ xs) h = ground (arith, none-pending i xs)

pub pending-found :
    (i : ℕ) (rows : List ApprovalRow) (r : ApprovalRow)
    → distinct_ids rows ≡ true
    → find? (approval_with_id i) rows ≡ some r
    → any (approval_pending_at i) rows ≡ true
    → is_pending_approval r.status ≡ true
pending-found i [] r d f a = cc
pending-found i (x ∷ xs) r d f a = elim (Bool-cases (x.id == i)) [
  | inl t ↦
      let same : x.id ≡ i = (nat_beq_iff x.id i).0 t in
      let alone : any (approval_with_id i) xs ≡ false = rw (sym same) (ground arith) in
      let none_pending = none-pending i xs alone in ground arith
  | inr t ↦ pending-found i xs r (ground arith) (ground arith) (ground arith)
]
