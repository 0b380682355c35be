-- ===== src/Store/Stale.antt =====
-- What is left of the side effects of older revisions once invalidate_stale_revision_side_effects
-- (store/sqlite_store.py) has run.
use feishu_shadow_agent.Prelude.{
  ℕ, String, Bool, true, false, not, ◌||◌, List, [], ◌∷◌, ◌==◌, any, all, filter, if◌then◌else◌,
  nat_eq, ◌≡◌, refl, subst, arith, update_where, none-update_where, none-after, Bool-cases, inl,
  inr,
}
use feishu_shadow_agent.Store.{Db, ApprovalRow}
use feishu_shadow_agent.Store.Fence.{
  stale_approval, cancels, fences, cancel_stale, fence_sending, expire_approval, expire_approvals,
  approval_pending_at, invalidate_stale_revision_side_effects, expire,
}

-- every stale row is among these approvals, by its id
abbrev covered : String → ℕ → List ApprovalRow → ApprovalRow → Bool
covered m current todo r =
    not (stale_approval m current r) || any (λ (a : ApprovalRow). a.id == r.id) todo

covered-all :
    (m : String) (current : ℕ) (a : ApprovalRow) (todo rows : List ApprovalRow)
    → all (covered m current todo) rows ≡ true
    → all (covered m current (a ∷ todo)) rows ≡ true
covered-all m current a todo [] h = refl
covered-all m current a todo (r ∷ rows) h = ground (arith, covered-all m current a todo rows)

covered-grown :
    (m : String) (current : ℕ) (r : ApprovalRow) (todo rows : List ApprovalRow) (b : Bool)
    → stale_approval m current r ≡ b
    → all (covered m current todo) rows ≡ true
    → all (covered m current (if b then r ∷ todo else todo)) (r ∷ rows) ≡ true
covered-grown m current r todo rows true e h = ground (arith, covered-all m current r todo rows h)
covered-grown m current r todo rows false e h = ground arith

covered-filter :
    (m : String) (current : ℕ) (rows : List ApprovalRow)
    → all (covered m current (filter (stale_approval m current) rows)) rows ≡ true
covered-filter m current [] = refl
covered-filter m current (r ∷ rows) =
    covered-grown m current r (filter (stale_approval m current) rows) rows
      (stale_approval m current r) refl (covered-filter m current rows)

covered-none :
    (m : String) (current : ℕ) (rows : List ApprovalRow)
    → all (covered m current []) rows ≡ true
    → any (stale_approval m current) rows ≡ false
covered-none m current [] h = refl
covered-none m current (r ∷ rows) h = ground (arith, covered-none m current rows)

covered-expire :
    (m : String) (current now : ℕ) (a : ApprovalRow) (todo rows : List ApprovalRow)
    → all (covered m current (a ∷ todo)) rows ≡ true
    → all (covered m current todo) (update_where (approval_pending_at a.id) (expire now) rows)
      ≡ true
unfolding update_where
covered-expire m current now a todo [] h = refl
covered-expire m current now a todo (r ∷ rows) h =
    ground (arith, covered-expire m current now a todo rows)

update_where-none :
    (p : ApprovalRow → Bool) (f : ApprovalRow → ApprovalRow) (rows : List ApprovalRow)
    → any p rows ≡ false
    → update_where p f rows ≡ rows
unfolding update_where
update_where-none p f [] h = refl
update_where-none p f (r ∷ rows) h = ground (arith, update_where-none p f rows)

expired-covered :
    (m : String) (current now : ℕ) (a : ApprovalRow) (todo : List ApprovalRow) (db : Db)
    → all (covered m current (a ∷ todo)) db.approvals ≡ true
    → all (covered m current todo) (expire_approval now a db).approvals ≡ true
unfolding expire_approval
expired-covered m current now a todo db h =
    elim (Bool-cases (any (approval_pending_at a.id) db.approvals)) [
      | inl t ↦ rw t (covered-expire m current now a todo db.approvals h)
      | inr t ↦ rw t (
          subst (λ (rows : List ApprovalRow). all (covered m current todo) rows ≡ true)
            (update_where-none (approval_pending_at a.id) (expire now) db.approvals t)
            (covered-expire m current now a todo db.approvals h))
    ]

expire_approvals-none :
    (m : String) (current now : ℕ) (todo : List ApprovalRow) (db : Db)
    → all (covered m current todo) db.approvals ≡ true
    → any (stale_approval m current) (expire_approvals now todo db).1.approvals ≡ false
unfolding expire_approvals
expire_approvals-none m current now [] db h = covered-none m current db.approvals h
expire_approvals-none m current now (a ∷ todo) db h =
    expire_approvals-none m current now todo (expire_approval now a db)
      (expired-covered m current now a todo db h)

-- After the fence of a message's edit or deletion, no pending approval is bound to another revision of
-- it, and no action bound to one is pending, failed or under way.
pub fence_leaves_none :
    (db : Db) (m : String) (current : ℕ) (reason : String) (now : ℕ)
    → let db' = (invalidate_stale_revision_side_effects db m current reason now).1 in
      (any (stale_approval m current) db'.approvals ≡ false)
      × ((any (cancels m current) db'.actions ≡ false)
          × (any (fences m current) db'.actions ≡ false))
unfolding invalidate_stale_revision_side_effects
fence_leaves_none db m current reason now =
    let stale = filter (stale_approval m current) db.approvals in
    let rows = (expire_approvals now stale db).1.actions in
    (
      expire_approvals-none m current now stale db (covered-filter m current db.approvals),
      (
        none-after (cancels m current) (fences m current) (fence_sending reason m now)
            (λ r. ground arith) (update_where (cancels m current) (cancel_stale reason m now) rows)
            (none-update_where (cancels m current) (cancel_stale reason m now) (λ r t. ground arith)
              rows),
        none-update_where (fences m current) (fence_sending reason m now) (λ r t. ground arith)
            (update_where (cancels m current) (cancel_stale reason m now) rows),
      ),
    )
