-- ===== src/Approvals/Settled.antt =====
-- An approval that was answered or has expired stays as it is.
use feishu_shadow_agent.Prelude.{
  String, none, if-holds, inr, inl, ℕ, suc, Bool, true, false, List, [], ◌∷◌, ◌++◌, ◌≡◌, ◌==◌, refl,
  arith, any, all, some, find?, nat_eq, nat_beq_iff, Bool-cases, update_where, find?-update_where,
  find?-append, sym, subst, ap, ◌∙◌,
}
use feishu_shadow_agent.Types.{ApprovalStatus, is_pending_approval}
use feishu_shadow_agent.Store.{Db, ApprovalRow}
use feishu_shadow_agent.Store.Fence.{
  invalidate_stale_revision_side_effects, expire_pending_approvals, approval_pending_at, expire,
  expire_approvals, expire_approval,
}
use feishu_shadow_agent.Approvals.{with_store, Option, ApprovalCommand, ApprovalDb, Env}
use feishu_shadow_agent.Approvals.Feedback.{resolved, expire_stale, stale_answer, approval_with_id}
use feishu_shadow_agent.Approvals.Resolve.{closed_tasks, close_task_after_reject}
use feishu_shadow_agent.Approvals.Cases.{Endings}
use feishu_shadow_agent.Store.Queued.{create-same, queue_notice-same}
use feishu_shadow_agent.Approvals.Send.{reply_text, approved_with}
use feishu_shadow_agent.Approvals.Steps.{
  fences, expires, answers-keeps, answers, draft_row, steps-keep, drafts-Drafted, run_steps, drafts,
  run_step, Step,
}
use feishu_shadow_agent.Store.Create.{created, create_checked, NewReply}
use feishu_shadow_agent.Tasks.{TaskDb}
use feishu_shadow_agent.Tasks.Takeover.{expired_now, pending_approval_of}
use feishu_shadow_agent.Approvals.Command.{expire_before_command}
use feishu_shadow_agent.Approvals.Numbered.{
  below, below-update, IsNumbered, IsNumbered-append, pending-found, distinct-update, distinct_ids,
}

-- The rows as they stand: numbered, and with this one found under its id.
abbrev Keeps : ApprovalRow → ℕ → List ApprovalRow → Type 0
Keeps r n rows =
    (distinct_ids rows ≡ true)
    × (all (below n) rows ≡ true)
    × (find? (approval_with_id r.id) rows ≡ some r)

module _ (r : ApprovalRow) (settled : is_pending_approval r.status ≡ false) where
  Keeps-update :
      (n : ℕ) (rows : List ApprovalRow) (q : ApprovalRow → Bool) (f : ApprovalRow → ApprovalRow)
      → ((a : ApprovalRow) → (f a).id ≡ a.id)
      → q r ≡ false
      → Keeps r n rows
      → Keeps r n (update_where q f rows)
  Keeps-update n rows q f same u (d, b, h) = (
    distinct-update q f same rows ∙ d,
    below-update n q f same rows ∙ b,
    find?-update_where (approval_with_id r.id) q f rows r (λ a. ap (λ i. i == r.id) (same a)) u h,
  )

  -- the answer of another approval, that is pending
  Keeps-set :
      (i n : ℕ) (rows : List ApprovalRow) (f : ApprovalRow → ApprovalRow)
      → ((a : ApprovalRow) → (f a).id ≡ a.id)
      → any (approval_pending_at i) rows ≡ true
      → Keeps r n rows
      → Keeps r n (update_where (approval_with_id i) f rows)
  Keeps-set i n rows f same p k = elim (Bool-cases (r.id == i)) [
    | inl t ↦
        let found =
          subst (λ j. any (approval_pending_at j) rows ≡ true) (sym ((nat_beq_iff r.id i).0 t)) p in
        let pending = pending-found r.id rows r k.0 k.2 found in cc
    | inr t ↦ Keeps-update n rows (approval_with_id i) f same t k
  ]

  Keeps-append :
      (n : ℕ) (rows : List ApprovalRow) (a : ApprovalRow)
      → a.id ≡ n
      → Keeps r n rows
      → Keeps r (suc n) (rows ++ a ∷ [])
  Keeps-append n rows a e (d, b, h) =
      let (d', b') = IsNumbered-append n rows a e (d, b) in
      (d', b', find?-append (approval_with_id r.id) rows a r h)

  Keeps-expire_approvals :
      (n now : ℕ) (due : List ApprovalRow) (db : Db)
      → Keeps r n db.approvals
      → Keeps r n (expire_approvals now due db).1.approvals
  unfolding expire_approvals expire_approval
  Keeps-expire_approvals n now [] db k = k
  Keeps-expire_approvals n now (a ∷ rest) db k =
      Keeps-expire_approvals n now rest (expire_approval now a db) (
        if-holds (λ (d : Db). Keeps r n d.approvals) (any (approval_pending_at a.id) db.approvals) _
          _
          (λ some_pending.
            Keeps-update n db.approvals (approval_pending_at a.id) (expire now) (λ x. refl)
              (ground arith) k)
          (λ no. k))

  -- the same in a store whose approvals are those of another
  Keeps-same :
      (n : ℕ) (rows rows' : List ApprovalRow) → rows' ≡ rows → Keeps r n rows → Keeps r n rows'
  Keeps-same n rows rows' h k = subst (Keeps r n) (sym h) k

  Keeps-made :
      (n now id : ℕ) (db store : Db) (m : NewReply)
      → create_checked db now m ≡ (created id, store)
      → Keeps r n db.approvals
      → Keeps r n store.approvals
  Keeps-made n now id db store m made k =
      Keeps-same n db.approvals store.approvals
        (ap (λ x. x.1.approvals) (sym made) ∙ create-same db now m) k

  Keeps-closed :
      (n now approval_id : ℕ) (o : Option ℕ) (db : TaskDb)
      → Keeps r n db.store.approvals
      → Keeps r n (closed_tasks o approval_id now db).store.approvals
  unfolding close_task_after_reject
  Keeps-closed n now approval_id none db k = k
  Keeps-closed n now approval_id (some i) db k =
      Keeps-update n db.store.approvals (pending_approval_of i) (expired_now now) (λ x. refl)
        (ground arith) k

  abbrev Kept : ApprovalDb → Type 0
  Kept db = Keeps r db.next_approval_id db.tasks.store.approvals

  Kept-endings :
      (env : Env) (c : ApprovalCommand) (now : ℕ) (db : ApprovalDb)
      → Kept db
      → Endings env c now db (λ x. Kept x.1)
  unfolding stale_answer expire_stale close_task_after_reject
  Kept-endings env c now db k =
      let rows = db.tasks.store.approvals in
      let n = db.next_approval_id in
      record {
        conflicts = λ m s ids id store q.
            Keeps-same n rows store.approvals
              (ap (λ x. x.1.approvals) (sym q) ∙ queue_notice-same db.tasks.store now m) k;
        expires = λ a payload p s.
            Keeps-update n rows (approval_pending_at a.id) (expire now) (λ x. refl) (ground arith)
              k;
        keeps = λ a i m row p q u.
            Keeps-set a.id n rows (resolved ApprovalStatus.rejected now) (λ x. refl) p.1 k;
        ends = λ a o row p u.
            Keeps-closed n now a.id a.task_id _
              (Keeps-set a.id n rows (resolved ApprovalStatus.rejected now) (λ x. refl) p.1 k);
        approves = λ a i t payload id store o row v p q w f made u.
            Keeps-made n now id _ store _ made
              (Keeps-set a.id n rows (resolved ApprovalStatus.approved now) (λ x. refl) p.1 k);
        replaces = λ a i t payload id store o row v p q w f made u.
            Keeps-made n now id _ store _ made
              (Keeps-set a.id n rows (approved_with payload (reply_text c) now) (λ x. refl) p.1 k);
        writes = λ s i t payload id store o row v w made u.
            Keeps-made (suc n) now id _ store _ made (Keeps-append n rows _ refl k);
      }

  Kept-expired :
      (now : ℕ) (exclude : Option ℕ) (db : ApprovalDb)
      → Kept db
      → Kept (with_store db (expire_pending_approvals db.tasks.store now exclude).1)
  unfolding expire_pending_approvals
  Kept-expired now exclude db k = Keeps-expire_approvals db.next_approval_id now _ db.tasks.store k

  Kept-fenced :
      (m : String) (current : ℕ) (reason : String) (now : ℕ) (db : ApprovalDb)
      → Kept db
      → Kept (
          with_store db
            (invalidate_stale_revision_side_effects db.tasks.store m current reason now).1)
  unfolding invalidate_stale_revision_side_effects
  Kept-fenced m current reason now db k =
      Keeps-expire_approvals db.next_approval_id now _ db.tasks.store k

  step-Kept : (env : Env) (s : Step) (db : ApprovalDb) → Kept db → Kept (run_step env s db)
  unfolding run_step
  step-Kept env (drafts d now) db k =
      let rows = db.tasks.store.approvals in
      let n = db.next_approval_id in
      drafts-Drafted env d now db Kept
        (record {
          silent = λ s payload. Keeps-append n rows _ refl k;
          notified = λ s payload m id store q.
              Keeps-same (suc n) _ store.approvals
                (ap (λ x. x.1.approvals) (sym q) ∙ queue_notice-same _ now m)
                (Keeps-append n rows (draft_row n s d payload now) refl k);
        })
        k
  step-Kept env (answers c now) db k =
      let before = Kept-expired now _ db k in
      answers-keeps Kept env c now db before (λ row d h. h)
        (Kept-endings env c now (expire_before_command c now db) before)
  step-Kept env (expires now exclude) db k = Kept-expired now exclude db k
  step-Kept env (fences m current reason now) db k = Kept-fenced m current reason now db k

-- Where the ids of approvals differ and lie below the next one, an approval that is approved, rejected
-- or expired keeps its row, whatever is drafted, answered, fenced and expires afterwards: it is not
-- answered twice.
pub settled_approval_stays :
    (env : Env) (ss : List Step) (db : ApprovalDb) (r : ApprovalRow)
    → IsNumbered db.next_approval_id db.tasks.store.approvals
    → find? (approval_with_id r.id) db.tasks.store.approvals ≡ some r
    → is_pending_approval r.status ≡ false
    → find? (approval_with_id r.id) (run_steps env ss db).tasks.store.approvals ≡ some r
settled_approval_stays env ss db r (d, b) h settled =
    (steps-keep (Kept r settled) env (step-Kept r settled env) ss db (d, b, h)).2
