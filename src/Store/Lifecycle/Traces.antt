-- ===== src/Store/Lifecycle/Traces.antt =====
-- What holds of an action over any series of operations of the store.
use feishu_shadow_agent.Prelude.{ℕ, true, false, some, List, [], ◌∷◌, ◌≡◌, ◌⊎◌, arith}
use feishu_shadow_agent.Types.{ActionRecord, sent, failed_needs_review, cancelled}
use feishu_shadow_agent.Store.{Db, find_action}
use feishu_shadow_agent.Store.Moves.{Relation, Moves, Moves-refl, Moves-trans, Moves-weaken}
use feishu_shadow_agent.Store.Lifecycle.{Automatic, Manual, run, run_manual}
use feishu_shadow_agent.Store.Lifecycle.Steps.{run-Moves}
use feishu_shadow_agent.Store.Lifecycle.Owner.{run_manual-Moves}

pub data Step : Type 0 where
  by_agent : Automatic → Step
  by_owner : Manual → Step

pub run_step : Step → Db → Db
run_step (by_agent o) db = run o db
run_step (by_owner o) db = run_manual o db

unfoldable pub run_all : List Step → Db → Db
unfolding run_step
run_all [] db = db
run_all (s ∷ steps) db = run_all steps (run_step s db)

unfoldable pub run_automatic : List Automatic → Db → Db
run_automatic [] db = db
run_automatic (o ∷ os) db = run_automatic os (run o db)

-- Two statuses are kept for good.
abbrev absorbs : Relation
absorbs sent sent = true
absorbs sent _ = false
absorbs cancelled cancelled = true
absorbs cancelled _ = false
absorbs _ _ = true

-- Without the owner an uncertain action can only turn out to be sent.
abbrev awaits_review : Relation
awaits_review failed_needs_review failed_needs_review = true
awaits_review failed_needs_review sent = true
awaits_review failed_needs_review _ = false
awaits_review s t = absorbs s t

step-absorbs : (s : Step) (db : Db) → Moves absorbs db.actions (run_step s db).actions
unfolding run_step
step-absorbs (by_agent o) db = Moves-weaken (λ s t p. ground arith) (run-Moves o db)
step-absorbs (by_owner o) db = Moves-weaken (λ s t p. ground arith) (run_manual-Moves o db)

run_all-absorbs :
    (steps : List Step) (db : Db) → Moves absorbs db.actions (run_all steps db).actions
unfolding run_all
run_all-absorbs [] db = Moves-refl absorbs (λ s. ground arith) db.actions
run_all-absorbs (s ∷ steps) db =
    Moves-trans (λ s t u p q. ground arith) (step-absorbs s db)
      (run_all-absorbs steps (run_step s db))

run_automatic-awaits :
    (os : List Automatic) (db : Db) → Moves awaits_review db.actions (run_automatic os db).actions
unfolding run_automatic
run_automatic-awaits [] db = Moves-refl awaits_review (λ s. ground arith) db.actions
run_automatic-awaits (o ∷ os) db =
    Moves-trans (λ s t u p q. ground arith) (Moves-weaken (λ s t p. ground arith) (run-Moves o db))
      (run_automatic-awaits os (run o db))

-- An action that is sent or cancelled keeps that status, its kind and its idempotency key through
-- any series of operations, the agent's and the owner's.
pub terminal_stays :
    (steps : List Step) (db : Db) (i : ℕ) (a : ActionRecord)
    → find_action i db.actions ≡ some a
    → (a.status ≡ sent) ⊎ (a.status ≡ cancelled)
    → (b : ActionRecord) × (find_action i (run_all steps db).actions ≡ some b)
      × (b.status ≡ a.status)
      × (b.kind ≡ a.kind)
      × (b.idempotency_key ≡ a.idempotency_key)
terminal_stays steps db i a h t =
    let (b, found, moved) = (run_all-absorbs steps db).at i a h in
    (b, found, ground (arith, moved.status), moved.kind, moved.key)

-- An action whose send is uncertain is never claimed again while only the agent runs: through any
-- series of its operations it stays for the owner's review, or turns out to be sent.
pub uncertain_awaits_review :
    (os : List Automatic) (db : Db) (i : ℕ) (a : ActionRecord)
    → find_action i db.actions ≡ some a
    → a.status ≡ failed_needs_review
    → (b : ActionRecord) × (find_action i (run_automatic os db).actions ≡ some b)
      × ((b.status ≡ failed_needs_review) ⊎ (b.status ≡ sent))
uncertain_awaits_review os db i a h t =
    let (b, found, moved) = (run_automatic-awaits os db).at i a h in
    (b, found, ground (arith, moved.status))
