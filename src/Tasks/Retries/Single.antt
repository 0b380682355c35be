-- ===== src/Tasks/Retries/Single.antt =====
-- The partial unique index idx_processing_retry_active (store/schema.sql) is never broken by the code's
-- own operations.
use feishu_shadow_agent.Prelude.{
  ℕ, String, Bool, true, false, not, ◌&&◌, ◌||◌, Option, none, some, List, [], ◌∷◌, ◌++◌, ◌==◌, any,
  find?, sort_by, insert_by, update_where, if◌then◌else◌, nat_eq, string_eq, ◌≡◌, refl, ◌∙◌, sym,
  arith, text_sym, Bool-cases, inl, inr,
}
use feishu_shadow_agent.Types.{MessageProcessingStage, task_router, task_session, resource_download}
use feishu_shadow_agent.Tasks.{ProcessingRow, TaskDb}
use feishu_shadow_agent.Store.{find_message, MessageRow}
use feishu_shadow_agent.Tasks.Markers.{same_stage}
use feishu_shadow_agent.Tasks.Retries.{
  latest_marker, later_retry, sent_for, task_is_gone, is_retryable, Requested, RetryRow, RetryDb,
  RetryRequest, RetryEnd, is_open, same_retry, new_retry, open_retry, enqueue, joined_message,
  request_processing_retry, claim_next_processing_retry, claim_candidate, finish_processing_retry,
  queued_at, claim_row, claimed_by, end_row,
}

-- r is open, and so is a row of the same message, revision and stage
abbrev clashes : RetryRow → RetryRow → Bool
clashes r x = is_open r && (same_retry r.message_id r.revision r.stage x && is_open x)

-- no two open rows have the same message, revision and stage
unfoldable pub single_open : List RetryRow → Bool
single_open [] = true
single_open (r ∷ rows) = not (any (clashes r) rows) && single_open rows

same_stage_sym : (a b : MessageProcessingStage) → same_stage a b ≡ same_stage b a
same_stage_sym task_router task_router = refl
same_stage_sym task_router task_session = refl
same_stage_sym task_router resource_download = refl
same_stage_sym task_session task_router = refl
same_stage_sym task_session task_session = refl
same_stage_sym task_session resource_download = refl
same_stage_sym resource_download task_router = refl
same_stage_sym resource_download task_session = refl
same_stage_sym resource_download resource_download = refl

-- what an UPDATE of these rows does: the key stays, and a row is not opened
abbrev IsLater : RetryRow → RetryRow → Type 0
IsLater r x =
    (x.message_id ≡ r.message_id)
    × ((x.revision ≡ r.revision) × ((x.stage ≡ r.stage) × (is_open x ≡ true → is_open r ≡ true)))

clashes-later :
    (r r' x x' : RetryRow)
    → IsLater r r'
    → IsLater x x'
    → clashes r x ≡ false
    → clashes r' x' ≡ false
clashes-later r r' x x' (m, (v, (s, o))) (m', (v', (s', o'))) h =
    rw m (rw v (rw s (rw m' (rw v' (rw s' (ground (arith, o, o')))))))

module _ (p : RetryRow → Bool) (f : RetryRow → RetryRow)
    (later : (r : RetryRow) → p r ≡ true → IsLater r (f r)) where
  after : RetryRow → RetryRow
  after x = if p x then f x else x

  after-IsLater : (x : RetryRow) → IsLater x (after x)
  unfolding after
  after-IsLater x = elim (Bool-cases (p x)) [
    | inl t ↦ rw t (later x t)
    | inr t ↦ rw t (refl, (refl, (refl, λ h. h)))
  ]

  none-clashes :
      (r : RetryRow) (rows : List RetryRow)
      → any (clashes r) rows ≡ false
      → any (clashes (after r)) (update_where p f rows) ≡ false
  unfolding update_where after
  none-clashes r [] h = refl
  none-clashes r (x ∷ rows) h = ground (
    arith,
    clashes-later r (after r) x (after x) (after-IsLater r) (after-IsLater x),
    none-clashes r rows,
  )

  single-update_where :
      (rows : List RetryRow) → single_open rows ≡ true → single_open (update_where p f rows) ≡ true
  unfolding update_where single_open after
  single-update_where [] h = refl
  single-update_where (r ∷ rows) h = ground (arith, none-clashes r rows, single-update_where rows)

module _ {ℓ} {A : Type ℓ} where
  any-insert_by :
      (p : A → Bool) (before : A → A → Bool) (x : A) (xs : List A)
      → any p (insert_by before x xs) ≡ (p x || any p xs)
  unfolding insert_by
  any-insert_by p before x [] = refl
  any-insert_by p before x (y ∷ ys) = ground (arith, any-insert_by p before x ys)

  any-sort_by :
      (p : A → Bool) (before : A → A → Bool) (xs : List A) → any p (sort_by before xs) ≡ any p xs
  unfolding sort_by
  any-sort_by p before [] = refl
  any-sort_by p before (x ∷ xs) =
      any-insert_by p before x (sort_by before xs) ∙ rw (any-sort_by p before xs) refl

  any-append :
      (p : A → Bool) (xs : List A) (x : A)
      → any p xs ≡ false
      → p x ≡ false
      → any p (xs ++ x ∷ []) ≡ false
  any-append p [] x h n = ground arith
  any-append p (y ∷ xs) x h n = ground (arith, any-append p xs x)

  any-find? : (p : A → Bool) (xs : List A) → find? p xs ≡ none → any p xs ≡ false
  any-find? p [] h = refl
  any-find? p (x ∷ xs) h = ground (arith, any-find? p xs)

same_retry_sym :
    (a b : RetryRow)
    → same_retry a.message_id a.revision a.stage b ≡ same_retry b.message_id b.revision b.stage a
same_retry_sym a b =
    rw (text_sym b.message_id a.message_id) (rw (same_stage_sym b.stage a.stage) (ground arith))

abbrev blocks : RetryRow → RetryRow → Bool
blocks new x = same_retry new.message_id new.revision new.stage x && is_open x

clashes-new : (r new : RetryRow) → blocks new r ≡ false → clashes r new ≡ false
clashes-new r new h = ground (arith, same_retry_sym r new)

not_both : (a b : Bool) → (not a && b) ≡ true → a ≡ false
not_both a b h = ground arith

and_second : (a b : Bool) → (not a && b) ≡ true → b ≡ true
and_second a b h = ground arith

neither : (a b : Bool) → (a || b) ≡ false → a ≡ false
neither a b h = ground arith

or_second : (a b : Bool) → (a || b) ≡ false → b ≡ false
or_second a b h = ground arith

single-append :
    (rows : List RetryRow) (new : RetryRow)
    → single_open rows ≡ true
    → any (blocks new) rows ≡ false
    → single_open (rows ++ new ∷ []) ≡ true
unfolding single_open
single-append [] new h n = refl
single-append (r ∷ rows) new h n =
    let free : any (clashes r) (rows ++ new ∷ []) ≡ false =
      any-append (clashes r) rows new (not_both (any (clashes r) rows) _ h)
        (clashes-new r new (neither (blocks new r) _ n)) in
    rw free (
      single-append rows new (and_second (any (clashes r) rows) _ h) (or_second (blocks new r) _ n))

abbrev pub IsSingle : RetryDb → Type 0
IsSingle db = single_open db.retries ≡ true

module _ (q : RetryRequest) (now : ℕ) (db : RetryDb) (w : IsSingle db) where
  enqueue-IsSingle :
      (p : ProcessingRow) (o : Option RetryRow)
      → open_retry q.message_id p.revision q.stage db.retries ≡ o
      → IsSingle (enqueue q p now db o).1
  unfolding open_retry
  enqueue-IsSingle p (some r) h = w
  enqueue-IsSingle p none h = single-append db.retries (new_retry db.next_retry_id q p now) w (
      sym (any-sort_by _ later_retry db.retries)
      ∙ any-find? (λ (x : RetryRow). same_retry q.message_id p.revision q.stage x && is_open x)
          (sort_by later_retry db.retries) h)

  keep-IsSingle :
      (b : Bool) (x y : Requested × RetryDb)
      → IsSingle x.1
      → IsSingle y.1
      → IsSingle (if b then x else y).1
  keep-IsSingle true x y hx hy = hx
  keep-IsSingle false x y hx hy = hy

  joined-IsSingle :
      (p : Option ProcessingRow) (m : Option MessageRow) → IsSingle (joined_message q now db p m).1
  joined-IsSingle (some p) (some m) = keep-IsSingle (not (is_retryable p.status)) _ _ w (
      keep-IsSingle (m.is_deleted || not (m.revision == p.revision)) _ _ w (
        keep-IsSingle (task_is_gone db.tables p.task_id) _ _ w (
          keep-IsSingle (any (sent_for q.message_id p.revision) db.tables.store.actions) _ _ w
            (enqueue-IsSingle p _ refl))))
  joined-IsSingle (some p) none = w
  joined-IsSingle none m = w

-- What happens to the queue.
pub data RetryStep : Type 0 where
  request : RetryRequest → ℕ → RetryStep
  claim : String → ℕ → RetryStep
  finish : ℕ → String → RetryEnd → Option String → ℕ → RetryStep
  -- whatever else changes the tables that a request reads
  elsewhere : TaskDb → RetryStep

unfoldable pub run_step : RetryStep → RetryDb → RetryDb
run_step (request q now) db = (request_processing_retry q now db).1
run_step (claim token now) db = (claim_next_processing_retry token now db).1
run_step (finish i token e error now) db = (finish_processing_retry i token e error now db).1
run_step (elsewhere tables) db = record db { tables = tables }

unfoldable pub run_steps : List RetryStep → RetryDb → RetryDb
unfolding run_step
run_steps [] db = db
run_steps (s ∷ rest) db = run_steps rest (run_step s db)

claim-IsSingle :
    (token : String) (now : ℕ) (db : RetryDb) (o : Option RetryRow)
    → IsSingle db
    → IsSingle (claim_candidate token now db o)
claim-IsSingle token now db none w = w
claim-IsSingle token now db (some r) w =
    single-update_where (queued_at r.id) (claim_row token now)
      (λ x t. (refl, (refl, (refl, λ h. ground arith)))) db.retries w

finish-IsSingle :
    (i : ℕ) (token : String) (e : RetryEnd) (error : Option String) (now : ℕ) (db : RetryDb)
    → IsSingle db
    → IsSingle (finish_processing_retry i token e error now db).1
unfolding finish_processing_retry
finish-IsSingle i token e error now db w = elim (Bool-cases (any (claimed_by i token) db.retries)) [
  | inl t ↦ rw t (
      single-update_where (claimed_by i token) (end_row e error now)
        (λ x u. (refl, (refl, (refl, λ h. ground arith)))) db.retries w)
  | inr t ↦ rw t w
]

step-IsSingle : (s : RetryStep) (db : RetryDb) → IsSingle db → IsSingle (run_step s db)
unfolding run_step request_processing_retry claim_next_processing_retry
step-IsSingle (request q now) db w =
    joined-IsSingle q now db w (latest_marker q.message_id q.stage db.tables.processing)
      (find_message q.message_id db.tables.store.messages)
step-IsSingle (claim token now) db w = claim-IsSingle token now db _ w
step-IsSingle (finish i token e error now) db w = finish-IsSingle i token e error now db w
step-IsSingle (elsewhere tables) db w = w

-- Whatever is requested, claimed and finished, in whatever order and with whatever changes to the other
-- tables in between: a message's revision has at most one retry of a stage that is queued or claimed,
-- if that was so before.
pub run_steps-IsSingle :
    (steps : List RetryStep) (db : RetryDb) → IsSingle db → IsSingle (run_steps steps db)
unfolding run_steps
run_steps-IsSingle [] db w = w
run_steps-IsSingle (s ∷ rest) db w = run_steps-IsSingle rest (run_step s db) (step-IsSingle s db w)
