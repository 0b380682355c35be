-- ===== src/Approvals/Cases.antt =====
-- The ways in which a handler of approval commands can return, with what is known in each. A property
-- of the commands is proved by giving it in each of them; Handlers shows that there are no others.
pub mod Handlers
pub mod Sends
use feishu_shadow_agent.Prelude.{
  subst, inr, inl, ℕ, String, Bool, true, false, not, ◌&&◌, Option, none, some, List, [], ◌∷◌, ◌++◌,
  Among, ◌==◌, any, all, nat_eq, ◌≡◌, refl, arith, filter, find?, Bool-cases, sort_by,
  if◌then◌else◌,
}
use feishu_shadow_agent.Json.{Fields}
use feishu_shadow_agent.Types.{
  ApprovalStatus, ApprovalOutcome, is_pending_approval, is_active_task_status,
}
use feishu_shadow_agent.Store.{Db, ApprovalRow, source_payload_is_stale}
use feishu_shadow_agent.Store.Create.{
  new_reply, NewReply, Created, created, nothing, create_checked,
}
use feishu_shadow_agent.Store.Fence.{approval_pending_at, cancel_for_approval}
use feishu_shadow_agent.Store.Notify.{NewNotice, queue_notice}
use feishu_shadow_agent.Tasks.{TaskRow}
use feishu_shadow_agent.Tasks.Attach.{update_task}
use feishu_shadow_agent.Approvals.{
  integrity_error, already_active, answered_result, kept_result, ◌>>=◌, or_raise, CommandError,
  conflict_result, with_store, ApprovalCommand, ApprovalDb, Attempt, CommandResult, FeedbackRow,
  Env, Handled, Verb, raised, returns,
}
use feishu_shadow_agent.Approvals.Create.{add_approval}
use feishu_shadow_agent.Approvals.Feedback.{
  set_approval, resolved, stale_answer, record_approval_feedback, clashes, payload_with_source,
  payload_to_replace,
}
use feishu_shadow_agent.Approvals.Resolve.{
  closed_for, mark_task_watching_after_send, action_created, in_tasks, kept_watching,
}
use feishu_shadow_agent.Approvals.Send.{owner_approval, approved_with, reply_text}

-- The feedback that a command leaves, in tables where nothing clashes with it.
abbrev pub with_feedback : FeedbackRow → ApprovalDb → ApprovalDb
with_feedback row db = record db { feedback = db.feedback ++ row ∷ [] }

-- The approval is pending, and this very row is in the table.
abbrev pub IsPendingIn : ApprovalDb → ApprovalRow → Type 0
IsPendingIn db r =
    (is_pending_approval r.status ≡ true)
    × (any (approval_pending_at r.id) db.tasks.store.approvals ≡ true)
    × Among r db.tasks.store.approvals

abbrev pub watched_task : ℕ → TaskRow → Bool
watched_task i t = t.task.id == i && is_active_task_status t.task.status

-- A task with this id is watched.
abbrev pub IsWatched : ApprovalDb → ℕ → Type 0
IsWatched db i = any (watched_task i) db.tasks.tasks ≡ true

abbrev pub kept_tables : ApprovalCommand → ApprovalRow → ℕ → ℕ → ApprovalDb → ApprovalDb
kept_tables c r task_id now db =
    let rejected = set_approval r.id (resolved ApprovalStatus.rejected now) db in
    let store = rejected.tasks.store in
    in_tasks (update_task task_id (kept_watching c.keep_watching_until now))
      (with_store rejected (record store { actions = cancel_for_approval r.id now store.actions }))

abbrev pub ended_tables : ApprovalRow → ℕ → ApprovalDb → ApprovalDb
ended_tables r now db =
    closed_for r.task_id r.id now (set_approval r.id (resolved ApprovalStatus.rejected now) db)

-- the tables after a reply was queued: `store` is what its creation made of those of `db`
abbrev pub replied_tables : ℕ → ℕ → Db → ApprovalDb → ApprovalDb
replied_tables task_id now store db =
    mark_task_watching_after_send task_id now (with_store db store)

abbrev pub reply_of : Env → ApprovalCommand → ℕ → String → Fields → ℕ → ApprovalDb → NewReply
reply_of env c task_id target payload approval_id db =
    new_reply env.digest db.tasks.store task_id target payload (some approval_id) c.execution_mode

pub record Endings {κ} (env : Env) (c : ApprovalCommand) (now : ℕ) (db : ApprovalDb)
    (P : CommandResult × ApprovalDb → Type κ) : Type κ where
  pub conflicts :
      (n : NewNotice) (s : String) (ids : List String) (id : ℕ) (store : Db)
      → queue_notice db.tasks.store now n ≡ (some id, store)
      → P (conflict_result c.verb s id ids, with_store db store)
  pub expires :
      (r : ApprovalRow) (payload : Fields)
      → IsPendingIn db r
      → source_payload_is_stale db.tasks.store payload ≡ true
      → P (stale_answer r now db)
  pub keeps :
      (r : ApprovalRow) (task_id n : ℕ) (row : FeedbackRow)
      → IsPendingIn db r
      → r.task_id ≡ some task_id
      → any (clashes row) db.feedback ≡ false
      → P (kept_result r.short_id task_id n, with_feedback row (kept_tables c r task_id now db))
  pub ends :
      (r : ApprovalRow) (outcome : ApprovalOutcome) (row : FeedbackRow)
      → IsPendingIn db r
      → any (clashes row) db.feedback ≡ false
      → P (
        answered_result r.short_id r.task_id none outcome,
        with_feedback row (ended_tables r now db),
      )
  pub approves :
      (r : ApprovalRow) (task_id : ℕ) (target : String) (payload : Fields) (id : ℕ) (store : Db)
      (outcome : ApprovalOutcome) (row : FeedbackRow)
      → let approved = set_approval r.id (resolved ApprovalStatus.approved now) db in
        c.verb ≡ Verb.approve
        → IsPendingIn db r
        → r.task_id ≡ some task_id
        → IsWatched db task_id
        → source_payload_is_stale db.tasks.store (payload_with_source r) ≡ false
        → create_checked approved.tasks.store now
            (reply_of env c task_id target payload r.id approved)
          ≡ (created id, store)
        → any (clashes row) db.feedback ≡ false
        → P (
          answered_result r.short_id (some task_id) (some id) outcome,
          with_feedback row (replied_tables task_id now store approved),
        )
  pub replaces :
      (r : ApprovalRow) (task_id : ℕ) (target : String) (payload : Fields) (id : ℕ) (store : Db)
      (outcome : ApprovalOutcome) (row : FeedbackRow)
      → let approved = set_approval r.id (approved_with payload (reply_text c) now) db in
        c.verb ≡ Verb.send
        → IsPendingIn db r
        → r.task_id ≡ some task_id
        → IsWatched db task_id
        → source_payload_is_stale db.tasks.store (payload_to_replace r) ≡ false
        → create_checked approved.tasks.store now
            (reply_of env c task_id target payload r.id approved)
          ≡ (created id, store)
        → any (clashes row) db.feedback ≡ false
        → P (
          answered_result r.short_id (some task_id) (some id) outcome,
          with_feedback row (replied_tables task_id now store approved),
        )
  pub writes :
      (short_id : String) (task_id : ℕ) (target : String) (payload : Fields) (id : ℕ) (store : Db)
      (outcome : ApprovalOutcome) (row : FeedbackRow)
      → let added =
          add_approval
            (owner_approval db.next_approval_id short_id task_id payload (reply_text c) now)
            db in
        c.verb ≡ Verb.send
        → IsWatched db task_id
        → create_checked added.tasks.store now
            (reply_of env c task_id target payload db.next_approval_id added)
          ≡ (created id, store)
        → any (clashes row) db.feedback ≡ false
        → P (
          answered_result short_id (some task_id) (some id) outcome,
          with_feedback row (replied_tables task_id now store added),
        )

-- A predicate of what a handler returns, if it does not raise.
unfoldable pub Returned {κ} : {A : Type 0} → (A → Type κ) → Attempt A → Type κ
Returned P (raised e db) = Unit
Returned P (returns x) = P x

pub returned {κ} :
    {A : Type 0} (P : A → Type κ) (m : Attempt A) (x : A) → Returned P m → m ≡ returns x → P x
unfolding Returned
returned P m x h q = subst (Returned P) q h

module _ {κ} {X : Type 0} (P : X → Type κ) where
  pub by_raise : (e : CommandError) (db : ApprovalDb) → Returned P (raised e db)
  unfolding Returned
  by_raise e db = tt

  pub by_return : (x : X) → P x → Returned P (returns x)
  unfolding Returned
  by_return x h = h

  pub if_not_raised :
      (b : Bool) (e : CommandError) (db : ApprovalDb) (x : Attempt X)
      → (b ≡ false → Returned P x)
      → Returned P (if b then raised e db else x)
  if_not_raised true e db x h = by_raise e db
  if_not_raised false e db x h = h refl

  pub either :
      (b : Bool) (x y : Attempt X)
      → (b ≡ true → Returned P x)
      → (b ≡ false → Returned P y)
      → Returned P (if b then x else y)
  either true x y hx hy = hx refl
  either false x y hx hy = hy refl

  pub bound :
      {A : Type 0} (x : Attempt A) (f : A → Attempt X)
      → ((a : A) → x ≡ returns a → Returned P (f a))
      → Returned P (x >>= f)
  unfolding ◌>>=◌
  bound {A} x f h = go x refl
    where
      go : (y : Attempt A) → x ≡ y → Returned P (y >>= f)
      go (raised e db) q = by_raise e db
      go (returns a) q = h a q

module _ {κ} (P : CommandResult × ApprovalDb → Type κ) where
  pub recorded :
      (row : FeedbackRow) (db : ApprovalDb) (result : CommandResult)
      → (any (clashes row) db.feedback ≡ false → P (result, with_feedback row db))
      → Returned P (record_approval_feedback row db >>= λ after. returns (result, after))
  unfolding record_approval_feedback ◌>>=◌
  recorded row db result h = elim (Bool-cases (any (clashes row) db.feedback)) [
    | inl t ↦ rw t (by_raise P integrity_error db)
    | inr t ↦ rw t (by_return P (result, with_feedback row db) (h t))
  ]

  pub action_made :
      (x : Created × Db) (db : ApprovalDb) (f : ℕ × ApprovalDb → Handled)
      → ((id : ℕ) (store : Db) → x ≡ (created id, store) → Returned P (f (id, with_store db store)))
      → Returned P (action_created x db >>= f)
  unfolding ◌>>=◌ action_created
  action_made x db f h = go x refl
    where
      go : (y : Created × Db) → x ≡ y → Returned P (action_created y db >>= f)
      go (created id, store) q = h id store q
      go (nothing, store) q = by_raise P already_active _
      go (Created.integrity_error, store) q = by_raise P CommandError.integrity_error _
