-- ===== src/Approvals/Authority.antt =====
-- What stands behind a reply that the owner's command queues.
use feishu_shadow_agent.Prelude.{
  Option, any-append_last, any-updated, ℕ, String, Bool, true, false, ◌&&◌, ◌⊎◌, inl, inr, some,
  none, ◌≡◌, ◌==◌, refl, arith, any, nat_eq, option_eq, sym, subst, ap, ◌∙◌,
}
use feishu_shadow_agent.Types.{
  ApprovalOutcome, ActionRecord, ApprovalStatus, is_pending, is_send_reply,
}
use feishu_shadow_agent.Store.{ApprovalRow, Db, source_payload_is_stale}
use feishu_shadow_agent.Approvals.{
  returns, answered_result, ApprovalCommand, ApprovalDb, CommandResult, Env, Verb, send,
}
use feishu_shadow_agent.Approvals.Cases.{returned, reply_of, IsPendingIn, IsWatched, Endings}
use feishu_shadow_agent.Approvals.Feedback.{
  approval_with_id, resolved, payload_to_replace, stale_answer, set_approval, payload_with_source,
}
use feishu_shadow_agent.Json.{Fields}
use feishu_shadow_agent.Store.Create.{created, create_checked}
use feishu_shadow_agent.Approvals.Command.{apply_approval_command_locked}
use feishu_shadow_agent.Approvals.Send.{owner_approval, reply_text, approved_with}
use feishu_shadow_agent.Store.Fence.{approval_pending_at}
use feishu_shadow_agent.Store.Queued.{create-same, create-Queues, Queues}
use feishu_shadow_agent.Approvals.Cases.Sends.{command-Endings}
use feishu_shadow_agent.Approvals.Create.{add_approval}

abbrev is_approved : ApprovalStatus → Bool
is_approved ApprovalStatus.approved = true
is_approved _ = false

abbrev approved_at : ℕ → ApprovalRow → Bool
approved_at i r = r.id == i && is_approved r.status

-- A pending reply in this task, on behalf of this approval.
abbrev reply_for : ℕ → ℕ → ℕ → ActionRecord → Bool
reply_for id task_id approval_id r =
    r.id == id
    && (is_send_reply r.kind
        && (is_pending r.status
            && (r.task_id == some task_id && r.approval_id == some approval_id)))

-- the payload of which a command asks whether the message has changed
abbrev checked_payload : Verb → ApprovalRow → Fields
checked_payload send r = payload_to_replace r
checked_payload _ r = payload_with_source r

-- A row of the table is this approval: it was pending, has the short id that the command reports,
-- belongs to this task, and the message that it answers had not changed.
abbrev IsAnswerable : ApprovalCommand → ApprovalDb → String → ℕ → ℕ → Type 0
IsAnswerable c db short_id task_id approval_id =
    (r : ApprovalRow) × IsPendingIn db r
    × (r.id ≡ approval_id)
    × (r.short_id ≡ short_id)
    × (r.task_id ≡ some task_id)
    × (source_payload_is_stale db.tasks.store (checked_payload c.verb r) ≡ false)

-- What is known when a command reports the action `id` in a task.
abbrev pub IsAuthorized : ApprovalCommand → ApprovalDb → ApprovalDb → String → ℕ → ℕ → Type 0
IsAuthorized c db db' short_id task_id id =
    (approval_id : ℕ) × (any (reply_for id task_id approval_id) db'.tasks.store.actions ≡ true)
    × (any (approved_at approval_id) db'.tasks.store.approvals ≡ true)
    × IsWatched db task_id
    × (IsAnswerable c db short_id task_id approval_id
        ⊎ ((c.verb ≡ send) × (approval_id ≡ db.next_approval_id)))

abbrev OfAction : ApprovalCommand → ApprovalDb → ApprovalDb → String → Option ℕ → Option ℕ → Type 0
OfAction c db db' s none task_id = Unit
OfAction c db db' s (some id) none = Unit
OfAction c db db' s (some id) (some task_id) = IsAuthorized c db db' s task_id id

abbrev Authorized : ApprovalCommand → ApprovalDb → CommandResult × ApprovalDb → Type 0
Authorized c db (answered_result s task_id action_id outcome, db') =
    OfAction c db db' s action_id task_id
Authorized c db x = Unit

queued_for :
    (env : Env) (c : ApprovalCommand) (now task_id approval_id id : ℕ) (target : String)
    (payload : Fields) (d : ApprovalDb) (store : Db)
    → create_checked d.tasks.store now (reply_of env c task_id target payload approval_id d)
      ≡ (created id, store)
    → any (approved_at approval_id) d.tasks.store.approvals ≡ true
    → (any (reply_for id task_id approval_id) store.actions ≡ true)
      × (any (approved_at approval_id) store.approvals ≡ true)
queued_for env c now task_id approval_id id target payload d store made a =
    let n = reply_of env c task_id target payload approval_id d in
    (
      subst (Queues n) made (create-Queues d.tasks.store now n),
      ap (λ rows. any (approved_at approval_id) rows)
            (sym (ap (λ x. x.1.approvals) made) ∙ create-same d.tasks.store now n)
          ∙ a,
    )

approved_now :
    (r : ApprovalRow) (f : ApprovalRow → ApprovalRow) (db : ApprovalDb)
    → ((a : ApprovalRow) → ((f a).id ≡ a.id) × (is_approved (f a).status ≡ true))
    → IsPendingIn db r
    → any (approved_at r.id) (set_approval r.id f db).tasks.store.approvals ≡ true
approved_now r f db h p =
    any-updated (approval_pending_at r.id) (approved_at r.id) (approval_with_id r.id) f
      (λ a t. (ground arith, rw ((h a).0) (rw ((h a).1) (ground arith)))) db.tasks.store.approvals
      p.1

Authorized-endings :
    (env : Env) (c : ApprovalCommand) (now : ℕ) (db : ApprovalDb)
    → Endings env c now db (Authorized c db)
unfolding stale_answer
Authorized-endings env c now db = record {
  conflicts = λ n s ids id store q. tt;
  expires = λ r payload p s. tt;
  keeps = λ r i n row p q u. tt;
  ends = λ r o row p u. tt;
  approves = λ r i t payload id store o row v p q w f made u.
      let (x, y) =
        queued_for env c now i r.id id t payload
          (set_approval r.id (resolved ApprovalStatus.approved now) db) store made
          (approved_now r (resolved ApprovalStatus.approved now) db (λ a. (refl, refl)) p) in
      (r.id, x, y, w, inl (r, p, refl, refl, q, rw v f));
  replaces = λ r i t payload id store o row v p q w f made u.
      let (x, y) =
        queued_for env c now i r.id id t payload
          (set_approval r.id (approved_with payload (reply_text c) now) db) store made
          (approved_now r (approved_with payload (reply_text c) now) db (λ a. (refl, refl)) p) in
      (r.id, x, y, w, inl (r, p, refl, refl, q, rw v f));
  writes = λ s i t payload id store o row v w made u.
      let a = owner_approval db.next_approval_id s i payload (reply_text c) now in
      let (x, y) =
        queued_for env c now i db.next_approval_id id t payload (add_approval a db) store made (
          any-append_last (approved_at db.next_approval_id) db.tasks.store.approvals a
            (ground arith)) in
      (db.next_approval_id, x, y, w, inr (v, refl));
}

-- A reply that a command reports as queued is in the table, pending, for a task that was watched. Its
-- approval is approved, and either it was a pending row of the table, of that task and with the short
-- id that is reported, whose source message had not changed, or it is a new one that /send wrote.
pub reply-IsAuthorized :
    (env : Env) (c : ApprovalCommand) (now : ℕ) (db db' : ApprovalDb) (short_id : String)
    (task_id id : ℕ) (outcome : ApprovalOutcome)
    → apply_approval_command_locked env c now db
      ≡ returns (answered_result short_id (some task_id) (some id) outcome, db')
    → IsAuthorized c db db' short_id task_id id
reply-IsAuthorized env c now db db' short_id task_id id outcome h =
    returned (Authorized c db) _ (answered_result short_id (some task_id) (some id) outcome, db')
      (command-Endings env c now db (Authorized c db) (Authorized-endings env c now db)) h
