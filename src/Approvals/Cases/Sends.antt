-- ===== src/Approvals/Cases/Sends.antt =====
-- The same for /send, and for every command.
use feishu_shadow_agent.Prelude.{
  ◌==◌, string_eq, single, ap, ◌&&◌, not, nat_beq_iff, if◌then◌else◌, ℕ, Bool, true, false, Option,
  none, some, List, [], ◌∷◌, ◌≡◌, refl, arith, find?, subst, Among, find?-Among, single-Among,
}
use feishu_shadow_agent.Approvals.{
  newest_approval, is_send_reply_approval, approve, reject, send, list_pending_send_reply_approvals,
  task_not_found, unsupported, other_verb, is_expected_target, is_task_id, is_approval_id, detached,
  target_is_stale, needs_target, not, raised, returns, Verb, find_task, resolve_pending_approval,
  ApprovalCommand, ApprovalDb, CommandResult, Env,
}
use feishu_shadow_agent.Approvals.Cases.{
  returned, Endings, Returned, IsPendingIn, IsWatched, either, if_not_raised, bound, recorded,
  action_made, by_raise, by_return,
}
use feishu_shadow_agent.Approvals.Cases.Handlers.{
  conflict-Endings, approve_or_reject-Endings, active-IsWatched, pending_in, resolve-IsPendingIn,
}
use feishu_shadow_agent.Approvals.Send.{
  pending_for, reply_text, payload_for, concrete_target, send_pending, send_reply_text, send_in,
  send_approved, send_for_approval, send_without_approval, send_target,
}
use feishu_shadow_agent.Approvals.Command.{note_is_long, by_verb, apply_approval_command_locked}
use feishu_shadow_agent.Tasks.{has_id, TaskRow}
use feishu_shadow_agent.Store.{source_payload_is_stale, ApprovalRow}
use feishu_shadow_agent.Approvals.Resolve.{create_action}
use feishu_shadow_agent.Approvals.Feedback.{payload_to_replace}
use feishu_shadow_agent.Tasks.Takeover.{pending_approval_of}
use feishu_shadow_agent.Store.Index.{equals_nat}

-- What is known of the approval and the task that /send is about.
abbrev Targeted : ApprovalDb → Option ApprovalRow × Option TaskRow → Type 0
Targeted db (r, none) = Unit
Targeted db (none, some t) = Among t db.tasks.tasks
Targeted db (some r, some t) =
    Among t db.tasks.tasks × IsPendingIn db r × (r.task_id ≡ some t.task.id)

concrete-Targeted :
    (c : ApprovalCommand) (db : ApprovalDb) (o : Option ApprovalRow)
    → resolve_pending_approval c.target_id db.tasks.tasks db.tasks.store.approvals ≡ o
    → Returned (Targeted db) (concrete_target c db o)
unfolding Returned
concrete-Targeted c db none h = tt
concrete-Targeted c db (some r) h =
    expected (is_expected_target r c.expected_target_binding) r.task_id refl
  where
    found :
        (i : ℕ) (o : Option TaskRow)
        → r.task_id ≡ some i
        → find? (has_id i) db.tasks.tasks ≡ o
        → Targeted db (some r, o)
    found i none t f = tt
    found i (some x) t f =
        let (same, m) = find?-Among (has_id i) db.tasks.tasks x f in
        (m, resolve-IsPendingIn c.target_id db r h, ground arith)

    expected :
        (b : Bool) (o : Option ℕ)
        → r.task_id ≡ o
        → Returned (Targeted db) (
            if not b then raised target_is_stale db else elim o [
              | none ↦ raised detached db
              | some i ↦ returns (some r, find? (has_id i) db.tasks.tasks)
            ])
    expected false o t = tt
    expected true none t = tt
    expected true (some i) t = found i _ t refl

send_target-Targeted :
    (c : ApprovalCommand) (db : ApprovalDb) → Returned (Targeted db) (send_target c db)
unfolding send_target Returned
send_target-Targeted c db = by (is_approval_id c.target_id) (is_task_id c.target_id)
  where
    named : (o : Option TaskRow) → find_task c.target_id db.tasks.tasks ≡ o → Targeted db (none, o)
    named none f = tt
    named (some t) f = (find?-Among _ db.tasks.tasks t f).1

    by :
        (b b' : Bool)
        → Returned (Targeted db) (
            if b
            then concrete_target c db
                (resolve_pending_approval c.target_id db.tasks.tasks db.tasks.store.approvals)
            else if b'
            then returns (none, find_task c.target_id db.tasks.tasks)
            else raised needs_target db)
    by true b' = concrete-Targeted c db _ refl
    by false true = named _ refl
    by false false = tt

not-false : (b : Bool) → not b ≡ false → b ≡ true
not-false b h = ground arith

target-Among :
    (db : ApprovalDb) (o : Option ApprovalRow) (t : TaskRow)
    → Targeted db (o, some t)
    → Among t db.tasks.tasks
target-Among db none t m = m
target-Among db (some r) t (m, p, i) = m

pending_for-IsPendingIn :
    (db : ApprovalDb) (o : Option ApprovalRow) (t : TaskRow)
    → Targeted db (o, some t)
    → (r : ApprovalRow) → pending_for o t db ≡ r ∷ []
    → IsPendingIn db r × (r.task_id ≡ some t.task.id)
unfolding list_pending_send_reply_approvals
pending_for-IsPendingIn db (some a) t (m, p, i) r h =
    let same : a ≡ r = cc in
    subst (λ x. IsPendingIn db x × (x.task_id ≡ some t.task.id)) same (p, i)
pending_for-IsPendingIn db none t m r h =
    let (p, n) =
      single-Among (λ a. pending_approval_of t.task.id a && is_send_reply_approval a.kind)
        newest_approval db.tasks.store.approvals r (ap single h) in
    (pending_in db r (ground arith) n, named r.task_id (ground arith))
  where
    named : (x : Option ℕ) → equals_nat x (some t.task.id) ≡ true → x ≡ some t.task.id
    named none h = cc
    named (some i) h = ap some ((nat_beq_iff i t.task.id).0 h)

module _ {κ} (env : Env) (c : ApprovalCommand) (now : ℕ) (db : ApprovalDb)
    (P : CommandResult × ApprovalDb → Type κ) (e : Endings env c now db P) where
  module _ (v : c.verb ≡ send) where
    replace-Endings :
        (r : ApprovalRow) (t : TaskRow)
        → IsPendingIn db r
        → r.task_id ≡ some t.task.id
        → IsWatched db t.task.id
        → Returned P (send_for_approval env c r t now db)
    unfolding send_for_approval send_approved create_action
    replace-Endings r t p i w =
        either P (source_payload_is_stale db.tasks.store (payload_to_replace r)) _ _
          (λ stale. by_return P _ (e.expires r (payload_to_replace r) p stale))
          (λ current. bound P _ _ (λ target _. action_made P _ _ _ (λ id store made.
            bound P _ _ (λ a _. recorded P _ _ _ (
              e.replaces r t.task.id target (payload_for db r t.task.id target (reply_text c)) id
                store _ _ v p i w current made)))))

    write-Endings :
        (t : TaskRow) → IsWatched db t.task.id → Returned P (send_without_approval env c t now db)
    unfolding send_without_approval send_approved create_action
    write-Endings t w = bound P _ _ (λ short_id _. bound P _ _ (λ target _.
        action_made P _ _ _ (λ id store made.
          bound P _ _ (λ a _.
            recorded P _ _ _ (e.writes short_id t.task.id target _ id store _ _ v w made)))))

    pending-Endings :
        (t : TaskRow)
        → IsWatched db t.task.id
        → (rs : List ApprovalRow)
        → ((r : ApprovalRow) → rs ≡ r ∷ [] → IsPendingIn db r × (r.task_id ≡ some t.task.id))
        → Returned P (send_pending env c t rs now db)
    pending-Endings t w [] h = write-Endings t w
    pending-Endings t w (r ∷ []) h = replace-Endings r t (h r refl).0 (h r refl).1 w
    pending-Endings t w (r ∷ (q ∷ rest)) h =
        conflict-Endings env c now db P e t.task.id c.target_id (r ∷ (q ∷ rest))

    sends-Endings :
        (x : Option ApprovalRow × Option TaskRow)
        → Targeted db x
        → Returned P (send_in env c x.0 x.1 now db)
    sends-Endings (o, none) g = by_raise P task_not_found _
    sends-Endings (o, some t) g = if_not_raised P _ _ _ _ (λ watching.
        if_not_raised P _ _ _ _ (λ text.
          pending-Endings t (active-IsWatched db t (target-Among db o t g) (not-false _ watching)) _
            (pending_for-IsPendingIn db o t g)))

  pub command-Endings : Returned P (apply_approval_command_locked env c now db)
  unfolding apply_approval_command_locked send_reply_text
  command-Endings =
      if_not_raised P (env.strip c.actor == "") _ _ _
        (λ named. if_not_raised P (note_is_long env c.note) _ _ _ (λ short. by c.verb refl))
    where
      by : (v : Verb) → c.verb ≡ v → Returned P (by_verb env c v now db)
      by approve h = approve_or_reject-Endings env c now db P e true (λ t. h)
      by reject h = approve_or_reject-Endings env c now db P e false (λ t. cc)
      by (other_verb s) h = by_raise P unsupported _
      by send h = if_not_raised P _ _ _ _ (λ allowed.
          bound P _ _
            (λ x q. sends-Endings h x (returned (Targeted db) _ x (send_target-Targeted c db) q)))
