-- ===== src/Approvals/Cases/Handlers.antt =====
-- Every handler of approval commands returns in one of the ways of Cases, or raises.
use feishu_shadow_agent.Prelude.{
  ◌⊎◌, if◌then◌else◌, single-Among, find?-Among, any-Among, Among, ℕ, String, Bool, true, false,
  Option, none, some, List, nat_eq, ◌≡◌, refl, arith, find?,
}
use feishu_shadow_agent.Json.{Fields}
use feishu_shadow_agent.Types.{ApprovalStatus, is_pending_approval, is_active_task_status}
use feishu_shadow_agent.Store.{Db, ApprovalRow, source_payload_is_stale}
use feishu_shadow_agent.Tasks.{TaskRow, has_id}
use feishu_shadow_agent.Store.Fence.{approval_pending_at}
use feishu_shadow_agent.Approvals.{
  Verb, outcome_not_valid, key_in_use, not_watching, not_found, newest_approval,
  pending_of_named_task, ApprovalCommand, ApprovalDb, CommandResult, Env, resolve_pending_approval,
  is_approval_id, is_task_id, pending_with_short_id, task_is_watching,
}
use feishu_shadow_agent.Approvals.Notices.{
  conflict_answer, create_conflict_notification, conflict_notice,
}
use feishu_shadow_agent.Approvals.Resolve.{
  conflicting, outcome_allowed, answer_unless, answer_current, answer_resolved, keeps_watching,
  reject_with, approve_or_reject, answer_approval, approve_reply, reject_approval,
  keep_after_reject, end_after_reject, create_action, approve_for,
}
use feishu_shadow_agent.Approvals.Cases.{
  by_raise, by_return, resolved, set_approval, queue_notice, payload_with_source, inr, inl, Endings,
  Returned, IsPendingIn, IsWatched, watched_task, either, if_not_raised, bound, recorded,
  action_made,
}

pub pending_in :
    (db : ApprovalDb) (r : ApprovalRow)
    → is_pending_approval r.status ≡ true
    → Among r db.tasks.store.approvals
    → IsPendingIn db r
pending_in db r p m =
    (p, any-Among (approval_pending_at r.id) db.tasks.store.approvals r (ground arith) m, m)

pub active-IsWatched :
    (db : ApprovalDb) (t : TaskRow)
    → Among t db.tasks.tasks
    → is_active_task_status t.task.status ≡ true
    → IsWatched db t.task.id
active-IsWatched db t m a = any-Among (watched_task t.task.id) db.tasks.tasks t (ground arith) m

one_of :
    (b b' : Bool) (x y : Option ApprovalRow) (r : ApprovalRow)
    → (if b then x else if b' then y else none) ≡ some r
    → (x ≡ some r) ⊎ (y ≡ some r)
one_of true b' x y r h = inl h
one_of false true x y r h = inr h
one_of false false x y r h = cc

watching-IsWatched :
    (db : ApprovalDb) (i : ℕ)
    → task_is_watching (find? (has_id i) db.tasks.tasks) ≡ true
    → IsWatched db i
watching-IsWatched db i w = found (find? (has_id i) db.tasks.tasks) refl w
  where
    found :
        (o : Option TaskRow)
        → find? (has_id i) db.tasks.tasks ≡ o
        → task_is_watching o ≡ true
        → IsWatched db i
    found none h w = cc
    found (some t) h w =
        any-Among (watched_task i) db.tasks.tasks t
          (let same = (find?-Among (has_id i) db.tasks.tasks t h).0 in ground arith)
          (find?-Among (has_id i) db.tasks.tasks t h).1

pub resolve-IsPendingIn :
    (s : String) (db : ApprovalDb) (r : ApprovalRow)
    → resolve_pending_approval s db.tasks.tasks db.tasks.store.approvals ≡ some r
    → IsPendingIn db r
unfolding resolve_pending_approval
resolve-IsPendingIn s db r h =
    let rows = db.tasks.store.approvals in
    elim (one_of (is_approval_id s) (is_task_id s) _ _ r h) [
      | inl e ↦
          let (p, m) = find?-Among (pending_with_short_id s) rows r e in
          pending_in db r (ground arith) m
      | inr e ↦
          let (p, m) =
            single-Among (pending_of_named_task s db.tasks.tasks) newest_approval rows r e in
          pending_in db r (ground arith) m
    ]

module _ {κ} (env : Env) (c : ApprovalCommand) (now : ℕ) (db : ApprovalDb)
    (P : CommandResult × ApprovalDb → Type κ) (e : Endings env c now db P) where
  pub conflict-Endings :
      (task_id : ℕ) (s : String) (pending : List ApprovalRow)
      → Returned P (create_conflict_notification env db c.verb task_id s pending now)
  unfolding create_conflict_notification
  conflict-Endings task_id s pending =
      queued (queue_notice db.tasks.store now (conflict_notice env db task_id s pending)) refl
    where
      queued :
          (x : Option ℕ × Db)
          → queue_notice db.tasks.store now (conflict_notice env db task_id s pending) ≡ x
          → Returned P (conflict_answer c.verb s pending db x)
      queued (none, store) h = by_raise P key_in_use _
      queued (some id, store) h = by_return P _ (e.conflicts _ s _ id store h)

  approve-Endings :
      (r : ApprovalRow) (i : ℕ)
      → c.verb ≡ Verb.approve
      → IsPendingIn db r
      → r.task_id ≡ some i
      → IsWatched db i
      → source_payload_is_stale db.tasks.store (payload_with_source r) ≡ false
      → Returned P (
          approve_reply env c r
            (payload_with_source r)
            i
            now
            (set_approval r.id (resolved ApprovalStatus.approved now) db))
  unfolding approve_reply create_action
  approve-Endings r i v p o w f = bound P _ _ (λ target _. bound P _ _ (λ text _.
      action_made P _ _ _
        (λ id store made. recorded P _ _ _ (e.approves r i target _ id store _ _ v p o w f made))))

  reject-Endings :
      (r : ApprovalRow) (payload : Fields)
      → IsPendingIn db r
      → Returned P (reject_approval env c r payload now db)
  unfolding reject_approval keep_after_reject end_after_reject
  reject-Endings r payload p = by (keeps_watching c.requested_outcome payload) r.task_id refl
    where
      by :
          (b : Bool) (o : Option ℕ)
          → r.task_id ≡ o
          → Returned P (
              reject_with env c r payload b o now
                (set_approval r.id (resolved ApprovalStatus.rejected now) db))
      by true (some i) o = recorded P _ _ _ (e.keeps r i _ _ p o)
      by true none o = recorded P _ _ _ (e.ends r _ _ p)
      by false i o = recorded P _ _ _ (e.ends r _ _ p)

  current-Endings :
      (approving : Bool) (r : ApprovalRow)
      → (approving ≡ true → c.verb ≡ Verb.approve)
      → IsPendingIn db r
      → source_payload_is_stale db.tasks.store (payload_with_source r) ≡ false
      → Returned P (answer_current env approving c r (payload_with_source r) now db)
  current-Endings false r v p f = reject-Endings r (payload_with_source r) p
  current-Endings true r v p f = by r.task_id refl
    where
      by :
          (o : Option ℕ)
          → r.task_id ≡ o
          → Returned P (approve_for env c r (payload_with_source r) o now db)
      by none o = by_raise P not_watching _
      by (some i) o =
          either P (task_is_watching (find? (has_id i) db.tasks.tasks)) _ _
            (λ w. approve-Endings r i (v refl) p o (watching-IsWatched db i w) f)
            (λ w. by_raise P not_watching _)

  answer-Endings :
      (approving : Bool) (r : ApprovalRow)
      → (approving ≡ true → c.verb ≡ Verb.approve)
      → IsPendingIn db r
      → Returned P (answer_approval env approving c r now db)
  unfolding answer_approval
  answer-Endings approving r v p = if_not_raised P _ _ _ _ (λ expected.
      either P (source_payload_is_stale db.tasks.store (payload_with_source r)) _ _
        (λ stale. by_return P _ (e.expires r (payload_with_source r) p stale))
        (λ current. current-Endings approving r v p current))

  pub approve_or_reject-Endings :
      (approving : Bool)
      → (approving ≡ true → c.verb ≡ Verb.approve)
      → Returned P (approve_or_reject env approving c now db)
  unfolding approve_or_reject
  approve_or_reject-Endings approving v =
      either P (outcome_allowed approving c.requested_outcome) _ _
        (λ allowed. unless (conflicting c.target_id db)) (λ refused. by_raise P outcome_not_valid _)
    where
      found :
          (o : Option ApprovalRow)
          → resolve_pending_approval c.target_id db.tasks.tasks db.tasks.store.approvals ≡ o
          → Returned P (answer_resolved env approving c o now db)
      found none h = by_raise P not_found _
      found (some r) h = answer-Endings approving r v (resolve-IsPendingIn c.target_id db r h)

      unless :
          (o : Option (ℕ × List ApprovalRow)) → Returned P (answer_unless env approving c o now db)
      unless none = found _ refl
      unless (some (task_id, pending)) = conflict-Endings task_id c.target_id pending
