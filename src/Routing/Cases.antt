-- ===== src/Routing/Cases.antt =====
-- The ways in which MessageRouter.route can end, with what is known in each. A property of routing is
-- proved by giving it in each of them.
use feishu_shadow_agent.Prelude.{
  ℕ, ◌-◌, ◌*◌, String, Bool, true, false, not, ◌&&◌, Option, none, some, ◌==◌, length, is_empty,
  is_some, if◌then◌else◌, nat_eq, string_eq, ◌≡◌, refl, arith,
}
use feishu_shadow_agent.Types.{
  TaskRecord, RouteDecision, ambiguous, NormalizedMessage, is_self_message, is_owner_message,
}
use feishu_shadow_agent.Tasks.{TaskDb, given, find_task_for_sent_action_message}
use feishu_shadow_agent.Tasks.Audits.{latest_non_duplicate_routing_decision}
use feishu_shadow_agent.Tasks.Attach.{
  attach_message_to_task_and_audit, record_agent_message_for_task_and_audit,
}
use feishu_shadow_agent.Tasks.Create.{create_task_for_message_and_audit}
use feishu_shadow_agent.Tasks.Takeover.{close_task_for_owner_takeover_and_audit}
use feishu_shadow_agent.Tasks.Related.{get_related_closed_tasks}
use feishu_shadow_agent.Routing.{
  Router, Arrival, Routed, is_trigger, is_session_route, processing_stage_for_decision, decided,
  audit, ignored, on_task,
}
use feishu_shadow_agent.Routing.Candidates.{
  TaskCandidate, collect, deterministic_match, burst_attach_match, existing_active_task,
  owner_takeover_task,
}
use feishu_shadow_agent.Routing.Route.{
  route, route_again, route_fresh, route_other, route_owner_message, route_candidates,
  route_unmatched, is_routed_again, start_given, attach_burst, attach_match, take_over,
  of_sent_action, of_revision, open_stage, reuse_existing, open_stage,
}

abbrev pub attach_as :
    Router → NormalizedMessage → Arrival → TaskDb → TaskRecord → ℕ → String → String → Routed
attach_as r m a db t count by reason =
    on_task t
      (attach_message_to_task_and_audit r.texts t m a.watch_until count by reason a.clock db)

-- An external message that is not for everybody: only such a one reaches the collector.
abbrev pub IsWork : NormalizedMessage → Type 0
IsWork m =
    (is_self_message m.sender_role ≡ false)
    × (is_owner_message m.sender_role ≡ false)
    × (m.at_all ≡ false)

abbrev pub since_of : Router → Arrival → ℕ
since_of r a = a.now - r.closed_recall_days * 86400000000

pub record Endings {κ} (r : Router) (m : NormalizedMessage) (a : Arrival) (db : TaskDb)
    (P : Routed → Type κ) : Type κ where
  pub raises : P none
  pub ignores : (reason : String) → P (ignored m reason a.clock db)
  pub leaves_open : (reason : String) (n : ℕ) → P (audit m (decided ambiguous reason n) a.clock db)
  pub reuses :
      (d : RouteDecision) (task : Option TaskRecord)
      → is_routed_again m a db ≡ true
      → latest_non_duplicate_routing_decision db m.message_id m.revision ≡ some (d, task)
      → P (some (record { decision = d; task = task }, db))
  pub revises :
      (t : TaskRecord)
      → a.revision_changed ≡ true
      → existing_active_task db m a.now ≡ some (some t)
      → P (attach_as r m a db t 1 "source_revision" "source_revision")
  pub reads_back :
      (t : TaskRecord)
      → find_task_for_sent_action_message r.texts db m.message_id ≡ some t
      → P (on_task t (record_agent_message_for_task_and_audit r.texts t m a.watch_until a.clock db))
  pub yields :
      (t : TaskRecord)
      → is_owner_message m.sender_role ≡ true
      → owner_takeover_task db m a.now ≡ some (some t)
      → P (on_task t (close_task_for_owner_takeover_and_audit t m a.clock db))
  pub matches :
      (c : TaskCandidate)
      → IsWork m
      → deterministic_match m (collect db m a.now) ≡ some c
      → P (
          attach_as r m a db c.task
            (length (collect db m a.now))
            c.matched_by
            "deterministic_shortcut")
  pub bursts :
      (t : TaskRecord)
      → IsWork m
      → burst_attach_match r.burst_attach_seconds db m (collect db m a.now) ≡ some t
      → P (attach_as r m a db t (length (collect db m a.now)) "burst_window" "burst_window")
  pub starts :
      (d : RouteDecision) (t : TaskRecord) (db' : TaskDb)
      → IsWork m
      → is_empty (collect db m a.now) ≡ true
      → is_empty (get_related_closed_tasks r.texts db m (since_of r a)) ≡ true
      → create_task_for_message_and_audit r.texts m a.watch_until a.agent_working_dir a.clock db
        ≡ some ((d, t), db')
      → P (on_task t (d, db'))

either {κ} :
    (P : Routed → Type κ) (b : Bool) {x y : Routed}
    → (b ≡ true → P x)
    → (b ≡ false → P y)
    → P (if b then x else y)
either P true hx hy = hx refl
either P false hx hy = hy refl

module _ {κ} {P : Routed → Type κ} (r : Router) (m : NormalizedMessage) (a : Arrival) (db : TaskDb)
    (e : Endings r m a db P) where
  created-Endings :
      IsWork m
      → is_empty (collect db m a.now) ≡ true
      → is_empty (get_related_closed_tasks r.texts db m (since_of r a)) ≡ true
      → (o : Option ((RouteDecision × TaskRecord) × TaskDb))
      → create_task_for_message_and_audit r.texts m a.watch_until a.agent_working_dir a.clock db ≡ o
      → P (elim o [ none ↦ none | some ((d, task), db') ↦ on_task task (d, db') ])
  created-Endings w n u none h = e.raises
  created-Endings w n u (some ((d, t), db')) h = e.starts d t db' w n u h

  start-Endings :
      IsWork m
      → is_empty (collect db m a.now) ≡ true
      → (chat : Option String) → P (start_given r m a db chat)
  start-Endings w n none = e.ignores "missing_chat_id"
  start-Endings w n (some chat) =
      either P (not (is_empty (get_related_closed_tasks r.texts db m (since_of r a))))
        (λ h. e.leaves_open "closed_recall_router_placeholder" _)
        (λ h. created-Endings w n (ground arith) _ refl)

  unmatched-Endings : IsWork m → P (route_unmatched r m a (collect db m a.now) db)
  unfolding route_unmatched
  unmatched-Endings w =
      either P (is_empty (collect db m a.now) && is_trigger a.source)
        (λ h. start-Endings w (ground arith) (given m.chat_id))
        (λ h.
          either P (a.source == "active_watch" && is_empty (collect db m a.now))
            (λ h. e.ignores "active_watch_no_candidate")
            (λ h. e.leaves_open "router_placeholder" _))

  burst-Endings :
      IsWork m
      → (o : Option TaskRecord)
      → ((t : TaskRecord)
          → o ≡ some t
          → burst_attach_match r.burst_attach_seconds db m (collect db m a.now) ≡ some t)
      → P (attach_burst r m a (collect db m a.now) db o)
  burst-Endings w none h = unmatched-Endings w
  burst-Endings w (some t) h = e.bursts t w (h t refl)

  match-Endings :
      IsWork m
      → (o : Option TaskCandidate) → deterministic_match m (collect db m a.now) ≡ o
      → P (attach_match r m a (collect db m a.now) db o)
  match-Endings w (some c) h = e.matches c w h
  match-Endings w none h = burst-Endings w _ (trigger (is_trigger a.source))
    where
      trigger :
          (b : Bool) (t : TaskRecord)
          → (if b
              then burst_attach_match r.burst_attach_seconds db m (collect db m a.now)
              else none)
            ≡ some t
          → burst_attach_match r.burst_attach_seconds db m (collect db m a.now) ≡ some t
      trigger true t h = h
      trigger false t h = cc

  yield-Endings :
      is_owner_message m.sender_role ≡ true
      → (o : Option (Option TaskRecord)) → owner_takeover_task db m a.now ≡ o
      → P (take_over m a db o)
  yield-Endings w none h = e.raises
  yield-Endings w (some none) h = e.ignores "owner_message_not_task_intervention"
  yield-Endings w (some (some t)) h = e.yields t w h

  other-Endings : P (route_other r m a db)
  unfolding route_other route_owner_message route_candidates
  other-Endings =
      either P (is_self_message m.sender_role) (λ h. e.ignores "self_message")
        (λ not_self.
          either P (is_owner_message m.sender_role) (λ h. yield-Endings h _ refl)
            (λ not_owner.
              either P m.at_all (λ h. e.ignores "at_all_suppressed")
                (λ not_all.
                  either P (a.source == "group_at_me" && not m.direct_mention)
                    (λ h. e.ignores "non_direct_mention")
                    (λ h. match-Endings (not_self, not_owner, not_all) _ refl))))

  fresh-Endings :
      (o : Option TaskRecord)
      → find_task_for_sent_action_message r.texts db m.message_id ≡ o
      → P (of_sent_action r m a db o)
  fresh-Endings none h = other-Endings
  fresh-Endings (some t) h = e.reads_back t h

  revision-Endings :
      (o : Option (Option TaskRecord))
      → ((t : TaskRecord)
          → o ≡ some (some t)
          → (a.revision_changed ≡ true) × (existing_active_task db m a.now ≡ some (some t)))
      → P (of_revision r m a db o)
  unfolding route_fresh
  revision-Endings none h = e.raises
  revision-Endings (some none) h = fresh-Endings _ refl
  revision-Endings (some (some t)) h = e.revises t (h t refl).0 (h t refl).1

  again-Endings :
      is_routed_again m a db ≡ true
      → (o : Option (RouteDecision × Option TaskRecord))
      → latest_non_duplicate_routing_decision db m.message_id m.revision ≡ o
      → P (reuse_existing db m a.clock o)
  again-Endings w none h = e.ignores "duplicate_message"
  again-Endings w (some (d, task)) h =
      either P
        (open_stage db m (processing_stage_for_decision d)
          && not (is_session_route d.route && not (is_some task)))
        (λ u. e.reuses d task w h) (λ u. e.ignores "duplicate_message")

  -- Whatever holds of every ending holds of `route`.
  pub route-Endings : P (route r m a db)
  unfolding route route_again
  route-Endings =
      either P (is_routed_again m a db)
        (λ w.
          either P a.retry_incomplete_processing (λ h. again-Endings w _ refl)
            (λ h. e.ignores "duplicate_message"))
        (λ w. revision-Endings _ (changed a.revision_changed refl))
    where
      changed :
          (b : Bool)
          → a.revision_changed ≡ b
          → (t : TaskRecord)
          → (if b then existing_active_task db m a.now else some none) ≡ some (some t)
          → (a.revision_changed ≡ true) × (existing_active_task db m a.now ≡ some (some t))
      changed true h t u = (h, u)
      changed false h t u = cc
