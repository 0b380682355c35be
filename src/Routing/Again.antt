-- ===== src/Routing/Again.antt =====
-- A message that is polled again: it is a duplicate, unless its processing broke off.
use feishu_shadow_agent.Prelude.{
  ℕ, String, Bool, true, false, not, ◌&&◌, Option, none, some, List, [], ◌∷◌, ◌++◌, any, is_some,
  if◌then◌else◌, nat_eq, string_eq, ◌≡◌, refl, ◌∙◌, Bool-cases, inl, inr, arith, sym, ap, text_same,
  subst,
}
use feishu_shadow_agent.Types.{
  message_processing_blocks_duplicate, MessageProcessingStatus, TaskRecord, RouteDecision,
  NormalizedMessage, MessageProcessingStage,
}
use feishu_shadow_agent.Tasks.{TaskDb, RoutingAudit}
use feishu_shadow_agent.Tasks.Audits.{
  is_duplicate_row, with_task-audit_row, with_task, message_has_routing_audit,
  latest_non_duplicate_routing_decision, audit_row, audits_message, latest_audit, is_duplicate,
  task_found,
}
use feishu_shadow_agent.Tasks.Markers.{
  status-record, MarkerKey, message_processing_is_final, Marker, record_message_processing,
}
use feishu_shadow_agent.Routing.{
  Router, Arrival, RoutingResult, is_session_route, ignored, processing_stage_for_decision,
}
use feishu_shadow_agent.Routing.Route.{
  reuse_existing, route, is_routed_again, route_again, stage_is_open, marker_key,
}
use feishu_shadow_agent.Routing.Laws.{Audited, Recorded, route-Audited}

audits-own :
    (m : String) (revision id : ℕ) (d : RouteDecision) (now : ℕ)
    → audits_message m revision (audit_row id m revision d now) ≡ true
audits-own m revision id d now = ground (arith, text_same m)

any-last :
    (p : RoutingAudit → Bool) (rows : List RoutingAudit) (x : RoutingAudit)
    → p x ≡ true
    → any p (rows ++ x ∷ []) ≡ true
any-last p [] x h = ground arith
any-last p (r ∷ rows) x h = ground (arith, any-last p rows x h)

-- once routed, a message has an audit
routed-audit :
    (m : NormalizedMessage) (a : Arrival) (db db' : TaskDb) (res : RoutingResult)
    → Audited m a db (some (res, db'))
    → message_has_routing_audit db' m.message_id m.revision ≡ true
unfolding message_has_routing_audit
routed-audit m a db db' res (inl e) = rw e (
    any-last (audits_message m.message_id m.revision) db.audits _
      (audits-own m.message_id m.revision db.next_audit_id res.decision a.clock))
routed-audit m a db db' res (inr (w, e)) = rw e (ground arith)

-- A poll that finds nothing new.
abbrev pub IsRepeat : Arrival → Type 0
IsRepeat a = (a.inserted ≡ false) × (a.revision_changed ≡ false)

again_lem :
    (r : Router) (m : NormalizedMessage) (a : Arrival) (db : TaskDb)
    → IsRepeat a
    → message_has_routing_audit db m.message_id m.revision ≡ true
    → route r m a db ≡ route_again m a db
unfolding route
again_lem r m a db (i, c) h = rw i (rw c (rw h refl))

latest_audit-last :
    (m : String) (revision id now : ℕ) (d : RouteDecision) (rows : List RoutingAudit)
    → is_duplicate d ≡ false
    → latest_audit m revision (rows ++ audit_row id m revision d now ∷ [])
      ≡ some (audit_row id m revision d now)
unfolding latest_audit
latest_audit-last m revision id now d [] n = rw (audits-own m revision id d now) (rw n refl)
latest_audit-last m revision id now d (x ∷ rows) n =
    rw (latest_audit-last m revision id now d rows n)
      (same (audits_message m revision x && not (is_duplicate_row x)))
  where
    same :
        (b : Bool)
        → (if b then some (audit_row id m revision d now) else some (audit_row id m revision d now))
          ≡ some (audit_row id m revision d now)
    same true = refl
    same false = refl

-- A decision that leaves a stage of processing to do.
abbrev pub LeavesStage : RouteDecision → MessageProcessingStage → Type 0
LeavesStage d stage = processing_stage_for_decision d ≡ some stage

stage-not-duplicate :
    (d : RouteDecision) (stage : MessageProcessingStage)
    → LeavesStage d stage
    → is_duplicate d ≡ false
unfolding processing_stage_for_decision
stage-not-duplicate d stage h = ground arith

-- what was routed, as it is found when the message comes again
routed-found :
    (m : NormalizedMessage) (a : Arrival) (db db' : TaskDb) (d : RouteDecision)
    (stage : MessageProcessingStage)
    → Recorded m a db d db'
    → LeavesStage d stage
    → latest_non_duplicate_routing_decision db' m.message_id m.revision
      ≡ some (d, task_found db' d.target_task_id)
unfolding latest_non_duplicate_routing_decision
routed-found m a db db' d stage e h =
    ap (with_task db') (
      ap (latest_audit m.message_id m.revision) e
      ∙ latest_audit-last m.message_id m.revision db.next_audit_id a.clock d db.audits
          (stage-not-duplicate d stage h))
    ∙ with_task-audit_row db' db.next_audit_id m.message_id m.revision d a.clock

Recorded-now :
    (m : NormalizedMessage) (a : Arrival) (db db' : TaskDb) (res : RoutingResult)
    → is_routed_again m a db ≡ false
    → Audited m a db (some (res, db'))
    → Recorded m a db res.decision db'
Recorded-now m a db db' res new (inl e) = e
Recorded-now m a db db' res new (inr (w, e)) = cc

-- The decision about a new message is not lost when the program stops before it is processed: as long
-- as the stage that it leaves to do is open, the next poll gives the same decision with its task, and
-- writes nothing. The task must still be there if the decision needs one.
pub broken_off_is_resumed :
    (r : Router) (m : NormalizedMessage) (a again : Arrival) (db db' : TaskDb) (res : RoutingResult)
    (stage : MessageProcessingStage)
    → route r m a db ≡ some (res, db')
    → is_routed_again m a db ≡ false
    → IsRepeat again
    → again.retry_incomplete_processing ≡ true
    → LeavesStage res.decision stage
    → stage_is_open db' m stage ≡ true
    → (is_session_route res.decision.route
        && not (is_some (task_found db' res.decision.target_task_id)))
      ≡ false
    → route r m again db'
      ≡ some (
        record { decision = res.decision; task = task_found db' res.decision.target_task_id },
        db',
      )
unfolding route_again
broken_off_is_resumed r m a again db db' res stage h new repeat retry leaves is_open has_task =
    let audited = subst (Audited m a db) h (route-Audited r m a db) in
    again_lem r m again db' repeat (routed-audit m a db db' res audited)
    ∙ rw retry (
        rw
          (routed-found m a db db' res.decision stage (Recorded-now m a db db' res new audited)
            leaves)
          (rw leaves (rw is_open (rw has_task refl))))

marked :
    (db : TaskDb) (k : MarkerKey) (mark : Marker) (now : ℕ)
    → message_processing_is_final (record_message_processing db k mark now) k ≡ true
unfolding message_processing_is_final
marked db k mark now =
    ap message_processing_blocks_duplicate (status-record db k mark now) ∙ blocks mark.status
  where
    blocks : (s : MessageProcessingStatus) → message_processing_blocks_duplicate (some s) ≡ true
    blocks MessageProcessingStatus.processed = refl
    blocks MessageProcessingStatus.processing_failed_terminal = refl
    blocks MessageProcessingStatus.blocked_waiting_external = refl

marked-audit :
    (db : TaskDb) (m : NormalizedMessage) (stage : MessageProcessingStage) (mark : Marker) (now : ℕ)
    → message_has_routing_audit db m.message_id m.revision ≡ true
    → message_has_routing_audit
        (record_message_processing db (marker_key m stage) mark now)
        m.message_id
        m.revision
      ≡ true
unfolding message_has_routing_audit record_message_processing
marked-audit db m stage mark now h = h

done-Recorded :
    (m : NormalizedMessage) (a : Arrival) (db db' : TaskDb) (d : RouteDecision)
    (stage : MessageProcessingStage) (mark : Marker) (now : ℕ)
    → Recorded m a db d db'
    → Recorded m a db d (record_message_processing db' (marker_key m stage) mark now)
unfolding record_message_processing
done-Recorded m a db db' d stage mark now h = h

abbrev LeavesAll : MessageProcessingStage → Option (RouteDecision × Option TaskRecord) → Type 0
LeavesAll stage none = Unit
LeavesAll stage (some (d, t)) = LeavesStage d stage

-- what is found for a message whose stage has its marker is not taken up
marked-closed :
    (db : TaskDb) (m : NormalizedMessage) (stage : MessageProcessingStage) (mark : Marker)
    (now clock : ℕ) (o : Option (RouteDecision × Option TaskRecord))
    → ((d : RouteDecision) (t : Option TaskRecord) → o ≡ some (d, t) → LeavesStage d stage)
    → let done = record_message_processing db (marker_key m stage) mark now in
      reuse_existing done m clock o ≡ ignored m "duplicate_message" clock done
unfolding stage_is_open
marked-closed db m stage mark now clock none h = refl
marked-closed db m stage mark now clock (some (d, t)) h =
    rw (h d t refl) (rw (marked db (marker_key m stage) mark now) refl)

-- When the stage that a decision left to do gets its marker straight after the route, whatever the
-- marker says, a poll of that revision on the tables as the marker leaves them ignores the message as
-- a duplicate, a retry too. What other audits written in between may change is not said here.
pub marked_is_done :
    (r : Router) (m : NormalizedMessage) (a again : Arrival) (db db' : TaskDb) (res : RoutingResult)
    (stage : MessageProcessingStage) (mark : Marker) (now : ℕ)
    → route r m a db ≡ some (res, db')
    → is_routed_again m a db ≡ false
    → IsRepeat again
    → LeavesStage res.decision stage
    → let done = record_message_processing db' (marker_key m stage) mark now in
      route r m again done ≡ ignored m "duplicate_message" again.clock done
unfolding route_again
marked_is_done r m a again db db' res stage mark now h new repeat leaves =
    let done = record_message_processing db' (marker_key m stage) mark now in
    let audited = subst (Audited m a db) h (route-Audited r m a db) in
    let found =
      routed-found m a db done res.decision stage
        (done-Recorded m a db db' res.decision stage mark now
          (Recorded-now m a db db' res new audited))
        leaves in
    again_lem r m again done repeat
      (marked-audit db' m stage mark now (routed-audit m a db db' res audited))
    ∙ elim (Bool-cases again.retry_incomplete_processing) [
      | inl t ↦ rw t (
          marked-closed db' m stage mark now again.clock _
            (λ d t e. subst (LeavesAll stage) (sym found ∙ e) leaves))
      | inr t ↦ rw t refl
    ]
