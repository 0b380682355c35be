-- ===== src/Routing/Route.antt =====
-- routing.py: MessageRouter.route, its returns in their order.
use feishu_shadow_agent.Prelude.{
  ℕ, ◌-◌, ◌*◌, String, Bool, true, false, not, ◌&&◌, Option, none, some, List, ◌==◌, length,
  is_empty, is_some, if◌then◌else◌, nat_eq, string_eq,
}
use feishu_shadow_agent.Types.{
  TaskRecord, RouteDecision, ambiguous, MessageProcessingStage, task_session, resource_download,
  NormalizedMessage, is_self_message, is_owner_message, MessageProcessingStatus,
  processing_failed_terminal, blocked_waiting_external,
}
use feishu_shadow_agent.Tasks.{TaskDb, given, find_task_for_sent_action_message}
use feishu_shadow_agent.Tasks.Audits.{
  message_has_routing_audit, latest_non_duplicate_routing_decision,
}
use feishu_shadow_agent.Tasks.Markers.{
  MarkerKey, message_processing_is_final, message_processing_status,
}
use feishu_shadow_agent.Tasks.Attach.{
  attach_message_to_task_and_audit, record_agent_message_for_task_and_audit,
}
use feishu_shadow_agent.Tasks.Create.{create_task_for_message_and_audit}
use feishu_shadow_agent.Tasks.Takeover.{close_task_for_owner_takeover_and_audit}
use feishu_shadow_agent.Tasks.Related.{get_related_closed_tasks}
use feishu_shadow_agent.Routing.{
  Router, Arrival, Routed, is_trigger, is_session_route, processing_stage_for_decision, decided,
  audit, ignored, on_task,
}
use feishu_shadow_agent.Routing.Candidates.{
  TaskCandidate, collect, deterministic_match, burst_attach_match, existing_active_task,
  owner_takeover_task,
}

abbrev pub is_session : MessageProcessingStage → Bool
is_session task_session = true
is_session _ = false

-- in {"processing_failed_terminal", "blocked_waiting_external"}
abbrev pub blocks_session : Option MessageProcessingStatus → Bool
blocks_session (some processing_failed_terminal) = true
blocks_session (some blocked_waiting_external) = true
blocks_session _ = false

abbrev pub marker_key : NormalizedMessage → MessageProcessingStage → MarkerKey
marker_key m stage = record { message_id = m.message_id; revision = m.revision; stage = stage }

-- the stage has no marker, and no failed or blocked download stands before a task session
unfoldable pub stage_is_open : TaskDb → NormalizedMessage → MessageProcessingStage → Bool
stage_is_open db m stage =
    not (message_processing_is_final db (marker_key m stage))
    && not (
        is_session stage
        && blocks_session (message_processing_status db (marker_key m resource_download)))

abbrev pub open_stage : TaskDb → NormalizedMessage → Option MessageProcessingStage → Bool
open_stage db m none = false
open_stage db m (some stage) = stage_is_open db m stage

abbrev pub reuse_existing :
    TaskDb → NormalizedMessage → ℕ → Option (RouteDecision × Option TaskRecord) → Routed
reuse_existing db m clock none = ignored m "duplicate_message" clock db
reuse_existing db m clock (some (d, task)) =
    if open_stage db m (processing_stage_for_decision d)
      && not (is_session_route d.route && not (is_some task))
    then some (record { decision = d; task = task }, db)
    else ignored m "duplicate_message" clock db

-- a message whose route was audited before
unfoldable pub route_again : NormalizedMessage → Arrival → TaskDb → Routed
unfolding stage_is_open
route_again m a db =
    if a.retry_incomplete_processing
    then reuse_existing db m a.clock
        (latest_non_duplicate_routing_decision db m.message_id m.revision)
    else ignored m "duplicate_message" a.clock db

-- no candidate, from a source that triggers
abbrev pub start_given : Router → NormalizedMessage → Arrival → TaskDb → Option String → Routed
start_given r m a db none = ignored m "missing_chat_id" a.clock db
start_given r m a db (some chat_id) =
    let historical =
      get_related_closed_tasks r.texts db m (a.now - r.closed_recall_days * 86400000000) in
    if not (is_empty historical)
    then audit m (decided ambiguous "closed_recall_router_placeholder" (length historical)) a.clock
        db
    else elim (create_task_for_message_and_audit r.texts m a.watch_until a.agent_working_dir a.clock
        db) [ none ↦ none | some ((d, task), db') ↦ on_task task (d, db') ]

-- no task was matched
unfoldable pub route_unmatched :
    Router → NormalizedMessage → Arrival → List TaskCandidate → TaskDb → Routed
route_unmatched r m a cs db =
    if is_empty cs && is_trigger a.source
    then start_given r m a db (given m.chat_id)
    else if a.source == "active_watch" && is_empty cs
    then ignored m "active_watch_no_candidate" a.clock db
    else audit m (decided ambiguous "router_placeholder" (length cs)) a.clock db

abbrev pub attach_burst :
    Router → NormalizedMessage → Arrival → List TaskCandidate → TaskDb → Option TaskRecord → Routed
attach_burst r m a cs db none = route_unmatched r m a cs db
attach_burst r m a cs db (some t) = on_task t (
    attach_message_to_task_and_audit r.texts t m a.watch_until (length cs) "burst_window"
      "burst_window" a.clock db)

abbrev pub attach_match :
    Router
    → NormalizedMessage
    → Arrival
    → List TaskCandidate
    → TaskDb
    → Option TaskCandidate
    → Routed
attach_match r m a cs db (some c) = on_task c.task (
    attach_message_to_task_and_audit r.texts c.task m a.watch_until (length cs) c.matched_by
      "deterministic_shortcut" a.clock db)
attach_match r m a cs db none =
    attach_burst r m a cs db
      (if is_trigger a.source then burst_attach_match r.burst_attach_seconds db m cs else none)

-- from the collector on
unfoldable pub route_candidates :
    Router → NormalizedMessage → Arrival → List TaskCandidate → TaskDb → Routed
unfolding route_unmatched
route_candidates r m a cs db = attach_match r m a cs db (deterministic_match m cs)

abbrev pub take_over : NormalizedMessage → Arrival → TaskDb → Option (Option TaskRecord) → Routed
take_over m a db none = none
take_over m a db (some none) = ignored m "owner_message_not_task_intervention" a.clock db
take_over m a db (some (some t)) =
    on_task t (close_task_for_owner_takeover_and_audit t m a.clock db)

-- _route_owner_message
unfoldable pub route_owner_message : NormalizedMessage → Arrival → TaskDb → Routed
route_owner_message m a db = take_over m a db (owner_takeover_task db m a.now)

-- a message that no sent action refers to
unfoldable pub route_other : Router → NormalizedMessage → Arrival → TaskDb → Routed
unfolding route_owner_message route_candidates
route_other r m a db =
    if is_self_message m.sender_role
    then ignored m "self_message" a.clock db
    else if is_owner_message m.sender_role
    then route_owner_message m a db
    else if m.at_all
    then ignored m "at_all_suppressed" a.clock db
    else if a.source == "group_at_me" && not m.direct_mention
    then ignored m "non_direct_mention" a.clock db
    else route_candidates r m a (collect db m a.now) db

abbrev pub of_sent_action :
    Router → NormalizedMessage → Arrival → TaskDb → Option TaskRecord → Routed
of_sent_action r m a db none = route_other r m a db
of_sent_action r m a db (some t) =
    on_task t (record_agent_message_for_task_and_audit r.texts t m a.watch_until a.clock db)

-- from the readback of a sent action on
unfoldable pub route_fresh : Router → NormalizedMessage → Arrival → TaskDb → Routed
unfolding route_other
route_fresh r m a db =
    of_sent_action r m a db (find_task_for_sent_action_message r.texts db m.message_id)

abbrev pub of_revision :
    Router → NormalizedMessage → Arrival → TaskDb → Option (Option TaskRecord) → Routed
of_revision r m a db none = none
of_revision r m a db (some none) = route_fresh r m a db
of_revision r m a db (some (some t)) = on_task t (
    attach_message_to_task_and_audit r.texts t m a.watch_until 1 "source_revision" "source_revision"
      a.clock db)

abbrev pub is_routed_again : NormalizedMessage → Arrival → TaskDb → Bool
is_routed_again m a db =
    not a.inserted
    && (not a.revision_changed && message_has_routing_audit db m.message_id m.revision)

-- MessageRouter.route
unfoldable pub route : Router → NormalizedMessage → Arrival → TaskDb → Routed
unfolding route_again route_fresh
route r m a db =
    if is_routed_again m a db
    then route_again m a db
    else of_revision r m a db
        (if a.revision_changed then existing_active_task db m a.now else some none)
