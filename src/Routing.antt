-- ===== src/Routing.antt =====
-- routing.py: to which task a message belongs. MessageRouter.route answers with a decision and, where
-- there is one, the task; it writes an audit with everything it decides. `none` is an exception, out
-- of which nothing is written.
pub mod Candidates
pub mod Route
pub mod Cases
pub mod Laws
pub mod Again
pub mod Chosen
pub mod Safety
use feishu_shadow_agent.Prelude.{
  ℕ, ◌-◌, ◌*◌, String, Bool, true, false, not, ◌&&◌, ◌||◌, Option, none, some, List, [], ◌∷◌, ◌==◌,
  any, if◌then◌else◌, nat_eq, string_eq, leb, ltb,
}
use feishu_shadow_agent.Types.{
  Stamp, instant, unreadable, TaskRecord, RouteDecision, RouteName, ignore, ambiguous, new_task,
  attach_task, reopen_task, MessageProcessingStage, task_session, task_router, NormalizedMessage,
  is_active_task_status,
}
use feishu_shadow_agent.Tasks.{TaskDb, Texts}
use feishu_shadow_agent.Tasks.Audits.{record_routing_audit}

pub record Router : Type 0 where
  pub texts : Texts
  pub closed_recall_days : ℕ
  pub burst_attach_seconds : ℕ

-- The arguments of `route` beside the message, and what the store's clock reads.
pub record Arrival : Type 0 where
  pub source : String
  pub inserted : Bool
  pub revision_changed : Bool
  pub now : ℕ
  pub watch_until : Stamp
  pub retry_incomplete_processing : Bool
  pub agent_working_dir : Option String
  pub clock : ℕ

pub record RoutingResult : Type 0 where
  pub decision : RouteDecision
  pub task : Option TaskRecord

abbrev pub Routed : Type 0
Routed = Option (RoutingResult × TaskDb)

-- source in TRIGGER_SOURCES
abbrev pub is_trigger : String → Bool
is_trigger source = source == "group_at_me" || source == "p2p"

-- route in TASK_SESSION_ROUTES
abbrev pub is_session_route : RouteName → Bool
is_session_route new_task = true
is_session_route attach_task = true
is_session_route reopen_task = true
is_session_route _ = false

abbrev pub is_ambiguous : RouteName → Bool
is_ambiguous ambiguous = true
is_ambiguous _ = false

-- reason in ROUTER_PLACEHOLDER_REASONS
abbrev pub is_placeholder : String → Bool
is_placeholder reason =
    reason == "router_placeholder" || reason == "closed_recall_router_placeholder"

-- _processing_stage_for_decision
unfoldable pub processing_stage_for_decision : RouteDecision → Option MessageProcessingStage
processing_stage_for_decision d =
    if is_session_route d.route
    then some task_session
    else if is_ambiguous d.route && is_placeholder d.reason
    then some task_router
    else none

abbrev pub after_now : Option Stamp → ℕ → Option Bool
after_now none now = some true
after_now (some (instant t)) now = some (ltb now t)
after_now (some unreadable) now = none

-- _is_active; parse_instant raises on text that is no timestamp, unless the task is closed anyway
unfoldable pub is_active : TaskRecord → ℕ → Option Bool
is_active t now = if is_active_task_status t.status then after_now t.watch_until now else some false

abbrev pub keep_if : Option Bool → TaskRecord → Option (List TaskRecord) → Option (List TaskRecord)
keep_if none t rest = none
keep_if (some b) t none = none
keep_if (some true) t (some ts) = some (t ∷ ts)
keep_if (some false) t (some ts) = some ts

-- [task for task in tasks if _is_active(task, now=now)]
unfoldable pub active_tasks : List TaskRecord → ℕ → Option (List TaskRecord)
unfolding is_active
active_tasks [] now = some []
active_tasks (t ∷ ts) now = let rest = active_tasks ts now in keep_if (is_active t now) t rest

abbrev pub decided : RouteName → String → ℕ → RouteDecision
decided route reason candidates_count = record {
  route = route;
  target_task_id = none;
  reason = reason;
  candidates_count = candidates_count;
  shortcut_hit = false;
  router_called = false;
  matched_by = none;
}

-- _audit
unfoldable pub audit : NormalizedMessage → RouteDecision → ℕ → TaskDb → Routed
unfolding record_routing_audit
audit m d clock db =
    some (
      record { decision = d; task = none },
      record_routing_audit m.message_id m.revision d clock db,
    )

abbrev pub ignored : NormalizedMessage → String → ℕ → TaskDb → Routed
ignored m reason clock db = audit m (decided ignore reason 0) clock db

-- the store's answer, with the task that it is about
abbrev pub on_task : TaskRecord → RouteDecision × TaskDb → Routed
on_task t (d, db) = some (record { decision = d; task = some t }, db)
