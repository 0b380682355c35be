-- ===== src/Tests/Routing.antt =====
-- One message that is polled, routed and routed again.
use feishu_shadow_agent.Tasks.Related.{get_related_closed_tasks}
use feishu_shadow_agent.Prelude.{
  sort_by, update_where, length, any, sym, String, Bool, true, false, none, some, List, [], ◌∷◌,
  ◌≡◌, refl, ◌==◌, string_eq,
}
use feishu_shadow_agent.Json.{get}
use feishu_shadow_agent.Types.{
  instant, group, watching, human_taken_over, TaskRecord, NormalizedMessage, RouteDecision,
  ActionStatus, task_session, MessageProcessingStatus, RouteName,
}
use feishu_shadow_agent.Store.{find_message, Db}
use feishu_shadow_agent.Store.Messages.{inserted_row, upsert_message_revision}
use feishu_shadow_agent.Store.Messages.Accept.{accept, log}
use feishu_shadow_agent.Store.Messages.Replay.{Poll, replay, run_polls, run_polls-refines}
use feishu_shadow_agent.Store.Messages.Safety.{distinct, recall_is_final, revisions_count_snapshots}
use feishu_shadow_agent.Tasks.Audits.{record_routing_audit}
use feishu_shadow_agent.Tasks.Takeover.{
  close_task_for_owner_takeover, reply_in_progress, pending_approval_of,
}
use feishu_shadow_agent.Routing.Candidates.{
  collect, collect_in, add_candidates, deterministic_match, burst_attach_match,
}
use feishu_shadow_agent.Store.{find_message}
use feishu_shadow_agent.Tasks.{
  get_active_tasks_by_watch_key, get_active_tasks_for_chat, find_task_for_sent_action_message,
  msg_key, get_task_by_id, TaskDb, TaskRow, Texts,
}
use feishu_shadow_agent.Tasks.Markers.{
  message_processing_is_final, record_message_processing, Marker,
}
use feishu_shadow_agent.Tasks.Handover.{takeover_leaves_nothing}
use feishu_shadow_agent.Tasks.Create.{
  new_row, create_task_for_message_and_audit, insert_task, unique_short_id,
}
use feishu_shadow_agent.Routing.{processing_stage_for_decision, ignored, Router, Arrival}
use feishu_shadow_agent.Routing.Route.{
  route_unmatched, route_candidates, marker_key, route_other, route_fresh, stage_is_open, route,
}
use feishu_shadow_agent.Routing.Laws.{SparesActions, route-Audited, route-SparesActions, Audited}
use feishu_shadow_agent.Routing.Again.{broken_off_is_resumed, marked_is_done}
use feishu_shadow_agent.Routing.Safety.{Careful, route-Careful}
use feishu_shadow_agent.Tests.Data.{store, message}

abbrev empty_store : Db
empty_store = record {
  actions = [];
  attempts = [];
  messages = [];
  task_messages = [];
  approvals = [];
  next_action_id = 1;
  next_attempt_id = 1;
}

abbrev pub edited : NormalizedMessage
edited = record message { text = "Is it done today?" }

abbrev recalled : NormalizedMessage
recalled = record message { is_deleted = true }

abbrev name_of : Bool → Bool → String
name_of true first = "hash-3"
name_of false true = "hash-1"
name_of false false = "hash-2"

-- a digest that tells the three snapshots apart
abbrev pub digest : NormalizedMessage → String
digest m = name_of m.is_deleted (m.text == "Is it done?")

named-nonempty : (gone first : Bool) → (name_of gone first == "") ≡ false
named-nonempty true first = refl
named-nonempty false true = refl
named-nonempty false false = refl

digest-nonempty : (m : NormalizedMessage) → (digest m == "") ≡ false
digest-nonempty m = named-nonempty m.is_deleted (m.text == "Is it done?")

abbrev poll : NormalizedMessage → Poll
poll m = record { message = m; confirmed = false }

abbrev polls : List Poll
polls = poll message ∷ poll edited ∷ poll message ∷ []

-- the edit is the second revision, and the older snapshot after it changes nothing
run_polls-refines_example :
    log "om_source" (run_polls digest polls empty_store)
    ≡ some (record {
      revision = 2;
      is_deleted = false;
      current = "hash-2";
      accepted = "hash-1" ∷ "hash-2" ∷ [];
    })
unfolding log replay accept
run_polls-refines_example =
    run_polls-refines digest "om_source" polls empty_store digest-nonempty tt

-- after a recall, neither snapshot is taken
recall_is_final_example :
    (find_message "om_source" (run_polls digest (poll recalled ∷ []) empty_store).messages)
    ≡ find_message "om_source"
        (run_polls digest polls (run_polls digest (poll recalled ∷ []) empty_store)).messages
unfolding run_polls upsert_message_revision
recall_is_final_example = sym (
    recall_is_final digest "om_source" polls (run_polls digest (poll recalled ∷ []) empty_store)
      (inserted_row 1 recalled "hash-3") refl refl)

abbrev two : List String
two = "hash-1" ∷ "hash-2" ∷ []

revisions_count_snapshots_example : (2 ≡ length two) × (distinct two ≡ true)
unfolding log run_polls upsert_message_revision update_where
revisions_count_snapshots_example =
    revisions_count_snapshots digest "om_source" polls empty_store
      (record {
        revision = 2;
        is_deleted = false;
        current = "hash-2";
        accepted = "hash-1" ∷ "hash-2" ∷ [];
      })
      digest-nonempty refl refl refl

abbrev texts : Texts
texts = record {
  short_id_base = λ s. "t_0a1b2c3d";
  numbered = λ base n. "t_0a1b2c3d_2";
  truncate = λ s. s;
  clean_label = λ s. s;
  closed_recall_text_patterns = λ s. [];
  like = λ p s. false;
  result_like = λ m d. true;
}

abbrev pub router : Router
router = record { texts = texts; closed_recall_days = 7; burst_attach_seconds = 60 }

abbrev arrival : Arrival
arrival = record {
  source = "group_at_me";
  inserted = true;
  revision_changed = false;
  now = 100;
  watch_until = instant 1000;
  retry_incomplete_processing = true;
  agent_working_dir = none;
  clock = 101;
}

-- the same message in the next poll
abbrev repeat : Bool → Arrival
repeat retry = record arrival { inserted = false; retry_incomplete_processing = retry; clock = 201 }

abbrev pub watched : TaskRow
watched = record {
  task = record {
    id = 3;
    short_id = "t_0a1b2c3d";
    status = watching;
    chat_id = some "oc_chat";
    chat_type = some group;
    thread_id = none;
    root_message_id = some "om_root";
    task_label = "Is it done?";
    watch_until = some (instant 500);
    agent_working_dir = none;
  };
  last_user_message = some "Is it done?";
  last_agent_reply = none;
  created_at = 1;
  updated_at = 1;
  closed_at = none;
}

abbrev pub tables : List TaskRow → TaskDb
tables rows = record {
  store = store ActionStatus.pending [];
  tasks = rows;
  watch_keys = [];
  audits = [];
  processing = [];
  next_task_id = 4;
  next_audit_id = 1;
}

-- a reply to the message that the task watches
abbrev answer : NormalizedMessage
answer = record message { message_id = "om_answer"; reply_to_message_id = some "om_root" }

abbrev replied : TaskDb
replied = record (tables (watched ∷ [])) {
  watch_keys = record { task_id = 3; key = msg_key "om_root" } ∷ [];
}

route-Audited_example :
    Audited message arrival (tables []) (route router message arrival (tables []))
route-Audited_example = route-Audited router message arrival (tables [])

route-SparesActions_example : SparesActions answer replied (route router answer arrival replied)
route-SparesActions_example = route-SparesActions router answer arrival replied

route-Careful_example : Careful router answer arrival replied (route router answer arrival replied)
route-Careful_example = route-Careful router answer arrival replied

-- the decision about a new message, and the tables after it
abbrev decision : RouteDecision
decision = record {
  route = RouteName.new_task;
  target_task_id = some 4;
  reason = "new_trigger";
  candidates_count = 0;
  shortcut_hit = false;
  router_called = false;
  matched_by = some "new_trigger";
}

abbrev task : TaskRecord
task = record watched.task {
  id = 4;
  root_message_id = some "om_source";
  watch_until = some (instant 1000);
}

abbrev routed_db : TaskDb
routed_db =
    record_routing_audit "om_source" 1 decision 101 (
      insert_task (new_row texts 4 "t_0a1b2c3d" message (instant 1000) none 101) message
        (tables []))

first_route :
    route router message arrival (tables [])
    ≡ some (record { decision = decision; task = some task }, routed_db)
unfolding route route_fresh route_other route_candidates route_unmatched collect collect_in
    add_candidates deterministic_match burst_attach_match create_task_for_message_and_audit
    find_task_for_sent_action_message get get_active_tasks_for_chat sort_by
    get_active_tasks_by_watch_key get_related_closed_tasks unique_short_id
first_route = refl

broken_off_is_resumed_example :
    route router message (repeat true) routed_db
    ≡ some (record { decision = decision; task = some task }, routed_db)
unfolding stage_is_open get_task_by_id insert_task record_routing_audit
    processing_stage_for_decision message_processing_is_final
broken_off_is_resumed_example =
    broken_off_is_resumed router message arrival (repeat true) (tables []) routed_db
      (record { decision = decision; task = some task }) task_session first_route refl (refl, refl)
      refl refl refl refl

abbrev mark : Marker
mark = record {
  task_id = some 4;
  status = MessageProcessingStatus.processed;
  attempt_count = 1;
  last_error = none;
  terminal_reason = none;
}

marked_is_done_example :
    let done = record_message_processing routed_db (marker_key message task_session) mark 150 in
    route router message (repeat true) done ≡ ignored message "duplicate_message" 201 done
unfolding processing_stage_for_decision
marked_is_done_example =
    marked_is_done router message arrival (repeat true) (tables []) routed_db
      (record { decision = decision; task = some task }) task_session mark 150 first_route refl
      (refl, refl) refl

takeover_leaves_nothing_example :
    let db' = close_task_for_owner_takeover 3 200 (tables (watched ∷ [])) in
    (any (reply_in_progress 3) db'.store.actions ≡ false)
    × ((any (pending_approval_of 3) db'.store.approvals ≡ false)
        × (get_task_by_id db' 3 ≡ some (record watched.task { status = human_taken_over })))
takeover_leaves_nothing_example = takeover_leaves_nothing 3 200 (tables (watched ∷ [])) watched refl
