-- ===== src/Ingestion.antt =====
-- ingestion.py: IngestionService._process_raw_message, from the normalised message on: the snapshot is
-- stored, an older one is checked with the client, side effects of older revisions are fenced, and what
-- is left is routed. What the client reads, the commands of the owner's inbox, the notice of a reply to
-- a recalled message, and the downloads and task sessions behind a route are parameters.
pub mod Quiet
use feishu_shadow_agent.Prelude.{
  ℕ, ◌+◌, ◌*◌, String, Bool, true, false, not, ◌&&◌, ◌||◌, Option, none, some, List, [], ◌∷◌, ◌==◌,
  any, if◌then◌else◌, is_some, string_eq, nat_eq, ltb,
}
use feishu_shadow_agent.Types.{
  instant, ignore, NormalizedMessage, RouteDecision, is_self_message, is_owner_message,
  ActionRecord, is_send_reply, is_sent, is_sending, is_failed_needs_review,
}
use feishu_shadow_agent.Eligibility.{
  Reason, not_acquired, self_message, at_all_suppressed, p2p_message, active_watch_message,
  owner_intervention, direct_owner_mention, non_direct_mention, MessageEligibility, Verdict, decide,
}
use feishu_shadow_agent.Store.{Db}
use feishu_shadow_agent.Store.Index.{equals_text}
use feishu_shadow_agent.Store.Fence.{invalidate_stale_revision_side_effects}
use feishu_shadow_agent.Store.Messages.{MessageUpsertResult, upsert_message_revision}
use feishu_shadow_agent.Tasks.{TaskDb, find_task_for_sent_action_message}
use feishu_shadow_agent.Tasks.Audits.{record_routing_audit}
use feishu_shadow_agent.Routing.{Router, Arrival, RoutingResult, Routed, decided}
use feishu_shadow_agent.Routing.Route.{route}

-- What the client reads under the message's id, normalised: an exception, nothing, or a snapshot.
pub data Refetched : Type 0 where
  refetch_failed refetch_missing : Refetched
  refetched : NormalizedMessage → Refetched

pub record Ingestion : Type 0 where
  pub router : Router
  pub semantic_hash : NormalizedMessage → String
  pub get_messages : String → Refetched
  pub enforce_eligibility : Bool
  pub apply_command : NormalizedMessage → TaskDb → TaskDb
  pub notify_hanging_reply : NormalizedMessage → TaskDb → TaskDb
  -- the downloads and the task processor, if there is one
  pub process : NormalizedMessage → RoutingResult → TaskDb → TaskDb
  pub has_task_processor : Bool
  pub watch_minutes : ℕ
  pub agent_working_dir : Option String
  pub now : ℕ

-- How the handling of a message ends: with an exception, or with a result (`none` for a command).
pub data Ended : Type 0 where
  failed : Ended
  finished : Option RoutingResult → Ended

abbrev pub reason_text : Reason → String
reason_text not_acquired = "not_acquired"
reason_text self_message = "self_message"
reason_text at_all_suppressed = "at_all_suppressed"
reason_text p2p_message = "p2p_message"
reason_text active_watch_message = "active_watch_message"
reason_text owner_intervention = "owner_intervention"
reason_text direct_owner_mention = "direct_owner_mention"
reason_text non_direct_mention = "non_direct_mention"

abbrev in_store : (Db → Db) → TaskDb → TaskDb
in_store f db = record db { store = f db.store }

-- invalidate_stale_revision_side_effects, in the store's transaction
unfoldable pub fence : NormalizedMessage → String → ℕ → TaskDb → TaskDb
fence m reason now db =
    in_store (λ s. (invalidate_stale_revision_side_effects s m.message_id m.revision reason now).1)
      db

abbrev pub ignore_as : String → RoutingResult
ignore_as reason = record { decision = decided ignore reason 0; task = none }

-- status IN ('sent', 'sending', 'failed_needs_review') AND source_revision < ?
abbrev replies_before : NormalizedMessage → Option ℕ → ActionRecord → Bool
replies_before m none r = false
replies_before m (some revision) r =
    is_send_reply r.kind
    && ((is_sent r.status || (is_sending r.status || is_failed_needs_review r.status))
        && (equals_text r.source_message_id (some m.message_id) && ltb revision m.revision))

-- get_latest_sent_reply_for_source is not None
unfoldable pub has_hanging_reply : NormalizedMessage → TaskDb → Bool
has_hanging_reply m db =
    any (λ (r : ActionRecord). replies_before m r.source_revision r) db.store.actions

abbrev pub arrival_of : Ingestion → String → MessageUpsertResult → Bool → Arrival
arrival_of e source u retry = record {
  source = source;
  inserted = u.inserted;
  revision_changed = u.changed;
  now = e.now;
  watch_until = instant (e.now + e.watch_minutes * 60000000);
  retry_incomplete_processing = retry;
  agent_working_dir = e.agent_working_dir;
  clock = e.now;
}

-- after `route`: an exception leaves the tables as they were, else `f` goes on
abbrev routed : (RoutingResult → TaskDb → TaskDb) → TaskDb → Routed → Ended × TaskDb
routed f db none = (failed, db)
routed f db (some (res, db')) = (finished (some res), f res db')

-- the router, and what follows its answer
unfoldable pub route_and_process :
    Ingestion → NormalizedMessage → String → MessageUpsertResult → TaskDb → Ended × TaskDb
route_and_process e m source u db =
    routed (e.process m) db (route e.router m (arrival_of e source u e.has_task_processor) db)

-- an ineligible message goes on only for the sake of a reply to an older revision of it
abbrev drop_or_route :
    Ingestion
    → NormalizedMessage
    → String
    → MessageUpsertResult
    → TaskDb
    → MessageEligibility
    → Ended × TaskDb
drop_or_route e m source u db verdict =
    if not verdict.eligible && not (u.changed && (ltb 1 m.revision && has_hanging_reply m db))
    then (
      finished (some (ignore_as (reason_text verdict.reason_code))),
      record_routing_audit m.message_id m.revision
          (decided ignore (reason_text verdict.reason_code) 0) e.now db,
    )
    else route_and_process e m source u db

abbrev judged :
    Ingestion → NormalizedMessage → String → MessageUpsertResult → TaskDb → Verdict → Ended × TaskDb
judged e m source u db (Verdict.raised fault) = (failed, db)
judged e m source u db (Verdict.decided verdict) = drop_or_route e m source u db verdict

unfoldable pub check_eligibility :
    Ingestion → NormalizedMessage → String → MessageUpsertResult → TaskDb → Ended × TaskDb
unfolding route_and_process
check_eligibility e m source u db =
    if e.enforce_eligibility
    then judged e m source u db (decide m (source ∷ []))
    else route_and_process e m source u db

-- a message of the agent itself that a sent action refers to is only read back
unfoldable pub ingest_current :
    Ingestion → NormalizedMessage → String → MessageUpsertResult → TaskDb → Ended × TaskDb
unfolding check_eligibility
ingest_current e m source u db =
    if is_self_message m.sender_role
      && is_some (find_task_for_sent_action_message e.router.texts db m.message_id)
    then routed (λ res db. db) db (route e.router m (arrival_of e source u false) db)
    else check_eligibility e m source u db

-- a recalled message
unfoldable pub ingest_tombstone :
    Ingestion → NormalizedMessage → MessageUpsertResult → TaskDb → Ended × TaskDb
unfolding fence
ingest_tombstone e m u db = (
  finished (some (ignore_as "message_tombstone")),
  if u.changed
      then e.notify_hanging_reply m (
          record_routing_audit m.message_id m.revision (decided ignore "message_tombstone" 0) e.now
            (fence m "source_message_deleted" e.now db))
      else db,
)

abbrev fenced : Ingestion → NormalizedMessage → MessageUpsertResult → TaskDb → TaskDb
fenced e m u db = if u.changed && ltb 1 m.revision then fence m "stale_revision" e.now db else db

-- from the stored snapshot on: the message has the revision of its row
unfoldable pub ingest_stored :
    Ingestion → NormalizedMessage → String → MessageUpsertResult → TaskDb → Ended × TaskDb
unfolding ingest_tombstone ingest_current
ingest_stored e polled source u db =
    let m = record polled { revision = u.revision; is_deleted = u.is_deleted } in
    if m.is_deleted
    then ingest_tombstone e m u db
    else if source == "approval_inbox"
    then (finished none, if is_owner_message m.sender_role then e.apply_command m db else db)
    else ingest_current e m source u (fenced e m u db)

abbrev confirm :
    Ingestion
    → String
    → MessageUpsertResult
    → TaskDb
    → NormalizedMessage
    → Refetched
    → Ended × TaskDb
confirm e source u db m refetch_failed = (failed, db)
confirm e source u db m refetch_missing = (failed, db)
confirm e source u db m (refetched current) =
    let (u', s) = upsert_message_revision e.semantic_hash current true db.store in
    ingest_stored e current source u' (record db { store = s })

abbrev pub after_upsert :
    Ingestion → NormalizedMessage → String → MessageUpsertResult × Db → TaskDb → Ended × TaskDb
after_upsert e m source (u, s) db =
    if u.requires_confirmation
    then confirm e source u (record db { store = s }) m (e.get_messages m.message_id)
    else ingest_stored e m source u (record db { store = s })

-- _process_raw_message
unfoldable pub process_message : Ingestion → NormalizedMessage → String → TaskDb → Ended × TaskDb
unfolding ingest_stored
process_message e m source db =
    after_upsert e m source (upsert_message_revision e.semantic_hash m false db.store) db
