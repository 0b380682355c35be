-- ===== src/Tasks/Retries.antt =====
-- store/sqlite_store.py: the queue of retries that the owner asks for when the processing of a message
-- failed for good or waits for something outside. A claim's token is drawn by the caller (uuid4); the
-- stored texts are those that _truncate made.
pub mod Single
use feishu_shadow_agent.Prelude.{
  ℕ, suc, String, Bool, true, false, not, ◌&&◌, ◌||◌, Option, none, some, List, [], ◌∷◌, ◌++◌, ◌==◌,
  any, find?, filter, sort_by, update_where, if◌then◌else◌, nat_eq, string_eq, option_eq, is_some,
  ltb, leb,
}
use feishu_shadow_agent.Json.{Json, str, int, Fields, get_or_null}
use feishu_shadow_agent.Types.{
  MessageProcessingStage, task_router, task_session, resource_download, MessageProcessingStatus,
  processed, processing_failed_terminal, blocked_waiting_external, TaskStatus,
  is_active_task_status, ActionRecord, ActionStatus, is_send_reply, is_sent, is_pending,
}
use feishu_shadow_agent.Store.{Db, MessageRow, find_message}
use feishu_shadow_agent.Store.Dispatch.{set_status}
use feishu_shadow_agent.Store.Index.{equals_text, equals_nat}
use feishu_shadow_agent.Tasks.{TaskDb, TaskRow, ProcessingRow, has_id}
use feishu_shadow_agent.Tasks.Markers.{same_stage}

pub data RetryStatus : Type 0 where
  queued claimed succeeded failed cancelled : RetryStatus

-- A row of `processing_retry_attempts`.
pub record RetryRow : Type 0 where
  pub id : ℕ
  pub message_id : String
  pub revision : ℕ
  pub task_id : Option ℕ
  pub stage : MessageProcessingStage
  pub source_status : MessageProcessingStatus
  pub status : RetryStatus
  pub claim_token : Option String
  pub actor : String
  pub reason : Option String
  pub error : Option String
  pub created_at : ℕ
  pub claimed_at : Option ℕ
  pub finished_at : Option ℕ

pub record RetryDb : Type 0 where
  pub tables : TaskDb
  pub retries : List RetryRow
  pub next_retry_id : ℕ

-- The ValueErrors of a request.
pub data RetryError : Type 0 where
  stage_not_found status_not_retryable stale_revision task_not_watching : RetryError
  reply_was_sent already_in_flight : RetryError

-- The answer: an error, the attempt that waits already, or a new one.
pub data Requested : Type 0 where
  refused : RetryError → Requested
  waiting added : RetryRow → Requested

abbrev pub is_queued : RetryStatus → Bool
is_queued queued = true
is_queued _ = false

abbrev pub is_claimed : RetryStatus → Bool
is_claimed claimed = true
is_claimed _ = false

-- status IN ('queued', 'claimed')
abbrev pub is_open : RetryRow → Bool
is_open r = is_queued r.status || is_claimed r.status

-- the key of idx_processing_retry_active
abbrev pub same_retry : String → ℕ → MessageProcessingStage → RetryRow → Bool
same_retry m revision stage r =
    r.message_id == m && (r.revision == revision && same_stage r.stage stage)

abbrev marks : String → MessageProcessingStage → ProcessingRow → Bool
marks m stage p = p.message_id == m && same_stage p.stage stage

abbrev newer : ProcessingRow → ProcessingRow → Bool
newer a b = leb b.revision a.revision

abbrev first {ℓ} : {A : Type ℓ} → List A → Option A
first [] = none
first (x ∷ xs) = some x

-- the marker of the latest revision
unfoldable pub latest_marker :
    String → MessageProcessingStage → List ProcessingRow → Option ProcessingRow
latest_marker m stage rows = first (sort_by newer (filter (marks m stage) rows))

abbrev pub is_retryable : MessageProcessingStatus → Bool
is_retryable processing_failed_terminal = true
is_retryable blocked_waiting_external = true
is_retryable _ = false

abbrev status_is_watching : Option TaskRow → Bool
status_is_watching none = false
status_is_watching (some r) = is_active_task_status r.task.status

-- task_id is not None and task_status != 'watching'
abbrev pub task_is_gone : TaskDb → Option ℕ → Bool
task_is_gone db none = false
task_is_gone db (some i) = not (status_is_watching (find? (has_id i) db.tasks))

abbrev pub sent_for : String → ℕ → ActionRecord → Bool
sent_for m revision a =
    is_send_reply a.kind
    && (is_sent a.status
        && (equals_text a.source_message_id (some m)
            && equals_nat a.source_revision (some revision)))

-- What a request says.
pub record RetryRequest : Type 0 where
  pub message_id : String
  pub stage : MessageProcessingStage
  pub actor : String
  pub reason : Option String

abbrev pub new_retry : ℕ → RetryRequest → ProcessingRow → ℕ → RetryRow
new_retry id q p now = record {
  id = id;
  message_id = q.message_id;
  revision = p.revision;
  task_id = p.task_id;
  stage = q.stage;
  source_status = p.status;
  status = queued;
  claim_token = none;
  actor = q.actor;
  reason = q.reason;
  error = none;
  created_at = now;
  claimed_at = none;
  finished_at = none;
}

-- ORDER BY id DESC
abbrev pub later_retry : RetryRow → RetryRow → Bool
later_retry a b = leb b.id a.id

-- the attempt for this key that is queued or claimed
unfoldable pub open_retry : String → ℕ → MessageProcessingStage → List RetryRow → Option RetryRow
open_retry m revision stage rows =
    find? (λ (r : RetryRow). same_retry m revision stage r && is_open r) (sort_by later_retry rows)

abbrev pub enqueue :
    RetryRequest → ProcessingRow → ℕ → RetryDb → Option RetryRow → Requested × RetryDb
enqueue q p now db (some r) =
    (if is_claimed r.status then refused already_in_flight else waiting r, db)
enqueue q p now db none =
    let r = new_retry db.next_retry_id q p now in
    (added r, record db { retries = db.retries ++ r ∷ []; next_retry_id = suc db.next_retry_id })

abbrev pub checked : RetryRequest → ProcessingRow → MessageRow → ℕ → RetryDb → Requested × RetryDb
checked q p m now db =
    if not (is_retryable p.status)
    then (refused status_not_retryable, db)
    else if m.is_deleted || not (m.revision == p.revision)
    then (refused stale_revision, db)
    else if task_is_gone db.tables p.task_id
    then (refused task_not_watching, db)
    else if any (sent_for q.message_id p.revision) db.tables.store.actions
    then (refused reply_was_sent, db)
    else enqueue q p now db (open_retry q.message_id p.revision q.stage db.retries)

abbrev pub joined_message :
    RetryRequest → ℕ → RetryDb → Option ProcessingRow → Option MessageRow → Requested × RetryDb
joined_message q now db (some p) (some m) = checked q p m now db
joined_message q now db _ _ = (refused stage_not_found, db)

-- request_processing_retry
unfoldable pub request_processing_retry : RetryRequest → ℕ → RetryDb → Requested × RetryDb
unfolding open_retry
request_processing_retry q now db =
    joined_message q now db (latest_marker q.message_id q.stage db.tables.processing)
      (find_message q.message_id db.tables.store.messages)

-- ORDER BY created_at, id
abbrev older_retry : RetryRow → RetryRow → Bool
older_retry a b = ltb a.created_at b.created_at || (a.created_at == b.created_at && leb a.id b.id)

abbrev pub queued_at : ℕ → RetryRow → Bool
queued_at i r = r.id == i && is_queued r.status

abbrev pub claim_row : String → ℕ → RetryRow → RetryRow
claim_row token now r = record r {
  status = claimed;
  claim_token = some token;
  claimed_at = some now;
}

abbrev pub claim_candidate : String → ℕ → RetryDb → Option RetryRow → RetryDb
claim_candidate token now db none = db
claim_candidate token now db (some r) = record db {
  retries = update_where (queued_at r.id) (claim_row token now) db.retries;
}

-- claim_next_processing_retry: the claimed row's id, with the tables
unfoldable pub claim_next_processing_retry : String → ℕ → RetryDb → Option ℕ × RetryDb
claim_next_processing_retry token now db =
    let candidate =
      first (sort_by older_retry (filter (λ (r : RetryRow). is_queued r.status) db.retries)) in
    (elim candidate [ none ↦ none | some r ↦ some r.id ], claim_candidate token now db candidate)

-- The statuses that an end may have.
pub data RetryEnd : Type 0 where
  succeed fail give_up : RetryEnd

abbrev pub end_status : RetryEnd → RetryStatus
end_status succeed = succeeded
end_status fail = failed
end_status give_up = cancelled

abbrev is_success : RetryEnd → Bool
is_success succeed = true
is_success _ = false

abbrev pub claimed_by : ℕ → String → RetryRow → Bool
claimed_by i token r = r.id == i && (is_claimed r.status && equals_text r.claim_token (some token))

abbrev pub end_row : RetryEnd → Option String → ℕ → RetryRow → RetryRow
end_row e error now r = record r { status = end_status e; error = error; finished_at = some now }

abbrev stage_text : MessageProcessingStage → String
stage_text task_router = "task_router"
stage_text task_session = "task_session"
stage_text resource_download = "resource_download"

-- json_extract(payload_json, ...) = ?
abbrev holds_text : Json → String → Bool
holds_text (str s) t = s == t
holds_text _ t = false

abbrev holds_number : Json → ℕ → Bool
holds_number (int n) k = n == k
holds_number _ k = false

-- the notice of the failure that this retry was about
abbrev pub notice_of : RetryRow → ActionRecord → Bool
notice_of r a =
    not (is_send_reply a.kind)
    && (is_pending a.status
        && ((not (is_some r.task_id) || equals_nat a.task_id r.task_id)
            && (holds_text (get_or_null "source_message_id" a.payload) r.message_id
                && (holds_number (get_or_null "source_revision" a.payload) r.revision
                    && holds_text (get_or_null "stage" a.payload) (stage_text r.stage)))))

abbrev withdraw : ℕ → RetryRow → TaskDb → TaskDb
withdraw now r db = record db {
  store = record db.store {
    actions = update_where (notice_of r) (set_status ActionStatus.cancelled now) db.store.actions;
  };
}

abbrev withdraw_found : RetryEnd → ℕ → Option RetryRow → TaskDb → TaskDb
withdraw_found e now none db = db
withdraw_found e now (some r) db = if is_success e then withdraw now r db else db

-- finish_processing_retry: whether a row was ended
unfoldable pub finish_processing_retry :
    ℕ → String → RetryEnd → Option String → ℕ → RetryDb → Bool × RetryDb
finish_processing_retry i token e error now db =
    if any (claimed_by i token) db.retries
    then (
      true,
      record db {
        retries = update_where (claimed_by i token) (end_row e error now) db.retries;
        tables = withdraw_found e now (find? (λ (r : RetryRow). r.id == i) db.retries) db.tables;
      },
    )
    else (false, db)
