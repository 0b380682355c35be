-- ===== src/Store/Operator.antt =====
-- store/sqlite_store.py: what the owner may do with one action by hand: retry it, cancel it, or
-- record that it was sent, with the readback as evidence.
use feishu_shadow_agent.Prelude.{
  ℕ, suc, String, Bool, false, not, ◌||◌, Option, none, some, List, [], ◌∷◌, ◌++◌, ◌==◌,
  if◌then◌else◌, nat_eq, string_eq, is_some, update_where,
}
use feishu_shadow_agent.Json.{Json, bool, int, str, obj, Fields, end, get, get_or_null, put}
use feishu_shadow_agent.Types.{
  ActionStatus, ActionRecord, DispatchAttemptStatus, DispatchErrorStage, DispatchAttemptRecord,
  is_failed, is_failed_needs_review, is_sent, is_cancelled, is_send_reply,
}
use feishu_shadow_agent.Store.{Db, find_action, latest_attempt, source_payload_is_stale}
use feishu_shadow_agent.Store.Dispatch.{set_status, start_attempt}
use feishu_shadow_agent.Store.Recovery.{is_true, attempt_at}
use feishu_shadow_agent.Store.Index.{ReplyKey, has_active_send_reply_action, violates_index}

pub data StoreError : Type 0 where
  action_not_found only_failed_actions stale_revision active_action_exists : StoreError
  sent_cannot_be_cancelled cancelled_cannot_be_sent sent_message_id_required : StoreError
  readback_required integrity_error : StoreError

-- The action as it stands afterwards, or the error that is raised; then nothing is written.
pub data Outcome (A : Type 0) : Type 0 where
  done : A → Db → Outcome A
  raised : StoreError → Outcome A

abbrev pub db_after : {A : Type 0} → Db → Outcome A → Db
db_after db (done a db') = db'
db_after db (raised e) = db

-- payload.setdefault(key, value)
abbrev set_default : String → Json → Fields → Fields
set_default k v d = if is_some (get k d) then d else put k v d

abbrev pub with_source : Option String → Option ℕ → Fields → Option Fields
with_source (some m) (some n) payload =
    some (set_default "source_revision" (int n) (set_default "source_message_id" (str m) payload))
with_source _ _ payload = none

-- the retry's test of its source: only a row that is bound to one is tested
abbrev pub stale_source : Db → Option Fields → Bool
stale_source db none = false
stale_source db (some payload) = source_payload_is_stale db payload

abbrev reply_key : ActionRecord → Option ℕ → Option String → Option ReplyKey
reply_key row (some task_id) (some target) = some (record {
  task_id = task_id;
  target_message_id = target;
  execution_mode = row.execution_mode;
  source_message_id = row.source_message_id;
  source_revision = row.source_revision;
})
reply_key row _ _ = none

abbrev pub reply_key_of : ActionRecord → Option ReplyKey
reply_key_of row =
    if is_send_reply row.kind then reply_key row row.task_id row.target_message_id else none

abbrev pub blocked : Option ReplyKey → ℕ → List ActionRecord → Bool
blocked none i rows = false
blocked (some k) i rows = has_active_send_reply_action k i rows

abbrev pub reset_pending : ℕ → ActionRecord → ActionRecord
reset_pending now r = record r { status = ActionStatus.pending; result = end; updated_at = now }

abbrev pub has_id : ℕ → ActionRecord → Bool
has_id i r = r.id == i

-- The written row that a statement returns.
abbrev pub returned : Db → ℕ → List ActionRecord → Option ActionRecord → Outcome ActionRecord
returned db i actions none = raised action_not_found
returned db i actions (some row) = done row (record db { actions = actions })

unfoldable pub retry_row : Db → ℕ → ℕ → ActionRecord → Outcome ActionRecord
retry_row db i now row =
    if not (is_failed row.status || is_failed_needs_review row.status)
    then raised only_failed_actions
    else if stale_source db (with_source row.source_message_id row.source_revision row.payload)
    then raised stale_revision
    else if blocked (reply_key_of row) i db.actions
    then raised active_action_exists
    else if violates_index (reset_pending now row) db.actions
    then raised integrity_error
    else let actions = update_where (has_id i) (reset_pending now) db.actions in
      returned db i actions (find_action i actions)

-- retry_dispatch_action
unfoldable pub retry_dispatch_action : Db → ℕ → ℕ → Outcome ActionRecord
unfolding retry_row
retry_dispatch_action db i now = elim (find_action i db.actions) [
  | none ↦ raised action_not_found
  | some row ↦ retry_row db i now row
]

unfoldable pub cancel_row : Db → ℕ → ℕ → ActionRecord → Outcome ActionRecord
cancel_row db i now row =
    if is_sent row.status
    then raised sent_cannot_be_cancelled
    else if is_cancelled row.status
    then done row db
    else let actions = update_where (has_id i) (set_status ActionStatus.cancelled now) db.actions in
      returned db i actions (find_action i actions)

-- cancel_dispatch_action
unfoldable pub cancel_dispatch_action : Db → ℕ → ℕ → Outcome ActionRecord
unfolding cancel_row
cancel_dispatch_action db i now = elim (find_action i db.actions) [
  | none ↦ raised action_not_found
  | some row ↦ cancel_row db i now row
]

abbrev pub evidence_ok : Json → Bool
evidence_ok (obj d) = is_true (get_or_null "ok" d)
evidence_ok _ = false

abbrev pub fields_in : Json → Fields
fields_in (obj d) = d
fields_in _ = end

-- the readback with the mark that its message was inserted, if the message is persisted
abbrev pub marked_inserted : Option Bool → Fields → Fields
marked_inserted none readback = readback
marked_inserted (some inserted) readback = put "inserted" (bool inserted) readback

abbrev pub verify_attempt : ℕ → Fields → String → DispatchAttemptRecord → DispatchAttemptRecord
verify_attempt now readback sent a = record a {
  status = DispatchAttemptStatus.readback_ok;
  readback_result = some readback;
  sent_message_id = some sent;
  error_stage = none;
  finished_at = some now;
}

abbrev pub verified_attempts :
    Db → ℕ → ℕ → Fields → String → Option DispatchAttemptRecord → List DispatchAttemptRecord
verified_attempts db i now readback sent none =
    db.attempts
    ++ record (verify_attempt now readback sent (start_attempt db.next_attempt_id i now)) {
      error_stage = some DispatchErrorStage.recovery;
    }
      ∷ []
verified_attempts db i now readback sent (some latest) =
    update_where (attempt_at latest.id) (verify_attempt now readback sent) db.attempts

abbrev pub next_after : ℕ → Option DispatchAttemptRecord → ℕ
next_after n none = suc n
next_after n (some latest) = n

abbrev pub set_sent : Fields → ℕ → ActionRecord → ActionRecord
set_sent result now r = record r { status = ActionStatus.sent; result = result; updated_at = now }

unfoldable pub mark_row :
    Db → ℕ → ℕ → String → Fields → Fields → ActionRecord → Outcome ActionRecord
mark_row db i now sent readback result row =
    if is_cancelled row.status
    then raised cancelled_cannot_be_sent
    else let latest = latest_attempt i db.attempts in
      let actions = update_where (has_id i) (set_sent result now) db.actions in
      returned
        (record db {
          attempts = verified_attempts db i now readback sent latest;
          next_attempt_id = next_after db.next_attempt_id latest;
        })
        i actions (find_action i actions)

-- mark_action_sent_after_evidence. `inserted` is what the message tables answered when the readback
-- message was given and persisted; those tables and the task's watch time are not written here.
unfoldable pub mark_action_sent_after_evidence :
    Db → ℕ → String → Fields → Option Bool → ℕ → Outcome ActionRecord
unfolding mark_row
mark_action_sent_after_evidence db i sent result inserted now =
    if sent == ""
    then raised sent_message_id_required
    else if not (evidence_ok (get_or_null "readback" result))
    then raised readback_required
    else elim (find_action i db.actions) [
      | none ↦ raised action_not_found
      | some row ↦
          let readback = marked_inserted inserted (fields_in (get_or_null "readback" result)) in
          mark_row db i now sent readback
            (put "readback" (obj readback) (put "sent_message_id" (str sent) result)) row
    ]
