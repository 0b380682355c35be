-- ===== src/Store.antt =====
-- store/sqlite_store.py: the tables that dispatch reads and writes, and the reads that its
-- operations share. A table is the list of its rows in the order of insertion; `id` is the primary
-- key, AUTOINCREMENT gives the next number, and a time is the clock's instant.
pub mod Dispatch
pub mod Recovery
pub mod Index
pub mod Operator
pub mod Create
pub mod Notify
pub mod Fence
pub mod Moves
pub mod Lifecycle
pub mod Claims
pub mod Messages
pub mod Stale
pub mod Queued
use Prim.Native.Char.{code}
use feishu_shadow_agent.Prelude.{
  ℕ, suc, ◌+◌, ◌-◌, ◌*◌, String, Bool, true, false, not, ◌&&◌, ◌||◌, Option, none, some, List, [],
  ◌∷◌, ◌==◌, leb, ltb, filter, find?, if◌then◌else◌, nat_eq, string_eq, option_eq, is_some,
}
use feishu_shadow_agent.Json.{
  Json, int, str, Fields, end, field, get_or_null, or_else, nonempty_text, text_or_empty, put,
}
use feishu_shadow_agent.Types.{
  Stamp, instant, SenderRole, is_external, ApprovalKind, ApprovalStatus, ActionRecord,
  DispatchAttemptRecord,
}

-- `hash_history` is the list under "semantic_hash_history" in normalized_json.
pub record MessageRow : Type 0 where
  pub id : ℕ
  pub message_id : String
  pub chat_id : Option String
  pub sender_id : Option String
  pub sender_role : SenderRole
  pub sent_at : Option Stamp
  pub text : String
  pub revision : ℕ
  pub is_deleted : Bool
  pub semantic_hash : String
  pub hash_history : List String

pub record TaskMessageRow : Type 0 where
  pub task_id : ℕ
  pub message_id : String
  pub role : String

pub record ApprovalRow : Type 0 where
  pub id : ℕ
  pub short_id : String
  pub task_id : Option ℕ
  pub kind : ApprovalKind
  pub status : ApprovalStatus
  pub payload : Fields
  pub preview : Option String
  pub source_message_id : Option String
  pub source_revision : Option ℕ
  pub created_at : ℕ
  pub expires_at : Option ℕ
  pub resolved_at : Option ℕ

pub record Db : Type 0 where
  pub actions : List ActionRecord
  pub attempts : List DispatchAttemptRecord
  pub messages : List MessageRow
  pub task_messages : List TaskMessageRow
  pub approvals : List ApprovalRow
  pub next_action_id : ℕ
  pub next_attempt_id : ℕ

-- get_action: SELECT * FROM actions WHERE id = ?
abbrev pub find_action : ℕ → List ActionRecord → Option ActionRecord
find_action i rows = find? (λ (r : ActionRecord). r.id == i) rows

abbrev pub find_attempt : ℕ → List DispatchAttemptRecord → Option DispatchAttemptRecord
find_attempt i rows = find? (λ (r : DispatchAttemptRecord). r.id == i) rows

-- SELECT revision, is_deleted FROM messages WHERE message_id = ?
abbrev pub find_message : String → List MessageRow → Option MessageRow
find_message m rows = find? (λ (r : MessageRow). r.message_id == m) rows

-- int(row["revision"] or 1)
abbrev pub revision_of : MessageRow → ℕ
revision_of row = if row.revision == 0 then 1 else row.revision

-- a row that is there, is not deleted and has this revision
abbrev pub is_current_row : Option MessageRow → ℕ → Bool
is_current_row none revision = false
is_current_row (some row) revision = not row.is_deleted && revision_of row == revision

abbrev later_attempt : DispatchAttemptRecord → DispatchAttemptRecord → Bool
later_attempt a b = ltb b.started_at a.started_at || (a.started_at == b.started_at && leb b.id a.id)

abbrev pick_later : DispatchAttemptRecord → Option DispatchAttemptRecord → DispatchAttemptRecord
pick_later a none = a
pick_later a (some b) = if later_attempt a b then a else b

-- _latest_dispatch_attempt_locked: ORDER BY started_at DESC, id DESC LIMIT 1
unfoldable pub latest_attempt : ℕ → List DispatchAttemptRecord → Option DispatchAttemptRecord
latest_attempt action_id [] = none
latest_attempt action_id (a ∷ rest) =
    let later = latest_attempt action_id rest in
    if a.action_id == action_id then some (pick_later a later) else later

-- _payload_send_text, and _payload_text of dispatcher.py
abbrev pub payload_send_text : Fields → String
payload_send_text payload =
    text_or_empty (
      or_else (get_or_null "text" payload) (or_else (get_or_null "composed_text" payload) (str "")))

-- _payload_source_message_id
abbrev pub payload_source_message_id : Fields → Option String
payload_source_message_id payload = nonempty_text (get_or_null "source_message_id" payload)

-- int(value) of a text of decimal digits
decimal : ℕ → String → Option ℕ
decimal n String.[] = some n
decimal n (String.◌∷◌ c s) =
    let d = code c in if leb 48 d && leb d 57 then decimal (n * 10 + (d - 48)) s else none

abbrev pub positive : ℕ → Option ℕ
positive n = if n == 0 then none else some n

abbrev positive_or_none : Option ℕ → Option ℕ
positive_or_none none = none
positive_or_none (some n) = positive n

revision_value : Json → Option ℕ
unfolding decimal
revision_value (int n) = positive n
revision_value (str s) = if s == "" then none else positive_or_none (decimal 0 s)
revision_value _ = none

-- _payload_source_revision
unfoldable pub payload_source_revision : Fields → Option ℕ
unfolding revision_value
payload_source_revision payload = revision_value (get_or_null "source_revision" payload)

-- A source that is not bound to a message and a revision is current.
abbrev pub is_current_source : List MessageRow → Option String → Option ℕ → Bool
is_current_source messages none r = true
is_current_source messages (some m) none = true
is_current_source messages (some m) (some r) = is_current_row (find_message m messages) r

-- _source_payload_is_stale_locked
unfoldable pub source_payload_is_stale : Db → Fields → Bool
source_payload_is_stale db payload = not (
    is_current_source db.messages (payload_source_message_id payload)
      (payload_source_revision payload))

-- julianday(sent_at), where NULL stands below every time
abbrev julianday : Option Stamp → ℕ
julianday (some (instant t)) = suc t
julianday _ = 0

abbrev later_message : MessageRow → Option MessageRow → MessageRow
later_message a none = a
later_message a (some b) =
    if ltb (julianday b.sent_at) (julianday a.sent_at)
      || (julianday a.sent_at == julianday b.sent_at && leb b.id a.id)
    then a
    else b

abbrev joined : Option MessageRow → Option MessageRow → Option MessageRow
joined none later = later
joined (some m) later =
    if is_external m.sender_role && not m.is_deleted then some (later_message m later) else later

-- _latest_external_task_message_locked
unfoldable pub latest_external_task_message :
    ℕ → List TaskMessageRow → List MessageRow → Option MessageRow
latest_external_task_message task_id [] messages = none
latest_external_task_message task_id (t ∷ ts) messages =
    let later = latest_external_task_message task_id ts messages in
    if t.task_id == task_id then joined (find_message t.message_id messages) later else later

abbrev bound_to : Option MessageRow → Fields → Fields
bound_to none payload = payload
bound_to (some m) payload =
    put "source_revision" (int (revision_of m)) (put "source_message_id" (str m.message_id) payload)

-- _bind_payload_to_latest_external_message_locked
unfoldable pub bind_payload : Db → ℕ → Fields → Fields
bind_payload db task_id payload =
    if is_some (payload_source_message_id payload) && is_some (payload_source_revision payload)
    then payload
    else bound_to (latest_external_task_message task_id db.task_messages db.messages) payload
