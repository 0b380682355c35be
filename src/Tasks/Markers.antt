-- ===== src/Tasks/Markers.antt =====
-- store/sqlite_store.py: the markers that tell how far a message was processed, one for each message,
-- revision and stage.
use feishu_shadow_agent.Prelude.{
  refl, inr, text_same, inl, arith, Bool-cases, ◌≡◌, ℕ, String, Bool, true, false, ◌&&◌, Option,
  none, some, List, [], ◌∷◌, ◌++◌, ◌==◌, any, if◌then◌else◌, nat_eq, string_eq, find?, update_where,
}
use feishu_shadow_agent.Types.{
  MessageProcessingStage, task_router, task_session, resource_download, MessageProcessingStatus,
  message_processing_blocks_duplicate,
}
use feishu_shadow_agent.Tasks.{TaskDb, ProcessingRow}

abbrev pub same_stage : MessageProcessingStage → MessageProcessingStage → Bool
same_stage task_router task_router = true
same_stage task_session task_session = true
same_stage resource_download resource_download = true
same_stage _ _ = false

-- the key of a marker
pub record MarkerKey : Type 0 where
  pub message_id : String
  pub revision : ℕ
  pub stage : MessageProcessingStage

abbrev pub is_marker : MarkerKey → ProcessingRow → Bool
is_marker k r =
    r.message_id == k.message_id && (r.revision == k.revision && same_stage r.stage k.stage)

abbrev pub status_of : Option ProcessingRow → Option MessageProcessingStatus
status_of none = none
status_of (some r) = some r.status

-- message_processing_status
unfoldable pub message_processing_status : TaskDb → MarkerKey → Option MessageProcessingStatus
message_processing_status db k = status_of (find? (is_marker k) db.processing)

-- message_processing_is_final: every status is
unfoldable pub message_processing_is_final : TaskDb → MarkerKey → Bool
unfolding message_processing_status
message_processing_is_final db k =
    message_processing_blocks_duplicate (message_processing_status db k)

-- What a marker records.
pub record Marker : Type 0 where
  pub task_id : Option ℕ
  pub status : MessageProcessingStatus
  pub attempt_count : ℕ
  pub last_error : Option String
  pub terminal_reason : Option String

abbrev coalesce : Option ℕ → Option ℕ → Option ℕ
coalesce none old = old
coalesce (some n) old = some n

abbrev pub marker_row : MarkerKey → Marker → ℕ → ProcessingRow
marker_row k m now = record {
  message_id = k.message_id;
  revision = k.revision;
  task_id = m.task_id;
  stage = k.stage;
  status = m.status;
  attempt_count = m.attempt_count;
  last_error = m.last_error;
  terminal_reason = m.terminal_reason;
  created_at = now;
  updated_at = now;
}

-- DO UPDATE SET
abbrev pub remark : Marker → ℕ → ProcessingRow → ProcessingRow
remark m now r = record r {
  task_id = coalesce m.task_id r.task_id;
  status = m.status;
  attempt_count = m.attempt_count;
  last_error = m.last_error;
  terminal_reason = m.terminal_reason;
  updated_at = now;
}

-- record_message_processing
unfoldable pub record_message_processing : TaskDb → MarkerKey → Marker → ℕ → TaskDb
record_message_processing db k m now = record db {
  processing =
      if any (is_marker k) db.processing
      then update_where (is_marker k) (remark m now) db.processing
      else db.processing ++ marker_row k m now ∷ [];
}

same_stage_refl : (s : MessageProcessingStage) → same_stage s s ≡ true
same_stage_refl task_router = refl
same_stage_refl task_session = refl
same_stage_refl resource_download = refl

is_marker-own : (k : MarkerKey) (m : Marker) (now : ℕ) → is_marker k (marker_row k m now) ≡ true
is_marker-own k m now = ground (arith, text_same k.message_id, same_stage_refl k.stage)

status-update :
    (k : MarkerKey) (m : Marker) (now : ℕ) (rows : List ProcessingRow)
    → any (is_marker k) rows ≡ true
    → status_of (find? (is_marker k) (update_where (is_marker k) (remark m now) rows))
      ≡ some m.status
unfolding update_where
status-update k m now [] h = cc
status-update k m now (r ∷ rows) h = elim (Bool-cases (is_marker k r)) [
  | inl t ↦ rw t (rw t refl)
  | inr t ↦ rw t (rw t (status-update k m now rows (ground arith)))
]

status-append :
    (k : MarkerKey) (m : Marker) (now : ℕ) (rows : List ProcessingRow)
    → any (is_marker k) rows ≡ false
    → status_of (find? (is_marker k) (rows ++ marker_row k m now ∷ [])) ≡ some m.status
status-append k m now [] h = rw (is_marker-own k m now) refl
status-append k m now (r ∷ rows) h = ground (arith, status-append k m now rows)

-- A marker is read as it was recorded last.
pub status-record :
    (db : TaskDb) (k : MarkerKey) (m : Marker) (now : ℕ)
    → message_processing_status (record_message_processing db k m now) k ≡ some m.status
unfolding message_processing_status record_message_processing
status-record db k m now = elim (Bool-cases (any (is_marker k) db.processing)) [
  | inl t ↦ rw t (status-update k m now db.processing t)
  | inr t ↦ rw t (status-append k m now db.processing t)
]
