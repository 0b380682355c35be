-- ===== src/Store/Messages.antt =====
-- store/sqlite_store.py: how a polled snapshot of a message enters the messages table, under a new
-- revision if it is an edit. The digest of message_semantic_hash (json.dumps and SHA-256) is a
-- parameter. The columns that nothing here reads back (raw_json, the flags) are left out.
pub mod Laws
pub mod Accept
pub mod Replay
pub mod Safety
use feishu_shadow_agent.Prelude.{
  ℕ, suc, ◌+◌, String, Bool, true, false, not, ◌&&◌, ◌||◌, Option, none, some, List, [], ◌∷◌, ◌++◌,
  ◌==◌, any, if◌then◌else◌, nat_eq, string_eq, update_where, length,
}
use feishu_shadow_agent.Types.{NormalizedMessage}
use feishu_shadow_agent.Store.{Db, MessageRow, find_message, revision_of}

pub record MessageUpsertResult : Type 0 where
  pub inserted : Bool
  pub changed : Bool
  pub revision : ℕ
  pub is_deleted : Bool
  pub semantic_hash : String
  pub requires_confirmation : Bool

-- x in xs
abbrev pub member : String → List String → Bool
member x xs = any (λ y. y == x) xs

-- if x not in xs: xs.append(x)
abbrev pub with_item : List String → String → List String
with_item xs x = if member x xs then xs else xs ++ x ∷ []

-- _message_semantic_hash_history
abbrev pub semantic_hash_history : List String → String → List String
semantic_hash_history history current =
    if not (current == "") then with_item history current else history

-- the history of a row that has a hash; a migrated row has none
abbrev pub known_hashes : MessageRow → List String
known_hashes row =
    if row.semantic_hash == "" then [] else semantic_hash_history row.hash_history row.semantic_hash

-- the columns of an INSERT
abbrev pub inserted_row : ℕ → NormalizedMessage → String → MessageRow
inserted_row id m hash = record {
  id = id;
  message_id = m.message_id;
  chat_id = m.chat_id;
  sender_id = m.sender_id;
  sender_role = m.sender_role;
  sent_at = m.sent_at;
  text = if m.is_deleted then "" else m.text;
  revision = 1;
  is_deleted = m.is_deleted;
  semantic_hash = hash;
  hash_history = hash ∷ [];
}

-- the columns of the UPDATE
abbrev pub updated_row : NormalizedMessage → String → List String → ℕ → MessageRow → MessageRow
updated_row m hash history revision row = record row {
  chat_id = m.chat_id;
  sender_id = m.sender_id;
  sender_role = m.sender_role;
  sent_at = m.sent_at;
  text = if m.is_deleted then "" else m.text;
  revision = revision;
  is_deleted = m.is_deleted;
  semantic_hash = hash;
  hash_history = history;
}

-- WHERE message_id = ? AND is_deleted = 0 AND revision = ?
abbrev pub live_at : String → ℕ → MessageRow → Bool
live_at m revision row = row.message_id == m && (not row.is_deleted && row.revision == revision)

-- what the table holds, unchanged
abbrev pub unchanged : MessageRow → Bool → MessageUpsertResult
unchanged row confirm = record {
  inserted = false;
  changed = false;
  revision = revision_of row;
  is_deleted = row.is_deleted;
  semantic_hash = row.semantic_hash;
  requires_confirmation = confirm;
}

-- the UPDATE, and the answer when no row is at that revision any more
unfoldable pub write_revision :
    NormalizedMessage → String → MessageRow → ℕ → Bool → Db → MessageUpsertResult × Db
write_revision m hash row revision changed db =
    if any (live_at m.message_id (revision_of row)) db.messages
    then (
      record {
        inserted = false;
        changed = changed;
        revision = revision;
        is_deleted = m.is_deleted;
        semantic_hash = hash;
        requires_confirmation = false;
      },
      record db {
        messages =
            update_where (live_at m.message_id (revision_of row))
              (updated_row m hash (with_item (known_hashes row) hash) revision) db.messages;
      },
    )
    else (unchanged row false, db)

unfoldable pub upsert_existing :
    NormalizedMessage → String → Bool → MessageRow → Db → MessageUpsertResult × Db
unfolding write_revision
upsert_existing m hash confirmed_current row db =
    if row.is_deleted
    then (unchanged row false, db)
    else if member hash (known_hashes row) && not confirmed_current
    then (unchanged row (not (hash == row.semantic_hash)), db)
    else if row.semantic_hash == hash && not m.is_deleted
    then (unchanged row false, db)
    else if row.semantic_hash == "" && not m.is_deleted
    then write_revision m hash row (revision_of row) false db
    else write_revision m hash row (revision_of row + 1) true db

abbrev pub inserted_result : NormalizedMessage → String → MessageUpsertResult
inserted_result m hash = record {
  inserted = true;
  changed = true;
  revision = 1;
  is_deleted = m.is_deleted;
  semantic_hash = hash;
  requires_confirmation = false;
}

unfoldable pub upsert_found :
    NormalizedMessage → String → Bool → Option MessageRow → Db → MessageUpsertResult × Db
unfolding upsert_existing
upsert_found m hash confirmed_current (some row) db =
    upsert_existing m hash confirmed_current row db
upsert_found m hash confirmed_current none db = (
  inserted_result m hash,
  record db { messages = db.messages ++ inserted_row (suc (length db.messages)) m hash ∷ [] },
)

-- _upsert_message_revision_locked
unfoldable pub upsert_message_revision :
    (NormalizedMessage → String) → NormalizedMessage → Bool → Db → MessageUpsertResult × Db
unfolding upsert_found
upsert_message_revision semantic_hash m confirmed_current db =
    upsert_found m (semantic_hash m) confirmed_current (find_message m.message_id db.messages) db
