-- ===== src/Store/Messages/Accept.antt =====
-- The row of a message as a log of accepted snapshots, and one poll as one step of that.
use feishu_shadow_agent.Prelude.{
  text_same, ℕ, suc, ◌+◌, ◌≡◌, ◌∙◌, ap, eq_iff, inl, inr, sym, refl, String, Bool, true, false, not,
  ◌&&◌, ◌||◌, Option, none, some, List, [], ◌∷◌, ◌++◌, ◌==◌, if◌then◌else◌, nat_eq, string_eq,
  length, arith, Bool-cases,
}
use feishu_shadow_agent.Types.{NormalizedMessage}
use feishu_shadow_agent.Store.{Db, MessageRow, find_message, revision_of}
use feishu_shadow_agent.Store.Messages.{
  MessageUpsertResult, member, with_item, known_hashes, inserted_row, updated_row, write_revision,
  upsert_existing, upsert_found, upsert_message_revision,
}
use feishu_shadow_agent.Store.Messages.Laws.{
  find_message-update, find_message-append, any_live, find_message-live, upsert-Keeps,
}

pub record Log : Type 0 where
  pub revision : ℕ
  pub is_deleted : Bool
  pub current : String
  pub accepted : List String

abbrev pub log_of : MessageRow → Log
log_of row = record {
  revision = row.revision;
  is_deleted = row.is_deleted;
  current = row.semantic_hash;
  accepted = known_hashes row;
}

abbrev pub log_of_found : Option MessageRow → Option Log
log_of_found none = none
log_of_found (some row) = some (log_of row)

-- what the table tells of a message
unfoldable pub log : String → Db → Option Log
log k db = log_of_found (find_message k db.messages)

-- One poll: `hash` is the snapshot it saw, `confirmed` that the client was asked again.
unfoldable pub accept : String → Bool → Bool → Option Log → Option Log
accept hash is_deleted confirmed none =
    some (record { revision = 1; is_deleted = is_deleted; current = hash; accepted = hash ∷ [] })
accept hash is_deleted confirmed (some l) =
    if l.is_deleted
      || (if confirmed then l.current == hash && not is_deleted else member hash l.accepted)
    then some l
    else some (record {
      revision = suc l.revision;
      is_deleted = is_deleted;
      current = hash;
      accepted = with_item l.accepted hash;
    })

-- A row that an upsert wrote: it has a hash and a revision. Only rows of an older schema do not.
abbrev pub IsHashed : MessageRow → Type 0
IsHashed row = ((row.semantic_hash == "") ≡ false) × ((row.revision == 0) ≡ false)

abbrev pub IsHashedLog : Option Log → Type 0
IsHashedLog none = Unit
IsHashedLog (some l) = ((l.current == "") ≡ false) × ((l.revision == 0) ≡ false)

pub member-append : (xs : List String) (x : String) → member x (xs ++ x ∷ []) ≡ true
member-append [] x = ground (arith, text_same x)
member-append (y ∷ xs) x = ground (arith, member-append xs x)

with_item-again : (xs : List String) (x : String) → with_item (with_item xs x) x ≡ with_item xs x
with_item-again xs x = ground (arith, member-append xs x)

known-updated :
    (m : NormalizedMessage) (hash : String) (revision : ℕ) (row : MessageRow)
    → (hash == "") ≡ false
    → log_of (updated_row m hash (with_item (known_hashes row) hash) revision row) ≡ record {
      revision = revision;
      is_deleted = m.is_deleted;
      current = hash;
      accepted = with_item (known_hashes row) hash;
    }
known-updated m hash revision row nonempty =
    rw nonempty (rw (with_item-again (known_hashes row) hash) refl)

log-write :
    (m : NormalizedMessage) (hash : String) (row : MessageRow) (revision : ℕ) (changed : Bool)
    (db : Db)
    → find_message m.message_id db.messages ≡ some row
    → row.is_deleted ≡ false
    → (row.revision == 0) ≡ false
    → (hash == "") ≡ false
    → log m.message_id (write_revision m hash row revision changed db).1
      ≡ some (record {
        revision = revision;
        is_deleted = m.is_deleted;
        current = hash;
        accepted = with_item (known_hashes row) hash;
      })
unfolding write_revision log
log-write m hash row revision changed db h live nonzero nonempty = rw nonzero (
    rw (any_live m.message_id db.messages row h live) (
      rw
        (find_message-update m.message_id row.revision
          (updated_row m hash (with_item (known_hashes row) hash) revision) (λ r. refl) db.messages
          m.message_id row h)
        (rw (find_message-live m.message_id db.messages row h live)
          (ap some (known-updated m hash revision row nonempty)))))

pub log-edit :
    (m : NormalizedMessage) (hash : String) (row : MessageRow) (db : Db)
    → find_message m.message_id db.messages ≡ some row
    → row.is_deleted ≡ false
    → (row.revision == 0) ≡ false
    → (hash == "") ≡ false
    → log m.message_id (write_revision m hash row (revision_of row + 1) true db).1
      ≡ some (record {
        revision = suc row.revision;
        is_deleted = m.is_deleted;
        current = hash;
        accepted = with_item (known_hashes row) hash;
      })
log-edit m hash row db h live nonzero nonempty =
    log-write m hash row (revision_of row + 1) true db h live nonzero nonempty
    ∙ rw nonzero (ground arith)

-- a row's own hash is among those it knows
current-known :
    (row : MessageRow)
    → (row.semantic_hash == "") ≡ false
    → member row.semantic_hash (known_hashes row) ≡ true
current-known row nonempty = ground (arith, member-append row.hash_history row.semantic_hash)

log-if :
    (k : String) (b : Bool) (x y : MessageUpsertResult × Db)
    → log k (if b then x else y).1 ≡ (if b then log k x.1 else log k y.1)
log-if k true x y = refl
log-if k false x y = refl

pub log-unchanged :
    (m : NormalizedMessage) (row : MessageRow) (db : Db)
    → find_message m.message_id db.messages ≡ some row
    → log m.message_id db ≡ some (log_of row)
unfolding log
log-unchanged m row db h = ap log_of_found h

same-known :
    (row : MessageRow) (hash : String)
    → (row.semantic_hash == "") ≡ false
    → (row.semantic_hash == hash) ≡ true
    → member hash (known_hashes row) ≡ true
same-known row hash nonempty s =
    ap (λ (h : String). member h (known_hashes row)) (sym ((eq_iff row.semantic_hash hash).0 s))
    ∙ current-known row nonempty

-- the tests of the code come to those of `accept`
tests-accept :
    (known confirmed same gone migrated : Bool) (kept stamped written : Option Log)
    → (same ≡ true → known ≡ true)
    → migrated ≡ false
    → (if known && not confirmed
        then kept
        else if same && not gone
        then kept
        else if migrated && not gone
        then stamped
        else written)
      ≡ (if (if confirmed then same && not gone else known) then kept else written)
tests-accept known confirmed same gone migrated kept stamped written h e = ground arith

accept_existing :
    (m : NormalizedMessage) (hash : String) (confirmed : Bool) (row : MessageRow) (db : Db)
    → find_message m.message_id db.messages ≡ some row
    → IsHashed row
    → (hash == "") ≡ false
    → log m.message_id (upsert_existing m hash confirmed row db).1
      ≡ accept hash m.is_deleted confirmed (some (log_of row))
unfolding upsert_existing accept
accept_existing m hash confirmed row db h w nonempty = rw (log-if m.message_id row.is_deleted) (
    rw (log-if m.message_id (member hash (known_hashes row) && not confirmed)) (
      rw (log-if m.message_id (row.semantic_hash == hash && not m.is_deleted)) (
        rw (log-if m.message_id (row.semantic_hash == "" && not m.is_deleted)) (
          rw (log-unchanged m row db h) (elim (Bool-cases row.is_deleted) [
            | inl t ↦ rw t refl
            | inr t ↦ rw (log-edit m hash row db h t w.1 nonempty) (
                rw t (
                  tests-accept (member hash (known_hashes row)) confirmed
                    (row.semantic_hash == hash) m.is_deleted (row.semantic_hash == "") _ _ _
                    (same-known row hash w.0) w.0))
          ])))))

pub log-upsert-ne :
    (semantic_hash : NormalizedMessage → String) (m : NormalizedMessage) (confirmed : Bool)
    (k : String) (db : Db)
    → (m.message_id == k) ≡ false
    → log k (upsert_message_revision semantic_hash m confirmed db).1 ≡ log k db
unfolding log
log-upsert-ne semantic_hash m confirmed k db ne =
    ap log_of_found (upsert-Keeps semantic_hash m confirmed k db ne)

pub log-inserted :
    (m : NormalizedMessage) (hash : String) (db : Db)
    → find_message m.message_id db.messages ≡ none
    → (hash == "") ≡ false
    → log_of_found (
        find_message m.message_id
          (db.messages ++ inserted_row (suc (length db.messages)) m hash ∷ []))
      ≡ accept hash m.is_deleted true none
unfolding accept
log-inserted m hash db h nonempty =
    let new = inserted_row (suc (length db.messages)) m hash in
    let found : find_message m.message_id (db.messages ++ new ∷ []) ≡ some new =
      find_message-append db.messages new m.message_id ∙ rw h (rw (text_same m.message_id) refl) in
    ap log_of_found found ∙ rw nonempty (rw (text_same hash) refl)

accept_found :
    (m : NormalizedMessage) (hash : String) (confirmed : Bool) (o : Option MessageRow) (db : Db)
    → find_message m.message_id db.messages ≡ o
    → IsHashedLog (log_of_found o)
    → (hash == "") ≡ false
    → log m.message_id (upsert_found m hash confirmed o db).1
      ≡ accept hash m.is_deleted confirmed (log_of_found o)
unfolding upsert_found log accept
accept_found m hash confirmed (some row) db h w nonempty =
    accept_existing m hash confirmed row db h w nonempty
accept_found m hash confirmed none db h w nonempty = log-inserted m hash db h nonempty

-- One poll of a message is one step of its log.
pub accept_polled :
    (semantic_hash : NormalizedMessage → String) (m : NormalizedMessage) (confirmed : Bool)
    (db : Db)
    → IsHashedLog (log m.message_id db)
    → (semantic_hash m == "") ≡ false
    → log m.message_id (upsert_message_revision semantic_hash m confirmed db).1
      ≡ accept (semantic_hash m) m.is_deleted confirmed (log m.message_id db)
unfolding upsert_message_revision log
accept_polled semantic_hash m confirmed db w nonempty =
    accept_found m (semantic_hash m) confirmed (find_message m.message_id db.messages) db refl w
      nonempty
