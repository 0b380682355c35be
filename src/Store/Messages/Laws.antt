-- ===== src/Store/Messages/Laws.antt =====
-- What one snapshot does to its message's row, and to the rows of the others.
use feishu_shadow_agent.Prelude.{
  eq_iff, ◌∙◌, ℕ, suc, ◌+◌, ◌≡◌, refl, String, Bool, true, false, not, ◌&&◌, Option, none, some,
  List, [], ◌∷◌, ◌++◌, ◌==◌, any, if◌then◌else◌, nat_eq, string_eq, update_where, length, arith,
}
use feishu_shadow_agent.Types.{NormalizedMessage}
use feishu_shadow_agent.Store.{Db, MessageRow, find_message, revision_of}
use feishu_shadow_agent.Store.Messages.{
  MessageUpsertResult, member, with_item, known_hashes, inserted_row, updated_row, live_at,
  write_revision, upsert_existing, upsert_found, upsert_message_revision,
}

pub find_message-update :
    (m : String) (revision : ℕ) (f : MessageRow → MessageRow)
    → ((r : MessageRow) → (f r).message_id ≡ r.message_id)
    → (rows : List MessageRow) (k : String) (row : MessageRow) → find_message k rows ≡ some row
    → find_message k (update_where (live_at m revision) f rows)
      ≡ some (if live_at m revision row then f row else row)
unfolding update_where
find_message-update m revision f keep [] k row h = cc
find_message-update m revision f keep (r ∷ rows) k row h =
    ground (arith, keep r, find_message-update m revision f keep rows k row)

abbrev pub or_new : Bool → MessageRow → Option MessageRow → Option MessageRow
or_new b new none = if b then some new else none
or_new b new (some row) = some row

or_new-false : (new : MessageRow) (o : Option MessageRow) → or_new false new o ≡ o
or_new-false new none = refl
or_new-false new (some row) = refl

pub find_message-append :
    (rows : List MessageRow) (new : MessageRow) (k : String)
    → find_message k (rows ++ new ∷ []) ≡ or_new (new.message_id == k) new (find_message k rows)
find_message-append [] new k = refl
find_message-append (r ∷ rows) new k = ground (arith, find_message-append rows new k)

pub any_live :
    (m : String) (rows : List MessageRow) (row : MessageRow)
    → find_message m rows ≡ some row
    → row.is_deleted ≡ false
    → any (live_at m row.revision) rows ≡ true
any_live m [] row h live = cc
any_live m (r ∷ rows) row h live = ground (arith, any_live m rows row)

pub find_message-live :
    (m : String) (rows : List MessageRow) (row : MessageRow)
    → find_message m rows ≡ some row
    → row.is_deleted ≡ false
    → live_at m row.revision row ≡ true
find_message-live m [] row h live = cc
find_message-live m (r ∷ rows) row h live = ground (arith, find_message-live m rows row)

-- the UPDATE of one message leaves the rows of the others
pub find_message-update-ne :
    (m k : String) (revision : ℕ) (f : MessageRow → MessageRow)
    → ((r : MessageRow) → (f r).message_id ≡ r.message_id)
    → (m == k) ≡ false
    → (rows : List MessageRow)
    → find_message k (update_where (live_at m revision) f rows) ≡ find_message k rows
unfolding update_where
find_message-update-ne m k revision f keep ne [] = refl
find_message-update-ne m k revision f keep ne (r ∷ rows) =
    ground
      (arith, keep r, find_message-update-ne m k revision f keep ne rows, eq_iff r.message_id m)

-- An operation keeps what is found at `k`.
abbrev pub Keeps : String → Db → MessageUpsertResult × Db → Type 0
Keeps k db r = find_message k r.1.messages ≡ find_message k db.messages

Keeps-if :
    (k : String) (db : Db) (b : Bool) (x y : MessageUpsertResult × Db)
    → Keeps k db x
    → Keeps k db y
    → Keeps k db (if b then x else y)
Keeps-if k db true x y hx hy = hx
Keeps-if k db false x y hx hy = hy

write-Keeps :
    (m : NormalizedMessage) (hash : String) (row : MessageRow) (revision : ℕ) (changed : Bool)
    (k : String) (db : Db)
    → (m.message_id == k) ≡ false
    → Keeps k db (write_revision m hash row revision changed db)
unfolding write_revision
write-Keeps m hash row revision changed k db ne =
    Keeps-if k db (any (live_at m.message_id (revision_of row)) db.messages) _ _
      (find_message-update-ne m.message_id k (revision_of row)
        (updated_row m hash (with_item (known_hashes row) hash) revision) (λ r. refl) ne
        db.messages)
      refl

existing-Keeps :
    (m : NormalizedMessage) (hash : String) (confirmed : Bool) (row : MessageRow) (k : String)
    (db : Db)
    → (m.message_id == k) ≡ false
    → Keeps k db (upsert_existing m hash confirmed row db)
unfolding upsert_existing
existing-Keeps m hash confirmed row k db ne = Keeps-if k db row.is_deleted _ _ refl (
    Keeps-if k db (member hash (known_hashes row) && not confirmed) _ _ refl (
      Keeps-if k db (row.semantic_hash == hash && not m.is_deleted) _ _ refl (
        Keeps-if k db (row.semantic_hash == "" && not m.is_deleted) _ _
          (write-Keeps m hash row (revision_of row) false k db ne)
          (write-Keeps m hash row (revision_of row + 1) true k db ne))))

found-Keeps :
    (m : NormalizedMessage) (hash : String) (confirmed : Bool) (row : Option MessageRow)
    (k : String) (db : Db)
    → (m.message_id == k) ≡ false
    → Keeps k db (upsert_found m hash confirmed row db)
unfolding upsert_found
found-Keeps m hash confirmed none k db ne =
    let new = inserted_row (suc (length db.messages)) m hash in
    find_message-append db.messages new k ∙ rw ne (or_new-false new (find_message k db.messages))
found-Keeps m hash confirmed (some row) k db ne = existing-Keeps m hash confirmed row k db ne

-- A poll of one message leaves the rows of the others.
pub upsert-Keeps :
    (semantic_hash : NormalizedMessage → String) (m : NormalizedMessage) (confirmed : Bool)
    (k : String) (db : Db)
    → (m.message_id == k) ≡ false
    → Keeps k db (upsert_message_revision semantic_hash m confirmed db)
unfolding upsert_message_revision
upsert-Keeps semantic_hash m confirmed k db ne =
    found-Keeps m (semantic_hash m) confirmed (find_message m.message_id db.messages) k db ne
