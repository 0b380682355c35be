-- ===== src/Store/Messages/Safety.antt =====
-- What holds of a message whatever is polled, in whatever order: sqlite_store.py says that overlapping
-- poll windows bring older snapshots after newer ones.
use feishu_shadow_agent.Prelude.{
  text_sym, ◌≡◌, ◌∙◌, ap, sym, subst, eq_iff, inl, inr, refl, String, Bool, true, false, not, ◌&&◌,
  ◌||◌, Option, none, some, List, [], ◌∷◌, ◌++◌, ◌==◌, all, nat_eq, string_eq, length,
  length-append, arith, Bool-cases,
}
use feishu_shadow_agent.Types.{NormalizedMessage}
use feishu_shadow_agent.Store.{Db, MessageRow, find_message}
use feishu_shadow_agent.Store.Messages.{
  member, upsert_existing, upsert_found, upsert_message_revision,
}
use feishu_shadow_agent.Store.Messages.Laws.{upsert-Keeps}
use feishu_shadow_agent.Store.Messages.Accept.{log, accept, Log, log_of_found, IsHashedLog}
use feishu_shadow_agent.Store.Messages.Replay.{
  Poll, run_polls, replay, replay_one, run_polls-refines,
}

recalled-found :
    (m : NormalizedMessage) (hash : String) (confirmed : Bool) (db : Db) (o : Option MessageRow)
    (row : MessageRow)
    → o ≡ some row
    → row.is_deleted ≡ true
    → (upsert_found m hash confirmed o db).1 ≡ db
unfolding upsert_found upsert_existing
recalled-found m hash confirmed db none row h gone = cc
recalled-found m hash confirmed db (some r) row h gone = ground arith

recalled-step :
    (semantic_hash : NormalizedMessage → String) (k : String) (p : Poll) (db : Db)
    (row : MessageRow)
    → find_message k db.messages ≡ some row
    → row.is_deleted ≡ true
    → find_message k (upsert_message_revision semantic_hash p.message p.confirmed db).1.messages
      ≡ some row
unfolding upsert_message_revision
recalled-step semantic_hash k p db row h gone = elim (Bool-cases (p.message.message_id == k)) [
  | inl t ↦
      let e : p.message.message_id ≡ k = (eq_iff p.message.message_id k).0 t in
      let found : find_message p.message.message_id db.messages ≡ some row =
        ap (λ (x : String). find_message x db.messages) e ∙ h in
      ap (λ (d : Db). find_message k d.messages)
        (recalled-found p.message (semantic_hash p.message) p.confirmed db _ row found gone)
      ∙ h
  | inr t ↦ upsert-Keeps semantic_hash p.message p.confirmed k db t ∙ h
]

-- The row of a recalled message is never written again, whatever is polled and confirmed.
pub recall_is_final :
    (semantic_hash : NormalizedMessage → String) (k : String) (polls : List Poll) (db : Db)
    (row : MessageRow)
    → find_message k db.messages ≡ some row
    → row.is_deleted ≡ true
    → find_message k (run_polls semantic_hash polls db).messages ≡ some row
unfolding run_polls
recall_is_final semantic_hash k [] db row h gone = h
recall_is_final semantic_hash k (p ∷ ps) db row h gone =
    recall_is_final semantic_hash k ps
      (upsert_message_revision semantic_hash p.message p.confirmed db).1 row
      (recalled-step semantic_hash k p db row h gone) gone

-- no text twice
abbrev pub distinct : List String → Bool
distinct [] = true
distinct (x ∷ xs) = not (member x xs) && distinct xs

abbrev IsFresh : Option Log → Type 0
IsFresh none = Unit
IsFresh (some l) = (l.revision ≡ length l.accepted) × (distinct l.accepted ≡ true)

member-append-or :
    (xs : List String) (x y : String) → member y (xs ++ x ∷ []) ≡ (member y xs || x == y)
member-append-or [] x y = ground arith
member-append-or (z ∷ xs) x y = ground (arith, member-append-or xs x y)

distinct-append :
    (xs : List String) (x : String)
    → distinct xs ≡ true
    → member x xs ≡ false
    → distinct (xs ++ x ∷ []) ≡ true
distinct-append [] x d n = refl
distinct-append (y ∷ xs) x d n =
    ground (arith, member-append-or xs x y, text_sym x y, distinct-append xs x)

accept-IsFresh :
    (hash : String) (is_deleted : Bool) (o : Option Log)
    → IsFresh o
    → IsFresh (accept hash is_deleted false o)
unfolding accept
accept-IsFresh hash is_deleted none w = (refl, refl)
accept-IsFresh hash is_deleted (some l) w =
    ground (arith, length-append l.accepted (hash ∷ []), distinct-append l.accepted hash)

replay-IsFresh :
    (semantic_hash : NormalizedMessage → String) (k : String) (polls : List Poll) (o : Option Log)
    → all (λ p. not p.confirmed) polls ≡ true
    → IsFresh o
    → IsFresh (replay semantic_hash k polls o)
unfolding replay
replay-IsFresh semantic_hash k [] o u w = w
replay-IsFresh semantic_hash k (p ∷ ps) o u w =
    replay-IsFresh semantic_hash k ps (replay_one semantic_hash k p o) (ground arith)
      (elim (Bool-cases (p.message.message_id == k)) [
        | inl t ↦
            let e : p.confirmed ≡ false = ground arith in
            rw t (rw e (accept-IsFresh (semantic_hash p.message) p.message.is_deleted o w))
        | inr t ↦ rw t w
      ])

-- While no snapshot is confirmed with the client, a message never goes back: from a table without
-- it, any series of polls leaves it at the revision that counts the different snapshots accepted.
-- The digest of a snapshot is never empty.
pub revisions_count_snapshots :
    (semantic_hash : NormalizedMessage → String) (k : String) (polls : List Poll) (db : Db)
    (l : Log)
    → ((m : NormalizedMessage) → (semantic_hash m == "") ≡ false)
    → all (λ p. not p.confirmed) polls ≡ true
    → find_message k db.messages ≡ none
    → log k (run_polls semantic_hash polls db) ≡ some l
    → (l.revision ≡ length l.accepted) × (distinct l.accepted ≡ true)
unfolding log
revisions_count_snapshots semantic_hash k polls db l nonempty u fresh h =
    let start : log_of_found (find_message k db.messages) ≡ none = ap log_of_found fresh in
    subst IsFresh
      (sym (ap (replay semantic_hash k polls) start)
        ∙ sym
            (run_polls-refines semantic_hash k polls db nonempty (subst IsHashedLog (sym start) tt))
        ∙ h)
      (replay-IsFresh semantic_hash k polls none u tt)
