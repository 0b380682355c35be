-- ===== src/Store/Messages/Replay.antt =====
-- Series of polls: what the table holds of a message is what a replay of its own polls gives.
use feishu_shadow_agent.Prelude.{
  subst, ◌≡◌, ◌∙◌, ap, eq_iff, inl, inr, sym, refl, String, Bool, false, Option, none, some, List,
  [], ◌∷◌, ◌==◌, if◌then◌else◌, nat_eq, string_eq, arith, Bool-cases,
}
use feishu_shadow_agent.Types.{NormalizedMessage}
use feishu_shadow_agent.Store.{Db}
use feishu_shadow_agent.Store.Messages.{upsert_message_revision}
use feishu_shadow_agent.Store.Messages.Accept.{
  Log, log, accept, IsHashedLog, accept_polled, log-upsert-ne,
}

accept-IsHashedLog :
    (hash : String) (is_deleted confirmed : Bool) (o : Option Log)
    → (hash == "") ≡ false
    → IsHashedLog o
    → IsHashedLog (accept hash is_deleted confirmed o)
unfolding accept
accept-IsHashedLog hash is_deleted confirmed none nonempty w = (nonempty, refl)
accept-IsHashedLog hash is_deleted confirmed (some l) nonempty w = ground (arith)

-- A poll: the snapshot, and whether the client was asked again.
pub record Poll : Type 0 where
  pub message : NormalizedMessage
  pub confirmed : Bool

-- the polls, in their order
unfoldable pub run_polls : (NormalizedMessage → String) → List Poll → Db → Db
run_polls semantic_hash [] db = db
run_polls semantic_hash (p ∷ ps) db =
    run_polls semantic_hash ps (upsert_message_revision semantic_hash p.message p.confirmed db).1

abbrev pub replay_one : (NormalizedMessage → String) → String → Poll → Option Log → Option Log
replay_one semantic_hash k p o =
    if p.message.message_id == k
    then accept (semantic_hash p.message) p.message.is_deleted p.confirmed o
    else o

-- the polls of the message `k`, in their order
unfoldable pub replay : (NormalizedMessage → String) → String → List Poll → Option Log → Option Log
replay semantic_hash k [] o = o
replay semantic_hash k (p ∷ ps) o = replay semantic_hash k ps (replay_one semantic_hash k p o)

-- one poll of any message, seen at `k`
log-step :
    (semantic_hash : NormalizedMessage → String) (k : String) (p : Poll) (db : Db)
    → ((m : NormalizedMessage) → (semantic_hash m == "") ≡ false)
    → IsHashedLog (log k db)
    → log k (upsert_message_revision semantic_hash p.message p.confirmed db).1
      ≡ replay_one semantic_hash k p (log k db)
log-step semantic_hash k p db nonempty w = elim (Bool-cases (p.message.message_id == k)) [
  | inl t ↦
      let e : p.message.message_id ≡ k = (eq_iff p.message.message_id k).0 t in
      rw t (
        rw (sym e) (
          accept_polled semantic_hash p.message p.confirmed db
            (subst (λ (x : String). IsHashedLog (log x db)) (sym e) w) (nonempty p.message)))
  | inr t ↦ rw t (log-upsert-ne semantic_hash p.message p.confirmed k db t)
]

replay_one-IsHashedLog :
    (semantic_hash : NormalizedMessage → String) (k : String) (p : Poll) (o : Option Log)
    → ((m : NormalizedMessage) → (semantic_hash m == "") ≡ false)
    → IsHashedLog o
    → IsHashedLog (replay_one semantic_hash k p o)
replay_one-IsHashedLog semantic_hash k p o nonempty w =
    elim (Bool-cases (p.message.message_id == k)) [
      | inl t ↦ rw t (
          accept-IsHashedLog (semantic_hash p.message) p.message.is_deleted p.confirmed o
            (nonempty p.message) w)
      | inr t ↦ rw t w
    ]

-- After any series of polls, the table holds of each message what a replay of that message's own
-- polls gives. The digest of a snapshot is never empty, and the row, if there is one before, has a
-- digest and a revision.
pub run_polls-refines :
    (semantic_hash : NormalizedMessage → String) (k : String) (polls : List Poll) (db : Db)
    → ((m : NormalizedMessage) → (semantic_hash m == "") ≡ false)
    → IsHashedLog (log k db)
    → log k (run_polls semantic_hash polls db) ≡ replay semantic_hash k polls (log k db)
unfolding run_polls replay
run_polls-refines semantic_hash k [] db nonempty w = refl
run_polls-refines semantic_hash k (p ∷ ps) db nonempty w =
    let step = log-step semantic_hash k p db nonempty w in
    run_polls-refines semantic_hash k ps
      (upsert_message_revision semantic_hash p.message p.confirmed db).1 nonempty
      (subst IsHashedLog (sym step)
        (replay_one-IsHashedLog semantic_hash k p (log k db) nonempty w))
    ∙ ap (replay semantic_hash k ps) step
