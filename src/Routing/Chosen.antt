-- ===== src/Routing/Chosen.antt =====
-- Which tasks the collector and the matches can give: those that the message's chat is watching.
use feishu_shadow_agent.Prelude.{
  all-filter, filter-all, all-single, all-sort_by, ◌||◌, sym, ℕ, String, Bool, true, false, ◌&&◌,
  Option, none, some, List, [], ◌∷◌, ◌++◌, ◌==◌, any, all, filter, map, if◌then◌else◌, ◌≡◌, refl,
  ◌∙◌, arith, eq_iff, ap, string_eq, is_empty, nat_eq,
}
use feishu_shadow_agent.Types.{TaskRecord, NormalizedMessage, Stamp, instant, unreadable}
use feishu_shadow_agent.Store.Index.{equals_text}
use feishu_shadow_agent.Tasks.{
  TaskDb, TaskRow, WatchKey, selected, newest_first, active_in, is_watching,
  get_active_tasks_for_chat, get_active_tasks_by_watch_key, given, watches, msg_key, thread_key,
  user_key,
}
use feishu_shadow_agent.Routing.Candidates.{
  collect_given, burst_given, match_given, TaskCandidate, add_candidates, holds, watching_key,
  collect_in, collect, deterministic_match, burst_attach_match, matched, is_burst, first_some,
}

all-tasks :
    (p : TaskRow → Bool) (q : TaskRecord → Bool)
    → ((r : TaskRow) → p r ≡ true → q r.task ≡ true)
    → (rows : List TaskRow) → all p rows ≡ true
    → all q (map (λ (r : TaskRow). r.task) rows) ≡ true
all-tasks p q i [] h = refl
all-tasks p q i (r ∷ rows) h = ground (arith, i r, all-tasks p q i rows)

all-selected :
    (p : TaskRow → Bool) (q : TaskRecord → Bool) (rows : List TaskRow)
    → ((r : TaskRow) → p r ≡ true → q r.task ≡ true)
    → all q (selected p rows) ≡ true
unfolding selected
all-selected p q rows i =
    all-tasks p q i _ (all-sort_by p newest_first (filter p rows) (all-filter p rows))

-- A task that the message's chat is watching.
abbrev pub is_target : String → ℕ → TaskRecord → Bool
is_target chat_id now t = equals_text t.chat_id (some chat_id) && is_watching now t

all-watching_key :
    (db : TaskDb) (chat_id : String) (key : String → WatchKey) (o : Option String) (now : ℕ)
    → all (is_target chat_id now) (watching_key db chat_id key o now) ≡ true
unfolding get_active_tasks_by_watch_key
all-watching_key db chat_id key none now = refl
all-watching_key db chat_id key (some s) now =
    all-selected (λ (r : TaskRow). active_in chat_id now r && watches db.watch_keys (key s) r)
      (is_target chat_id now) db.tasks (λ r h. ground arith)

all-mentioned :
    (db : TaskDb) (chat_id : String) (now : ℕ) (b : Bool)
    → all (is_target chat_id now) (if b then get_active_tasks_for_chat db chat_id now else [])
      ≡ true
unfolding get_active_tasks_for_chat
all-mentioned db chat_id now true =
    all-selected (active_in chat_id now) (is_target chat_id now) db.tasks (λ r h. h)
all-mentioned db chat_id now false = refl

abbrev pub on_target : String → ℕ → TaskCandidate → Bool
on_target chat_id now c = is_target chat_id now c.task

all-append :
    (chat_id : String) (now : ℕ) (cs : List TaskCandidate) (c : TaskCandidate)
    → all (on_target chat_id now) cs ≡ true
    → on_target chat_id now c ≡ true
    → all (on_target chat_id now) (cs ++ c ∷ []) ≡ true
all-append chat_id now [] c hs h = ground arith
all-append chat_id now (d ∷ cs) c hs h = ground (arith, all-append chat_id now cs c)

all-either :
    (p : TaskCandidate → Bool) (b : Bool) (xs ys : List TaskCandidate)
    → all p xs ≡ true
    → all p ys ≡ true
    → all p (if b then xs else ys) ≡ true
all-either p true xs ys hx hy = hx
all-either p false xs ys hx hy = hy

all-add_candidates :
    (chat_id : String) (now : ℕ) (by : String) (ts : List TaskRecord) (cs : List TaskCandidate)
    → all (is_target chat_id now) ts ≡ true
    → all (on_target chat_id now) cs ≡ true
    → all (on_target chat_id now) (add_candidates by ts cs) ≡ true
unfolding add_candidates
all-add_candidates chat_id now by [] cs h hs = hs
all-add_candidates chat_id now by (t ∷ ts) cs h hs =
    all-add_candidates chat_id now by ts _ (ground arith) (
      all-either (on_target chat_id now) (any (holds t.id) cs) _ _ hs
        (all-append chat_id now cs _ hs (ground arith)))

all-collect_in :
    (db : TaskDb) (m : NormalizedMessage) (chat_id : String) (now : ℕ)
    → all (on_target chat_id now) (collect_in db m chat_id now) ≡ true
unfolding collect_in
all-collect_in db m chat_id now =
    all-add_candidates chat_id now "direct_mention" _ _
      (all-mentioned db chat_id now m.direct_mention)
      (all-add_candidates chat_id now "sender" _ _
        (all-watching_key db chat_id user_key (given m.sender_id) now)
        (all-add_candidates chat_id now "thread" _ _
          (all-watching_key db chat_id thread_key (given m.thread_id) now)
          (all-add_candidates chat_id now "reply_to_msg" _ _
            (all-watching_key db chat_id msg_key (given m.reply_to_message_id) now) refl)))

-- A task in the message's chat that is watched now.
abbrev pub IsTarget : NormalizedMessage → ℕ → TaskRecord → Type 0
IsTarget m now t = (t.chat_id ≡ m.chat_id) × (is_watching now t ≡ true)

given-some : (o : Option String) (s : String) → given o ≡ some s → o ≡ some s
given-some none s h = cc
given-some (some x) s h = ground arith

equals_text-some : (o : Option String) (s : String) → equals_text o (some s) ≡ true → o ≡ some s
equals_text-some none s h = cc
equals_text-some (some x) s h = ap some ((eq_iff x s).0 h)

is_target-IsTarget :
    (m : NormalizedMessage) (chat_id : String) (now : ℕ) (t : TaskRecord)
    → given m.chat_id ≡ some chat_id
    → is_target chat_id now t ≡ true
    → IsTarget m now t
is_target-IsTarget m chat_id now t g h = (
  equals_text-some t.chat_id chat_id (ground arith) ∙ sym (given-some m.chat_id chat_id g),
  ground arith,
)

first-target :
    (chat_id : String) (now : ℕ) (a b : Option TaskCandidate) (c : TaskCandidate)
    → ((d : TaskCandidate) → a ≡ some d → on_target chat_id now d ≡ true)
    → ((d : TaskCandidate) → b ≡ some d → on_target chat_id now d ≡ true)
    → first_some a b ≡ some c
    → on_target chat_id now c ≡ true
first-target chat_id now none b c ha hb h = hb c h
first-target chat_id now (some d) b c ha hb h = ha c h

matched-target :
    (chat_id by : String) (now : ℕ) (cs : List TaskCandidate) (c : TaskCandidate)
    → all (on_target chat_id now) cs ≡ true
    → matched by cs ≡ some c
    → on_target chat_id now c ≡ true
matched-target chat_id by now cs c hs h =
    all-single (on_target chat_id now) _ c
      (filter-all (λ (c : TaskCandidate). c.matched_by == by) (on_target chat_id now) cs hs) h

-- What the collector's match gives is a task of the message's chat that is watched now.
pub deterministic_match-IsTarget :
    (db : TaskDb) (m : NormalizedMessage) (now : ℕ) (c : TaskCandidate)
    → deterministic_match m (collect db m now) ≡ some c
    → IsTarget m now c.task
unfolding deterministic_match collect
deterministic_match-IsTarget db m now c h = go _ refl h
  where
    go :
        (o : Option String)
        → given m.chat_id ≡ o
        → match_given o (collect_given db m o now) ≡ some c
        → IsTarget m now c.task
    go none g h = cc
    go (some chat_id) g h =
        let hs = all-collect_in db m chat_id now in
        is_target-IsTarget m chat_id now c.task g (
          first-target chat_id now _ _ c (λ d e. matched-target chat_id "reply_to_msg" now _ d hs e)
            (λ d e. matched-target chat_id "thread" now _ d hs e) h)

map-task-target :
    (chat_id : String) (now : ℕ) (cs : List TaskCandidate)
    → all (on_target chat_id now) cs ≡ true
    → all (is_target chat_id now) (map (λ (c : TaskCandidate). c.task) cs) ≡ true
map-task-target chat_id now [] h = refl
map-task-target chat_id now (c ∷ cs) h = ground (arith, map-task-target chat_id now cs)

unless :
    (b : Bool) {o : Option TaskRecord} {t : TaskRecord}
    → (if b then none else o) ≡ some t
    → o ≡ some t
unless true h = cc
unless false h = h

burst-target :
    (seconds : ℕ) (db : TaskDb) (m : NormalizedMessage) (cs : List TaskCandidate) (chat_id : String)
    (now : ℕ) (sender : Option String) (sent_at : Option Stamp) (t : TaskRecord)
    → all (on_target chat_id now) cs ≡ true
    → burst_given seconds db m cs (some chat_id) sender sent_at ≡ some t
    → is_target chat_id now t ≡ true
burst-target seconds db m cs chat_id now none at t hs h = cc
burst-target seconds db m cs chat_id now (some s) none t hs h = cc
burst-target seconds db m cs chat_id now (some s) (some unreadable) t hs h = cc
burst-target seconds db m cs chat_id now (some s) (some (instant at)) t hs h =
    all-single (is_target chat_id now) _ t
      (map-task-target chat_id now _
        (filter-all (is_burst seconds db m s at) (on_target chat_id now) cs hs))
      (unless (seconds == 0 || is_empty cs) h)

-- What the burst window gives is a task of the message's chat that is watched now.
pub burst_attach_match-IsTarget :
    (seconds : ℕ) (db : TaskDb) (m : NormalizedMessage) (now : ℕ) (t : TaskRecord)
    → burst_attach_match seconds db m (collect db m now) ≡ some t
    → IsTarget m now t
unfolding burst_attach_match collect
burst_attach_match-IsTarget seconds db m now t h = go _ refl h
  where
    go :
        (o : Option String)
        → given m.chat_id ≡ o
        → burst_given seconds db m (collect_given db m o now) o (given m.sender_id) m.sent_at
          ≡ some t
        → IsTarget m now t
    go none g h = cc
    go (some chat_id) g h = is_target-IsTarget m chat_id now t g (
        burst-target seconds db m _ chat_id now (given m.sender_id) m.sent_at t
          (all-collect_in db m chat_id now) h)
