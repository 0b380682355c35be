-- ===== src/Routing/Candidates.antt =====
-- routing.py: CandidateCollector, and how the router chooses among its candidates.
use feishu_shadow_agent.Prelude.{
  single, ℕ, ◌*◌, ◌+◌, String, Bool, false, ◌&&◌, ◌||◌, Option, none, some, List, [], ◌∷◌, ◌++◌,
  ◌==◌, any, filter, is_empty, if◌then◌else◌, nat_eq, string_eq, option_eq, leb, map,
}
use feishu_shadow_agent.Types.{Stamp, instant, TaskRecord, NormalizedMessage}
use feishu_shadow_agent.Tasks.{
  TaskDb, WatchKey, msg_key, thread_key, user_key, given, get_task_by_id, get_active_tasks_for_chat,
  get_active_tasks_by_watch_key, find_task_ids_for_message, latest_task_sender_sent_at,
}
use feishu_shadow_agent.Routing.{active_tasks}

pub record TaskCandidate : Type 0 where
  pub task : TaskRecord
  pub matched_by : String

abbrev pub holds : ℕ → TaskCandidate → Bool
holds i c = c.task.id == i

-- candidates.setdefault(task.id, ...) for each task
unfoldable pub add_candidates : String → List TaskRecord → List TaskCandidate → List TaskCandidate
add_candidates by [] cs = cs
add_candidates by (t ∷ ts) cs =
    add_candidates by ts
      (if any (holds t.id) cs then cs else cs ++ record { task = t; matched_by = by } ∷ [])

-- the tasks that watch a key, where the message has the text the key is made of
abbrev pub watching_key :
    TaskDb → String → (String → WatchKey) → Option String → ℕ → List TaskRecord
watching_key db chat_id key none now = []
watching_key db chat_id key (some s) now = get_active_tasks_by_watch_key db chat_id (key s) now

unfoldable pub collect_in : TaskDb → NormalizedMessage → String → ℕ → List TaskCandidate
unfolding add_candidates
collect_in db m chat_id now =
    add_candidates "direct_mention"
      (if m.direct_mention then get_active_tasks_for_chat db chat_id now else [])
      (add_candidates "sender" (watching_key db chat_id user_key (given m.sender_id) now) (
        add_candidates "thread" (watching_key db chat_id thread_key (given m.thread_id) now) (
          add_candidates "reply_to_msg"
            (watching_key db chat_id msg_key (given m.reply_to_message_id) now) [])))

abbrev pub collect_given : TaskDb → NormalizedMessage → Option String → ℕ → List TaskCandidate
collect_given db m none now = []
collect_given db m (some chat_id) now = collect_in db m chat_id now

-- CandidateCollector.collect
unfoldable pub collect : TaskDb → NormalizedMessage → ℕ → List TaskCandidate
unfolding collect_in
collect db m now = collect_given db m (given m.chat_id) now

abbrev pub matched : String → List TaskCandidate → Option TaskCandidate
matched by cs = single (filter (λ (c : TaskCandidate). c.matched_by == by) cs)

abbrev pub first_some {ℓ} : {A : Type ℓ} → Option A → Option A → Option A
first_some none b = b
first_some (some a) b = some a

abbrev pub match_given : Option String → List TaskCandidate → Option TaskCandidate
match_given none cs = none
match_given (some chat_id) cs = first_some (matched "reply_to_msg" cs) (matched "thread" cs)

-- _deterministic_match
unfoldable pub deterministic_match : NormalizedMessage → List TaskCandidate → Option TaskCandidate
deterministic_match m cs = match_given (given m.chat_id) cs

-- 0 <= (sent_at - latest).total_seconds() <= seconds
abbrev pub within : ℕ → ℕ → Option ℕ → Bool
within seconds sent_at none = false
within seconds sent_at (some latest) =
    leb latest sent_at && leb sent_at (latest + seconds * 1000000)

abbrev pub is_burst : ℕ → TaskDb → NormalizedMessage → String → ℕ → TaskCandidate → Bool
is_burst seconds db m sender_id sent_at c =
    c.task.chat_id == m.chat_id
    && within seconds sent_at (
        latest_task_sender_sent_at c.task.id sender_id m.message_id db.store.task_messages
          db.store.messages)

abbrev pub burst_given :
    ℕ
    → TaskDb
    → NormalizedMessage
    → List TaskCandidate
    → Option String
    → Option String
    → Option Stamp
    → Option TaskRecord
burst_given seconds db m cs (some chat_id) (some sender_id) (some (instant sent_at)) =
    if seconds == 0 || is_empty cs
    then none
    else single
        (map (λ (c : TaskCandidate). c.task) (filter (is_burst seconds db m sender_id sent_at) cs))
burst_given seconds db m cs _ _ _ = none

-- _burst_attach_match
unfoldable pub burst_attach_match :
    ℕ → TaskDb → NormalizedMessage → List TaskCandidate → Option TaskRecord
burst_attach_match seconds db m cs =
    burst_given seconds db m cs (given m.chat_id) (given m.sender_id) m.sent_at

abbrev pub cons_task : Option TaskRecord → Option (List TaskRecord) → Option (List TaskRecord)
cons_task none rest = none
cons_task (some t) none = none
cons_task (some t) (some ts) = some (t ∷ ts)

-- [get_task_by_id(i) for i in ids]
unfoldable pub tasks_by_id : TaskDb → List ℕ → Option (List TaskRecord)
tasks_by_id db [] = some []
tasks_by_id db (i ∷ is) = let rest = tasks_by_id db is in cons_task (get_task_by_id db i) rest

abbrev single_active : Option (List TaskRecord) → ℕ → Option (Option TaskRecord)
single_active none now = none
single_active (some ts) now = elim (active_tasks ts now) [
  | none ↦ none
  | some ts ↦ some (single ts)
]

-- _existing_active_task_for_message; the outer `none` is an exception
unfoldable pub existing_active_task : TaskDb → NormalizedMessage → ℕ → Option (Option TaskRecord)
unfolding tasks_by_id
existing_active_task db m now =
    single_active (tasks_by_id db (find_task_ids_for_message db m.message_id)) now

abbrev in_chat : Option String → Option (List TaskRecord) → Option (List TaskRecord)
in_chat chat_id none = none
in_chat chat_id (some ts) = some (filter (λ (t : TaskRecord). t.chat_id == chat_id) ts)

abbrev replied_task : TaskDb → NormalizedMessage → Option String → ℕ → Option (Option TaskRecord)
replied_task db m none now = some none
replied_task db m (some r) now =
    single_active (in_chat m.chat_id (tasks_by_id db (find_task_ids_for_message db r))) now

abbrev or_thread : Option (Option TaskRecord) → List TaskRecord → Option (Option TaskRecord)
or_thread none ts = none
or_thread (some none) ts = some (single ts)
or_thread (some (some t)) ts = some (some t)

abbrev takeover_given : TaskDb → NormalizedMessage → Option String → ℕ → Option (Option TaskRecord)
takeover_given db m none now = some none
takeover_given db m (some chat_id) now =
    or_thread (replied_task db m (given m.reply_to_message_id) now)
      (watching_key db chat_id thread_key (given m.thread_id) now)

-- _owner_takeover_task; the outer `none` is an exception
unfoldable pub owner_takeover_task : TaskDb → NormalizedMessage → ℕ → Option (Option TaskRecord)
unfolding tasks_by_id
owner_takeover_task db m now = takeover_given db m (given m.chat_id) now
