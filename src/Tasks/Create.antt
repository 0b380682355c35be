-- ===== src/Tasks/Create.antt =====
-- store/sqlite_store.py: how a message starts a task, under a short id that no other task has.
use feishu_shadow_agent.Prelude.{
  ap, ◌∙◌, sym, arith, not, true, refl, subst, ◌≡◌, ℕ, zero, suc, String, Bool, false, Option, none,
  some, List, [], ◌∷◌, ◌++◌, ◌==◌, any, if◌then◌else◌, string_eq,
}
use feishu_shadow_agent.Types.{
  Stamp, watching, TaskRecord, RouteDecision, new_task, NormalizedMessage,
}
use feishu_shadow_agent.Tasks.{TaskDb, TaskRow, Texts}
use feishu_shadow_agent.Tasks.Attach.{add_task_message, add_watch_keys, watch_keys_for_message}
use feishu_shadow_agent.Tasks.Audits.{record_routing_audit}

-- SELECT short_id FROM tasks WHERE short_id = ?
abbrev pub is_taken : List TaskRow → String → Bool
is_taken rows s = any (λ (r : TaskRow). r.task.short_id == s) rows

-- for suffix in range(suffix, suffix + count)
unfoldable pub first_free : (ℕ → String) → (String → Bool) → ℕ → ℕ → Option String
first_free name taken suffix zero = none
first_free name taken suffix (suc count) =
    let rest = first_free name taken (suc suffix) count in
    if taken (name suffix) then rest else some (name suffix)

-- _unique_short_id_in_table, with the names for its seed; `none` is its RuntimeError
unfoldable pub unique_short_id_in_table : String → (ℕ → String) → (String → Bool) → Option String
unfolding first_free
unique_short_id_in_table base numbered taken =
    if taken base then first_free numbered taken 2 98 else some base

-- _unique_short_id
unfoldable pub unique_short_id : Texts → List TaskRow → String → Option String
unfolding unique_short_id_in_table
unique_short_id texts rows seed =
    let base = texts.short_id_base seed in
    unique_short_id_in_table base (texts.numbered base) (is_taken rows)

abbrev pub new_row : Texts → ℕ → String → NormalizedMessage → Stamp → Option String → ℕ → TaskRow
new_row texts id short_id m watch_until agent_working_dir now = record {
  task = record {
    id = id;
    short_id = short_id;
    status = watching;
    chat_id = m.chat_id;
    chat_type = m.chat_type;
    thread_id = m.thread_id;
    root_message_id = some m.message_id;
    task_label = texts.clean_label m.text;
    watch_until = some watch_until;
    agent_working_dir = agent_working_dir;
  };
  last_user_message = some (texts.truncate m.text);
  last_agent_reply = none;
  created_at = now;
  updated_at = now;
  closed_at = none;
}

-- _create_task_for_message, after the short id: the INSERT and what follows it
unfoldable pub insert_task : TaskRow → NormalizedMessage → TaskDb → TaskDb
unfolding add_task_message add_watch_keys watch_keys_for_message
insert_task row m db = add_watch_keys row.task.id (watch_keys_for_message m) (
    add_task_message row.task.id m.message_id "root"
      (record db { tasks = db.tasks ++ row ∷ []; next_task_id = suc db.next_task_id }))

abbrev pub started : TaskRecord → RouteDecision
started task = record {
  route = new_task;
  target_task_id = some task.id;
  reason = "new_trigger";
  candidates_count = 0;
  shortcut_hit = false;
  router_called = false;
  matched_by = some "new_trigger";
}

abbrev pub created_as :
    Texts
    → NormalizedMessage
    → Stamp
    → Option String
    → ℕ
    → TaskDb
    → Option String
    → Option ((RouteDecision × TaskRecord) × TaskDb)
created_as texts m watch_until agent_working_dir now db none = none
created_as texts m watch_until agent_working_dir now db (some short_id) =
    let row = new_row texts db.next_task_id short_id m watch_until agent_working_dir now in
    let d = started row.task in
    some ((d, row.task), record_routing_audit m.message_id m.revision d now (insert_task row m db))

-- create_task_for_message_and_audit, with the arguments of the router
unfoldable pub create_task_for_message_and_audit :
    Texts
    → NormalizedMessage
    → Stamp
    → Option String
    → ℕ
    → TaskDb
    → Option ((RouteDecision × TaskRecord) × TaskDb)
create_task_for_message_and_audit texts m watch_until agent_working_dir now db =
    created_as texts m watch_until agent_working_dir now db
      (unique_short_id texts db.tasks m.message_id)

abbrev WhenSome {κ} : {A : Type 0} → (A → Type κ) → Option A → Type κ
WhenSome P none = Unit
WhenSome P (some x) = P x

-- What is created is the row under the short id that was found, with its audit.
pub created_elim {κ} :
    (P : (RouteDecision × TaskRecord) × TaskDb → Type κ) (texts : Texts) (m : NormalizedMessage)
    (watch_until : Stamp) (agent_working_dir : Option String) (now : ℕ) (db : TaskDb)
    (x : (RouteDecision × TaskRecord) × TaskDb)
    → create_task_for_message_and_audit texts m watch_until agent_working_dir now db ≡ some x
    → ((s : String)
        → unique_short_id texts db.tasks m.message_id ≡ some s
        → let row = new_row texts db.next_task_id s m watch_until agent_working_dir now in
          P (
            (started row.task, row.task),
            record_routing_audit m.message_id m.revision
                (started row.task)
                now
                (insert_task row m db),
          ))
    → P x
unfolding create_task_for_message_and_audit
created_elim P texts m watch_until agent_working_dir now db x h p = go _ refl h
  where
    go :
        (o : Option String)
        → unique_short_id texts db.tasks m.message_id ≡ o
        → created_as texts m watch_until agent_working_dir now db o ≡ some x
        → P x
    go none u h = cc
    go (some s) u h = subst (WhenSome P) h (p s u)

-- the candidates of a short id, in the order in which they are tried
unfoldable pub names : (ℕ → String) → ℕ → ℕ → List String
names name suffix zero = []
names name suffix (suc count) = name suffix ∷ names name (suc suffix) count

unfoldable pub short_ids : Texts → String → List String
short_ids texts seed =
    texts.short_id_base seed ∷ names (texts.numbered (texts.short_id_base seed)) 2 98

abbrev pub first_where : (String → Bool) → List String → Option String
first_where p [] = none
first_where p (x ∷ xs) = if p x then some x else first_where p xs

first_free-first :
    (name : ℕ → String) (taken : String → Bool) (suffix count : ℕ)
    → first_free name taken suffix count
      ≡ first_where (λ s. not (taken s)) (names name suffix count)
unfolding first_free names
first_free-first name taken suffix zero = refl
first_free-first name taken suffix (suc count) =
    ground (arith, first_free-first name taken (suc suffix) count)

flipped :
    (b : Bool) (base : String) (o : Option String)
    → (if b then o else some base) ≡ (if not b then some base else o)
flipped true base o = refl
flipped false base o = refl

-- The short id is the first of its 99 candidates that no task has, and the allocation fails only if
-- every one of them is taken.
unique_short_id-first :
    (texts : Texts) (rows : List TaskRow) (seed : String)
    → unique_short_id texts rows seed
      ≡ first_where (λ s. not (is_taken rows s)) (short_ids texts seed)
unfolding unique_short_id short_ids
unique_short_id-first texts rows seed =
    let base = texts.short_id_base seed in
    flipped (is_taken rows base) base _
    ∙ ap (λ o. if not (is_taken rows base) then some base else o)
        (first_free-first (texts.numbered base) (is_taken rows) 2 98)

first_where-holds :
    (p : String → Bool) (xs : List String) (s : String) → first_where p xs ≡ some s → p s ≡ true
first_where-holds p [] s h = cc
first_where-holds p (x ∷ xs) s h = ground (arith, first_where-holds p xs s)

pub unique_short_id-free :
    (texts : Texts) (rows : List TaskRow) (seed s : String)
    → unique_short_id texts rows seed ≡ some s
    → is_taken rows s ≡ false
unique_short_id-free texts rows seed s h =
    let free : not (is_taken rows s) ≡ true =
      first_where-holds (λ s. not (is_taken rows s)) (short_ids texts seed) s
        (sym (unique_short_id-first texts rows seed) ∙ h) in
    ground arith
