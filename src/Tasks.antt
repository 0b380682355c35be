-- ===== src/Tasks.antt =====
-- store/sqlite_store.py: tasks, the messages that belong to them, the keys by which a task watches a
-- chat, the audits of routes and the markers of processed messages. `store` holds the tables of Store.
-- A watch key is a constructor for each prefix ("msg:", "thread:", "user:"). What str.split, SHA-256,
-- decimal digits and LIKE make of texts are parameters.
pub mod Markers
pub mod Audits
pub mod Attach
pub mod Create
pub mod Takeover
pub mod Related
pub mod Frames
pub mod Handover
pub mod Closing
pub mod Retries
use feishu_shadow_agent.Prelude.{
  single, ℕ, zero, suc, ◌+◌, ◌-◌, ◌*◌, String, Bool, true, false, not, ◌&&◌, ◌||◌, Option, none,
  some, List, [], ◌∷◌, ◌++◌, ◌==◌, any, map, if◌then◌else◌, nat_eq, string_eq, option_eq, is_some,
  filter, find?, sort_by, update_where, ltb, leb,
}
use feishu_shadow_agent.Json.{Json, Items, nil, cons, str, arr, obj, Fields, end, field, get}
use feishu_shadow_agent.Types.{
  RouteName, Stamp, instant, TaskRecord, RouteDecision, NormalizedMessage, is_active_task_status,
  MessageProcessingStage, MessageProcessingStatus, ActionRecord, is_send_reply,
}
use feishu_shadow_agent.Store.{Db, MessageRow, TaskMessageRow, find_message}
use feishu_shadow_agent.Store.Index.{equals_text, equals_nat}

-- A row of `tasks`: the record that _task_from_row reads from it, and its other columns.
pub record TaskRow : Type 0 where
  pub task : TaskRecord
  pub last_user_message : Option String
  pub last_agent_reply : Option String
  pub created_at : ℕ
  pub updated_at : ℕ
  pub closed_at : Option ℕ

pub data WatchKey : Type 0 where
  msg_key thread_key user_key : String → WatchKey

pub record WatchKeyRow : Type 0 where
  pub task_id : ℕ
  pub key : WatchKey

-- a row of routing_audits, with its columns; a flag is 0 or 1
pub record RoutingAudit : Type 0 where
  pub id : ℕ
  pub message_id : String
  pub revision : ℕ
  pub task_id : Option ℕ
  pub route : RouteName
  pub route_reason : Option String
  pub candidates_count : ℕ
  pub shortcut_hit : ℕ
  pub router_called : ℕ
  pub matched_by : Option String
  pub target_task_id : Option ℕ
  pub created_at : ℕ

pub record ProcessingRow : Type 0 where
  pub message_id : String
  pub revision : ℕ
  pub task_id : Option ℕ
  pub stage : MessageProcessingStage
  pub status : MessageProcessingStatus
  pub attempt_count : ℕ
  pub last_error : Option String
  pub terminal_reason : Option String
  pub created_at : ℕ
  pub updated_at : ℕ

pub record TaskDb : Type 0 where
  pub store : Db
  pub tasks : List TaskRow
  pub watch_keys : List WatchKeyRow
  pub audits : List RoutingAudit
  pub processing : List ProcessingRow
  pub next_task_id : ℕ
  pub next_audit_id : ℕ

-- What is made of texts: the first name for a short id and its numbered followers, _truncate,
-- _clean_label, _closed_recall_text_patterns, and `lower(text) LIKE pattern`.
pub record Texts : Type 0 where
  pub short_id_base : String → String
  pub numbered : String → ℕ → String
  pub truncate : String → String
  pub clean_label : String → String
  pub closed_recall_text_patterns : String → List String
  pub like : String → String → Bool
  pub result_like : String → Fields → Bool

-- value if value else None, of a text column
abbrev pub given : Option String → Option String
given none = none
given (some s) = if s == "" then none else some s

abbrev pub same_watch_key : WatchKey → WatchKey → Bool
same_watch_key (msg_key a) (msg_key b) = a == b
same_watch_key (thread_key a) (thread_key b) = a == b
same_watch_key (user_key a) (user_key b) = a == b
same_watch_key _ _ = false

abbrev pub has_id : ℕ → TaskRow → Bool
has_id i r = r.task.id == i

abbrev pub task_of : Option TaskRow → Option TaskRecord
task_of none = none
task_of (some r) = some r.task

-- get_task_by_id; `none` is its KeyError
unfoldable pub get_task_by_id : TaskDb → ℕ → Option TaskRecord
get_task_by_id db i = task_of (find? (has_id i) db.tasks)

-- watch_until IS NULL OR julianday(watch_until) > julianday(?)
abbrev pub still_watched : Option Stamp → ℕ → Bool
still_watched none now = true
still_watched (some (instant t)) now = ltb now t
still_watched (some Stamp.unreadable) now = false

-- status = 'watching' and the watch has not ended
abbrev pub is_watching : ℕ → TaskRecord → Bool
is_watching now t = is_active_task_status t.status && still_watched t.watch_until now

-- ORDER BY updated_at DESC, id DESC
abbrev pub newest_first : TaskRow → TaskRow → Bool
newest_first a b =
    ltb b.updated_at a.updated_at || (a.updated_at == b.updated_at && leb b.task.id a.task.id)

abbrev pub active_in : String → ℕ → TaskRow → Bool
active_in chat_id now r = equals_text r.task.chat_id (some chat_id) && is_watching now r.task

-- the rows that a query selects, in its order
unfoldable pub selected : (TaskRow → Bool) → List TaskRow → List TaskRecord
selected p rows = map (λ (r : TaskRow). r.task) (sort_by newest_first (filter p rows))

unfoldable pub get_active_tasks_for_chat : TaskDb → String → ℕ → List TaskRecord
unfolding selected
get_active_tasks_for_chat db chat_id now = selected (active_in chat_id now) db.tasks

abbrev pub watches : List WatchKeyRow → WatchKey → TaskRow → Bool
watches keys k r = any (λ (w : WatchKeyRow). w.task_id == r.task.id && same_watch_key w.key k) keys

unfoldable pub get_active_tasks_by_watch_key : TaskDb → String → WatchKey → ℕ → List TaskRecord
unfolding selected
get_active_tasks_by_watch_key db chat_id k now =
    selected (λ (r : TaskRow). active_in chat_id now r && watches db.watch_keys k r) db.tasks

-- SELECT task_id FROM task_messages WHERE message_id = ? ORDER BY task_id
unfoldable pub find_task_ids_for_message : TaskDb → String → List ℕ
find_task_ids_for_message db message_id = sort_by leb (
    map (λ (t : TaskMessageRow). t.task_id)
      (filter (λ (t : TaskMessageRow). t.message_id == message_id) db.store.task_messages))

abbrev latest_of : Option Stamp → Option ℕ → Option ℕ
latest_of (some (instant t)) none = some t
latest_of (some (instant t)) (some u) = if ltb t u then some u else some t
latest_of _ best = best

abbrev from_sender : String → String → Option MessageRow → Option Stamp
from_sender sender_id exclude none = none
from_sender sender_id exclude (some m) =
    if equals_text m.sender_id (some sender_id) && not (m.message_id == exclude)
    then m.sent_at
    else none

-- get_latest_task_sender_message_sent_at, as the instant that the router parses it to
unfoldable pub latest_task_sender_sent_at :
    ℕ → String → String → List TaskMessageRow → List MessageRow → Option ℕ
latest_task_sender_sent_at task_id sender_id exclude [] messages = none
latest_task_sender_sent_at task_id sender_id exclude (t ∷ ts) messages =
    let later = latest_task_sender_sent_at task_id sender_id exclude ts messages in
    if t.task_id == task_id
    then latest_of (from_sender sender_id exclude (find_message t.message_id messages)) later
    else later

-- child == message_id
abbrev is_text : String → Json → Bool
is_text m (str s) = s == m
is_text m _ = false

unfoldable mutual
  -- _message_ref_matches
  pub message_ref_matches : List String → String → Json → Bool
  message_ref_matches keys m (obj d) = fields_match keys m d
  message_ref_matches keys m (arr xs) = items_match keys m xs
  message_ref_matches keys m _ = false

  pub fields_match : List String → String → Fields → Bool
  fields_match keys m end = false
  fields_match keys m (field k v d) =
      any (λ (x : String). x == k) keys && is_text m v
      || (message_ref_matches keys m v || fields_match keys m d)

  pub items_match : List String → String → Items → Bool
  items_match keys m nil = false
  items_match keys m (cons v xs) = message_ref_matches keys m v || items_match keys m xs

abbrev data_matches : String → Option Json → Bool
data_matches m (some (obj d)) = message_ref_matches ("message_id" ∷ "messageId" ∷ []) m (obj d)
data_matches m _ = false

-- _action_result_refs_message
unfoldable pub action_result_refs_message : Fields → String → Bool
unfolding message_ref_matches
action_result_refs_message result m =
    message_ref_matches ("sent_message_id" ∷ "sentMessageId" ∷ []) m (obj result)
    || data_matches m (get "data" result)

abbrev refers : Texts → String → ActionRecord → Bool
refers texts m a =
    is_send_reply a.kind && (texts.result_like m a.result && action_result_refs_message a.result m)

-- the tasks of these actions, each once
unfoldable pub tasks_of_actions : List TaskRow → List ActionRecord → List TaskRecord
tasks_of_actions rows [] = []
tasks_of_actions rows (a ∷ rest) =
    let more = tasks_of_actions rows rest in
    elim (find? (λ (r : TaskRow). equals_nat a.task_id (some r.task.id)) rows) [
      | none ↦ more
      | some r ↦ if any (λ (t : TaskRecord). t.id == r.task.id) more then more else r.task ∷ more
    ]

-- find_task_for_sent_action_message
unfoldable pub find_task_for_sent_action_message : Texts → TaskDb → String → Option TaskRecord
unfolding tasks_of_actions action_result_refs_message
find_task_for_sent_action_message texts db m =
    single (tasks_of_actions db.tasks (filter (refers texts m) db.store.actions))
