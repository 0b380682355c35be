-- ===== src/Tasks/Attach.antt =====
-- store/sqlite_store.py: how a message joins a task.
use feishu_shadow_agent.Prelude.{
  ℕ, String, Bool, ◌&&◌, Option, none, some, List, [], ◌∷◌, ◌++◌, ◌==◌, any, if◌then◌else◌, nat_eq,
  string_eq, update_where, true, false,
}
use feishu_shadow_agent.Types.{
  Stamp, TaskRecord, RouteDecision, attach_task, ignore, NormalizedMessage,
}
use feishu_shadow_agent.Store.{TaskMessageRow}
use feishu_shadow_agent.Tasks.{
  TaskDb, TaskRow, Texts, WatchKey, msg_key, thread_key, user_key, WatchKeyRow, same_watch_key,
  given, has_id,
}
use feishu_shadow_agent.Tasks.Audits.{record_routing_audit}

abbrev pub links : ℕ → String → TaskMessageRow → Bool
links task_id m t = t.task_id == task_id && t.message_id == m

-- _add_task_message: INSERT OR IGNORE
unfoldable pub add_task_message : ℕ → String → String → TaskDb → TaskDb
add_task_message task_id m role db =
    if any (links task_id m) db.store.task_messages then db else record db {
      store = record db.store {
        task_messages =
            db.store.task_messages
            ++ record { task_id = task_id; message_id = m; role = role } ∷ [];
      };
    }

abbrev pub has_key : ℕ → WatchKey → WatchKeyRow → Bool
has_key task_id k w = w.task_id == task_id && same_watch_key w.key k

-- _add_watch_keys: INSERT OR IGNORE of each key
unfoldable pub add_watch_keys : ℕ → List WatchKey → TaskDb → TaskDb
add_watch_keys task_id [] db = db
add_watch_keys task_id (k ∷ ks) db = add_watch_keys task_id ks (
    if any (has_key task_id k) db.watch_keys
    then db
    else record db { watch_keys = db.watch_keys ++ record { task_id = task_id; key = k } ∷ [] })

abbrev pub keys_of : (String → WatchKey) → Option String → List WatchKey
keys_of f none = []
keys_of f (some s) = f s ∷ []

-- _watch_keys_for_message, in the order that `sorted` puts them
unfoldable pub watch_keys_for_message : NormalizedMessage → List WatchKey
watch_keys_for_message m =
    msg_key m.message_id ∷ keys_of thread_key (given m.thread_id)
    ++ keys_of user_key (given m.sender_id)

-- _agent_reply_watch_keys_for_message
unfoldable pub agent_reply_watch_keys_for_message : NormalizedMessage → List WatchKey
agent_reply_watch_keys_for_message m = msg_key m.message_id ∷ keys_of thread_key (given m.thread_id)

abbrev pub touch_user : Texts → NormalizedMessage → Stamp → ℕ → TaskRow → TaskRow
touch_user texts m watch_until now r = record r {
  task = record r.task { watch_until = some watch_until };
  last_user_message = some (texts.truncate m.text);
  updated_at = now;
}

abbrev pub touch_agent : Texts → NormalizedMessage → Stamp → ℕ → TaskRow → TaskRow
touch_agent texts m watch_until now r = record r {
  task = record r.task { watch_until = some watch_until };
  last_agent_reply = some (texts.truncate m.text);
  updated_at = now;
}

-- UPDATE tasks SET ... WHERE id = ?
abbrev pub update_task : ℕ → (TaskRow → TaskRow) → TaskDb → TaskDb
update_task i f db = record db { tasks = update_where (has_id i) f db.tasks }

-- _attach_message_to_task
unfoldable pub attach_message_to_task : Texts → ℕ → NormalizedMessage → Stamp → ℕ → TaskDb → TaskDb
unfolding add_task_message add_watch_keys watch_keys_for_message
attach_message_to_task texts i m watch_until now db =
    update_task i (touch_user texts m watch_until now)
      (add_watch_keys i (watch_keys_for_message m) (add_task_message i m.message_id "follow_up" db))

-- _record_agent_message_for_task
unfoldable pub record_agent_message_for_task :
    Texts → ℕ → NormalizedMessage → Stamp → ℕ → TaskDb → TaskDb
unfolding add_task_message add_watch_keys agent_reply_watch_keys_for_message
record_agent_message_for_task texts i m watch_until now db =
    update_task i (touch_agent texts m watch_until now) (
      add_watch_keys i (agent_reply_watch_keys_for_message m)
        (add_task_message i m.message_id "agent_reply" db))

abbrev pub attached : TaskRecord → String → ℕ → String → RouteDecision
attached task reason candidates_count matched_by = record {
  route = attach_task;
  target_task_id = some task.id;
  reason = reason;
  candidates_count = candidates_count;
  shortcut_hit = true;
  router_called = false;
  matched_by = some matched_by;
}

-- attach_message_to_task_and_audit: the decision, with the tables after it
unfoldable pub attach_message_to_task_and_audit :
    Texts
    → TaskRecord
    → NormalizedMessage
    → Stamp
    → ℕ
    → String
    → String
    → ℕ
    → TaskDb
    → RouteDecision × TaskDb
unfolding attach_message_to_task record_routing_audit
attach_message_to_task_and_audit texts task m watch_until count matched_by reason now db =
    let d = attached task reason count matched_by in
    (
      d,
      record_routing_audit m.message_id m.revision d now
          (attach_message_to_task texts task.id m watch_until now db),
    )

abbrev pub sent_by_agent : TaskRecord → RouteDecision
sent_by_agent task = record {
  route = ignore;
  target_task_id = some task.id;
  reason = "self_message";
  candidates_count = 0;
  shortcut_hit = false;
  router_called = false;
  matched_by = some "sent_action";
}

-- record_agent_message_for_task_and_audit
unfoldable pub record_agent_message_for_task_and_audit :
    Texts → TaskRecord → NormalizedMessage → Stamp → ℕ → TaskDb → RouteDecision × TaskDb
unfolding record_agent_message_for_task record_routing_audit
record_agent_message_for_task_and_audit texts task m watch_until now db =
    let d = sent_by_agent task in
    (
      d,
      record_routing_audit m.message_id m.revision d now
          (record_agent_message_for_task texts task.id m watch_until now db),
    )
