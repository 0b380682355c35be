-- ===== src/Tasks/Related.antt =====
-- store/sqlite_store.py: the closed tasks that a new message may be about.
use feishu_shadow_agent.Prelude.{
  ℕ, String, Bool, true, false, ◌&&◌, ◌||◌, Option, none, some, List, [], any, nat_eq, string_eq,
  take, leb,
}
use feishu_shadow_agent.Types.{closed, TaskStatus, NormalizedMessage, TaskRecord}
use feishu_shadow_agent.Store.Index.{equals_text, text_or_blank}
use feishu_shadow_agent.Tasks.{
  TaskDb, TaskRow, Texts, msg_key, thread_key, user_key, given, watches, selected,
}
use feishu_shadow_agent.Tasks.Attach.{links}

abbrev pub is_closed : TaskStatus → Bool
is_closed closed = true
is_closed _ = false

abbrev by_sender : TaskDb → Option String → TaskRow → Bool
by_sender db none r = false
by_sender db (some s) r = watches db.watch_keys (user_key s) r

abbrev by_thread : TaskDb → Option String → TaskRow → Bool
by_thread db none r = false
by_thread db (some s) r =
    equals_text r.task.thread_id (some s) || watches db.watch_keys (thread_key s) r

abbrev by_reply : TaskDb → Option String → TaskRow → Bool
by_reply db none r = false
by_reply db (some s) r =
    any (links r.task.id s) db.store.task_messages || watches db.watch_keys (msg_key s) r

abbrev by_text : Texts → List String → TaskRow → Bool
by_text texts patterns r =
    any
      (λ p.
        texts.like p r.task.task_label
        || (texts.like p (text_or_blank r.last_user_message)
            || texts.like p (text_or_blank r.last_agent_reply)))
      patterns

-- where_related; without a condition there is no row
unfoldable pub is_related : Texts → TaskDb → NormalizedMessage → TaskRow → Bool
is_related texts db m r =
    by_sender db (given m.sender_id) r
    || (by_thread db (given m.thread_id) r
        || (by_reply db (given m.reply_to_message_id) r
            || by_text texts (texts.closed_recall_text_patterns m.text) r))

abbrev pub recently_closed : String → ℕ → TaskRow → Bool
recently_closed chat_id since r =
    equals_text r.task.chat_id (some chat_id) && (is_closed r.task.status && leb since r.updated_at)

abbrev related_in : Texts → TaskDb → NormalizedMessage → ℕ → Option String → List TaskRecord
related_in texts db m since none = []
related_in texts db m since (some chat_id) =
    take 20 (selected (λ r. recently_closed chat_id since r && is_related texts db m r) db.tasks)

-- get_related_closed_tasks, with its limit of 20
unfoldable pub get_related_closed_tasks : Texts → TaskDb → NormalizedMessage → ℕ → List TaskRecord
unfolding is_related selected
get_related_closed_tasks texts db m since = related_in texts db m since (given m.chat_id)
