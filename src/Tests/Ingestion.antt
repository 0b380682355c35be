-- ===== src/Tests/Ingestion.antt =====
-- A message that is polled again after an edit, and after its recall.
use feishu_shadow_agent.Prelude.{update_where, true, false, none, some, [], ◌∷◌, ◌≡◌, refl, any}
use feishu_shadow_agent.Types.{ActionStatus}
use feishu_shadow_agent.Store.{Db, MessageRow}
use feishu_shadow_agent.Store.Messages.{MessageUpsertResult, upsert_message_revision}
use feishu_shadow_agent.Store.Fence.{
  stale_approval, cancels, fences, invalidate_stale_revision_side_effects,
}
use feishu_shadow_agent.Store.Stale.{fence_leaves_none}
use feishu_shadow_agent.Tasks.{TaskDb}
use feishu_shadow_agent.Ingestion.{Ingestion, finished, ignore_as, process_message, refetch_missing}
use feishu_shadow_agent.Ingestion.Quiet.{recalled_stays_quiet}
use feishu_shadow_agent.Tests.Data.{store, message}
use feishu_shadow_agent.Tests.Routing.{digest, router, edited, tables}

abbrev ingestion : Ingestion
ingestion = record {
  router = router;
  semantic_hash = digest;
  get_messages = λ m. refetch_missing;
  enforce_eligibility = true;
  apply_command = λ m db. db;
  notify_hanging_reply = λ m db. db;
  process = λ m res db. db;
  has_task_processor = true;
  watch_minutes = 60;
  agent_working_dir = none;
  now = 300;
}

-- the row of the message, and the reply to its first revision that waits
abbrev before : TaskDb
before = tables []

abbrev recalled_row : MessageRow
recalled_row = record {
  id = 1;
  message_id = "om_source";
  chat_id = some "oc_chat";
  sender_id = some "ou_user";
  sender_role = message.sender_role;
  sent_at = none;
  text = "";
  revision = 2;
  is_deleted = true;
  semantic_hash = "hash-3";
  hash_history = "hash-1" ∷ "hash-3" ∷ [];
}

abbrev after_recall : TaskDb
after_recall = record before { store = record before.store { messages = recalled_row ∷ [] } }

recalled_stays_quiet_example :
    process_message ingestion message "group_at_me" after_recall
    ≡ (finished (some (ignore_as "message_tombstone")), after_recall)
recalled_stays_quiet_example =
    recalled_stays_quiet ingestion message "group_at_me" after_recall recalled_row refl refl

fence_leaves_none_example :
    let db' =
      (invalidate_stale_revision_side_effects
        (store ActionStatus.sending [])
        "om_source"
        2
        "source_message_deleted"
        300).1 in
    (any (stale_approval "om_source" 2) db'.approvals ≡ false)
    × ((any (cancels "om_source" 2) db'.actions ≡ false)
        × (any (fences "om_source" 2) db'.actions ≡ false))
fence_leaves_none_example =
    fence_leaves_none (store ActionStatus.sending []) "om_source" 2 "source_message_deleted" 300

abbrev stored : MessageUpsertResult
stored = record {
  inserted = false;
  changed = true;
  revision = 2;
  is_deleted = false;
  semantic_hash = "hash-2";
  requires_confirmation = false;
}

abbrev edited_row : MessageRow
edited_row = record recalled_row {
  sent_at = message.sent_at;
  text = "Is it done today?";
  is_deleted = false;
  semantic_hash = "hash-2";
  hash_history = "hash-1" ∷ "hash-2" ∷ [];
}

abbrev edited_store : Db
edited_store = record before.store { messages = edited_row ∷ [] }

edit_is_stored : upsert_message_revision digest edited false before.store ≡ (stored, edited_store)
unfolding upsert_message_revision update_where
edit_is_stored = refl
