-- ===== src/Approvals/Create.antt =====
-- store/sqlite_store.py: create_send_reply_approval.
use feishu_shadow_agent.Prelude.{
  ℕ, suc, ◌+◌, ◌*◌, String, Bool, Option, none, some, List, [], ◌∷◌, ◌++◌, ◌==◌, any, string_eq,
}
use feishu_shadow_agent.Json.{Fields}
use feishu_shadow_agent.Types.{ApprovalKind, ApprovalStatus, ExecutionMode}
use feishu_shadow_agent.Store.{
  Db, ApprovalRow, bind_payload, payload_source_message_id, payload_source_revision,
}
use feishu_shadow_agent.Store.Notify.{NewNotice, notice_seed, queue_notice}
use feishu_shadow_agent.Tasks.Create.{unique_short_id_in_table}
use feishu_shadow_agent.Approvals.{
  ApprovalDb, Env, Attempt, raised, returns, no_short_id, key_in_use, or_raise, ◌>>=◌, joined_text,
  with_store,
}
use feishu_shadow_agent.Approvals.Notices.{approval_notification_payload}

-- _plus_hours, in microseconds
abbrev plus_hours : ℕ → ℕ → ℕ
plus_hours now hours = now + hours * 3_600_000_000

abbrev pub expiry : ℕ → Option ℕ → Option ℕ
expiry now none = none
expiry now (some hours) = some (plus_hours now hours)

abbrev short_id_taken : List ApprovalRow → String → Bool
short_id_taken rows s = any (λ (r : ApprovalRow). r.short_id == s) rows

-- _unique_short_id_in_table, of the approvals
unfoldable pub unique_approval_id : Env → List ApprovalRow → String → Option String
unfolding unique_short_id_in_table
unique_approval_id env rows seed =
    let base = env.short_id_base seed in
    unique_short_id_in_table base (env.numbered base) (short_id_taken rows)

abbrev pub add_approval : ApprovalRow → ApprovalDb → ApprovalDb
add_approval row db =
    let store = db.tasks.store in
    record (with_store db (record store { approvals = store.approvals ++ row ∷ [] })) {
      next_approval_id = suc db.next_approval_id;
    }

abbrev pub new_approval : ℕ → String → ℕ → Fields → String → ℕ → Option ℕ → ApprovalRow
new_approval id short_id task_id payload preview now expires_at = record {
  id = id;
  short_id = short_id;
  task_id = some task_id;
  kind = ApprovalKind.send_reply;
  status = ApprovalStatus.pending;
  payload = payload;
  preview = some preview;
  source_message_id = payload_source_message_id payload;
  source_revision = payload_source_revision payload;
  created_at = now;
  expires_at = expires_at;
  resolved_at = none;
}

abbrev pub approval_notice : Env → ℕ → ApprovalRow → Fields → ExecutionMode → NewNotice
approval_notice env task_id row notify_payload mode =
    let payload = approval_notification_payload notify_payload row.short_id row.payload in
    record {
      idempotency_key = env.notice_digest (notice_seed mode (some task_id) payload);
      task_id = some task_id;
      approval_id = some row.id;
      payload = payload;
      execution_mode = mode;
    }

abbrev pub notified : ApprovalRow → ApprovalDb → Option ℕ × Db → Attempt (ℕ × ApprovalDb)
notified row db (none, store) = raised key_in_use (with_store db store)
notified row db (some id, store) = returns (row.id, with_store db store)

unfoldable pub notify_owner :
    Env
    → ℕ
    → ApprovalRow
    → Option Fields
    → ExecutionMode
    → ℕ
    → ApprovalDb
    → Attempt (ℕ × ApprovalDb)
unfolding approval_notification_payload
notify_owner env task_id row none mode now db = returns (row.id, db)
notify_owner env task_id row (some notify_payload) mode now db =
    notified row db
      (queue_notice db.tasks.store now (approval_notice env task_id row notify_payload mode))

-- create_send_reply_approval
unfoldable pub create_send_reply_approval :
    Env
    → ℕ
    → String
    → Fields
    → Option Fields
    → Option ℕ
    → ExecutionMode
    → ℕ
    → ApprovalDb
    → Attempt (ℕ × ApprovalDb)
unfolding unique_approval_id notify_owner
create_send_reply_approval env task_id preview payload notify_payload hours mode now db = do
  let bound = bind_payload db.tasks.store task_id payload
  short_id ←
      or_raise
        (unique_approval_id env db.tasks.store.approvals
          (joined_text (env.show task_id ∷ ":" ∷ preview ∷ ":" ∷ env.show_instant now ∷ [])))
        no_short_id db
  let row = new_approval db.next_approval_id short_id task_id bound preview now (expiry now hours)
  notify_owner env task_id row notify_payload mode now (add_approval row db)
