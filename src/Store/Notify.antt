-- ===== src/Store/Notify.antt =====
-- store/sqlite_store.py: how a notification of the owner is queued, once for each dedupe key. The
-- digest of the key (json.dumps and SHA-256) is a parameter.
use feishu_shadow_agent.Prelude.{
  ℕ, suc, String, Bool, not, ◌&&◌, Option, none, some, [], ◌∷◌, ◌++◌, ◌==◌, any, if◌then◌else◌,
  nat_eq, string_eq, find?, update_where,
}
use feishu_shadow_agent.Json.{Fields, end, get_or_null, nonempty_text}
use feishu_shadow_agent.Types.{
  owner_notification, ActionStatus, ActionRecord, ExecutionMode, is_failed, is_send_reply,
}
use feishu_shadow_agent.Store.{Db, bind_payload, payload_source_message_id, payload_source_revision}

-- What the digest is made of: the mode with the dedupe key, or with the task and the whole payload.
pub data NoticeSeed : Type 0 where
  dedupe : ExecutionMode → String → NoticeSeed
  whole : ExecutionMode → Option ℕ → Fields → NoticeSeed

abbrev seed_of : ExecutionMode → Option ℕ → Fields → Option String → NoticeSeed
seed_of mode task_id payload none = whole mode task_id payload
seed_of mode task_id payload (some key) = dedupe mode key

abbrev pub notice_seed : ExecutionMode → Option ℕ → Fields → NoticeSeed
notice_seed mode task_id payload =
    seed_of mode task_id payload (nonempty_text (get_or_null "dedupe_key" payload))

abbrev keep_if_none : Option ℕ → Option ℕ → Option ℕ
keep_if_none none old = old
keep_if_none (some n) old = some n

pub record NewNotice : Type 0 where
  pub idempotency_key : String
  pub task_id : Option ℕ
  pub approval_id : Option ℕ
  pub payload : Fields
  pub execution_mode : ExecutionMode

abbrev pub notice_row : NewNotice → ℕ → ℕ → ActionRecord
notice_row n id now = record {
  id = id;
  idempotency_key = n.idempotency_key;
  task_id = n.task_id;
  approval_id = n.approval_id;
  kind = owner_notification;
  status = ActionStatus.pending;
  target_message_id = none;
  source_message_id = payload_source_message_id n.payload;
  source_revision = payload_source_revision n.payload;
  execution_mode = n.execution_mode;
  payload = n.payload;
  result = end;
  created_at = now;
  updated_at = now;
}

abbrev pub revive_notice : NewNotice → ℕ → ActionRecord → ActionRecord
revive_notice n now r = record r {
  status = ActionStatus.pending;
  approval_id = keep_if_none n.approval_id r.approval_id;
  source_message_id = payload_source_message_id n.payload;
  source_revision = payload_source_revision n.payload;
  execution_mode = n.execution_mode;
  payload = n.payload;
  result = end;
  updated_at = now;
}

abbrev pub failed_at : ℕ → ActionRecord → Bool
failed_at i r = r.id == i && is_failed r.status

-- The id of the notification; `none` is the RuntimeError that another kind of action holds the key.
unfoldable pub existing_notice : Db → ℕ → NewNotice → Option ActionRecord → Option ℕ × Db
existing_notice db now n none = (none, db)
existing_notice db now n (some row) =
    if is_failed row.status
    then (
      some row.id,
      record db { actions = update_where (failed_at row.id) (revive_notice n now) db.actions },
    )
    else (some row.id, db)

-- the row that INSERT OR IGNORE runs into
abbrev pub notice_with_key : String → ActionRecord → Bool
notice_with_key key r = r.idempotency_key == key && not (is_send_reply r.kind)

-- _create_owner_notification_action_locked, for a given key
unfoldable pub queue_notice : Db → ℕ → NewNotice → Option ℕ × Db
unfolding existing_notice
queue_notice db now n =
    if any (λ (r : ActionRecord). r.idempotency_key == n.idempotency_key) db.actions
    then existing_notice db now n (find? (notice_with_key n.idempotency_key) db.actions)
    else (
      some db.next_action_id,
      record db {
        actions = db.actions ++ notice_row n db.next_action_id now ∷ [];
        next_action_id = suc db.next_action_id;
      },
    )

abbrev bound_payload : Db → Option ℕ → Fields → Fields
bound_payload db none payload = payload
bound_payload db (some task_id) payload = bind_payload db task_id payload

module _ (digest : NoticeSeed → String) where
  abbrev pub new_notice : Db → Option ℕ → Fields → Option ℕ → ExecutionMode → NewNotice
  new_notice db task_id payload approval_id mode =
      let bound = bound_payload db task_id payload in
      record {
        idempotency_key = digest (notice_seed mode task_id bound);
        task_id = task_id;
        approval_id = approval_id;
        payload = bound;
        execution_mode = mode;
      }

  -- create_owner_notification_action
  unfoldable pub create_owner_notification_action :
      Db → Option ℕ → Fields → ExecutionMode → ℕ → Option ℕ × Db
  create_owner_notification_action db task_id payload mode now =
      queue_notice db now (new_notice db task_id payload none mode)
