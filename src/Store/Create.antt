-- ===== src/Store/Create.antt =====
-- store/sqlite_store.py: how an action that sends a reply is created, or a failed one revived. The
-- idempotency key's digest (json.dumps and SHA-256) is a parameter.
use feishu_shadow_agent.Prelude.{
  ℕ, suc, String, Bool, true, not, ◌&&◌, ◌||◌, Option, none, some, List, [], ◌∷◌, ◌++◌, ◌==◌, any,
  if◌then◌else◌, nat_eq, string_eq, option_eq, is_some, filter, find?, sort_by, update_where, ltb,
  leb,
}
use feishu_shadow_agent.Json.{Json, str, int, arr, Fields, end, get_or_null, or_else, put}
use feishu_shadow_agent.Types.{
  send_reply, ActionStatus, ActionRecord, ExecutionMode, is_failed, is_sent, is_send_reply,
  same_mode,
}
use feishu_shadow_agent.Store.{
  Db, bind_payload, payload_send_text, payload_source_message_id, payload_source_revision,
}
use feishu_shadow_agent.Store.Recovery.{result_warnings, text_items}
use feishu_shadow_agent.Store.Index.{
  ReplyKey, equals_nat, equals_text, has_active_send_reply_action, violates_index,
}

-- What the digest of _action_idempotency_key is made of.
pub record KeySeed : Type 0 where
  pub task_id : ℕ
  pub target_message_id : String
  pub text : Json
  pub source : Json
  pub source_message_id : Json
  pub source_revision : Json
  pub execution_mode : ExecutionMode

abbrev key_seed : ℕ → String → Fields → ExecutionMode → KeySeed
key_seed task_id target payload mode = record {
  task_id = task_id;
  target_message_id = target;
  text =
      or_else (get_or_null "text" payload) (or_else (get_or_null "composed_text" payload) (str ""));
  source = or_else (get_or_null "source" payload) (str "");
  source_message_id = or_else (get_or_null "source_message_id" payload) (str "");
  source_revision = or_else (get_or_null "source_revision" payload) (int 0);
  execution_mode = mode;
}

abbrev some_text : Option String → Option String
some_text none = none
some_text (some s) = if s == "" then none else some s

abbrev or_option {ℓ} : {A : Type ℓ} → Option A → Option A → Option A
or_option none b = b
or_option (some a) b = some a

-- _action_source_binding
abbrev pub binding_message : ActionRecord → Option String
binding_message r = or_option (some_text r.source_message_id) (payload_source_message_id r.payload)

abbrev pub binding_revision : ActionRecord → Option ℕ
binding_revision r = or_option r.source_revision (payload_source_revision r.payload)

-- What the queries ask of a reply: its task, target, text and source.
pub record Wanted : Type 0 where
  pub task_id : ℕ
  pub target_message_id : String
  pub text : String
  pub source_message_id : Option String
  pub source_revision : Option ℕ

abbrev pub wanted_of : ℕ → String → Fields → Wanted
wanted_of task_id target payload = record {
  task_id = task_id;
  target_message_id = target;
  text = payload_send_text payload;
  source_message_id = payload_source_message_id payload;
  source_revision = payload_source_revision payload;
}

-- _sent_send_reply_rows
abbrev pub is_sent_reply_row : Wanted → ActionRecord → Bool
is_sent_reply_row w r =
    equals_nat r.task_id (some w.task_id)
    && (equals_text r.target_message_id (some w.target_message_id)
        && (is_send_reply r.kind && (is_sent r.status && payload_send_text r.payload == w.text)))

abbrev pub same_source : Wanted → ActionRecord → Bool
same_source w r =
    if is_some w.source_message_id && is_some w.source_revision
    then binding_message r == w.source_message_id && binding_revision r == w.source_revision
    else true

-- _has_sent_send_reply_action_for_payload
unfoldable pub has_sent_send_reply_action : Wanted → List ActionRecord → Bool
has_sent_send_reply_action w rows =
    not (w.text == "") && any (λ r. is_sent_reply_row w r && same_source w r) rows

-- _has_identical_sent_text_on_other_revision
unfoldable pub has_identical_sent_text : Wanted → List ActionRecord → Bool
has_identical_sent_text w rows =
    not (w.text == "")
    && (is_some w.source_message_id
        && is_some w.source_revision
        && any
            (λ r.
              is_sent_reply_row w r
              && (binding_message r == w.source_message_id
                  && not (binding_revision r == w.source_revision)))
            rows)

-- _append_payload_warning
unfoldable pub append_payload_warning : Fields → String → Fields
append_payload_warning payload w =
    let items = result_warnings (get_or_null "warnings" payload) in
    put "warnings" (arr (text_items (if any (λ x. x == w) items then items else items ++ w ∷ [])))
      payload

abbrev pub failed_order : ActionRecord → ActionRecord → Bool
failed_order a b = ltb b.updated_at a.updated_at || (a.updated_at == b.updated_at && leb b.id a.id)

abbrev pub is_failed_reply_row : Wanted → ExecutionMode → ActionRecord → Bool
is_failed_reply_row w mode r =
    equals_nat r.task_id (some w.task_id)
    && (equals_text r.target_message_id (some w.target_message_id)
        && (is_send_reply r.kind && (is_failed r.status && same_mode r.execution_mode mode)))

-- _find_failed_send_reply_action_for_payload
unfoldable pub find_failed_send_reply_action :
    Wanted → ExecutionMode → List ActionRecord → Option ActionRecord
find_failed_send_reply_action w mode rows =
    if w.text == ""
    then none
    else find? (λ (r : ActionRecord). payload_send_text r.payload == w.text)
        (sort_by failed_order (filter (is_failed_reply_row w mode) rows))

-- The answer of a creation: an action's id, no action, or the index's error out of a revival.
pub data Created : Type 0 where
  created : ℕ → Created
  nothing integrity_error : Created

-- The arguments of a creation, with the payload already bound to its source.
pub record NewReply : Type 0 where
  pub wanted : Wanted
  pub payload : Fields
  pub approval_id : Option ℕ
  pub execution_mode : ExecutionMode
  pub idempotency_key : String

abbrev pub reply_key_of_new : NewReply → ReplyKey
reply_key_of_new n = record {
  task_id = n.wanted.task_id;
  target_message_id = n.wanted.target_message_id;
  execution_mode = n.execution_mode;
  source_message_id = n.wanted.source_message_id;
  source_revision = n.wanted.source_revision;
}

abbrev pub revived : NewReply → ℕ → ActionRecord → ActionRecord
revived n now r = record r {
  task_id = some n.wanted.task_id;
  approval_id = n.approval_id;
  status = ActionStatus.pending;
  target_message_id = some n.wanted.target_message_id;
  source_message_id = n.wanted.source_message_id;
  source_revision = n.wanted.source_revision;
  execution_mode = n.execution_mode;
  payload = n.payload;
  result = end;
  updated_at = now;
}

abbrev pub failed_at : ℕ → ActionRecord → Bool
failed_at i r = r.id == i && is_failed r.status

-- an active reply in the way, or _revive_failed_send_reply_action
unfoldable pub revive : Db → ℕ → NewReply → ActionRecord → Created × Db
revive db now n row =
    if has_active_send_reply_action (reply_key_of_new n) row.id db.actions
    then (nothing, db)
    else if violates_index (revived n now row) db.actions
    then (integrity_error, db)
    else (
      created row.id,
      record db { actions = update_where (failed_at row.id) (revived n now) db.actions },
    )

abbrev pub new_row : NewReply → ℕ → ℕ → ActionRecord
new_row n id now = record {
  id = id;
  idempotency_key = n.idempotency_key;
  task_id = some n.wanted.task_id;
  approval_id = n.approval_id;
  kind = send_reply;
  status = ActionStatus.pending;
  target_message_id = some n.wanted.target_message_id;
  source_message_id = n.wanted.source_message_id;
  source_revision = n.wanted.source_revision;
  execution_mode = n.execution_mode;
  payload = n.payload;
  result = end;
  created_at = now;
  updated_at = now;
}

abbrev pub key_taken : String → ActionRecord → Bool
key_taken key r = r.idempotency_key == key

-- after an IntegrityError: the reply that holds the idempotency key is revived if it failed
unfoldable pub insert_conflict : Db → ℕ → NewReply → Option ActionRecord → Created × Db
insert_conflict db now n none = (nothing, db)
insert_conflict db now n (some row) =
    if is_failed row.status then revive db now n row else (nothing, db)

unfoldable pub insert_reply : Db → ℕ → NewReply → Created × Db
insert_reply db now n =
    let row = new_row n db.next_action_id now in
    if any (key_taken n.idempotency_key) db.actions || violates_index row db.actions
    then insert_conflict db now n (
        find? (λ (r : ActionRecord). key_taken n.idempotency_key r && is_send_reply r.kind)
          db.actions)
    else (
      created db.next_action_id,
      record db { actions = db.actions ++ row ∷ []; next_action_id = suc db.next_action_id },
    )

-- a failed reply with the same text is revived; else a new row is inserted
unfoldable pub create_failed : Db → ℕ → NewReply → Option ActionRecord → Created × Db
create_failed db now n (some row) = revive db now n row
create_failed db now n none =
    if has_active_send_reply_action (reply_key_of_new n) 0 db.actions
    then (nothing, db)
    else insert_reply db now n

-- the rest of _create_send_reply_action_locked, with the payload bound and stamped
unfoldable pub create_checked : Db → ℕ → NewReply → Created × Db
create_checked db now n =
    if has_sent_send_reply_action n.wanted db.actions
    then (nothing, db)
    else create_failed db now n (find_failed_send_reply_action n.wanted n.execution_mode db.actions)

module _ (digest : KeySeed → String) where
  -- _create_send_reply_action_locked binds the payload (once more) and stamps it
  abbrev pub new_reply : Db → ℕ → String → Fields → Option ℕ → ExecutionMode → NewReply
  new_reply db task_id target payload approval_id mode =
      let bound = bind_payload db task_id payload in
      let stamped =
        if has_identical_sent_text (wanted_of task_id target bound) db.actions
        then append_payload_warning bound "identical_correction_text"
        else bound in
      record {
        wanted = wanted_of task_id target bound;
        payload = stamped;
        approval_id = approval_id;
        execution_mode = mode;
        idempotency_key = digest (key_seed task_id target stamped mode);
      }

  -- create_send_reply_action
  unfoldable pub create_send_reply_action :
      Db → ℕ → String → Fields → Option ℕ → ExecutionMode → ℕ → Created × Db
  create_send_reply_action db task_id target payload approval_id mode now =
      create_checked db now
        (new_reply db task_id target (bind_payload db task_id payload) approval_id mode)
