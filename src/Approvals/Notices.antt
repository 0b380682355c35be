-- ===== src/Approvals/Notices.antt =====
-- store/sqlite_store.py: what the owner is told of an approval, and of a command that names a task
-- with several pending approvals.
use Prim.Native.String.{◌++◌ as concat}
use feishu_shadow_agent.Prelude.{
  ℕ, String, Bool, false, not, ◌&&◌, ◌||◌, Option, none, some, List, [], ◌∷◌, ◌++◌, ◌==◌, all, map,
  if◌then◌else◌, nat_eq, string_eq, find?,
}
use feishu_shadow_agent.Json.{
  Json, null, bool, int, str, arr, obj, Items, nil, cons, Fields, end, field, get, get_or_null,
  or_else, nonempty_text, of_texts, put, truthy,
}
use feishu_shadow_agent.Types.{ApprovalKind, ChatType, group, p2p, production}
use feishu_shadow_agent.Store.{Db, MessageRow, ApprovalRow, find_message, revision_of}
use feishu_shadow_agent.Store.Notify.{NewNotice, notice_seed, queue_notice}
use feishu_shadow_agent.Tasks.{TaskRow, has_id}
use feishu_shadow_agent.Approvals.{
  Handled, Verb, conflict_result, ApprovalDb, Env, raised, returns, key_in_use, is_json_false,
  joined_text, with_store,
}

abbrev pub copied : String → Fields → Fields → Fields
copied key source payload = elim (get key source) [ none ↦ payload | some v ↦ put key v payload ]

abbrev approve_command : Bool → String → List String
approve_command approvable short_id = if approvable then concat "/approve " short_id ∷ [] else []

abbrev send_command : String → String
send_command task_short_id = joined_text ("/send " ∷ task_short_id ∷ " <final reply>" ∷ [])

abbrev with_commands : Option String → String → Fields → Fields → Fields
with_commands none short_id approval_payload payload = payload
with_commands (some task_short_id) short_id approval_payload payload =
    put "commands"
      (arr (
        of_texts (
          approve_command (not (is_json_false (get_or_null "approvable" approval_payload))) short_id
          ++ (send_command task_short_id ∷ concat "/reject " short_id ∷ []))))
      payload

-- _approval_notification_payload
unfoldable pub approval_notification_payload : Fields → String → Fields → Fields
approval_notification_payload notify_payload short_id approval_payload =
    copied "source_revision" approval_payload (
      copied "source_message_id" approval_payload (
        put "approval_id" (str short_id) (
          with_commands (nonempty_text (get_or_null "task_id" notify_payload)) short_id
            approval_payload notify_payload)))

abbrev kind_text : ApprovalKind → String
kind_text ApprovalKind.send_reply = "send_reply"
kind_text ApprovalKind.tool_action = "tool_action"

abbrev send_commands : ApprovalKind → String → List String
send_commands ApprovalKind.send_reply task_short_id = send_command task_short_id ∷ []
send_commands ApprovalKind.tool_action task_short_id = []

abbrev text_or_null : Option String → Json
text_or_null none = null
text_or_null (some s) = str s

-- _pending_approval_notification_payload
unfoldable pub pending_approval_payload : String → ApprovalRow → Json
pending_approval_payload task_short_id r =
    let approvable = not (is_json_false (get_or_null "approvable" r.payload)) in
    obj (
      field "approval_id" (str r.short_id) (
        field "kind" (str (kind_text r.kind)) (
          field "reason" (or_else (get_or_null "reason" r.payload) (str "")) (
            field "preview" (or_else (text_or_null r.preview) (str "")) (
              field "approvable" (bool approvable) (
                field "commands"
                  (arr (
                    of_texts (
                      approve_command approvable r.short_id
                      ++ (send_commands r.kind task_short_id
                          ++ concat "/reject " r.short_id ∷ []))))
                  end))))))

abbrev items_of : List Json → Items
items_of [] = nil
items_of (x ∷ xs) = cons x (items_of xs)

-- source_pairs, with its repetitions
unfoldable pub source_pairs : List ApprovalRow → List (String × ℕ)
source_pairs [] = []
source_pairs (r ∷ rs) =
    let rest = source_pairs rs in
    elim r.source_message_id [
      | none ↦ rest
      | some m ↦ elim r.source_revision [
        | none ↦ rest
        | some n ↦ (m, (if n == 0 then 1 else n)) ∷ rest
      ]
    ]

abbrev same_pair : String × ℕ → String × ℕ → Bool
same_pair p q = p.0 == q.0 && p.1 == q.1

abbrev with_source : String → ℕ → Fields → Fields
with_source m n payload = put "source_revision" (int n) (put "source_message_id" (str m) payload)

abbrev with_root_source : Option MessageRow → Fields → Fields
with_root_source none payload = payload
with_root_source (some m) payload = with_source m.message_id (revision_of m) payload

-- the one source of the approvals, else that of the task's first message if they have none
abbrev with_sources : List (String × ℕ) → Option MessageRow → Fields → Fields
with_sources [] root payload = with_root_source root payload
with_sources (p ∷ ps) root payload =
    if all (same_pair p) ps then with_source p.0 p.1 payload else payload

abbrev row_value : (MessageRow → Option String) → Option MessageRow → Json
row_value column none = null
row_value column (some m) = text_or_null (column m)

abbrev chat_type_text : Option ChatType → Json
chat_type_text none = null
chat_type_text (some group) = str "group"
chat_type_text (some p2p) = str "p2p"

-- _owner_notification_source_payload, of a task that is there
unfoldable pub owner_notification_source : Env → TaskRow → Option MessageRow → Fields
owner_notification_source env t root = field "task_label" (str t.task.task_label) (
    field "chat_id" (or_else (row_value (λ m. m.chat_id) root) (text_or_null t.task.chat_id)) (
      field "chat_type" (or_else (row_value env.chat_type root) (chat_type_text t.task.chat_type)) (
        field "sender_name" (row_value env.sender_name root) (
          field "sender_id" (row_value (λ m. m.sender_id) root)
            (field "sent_at" (row_value env.sent_at root) end)))))

abbrev any_value : Fields → Bool
any_value end = false
any_value (field k v d) = truthy v || any_value d

-- _owner_notification_message_payload
abbrev owner_notification_message : Option MessageRow → String → Fields
owner_notification_message root fallback =
    field "message_id" (or_else (row_value (λ m. some m.message_id) root) (str fallback))
      (field "text" (or_else (row_value (λ m. some m.text) root) (str "")) end)

abbrev with_incoming : Option String → Option MessageRow → Fields → Fields
with_incoming none root payload = payload
with_incoming (some m) root payload =
    if m == ""
    then payload
    else put "incoming_message" (obj (owner_notification_message root m)) payload

abbrev with_task : Env → Option TaskRow → Option MessageRow → Fields → Fields
with_task env none root payload = payload
with_task env (some t) root payload =
    let source = owner_notification_source env t root in
    with_incoming t.task.root_message_id root
      (if any_value source then put "source" (obj source) payload else payload)

abbrev root_message : Option TaskRow → List MessageRow → Option MessageRow
root_message none messages = none
root_message (some t) messages = elim t.task.root_message_id [
  | none ↦ none
  | some m ↦ if m == "" then none else find_message m messages
]

-- the payload of _create_approval_command_conflict_notification_locked
unfoldable pub conflict_payload : Env → ApprovalDb → ℕ → String → List ApprovalRow → Fields
unfolding pending_approval_payload source_pairs owner_notification_source
conflict_payload env db task_id task_short_id pending =
    let task = find? (has_id task_id) db.tasks.tasks in
    let root = root_message task db.tasks.store.messages in
    with_task env task root (
      with_sources (source_pairs pending) root (
        field "type" (str "approval_command_conflict") (
          field "task_id" (str task_short_id) (
            field "reason" (str "multiple_pending_approvals") (
              field "pending_approval_ids"
                (arr (of_texts (map (λ (r : ApprovalRow). r.short_id) pending)))
                (field "pending_approvals"
                  (arr (items_of (map (pending_approval_payload task_short_id) pending)))
                  (field "message"
                    (str (
                      joined_text (
                        "Multiple pending approvals exist for " ∷ task_short_id
                        ∷ "; use a concrete a_ approval id." ∷ [])))
                    end)))))))

abbrev pub conflict_notice : Env → ApprovalDb → ℕ → String → List ApprovalRow → NewNotice
conflict_notice env db task_id task_short_id pending =
    let payload = conflict_payload env db task_id task_short_id pending in
    record {
      idempotency_key = env.notice_digest (notice_seed production (some task_id) payload);
      task_id = some task_id;
      approval_id = none;
      payload = payload;
      execution_mode = production;
    }

abbrev pub conflict_answer : Verb → String → List ApprovalRow → ApprovalDb → Option ℕ × Db → Handled
conflict_answer verb task_short_id pending db (none, store) =
    raised key_in_use (with_store db store)
conflict_answer verb task_short_id pending db (some id, store) = returns (
  conflict_result verb task_short_id id (map (λ (r : ApprovalRow). r.short_id) pending),
  with_store db store,
)

-- _create_approval_command_conflict_notification_locked
unfoldable pub create_conflict_notification :
    Env → ApprovalDb → Verb → ℕ → String → List ApprovalRow → ℕ → Handled
unfolding conflict_payload
create_conflict_notification env db verb task_id task_short_id pending now =
    conflict_answer verb task_short_id pending db
      (queue_notice db.tasks.store now (conflict_notice env db task_id task_short_id pending))
