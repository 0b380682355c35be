-- ===== src/Approvals/Feedback.antt =====
-- store/sqlite_store.py: what an answered approval leaves: the feedback on it, and its own row.
use feishu_shadow_agent.Prelude.{
  ℕ, String, Bool, ◌||◌, Option, none, some, [], ◌∷◌, ◌++◌, ◌==◌, any, if◌then◌else◌, nat_eq,
  string_eq, is_some, update_where, count_where,
}
use feishu_shadow_agent.Json.{Json, null, int, str, Fields, get, get_or_null, put}
use feishu_shadow_agent.Types.{ApprovalOutcome, ApprovalStatus}
use feishu_shadow_agent.Store.{ApprovalRow, payload_send_text}
use feishu_shadow_agent.Store.Fence.{
  approval_pending_at, expire, cancel_for_approval, pending_of_approval,
}
use feishu_shadow_agent.Approvals.{
  ApprovalCommand, ApprovalDb, CommandResult, stale_result, FeedbackRow, Env, Attempt, raised,
  returns, integrity_error, text_or, text_value, with_store,
}

-- note.strip() if it is not blank, else None
abbrev stripped_note : Env → Option String → Option String
stripped_note env none = none
stripped_note env (some s) = if env.strip s == "" then none else some (env.strip s)

-- The values of the row of feedback, with `preview` as the approval's row has it.
abbrev pub feedback_row :
    Env
    → ApprovalCommand
    → ApprovalRow
    → ApprovalOutcome
    → Fields
    → Option String
    → Option String
    → ℕ
    → FeedbackRow
feedback_row env c r outcome payload preview final_reply now = record {
  approval_id = r.id;
  task_id = r.task_id;
  command_id = c.message_id;
  outcome = outcome;
  decision_reason = text_value (get_or_null "decision_reason" payload);
  suggested_reply = text_or (payload_send_text payload) preview;
  final_reply = final_reply;
  feedback_reason = c.feedback_reason;
  note = stripped_note env c.note;
  actor = c.actor;
  execution_mode = c.execution_mode;
  created_at = now;
}

-- approval_id UNIQUE and command_id UNIQUE
abbrev pub clashes : FeedbackRow → FeedbackRow → Bool
clashes n r = r.approval_id == n.approval_id || r.command_id == n.command_id

-- _record_approval_feedback_locked
unfoldable pub record_approval_feedback : FeedbackRow → ApprovalDb → Attempt ApprovalDb
record_approval_feedback row db =
    if any (clashes row) db.feedback
    then raised integrity_error db
    else returns (record db { feedback = db.feedback ++ row ∷ [] })

-- payload.setdefault(key, value)
abbrev set_default : String → Json → Fields → Fields
set_default k v d = if is_some (get k d) then d else put k v d

abbrev int_or_null : Option ℕ → Json
int_or_null none = null
int_or_null (some n) = int n

-- the payload of an approval that is approved or rejected, with the source of its row
unfoldable pub payload_with_source : ApprovalRow → Fields
payload_with_source r = elim r.source_message_id [
  | none ↦ r.payload
  | some m ↦ elim r.source_revision [
    | none ↦ r.payload
    | some n ↦
        set_default "source_revision" (int n) (set_default "source_message_id" (str m) r.payload)
  ]
]

-- the same for /send, which asks for the message only
unfoldable pub payload_to_replace : ApprovalRow → Fields
payload_to_replace r = elim r.source_message_id [
  | none ↦ r.payload
  | some m ↦
      set_default "source_revision" (int_or_null r.source_revision)
        (set_default "source_message_id" (str m) r.payload)
]

-- an approval of an older revision expires, and its pending actions are cancelled
unfoldable pub expire_stale : ApprovalRow → ℕ → ApprovalDb → ApprovalDb
expire_stale r now db =
    let store = db.tasks.store in
    with_store db (record store {
      approvals = update_where (approval_pending_at r.id) (expire now) store.approvals;
      actions = cancel_for_approval r.id now store.actions;
    })

unfoldable pub stale_answer : ApprovalRow → ℕ → ApprovalDb → CommandResult × ApprovalDb
unfolding expire_stale
stale_answer r now db = (
  stale_result r.short_id r.task_id (count_where (pending_of_approval r.id) db.tasks.store.actions),
  expire_stale r now db,
)

abbrev pub approval_with_id : ℕ → ApprovalRow → Bool
approval_with_id i r = r.id == i

abbrev pub resolved : ApprovalStatus → ℕ → ApprovalRow → ApprovalRow
resolved status now r = record r { status = status; resolved_at = some now }

-- UPDATE approvals SET status = ?, resolved_at = ? WHERE id = ?
abbrev pub set_approval : ℕ → (ApprovalRow → ApprovalRow) → ApprovalDb → ApprovalDb
set_approval i f db =
    let store = db.tasks.store in
    with_store db (record store { approvals = update_where (approval_with_id i) f store.approvals })
