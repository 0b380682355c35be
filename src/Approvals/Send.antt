-- ===== src/Approvals/Send.antt =====
-- store/sqlite_store.py: /send, the second part of _apply_approval_command_locked: the owner's own text
-- for a task, with or without an approval that it answers.
use feishu_shadow_agent.Prelude.{
  ℕ, String, Bool, true, false, not, ◌&&◌, Option, none, some, List, [], ◌∷◌, ◌==◌, if◌then◌else◌,
  string_eq, find?,
}
use feishu_shadow_agent.Json.{str, Fields, end, field}
use feishu_shadow_agent.Types.{ApprovalOutcome, ApprovalStatus, suggestion_sent, edited_sent}
use feishu_shadow_agent.Store.{
  ApprovalRow, bind_payload, payload_send_text, payload_source_message_id, payload_source_revision,
  source_payload_is_stale,
}
use feishu_shadow_agent.Tasks.{TaskRow, has_id, given}
use feishu_shadow_agent.Approvals.{
  Handled, needs_target, find_task, requires_text, detached, is_task_id, not_watching,
  target_is_stale, no_short_id, resolve_pending_approval, is_expected_target, answered_result,
  task_is_watching, outcome_not_valid, no_reply_target, disappeared,
  list_pending_send_reply_approvals, joined_text, not_found, is_approval_id, task_not_found,
  ApprovalCommand, ApprovalDb, Attempt, Env, raised, returns, ◌>>=◌, or_raise,
}
use feishu_shadow_agent.Approvals.Create.{add_approval, unique_approval_id, new_approval}
use feishu_shadow_agent.Approvals.Feedback.{
  approval_with_id, feedback_row, payload_to_replace, record_approval_feedback, set_approval,
  stale_answer,
}
use feishu_shadow_agent.Approvals.Notices.{copied, create_conflict_notification}
use feishu_shadow_agent.Approvals.Resolve.{
  create_action, mark_task_watching_after_send, reply_target,
}

-- the approval that the command names, if it names one, and the task to answer in
abbrev pub concrete_target :
    ApprovalCommand
    → ApprovalDb
    → Option ApprovalRow
    → Attempt (Option ApprovalRow × Option TaskRow)
concrete_target c db none = raised not_found db
concrete_target c db (some r) =
    if not (is_expected_target r c.expected_target_binding)
    then raised target_is_stale db
    else elim r.task_id [
      | none ↦ raised detached db
      | some i ↦ returns (some r, find? (has_id i) db.tasks.tasks)
    ]

unfoldable pub send_target :
    ApprovalCommand → ApprovalDb → Attempt (Option ApprovalRow × Option TaskRow)
send_target c db =
    if is_approval_id c.target_id
    then concrete_target c db
        (resolve_pending_approval c.target_id db.tasks.tasks db.tasks.store.approvals)
    else if is_task_id c.target_id
    then returns (none, find_task c.target_id db.tasks.tasks)
    else raised needs_target db

abbrev pub reply_text : ApprovalCommand → String
reply_text c = elim c.final_reply [ none ↦ "" | some s ↦ s ]

abbrev pub owner_payload : String → String → Fields
owner_payload target text = field "reply_target_message_id" (str target) (
    field "text" (str text) (field "identity" (str "user") (field "source" (str "owner_send") end)))

-- the payload that replaces that of an approval, with the approval's source or the task's latest
abbrev pub payload_for : ApprovalDb → ApprovalRow → ℕ → String → String → Fields
payload_for db r task_id target text =
    let original = payload_to_replace r in
    bind_payload db.tasks.store task_id (
      copied "source_revision" original
        (copied "source_message_id" original (owner_payload target text)))

abbrev pub approved_with : Fields → String → ℕ → ApprovalRow → ApprovalRow
approved_with payload text now r = record r {
  status = ApprovalStatus.approved;
  resolved_at = some now;
  payload = payload;
  preview = some text;
  source_message_id = payload_source_message_id payload;
  source_revision = payload_source_revision payload;
}

abbrev pub sent_outcome : String → String → ApprovalOutcome
sent_outcome suggested text =
    if not (suggested == "") && text == suggested then suggestion_sent else edited_sent

-- from the creation of the action on, with the approval approved; `original` is the payload of the
-- suggestion
unfoldable pub send_approved :
    Env → ApprovalCommand → ℕ → String → Fields → Fields → ℕ → String → ℕ → ApprovalDb → Handled
unfolding create_action record_approval_feedback
send_approved env c task_id target original payload approval_id short_id now db = do
  made ← create_action env c task_id target payload approval_id now db
  let watched = mark_task_watching_after_send task_id now made.1
  r ←
      or_raise (find? (approval_with_id approval_id) watched.tasks.store.approvals) disappeared
        watched
  let outcome = sent_outcome (payload_send_text original) (reply_text c)
  after ←
      record_approval_feedback
        (feedback_row env c r outcome original r.preview (some (reply_text c)) now) watched
  returns (answered_result short_id (some task_id) (some made.0) outcome, after)

-- the one pending approval is approved with the owner's text
unfoldable pub send_for_approval :
    Env → ApprovalCommand → ApprovalRow → TaskRow → ℕ → ApprovalDb → Handled
unfolding send_approved stale_answer payload_to_replace
send_for_approval env c r t now db =
    let original = payload_to_replace r in
    if source_payload_is_stale db.tasks.store original then returns (stale_answer r now db) else do
      target ← or_raise (reply_target r.payload) no_reply_target db
      let payload = payload_for db r t.task.id target (reply_text c)
      send_approved env c t.task.id target original payload r.id r.short_id now
          (set_approval r.id (approved_with payload (reply_text c) now) db)

abbrev pub owner_approval : ℕ → String → ℕ → Fields → String → ℕ → ApprovalRow
owner_approval id short_id task_id payload text now =
    record (new_approval id short_id task_id payload text now none) {
      status = ApprovalStatus.approved;
      resolved_at = some now;
    }

-- no approval is pending: the owner's text becomes an approved one
unfoldable pub send_without_approval : Env → ApprovalCommand → TaskRow → ℕ → ApprovalDb → Handled
unfolding send_approved unique_approval_id
send_without_approval env c t now db = do
  short_id ←
      or_raise
        (unique_approval_id env db.tasks.store.approvals
          (joined_text (c.target_id ∷ ":" ∷ reply_text c ∷ ":" ∷ env.show_instant now ∷ [])))
        no_short_id db
  target ← or_raise (given t.task.root_message_id) no_reply_target db
  let payload = bind_payload db.tasks.store t.task.id (owner_payload target (reply_text c))
  let row = owner_approval db.next_approval_id short_id t.task.id payload (reply_text c) now
  send_approved env c t.task.id target end payload row.id short_id now (add_approval row db)

abbrev pub send_pending :
    Env → ApprovalCommand → TaskRow → List ApprovalRow → ℕ → ApprovalDb → Handled
send_pending env c t [] now db = send_without_approval env c t now db
send_pending env c t (r ∷ []) now db = send_for_approval env c r t now db
send_pending env c t (r ∷ (q ∷ rest)) now db =
    create_conflict_notification env db c.verb t.task.id c.target_id (r ∷ (q ∷ rest)) now

abbrev pub pending_for : Option ApprovalRow → TaskRow → ApprovalDb → List ApprovalRow
pending_for (some r) t db = r ∷ []
pending_for none t db = list_pending_send_reply_approvals t.task.id db.tasks.store.approvals

abbrev pub send_in :
    Env → ApprovalCommand → Option ApprovalRow → Option TaskRow → ℕ → ApprovalDb → Handled
send_in env c concrete none now db = raised task_not_found db
send_in env c concrete (some t) now db =
    if not (task_is_watching (some t))
    then raised not_watching db
    else if env.strip (reply_text c) == ""
    then raised requires_text db
    else send_pending env c t (pending_for concrete t db) now db

abbrev pub send_allowed : Option ApprovalOutcome → Bool
send_allowed none = true
send_allowed (some suggestion_sent) = true
send_allowed (some edited_sent) = true
send_allowed (some _) = false

unfoldable pub send_reply_text : Env → ApprovalCommand → ℕ → ApprovalDb → Handled
unfolding send_target send_for_approval send_without_approval create_conflict_notification
send_reply_text env c now db =
    if not (send_allowed c.requested_outcome)
    then raised outcome_not_valid db
    else do found ← send_target c db; send_in env c found.0 found.1 now db
