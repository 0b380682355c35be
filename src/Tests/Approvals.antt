-- ===== src/Tests/Approvals.antt =====
-- A draft that the owner approves, rejects or answers himself.
use feishu_shadow_agent.Store.Fence.{expire_approvals, expire_pending_approvals}
use feishu_shadow_agent.Prelude.{sort_by, ◌≡◌, find?, none, some, [], ◌∷◌, refl}
use feishu_shadow_agent.Json.{get, Fields, field, end, str, int}
use feishu_shadow_agent.Types.{
  ApprovalOutcome, ApprovalKind, ApprovalStatus, production, suggestion_sent, no_send_end_task,
}
use feishu_shadow_agent.Store.{payload_source_revision, source_payload_is_stale, ApprovalRow}
use feishu_shadow_agent.Approvals.{
  missing_text, with_store, ◌>>=◌, resolve_pending_approval, has_prefix, error_result, returns,
  CommandStatus, raised, Handled, ApprovalDb, ApprovalCommand, Env, Verb, approve, reject, send,
}
use feishu_shadow_agent.Tests.Routing.{tables, watched}
use feishu_shadow_agent.Approvals.Rejected.{rejected_task-IsOver, IsOver}
use feishu_shadow_agent.Approvals.Authority.{reply-IsAuthorized, IsAuthorized}
use feishu_shadow_agent.Approvals.Command.{
  command_row, record_command, expire_before_command, apply_approval_command,
  apply_approval_command_locked,
}
use feishu_shadow_agent.Approvals.Steps.{expires, answers, run_steps}
use feishu_shadow_agent.Approvals.Feedback.{resolved, set_approval, approval_with_id}
use feishu_shadow_agent.Approvals.Settled.{settled_approval_stays}
use feishu_shadow_agent.Approvals.Once.{raised_is_rolled_back, command_is_applied_once}
use feishu_shadow_agent.Store.{bind_payload}
use feishu_shadow_agent.Json.{put}
use feishu_shadow_agent.Store.Create.{
  create_checked, has_sent_send_reply_action, create_failed, find_failed_send_reply_action,
  insert_reply, has_identical_sent_text,
}
use feishu_shadow_agent.Prelude.{update_where, insert_by}
use feishu_shadow_agent.Store.Index.{has_active_send_reply_action, violates_index}
use feishu_shadow_agent.Approvals.Feedback.{
  payload_with_source, record_approval_feedback, expire_stale, stale_answer,
}
use feishu_shadow_agent.Approvals.Resolve.{
  action_created, answer_approval, approve_or_reject, approve_reply, create_action,
  close_task_after_reject, end_after_reject, reject_approval,
}
use feishu_shadow_agent.Tasks.Takeover.{cancel_for_approvals}
use feishu_shadow_agent.Approvals.Send.{send_for_approval}
use feishu_shadow_agent.Approvals.Suggested.{sent_over_preview, Suggests}

abbrev env : Env
env = record {
  strip = λ s. s;
  digest = λ seed. "digest";
  notice_digest = λ seed. "notice";
  short_id_base = λ s. "a_new";
  numbered = λ s n. "a_more";
  show = λ n. "3";
  show_instant = λ n. "now";
  chat_type = λ m. some "group";
  sender_name = λ m. none;
  sent_at = λ m. none;
}

abbrev draft_payload : Fields
draft_payload = field "reply_target_message_id" (str "om_source") (
    field "text" (str "Done.")
      (field "source_message_id" (str "om_source") (field "source_revision" (int 1) end)))

abbrev draft : ApprovalRow
draft = record {
  id = 1;
  short_id = "a_1";
  task_id = some 3;
  kind = ApprovalKind.send_reply;
  status = ApprovalStatus.pending;
  payload = draft_payload;
  preview = some "Done.";
  source_message_id = some "om_source";
  source_revision = some 1;
  created_at = 20;
  expires_at = some 1000;
  resolved_at = none;
}

abbrev before : ApprovalDb
before = record {
  tasks = record (tables (watched ∷ [])) {
    store = record (tables (watched ∷ [])).store { approvals = draft ∷ []; actions = [] };
  };
  commands = [];
  feedback = [];
  next_approval_id = 2;
}

abbrev command : Verb → ApprovalCommand
command verb = record {
  message_id = "om_command";
  command = "/approve a_1";
  verb = verb;
  target_id = "a_1";
  final_reply = some "Done today.";
  keep_watching_until = none;
  actor = "owner";
  feedback_reason = none;
  note = none;
  execution_mode = production;
  requested_outcome = none;
  expected_target_binding = none;
}

abbrev tables_after : Handled → ApprovalDb
tables_after (raised e written) = written
tables_after (returns x) = x.1

-- what the handler of a command leaves
abbrev handled : Verb → ApprovalDb
handled verb = tables_after (apply_approval_command_locked env (command verb) 30 before)

reply-IsAuthorized_example : IsAuthorized (command approve) before (handled approve) "a_1" 3 8
unfolding apply_approval_command_locked has_prefix resolve_pending_approval source_payload_is_stale
    get payload_source_revision ◌>>=◌ create_checked has_sent_send_reply_action bind_payload put
    create_failed find_failed_send_reply_action sort_by has_active_send_reply_action insert_reply
    violates_index payload_with_source record_approval_feedback action_created answer_approval
    approve_or_reject approve_reply create_action has_identical_sent_text close_task_after_reject
    end_after_reject reject_approval cancel_for_approvals expire_stale stale_answer update_where
    insert_by
reply-IsAuthorized_example =
    reply-IsAuthorized env (command approve) 30 before (handled approve) "a_1" 3 8 suggestion_sent
      refl

rejected_task-IsOver_example : IsOver before (handled reject) "a_1" 3
unfolding apply_approval_command_locked has_prefix resolve_pending_approval source_payload_is_stale
    get payload_source_revision ◌>>=◌ create_checked has_sent_send_reply_action bind_payload put
    create_failed find_failed_send_reply_action sort_by has_active_send_reply_action insert_reply
    violates_index payload_with_source record_approval_feedback action_created answer_approval
    approve_or_reject approve_reply create_action has_identical_sent_text close_task_after_reject
    end_after_reject reject_approval cancel_for_approvals expire_stale stale_answer update_where
    insert_by
rejected_task-IsOver_example =
    rejected_task-IsOver env (command reject) 30 before (handled reject) "a_1" 3 no_send_end_task
      refl

-- an approved draft is answered once more after it was expected to expire
command_is_applied_once_example :
    (let first = apply_approval_command env (command approve) 30 before in
      let since = run_steps env (expires 2000 none ∷ []) first.1 in
      apply_approval_command env (command approve) 2001 since
      ≡ ((CommandStatus.duplicate, first.0.1), expire_before_command (command approve) 2001 since))
command_is_applied_once_example =
    command_is_applied_once env (command approve) 30 2001 (expires 2000 none ∷ []) before

-- a draft with gaps, which the owner cannot approve as it is
abbrev gaps : ApprovalRow
gaps = record draft {
  payload = field "reply_target_message_id" (str "om_source") end;
  preview = some "Ready on <day>.";
}

abbrev with_gaps : ApprovalDb
with_gaps = with_store before (record before.tasks.store { approvals = gaps ∷ [] })

-- what the handler raises has the approval as approved
gaps_are_written :
    apply_approval_command_locked env (command approve) 30 with_gaps
    ≡ raised missing_text (set_approval 1 (resolved ApprovalStatus.approved 30) with_gaps)
unfolding apply_approval_command_locked has_prefix resolve_pending_approval source_payload_is_stale
    get payload_source_revision ◌>>=◌ create_checked has_sent_send_reply_action bind_payload put
    create_failed find_failed_send_reply_action sort_by has_active_send_reply_action insert_reply
    violates_index payload_with_source record_approval_feedback action_created answer_approval
    approve_or_reject approve_reply create_action has_identical_sent_text close_task_after_reject
    end_after_reject reject_approval cancel_for_approvals expire_stale stale_answer update_where
    insert_by
gaps_are_written = refl

-- its approval raises after the row was written: nothing is left of the write
raised_is_rolled_back_example : apply_approval_command env (command approve) 30 with_gaps ≡ (
  (CommandStatus.failed, error_result missing_text),
  record_command
      (command_row (command approve) CommandStatus.failed (error_result missing_text) 30)
      (expire_before_command (command approve) 30 with_gaps),
)
unfolding apply_approval_command_locked has_prefix resolve_pending_approval source_payload_is_stale
    get payload_source_revision ◌>>=◌ create_checked has_sent_send_reply_action bind_payload put
    create_failed find_failed_send_reply_action sort_by has_active_send_reply_action insert_reply
    violates_index payload_with_source record_approval_feedback action_created answer_approval
    approve_or_reject approve_reply create_action has_identical_sent_text close_task_after_reject
    end_after_reject reject_approval cancel_for_approvals expire_stale stale_answer update_where
    insert_by expire_before_command apply_approval_command expire_pending_approvals expire_approvals
raised_is_rolled_back_example =
    raised_is_rolled_back env (command approve) 30 with_gaps missing_text refl refl

abbrev rejected : ApprovalRow
rejected = record draft { status = ApprovalStatus.rejected; resolved_at = some 30 }

-- after its rejection, neither a later command nor the time changes the approval
settled_approval_stays_example :
    find?
      (approval_with_id 1)
      (run_steps env
        (answers (command approve) 40 ∷ expires 2000 none ∷ [])
        (handled reject)).tasks.store.approvals
    ≡ some rejected
unfolding apply_approval_command_locked has_prefix resolve_pending_approval source_payload_is_stale
    get payload_source_revision ◌>>=◌ create_checked has_sent_send_reply_action bind_payload put
    create_failed find_failed_send_reply_action sort_by has_active_send_reply_action insert_reply
    violates_index payload_with_source record_approval_feedback action_created answer_approval
    approve_or_reject approve_reply create_action has_identical_sent_text close_task_after_reject
    end_after_reject reject_approval cancel_for_approvals expire_stale stale_answer update_where
    insert_by
settled_approval_stays_example =
    settled_approval_stays env (answers (command approve) 40 ∷ expires 2000 none ∷ [])
      (handled reject) rejected (refl, refl) refl refl

abbrev sent_gaps : ApprovalDb
sent_gaps = tables_after (send_for_approval env (command send) gaps watched 30 with_gaps)

-- "Ready on <day>." is lost
sent_over_preview_example : Suggests with_gaps (some "Done today.") sent_gaps
unfolding apply_approval_command_locked has_prefix resolve_pending_approval source_payload_is_stale
    get payload_source_revision ◌>>=◌ create_checked has_sent_send_reply_action bind_payload put
    create_failed find_failed_send_reply_action sort_by has_active_send_reply_action insert_reply
    violates_index payload_with_source record_approval_feedback action_created answer_approval
    approve_or_reject approve_reply create_action has_identical_sent_text close_task_after_reject
    end_after_reject reject_approval cancel_for_approvals expire_stale stale_answer update_where
    insert_by
sent_over_preview_example =
    sent_over_preview env (command send) gaps watched 30 with_gaps sent_gaps "a_1" (some 3) (some 8)
      ApprovalOutcome.edited_sent refl refl
