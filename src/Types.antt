-- ===== src/Types.antt =====
-- types.py: the closed sets of states and kinds, the lifecycle rules on them, and the records that
-- the components exchange. A timestamp text stands for what `parse_instant_or_none` makes of it.
use feishu_shadow_agent.Prelude.{
  ℕ, String, Bool, true, false, not, ◌&&◌, Option, none, some, List, ◌==◌, ◌||◌, if◌then◌else◌,
  is_some, nat_eq, string_eq, option_eq,
}
use feishu_shadow_agent.Json.{Json, Fields}

-- A UTC instant counted in microseconds, or text that is no offset-aware timestamp.
pub data Stamp : Type 0 where
  instant : ℕ → Stamp
  unreadable : Stamp

pub data ChatType : Type 0 where
  group p2p : ChatType

pub data SenderRole : Type 0 where
  external_user_message owner_message bot_message agent_message : SenderRole

pub data ExecutionMode : Type 0 where
  dry_run production : ExecutionMode

pub data TaskStatus : Type 0 where
  watching closed closed_by_owner human_taken_over : TaskStatus

pub data ApprovalStatus : Type 0 where
  pending approved rejected expired : ApprovalStatus

pub data ApprovalKind : Type 0 where
  send_reply tool_action : ApprovalKind

pub data ApprovalOutcome : Type 0 where
  suggestion_sent edited_sent no_send_keep_watching no_send_end_task : ApprovalOutcome

pub data FeedbackReason : Type 0 where
  inaccurate_or_unsupported incomplete_context tone_or_style unnecessary_reply other :
      FeedbackReason

pub record ApprovalTargetBinding : Type 0 where
  pub task_id : Option ℕ
  pub source_message_id : Option String
  pub source_revision : Option ℕ

pub data ActionKind : Type 0 where
  send_reply owner_notification : ActionKind

pub data ActionStatus : Type 0 where
  pending sending sent failed failed_needs_review cancelled : ActionStatus

pub data DispatchAttemptStatus : Type 0 where
  started dry_run_ok send_ok readback_ok failed uncertain : DispatchAttemptStatus

pub data DispatchErrorStage : Type 0 where
  claim dry_run send readback recovery : DispatchErrorStage

pub data RouteName : Type 0 where
  new_task attach_task reopen_task close_task ignore ambiguous human_taken_over : RouteName

pub data MessageProcessingStage : Type 0 where
  task_router task_session resource_download : MessageProcessingStage

pub data MessageProcessingStatus : Type 0 where
  processed processing_failed_terminal blocked_waiting_external : MessageProcessingStatus

-- LifecycleStatePolicy
abbrev pub is_active_task_status : TaskStatus → Bool
is_active_task_status watching = true
is_active_task_status _ = false

abbrev pub task_status_closes_at : TaskStatus → Bool
task_status_closes_at watching = false
task_status_closes_at _ = true

-- Every status is in the set; a message without a marker (`none`) is not blocked.
abbrev pub message_processing_blocks_duplicate : Option MessageProcessingStatus → Bool
message_processing_blocks_duplicate none = false
message_processing_blocks_duplicate (some processed) = true
message_processing_blocks_duplicate (some processing_failed_terminal) = true
message_processing_blocks_duplicate (some blocked_waiting_external) = true

abbrev pub resource_blocker_status : String → MessageProcessingStatus
resource_blocker_status reason =
    if reason == "resource_needs_bot"
      || (reason == "resource_download_disabled"
          || (reason == "resource_too_large" || reason == "resource_quota_exceeded"))
    then blocked_waiting_external
    else processing_failed_terminal

-- `x == "..."` on the values of an enumeration
abbrev pub is_pending : ActionStatus → Bool
is_pending ActionStatus.pending = true
is_pending _ = false

abbrev pub is_sending : ActionStatus → Bool
is_sending ActionStatus.sending = true
is_sending _ = false

abbrev pub is_sent : ActionStatus → Bool
is_sent ActionStatus.sent = true
is_sent _ = false

abbrev pub is_failed : ActionStatus → Bool
is_failed ActionStatus.failed = true
is_failed _ = false

abbrev pub is_failed_needs_review : ActionStatus → Bool
is_failed_needs_review ActionStatus.failed_needs_review = true
is_failed_needs_review _ = false

abbrev pub is_cancelled : ActionStatus → Bool
is_cancelled ActionStatus.cancelled = true
is_cancelled _ = false

abbrev pub is_readback_ok : DispatchAttemptStatus → Bool
is_readback_ok DispatchAttemptStatus.readback_ok = true
is_readback_ok _ = false

abbrev pub is_send_reply : ActionKind → Bool
is_send_reply send_reply = true
is_send_reply owner_notification = false

abbrev pub is_production : ExecutionMode → Bool
is_production production = true
is_production ExecutionMode.dry_run = false

abbrev pub same_mode : ExecutionMode → ExecutionMode → Bool
same_mode production m = is_production m
same_mode ExecutionMode.dry_run m = not (is_production m)

abbrev pub is_group : Option ChatType → Bool
is_group (some group) = true
is_group _ = false

abbrev pub is_p2p : Option ChatType → Bool
is_p2p (some p2p) = true
is_p2p _ = false

-- What one lark-cli call returned; an exit code is its absolute value here, as only 0 is tested.
pub record LarkCliResult : Type 0 where
  pub argv : List String
  pub exit_code : Option ℕ
  pub stdout : String
  pub stderr : String
  pub json_data : Json
  pub error : Option String
  pub timed_out : Bool

-- LarkCliResult.ok
abbrev pub result_ok : LarkCliResult → Bool
result_ok r = r.exit_code == some 0 && (not (is_some r.error) && not r.timed_out)

pub record NormalizedMessage : Type 0 where
  pub message_id : String
  pub chat_id : Option String
  pub chat_type : Option ChatType
  pub sender_id : Option String
  pub sender_role : SenderRole
  pub sent_at : Option Stamp
  pub thread_id : Option String
  pub reply_to_message_id : Option String
  pub text : String
  pub direct_mention : Bool
  pub at_all : Bool
  pub mentions : List String
  pub is_deleted : Bool
  pub revision : ℕ

-- NormalizedMessage.is_self_message
abbrev pub is_self_message : SenderRole → Bool
is_self_message bot_message = true
is_self_message agent_message = true
is_self_message _ = false

abbrev pub is_owner_message : SenderRole → Bool
is_owner_message owner_message = true
is_owner_message _ = false

pub record TaskRecord : Type 0 where
  pub id : ℕ
  pub short_id : String
  pub status : TaskStatus
  pub chat_id : Option String
  pub chat_type : Option ChatType
  pub thread_id : Option String
  pub root_message_id : Option String
  pub task_label : String
  pub watch_until : Option Stamp
  pub agent_working_dir : Option String

pub record ActionRecord : Type 0 where
  pub id : ℕ
  pub idempotency_key : String
  pub task_id : Option ℕ
  pub approval_id : Option ℕ
  pub kind : ActionKind
  pub status : ActionStatus
  pub target_message_id : Option String
  pub source_message_id : Option String
  pub source_revision : Option ℕ
  pub execution_mode : ExecutionMode
  pub payload : Fields
  pub result : Fields
  pub created_at : ℕ
  pub updated_at : ℕ

pub record DispatchAttemptRecord : Type 0 where
  pub id : ℕ
  pub action_id : ℕ
  pub status : DispatchAttemptStatus
  pub dry_run_result : Option Fields
  pub send_result : Option Fields
  pub readback_result : Option Fields
  pub sent_message_id : Option String
  pub error_stage : Option DispatchErrorStage
  pub started_at : ℕ
  pub finished_at : Option ℕ

pub record RouteDecision : Type 0 where
  pub route : RouteName
  pub target_task_id : Option ℕ
  pub reason : String
  pub candidates_count : ℕ
  pub shortcut_hit : Bool
  pub router_called : Bool
  pub matched_by : Option String

abbrev pub is_pending_approval : ApprovalStatus → Bool
is_pending_approval ApprovalStatus.pending = true
is_pending_approval _ = false

abbrev pub is_external : SenderRole → Bool
is_external external_user_message = true
is_external _ = false
