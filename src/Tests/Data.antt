-- ===== src/Tests/Data.antt =====
-- One reply to a message in a group, the store that holds it, and a client that sends it.
use feishu_shadow_agent.Prelude.{
  Bool, true, false, Option, none, some, List, [], ◌∷◌, if◌then◌else◌,
}
use feishu_shadow_agent.Json.{str, obj, Fields, end, field}
use feishu_shadow_agent.Types.{
  group, production, instant, external_user_message, ActionStatus, ActionRecord,
  DispatchAttemptRecord, DispatchAttemptStatus, NormalizedMessage, send_reply, LarkCliResult,
}
use feishu_shadow_agent.Store.{Db}
use feishu_shadow_agent.Dispatcher.{Call, Response, returned, read_missing, Env, State}
use feishu_shadow_agent.Dispatcher.Loop.{Options}
use feishu_shadow_agent.Policy.{Repository, valid, GlobalPolicy, bot_preferred}
use feishu_shadow_agent.Membership.{Fact, absent}

abbrev pub payload : Fields
payload = field "text" (str "Done.") (field "identity" (str "bot") end)

abbrev pub reply : ActionStatus → ActionRecord
reply status = record {
  id = 7;
  idempotency_key = "key-7";
  task_id = some 3;
  approval_id = none;
  kind = send_reply;
  status = status;
  target_message_id = some "om_source";
  source_message_id = some "om_source";
  source_revision = some 1;
  execution_mode = production;
  payload = payload;
  result = end;
  created_at = 10;
  updated_at = 10;
}

abbrev pub attempt : DispatchAttemptRecord
attempt = record {
  id = 4;
  action_id = 7;
  status = DispatchAttemptStatus.send_ok;
  dry_run_result = none;
  send_result = none;
  readback_result = none;
  sent_message_id = some "om_new";
  error_stage = none;
  started_at = 20;
  finished_at = none;
}

abbrev pub store : ActionStatus → List DispatchAttemptRecord → Db
store status attempts = record {
  actions = reply status ∷ [];
  attempts = attempts;
  messages =
      record {
        id = 1;
        message_id = "om_source";
        chat_id = some "oc_chat";
        sender_id = some "ou_user";
        sender_role = external_user_message;
        sent_at = some (instant 5);
        text = "Is it done?";
        revision = 1;
        is_deleted = false;
        semantic_hash = "hash-1";
        hash_history = "hash-1" ∷ [];
      }
      ∷ [];
  task_messages = [];
  approvals = [];
  next_action_id = 8;
  next_attempt_id = 5;
}

abbrev pub result_with : Fields → LarkCliResult
result_with d = record {
  argv = "lark-cli" ∷ "im" ∷ [];
  exit_code = some 0;
  stdout = "";
  stderr = "";
  json_data = obj d;
  error = none;
  timed_out = false;
}

abbrev pub accepts : List Call → Call → Response
accepts calls call =
    returned (result_with (if call.dry_run then end else field "message_id" (str "om_new") end))

abbrev pub refuses : List Call → Call → Response
refuses calls call =
    if call.dry_run
    then returned (result_with end)
    else returned (record (result_with end) { exit_code = some 1; error = some "send rejected" })

abbrev pub fact : Fact
fact = record {
  status = some absent;
  checked_at = instant 0;
  next_probe_at = instant 1000;
  source = "probe";
  error = none;
  absence_episode = 1;
  last_confirmed_status = some absent;
}

abbrev pub global_policy : GlobalPolicy
global_policy = record {
  reply_policy = valid (record { p2p_auto_reply = true; unknown_group_auto_reply = true });
  default_chat_policy = valid (record {
    auto_reply = true;
    bot_joined = true;
    resource_download = true;
    reply_identity = bot_preferred;
    allow_user_fallback = true;
  });
}

abbrev pub repository : Option GlobalPolicy → Option Fact → Repository
repository policy fact = record {
  product_policy = policy;
  chat_policy = λ chat_id. none;
  membership_fact = λ chat_id. fact;
}

abbrev pub env : (List Call → Call → Response) → Env
env client = record {
  client = client;
  get_messages = λ identity m. read_missing;
  meanwhile = λ calls db. db;
  persist = λ action message db. none;
  get_task_by_id = λ calls i. none;
  probes = λ calls facts. facts;
  membership_config = record {
    bot_membership_retry_seconds = 60;
    bot_membership_ttl_seconds = 600;
  };
  repository = λ calls. repository (some global_policy) none;
  interactive_cards_available = false;
  build_approval_card = λ d. none;
  owner_notification_text = λ d. "";
  strip_lower = λ s. s;
  expected_mentions = λ s. [];
  evidence_text = λ s. s;
  inserts = λ m. true;
  show = λ n. "7";
  digest = λ seed. "digest";
  now = λ calls. 30;
}

abbrev pub state : ActionStatus → State
state status = record { db = store status []; calls = []; membership_fact = λ chat_id. none }

abbrev pub options : Bool → Options
options allow = record {
  allow_send_reply_actual = allow;
  allow_owner_notification_actual = allow;
  blocked_send_reply_reason = none;
  limit = 50;
}

abbrev pub message : NormalizedMessage
message = record {
  message_id = "om_source";
  chat_id = some "oc_chat";
  chat_type = some group;
  sender_id = some "ou_user";
  sender_role = external_user_message;
  sent_at = some (instant 5);
  thread_id = none;
  reply_to_message_id = none;
  text = "Is it done?";
  direct_mention = true;
  at_all = false;
  mentions = "ou_owner" ∷ [];
  is_deleted = false;
  revision = 1;
}
