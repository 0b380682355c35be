-- ===== src/Dispatcher.antt =====
-- dispatcher.py: what the dispatcher works with. The Feishu client answers a call by the calls made
-- so far, and so do the clock and the tables of tasks and policies, which other processes write; texts
-- are the environment.
pub mod Extract
pub mod Send
pub mod Unsigned
pub mod Absence
pub mod Readback
pub mod Execute
pub mod Outcome
pub mod Endings
pub mod Safety
pub mod Notices
pub mod Loop
pub mod Bounds
pub mod Evidence
use feishu_shadow_agent.Prelude.{
  ℕ, String, Bool, true, false, not, Option, none, some, List, [], ◌∷◌, ◌==◌, if◌then◌else◌,
  string_eq, is_some,
}
use feishu_shadow_agent.Json.{
  Json, null, bool, int, str, arr, obj, Fields, end, field, of_texts, get_or_null, or_else,
  nonempty_text,
}
use feishu_shadow_agent.Types.{
  ActionRecord, ActionKind, send_reply, owner_notification, LarkCliResult, result_ok,
  NormalizedMessage, TaskRecord, ChatType,
}
use feishu_shadow_agent.Store.{Db}
use feishu_shadow_agent.Store.Notify.{NoticeSeed}
use feishu_shadow_agent.Membership.{Fact, Config}
use feishu_shadow_agent.Policy.{Repository}

-- The requests that leave for Feishu: reply_message, owner_card and owner_message.
pub data Request : Type 0 where
  reply_message : String → String → String → Request
  owner_card : Fields → Request
  owner_message : String → Request

pub record Call : Type 0 where
  pub request : Request
  pub idempotency_key : String
  pub dry_run : Bool

-- What a call gives: the command's result, or an exception with its text.
pub data Response : Type 0 where
  returned : LarkCliResult → Response
  raised : String → Response

-- What reading a sent message back gives, after the page was searched and the item normalised.
pub data ReadBack : Type 0 where
  read_failed : String → ReadBack
  read_missing : ReadBack
  -- the exception of normalizer.normalize
  not_normalized : String → ReadBack
  read : NormalizedMessage → ReadBack

pub record Env : Type 0 where
  -- lark-cli, by the calls made before
  pub client : List Call → Call → Response
  pub get_messages : String → String → ReadBack
  -- what other processes do to the store while a call is on its way, by the calls so far
  pub meanwhile : List Call → Db → Db
  -- upsert_message and record_agent_message_for_task; `none` is an exception
  pub persist : ActionRecord → NormalizedMessage → Db → Option (Bool × Db)
  -- the tasks and the policies as they stand after the calls so far; the facts of the bot's membership
  -- are in the state, and `probes` is what other processes do to them while a call is on its way
  pub get_task_by_id : List Call → ℕ → Option TaskRecord
  pub repository : List Call → Repository
  pub probes : List Call → (String → Option Fact) → String → Option Fact
  pub membership_config : Config
  pub interactive_cards_available : Bool
  -- build_approval_card; `none` is a ValueError
  pub build_approval_card : Fields → Option Fields
  pub owner_notification_text : Fields → String
  -- value.strip().lower(), the user ids of the mentions in a text, and str(int)
  pub strip_lower : String → String
  pub expected_mentions : String → List String
  -- a text without mentions and with its blanks made single: EXPECTED_MENTION_RE and split
  pub evidence_text : String → String
  -- whether the store inserts a message that was read back, and does not find it there
  pub inserts : NormalizedMessage → Bool
  pub show : ℕ → String
  -- the digest of a notification's key
  pub digest : NoticeSeed → String
  -- the clock after the calls so far
  pub now : List Call → ℕ

-- The store, the calls that were made, newest first, and the facts of the bot's membership by chat.
pub record State : Type 0 where
  pub db : Db
  pub calls : List Call
  pub membership_fact : String → Option Fact

-- the policies and the facts as a reader finds them in this state
abbrev pub repository_of : Env → State → Repository
repository_of env s = record (env.repository s.calls) { membership_fact = s.membership_fact }

-- the state when a call is over, with what other processes did meanwhile
abbrev pub during : Env → List Call → State → State
during env calls s = record s {
  db = env.meanwhile calls s.db;
  calls = calls;
  membership_fact = env.probes calls s.membership_fact;
}

-- the dict of _empty_result
pub record DispatchResult : Type 0 where
  pub dry_run : Json
  pub send : Json
  pub sent_message_id : Option String
  pub readback : Json
  pub warnings : List String
  pub error_stage : Option String

abbrev pub empty_result : DispatchResult
empty_result = record {
  dry_run = null;
  send = null;
  sent_message_id = none;
  readback = null;
  warnings = [];
  error_stage = none;
}

abbrev pub text_or_null : Option String → Json
text_or_null none = null
text_or_null (some s) = str s

abbrev pub number_or_null : Option ℕ → Json
number_or_null none = null
number_or_null (some n) = int n

abbrev pub to_fields : DispatchResult → Fields
to_fields r = field "dry_run" r.dry_run (
    field "send" r.send (
      field "sent_message_id" (text_or_null r.sent_message_id) (
        field "readback" r.readback (
          field "warnings" (arr (of_texts r.warnings))
            (field "error_stage" (text_or_null r.error_stage) end)))))

-- _command_result
abbrev pub command_result : LarkCliResult → Fields
command_result r = field "ok" (bool (result_ok r)) (
    field "argv" (arr (of_texts r.argv)) (
      field "exit_code" (number_or_null r.exit_code) (
        field "json" r.json_data (
          field "stdout" (str r.stdout) (
            field "stderr" (str r.stderr)
              (field "error" (text_or_null r.error) (field "timed_out" (bool r.timed_out) end)))))))

abbrev pub kind_text : ActionKind → String
kind_text send_reply = "send_reply"
kind_text owner_notification = "owner_notification"

-- _exception_command_result; the exception's type name is not kept
abbrev pub exception_command_result : Env → ActionRecord → String → String → Fields
exception_command_result env action stage error = field "ok" (bool false) (
    field "argv"
      (arr (of_texts ("dispatch" ∷ kind_text action.kind ∷ env.show action.id ∷ stage ∷ [])))
      (field "exit_code" null (
        field "json" null (
          field "stdout" (str "") (
            field "stderr" (str "")
              (field "error" (str error) (field "timed_out" (bool false) end)))))))

-- _exception_readback_result
abbrev pub exception_readback_result : String → String → Fields
exception_readback_result m error =
    field "ok" (bool false) (field "message_id" (str m) (field "error" (str error) end))

-- _local_error
abbrev pub local_error : Env → ActionRecord → String → Response
local_error env action message = returned (record {
  argv = "dispatch" ∷ kind_text action.kind ∷ env.show action.id ∷ [];
  exit_code = none;
  stdout = "";
  stderr = "";
  json_data = null;
  error = some message;
  timed_out = false;
})

abbrev text_or_json : Option String → Json → Json
text_or_json none other = other
text_or_json (some s) other = if s == "" then other else str s

-- _target_message_id
unfoldable pub target_message_id : ActionRecord → Option String
target_message_id action = nonempty_text (
    text_or_json action.target_message_id (
      or_else (get_or_null "reply_target_message_id" action.payload)
        (get_or_null "target_message_id" action.payload)))

abbrev text_or_user : Json → String
text_or_user (str s) = s
text_or_user _ = "user"

-- _payload_identity
unfoldable pub payload_identity : ActionRecord → String
payload_identity action =
    text_or_user (or_else (get_or_null "identity" action.payload) (str "user"))
