-- ===== src/Dispatcher/Readback.antt =====
-- dispatcher.py: the sent message is read back, and graded as evidence of what was sent.
use feishu_shadow_agent.Prelude.{
  String, Bool, true, false, not, ◌&&◌, ◌||◌, Option, none, some, List, [], ◌∷◌, ◌++◌, ◌==◌, any,
  all, is_empty, if◌then◌else◌, string_eq,
}
use feishu_shadow_agent.Json.{bool, str, arr, Fields, end, field, get_or_null, of_texts, put}
use feishu_shadow_agent.Types.{ActionRecord, NormalizedMessage, is_send_reply}
use feishu_shadow_agent.Store.{Db, payload_send_text}
use feishu_shadow_agent.Store.Recovery.{is_true}
use feishu_shadow_agent.Dispatcher.{
  not_normalized, Env, ReadBack, read_failed, read_missing, read, exception_readback_result,
  target_message_id, payload_identity, text_or_null,
}

pub record ReadbackOutcome : Type 0 where
  pub result : Fields
  pub warnings : List String
  pub message : Option NormalizedMessage
  -- the exception that the readback raised instead
  pub exception : Option String

-- not reply_to_message_id; otherwise whether a target is given that differs from it
abbrev reply_warning : Option String → Option String → List String
reply_warning none target = "readback_reply_target_unavailable" ∷ []
reply_warning (some m) target =
    if m == ""
    then "readback_reply_target_unavailable" ∷ []
    else if differs m target
    then "readback_reply_target_mismatch" ∷ []
    else []
  where
    differs : String → Option String → Bool
    differs m none = false
    differs m (some t) = not (m == t)

abbrev mention_warning : List String → List String → List String
mention_warning expected mentions =
    if is_empty expected
    then []
    else if is_empty mentions
    then "readback_mentions_unavailable" ∷ []
    else if all (λ e. any (λ m. m == e) mentions) expected
    then []
    else "readback_mentions_mismatch" ∷ []

unfoldable pub reply_warnings : Env → ActionRecord → NormalizedMessage → List String
reply_warnings env action message =
    if is_send_reply action.kind
    then reply_warning message.reply_to_message_id (target_message_id action)
      ++ mention_warning (env.expected_mentions (payload_send_text action.payload)) message.mentions
    else []

-- the dict of a message that was read; the raw page is not kept
abbrev pub read_result : String → NormalizedMessage → Fields
read_result m message = field "ok" (bool true) (
    field "message_id" (str m) (
      field "inserted" (bool false) (
        field "reply_to_message_id" (text_or_null message.reply_to_message_id) (
          field "mentions" (arr (of_texts message.mentions))
            (field "text" (str message.text) end)))))

unfoldable pub graded : Env → ActionRecord → String → ReadBack → ReadbackOutcome
graded env action m (read_failed error) = record {
  result = field "ok" (bool false) (field "error" (str error) (field "message_id" (str m) end));
  exception = none;
  warnings = "readback_failed" ∷ [];
  message = none;
}
graded env action m read_missing = record {
  result = field "ok" (bool false) (field "message_id" (str m) end);
  exception = none;
  warnings = "readback_message_missing" ∷ [];
  message = none;
}
graded env action m (not_normalized error) = record {
  result = exception_readback_result m error;
  warnings = "readback_exception" ∷ [];
  message = none;
  exception = some error;
}
graded env action m (read message) = record {
  exception = none;
  result = read_result m message;
  warnings = reply_warnings env action message;
  message = some message;
}

-- _readback_outcome, for a message id that is given
unfoldable pub readback_outcome : Env → ActionRecord → String → ReadbackOutcome
unfolding graded
readback_outcome env action m =
    graded env action m
      (env.get_messages (if is_send_reply action.kind then payload_identity action else "bot") m)

-- READBACK_BLOCKING_WARNINGS
abbrev is_blocking : String → Bool
is_blocking w =
    w == "readback_reply_target_mismatch"
    || (w == "readback_reply_target_unavailable"
        || (w == "readback_mentions_mismatch" || w == "readback_mentions_unavailable"))

-- _readback_attempt_verified
unfoldable pub readback_attempt_verified : ActionRecord → Fields → List String → Bool
readback_attempt_verified action readback warnings =
    is_true (get_or_null "ok" readback)
    && not (is_send_reply action.kind && any is_blocking warnings)

-- What is kept of a readback: its dict, its warnings and the store.
pub record Kept : Type 0 where
  pub readback : Fields
  pub warnings : List String
  pub db : Db

abbrev persisted : ReadbackOutcome → String → Db → Option (Bool × Db) → Kept
persisted outcome m db none = record {
  readback = exception_readback_result m "persisting the readback message failed";
  warnings = "readback_exception" ∷ [];
  db = db;
}
persisted outcome m db (some (inserted, db')) = record {
  readback = put "inserted" (bool inserted) outcome.result;
  warnings = outcome.warnings;
  db = db';
}

abbrev kept : Env → ActionRecord → String → Db → ReadbackOutcome → Option NormalizedMessage → Kept
kept env action m db outcome none = record {
  readback = outcome.result;
  warnings = outcome.warnings;
  db = db;
}
kept env action m db outcome (some message) = persisted outcome m db (env.persist action message db)

-- _readback, with the exception that _execute_actual catches
unfoldable pub read_back : Env → ActionRecord → String → Db → Kept
read_back env action m db =
    let outcome = readback_outcome env action m in kept env action m db outcome outcome.message
