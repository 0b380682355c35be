-- ===== src/Tests/Dispatch.antt =====
-- The dispatcher's theorems on one reply that is due.
use feishu_shadow_agent.Prelude.{
  update_where, ◌+◌, ◌≤◌, String, true, some, [], ◌≡◌, ◌≢◌, ◌⊎◌, refl, length,
}
use feishu_shadow_agent.Json.{get, obj, str, field, end}
use feishu_shadow_agent.Types.{
  ActionRecord, NormalizedMessage, agent_message, failed, failed_needs_review, sending, pending,
  sent,
}
use feishu_shadow_agent.Store.Dispatch.{action_revision_is_current, update_dispatch_attempt}
use feishu_shadow_agent.Dispatcher.{Env, read, payload_identity, Request, target_message_id}
use feishu_shadow_agent.Dispatcher.Extract.{find_key, extract_message_id}
use feishu_shadow_agent.Dispatcher.Send.{prepare, call_of, call_send, send_identity}
use feishu_shadow_agent.Dispatcher.Execute.{proves_not_sent, execute_actual, Executed}
use feishu_shadow_agent.Dispatcher.Outcome.{
  after_dry, real_calls, status_of, calls_of, sent_id_of, is_ok, shows_not_sent, is_unsent,
}
use feishu_shadow_agent.Dispatcher.Safety.{
  IsSend, answer, sends_once_after_dry_run, failed_not_sent, sent_has_new_id,
}
use feishu_shadow_agent.Dispatcher.Loop.{dispatch}
use feishu_shadow_agent.Dispatcher.Bounds.{
  told, tried, due, allowed_in, dispatch_accounts, dispatch_allowance,
}
use feishu_shadow_agent.Dispatcher.Evidence.{
  other_message, mark_sent_evidence_error-ne-other_message, mark_sent_evidence_error,
  mark_action_sent_after_readback, Marked, marked, IsEvidence, marked_as_sent,
}
use feishu_shadow_agent.Store.{find_action}
use feishu_shadow_agent.Dispatcher.Readback.{readback_outcome, reply_warnings}
use feishu_shadow_agent.Store.Operator.{mark_action_sent_after_evidence}
use feishu_shadow_agent.Tests.Data.{message, reply, state, env, accepts, refuses, options}

abbrev done : Executed
done = execute_actual (env accepts) (state sending) (reply sending) 4

abbrev rejected : Executed
rejected = execute_actual (env refuses) (state sending) (reply sending) 4

done-status : status_of done ≡ sent
unfolding execute_actual action_revision_is_current call_send prepare target_message_id get
    payload_identity send_identity update_dispatch_attempt extract_message_id find_key
done-status = refl

rejected-unsent : is_unsent (status_of rejected) ≡ true
unfolding execute_actual action_revision_is_current call_send prepare target_message_id get
    payload_identity send_identity update_dispatch_attempt proves_not_sent
rejected-unsent = refl

sends_once_example :
    (real_calls (calls_of done) ≡ real_calls [])
    ⊎ ((dry request : Request) × IsSend
          (env accepts)
          (state sending)
          (reply sending)
          done
          dry
          request
        × (is_ok (accepts [] (call_of (reply sending) true dry)) ≡ true)
        × (action_revision_is_current
              (after_dry (env accepts) (state sending) (reply sending) dry).db
              (reply sending)
            ≡ true))
sends_once_example = sends_once_after_dry_run (env accepts) (state sending) (reply sending) 4

failed_not_sent_example :
    (real_calls (calls_of rejected) ≡ real_calls [])
    ⊎ ((dry request : Request) × IsSend
          (env refuses)
          (state sending)
          (reply sending)
          rejected
          dry
          request
        × (shows_not_sent
              (env refuses)
              (answer (env refuses) (state sending) (reply sending) dry request)
            ≡ true))
failed_not_sent_example =
    failed_not_sent (env refuses) (state sending) (reply sending) 4 rejected-unsent

sent_has_new_id_example :
    (dry request : Request) × (m : String) × IsSend
      (env accepts)
      (state sending)
      (reply sending)
      done
      dry
      request
    × (is_ok (answer (env accepts) (state sending) (reply sending) dry request) ≡ true)
    × (sent_id_of done ≡ some m)
    × (m ≢ "")
    × (some m ≢ target_message_id (reply sending))
sent_has_new_id_example =
    sent_has_new_id (env accepts) (state sending) (reply sending) 4 done-status

dispatch_accounts_example :
    (told (dispatch (env accepts) (options true) (state pending)).0
      ≡ length (due (env accepts) (options true) (state pending)))
    × ((length (due (env accepts) (options true) (state pending)) ≤ 50 + 50)
        × (real_calls (dispatch (env accepts) (options true) (state pending)).1.calls
            ≤ tried (dispatch (env accepts) (options true) (state pending)).0 + real_calls []))
dispatch_accounts_example = dispatch_accounts (env accepts) (options true) (state pending)

dispatch_allowance_example :
    real_calls (dispatch (env accepts) (options true) (state pending)).1.calls
    ≤ allowed_in (options true) (due (env accepts) (options true) (state pending)) + real_calls []
dispatch_allowance_example = dispatch_allowance (env accepts) (options true) (state pending)

found_id :
    extract_message_id
      (obj (field "data" (obj (field "message_id" (str "om_new") end)) end))
      (some "om_source")
    ≡ some "om_new"
unfolding extract_message_id find_key get
found_id = refl

abbrev new_id : String
new_id = "om_new"

abbrev source_id : String
source_id = "om_source"

abbrev sent_message : NormalizedMessage
sent_message = record message {
  message_id = "om_new";
  sender_role = agent_message;
  reply_to_message_id = some "om_source";
  text = "Done.";
}

abbrev reading_env : Env
reading_env = record (env accepts) { get_messages = λ identity m. read sent_message }

abbrev row_of : Marked → ActionRecord
row_of (marked row) = row
row_of _ = reply failed

abbrev marked_row : ActionRecord
marked_row =
    row_of (mark_action_sent_after_readback reading_env (state failed_needs_review) 7 "om_new").0

is_marked :
    (mark_action_sent_after_readback reading_env (state failed_needs_review) 7 "om_new").0
    ≡ marked marked_row
unfolding mark_action_sent_after_readback mark_sent_evidence_error get readback_outcome
    target_message_id reply_warnings mark_action_sent_after_evidence update_where
is_marked = refl

marked_example :
    (action : ActionRecord) × ((find_action 7 (state failed_needs_review).db.actions ≡ some action)
      × ((m : NormalizedMessage) × IsEvidence reading_env action "om_new" m))
marked_example =
    marked_as_sent reading_env (state failed_needs_review) 7 "om_new" marked_row is_marked

other_message_example :
    mark_sent_evidence_error reading_env
      (reply failed)
      "om_new"
      (readback_outcome reading_env (reply failed) "om_new").result
      (readback_outcome reading_env (reply failed) "om_new").warnings
    ≢ some other_message
other_message_example =
    mark_sent_evidence_error-ne-other_message reading_env (reply failed) "om_new"
