-- ===== src/Dispatcher/Send.antt =====
-- dispatcher.py: the one place from which an action's text leaves, as a dry run or for good.
use feishu_shadow_agent.Prelude.{
  String, Bool, true, false, not, ◌&&◌, ◌||◌, Option, none, some, List, ◌∷◌, ◌==◌, if◌then◌else◌,
  string_eq,
}
use feishu_shadow_agent.Json.{Json, str, Fields, get_or_null}
use feishu_shadow_agent.Types.{ActionRecord, ActionKind, send_reply, owner_notification, TaskRecord}
use feishu_shadow_agent.Membership.{EffectiveStatus, observed, absent, effective_membership_status}
use feishu_shadow_agent.Policy.{
  Result, ok, err, PolicyError, missing, invalid, ResolvedChatPolicy, resolve_chat_policy,
}
use feishu_shadow_agent.Policy.Gate.{is_bot_preferred}
use feishu_shadow_agent.Store.{payload_send_text}
use feishu_shadow_agent.Dispatcher.{
  Request, reply_message, owner_card, owner_message, Call, Response, raised, Env, State,
  repository_of, during, local_error, target_message_id, payload_identity,
}

-- Either the identity to send as, or the response without a call.
pub data Identity : Type 0 where
  send_as : String → Identity
  stop : Response → Identity

abbrev pub is_absent_bot : EffectiveStatus → Bool
is_absent_bot (observed absent) = true
is_absent_bot _ = false

abbrev blank_or : Option String → String
blank_or none = ""
blank_or (some s) = s

abbrev policy_text : PolicyError → String
policy_text missing =
    "Product Policy Store global policy is not initialized; run `policy import-config`."
policy_text invalid = "Product Policy Store policy is invalid."

abbrev fallback : Env → ActionRecord → Result ResolvedChatPolicy → Identity
fallback env action (err e) = stop (raised (policy_text e))
fallback env action (ok policy) =
    if is_bot_preferred policy.reply_identity && policy.allow_user_fallback
    then send_as "user"
    else stop (local_error env action "bot_not_joined")

abbrev identity_in_task : Env → State → ActionRecord → Option TaskRecord → Identity
identity_in_task env s action none = send_as "bot"
identity_in_task env s action (some task) =
    if is_absent_bot
      (effective_membership_status (s.membership_fact (blank_or task.chat_id)) (env.now s.calls))
    then fallback env action
        (resolve_chat_policy (repository_of env s) (env.now s.calls) task.chat_id task.chat_type)
    else send_as "bot"

-- the identity of the payload, or the user's where the bot is known to be absent, by the task, the
-- fact, the policy and the clock as they are in this state: each call reads them again
unfoldable pub send_identity : Env → State → ActionRecord → String → Identity
send_identity env s action identity =
    if identity == "bot"
    then elim action.task_id [
      | none ↦ send_as "bot"
      | some task_id ↦ identity_in_task env s action (env.get_task_by_id s.calls task_id)
    ]
    else send_as identity

-- What a send comes to: a call, or a response with no call.
pub data Prepared : Type 0 where
  call_for : Request → Prepared
  answered : Response → Prepared

abbrev pub addressed : String → String → Identity → Prepared
addressed target text (stop r) = answered r
addressed target text (send_as identity) = call_for (reply_message identity target text)

abbrev pub reply_to : Env → State → ActionRecord → Option String → Prepared
reply_to env s action none =
    answered (local_error env action "send_reply target_message_id is missing")
reply_to env s action (some target) =
    let text = payload_send_text action.payload in
    let identity = payload_identity action in
    if text == ""
    then answered (local_error env action "send_reply text is missing")
    else if not (identity == "user" || identity == "bot")
    then answered (local_error env action "send_reply identity must be user or bot")
    else addressed target text (send_identity env s action identity)

abbrev is_text : String → Json → Bool
is_text t (str s) = s == t
is_text t _ = false

abbrev card_or_error : Env → ActionRecord → Option Fields → Prepared
card_or_error env action none =
    answered (local_error env action "approval notification card payload is invalid")
card_or_error env action (some card) = call_for (owner_card card)

unfoldable pub prepare_kind : Env → State → ActionRecord → ActionKind → Prepared
prepare_kind env s action send_reply = reply_to env s action (target_message_id action)
prepare_kind env s action owner_notification =
    if env.interactive_cards_available
      && is_text "approval_required" (get_or_null "type" action.payload)
    then card_or_error env action (env.build_approval_card action.payload)
    else call_for (owner_message (env.owner_notification_text action.payload))

unfoldable pub prepare : Env → State → ActionRecord → Prepared
unfolding prepare_kind
prepare env s action = prepare_kind env s action action.kind

abbrev pub call_of : ActionRecord → Bool → Request → Call
call_of action dry_run request = record {
  request = request;
  idempotency_key = action.idempotency_key;
  dry_run = dry_run;
}

abbrev pub make_call : Env → List Call → Prepared → ActionRecord → Bool → Response × List Call
make_call env calls (answered r) action dry_run = (r, calls)
make_call env calls (call_for request) action dry_run =
    let call = call_of action dry_run request in (env.client calls call, call ∷ calls)

-- _call_send: the response, and the state when it has come
unfoldable pub call_send : Env → State → ActionRecord → Bool → Response × State
call_send env s action dry_run =
    let (response, calls) = make_call env s.calls (prepare env s action) action dry_run in
    (response, during env calls s)
