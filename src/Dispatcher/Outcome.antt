-- ===== src/Dispatcher/Outcome.antt =====
-- dispatcher.py: a view of what _execute_actual lets out, and of the status that it returns.
use feishu_shadow_agent.Prelude.{
  ℕ, suc, String, Bool, true, false, ◌||◌, Option, none, some, List, [], ◌∷◌, ◌≡◌, refl, inl, inr,
  arith, if◌then◌else◌, Option-cases,
}
use feishu_shadow_agent.Json.{Json}
use feishu_shadow_agent.Types.{
  ActionRecord, ActionStatus, is_failed, is_cancelled, is_sent, result_ok,
}
use feishu_shadow_agent.Store.Dispatch.{action_revision_is_current}
use feishu_shadow_agent.Dispatcher.{
  Request, during, Call, Response, returned, raised, Env, State, target_message_id, empty_result,
}
use feishu_shadow_agent.Dispatcher.Extract.{extract_message_id}
use feishu_shadow_agent.Dispatcher.Send.{call_for, prepare, call_of}
use feishu_shadow_agent.Dispatcher.Execute.{Executed, after_send, send_succeeded, proves_not_sent}
use feishu_shadow_agent.Dispatcher.Absence.{record_absence-calls}

-- the calls that are no dry run
unfoldable pub real_calls : List Call → ℕ
real_calls [] = 0
real_calls (c ∷ rest) = let n = real_calls rest in if c.dry_run then n else suc n

abbrev pub status_of : Executed → ActionStatus
status_of e = e.0.1

abbrev pub calls_of : Executed → List Call
calls_of e = e.1.calls

abbrev pub sent_id_of : Executed → Option String
sent_id_of e = e.0.0.sent_message_id

-- the command went through
abbrev pub is_ok : Response → Bool
is_ok (raised error) = false
is_ok (returned r) = result_ok r

-- the command failed in a way which shows that nothing was sent
abbrev pub shows_not_sent : Env → Response → Bool
shows_not_sent env (raised error) = false
shows_not_sent env (returned r) = if result_ok r then false else proves_not_sent env r

-- the new id in the answer to a send that went through
abbrev pub id_in : ActionRecord → Response → Option String
id_in action (raised error) = none
id_in action (returned r) =
    if result_ok r then extract_message_id r.json_data (target_message_id action) else none

abbrev pub is_unsent : ActionStatus → Bool
is_unsent status = is_failed status || is_cancelled status

-- the status that the response to the send amounts to
abbrev pub graded : Env → ActionRecord → Response → Option String → ActionStatus
graded env action response (some m) = ActionStatus.sent
graded env action response none =
    if shows_not_sent env response then ActionStatus.failed else ActionStatus.failed_needs_review

-- the state after the dry run of a request
abbrev pub after_dry : Env → State → ActionRecord → Request → State
after_dry env s action dry = during env (call_of action true dry ∷ s.calls) s

-- What became of the action: no real call and a status other than sent, or exactly one, after its dry
-- run.
abbrev pub Unsent : State → Executed → Type 0
Unsent s e = (real_calls (calls_of e) ≡ real_calls s.calls) × (is_sent (status_of e) ≡ false)

abbrev pub Graded : Env → ActionRecord → Executed → Response → Type 0
Graded env action e response =
    (status_of e ≡ graded env action response (id_in action response))
    × (sent_id_of e ≡ id_in action response)

pub record Out (env : Env) (s : State) (action : ActionRecord) (e : Executed) : Type 0 where
  pub dry : Request
  pub request : Request
  pub dry_prepared : prepare env s action ≡ call_for dry
  pub prepared : prepare env (after_dry env s action dry) action ≡ call_for request
  pub calls : calls_of e ≡ call_of action false request ∷ call_of action true dry ∷ s.calls
  pub dry_run_ok : is_ok (env.client s.calls (call_of action true dry)) ≡ true
  pub current : action_revision_is_current (after_dry env s action dry).db action ≡ true
  pub grade :
      Graded env action e
        (env.client (call_of action true dry ∷ s.calls) (call_of action false request))

-- the last step: the status and the id follow the response, and nothing more is called
pub after_send-Graded :
    (env : Env) (s : State) (action : ActionRecord) (k : ℕ) (d : Json) (response : Response)
    → Graded env action
        (after_send env s action k (record empty_result { dry_run = d }) response)
        response
      × (calls_of (after_send env s action k (record empty_result { dry_run = d }) response)
          ≡ s.calls)
unfolding after_send send_succeeded
after_send-Graded env s action k d (raised error) = ((refl, refl), refl)
after_send-Graded env s action k d (returned r) =
    elim (Option-cases (extract_message_id r.json_data (target_message_id action))) [
      | inl n ↦ rw n (ground (arith, record_absence-calls env action r s))
      | inr (m, e) ↦ rw e (ground (arith, record_absence-calls env action r s))
    ]

-- a failed response is not graded as sent
pub graded-ne-sent :
    (env : Env) (action : ActionRecord) (response : Response)
    → is_ok response ≡ false
    → is_sent (graded env action response (id_in action response)) ≡ false
graded-ne-sent env action (raised error) h = refl
graded-ne-sent env action (returned r) h = rw h (ground arith)
