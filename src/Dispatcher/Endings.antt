-- ===== src/Dispatcher/Endings.antt =====
-- dispatcher.py: every way in which _execute_actual ends, as Outcome tells them apart.
use feishu_shadow_agent.Prelude.{
  ◌∙◌, ap, ℕ, true, false, List, ◌∷◌, ◌≡◌, refl, ◌⊎◌, inl, inr, arith, Bool-cases,
}
use feishu_shadow_agent.Json.{Json}
use feishu_shadow_agent.Types.{ActionRecord, is_sent, result_ok}
use feishu_shadow_agent.Store.{Db}
use feishu_shadow_agent.Store.Dispatch.{update_dispatch_attempt, action_revision_is_current}
use feishu_shadow_agent.Dispatcher.{
  Request, during, Call, Response, returned, raised, Env, State, empty_result,
}
use feishu_shadow_agent.Dispatcher.Send.{
  Prepared, call_for, answered, prepare, call_of, call_send, make_call, send_identity,
}
use feishu_shadow_agent.Dispatcher.Execute.{
  Executed, execute_actual, after_dry_run, send_stage, after_send,
}
use feishu_shadow_agent.Dispatcher.Outcome.{
  real_calls, is_ok, after_dry, Unsent, Out, after_send-Graded, graded-ne-sent,
}

-- a response without a call is a failure
answered-ok :
    (env : Env) (s : State) (action : ActionRecord) (response : Response)
    → prepare env s action ≡ answered response
    → is_ok response ≡ false
unfolding prepare send_identity
answered-ok env s action response h = ground arith

module _ (env : Env) (s : State) (action : ActionRecord) (k : ℕ) where
  abbrev pub Ran : Executed → Type 0
  Ran e = Unsent s e ⊎ Out env s action e

  answered-Unsent :
      (response : Response)
      → is_ok response ≡ false
      → Unsent s (after_dry_run env (during env s.calls s) action k response)
  unfolding after_dry_run
  answered-Unsent (raised error) h = (refl, refl)
  answered-Unsent (returned r) h = rw h (refl, refl)

  module _ (dry : Request) (h : prepare env s action ≡ call_for dry) where
    abbrev calls1 : List Call
    calls1 = call_of action true dry ∷ s.calls

    abbrev s1 : Db → State
    s1 u = record (after_dry env s action dry) { db = u }

    -- the send was refused before any call
    refused-Unsent :
        (u : Db) (d : Json) (response : Response)
        → is_ok response ≡ false
        → Unsent s (
            after_send env
              (during env calls1 (s1 u))
              action
              k
              (record empty_result { dry_run = d })
              response)
    unfolding real_calls
    refused-Unsent u d response f =
        let (grade, calls) = after_send-Graded env (during env calls1 (s1 u)) action k d response in
        (rw calls refl, ap is_sent grade.0 ∙ graded-ne-sent env action response f)

    sent-Out :
        (request : Request) (u : Db) (d : Json)
        → prepare env (s1 u) action ≡ call_for request
        → u.messages ≡ (env.meanwhile calls1 s.db).messages
        → is_ok (env.client s.calls (call_of action true dry)) ≡ true
        → action_revision_is_current u action ≡ true
        → Out env s action (
            after_send env
              (during env (call_of action false request ∷ calls1) (s1 u))
              action
              k
              (record empty_result { dry_run = d })
              (env.client calls1 (call_of action false request)))
    unfolding action_revision_is_current prepare send_identity
    sent-Out request u d p same ok t =
        let (grade, calls) =
          after_send-Graded env (during env (call_of action false request ∷ calls1) (s1 u)) action k
            d (env.client calls1 (call_of action false request)) in
        record {
          dry = dry;
          request = request;
          dry_prepared = h;
          prepared = p;
          calls = calls;
          dry_run_ok = ok;
          current = rw same at t;
          grade = grade;
        }

    Ran-prepared-send :
        (u : Db) (d : Json) (p : Prepared)
        → prepare env (s1 u) action ≡ p
        → u.messages ≡ (env.meanwhile calls1 s.db).messages
        → is_ok (env.client s.calls (call_of action true dry)) ≡ true
        → action_revision_is_current u action ≡ true
        → Ran (
            after_send env
              (during env (make_call env calls1 p action false).1 (s1 u))
              action
              k
              (record empty_result { dry_run = d })
              (make_call env calls1 p action false).0)
    Ran-prepared-send u d (answered response) p same ok t =
        inl (refused-Unsent u d response (answered-ok env (s1 u) action response p))
    Ran-prepared-send u d (call_for request) p same ok t = inr (sent-Out request u d p same ok t)

    Ran-sent :
        (u : Db) (d : Json)
        → u.messages ≡ (env.meanwhile calls1 s.db).messages
        → is_ok (env.client s.calls (call_of action true dry)) ≡ true
        → Ran (send_stage env (s1 u) action k (record empty_result { dry_run = d }))
    unfolding send_stage call_send action_revision_is_current real_calls
    Ran-sent u d same ok = elim (Bool-cases (action_revision_is_current u action)) [
      | inr f ↦ rw f (inl (refl, refl))
      | inl t ↦ rw t (Ran-prepared-send u d (prepare env (s1 u) action) refl same ok t)
    ]

    Ran-called :
        (response : Response)
        → env.client s.calls (call_of action true dry) ≡ response
        → Ran (after_dry_run env (after_dry env s action dry) action k response)
    unfolding after_dry_run real_calls update_dispatch_attempt
    Ran-called (raised error) e = inl (refl, refl)
    Ran-called (returned r) e = elim (Bool-cases (result_ok r)) [
      | inr f ↦ rw f (inl (refl, refl))
      | inl t ↦ rw t (Ran-sent _ _ refl (rw e t))
    ]

  Ran-prepared :
      (p : Prepared)
      → prepare env s action ≡ p
      → Ran (
          after_dry_run env
            (during env (make_call env s.calls p action true).1 s)
            action
            k
            (make_call env s.calls p action true).0)
  Ran-prepared (answered response) h =
      inl (answered-Unsent response (answered-ok env s action response h))
  Ran-prepared (call_for dry) h = Ran-called dry h _ refl

  pub Ran-of : (p : Prepared) → prepare env s action ≡ p → Ran (execute_actual env s action k)
  unfolding execute_actual call_send
  Ran-of p h = elim (Bool-cases (action_revision_is_current s.db action)) [
    | inr f ↦ rw f (inl (refl, refl))
    | inl t ↦ rw t (rw h (Ran-prepared p h))
  ]
