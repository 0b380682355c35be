-- ===== src/Dispatcher/Safety.antt =====
-- dispatcher.py: what _execute_actual lets out, and what its status says of it.
use feishu_shadow_agent.Prelude.{
  ℕ, String, true, false, Option, none, some, List, ◌∷◌, ◌≡◌, ◌≢◌, refl, ◌⊎◌, inl, inr, arith,
  Bool-cases,
}
use feishu_shadow_agent.Types.{ActionRecord, ActionStatus, result_ok}
use feishu_shadow_agent.Store.Dispatch.{action_revision_is_current}
use feishu_shadow_agent.Dispatcher.{
  Request, Call, Response, returned, raised, Env, State, target_message_id,
}
use feishu_shadow_agent.Dispatcher.Extract.{extract_message_id_new}
use feishu_shadow_agent.Dispatcher.Send.{call_for, prepare, call_of}
use feishu_shadow_agent.Dispatcher.Execute.{Executed, execute_actual}
use feishu_shadow_agent.Dispatcher.Unsigned.{unsigned, prepare-unsigned}
use feishu_shadow_agent.Dispatcher.Endings.{Ran-of}
use feishu_shadow_agent.Dispatcher.Outcome.{
  Out, after_dry, real_calls, status_of, calls_of, sent_id_of, is_ok, shows_not_sent, id_in,
  is_unsent, graded,
}

-- the call that sends a request for good, right after a dry run, and the answer to it
abbrev pub sent_call : ActionRecord → Request → Request → List Call → List Call
sent_call action dry request calls = call_of action false request ∷ call_of action true dry ∷ calls

abbrev pub answer : Env → State → ActionRecord → Request → Request → Response
answer env s action dry request =
    env.client (call_of action true dry ∷ s.calls) (call_of action false request)

-- The one call that was made for good, after its dry run: both are what the action is prepared as at
-- their moments, and they differ in the identity at most.
abbrev pub IsSend : Env → State → ActionRecord → Executed → Request → Request → Type 0
IsSend env s action e dry request =
    (calls_of e ≡ sent_call action dry request s.calls)
    × (prepare env s action ≡ call_for dry)
    × (prepare env (after_dry env s action dry) action ≡ call_for request)
    × (unsigned dry ≡ unsigned request)

graded_unsent :
    (env : Env) (action : ActionRecord) (response : Response) (o : Option String)
    → is_unsent (graded env action response o) ≡ true
    → shows_not_sent env response ≡ true
graded_unsent env action response (some m) h = cc
graded_unsent env action response none h = ground arith

id-IsNew :
    (action : ActionRecord) (response : Response) (m : String)
    → id_in action response ≡ some m
    → (is_ok response ≡ true) × ((m ≢ "") × (some m ≢ target_message_id action))
id-IsNew action (raised error) m h = cc
id-IsNew action (returned r) m h = elim (Bool-cases (result_ok r)) [
  | inl t ↦ (t, extract_message_id_new r.json_data (target_message_id action) m (rw t at h))
  | inr f ↦ cc (let h' : none ≡ some m = rw f at h in h')
]

graded_sent :
    (env : Env) (action : ActionRecord) (response : Response) (o : Option String)
    → graded env action response o ≡ ActionStatus.sent
    → (m : String) × (o ≡ some m)
graded_sent env action response (some m) h = (m, refl)
graded_sent env action response none h = ground arith

module _ (env : Env) (s : State) (action : ActionRecord) (k : ℕ) where
  Out-IsSend :
      (out : Out env s action (execute_actual env s action k))
      → IsSend env s action (execute_actual env s action k) out.dry out.request
  Out-IsSend out = (
    out.calls,
    out.dry_prepared,
    out.prepared,
    prepare-unsigned env s (after_dry env s action out.dry) action out.dry out.request
        out.dry_prepared out.prepared,
  )

  -- Either no call that sends for good is made, or exactly one, as the last call: the action as it is
  -- prepared then, straight after a dry run under the same idempotency key which succeeded, at a
  -- moment when the action's source message was at the revision the action was made for. Target and
  -- text are those of the dry run; the identity may be another, since task, membership, policy and
  -- clock are read again.
  pub sends_once_after_dry_run :
      (real_calls (calls_of (execute_actual env s action k)) ≡ real_calls s.calls)
      ⊎ ((dry request : Request) × IsSend env s action (execute_actual env s action k) dry request
          × (is_ok (env.client s.calls (call_of action true dry)) ≡ true)
          × (action_revision_is_current (after_dry env s action dry).db action ≡ true))
  sends_once_after_dry_run = elim (Ran-of env s action k (prepare env s action) refl) [
    | inl (same, _) ↦ inl same
    | inr out ↦ inr (out.dry, out.request, Out-IsSend out, out.dry_run_ok, out.current)
  ]

  -- A status of failed or cancelled means that nothing was sent: no call that sends for good was
  -- made, or the answer to the one that was made is taken by the code to show that it was not
  -- carried out.
  pub failed_not_sent :
      is_unsent (status_of (execute_actual env s action k)) ≡ true
      → (real_calls (calls_of (execute_actual env s action k)) ≡ real_calls s.calls)
        ⊎ ((dry request : Request) × IsSend env s action (execute_actual env s action k) dry request
            × (shows_not_sent env (answer env s action dry request) ≡ true))
  failed_not_sent unsent = elim (Ran-of env s action k (prepare env s action) refl) [
    | inl (same, _) ↦ inl same
    | inr out ↦ inr (
      out.dry,
      out.request,
      Out-IsSend out,
      graded_unsent env action (answer env s action out.dry out.request) _
          (rw out.grade.0 at unsent),
    )
  ]

  -- A status of sent is returned only after a call that sends for good was answered with success
  -- and with an id that is recorded in the result, is not empty and is not the id of the message
  -- that the action answers.
  pub sent_has_new_id :
      status_of (execute_actual env s action k) ≡ ActionStatus.sent
      → ((dry request : Request) × (m : String) × IsSend env s action
            (execute_actual env s action k)
            dry
            request
          × (is_ok (answer env s action dry request) ≡ true)
          × (sent_id_of (execute_actual env s action k) ≡ some m)
          × (m ≢ "")
          × (some m ≢ target_message_id action))
  sent_has_new_id h = elim (Ran-of env s action k (prepare env s action) refl) [
    | inl (_, unsent) ↦ cc (let h' : true ≡ false = rw h at unsent in h')
    | inr out ↦
        let response = answer env s action out.dry out.request in
        let (m, e) =
          graded_sent env action response (id_in action response) (cc (h, out.grade.0)) in
        let (ok, new) = id-IsNew action response m e in
        (out.dry, out.request, m, Out-IsSend out, ok, cc (e, out.grade.1), new.0, new.1)
  ]
