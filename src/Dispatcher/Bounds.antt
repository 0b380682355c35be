-- ===== src/Dispatcher/Bounds.antt =====
-- dispatcher.py: how many calls one pass of dispatch makes, and what its summary counts.
use feishu_shadow_agent.Prelude.{
  ℕ, zero, suc, ◌+◌, ◌≤◌, Bool, true, false, Option, none, some, List, [], ◌∷◌, ◌++◌, ◌≡◌, refl,
  inl, inr, arith, if◌then◌else◌, Bool-cases, length, take, filter, length-append, count_where,
}
use feishu_shadow_agent.Types.{ActionRecord, ActionStatus, is_sent}
use feishu_shadow_agent.Store.{Db}
use feishu_shadow_agent.Store.Dispatch.{
  DispatchClaim, finish_claimed_action, claim_action_for_dispatch, list_dispatchable_actions,
}
use feishu_shadow_agent.Dispatcher.{Call, Env, State, DispatchResult, to_fields}
use feishu_shadow_agent.Dispatcher.Send.{
  make_call, call_send, prepare, Prepared, answered, call_for,
}
use feishu_shadow_agent.Dispatcher.Execute.{Executed, execute_actual}
use feishu_shadow_agent.Dispatcher.Outcome.{real_calls, calls_of}
use feishu_shadow_agent.Dispatcher.Safety.{sends_once_after_dry_run}
use feishu_shadow_agent.Dispatcher.Notices.{preview_action_record}
use feishu_shadow_agent.Dispatcher.Loop.{
  DispatchSummary, Options, actual_allowed, Pass, after_claim, after_execute, finished,
  dispatch_one, dispatch_each, dispatch, due_actions, recovered_store, empty_summary,
}

-- the actions that the summary tells of
abbrev pub told : DispatchSummary → ℕ
told x = x.sent + (x.failed + (x.previewed + x.skipped))

-- those that were to be sent
abbrev pub tried : DispatchSummary → ℕ
tried x = x.sent + (x.failed + x.skipped)

execute-calls :
    (env : Env) (s : State) (action : ActionRecord) (k : ℕ)
    → real_calls (calls_of (execute_actual env s action k)) ≤ suc (real_calls s.calls)
unfolding real_calls
execute-calls env s action k = elim (sends_once_after_dry_run env s action k) [
  | inl same ↦ omega (arith, same)
  | inr (dry, request, send, _, _) ↦ rw send.0 (omega arith)
]

-- one step: told of one action more, and at most one call, which is counted as tried
record Step (p q : Pass) (allowed : ℕ) : Type 0 where
  told : told q.1 ≡ suc (told p.1)
  tried : tried q.1 ≡ allowed + tried p.1
  calls : real_calls q.0.calls ≤ allowed + real_calls p.0.calls

finished-Step :
    (env : Env) (c : DispatchClaim) (r : DispatchResult) (t : ActionStatus) (s₀ s : State)
    (x : DispatchSummary) (w : Option ActionRecord × Db)
    → real_calls s.calls ≤ suc (real_calls s₀.calls)
    → Step (s₀, x) (finished env c r t s x w) 1
finished-Step env c r t s₀ s x (none, db) h = record {
  told = omega arith;
  tried = omega arith;
  calls = omega (arith, h);
}
finished-Step env c r t s₀ s x (some row, db) h = elim (Bool-cases (is_sent t)) [
  | inl e ↦ rw e (record { told = omega arith; tried = omega arith; calls = omega (arith, h) })
  | inr e ↦ rw e (record { told = omega arith; tried = omega arith; calls = omega (arith, h) })
]

execute-Step :
    (env : Env) (c : DispatchClaim) (s₀ : State) (x : DispatchSummary) (e : Executed)
    → real_calls e.1.calls ≤ suc (real_calls s₀.calls)
    → Step (s₀, x) (after_execute env c x e) 1
execute-Step env c s₀ x e h =
    finished-Step env c e.0.0 e.0.1 s₀ e.1 x
      (finish_claimed_action e.1.db c.action.id c.attempt.id e.0.1 (to_fields e.0.0)
        (env.now e.1.calls))
      h

preview-calls :
    (env : Env) (calls : List Call) (p : Prepared) (action : ActionRecord)
    → real_calls (make_call env calls p action true).1 ≡ real_calls calls
unfolding real_calls
preview-calls env calls (answered r) action = refl
preview-calls env calls (call_for request) action = refl

claim-Step :
    (env : Env) (s : State) (x : DispatchSummary) (claim : Option DispatchClaim × Db)
    → Step (s, x) (after_claim env s x claim) 1
claim-Step env s x (none, db) = record {
  told = omega arith;
  tried = omega arith;
  calls = omega arith;
}
claim-Step env s x (some c, db) =
    execute-Step env c s x (execute_actual env (record s { db = db }) c.action c.attempt.id)
      (execute-calls env (record s { db = db }) c.action c.attempt.id)

one-Step :
    (env : Env) (o : Options) (action : ActionRecord) (p : Pass)
    → Step p (dispatch_one env o action p) (if actual_allowed o action then 1 else 0)
unfolding dispatch_one preview_action_record call_send
one-Step env o action (s, x) = elim (Bool-cases (actual_allowed o action)) [
  | inl t ↦ rw t (claim-Step env s x (claim_action_for_dispatch s.db action.id (env.now s.calls)))
  | inr f ↦ rw f (record {
    told = omega arith;
    tried = omega arith;
    calls = omega (arith, preview-calls env s.calls (prepare env s action) action);
  })
]

abbrev pub allowed_in : Options → List ActionRecord → ℕ
allowed_in o actions = count_where (actual_allowed o) actions

each-Steps :
    (env : Env) (o : Options) (actions : List ActionRecord) (p : Pass)
    → (told (dispatch_each env o actions p).1 ≡ length actions + told p.1)
      × ((tried (dispatch_each env o actions p).1 ≡ allowed_in o actions + tried p.1)
          × (real_calls (dispatch_each env o actions p).0.calls
              ≤ allowed_in o actions + real_calls p.0.calls))
unfolding dispatch_each count_where
each-Steps env o [] p = (omega arith, (omega arith, omega arith))
each-Steps env o (action ∷ rest) p =
    let step = one-Step env o action p in
    let (t, (n, c)) = each-Steps env o rest (dispatch_one env o action p) in
    (omega (arith, t, step.told), (omega (arith, n, step.tried), omega (arith, c, step.calls)))

take-length : (n : ℕ) (xs : List ActionRecord) → length (take n xs) ≤ n
take-length zero xs = omega arith
take-length (suc n) [] = omega arith
take-length (suc n) (x ∷ xs) = omega (arith, take-length n xs)

filter-length :
    (p : ActionRecord → Bool) (xs : List ActionRecord) → length (filter p xs) ≤ length xs
filter-length p [] = omega arith
filter-length p (x ∷ xs) = ground (arith, filter-length p xs)

joined-length :
    (p : ActionRecord → Bool) (n : ℕ) (xs ys : List ActionRecord)
    → length (take n xs ++ filter p (take n ys)) ≤ n + n
joined-length p n xs ys = omega (
  arith,
  length-append (take n xs) (filter p (take n ys)),
  take-length n xs,
  filter-length p (take n ys),
  take-length n ys,
)

due-length : (db : Db) (o : Options) → length (due_actions db o) ≤ o.limit + o.limit
unfolding due_actions list_dispatchable_actions
due-length db o = elim (Bool-cases o.allow_owner_notification_actual) [
  | inr f ↦ rw f (omega (arith, take-length o.limit _))
  | inl t ↦ rw t (joined-length _ o.limit _ _)
]

none_allowed :
    (o : Options) (actions : List ActionRecord)
    → o.allow_send_reply_actual ≡ false
    → o.allow_owner_notification_actual ≡ false
    → allowed_in o actions ≡ 0
unfolding count_where
none_allowed o [] h k = refl
none_allowed o (a ∷ rest) h k = ground (arith, none_allowed o rest h k)

module _ (env : Env) (o : Options) (s : State) where
  abbrev pub due : List ActionRecord
  due = due_actions (recovered_store env s) o

  passes :
      (told (dispatch env o s).0 ≡ length due)
      × ((tried (dispatch env o s).0 ≡ allowed_in o due)
          × (real_calls (dispatch env o s).1.calls ≤ allowed_in o due + real_calls s.calls))
  unfolding dispatch
  passes =
      let (t, (n, c)) =
        each-Steps env o due (record s { db = recovered_store env s }, empty_summary) in
      (omega (arith, t), (omega (arith, n), c))

  -- One pass ends for every action that was due: the summary's sent, failed, previewed and skipped
  -- add up to their number, which is at most twice the limit, and the calls that send for good are
  -- at most as many as the actions counted as sent, failed or skipped.
  pub dispatch_accounts :
      (told (dispatch env o s).0 ≡ length due)
      × ((length due ≤ o.limit + o.limit)
          × (real_calls (dispatch env o s).1.calls
              ≤ tried (dispatch env o s).0 + real_calls s.calls))
  dispatch_accounts =
      let (t, (n, c)) = passes in (t, (due-length (recovered_store env s) o, omega (arith, c, n)))

  -- A pass makes at most as many calls that send for good as there are due actions in production
  -- mode whose kind the pass may send.
  pub dispatch_allowance :
      real_calls (dispatch env o s).1.calls ≤ allowed_in o due + real_calls s.calls
  dispatch_allowance = passes.1.1

  -- A pass that may send neither kind makes no call that sends for good.
  dispatch_disallowed :
      o.allow_send_reply_actual ≡ false
      → o.allow_owner_notification_actual ≡ false
      → real_calls (dispatch env o s).1.calls ≤ real_calls s.calls
  dispatch_disallowed h k = omega (arith, dispatch_allowance, none_allowed o due h k)
