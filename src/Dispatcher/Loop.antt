-- ===== src/Dispatcher/Loop.antt =====
-- dispatcher.py: Dispatcher.dispatch, one pass over the actions that are due.
use Prim.Native.String.{◌++◌ as concat}
use feishu_shadow_agent.Prelude.{
  ℕ, suc, String, Bool, true, false, not, ◌&&◌, Option, none, some, List, [], ◌∷◌, ◌++◌, ◌==◌, any,
  filter, if◌then◌else◌, nat_eq,
}
use feishu_shadow_agent.Types.{
  ActionRecord, owner_notification, ActionStatus, ExecutionMode, is_send_reply, is_sent,
  is_production,
}
use feishu_shadow_agent.Store.{Db, find_action}
use feishu_shadow_agent.Store.Dispatch.{
  DispatchClaim, list_dispatchable_actions, claim_action_for_dispatch, finish_claimed_action,
}
use feishu_shadow_agent.Store.Recovery.{Recovered, mark_stale_sending_actions}
use feishu_shadow_agent.Dispatcher.{Call, Env, State, DispatchResult, to_fields}
use feishu_shadow_agent.Dispatcher.Execute.{Executed, execute_actual}
use feishu_shadow_agent.Dispatcher.Notices.{
  queue_failed_reply_notification, preview_action_record, stale_revision_cancelled,
}

pub record DispatchSummary : Type 0 where
  pub processed : ℕ
  pub sent : ℕ
  pub previewed : ℕ
  pub failed : ℕ
  pub skipped : ℕ

abbrev pub empty_summary : DispatchSummary
empty_summary = record { processed = 0; sent = 0; previewed = 0; failed = 0; skipped = 0 }

-- The arguments of dispatch.
pub record Options : Type 0 where
  pub allow_send_reply_actual : Bool
  pub allow_owner_notification_actual : Bool
  pub blocked_send_reply_reason : Option String
  pub limit : ℕ

-- the _bump of each way to end
abbrev bump_claim_skipped : DispatchSummary → DispatchSummary
bump_claim_skipped x = record x { skipped = suc x.skipped }

abbrev bump_finish_skipped : DispatchSummary → DispatchSummary
bump_finish_skipped x = record x { processed = suc x.processed; skipped = suc x.skipped }

abbrev pub bump_finished : Bool → DispatchSummary → DispatchSummary
bump_finished true x = record x { processed = suc x.processed; sent = suc x.sent }
bump_finished false x = record x { processed = suc x.processed; failed = suc x.failed }

abbrev bump_previewed : DispatchSummary → DispatchSummary
bump_previewed x = record x { processed = suc x.processed; previewed = suc x.previewed }

abbrev pub runtime_allows_actual : Options → ActionRecord → Bool
runtime_allows_actual o action =
    if is_send_reply action.kind
    then o.allow_send_reply_actual
    else o.allow_owner_notification_actual

abbrev pub actual_allowed : Options → ActionRecord → Bool
actual_allowed o action = is_production action.execution_mode && runtime_allows_actual o action

abbrev mode_text : ExecutionMode → String
mode_text ExecutionMode.dry_run = "dry_run"
mode_text ExecutionMode.production = "production"

abbrev blocked_actual_reason : Options → ActionRecord → Option String
blocked_actual_reason o action =
    if not (is_production action.execution_mode)
    then some (concat "execution_mode_" (mode_text action.execution_mode))
    else if is_send_reply action.kind
    then o.blocked_send_reply_reason
    else none

-- A state of the loop: what the dispatcher works on, and the summary so far.
abbrev pub Pass : Type 0
Pass = State × DispatchSummary

-- the action's failure is reported, unless its revision went stale
abbrev notified : Env → List Call → ActionRecord → ℕ → DispatchResult → ActionStatus → Db → Db
notified env calls claimed attempt_id result status db =
    if is_sent status
    then db
    else if stale_revision_cancelled status result
    then db
    else queue_failed_reply_notification env calls claimed status (to_fields result)
        (concat "attempt:" (env.show attempt_id)) db

abbrev pub finished :
    Env
    → DispatchClaim
    → DispatchResult
    → ActionStatus
    → State
    → DispatchSummary
    → Option ActionRecord × Db
    → Pass
finished env c result status s x (none, db) = (record s { db = db }, bump_finish_skipped x)
finished env c result status s x (some row, db) = (
  record s { db = notified env s.calls c.action c.attempt.id result status db },
  bump_finished (is_sent status) x,
)

-- finish_claimed_action with what _execute_actual returned
abbrev pub after_execute : Env → DispatchClaim → DispatchSummary → Executed → Pass
after_execute env c x e = finished env c e.0.0 e.0.1 e.1 x (
    finish_claimed_action e.1.db c.action.id c.attempt.id e.0.1 (to_fields e.0.0)
      (env.now e.1.calls))

abbrev pub after_claim : Env → State → DispatchSummary → Option DispatchClaim × Db → Pass
after_claim env s x (none, db) = (record s { db = db }, bump_claim_skipped x)
after_claim env s x (some c, db) =
    after_execute env c x (execute_actual env (record s { db = db }) c.action c.attempt.id)

-- the body of the loop
unfoldable pub dispatch_one : Env → Options → ActionRecord → Pass → Pass
dispatch_one env o action (s, x) =
    if actual_allowed o action
    then after_claim env s x (claim_action_for_dispatch s.db action.id (env.now s.calls))
    else ((preview_action_record env s action (blocked_actual_reason o action)).1, bump_previewed x)

unfoldable pub dispatch_each : Env → Options → List ActionRecord → Pass → Pass
dispatch_each env o [] p = p
dispatch_each env o (action ∷ rest) p = dispatch_each env o rest (dispatch_one env o action p)

abbrev recovered_notice : Env → List Call → Option ActionRecord → Db → Db
recovered_notice env calls none db = db
recovered_notice env calls (some action) db =
    queue_failed_reply_notification env calls action ActionStatus.failed_needs_review action.result
      "stale_recovery" db

unfoldable pub notify_recovered : Env → List Call → List Recovered → Db → Db
notify_recovered env calls [] db = db
notify_recovered env calls (r ∷ rest) db =
    notify_recovered env calls rest
      (if r.as_sent then db else recovered_notice env calls (find_action r.action_id db.actions) db)

-- the actions that are due; beyond the limit, notifications of the owner are added
unfoldable pub due_actions : Db → Options → List ActionRecord
due_actions db o =
    let actions = list_dispatchable_actions db o.limit none in
    if o.allow_owner_notification_actual
    then actions
      ++ filter (λ (a : ActionRecord). not (any (λ (b : ActionRecord). b.id == a.id) actions))
          (list_dispatchable_actions db o.limit (some owner_notification))
    else actions

-- the default of mark_stale_sending_actions_failed_needs_review
abbrev stale_after_seconds : ℕ
stale_after_seconds = 900

-- the store when the loop starts
abbrev pub recovered_store : Env → State → Db
recovered_store env s =
    let (recovered, db') = mark_stale_sending_actions s.db stale_after_seconds (env.now s.calls) in
    notify_recovered env s.calls recovered db'

-- Dispatcher.dispatch
unfoldable pub dispatch : Env → Options → State → DispatchSummary × State
dispatch env o s =
    let db = recovered_store env s in
    let (s', summary) =
      dispatch_each env o (due_actions db o) (record s { db = db }, empty_summary) in
    (summary, s')
