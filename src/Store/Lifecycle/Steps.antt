-- ===== src/Store/Lifecycle/Steps.antt =====
-- Each operation of the store moves each action along an edge of its diagram.
use feishu_shadow_agent.Prelude.{
  ℕ, ◌==◌, nat_eq, string_eq, any, ◌&&◌, Bool, true, Option, none, some, ◌≡◌, refl, arith,
  Bool-cases, inl, inr, if◌then◌else◌,
}
use feishu_shadow_agent.Types.{
  is_pending, is_sending, is_failed_needs_review, is_sent, ActionStatus, ActionRecord,
  DispatchAttemptRecord, pending, sending, sent,
}
use feishu_shadow_agent.Json.{Fields}
use feishu_shadow_agent.Store.{Db}
use feishu_shadow_agent.Store.Dispatch.{
  written, same_sent_message, finish_checked, merged_result, claim_action_for_dispatch,
  update_dispatch_attempt, record_action_preview, finish_claimed_action, at_status, set_status,
  set_result,
}
use feishu_shadow_agent.Store.Fence.{expire_pending_approvals}
use feishu_shadow_agent.Store.Moves.{Moves, Moves-refl, Moves-weaken}
use feishu_shadow_agent.Store.Lifecycle.{Final, final_status, Automatic, run, automatic}
use feishu_shadow_agent.Store.Lifecycle.Rules.{
  Ends, Ends-if, Ends-stay, automatic_refl, update-Moves,
}
use feishu_shadow_agent.Store.Lifecycle.Settling.{
  expire_approvals-Moves, fence-Moves, fenced-automatic, recover-Moves,
}
use feishu_shadow_agent.Store.Lifecycle.Creating.{create-Ends, queue_notice-Ends}

claim-Moves :
    (db : Db) (i now : ℕ)
    → Moves automatic db.actions (claim_action_for_dispatch db i now).1.actions
unfolding claim_action_for_dispatch
claim-Moves db i now = elim (Bool-cases (any (at_status i is_pending) db.actions)) [
  | inl t ↦ rw t (
      update-Moves automatic (at_status i is_pending) (set_status sending now) db.actions
        (λ r. refl) (λ r. refl) (λ r. refl) (λ r. ground arith))
  | inr t ↦ rw t (Moves-refl automatic automatic_refl db.actions)
]

preview-Moves :
    (db : Db) (i : ℕ) (result : Fields) (now : ℕ)
    → Moves automatic db.actions (record_action_preview db i result now).actions
unfolding record_action_preview
preview-Moves db i result now =
    update-Moves automatic (at_status i is_pending) (set_result pending result now) db.actions
      (λ r. refl) (λ r. refl) (λ r. refl) (λ r. ground arith)

written-Ends :
    (db : Db) (i : ℕ) (p : ActionStatus → Bool) (status : ActionStatus) (result : Fields) (now : ℕ)
    → ((r : ActionRecord)
        → automatic r.status (if at_status i p r then set_result status result now r else r).status
          ≡ true)
    → Ends automatic db.actions (written db i p status result now)
written-Ends db i p status result now ok = record {
  moves =
      update-Moves automatic (at_status i p) (set_result status result now) db.actions (λ r. refl)
        (λ r. refl) (λ r. refl) ok;
}

finish_checked-Ends :
    (db : Db) (i attempt : ℕ) (f : Final) (result : Fields) (now : ℕ)
    (latest : Option DispatchAttemptRecord) (row : Option ActionRecord)
    → Ends automatic db.actions (finish_checked db i attempt (final_status f) result now latest row)
unfolding finish_checked
finish_checked-Ends db i attempt f result now none row = Ends-stay db none
finish_checked-Ends db i attempt f result now (some latest) none = Ends-stay db none
finish_checked-Ends db i attempt f result now (some latest) (some row) =
    Ends-if (latest.id == attempt) refl
      (Ends-if (is_sending row.status) refl
        (written-Ends db i is_sending (final_status f) result now (λ r. ground arith))
        (Ends-if
          (is_sent (final_status f)
            && (is_failed_needs_review row.status
                && same_sent_message latest.sent_message_id result))
          refl
          (written-Ends db i is_failed_needs_review sent (merged_result row.result result) now
            (λ r. ground arith))
          (Ends-stay db none)))
      (Ends-stay db none)

-- Whatever operation runs by itself, every action stays in the table under its id, kind and
-- idempotency key, and its status stays or moves along an edge of the diagram `automatic`.
pub run-Moves : (o : Automatic) (db : Db) → Moves automatic db.actions (run o db).actions
unfolding run
run-Moves (Automatic.claim i now) db = claim-Moves db i now
run-Moves (Automatic.update_attempt i u now) db =
    unfold update_dispatch_attempt in Moves-refl automatic automatic_refl db.actions
run-Moves (Automatic.preview i result now) db = preview-Moves db i result now
run-Moves (Automatic.finish i attempt f result now) db =
    unfold finish_claimed_action in (finish_checked-Ends db i attempt f result now _ _).moves
run-Moves (Automatic.recover seconds now) db = recover-Moves db seconds now
run-Moves (Automatic.create_reply n now) db = (create-Ends db now n).moves
run-Moves (Automatic.notify n now) db = (queue_notice-Ends db now n).moves
run-Moves (Automatic.expire now exclude) db =
    unfold expire_pending_approvals in
    Moves-weaken fenced-automatic (expire_approvals-Moves now _ db)
run-Moves (Automatic.fence m current reason now) db =
    Moves-weaken fenced-automatic (fence-Moves db m current reason now)
run-Moves (Automatic.write_messages messages task_messages) db =
    Moves-refl automatic automatic_refl db.actions
