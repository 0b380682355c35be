-- ===== src/Tests/Actions.antt =====
-- The store's theorems on one reply.
use feishu_shadow_agent.Prelude.{List, none, some, [], ◌∷◌, ◌≡◌, ◌⊎◌, refl, inl}
use feishu_shadow_agent.Json.{Fields, get, str, field, end}
use feishu_shadow_agent.Types.{ActionRecord, pending, sending, sent, failed_needs_review}
use feishu_shadow_agent.Store.{Db, find_action, latest_attempt}
use feishu_shadow_agent.Store.Dispatch.{claim_action_for_dispatch, finish_claimed_action}
use feishu_shadow_agent.Store.Fence.{invalidate_stale_revision_side_effects}
use feishu_shadow_agent.Store.Lifecycle.{Automatic, Manual}
use feishu_shadow_agent.Store.Lifecycle.Traces.{
  Step, by_agent, by_owner, run_all, run_automatic, terminal_stays, uncertain_awaits_review,
}
use feishu_shadow_agent.Store.Claims.{claim_exclusive, sent_despite_fence}
use feishu_shadow_agent.Tests.Data.{reply, store, attempt}

abbrev agent_steps : List Automatic
agent_steps = Automatic.recover 900 2000000000 ∷ Automatic.claim 7 2000000001 ∷ []

abbrev all_steps : List Step
all_steps =
    by_owner (Manual.cancel 7 40)
    ∷ by_owner (Manual.retry 7 41)
    ∷ by_agent (Automatic.claim 7 42)
    ∷ []

terminal_example :
    (b : ActionRecord) × (find_action 7 (run_all all_steps (store sent [])).actions ≡ some b)
    × (b.status ≡ sent)
    × (b.kind ≡ (reply sent).kind)
    × (b.idempotency_key ≡ (reply sent).idempotency_key)
terminal_example = terminal_stays all_steps (store sent []) 7 (reply sent) refl (inl refl)

uncertain_example :
    (b : ActionRecord) × (find_action 7
        (run_automatic agent_steps (store failed_needs_review [])).actions
      ≡ some b)
    × ((b.status ≡ failed_needs_review) ⊎ (b.status ≡ sent))
uncertain_example =
    uncertain_awaits_review agent_steps (store failed_needs_review []) 7 (reply failed_needs_review)
      refl refl

claim_example :
    claim_action_for_dispatch (claim_action_for_dispatch (store pending []) 7 20).1 7 21
    ≡ (none, (claim_action_for_dispatch (store pending []) 7 20).1)
claim_example = claim_exclusive (store pending []) 7 20 21

abbrev under_way : Db
under_way = store sending (attempt ∷ [])

abbrev sent_result : Fields
sent_result = field "sent_message_id" (str "om_new") end

has_attempt : latest_attempt 7 under_way.attempts ≡ some attempt
unfolding latest_attempt
has_attempt = refl

fence_example :
    (row : ActionRecord) × ((finish_claimed_action
        (invalidate_stale_revision_side_effects under_way "om_source" 2 "edited" 25).1
        7
        4
        sent
        sent_result
        30).0
      ≡ some row)
    × (row.status ≡ sent)
unfolding get
fence_example =
    sent_despite_fence under_way 7 25 30 "om_source" "edited" 2 sent_result (reply sending) attempt
      refl refl has_attempt refl
