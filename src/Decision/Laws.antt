-- ===== src/Decision/Laws.antt =====
-- The accepted pairs of validate_decision_reason (decision.py).
use feishu_shadow_agent.Prelude.{Option, none, some, ◌≡◌, ◌⊎◌, ◌↔◌, inr, refl, arith}
use feishu_shadow_agent.Decision.{
  Answerability, auto_reply, DecisionReason, validate_decision_reason,
}

-- the one answer that a reason is listed under
abbrev pub answer_of : DecisionReason → Answerability
answer_of DecisionReason.sufficient_evidence_low_risk = auto_reply
answer_of DecisionReason.no_response_needed = Answerability.no_reply
answer_of DecisionReason.already_resolved = Answerability.no_reply
answer_of DecisionReason.duplicate_or_stale = Answerability.no_reply
answer_of _ = Answerability.needs_owner

accepted_iff :
    (a : Answerability) (r : DecisionReason)
    → (validate_decision_reason a (some r) ≡ none) ↔ (answer_of r ≡ a)
unfolding validate_decision_reason
accepted_iff a r = ground arith

-- A missing reason is accepted with `auto_reply` and no other answer; a reason that is given is
-- accepted with exactly one answer, the one under which it is listed.
pub validate_decision_reason_iff :
    (a : Answerability) (r : Option DecisionReason)
    → (validate_decision_reason a r ≡ none) ↔ (
        ((r ≡ none) × (a ≡ auto_reply)) ⊎ ((x : DecisionReason) × (r ≡ some x) × (answer_of x ≡ a)))
unfolding validate_decision_reason
validate_decision_reason_iff a none = (λ h. ground arith, λ h. ground arith)
validate_decision_reason_iff a (some x) =
    (λ h. inr (x, refl, (accepted_iff a x).0 h), λ h. ground (arith, (accepted_iff a x).1))
