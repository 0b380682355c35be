-- ===== src/Revision/Laws.antt =====
-- What the impact of a correction depends on (revision.py).
use feishu_shadow_agent.Prelude.{
  ℕ, ◌≤◌, String, true, ◌≡◌, ◌↔◌, Option, List, ◌++◌, [], ◌∷◌, ◌==◌, arith, eq_iff, any, string_eq,
  option_text_iff, refl, Bool, is_empty, ◌||◌,
}
use feishu_shadow_agent.Decision.{Answerability, auto_reply, DecisionReason}
use feishu_shadow_agent.Revision.{
  RevisionImpact, none, low, high, uncertain, canonical_reply, high_signals, low_risk_reason,
  assess_revision_impact,
}

-- the order of risk
abbrev pub risk : RevisionImpact → ℕ
risk none = 0
risk low = 1
risk uncertain = 2
risk high = 3

any-append : (p : String → Bool) (xs ys : List String) → any p (xs ++ ys) ≡ any p xs || any p ys
any-append p [] ys = refl
any-append p (x ∷ xs) ys = ground (arith, any-append p xs ys)

-- the high signals stay when signals are added in front
high_signals-append :
    (more signals : List String)
    → is_empty (high_signals (more ++ signals)) ≡ true
    → is_empty (high_signals signals) ≡ true
unfolding high_signals
high_signals-append more signals h = ground (
  arith,
  any-append (λ s. s == "commitment_change") more signals,
  any-append (λ s. s == "factual_correction") more signals,
  any-append (λ s. s == "permission_change") more signals,
  any-append (λ s. s == "sensitive_change") more signals,
  any-append (λ s. s == "uncertain") more signals,
)

module _ (split : String → List String) where
  -- Signals of the agent can only raise the impact: with any signals added, the risk is at least
  -- what it was without them.
  pub signals_escalate :
      (previous current : String) (a : Answerability) (r : Option DecisionReason)
      (target before : Option String) (more signals : List String)
      → risk (assess_revision_impact split previous current a r target before signals).impact
        ≤ risk
            (assess_revision_impact split previous current a r target before
              (more ++ signals)).impact
  unfolding assess_revision_impact
  signals_escalate previous current a r target before more signals =
      ground (arith, high_signals-append more signals)

  -- The impact is `none` exactly when the reply has the same words, the target is the same, the
  -- agent would still answer by itself for a reason of low risk, and no signal is of high impact.
  pub impact-none_iff :
      (previous current : String) (a : Answerability) (r : Option DecisionReason)
      (target before : Option String) (signals : List String)
      → ((assess_revision_impact split previous current a r target before signals).impact ≡ none)
        ↔ ((canonical_reply split previous ≡ canonical_reply split current)
            × (target ≡ before)
            × (a ≡ auto_reply)
            × (low_risk_reason r ≡ true)
            × (high_signals signals ≡ []))
  unfolding assess_revision_impact
  impact-none_iff previous current a r target before signals = (
    λ h. ground (
      arith,
      eq_iff (canonical_reply split previous) (canonical_reply split current),
      option_text_iff target before,
    ),
    λ h. ground (
      arith,
      eq_iff (canonical_reply split previous) (canonical_reply split current),
      option_text_iff target before,
    ),
  )
