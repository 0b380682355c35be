-- ===== src/Revision.antt =====
-- revision.py: how strongly a corrected message affects a reply that was sent. `str.split` is a
-- parameter, the words of a text.
pub mod Laws
use Prim.Native.String
use feishu_shadow_agent.Prelude.{
  String, Bool, true, false, not, ◌&&◌, ◌||◌, Option, some, List, [], ◌∷◌, ◌++◌, ◌==◌, any,
  is_empty, filter, if◌then◌else◌, string_eq, option_eq,
}
use feishu_shadow_agent.Decision.{
  Answerability, auto_reply, needs_owner, DecisionReason, sufficient_evidence_low_risk,
  commitment_or_authorization, sensitive_or_high_impact, write_or_permission,
}

-- none low high uncertain, as RevisionImpact names them
pub data RevisionImpact : Type 0 where
  none low high uncertain : RevisionImpact

pub record RevisionAssessment : Type 0 where
  pub impact : RevisionImpact
  pub reasons : List String
  pub reply_changed : Bool

-- decision_reason in HIGH_IMPACT_DECISION_REASONS, as the reason's text
abbrev pub high_impact_reason : Option DecisionReason → List String
high_impact_reason (some commitment_or_authorization) = "commitment_or_authorization" ∷ []
high_impact_reason (some sensitive_or_high_impact) = "sensitive_or_high_impact" ∷ []
high_impact_reason (some write_or_permission) = "write_or_permission" ∷ []
high_impact_reason _ = []

-- HIGH_IMPACT_SIGNALS, in the order that `sorted` puts them
abbrev high_impact_signals : List String
high_impact_signals =
    "commitment_change" ∷ "factual_correction" ∷ "permission_change" ∷ "sensitive_change"
    ∷ "uncertain" ∷ []

-- sorted(signals & HIGH_IMPACT_SIGNALS)
unfoldable pub high_signals : List String → List String
high_signals signals = filter (λ h. any (λ s. s == h) signals) high_impact_signals

-- decision_reason in {None, "sufficient_evidence_low_risk"}
abbrev pub low_risk_reason : Option DecisionReason → Bool
low_risk_reason Option.none = true
low_risk_reason (some sufficient_evidence_low_risk) = true
low_risk_reason _ = false

abbrev pub is_auto_reply : Answerability → Bool
is_auto_reply auto_reply = true
is_auto_reply _ = false

abbrev pub is_needs_owner : Answerability → Bool
is_needs_owner needs_owner = true
is_needs_owner _ = false

-- tuple(dict.fromkeys(reasons))
abbrev pub without : String → List String → List String
without s [] = []
without s (x ∷ xs) = let rest = without s xs in if x == s then rest else x ∷ rest

unfoldable pub unique : List String → List String
unique [] = []
unique (x ∷ xs) = x ∷ without x (unique xs)

abbrev pub when : Bool → String → List String
when true s = s ∷ []
when false s = []

-- " ".join(words)
pub join_words : List String → String
join_words [] = ""
join_words (w ∷ []) = w
join_words (w ∷ v ∷ ws) = String.◌++◌ w (String.◌++◌ " " (join_words (v ∷ ws)))

module _ (split : String → List String) where
  -- _canonical_reply
  unfoldable pub canonical_reply : String → String
  canonical_reply value = join_words (split value)

  pub assess_reasons :
      Bool → Bool → Answerability → Option DecisionReason → List String → List String
  assess_reasons reply_changed target_changed answerability decision_reason signals =
      when reply_changed "reply_changed"
      ++ (when target_changed "reply_target_changed"
          ++ (when (is_needs_owner answerability) "needs_owner"
              ++ (high_impact_reason decision_reason ++ signals)))

  unfoldable pub assess_revision_impact :
      String
      → String
      → Answerability
      → Option DecisionReason
      → Option String
      → Option String
      → List String
      → RevisionAssessment
  unfolding assess_reasons
  assess_revision_impact previous_reply current_reply answerability decision_reason current_target
        previous_target revision_signals =
      let reply_changed = not (canonical_reply previous_reply == canonical_reply current_reply) in
      let target_changed = not (current_target == previous_target) in
      let signals = high_signals revision_signals in
      let reasons =
        assess_reasons reply_changed target_changed answerability decision_reason signals in
      let decision_changed =
        not (is_auto_reply answerability) || not (low_risk_reason decision_reason) in
      if not reply_changed && (not target_changed && (not decision_changed && is_empty signals))
      then record { impact = none; reasons = reasons; reply_changed = false }
      else if not (is_empty signals)
          || (is_needs_owner answerability
              || (not (is_empty (high_impact_reason decision_reason)) || target_changed))
      then record { impact = high; reasons = unique reasons; reply_changed = reply_changed }
      else if is_auto_reply answerability && low_risk_reason decision_reason
      then record { impact = low; reasons = unique reasons; reply_changed = reply_changed }
      else record {
        impact = uncertain;
        reasons = unique (reasons ++ "insufficient_revision_evidence" ∷ []);
        reply_changed = reply_changed;
      }
