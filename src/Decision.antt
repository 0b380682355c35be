-- ===== src/Decision.antt =====
-- decision.py: which decision reasons an answer of the agent may carry.
pub mod Laws
use feishu_shadow_agent.Prelude.{Bool, true, false, Option, none, some, if◌then◌else◌}

pub data Answerability : Type 0 where
  auto_reply needs_owner no_reply : Answerability

pub data DecisionReason : Type 0 where
  sufficient_evidence_low_risk : DecisionReason
  no_response_needed already_resolved duplicate_or_stale : DecisionReason
  insufficient_evidence commitment_or_authorization sensitive_or_high_impact : DecisionReason
  write_or_permission human_judgment_required : DecisionReason

-- `none` is a return; an error carries the message's kind.
pub data Rejected : Type 0 where
  requires_decision_reason : Answerability → Rejected
  not_valid_for : DecisionReason → Answerability → Rejected

-- DECISION_REASONS_BY_ANSWERABILITY
abbrev pub allowed : Answerability → DecisionReason → Bool
allowed auto_reply sufficient_evidence_low_risk = true
allowed no_reply no_response_needed = true
allowed no_reply already_resolved = true
allowed no_reply duplicate_or_stale = true
allowed needs_owner insufficient_evidence = true
allowed needs_owner commitment_or_authorization = true
allowed needs_owner sensitive_or_high_impact = true
allowed needs_owner write_or_permission = true
allowed needs_owner human_judgment_required = true
allowed _ _ = false

unfoldable pub validate_decision_reason : Answerability → Option DecisionReason → Option Rejected
validate_decision_reason auto_reply none = none
validate_decision_reason a none = some (requires_decision_reason a)
validate_decision_reason a (some r) = if allowed a r then none else some (not_valid_for r a)
