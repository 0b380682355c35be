-- ===== src/Tests/Policies.antt =====
-- The theorems on policies, membership, corrections, eligibility and decisions, on one chat.
use feishu_shadow_agent.Prelude.{
  String, true, false, ◌&&◌, Option, none, some, List, [], ◌∷◌, ◌≡◌, ◌⊎◌, ◌↔◌, refl, all, is_empty,
}
use feishu_shadow_agent.Types.{group, p2p, is_self_message, is_owner_message, ChatType}
use feishu_shadow_agent.Decision.{
  auto_reply, DecisionReason, sufficient_evidence_low_risk, validate_decision_reason,
}
use feishu_shadow_agent.Decision.Laws.{answer_of, validate_decision_reason_iff}
use feishu_shadow_agent.Eligibility.{decide, keep, direct_owner_mention, has, is_acquisition_source}
use feishu_shadow_agent.Eligibility.Laws.{kept_message}
use feishu_shadow_agent.Membership.{
  observed, absent, unknown, Observation, Config, effective_membership_status, observe_all,
}
use feishu_shadow_agent.Membership.Episodes.{IsConsecutive, notices_alternate}
use feishu_shadow_agent.Revision.{
  RevisionImpact, assess_revision_impact, canonical_reply, high_signals, low_risk_reason,
}
use feishu_shadow_agent.Revision.Laws.{impact-none_iff}
use feishu_shadow_agent.Policy.{unknown_group, ok, ResolvedChatPolicy, resolve_chat_policy}
use feishu_shadow_agent.Policy.Gate.{
  ReplyReason, bot_not_joined, ReplyRequest, ReplyPolicyDecision, ResourcePolicyDecision,
  resolve_reply_policy, can_download_resources, as_bot, as_user, is_blank, chat_id_of, chat_type_of,
  is_user,
}
use feishu_shadow_agent.Policy.Laws.{allowed_reply, absent_bot}
use feishu_shadow_agent.Tests.Data.{repository, global_policy, fact, message}

abbrev words : String → List String
words s = s ∷ []

abbrev same : String → String
same s = s

abbrev request : ReplyRequest
request = record {
  task_chat_id = some "oc_chat";
  task_chat_type = some group;
  message_chat_id = none;
  message_chat_type = none;
  direct_mention = true;
  answerability = auto_reply;
  had_forbidden_mentions = false;
  proposed_reply = "Done.";
  final_reply = "Done.";
}

decision_example :
    (validate_decision_reason auto_reply (some sufficient_evidence_low_risk) ≡ none) ↔ (
      ((some sufficient_evidence_low_risk ≡ none) × (auto_reply ≡ auto_reply))
      ⊎ ((x : DecisionReason) × (some sufficient_evidence_low_risk ≡ some x)
          × (answer_of x ≡ auto_reply)))
decision_example = validate_decision_reason_iff auto_reply (some sufficient_evidence_low_risk)

abbrev sources : List String
sources = "group_at_me" ∷ []

is_kept : decide message sources ≡ keep direct_owner_mention
unfolding decide
is_kept = refl

kept_example :
    (is_empty sources ≡ false)
    × (all is_acquisition_source sources ≡ true)
    × (is_self_message message.sender_role ≡ false)
    × (message.at_all ≡ false)
    × ((message.chat_type ≡ some p2p)
        ⊎ ((message.chat_type ≡ some group)
            × (has "p2p" sources ≡ false)
            × ((is_owner_message message.sender_role ≡ true)
                ⊎ ((has "group_at_me" sources && message.direct_mention ≡ true)
                    ⊎ (has "active_watch" sources ≡ true)))))
kept_example = kept_message message sources direct_owner_mention is_kept

abbrev config : Config
config = record { bot_membership_retry_seconds = 60; bot_membership_ttl_seconds = 3600 }

abbrev seen_absent : Observation
seen_absent = record { seen = absent; at = 100; source = "probe"; error = none }

abbrev seen_unknown : Observation
seen_unknown = record { seen = unknown; at = 200; source = "probe"; error = none }

alternate_example : IsConsecutive 0 (observe_all config none (seen_absent ∷ seen_unknown ∷ []))
alternate_example = notices_alternate config (seen_absent ∷ seen_unknown ∷ [])

abbrev no_target : Option String
no_target = none

none_example :
    ((assess_revision_impact words "a" "a" auto_reply none no_target no_target []).impact
      ≡ RevisionImpact.none)
    ↔ ((canonical_reply words "a" ≡ canonical_reply words "a")
        × (no_target ≡ no_target)
        × (auto_reply ≡ auto_reply)
        × (low_risk_reason none ≡ true)
        × (high_signals [] ≡ []))
none_example = impact-none_iff words "a" "a" auto_reply none no_target no_target []

abbrev as_a_user : ReplyPolicyDecision
as_a_user = record {
  allow = true;
  reason = ReplyReason.ok;
  identity = as_user;
  policy_source = unknown_group;
}

abbrev no_bot : ResourcePolicyDecision
no_bot = record { allow = false; reason = bot_not_joined; policy_source = unknown_group }

is_allowed :
    resolve_reply_policy same (repository (some global_policy) (some fact)) 500 request
    ≡ ok as_a_user
unfolding resolve_reply_policy resolve_chat_policy effective_membership_status
is_allowed = refl

no_download :
    can_download_resources
      (repository (some global_policy) (some fact))
      500
      (some "oc_chat")
      (some group)
    ≡ ok no_bot
unfolding can_download_resources resolve_chat_policy effective_membership_status
no_download = refl

seen_as_absent : effective_membership_status (some fact) 500 ≡ observed absent
unfolding effective_membership_status
seen_as_absent = refl

allowed_example :
    (request.answerability ≡ auto_reply)
    × (request.had_forbidden_mentions ≡ false)
    × (is_blank same request.proposed_reply ≡ false)
    × (is_blank same request.final_reply ≡ false)
    × (((chat_type_of request ≡ some ChatType.p2p) × (as_user ≡ as_user))
        ⊎ ((chat_type_of request ≡ some group)
            × (request.direct_mention ≡ true)
            × ((p : ResolvedChatPolicy) × (resolve_chat_policy
                    (repository (some global_policy) (some fact))
                    500
                    (chat_id_of request)
                    (chat_type_of request)
                  ≡ ok p)
                × (p.auto_reply ≡ true)
                × (((as_user ≡ as_bot) × (p.bot_joined ≡ true))
                    ⊎ ((as_user ≡ as_user)
                        × ((is_user p.reply_identity ≡ true) ⊎ (p.allow_user_fallback ≡ true)))))))
allowed_example =
    allowed_reply same (repository (some global_policy) (some fact)) 500 request as_a_user
      is_allowed refl

absent_example :
    ((as_a_user.allow ≡ false) ⊎ (as_a_user.identity ≡ as_user)) × (no_bot.allow ≡ false)
absent_example =
    absent_bot same (repository (some global_policy) (some fact)) 500 request as_a_user no_bot
      "oc_chat" refl refl seen_as_absent is_allowed no_download
