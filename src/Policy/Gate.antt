-- ===== src/Policy/Gate.antt =====
-- policy.py: the gates that decide whether a reply is sent and with which identity, and whether the
-- resources of a message are downloaded. `str.strip` is a parameter.
use feishu_shadow_agent.Prelude.{
  ℕ, String, Bool, true, false, not, ◌&&◌, ◌||◌, Option, none, some, ◌==◌, if◌then◌else◌, string_eq,
}
use feishu_shadow_agent.Types.{ChatType, group}
use feishu_shadow_agent.Decision.{Answerability}
use feishu_shadow_agent.Revision.{is_auto_reply}
use feishu_shadow_agent.Policy.{
  Result, ◌>>=◌, PolicySource, unknown_group, ReplyIdentity, bot_preferred, user, Repository,
  ResolvedChatPolicy, global_of, validated, or_text, or_type, resolve_chat_policy,
}

pub data ResourceReason : Type 0 where
  disabled_by_chat_policy bot_not_joined ok : ResourceReason

pub record ResourcePolicyDecision : Type 0 where
  pub allow : Bool
  pub reason : ResourceReason
  pub policy_source : PolicySource

abbrev resource_decision : ResolvedChatPolicy → ResourcePolicyDecision
resource_decision policy =
    if not policy.resource_download
    then record {
      allow = false;
      reason = disabled_by_chat_policy;
      policy_source = policy.policy_source;
    }
    else if not policy.bot_joined
    then record { allow = false; reason = bot_not_joined; policy_source = policy.policy_source }
    else record { allow = true; reason = ResourceReason.ok; policy_source = policy.policy_source }

-- PolicyResolver.can_download_resources
unfoldable pub can_download_resources :
    Repository → ℕ → Option String → Option ChatType → Result ResourcePolicyDecision
can_download_resources repo now chat_id chat_type = do
  policy ← resolve_chat_policy repo now chat_id chat_type
  Result.ok (resource_decision policy)

pub data ReplyReason : Type 0 where
  needs_owner forbidden_mentions empty_proposed_reply p2p_auto_reply_disabled : ReplyReason
  group_not_direct_mention unknown_group_auto_reply_disabled group_auto_reply_disabled : ReplyReason
  bot_not_joined unknown_chat_type ok : ReplyReason

pub data SendAs : Type 0 where
  as_bot as_user : SendAs

pub record ReplyPolicyDecision : Type 0 where
  pub allow : Bool
  pub reason : ReplyReason
  pub identity : SendAs
  pub policy_source : PolicySource

abbrev pub refuse : ReplyReason → ResolvedChatPolicy → ReplyPolicyDecision
refuse reason policy = record {
  allow = false;
  reason = reason;
  identity = as_user;
  policy_source = policy.policy_source;
}

abbrev pub allow_as : SendAs → ResolvedChatPolicy → ReplyPolicyDecision
allow_as identity policy = record {
  allow = true;
  reason = ReplyReason.ok;
  identity = identity;
  policy_source = policy.policy_source;
}

abbrev pub wants_bot : ReplyIdentity → Bool
wants_bot user = false
wants_bot _ = true

abbrev pub is_user : ReplyIdentity → Bool
is_user user = true
is_user _ = false

abbrev pub is_bot_preferred : ReplyIdentity → Bool
is_bot_preferred bot_preferred = true
is_bot_preferred _ = false

abbrev is_unknown_group : PolicySource → Bool
is_unknown_group unknown_group = true
is_unknown_group _ = false

group_decision : Bool → ResolvedChatPolicy → ReplyPolicyDecision
group_decision direct_mention policy =
    if not direct_mention
    then refuse group_not_direct_mention policy
    else if not policy.auto_reply
    then refuse
        (if is_unknown_group policy.policy_source
          then unknown_group_auto_reply_disabled
          else group_auto_reply_disabled)
        policy
    else if wants_bot policy.reply_identity && policy.bot_joined
    then allow_as as_bot policy
    else if is_user policy.reply_identity
    then allow_as as_user policy
    else if is_bot_preferred policy.reply_identity && policy.allow_user_fallback
    then allow_as as_user policy
    else record (refuse ReplyReason.bot_not_joined policy) { identity = as_bot }

-- What the caller passes on of the task, the message and the agent's answer.
pub record ReplyRequest : Type 0 where
  pub task_chat_id : Option String
  pub task_chat_type : Option ChatType
  pub message_chat_id : Option String
  pub message_chat_type : Option ChatType
  pub direct_mention : Bool
  pub answerability : Answerability
  pub had_forbidden_mentions : Bool
  pub proposed_reply : String
  pub final_reply : String

abbrev pub chat_type_of : ReplyRequest → Option ChatType
chat_type_of r = or_type r.task_chat_type r.message_chat_type

abbrev pub chat_id_of : ReplyRequest → Option String
chat_id_of r = or_text r.task_chat_id r.message_chat_id

chat_decision :
    Repository → Option ChatType → Bool → ResolvedChatPolicy → Result ReplyPolicyDecision
unfolding group_decision
chat_decision repo (some ChatType.p2p) direct_mention policy = do
  global ← global_of repo.product_policy
  reply ← validated global.reply_policy
  Result.ok (
      if not reply.p2p_auto_reply
      then refuse p2p_auto_reply_disabled policy
      else allow_as as_user policy)
chat_decision repo (some group) direct_mention policy =
    Result.ok (group_decision direct_mention policy)
chat_decision repo none direct_mention policy = Result.ok (refuse unknown_chat_type policy)

module _ (strip : String → String) where
  abbrev pub is_blank : String → Bool
  is_blank s = strip s == ""

  -- PolicyResolver.resolve_reply_policy
  unfoldable pub resolve_reply_policy : Repository → ℕ → ReplyRequest → Result ReplyPolicyDecision
  unfolding chat_decision
  resolve_reply_policy repo now r = do
    policy ← resolve_chat_policy repo now (chat_id_of r) (chat_type_of r)
    if not (is_auto_reply r.answerability)
        then Result.ok (refuse needs_owner policy)
        else if r.had_forbidden_mentions
        then Result.ok (refuse forbidden_mentions policy)
        else if is_blank r.proposed_reply || is_blank r.final_reply
        then Result.ok (refuse empty_proposed_reply policy)
        else chat_decision repo (chat_type_of r) r.direct_mention policy
