-- ===== src/Policy.antt =====
-- policy.py: the product policy that holds for a chat, and what it allows. The repository is a
-- record of what its rows hold; the value under a key is what `model_validate` (pydantic) makes of
-- it. The gates on replies and downloads are in `Policy/Gate.antt`.
pub mod Gate
pub mod Laws
use feishu_shadow_agent.Prelude.{
  ℕ, String, Bool, true, false, not, ◌&&◌, ◌||◌, Option, none, some, ◌==◌, if◌then◌else◌, string_eq,
}
use feishu_shadow_agent.Types.{ChatType, group, is_group}
use feishu_shadow_agent.Membership.{
  Fact, EffectiveStatus, observed, unobserved, effective_membership_status,
}
use feishu_shadow_agent.Membership

pub data PolicySource : Type 0 where
  explicit_chat unknown_group p2p default : PolicySource

pub data ReplyIdentity : Type 0 where
  bot_preferred bot user : ReplyIdentity

pub data PolicyError : Type 0 where
  missing invalid : PolicyError

pub data Result {ℓ} (A : Type ℓ) : Type ℓ where
  ok : A → Result A
  err : PolicyError → Result A

infixl 5 ◌>>=◌
abbrev pub ◌>>=◌ {ℓ κ} : {A : Type ℓ} {B : Type κ} → Result A → (A → Result B) → Result B
ok a >>= f = f a
err e >>= f = err e

-- config.py, ChatPolicyConfig and ReplyPolicyConfig
pub record ChatPolicyConfig : Type 0 where
  pub auto_reply : Bool
  pub bot_joined : Bool
  pub resource_download : Bool
  pub reply_identity : ReplyIdentity
  pub allow_user_fallback : Bool

pub record ReplyPolicyConfig : Type 0 where
  pub p2p_auto_reply : Bool
  pub unknown_group_auto_reply : Bool

-- A key of the global policy: absent, refused by validation, or valid.
pub data Entry (A : Type 0) : Type 0 where
  absent_key refused : Entry A
  valid : A → Entry A

pub record GlobalPolicy : Type 0 where
  pub reply_policy : Entry ReplyPolicyConfig
  pub default_chat_policy : Entry ChatPolicyConfig

-- get_product_policy, get_chat_product_policy and get_bot_membership_fact
pub record Repository : Type 0 where
  pub product_policy : Option GlobalPolicy
  pub chat_policy : String → Option (Entry ChatPolicyConfig)
  pub membership_fact : String → Option Fact

pub record ResolvedChatPolicy : Type 0 where
  pub auto_reply : Bool
  pub resource_download : Bool
  pub bot_joined : Bool
  pub reply_identity : ReplyIdentity
  pub allow_user_fallback : Bool
  pub policy_source : PolicySource
  pub configured_bot_joined : Bool
  pub bot_membership_status : EffectiveStatus

abbrev pub has_key : {A : Type 0} → Entry A → Bool
has_key absent_key = false
has_key _ = true

-- model_validate, with its errors turned into ProductPolicyInvalidError
abbrev pub validated : {A : Type 0} → Entry A → Result A
validated (valid a) = ok a
validated _ = err invalid

-- _global_product_policy
abbrev pub global_of : Option GlobalPolicy → Result GlobalPolicy
global_of none = err missing
global_of (some policy) =
    if has_key policy.reply_policy && has_key policy.default_chat_policy
    then ok policy
    else err invalid

-- _resolved_from_config
abbrev pub resolved_from_config : ChatPolicyConfig → Bool → PolicySource → ResolvedChatPolicy
resolved_from_config config auto_reply policy_source = record {
  auto_reply = auto_reply;
  resource_download = config.resource_download;
  bot_joined = config.bot_joined;
  reply_identity = config.reply_identity;
  allow_user_fallback = config.allow_user_fallback;
  policy_source = policy_source;
  configured_bot_joined = config.bot_joined;
  bot_membership_status = unobserved;
}

default_for : Option ChatType → ReplyPolicyConfig → ChatPolicyConfig → ResolvedChatPolicy
default_for (some ChatType.p2p) reply config = resolved_from_config config reply.p2p_auto_reply p2p
default_for (some group) reply config =
    resolved_from_config config reply.unknown_group_auto_reply unknown_group
default_for none reply config = resolved_from_config config config.auto_reply default

-- _resolve_default
resolve_default : GlobalPolicy → Option ChatType → Result ResolvedChatPolicy
unfolding default_for
resolve_default policy chat_type = do
  reply ← validated policy.reply_policy
  config ← validated policy.default_chat_policy
  ok (default_for chat_type reply config)

-- `if chat_id:` is false of the empty text too
abbrev pub given : Option String → Option String
given none = none
given (some s) = if s == "" then none else some s

-- a or b
abbrev pub or_text : Option String → Option String → Option String
or_text a b = elim (given a) [ none ↦ b | some s ↦ some s ]

abbrev pub or_type : Option ChatType → Option ChatType → Option ChatType
or_type none b = b
or_type (some t) b = some t

resolve_explicit :
    Option (Entry ChatPolicyConfig) → GlobalPolicy → Option ChatType → Result ResolvedChatPolicy
unfolding resolve_default
resolve_explicit none policy chat_type = resolve_default policy chat_type
resolve_explicit (some entry) policy chat_type = do
  config ← validated entry
  ok (resolved_from_config config config.auto_reply explicit_chat)

abbrev pub effective_joined : EffectiveStatus → Bool → Bool
effective_joined (observed Membership.present) configured = true
effective_joined (observed Membership.absent) configured = false
effective_joined _ configured = configured

with_membership : EffectiveStatus → ResolvedChatPolicy → ResolvedChatPolicy
with_membership status resolved = record resolved {
  bot_joined = effective_joined status resolved.configured_bot_joined;
  bot_membership_status = status;
}

resolve_in_chat :
    Repository → ℕ → Option String → Option ChatType → GlobalPolicy → Result ResolvedChatPolicy
unfolding resolve_explicit with_membership
resolve_in_chat repo now none chat_type policy = resolve_default policy chat_type
resolve_in_chat repo now (some chat_id) chat_type policy = do
  resolved ← resolve_explicit (repo.chat_policy chat_id) policy chat_type
  ok (
      if is_group chat_type
      then with_membership (effective_membership_status (repo.membership_fact chat_id) now) resolved
      else resolved)

-- PolicyResolver.resolve_chat_policy, at the time `now`
unfoldable pub resolve_chat_policy :
    Repository → ℕ → Option String → Option ChatType → Result ResolvedChatPolicy
unfolding resolve_in_chat
resolve_chat_policy repo now chat_id chat_type = do
  policy ← global_of repo.product_policy
  resolve_in_chat repo now (given chat_id) chat_type policy
