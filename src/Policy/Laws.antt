-- ===== src/Policy/Laws.antt =====
-- What the policy resolver guarantees (policy.py).
use feishu_shadow_agent.Prelude.{
  ℕ, String, true, false, ◌≡◌, ◌⊎◌, Option, some, arith, inl, inr, refl, sym,
}
use feishu_shadow_agent.Types.{ChatType, group}
use feishu_shadow_agent.Membership.{observed, absent, effective_membership_status}
use feishu_shadow_agent.Decision.{auto_reply}
use feishu_shadow_agent.Policy.{
  Result, ok, err, Repository, PolicyError, ResolvedChatPolicy, resolve_chat_policy, given,
}
use feishu_shadow_agent.Policy.Gate.{
  ReplyRequest, ReplyPolicyDecision, ResourcePolicyDecision, resolve_reply_policy,
  can_download_resources, as_bot, as_user, is_blank, chat_id_of, chat_type_of, is_user,
}

Result-cases :
    {A : Type 0} (r : Result A) → ((a : A) × (r ≡ ok a)) ⊎ ((e : PolicyError) × (r ≡ err e))
Result-cases (ok a) = inl (a, refl)
Result-cases (err e) = inr (e, refl)

absent-bot_joined :
    (repo : Repository) (now : ℕ) (chat_id : Option String) (chat : String) (p : ResolvedChatPolicy)
    → given chat_id ≡ some chat
    → effective_membership_status (repo.membership_fact chat) now ≡ observed absent
    → resolve_chat_policy repo now chat_id (some group) ≡ ok p
    → p.bot_joined ≡ false
unfolding resolve_chat_policy
absent-bot_joined repo now chat_id chat p c m e = ground (arith, c, m)

module _ (strip : String → String) where
  -- A reply is allowed only for an answer `auto_reply` with no forbidden mention and no blank text;
  -- in a P2P chat it goes out as the user; in a group it answers a direct mention, the policy of
  -- the chat allows automatic replies, and it goes out as the bot only where the bot has joined,
  -- and as the user only where the policy names the user or falls back on it.
  pub allowed_reply :
      (repo : Repository) (now : ℕ) (r : ReplyRequest) (d : ReplyPolicyDecision)
      → resolve_reply_policy strip repo now r ≡ ok d
      → d.allow ≡ true
      → (r.answerability ≡ auto_reply)
        × (r.had_forbidden_mentions ≡ false)
        × (is_blank strip r.proposed_reply ≡ false)
        × (is_blank strip r.final_reply ≡ false)
        × (((chat_type_of r ≡ some ChatType.p2p) × (d.identity ≡ as_user))
            ⊎ ((chat_type_of r ≡ some group)
                × (r.direct_mention ≡ true)
                × ((p : ResolvedChatPolicy) × (resolve_chat_policy repo now
                        (chat_id_of r)
                        (chat_type_of r)
                      ≡ ok p)
                    × (p.auto_reply ≡ true)
                    × (((d.identity ≡ as_bot) × (p.bot_joined ≡ true))
                        ⊎ ((d.identity ≡ as_user)
                            × ((is_user p.reply_identity ≡ true)
                                ⊎ (p.allow_user_fallback ≡ true)))))))
  unfolding resolve_reply_policy
  allowed_reply repo now r d e a =
      elim (Result-cases (resolve_chat_policy repo now (chat_id_of r) (chat_type_of r))) [
        | inl (p, h) ↦ ground (arith, h)
        | inr (x, h) ↦ ground (arith, h)
      ]

  -- While a probe that found the bot absent from a group is fresh, no reply is allowed as the bot
  -- and no resource is downloaded there, whatever the configuration says of the bot.
  pub absent_bot :
      (repo : Repository) (now : ℕ) (r : ReplyRequest) (d : ReplyPolicyDecision)
      (x : ResourcePolicyDecision) (chat : String)
      → chat_type_of r ≡ some group
      → given (chat_id_of r) ≡ some chat
      → effective_membership_status (repo.membership_fact chat) now ≡ observed absent
      → resolve_reply_policy strip repo now r ≡ ok d
      → can_download_resources repo now (chat_id_of r) (chat_type_of r) ≡ ok x
      → ((d.allow ≡ false) ⊎ (d.identity ≡ as_user)) × (x.allow ≡ false)
  unfolding can_download_resources resolve_reply_policy
  absent_bot repo now r d x chat g c m e f =
      elim (Result-cases (resolve_chat_policy repo now (chat_id_of r) (chat_type_of r))) [
        | inl (p, h) ↦
            ground (arith, h, absent-bot_joined repo now (chat_id_of r) chat p c m (rw (sym g) h))
        | inr (y, h) ↦ ground (arith, h)
      ]
