-- ===== src/Eligibility/Laws.antt =====
-- What the eligibility policy guarantees of every message (message_eligibility.py).
use feishu_shadow_agent.Prelude.{
  String, true, false, ◌&&◌, some, List, [], ◌∷◌, ◌≡◌, ◌≢◌, ◌⊎◌, refl, arith, ◌==◌, all, string_eq,
  is_empty,
}
use feishu_shadow_agent.Types.{NormalizedMessage, group, p2p, is_self_message, is_owner_message}
use feishu_shadow_agent.Eligibility.{
  Reason, unsupported_combination, decide, raised, keep, has, is_acquisition_source,
}

-- a list of known sources that holds neither "p2p" nor "active_watch" holds "group_at_me" alone
only_group_at_me :
    (sources : List String)
    → all is_acquisition_source sources ≡ true
    → has "p2p" sources ≡ false
    → has "active_watch" sources ≡ false
    → all (λ x. x == "group_at_me") sources ≡ true
only_group_at_me [] h p w = refl
only_group_at_me (s ∷ ss) h p w = ground (arith, only_group_at_me ss)

-- The last error of `decide` cannot be raised: the branches above it cover every set of sources.
decide-ne-unsupported_combination :
    (m : NormalizedMessage) (sources : List String)
    → decide m sources ≢ raised unsupported_combination
unfolding decide
decide-ne-unsupported_combination m sources = ground (arith, only_group_at_me sources)

-- A message that is kept was acquired by a known source, was not sent by the agent or a bot, does
-- not address everybody, and, in a group, p2p, is the owner's own, mentions the owner directly on the
-- mention source, or belongs to a watched conversation.
pub kept_message :
    (m : NormalizedMessage) (sources : List String) (r : Reason)
    → decide m sources ≡ keep r
    → (is_empty sources ≡ false)
      × (all is_acquisition_source sources ≡ true)
      × (is_self_message m.sender_role ≡ false)
      × (m.at_all ≡ false)
      × ((m.chat_type ≡ some p2p)
          ⊎ ((m.chat_type ≡ some group)
              × (has "p2p" sources ≡ false)
              × ((is_owner_message m.sender_role ≡ true)
                  ⊎ ((has "group_at_me" sources && m.direct_mention ≡ true)
                      ⊎ (has "active_watch" sources ≡ true)))))
unfolding decide
kept_message m sources r h = ground arith
