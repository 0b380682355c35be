-- ===== src/Eligibility.antt =====
-- message_eligibility.py: whether a polled message enters the pipeline. The set of sources that
-- acquired it is a list, as the caller's iterable.
pub mod Laws
use feishu_shadow_agent.Prelude.{
  String, Bool, true, false, not, ◌&&◌, ◌||◌, Option, none, some, List, ◌==◌, all, any, is_empty,
  if◌then◌else◌, string_eq,
}
use feishu_shadow_agent.Types.{
  ChatType, group, p2p, NormalizedMessage, is_self_message, is_owner_message,
}

pub data Reason : Type 0 where
  not_acquired self_message at_all_suppressed p2p_message active_watch_message : Reason
  owner_intervention direct_owner_mention non_direct_mention : Reason

pub record MessageEligibility : Type 0 where
  pub eligible : Bool
  pub reason_code : Reason

-- The errors that `decide` raises as ValueError.
pub data Fault : Type 0 where
  unknown_sources p2p_needs_one_source unsupported_chat_type group_with_p2p : Fault
  unsupported_combination : Fault

pub data Verdict : Type 0 where
  decided : MessageEligibility → Verdict
  raised : Fault → Verdict

abbrev pub keep : Reason → Verdict
keep r = decided (record { eligible = true; reason_code = r })

abbrev pub drop : Reason → Verdict
drop r = decided (record { eligible = false; reason_code = r })

-- ACQUISITION_SOURCES
abbrev pub is_acquisition_source : String → Bool
is_acquisition_source s = s == "group_at_me" || (s == "active_watch" || s == "p2p")

-- source in source_set
abbrev pub has : String → List String → Bool
has s sources = any (λ x. x == s) sources

-- source_set == {source}
abbrev pub only : String → List String → Bool
only s sources = not (is_empty sources) && all (λ x. x == s) sources

decide_p2p : List String → Verdict
decide_p2p sources =
    if only "p2p" sources
    then keep p2p_message
    else if only "active_watch" sources
    then keep active_watch_message
    else raised p2p_needs_one_source

decide_group : NormalizedMessage → List String → Verdict
decide_group m sources =
    if has "p2p" sources
    then raised group_with_p2p
    else if is_owner_message m.sender_role
    then keep owner_intervention
    else if has "group_at_me" sources && m.direct_mention
    then keep direct_owner_mention
    else if has "active_watch" sources
    then keep active_watch_message
    else if only "group_at_me" sources
    then drop non_direct_mention
    else raised unsupported_combination

decide_chat : Option ChatType → NormalizedMessage → List String → Verdict
unfolding decide_p2p decide_group
decide_chat (some p2p) m sources = decide_p2p sources
decide_chat (some group) m sources = decide_group m sources
decide_chat none m sources = raised unsupported_chat_type

-- MessageEligibilityPolicy.decide
unfoldable pub decide : NormalizedMessage → List String → Verdict
unfolding decide_chat
decide m sources =
    if not (all is_acquisition_source sources)
    then raised unknown_sources
    else if is_empty sources
    then drop not_acquired
    else if is_self_message m.sender_role
    then drop self_message
    else if m.at_all
    then drop at_all_suppressed
    else decide_chat m.chat_type m sources
