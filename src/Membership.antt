-- ===== src/Membership.antt =====
-- membership.py: what is known of the bot's presence in a chat. The fact is the checkpoint record;
-- a status outside the set reads as `none`; its error code and endpoint, which take part in no
-- decision, are left out. The current time is an argument.
pub mod Laws
pub mod Episodes
use feishu_shadow_agent.Prelude.{
  ℕ, suc, ◌+◌, ◌*◌, String, Bool, true, false, not, ◌&&◌, ◌||◌, Option, none, some, List, [], ◌∷◌,
  leb, if◌then◌else◌, ◌==◌, string_eq,
}
use feishu_shadow_agent.Types.{Stamp, instant, unreadable, ChatType, is_group}

pub data MembershipStatus : Type 0 where
  present absent unknown : MembershipStatus

pub record Fact : Type 0 where
  pub status : Option MembershipStatus
  pub checked_at : Stamp
  pub next_probe_at : Stamp
  pub source : String
  pub error : Option String
  pub absence_episode : ℕ
  pub last_confirmed_status : Option MembershipStatus

-- `unobserved` is what is reported with no fact at all.
pub data EffectiveStatus : Type 0 where
  observed : MembershipStatus → EffectiveStatus
  unobserved : EffectiveStatus

abbrev fresh_status : Option MembershipStatus → Stamp → ℕ → EffectiveStatus
fresh_status none next_probe now = observed unknown
fresh_status (some status) unreadable now = observed unknown
fresh_status (some status) (instant next_probe) now =
    if leb next_probe now then observed unknown else observed status

-- effective_membership_status
unfoldable pub effective_membership_status : Option Fact → ℕ → EffectiveStatus
effective_membership_status none now = unobserved
effective_membership_status (some fact) now = fresh_status fact.status fact.next_probe_at now

-- _probe_due
unfoldable pub probe_due : Option Fact → ℕ → Bool
probe_due none now = true
probe_due (some fact) now = elim fact.next_probe_at [
  | unreadable ↦ true
  | instant next_probe ↦ leb next_probe now
]

pub record Config : Type 0 where
  pub bot_membership_retry_seconds : ℕ
  pub bot_membership_ttl_seconds : ℕ

abbrev pub is_absent : Option MembershipStatus → Bool
is_absent (some absent) = true
is_absent _ = false

-- value if value in {"present", "absent"} else None
abbrev pub confirmed : Option MembershipStatus → Option MembershipStatus
confirmed (some present) = some present
confirmed (some absent) = some absent
confirmed _ = none

abbrev first_of : Option MembershipStatus → Option MembershipStatus → Option MembershipStatus
first_of none other = other
first_of (some s) other = some s

abbrev pub status_of : Option Fact → Option MembershipStatus
status_of none = none
status_of (some fact) = fact.status

abbrev pub last_confirmed_of : Option Fact → Option MembershipStatus
last_confirmed_of none = none
last_confirmed_of (some fact) = fact.last_confirmed_status

abbrev pub episode_of : Option Fact → ℕ
episode_of none = 0
episode_of (some fact) = fact.absence_episode

-- previous_confirmed_status, after the fallback on the previous status
abbrev pub previous_confirmed : Option Fact → Option MembershipStatus
previous_confirmed previous =
    first_of (confirmed (last_confirmed_of previous)) (confirmed (status_of previous))

abbrev pub is_present_status : MembershipStatus → Bool
is_present_status present = true
is_present_status _ = false

abbrev pub is_absent_status : MembershipStatus → Bool
is_absent_status absent = true
is_absent_status _ = false

abbrev pub is_unknown_status : MembershipStatus → Bool
is_unknown_status unknown = true
is_unknown_status _ = false

-- One call's observation: status, checked_at, source and error.
pub record Observation : Type 0 where
  pub seen : MembershipStatus
  pub at : ℕ
  pub source : String
  pub error : Option String

-- The owner notification: its status and episode, which make the dedupe key with the chat.
pub record Notice : Type 0 where
  pub status : MembershipStatus
  pub episode : ℕ

abbrev pub microseconds : ℕ → ℕ
microseconds seconds = seconds * 1000000

-- _record_observation: the fact that is stored, and the notification if one is queued
unfoldable pub record_observation : Config → Option Fact → Observation → Fact × Option Notice
record_observation config previous o =
    let before = previous_confirmed previous in
    let newly_absent = is_absent_status o.seen && not (is_absent before) in
    let episode = if newly_absent then suc (episode_of previous) else episode_of previous in
    let interval =
      if is_unknown_status o.seen
      then config.bot_membership_retry_seconds
      else config.bot_membership_ttl_seconds in
    let should_notify = newly_absent || is_present_status o.seen && is_absent before in
    (
      record {
        status = some o.seen;
        checked_at = instant o.at;
        next_probe_at = instant (o.at + microseconds interval);
        source = o.source;
        error = o.error;
        absence_episode = episode;
        last_confirmed_status = if is_unknown_status o.seen then before else some o.seen;
      },
      if should_notify then some (record { status = o.seen; episode = episode }) else none,
    )

abbrev pub keep_notice : Option Notice → List Notice → List Notice
keep_notice none rest = rest
keep_notice (some n) rest = n ∷ rest

-- The observations of one chat in their order: the notices that are queued.
pub observe_all : Config → Option Fact → List Observation → List Notice
observe_all config previous [] = []
observe_all config previous (o ∷ os) =
    let (fact, notice) = record_observation config previous o in
    keep_notice notice (observe_all config (some fact) os)

-- record_bot_membership_absence: a failed bot send or download confirms an absence in a group only.
unfoldable pub record_bot_membership_absence :
    Config
    → Option String
    → Option ChatType
    → Option Fact
    → ℕ
    → String
    → Option String
    → Option (Fact × Option Notice)
record_bot_membership_absence config none chat_type previous now source error = none
record_bot_membership_absence config (some chat_id) chat_type previous now source error =
    if chat_id == "" || not (is_group chat_type)
    then none
    else some (
        record_observation config previous
          (record { seen = absent; at = now; source = source; error = error }))
