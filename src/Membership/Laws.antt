-- ===== src/Membership/Laws.antt =====
-- What one observation does to the fact of a chat (membership.py).
use feishu_shadow_agent.Prelude.{ℕ, ◌+◌, ◌≡◌, none, some, Option, arith, ltb, leb, if◌then◌else◌}
use feishu_shadow_agent.Membership.{
  unknown, Fact, Observation, Config, observed, effective_membership_status, probe_due,
  record_observation, microseconds, is_unknown_status, previous_confirmed,
}

-- A stored observation is what the policy sees until the time of the next probe, which comes after
-- the retry interval for `unknown` and after the full interval otherwise; from then on the policy
-- sees `unknown`, and exactly then the chat is due for a probe.
observation_lifetime :
    (config : Config) (previous : Option Fact) (o : Observation) (now : ℕ)
    → let fact = (record_observation config previous o).0 in
      let until =
        o.at
        + microseconds (
            if is_unknown_status o.seen
            then config.bot_membership_retry_seconds
            else config.bot_membership_ttl_seconds) in
      (effective_membership_status (some fact) now
        ≡ (if ltb now until then observed o.seen else observed unknown))
      × (probe_due (some fact) now ≡ leb until now)
unfolding record_observation effective_membership_status probe_due
observation_lifetime config previous o now = ground arith

-- An observation `unknown` never changes the last confirmed status or the absence episode, and
-- queues no notification.
unknown_keeps_confirmed :
    (config : Config) (previous : Option Fact) (o : Observation)
    → o.seen ≡ unknown
    → let (fact, notice) = record_observation config previous o in
      (fact.last_confirmed_status ≡ previous_confirmed previous) × (notice ≡ none)
unfolding record_observation
unknown_keeps_confirmed config previous o e = ground arith
