-- ===== src/Membership/Episodes.antt =====
-- Notifications of a chat over any series of observations (membership.py).
use feishu_shadow_agent.Prelude.{
  ℕ, ◌+◌, ◌*◌, ◌-◌, ◌<◌, ◌≡◌, true, none, some, Option, List, [], ◌∷◌, arith, Option-cases, inl,
  inr, sym, if◌then◌else◌,
}
use feishu_shadow_agent.Membership.{
  Fact, Observation, Config, Notice, record_observation, observe_all, previous_confirmed,
  episode_of, is_absent_status, is_absent,
}

-- A number for each notice: 2e - 1 for absence e, 2e for the recovery from it.
abbrev pub rank : Notice → ℕ
rank n = if is_absent_status n.status then 2 * n.episode - 1 else 2 * n.episode

abbrev pub fact_rank : Option Fact → ℕ
fact_rank f = if is_absent (previous_confirmed f) then 2 * episode_of f - 1 else 2 * episode_of f

-- A confirmed absence has been counted.
abbrev pub IsCounted : Option Fact → Type 0
IsCounted f = is_absent (previous_confirmed f) ≡ true → 0 < episode_of f

-- Each notice is numbered one above the one before it.
abbrev pub IsConsecutive : ℕ → List Notice → Type 0
IsConsecutive n [] = Unit
IsConsecutive n (x ∷ xs) = (rank x ≡ n + 1) × (0 < x.episode) × IsConsecutive (n + 1) xs

step-IsCounted :
    (config : Config) (f : Option Fact) (o : Observation)
    → IsCounted f
    → IsCounted (some (record_observation config f o).0)
unfolding record_observation
step-IsCounted config f o h = ground arith

step_none :
    (config : Config) (f : Option Fact) (o : Observation)
    → IsCounted f
    → (record_observation config f o).1 ≡ none
    → fact_rank (some (record_observation config f o).0) ≡ fact_rank f
unfolding record_observation
step_none config f o h e = ground arith

step_some :
    (config : Config) (f : Option Fact) (o : Observation) (n : Notice)
    → IsCounted f
    → (record_observation config f o).1 ≡ some n
    → (rank n ≡ fact_rank f + 1)
      × (fact_rank (some (record_observation config f o).0) ≡ fact_rank f + 1)
      × (0 < n.episode)
unfolding record_observation
step_some config f o n h e = ground arith

IsConsecutive-from :
    (config : Config) (f : Option Fact) (os : List Observation)
    → IsCounted f
    → IsConsecutive (fact_rank f) (observe_all config f os)
unfolding observe_all
IsConsecutive-from config f [] h = tt
IsConsecutive-from config f (o ∷ os) h = elim (Option-cases (record_observation config f o).1) [
  | inl e ↦ rw e (
      rw (sym (step_none config f o h e)) (
        IsConsecutive-from config (some (record_observation config f o).0) os
          (step-IsCounted config f o h)))
  | inr (n, e) ↦ rw e (
      let (a, b, c) = step_some config f o n h e in
      (
        a,
        c,
        rw (sym b) (
            IsConsecutive-from config (some (record_observation config f o).0) os
              (step-IsCounted config f o h)),
      ))
]

-- Over any observations of a chat that had no fact, the first notice is the absence of episode 1,
-- and from there they alternate between an absence and the recovery from it, each absence in the
-- next episode; so no two of them share a dedupe key.
pub notices_alternate :
    (config : Config) (os : List Observation) → IsConsecutive 0 (observe_all config none os)
notices_alternate config os = IsConsecutive-from config none os (λ h. cc)
