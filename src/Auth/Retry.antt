-- ===== src/Auth/Retry.antt =====
-- internal/auth/oidcretry.go: building the OIDC service until it succeeds.
--
-- A round of the loop asks its target three things: whether the wait ended before the context did,
-- whether a service was installed elsewhere meanwhile, and what a build gives. A run is given the
-- answers as a list of rounds, and is still trying where the list ends. Times are nanoseconds;
-- a service is an argument's type. Logging changes nothing that follows and is left out.
pub mod Runs
mod Examples
use matrixctrl.Common.{
  ℕ, ◌+◌, ◌-◌, ◌*◌, ◌^◌, Bool, true, false, Option, none, some, List, [], ◌∷◌, ltb, if◌then◌else◌,
}

abbrev pub retry_base : ℕ
retry_base = 2_000_000_000

abbrev pub retry_max : ℕ
retry_max = 60_000_000_000

abbrev pub retry_shift_cap : ℕ
retry_shift_cap = 5

abbrev pub clamp : ℕ → ℕ
clamp steps = if ltb retry_shift_cap steps then retry_shift_cap else steps

-- `retryBase << steps`: at most 64 s, far below 2^63.
unfoldable pub retry_backoff : ℕ → ℕ
retry_backoff attempt =
    let d = retry_base * 2 ^ clamp (attempt - 1) in if ltb d retry_max then d else retry_max

pub record RetryState : Type 0 where
  pub active : Bool
  pub attempts : ℕ

pub record Round (Service : Type 0) : Type 0 where
  pub waited : Bool
  pub installed : Bool
  pub built : Option Service

-- What a run leaves: the state, what it waited for, and the service that it installed.
pub record Run (Service : Type 0) : Type 0 where
  pub state : RetryState
  pub waits : List ℕ
  pub installs : Option Service

module _ {Service : Type 0} where
  abbrev pub finish : Run Service → Run Service
  finish r = record r { state = record { active = false; attempts = r.state.attempts } }

  -- The head of a round: `state.attempt()` and the wait before it.
  abbrev pub attempt : Run Service → Run Service
  attempt r = record r {
    state = record { active = r.state.active; attempts = r.state.attempts + 1 };
    waits = retry_backoff (r.state.attempts + 1) ∷ r.waits;
  }

  -- The body of the loop; `again` is its next round.
  abbrev pub try : Round Service → Run Service → (Run Service → Run Service) → Run Service
  try round r again =
      if round.waited
      then (if round.installed then finish r else elim round.built [
        | none ↦ again r
        | some svc ↦ finish (record r { installs = some svc })
      ])
      else finish r

  unfoldable pub loop : List (Round Service) → Run Service → Run Service
  loop [] r = r
  loop (round ∷ rest) r = try round (attempt r) (loop rest)

  unfoldable pub retry_oidc : List (Round Service) → RetryState → Run Service
  retry_oidc rounds s = loop rounds (record {
    state = record { active = true; attempts = s.attempts };
    waits = [];
    installs = none;
  })
