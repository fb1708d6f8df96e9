-- ===== src/Auth/Retry/Runs.antt =====
-- How a run of the OIDC retry (internal/auth/oidcretry.go) ends.
use matrixctrl.Common.{
  ℕ, zero, suc, ◌+◌, ◌-◌, ◌*◌, ◌^◌, ◌≤◌, ◌<◌, ◌≡◌, ◌≢◌, ◌⊎◌, refl, true, false, none, List, [], ◌∷◌,
  ◌++◌, All, length, ltb, arith, ap, sym, ◌∙◌, not, ◌&&◌, if◌then◌else◌,
}
use native.Mathlib.Nat.{pow-suc}
use native.Mathlib.Decide.{dec_lt}
use mathlib.Core.List.{append-nil}
use matrixctrl.Auth.Retry.{
  retry_base, retry_max, clamp, retry_backoff, RetryState, Round, Run, attempt, loop, retry_oidc,
}

-- A round that ends no run: the context lives, nobody installed a service, the build failed.
abbrev pub Failing : {S : Type 0} → Round S → Type 0
Failing r = (r.waited ≡ true) × (r.installed ≡ false) × (r.built ≡ none)

module _ {S : Type 0} where
  loop-Failing :
      (rounds rest : List (Round S)) (r : Run S)
      → All Failing rounds
      → (k : Run S) × (loop (rounds ++ rest) r ≡ loop rest k)
        × (k.state.active ≡ r.state.active)
        × (k.state.attempts ≡ r.state.attempts + length rounds)
        × (k.installs ≡ r.installs)
  unfolding loop
  loop-Failing [] rest r h = (r, refl, refl, omega arith, refl)
  loop-Failing (round ∷ rounds) rest r (now, later) =
      let (k, e, a, n, i) = loop-Failing rounds rest (attempt r) later in
      (k, ground (arith, e), a, omega arith, i)

  -- The loop never gives up by itself: after any number of failed rounds it is still active, has
  -- installed nothing, and has counted every attempt.
  pub retry_oidc-Failing :
      (rounds : List (Round S)) (s : RetryState)
      → All Failing rounds
      → let r = retry_oidc rounds s in
        (r.state.active ≡ true)
        × (r.state.attempts ≡ s.attempts + length rounds)
        × (r.installs ≡ none)
  unfolding retry_oidc loop
  retry_oidc-Failing rounds s h =
      let start : Run S = record {
        state = record { active = true; attempts = s.attempts };
        waits = [];
        installs = none;
      } in
      let (k, e, a, n, i) = loop-Failing rounds [] start h in
      let at_end : loop rounds start ≡ k = ap (λ rs. loop rs start) (sym (append-nil rounds)) ∙ e in
      rw at_end (a, n, i)

  -- It ends with the first round that is no failure, and looks at none after it: inactive, with that
  -- attempt counted, and with a service installed just if that round waited to the end, found none
  -- installed elsewhere and built one.
  pub retry_oidc-decided :
      (rounds rest : List (Round S)) (round : Round S) (s : RetryState)
      → All Failing rounds
      → ((round.waited ≡ false) ⊎ (round.installed ≡ true) ⊎ (round.built ≢ none))
      → let r = retry_oidc (rounds ++ round ∷ rest) s in
        (r.state.active ≡ false)
        × (r.state.attempts ≡ s.attempts + length rounds + 1)
        × (r.installs ≡ (if round.waited && not round.installed then round.built else none))
  unfolding retry_oidc loop
  retry_oidc-decided rounds rest round s h decided =
      let (k, e, a, n, i) =
        loop-Failing rounds (round ∷ rest)
          (record {
            state = record { active = true; attempts = s.attempts };
            waits = [];
            installs = none;
          })
          h in
      rw e (ground arith)

two_pow_ge : (k : ℕ) → 32 ≤ 2 ^ (k + 5)
two_pow_ge zero = omega arith
two_pow_ge (suc k) =
    let e : suc k + 5 ≡ suc (k + 5) = omega arith in rw (e, pow-suc) (omega (arith, two_pow_ge k))

clamp_few : (k : ℕ) → k ≤ 5 → clamp k ≡ k
clamp_few k h = ground arith

clamp_many : (k : ℕ) → 5 < k → clamp k ≡ 5
clamp_many k h = ground arith

-- The wait before the n-th attempt is two seconds, doubled for each attempt before it over the
-- unbounded numbers, and at most a minute: the clamp on the shift changes no wait.
pub retry_backoff-eq-doubling :
    (n : ℕ)
    → retry_backoff n
      ≡ (if ltb (retry_base * 2 ^ (n - 1)) retry_max then retry_base * 2 ^ (n - 1) else retry_max)
unfolding retry_backoff
retry_backoff-eq-doubling n = elim (dec_lt 5 (n - 1)) [
  | no few ↦ rw (clamp_few (n - 1) (omega arith))
  | yes many ↦
      let k : ℕ = n - 6 in
      let e : n - 1 ≡ k + 5 = omega arith in
      rw (clamp_many (n - 1) many, e) (ground (arith, two_pow_ge k))
]
