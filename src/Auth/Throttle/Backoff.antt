-- ===== src/Auth/Throttle/Backoff.antt =====
-- The delay that the throttle imposes (`backoffFor` of internal/auth/throttle.go).
use matrixctrl.Common.{
  ℕ, zero, suc, ◌%◌, ◌==◌, sym, ◌∙◌, ==_iff, Bool, passes_below-lt, ◌⊎◌, inl, inr, ◌+◌, ◌-◌, ◌*◌,
  ◌^◌, ◌≤◌, ◌<◌, ◌≡◌, refl, arith,
}
use native.Mathlib.Nat.{add-zero, add-suc, pow-suc}
use native.Mathlib.Decide.{dec_lt}
use matrixctrl.Auth.Throttle.{backoff_for, steps_for, shifted, cap, max_backoff, millisecond}

-- The shift grows by ones and then stays, so the delay never shrinks.
shifted_mono : (k : ℕ) → k ≤ 7 → cap (shifted k) ≤ cap (shifted (suc k))
unfolding shifted
shifted_mono zero h = omega arith
shifted_mono (suc zero) h = omega arith
shifted_mono (suc (suc zero)) h = omega arith
shifted_mono (suc (suc (suc zero))) h = omega arith
shifted_mono (suc (suc (suc (suc zero)))) h = omega arith
shifted_mono (suc (suc (suc (suc (suc zero))))) h = omega arith
shifted_mono (suc (suc (suc (suc (suc (suc zero)))))) h = omega arith
shifted_mono (suc (suc (suc (suc (suc (suc (suc zero))))))) h = omega arith
shifted_mono (suc (suc (suc (suc (suc (suc (suc (suc k)))))))) h = omega arith

steps_for-suc :
    (n : ℕ)
    → 5 ≤ n
    → ((steps_for (suc n) ≡ suc (steps_for n)) × (steps_for n ≤ 7))
      ⊎ (steps_for (suc n) ≡ steps_for n)
unfolding steps_for
steps_for-suc n h = ground arith

backoff_for_late : (n : ℕ) → 5 ≤ n → backoff_for n ≡ cap (shifted (steps_for n))
unfolding backoff_for
backoff_for_late n h = ground arith

backoff_for_early : (n : ℕ) → n < 5 → backoff_for n ≡ 0
unfolding backoff_for
backoff_for_early n h = ground arith

backoff_for-suc : (n : ℕ) → backoff_for n ≤ backoff_for (suc n)
backoff_for-suc n = elim (dec_lt n 5) [
  | yes early ↦ rw (backoff_for_early n early) (omega arith)
  | no late ↦ elim (steps_for-suc n (omega arith)) [
    | inl (up, low) ↦
        rw (backoff_for_late n (omega arith), backoff_for_late (suc n) (omega arith), up)
          (shifted_mono (steps_for n) low)
    | inr same ↦
        rw (backoff_for_late n (omega arith), backoff_for_late (suc n) (omega arith), same)
          (omega arith)
  ]
]

-- More failures never mean a shorter delay.
pub backoff_for_mono : (m d : ℕ) → backoff_for m ≤ backoff_for (m + d)
backoff_for_mono m zero = rw add-zero (omega arith)
backoff_for_mono m (suc d) =
    rw add-suc (omega (arith, backoff_for_mono m d, backoff_for-suc (m + d)))

two_pow_ge : (k : ℕ) → 16 ≤ 2 ^ (k + 4)
two_pow_ge zero = omega arith
two_pow_ge (suc k) =
    let e : suc k + 4 ≡ suc (k + 4) = omega arith in rw (e, pow-suc) (omega (arith, two_pow_ge k))

cap_reached : (d : ℕ) → max_backoff ≤ d → cap d ≡ max_backoff
cap_reached d h = ground arith

shifted_exact : (k : ℕ) → k ≤ 8 → shifted k ≡ 2 ^ k * (250 * millisecond)
unfolding shifted
shifted_exact k h = (==_iff _ _).0 (passes_below-lt exact 9 k (omega arith) refl)
  where
    exact : ℕ → Bool
    exact k = 2 ^ k * (250 * millisecond) % 2 ^ 64 == 2 ^ k * (250 * millisecond)

many_steps : (n : ℕ) → 8 < n - 5 → steps_for n ≡ 8
unfolding steps_for
many_steps n many = ground arith

few_steps : (n : ℕ) → ¬ (8 < n - 5) → steps_for n ≡ n - 5
unfolding steps_for
few_steps n few = ground arith

shifted_most : cap (shifted 8) ≡ max_backoff
unfolding shifted
shifted_most = refl

-- Past the free attempts the delay is 250 ms, doubled for each further failure over the unbounded
-- numbers, and at most four seconds: the clamped shift loses nothing and no product wraps.
pub backoff_for-eq-doubling :
    (n : ℕ) → 5 ≤ n → backoff_for n ≡ cap (2 ^ (n - 5) * (250 * millisecond))
backoff_for-eq-doubling n h = elim (dec_lt 8 (n - 5)) [
  | yes many ↦
      let k : ℕ = n - 9 in
      let e : n - 5 ≡ k + 4 = omega arith in
      rw (backoff_for_late n h, many_steps n many, e)
        (shifted_most
          ∙ sym (cap_reached (2 ^ (k + 4) * (250 * millisecond)) (omega (arith, two_pow_ge k))))
  | no few ↦ rw (backoff_for_late n h, few_steps n few, shifted_exact (n - 5) (omega arith))
]
