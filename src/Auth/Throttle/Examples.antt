-- ===== src/Auth/Throttle/Examples.antt =====
-- The throttle at work: sixteen failures, a second apart.
use matrixctrl.Common.{
  ℕ, ◌+◌, ◌-◌, ◌*◌, ◌^◌, ◌≡◌, refl, true, List, [], ◌∷◌, lookup, false≢true, eq_iff, arith,
}
use matrixctrl.Auth.Throttle.{
  Table, wait, locked_out, check, failed, succeeded, backoff_for, steps_for, shifted, cap, second,
  millisecond, lockout_for,
}
use matrixctrl.Auth.Throttle.Backoff.{backoff_for-eq-doubling}
use matrixctrl.Auth.Throttle.Lockout.{fail_all, check-fail_all, check_own_key}

backoff_for-eq-doubling_example : backoff_for 7 ≡ cap (2 ^ (7 - 5) * (250 * millisecond))
backoff_for-eq-doubling_example = backoff_for-eq-doubling 7 (omega arith)

backoff_for_seven : backoff_for 7 ≡ second
unfolding backoff_for steps_for shifted
backoff_for_seven = refl

abbrev tries : List ℕ
tries =
    1 * second
    ∷ 2 * second
    ∷ 3 * second
    ∷ 4 * second
    ∷ 5 * second
    ∷ 6 * second
    ∷ 7 * second
    ∷ 8 * second
    ∷ 9 * second
    ∷ 10 * second
    ∷ 11 * second
    ∷ 12 * second
    ∷ 13 * second
    ∷ 14 * second
    ∷ []

check-fail_all_example :
    check true (20 * second) (20 * second) "ip:1" (fail_all tries "ip:1" (failed 0 "ip:1" []))
    ≡ locked_out (14 * second + lockout_for - 20 * second)
unfolding lookup
check-fail_all_example =
    check-fail_all 0 tries "ip:1" [] (20 * second) (20 * second) refl (omega arith) (omega arith)
      (omega arith) (omega arith)

abbrev hammered : Table
hammered = ("ip:1", record { failures = 15; first_failed = 0; last_failed = 14 * second }) ∷ []

check_own_key_example :
    (check true 5 5 "ip:1" (succeeded "ip:1" hammered) ≡ wait 0)
    × (check true 5 5 "ip:2" (succeeded "ip:1" hammered) ≡ check true 5 5 "ip:2" hammered)
    × (check true 5 5 "ip:2" (failed 4 "ip:1" hammered) ≡ check true 5 5 "ip:2" hammered)
check_own_key_example =
    check_own_key "ip:1" "ip:2" 4 5 5 hammered (λ p. false≢true ((eq_iff "ip:1" "ip:2").1 p))
