-- ===== src/Capacity/Fits.antt =====
-- What `EffectiveRequest` of internal/k8s/schedulable.go means for a node.
use matrixctrl.Common.{ℕ, ◌+◌, ◌≤◌, ◌≡◌, ◌↔◌, List, [], ◌∷◌, All, ltb, arith, if◌then◌else◌}
use matrixctrl.Capacity.Request.{
  Container, PodSpec, quantity_millis, quantity_mi, sum_of, greatest, max_int64, effective_request,
}

module _ (amount : Container → ℕ) where
  abbrev pub total : List Container → ℕ
  total [] = 0
  total (c ∷ cs) = amount c + total cs

  sum_of-total : (cs : List Container) (sum : ℕ) → sum_of amount cs sum ≡ sum + total cs
  unfolding sum_of
  sum_of-total [] sum = omega arith
  sum_of-total (c ∷ cs) sum = omega (arith, sum_of-total cs (sum + amount c))

  greatest-le :
      (cs : List Container) (most room : ℕ)
      → (greatest amount cs most ≤ room) ↔ ((most ≤ room) × All (λ c. amount c ≤ room) cs)
  unfolding greatest
  greatest-le [] most room = (λ h. (h, tt), λ h. h.0)
  greatest-le (c ∷ cs) most room =
      ground (arith, greatest-le cs (if ltb most (amount c) then amount c else most) room)

  max_int64-le :
      (spec : PodSpec) (room : ℕ)
      → (max_int64 (sum_of amount spec.containers 0) (greatest amount spec.init_containers 0)
          ≤ room)
        ↔ ((total spec.containers ≤ room) × All (λ c. amount c ≤ room) spec.init_containers)
  max_int64-le spec room =
      ground (arith, sum_of-total spec.containers 0, greatest-le spec.init_containers 0 room)

-- A pod's effective request fits into some room exactly if the room holds all its containers together
-- and each of its init containers alone, in CPU and in memory.
pub effective_request-le :
    (spec : PodSpec) (cpu mem : ℕ)
    → (((effective_request spec).0 ≤ cpu) ↔ (
        (total quantity_millis spec.containers ≤ cpu)
        × All (λ c. quantity_millis c ≤ cpu) spec.init_containers))
      × (((effective_request spec).1 ≤ mem) ↔ (
          (total quantity_mi spec.containers ≤ mem)
          × All (λ c. quantity_mi c ≤ mem) spec.init_containers))
unfolding effective_request
effective_request-le spec cpu mem =
    (max_int64-le quantity_millis spec cpu, max_int64-le quantity_mi spec mem)
