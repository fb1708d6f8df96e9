-- ===== src/Capacity/Request.antt =====
-- `EffectiveRequest` of internal/k8s/schedulable.go. A container's requests are what the resource
-- library reads from them: thousandths of a CPU (MilliValue) and bytes (Value), where they are set.
-- They and their sums stay below 2^63, so that int64 counts like ℕ.
use matrixctrl.Common.{ℕ, ◌+◌, ◌/◌, ◌^◌, Option, none, some, List, [], ◌∷◌, ltb, if◌then◌else◌}

pub record Container : Type 0 where
  pub cpu : Option ℕ
  pub memory : Option ℕ

pub record PodSpec : Type 0 where
  pub containers : List Container
  pub init_containers : List Container

abbrev pub quantity_millis : Container → ℕ
quantity_millis c = elim c.cpu [ none ↦ 0 | some millis ↦ millis ]

abbrev pub quantity_mi : Container → ℕ
quantity_mi c = elim c.memory [ none ↦ 0 | some bytes ↦ bytes / 2 ^ 20 ]

-- The loop over the containers, which adds up, and the one over the init containers, which keeps the
-- greatest; `amount` is either of the two above.
module _ (amount : Container → ℕ) where
  unfoldable pub sum_of : List Container → ℕ → ℕ
  sum_of [] sum = sum
  sum_of (c ∷ cs) sum = sum_of cs (sum + amount c)

  unfoldable pub greatest : List Container → ℕ → ℕ
  greatest [] most = most
  greatest (c ∷ cs) most = greatest cs (if ltb most (amount c) then amount c else most)

abbrev pub max_int64 : ℕ → ℕ → ℕ
max_int64 a b = if ltb b a then a else b

unfoldable pub effective_request : PodSpec → ℕ × ℕ
effective_request spec = (
  max_int64 (sum_of quantity_millis spec.containers 0)
      (greatest quantity_millis spec.init_containers 0),
  max_int64 (sum_of quantity_mi spec.containers 0) (greatest quantity_mi spec.init_containers 0),
)
