-- ===== src/Capacity/Examples.antt =====
-- A Synapse whose init container inherited four CPUs, on a cluster of two nodes.
use matrixctrl.Common.{
  ℕ, ◌≤◌, ◌≡◌, ◌↔◌, refl, String, Option, none, some, List, [], ◌∷◌, ◌&&◌, not, ltb, All, arith,
}
use matrixctrl.Common.Bytes.{Bytes}
use matrixctrl.Capacity.Request.{
  Container, PodSpec, quantity_millis, quantity_mi, effective_request, sum_of, greatest,
}
use matrixctrl.Capacity.Check.{Node, none_yet, widest, judge}
use matrixctrl.Capacity.Fits.{total, effective_request-le}
use matrixctrl.Capacity.Levels.{too_large, level_is_warn, judge-warn}

abbrev asks : ℕ → Container
asks millis = record { cpu = some millis; memory = none }

abbrev synapse : PodSpec
synapse = record { containers = asks 1000 ∷ asks 200 ∷ []; init_containers = asks 4000 ∷ [] }

abbrev node : String → ℕ → ℕ → Node
node name cpu used = record {
  name = name;
  cpu_allocatable = cpu;
  cpu_used = used;
  mem_allocatable = 36000;
}

abbrev nodes : List Node
nodes = node "small" 2000 500 ∷ node "large" 3000 1800 ∷ []

abbrev shown : ℕ → String
shown n = "n"

abbrev unchanged : Bytes → Bytes
unchanged s = s

abbrev kind_of : Bytes → Option String
kind_of doc = some "StatefulSet"

abbrev template_of : String → Bytes → Option (String × PodSpec)
template_of kind doc = some ("synapse", synapse)

asks_four_cpus : effective_request synapse ≡ (4000, 0)
unfolding effective_request sum_of greatest
asks_four_cpus = refl

effective_request-le_example :
    (((effective_request synapse).0 ≤ 4000) ↔ (
      (total quantity_millis synapse.containers ≤ 4000)
      × All (λ c. quantity_millis c ≤ 4000) synapse.init_containers))
    × (((effective_request synapse).1 ≤ 0) ↔ (
        (total quantity_mi synapse.containers ≤ 0)
        × All (λ c. quantity_mi c ≤ 0) synapse.init_containers))
effective_request-le_example = effective_request-le synapse 4000 0

judge-warn_example :
    level_is_warn (judge shown (widest nodes none_yet) "synapse" "StatefulSet" (1500, 0))
    ≡ (not (too_large (1500, 0) nodes) && (ltb 1800 3000 && ltb 1200 1500))
judge-warn_example =
    judge-warn shown (node "small" 2000 500 ∷ []) (node "large" 3000 1800) [] "synapse"
      "StatefulSet" (1500, 0) (omega arith) (omega arith, tt) tt
