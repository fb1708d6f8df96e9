-- ===== src/Rollout/Examples.antt =====
-- An upgrade in the middle: Synapse runs, its worker's image cannot be pulled, Element starts.
use matrixctrl.Common.{
  ℕ, ◌+◌, ◌≤◌, ◌≡◌, ◌↔◌, refl, Bool, true, false, List, [], ◌∷◌, ◌++◌, All, length,
}
use matrixctrl.Common.Bytes.{Bytes, ascii, join, split}
use matrixctrl.Common.Sort.{stable_sort, place, IsOrdered, tally}
use matrixctrl.Rollout.Pods.{
  ContainerState, PodState, Blocker, before, assess, collect, blockers_in, classify, among, is_done,
}
use matrixctrl.Rollout.Text.{looks_like_hash, all_hash_bytes, drop_hashes, short_pod}
use matrixctrl.Rollout.Progress.{Workload, by_name, build_progress}
use matrixctrl.Rollout.Blockers.{AreFound, AreInOrder, assess_lem}
use matrixctrl.Rollout.Components.{shows_ready, IsRolledOut, build_progress_lem}

abbrev unchanged : Bytes → Bytes
unchanged s = s

abbrev digit : ℕ → Bytes
digit n = (n + 48) ∷ []

abbrev container : Bytes → Bytes → ContainerState
container name waiting = record {
  name = name;
  init = false;
  waiting = waiting;
  last_exit_code = 0;
  terminated = false;
  message = ascii "manifest unknown";
}

abbrev pod : Bytes → Bool → List ContainerState → PodState
pod name ready cs = record { name = name; ready = ready; phase = ascii "Pending"; containers = cs }

abbrev pods : List PodState
pods =
    pod (ascii "worker-0") false (container (ascii "main") (ascii "ImagePullBackOff") ∷ [])
    ∷ pod (ascii "element-7d9f8b5c4-abcde") false
        (container (ascii "web") (ascii "ContainerCreating") ∷ [])
    ∷ pod (ascii "synapse-0") true []
    ∷ []

abbrev workload : Bytes → ℕ → Workload
workload name ready = record {
  kind = ascii "StatefulSet";
  name = name;
  desired = 1;
  updated = 1;
  ready = ready;
  generation = 2;
  observed = 2;
}

abbrev workloads : List Workload
workloads = workload (ascii "worker") 0 ∷ workload (ascii "synapse") 1 ∷ []

abbrev failing : List Blocker
failing = (assess unchanged digit pods).0

one_failing : length failing ≡ 1
unfolding assess collect blockers_in classify among is_done stable_sort place
    matrixctrl.Common.Bytes.same
one_failing = refl

short_name : short_pod (ascii "element-7d9f8b5c4-x2bcd") ≡ ascii "element"
unfolding short_pod drop_hashes looks_like_hash all_hash_bytes split join
short_name = refl

assess_lem_example :
    ((found : List Blocker) × AreFound unchanged digit pods found (assess unchanged digit pods).1
      × ((test : Blocker → Bool) → tally before test failing ≡ tally before test found))
    × AreInOrder failing
assess_lem_example = assess_lem unchanged digit pods

build_progress_lem_example :
    let g = build_progress unchanged digit (ascii "upgrade") workloads pods [] in
    (tally by_name (λ c. shows_ready c.state) g.components ≡ g.ready)
    × (tally by_name (λ c. true) g.components ≡ g.total)
    × IsOrdered by_name g.components
    × ((g.ready ≡ g.total) ↔ All IsRolledOut workloads)
build_progress_lem_example = build_progress_lem unchanged digit (ascii "upgrade") workloads pods []
