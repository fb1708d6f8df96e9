-- ===== src/Rollout/Progress.antt =====
-- `BuildProgress` of internal/rollout/rollout.go: the snapshot that the upgrade screen renders.
use matrixctrl.Common.{
  ℕ, suc, Bool, true, false, List, [], ◌∷◌, ◌++◌, map, ◌&&◌, ◌||◌, ◌==◌, ltb, leb, length,
  if◌then◌else◌,
}
use matrixctrl.Common.Bytes.{Bytes, ascii, less, has_prefix}
use matrixctrl.Common.Sort.{stable_sort}
use matrixctrl.Rollout.Pods.{PodState, Blocker, assess}
use matrixctrl.Rollout.Text.{place_of, message_of}

-- Replica counts are int32 and generations int64 in the source; all are at least 0.
pub record Workload : Type 0 where
  pub kind : Bytes
  pub name : Bytes
  pub desired : ℕ
  pub updated : ℕ
  pub ready : ℕ
  pub generation : ℕ
  pub observed : ℕ

pub data Condition : Type 0 where
  is_ready is_pulling is_starting is_failing is_waiting : Condition

pub record Component : Type 0 where
  pub name : Bytes
  pub kind : Bytes
  pub state : Condition
  pub ready : ℕ
  pub desired : ℕ
  pub detail : Bytes

pub record Progress : Type 0 where
  pub phase : Bytes
  pub components : List Component
  pub ready : ℕ
  pub total : ℕ

unfoldable pub settled : Workload → Bool
settled w = leb w.generation w.observed

-- All replicas run the current spec.
unfoldable pub rolled_out : Workload → Bool
rolled_out w = settled w && w.updated == w.desired && w.ready == w.desired

-- The keys of `pulling` with which the workload's name begins.
unfoldable pub pulling_for : List Bytes → Bytes → Bool
pulling_for [] workload = false
pulling_for (pod ∷ pods) workload = has_prefix pod workload || pulling_for pods workload

abbrev pub by_name : Component → Component → Bool
by_name a b = less a.name b.name

-- The `switch`, by what its cases test.
abbrev pub condition : Bool → Bytes → Bool → Bool → Condition
condition true detail pulling moving = is_ready
condition false (c ∷ detail) pulling moving = is_failing
condition false [] true moving = is_pulling
condition false [] false true = is_starting
condition false [] false false = is_waiting

abbrev pub shown_detail : Bool → Bytes → Bytes
shown_detail true detail = []
shown_detail false detail = detail

unfoldable pub count_ready : List Workload → ℕ
count_ready [] = 0
count_ready (w ∷ ws) = let n = count_ready ws in if rolled_out w then suc n else n

module _ (trim_space : Bytes → Bytes) (decimal : ℕ → Bytes) where
  abbrev pub detail_of : Blocker → Bytes
  detail_of b =
      place_of trim_space decimal b ++ (ascii " " ++ (b.reason ++ message_of trim_space decimal b))

  -- The first blocker whose pod's name begins with the workload's.
  unfoldable pub detail_for : List Blocker → Bytes → Bytes
  detail_for [] workload = []
  detail_for (b ∷ bs) workload =
      if has_prefix b.pod workload then detail_of b else detail_for bs workload

  unfoldable pub component_of : List Blocker → List Bytes → Workload → Component
  component_of blockers pulling w = record {
    name = w.name;
    kind = w.kind;
    state =
        condition (rolled_out w) (detail_for blockers w.name) (pulling_for pulling w.name)
          (settled w && ltb 0 w.updated);
    ready = w.ready;
    desired = w.desired;
    detail = shown_detail (rolled_out w) (detail_for blockers w.name);
  }

  unfoldable pub build_progress : Bytes → List Workload → List PodState → List Bytes → Progress
  build_progress phase workloads pods pulling =
      let (blockers, starting) = assess trim_space decimal pods in
      record {
        phase = phase;
        components = stable_sort by_name (map (component_of blockers pulling) workloads);
        ready = count_ready workloads;
        total = length workloads;
      }
