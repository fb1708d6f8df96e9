-- ===== src/Rollout/Pods.antt =====
-- `classify` and `Assess` of internal/rollout/rollout.go: which pods are failing, and how many are
-- only starting. Texts are lists of bytes. What the standard library does with a text where bytes are
-- not enough is a parameter: `trim_space` for strings.TrimSpace and `decimal` for %d.
use matrixctrl.Common.{
  ℕ, ◌+◌, Bool, true, false, List, [], ◌∷◌, ◌++◌, ◌&&◌, ◌||◌, not, ◌==◌, if◌then◌else◌,
}
use matrixctrl.Common.Bytes.{Bytes, ascii, same, less}
use matrixctrl.Common.Sort.{stable_sort}

pub record ContainerState : Type 0 where
  pub name : Bytes
  pub init : Bool
  pub waiting : Bytes
  pub last_exit_code : ℕ
  pub terminated : Bool
  pub message : Bytes

pub record PodState : Type 0 where
  pub name : Bytes
  pub ready : Bool
  pub phase : Bytes
  pub containers : List ContainerState

pub record Blocker : Type 0 where
  pub pod : Bytes
  pub container : Bytes
  pub init : Bool
  pub reason : Bytes
  pub message : Bytes

abbrev pub failing_reasons : List Bytes
failing_reasons =
    ascii "CrashLoopBackOff"
    ∷ ascii "ImagePullBackOff"
    ∷ ascii "ErrImagePull"
    ∷ ascii "CreateContainerError"
    ∷ ascii "CreateContainerConfigError"
    ∷ ascii "InvalidImageName"
    ∷ ascii "RunContainerError"
    ∷ []

unfoldable pub among : Bytes → List Bytes → Bool
among r [] = false
among r (s ∷ rest) = same s r || among r rest

-- `blockers[i]` before `blockers[j]`: by pod, then by container.
unfoldable pub before : Blocker → Blocker → Bool
before a b = if same a.pod b.pod then less a.container b.container else less a.pod b.pod

module _ (trim_space : Bytes → Bytes) (decimal : ℕ → Bytes) where
  -- The reason, and whether the container is failing.
  unfoldable pub classify : ContainerState → Bytes × Bool
  classify c =
      if among c.waiting failing_reasons
      then (c.waiting, true)
      else if not (same c.waiting [])
      then (c.waiting, false)
      else if c.terminated && not (c.last_exit_code == 0)
      then (ascii "Exit " ++ decimal c.last_exit_code, true)
      else ([], false)

  abbrev pub blocker_of : PodState → ContainerState → Blocker
  blocker_of p c = record {
    pod = p.name;
    container = c.name;
    init = c.init;
    reason = (classify c).0;
    message = trim_space c.message;
  }

  -- The loop over the containers of one pod.
  unfoldable pub blockers_in : PodState → List ContainerState → List Blocker
  blockers_in p [] = []
  blockers_in p (c ∷ cs) =
      let rest = blockers_in p cs in if (classify c).1 then blocker_of p c ∷ rest else rest

  abbrev pub is_empty : List Blocker → Bool
  is_empty [] = true
  is_empty (b ∷ bs) = false

  -- A pod that is ready or has run to completion is passed over.
  unfoldable pub is_done : PodState → Bool
  is_done p = p.ready || same p.phase (ascii "Succeeded")

  abbrev pub add_pod : PodState → List Blocker × ℕ → List Blocker × ℕ
  add_pod p (bs, starting) =
      let found = blockers_in p p.containers in
      (found ++ bs, if is_empty found then starting + 1 else starting)

  -- The loop over the pods, before the sort.
  unfoldable pub collect : List PodState → List Blocker × ℕ
  collect [] = ([], 0)
  collect (p ∷ ps) = if is_done p then collect ps else add_pod p (collect ps)

  unfoldable pub assess : List PodState → List Blocker × ℕ
  assess ps = let (bs, starting) = collect ps in (stable_sort before bs, starting)
