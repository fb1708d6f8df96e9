-- ===== src/Rollout/Components.antt =====
-- What the snapshot of internal/rollout/rollout.go tells of the workloads.
use matrixctrl.Common.{
  ℕ, suc, ◌≤◌, ◌≡◌, ◌↔◌, refl, ap, ◌∙◌, Bool, Bool-cases, inl, inr, true, false, List, [], ◌∷◌, map,
  ◌&&◌, All, length, ltb, arith,
}
use matrixctrl.Common.Bytes.{Bytes, less_antisym, less_negtrans}
use matrixctrl.Common.Sort.{IsOrdered, tally, tally-stable_sort, stable_sort-IsOrdered}
use matrixctrl.Rollout.Pods.{PodState, Blocker, assess}
use matrixctrl.Rollout.Progress.{
  Workload, Condition, is_ready, Component, settled, rolled_out, pulling_for, by_name, detail_for,
  condition, component_of, count_ready, build_progress,
}

abbrev pub shows_ready : Condition → Bool
shows_ready is_ready = true
shows_ready _ = false

shows_ready-condition :
    (b : Bool) (detail : Bytes) (pulling moving : Bool)
    → shows_ready (condition b detail pulling moving) ≡ b
shows_ready-condition true detail pulling moving = refl
shows_ready-condition false (c ∷ detail) pulling moving = refl
shows_ready-condition false [] true moving = refl
shows_ready-condition false [] false true = refl
shows_ready-condition false [] false false = refl

-- The controller has seen the current spec, and all replicas run it and are ready.
abbrev pub IsRolledOut : Workload → Type 0
IsRolledOut w = (w.generation ≤ w.observed) × (w.updated ≡ w.desired) × (w.ready ≡ w.desired)

rolled_out-IsRolledOut : (w : Workload) → (rolled_out w ≡ true) ↔ IsRolledOut w
unfolding rolled_out settled
rolled_out-IsRolledOut w = (λ h. ground arith, λ h. ground (arith, h.0, h.1, h.2))

count_ready-le : (ws : List Workload) → count_ready ws ≤ length ws
unfolding count_ready
count_ready-le [] = omega arith
count_ready-le (w ∷ ws) = ground (arith, count_ready-le ws)

count_ready-All : (ws : List Workload) → (count_ready ws ≡ length ws) ↔ All IsRolledOut ws
unfolding count_ready
count_ready-All [] = (λ h. tt, λ h. refl)
count_ready-All (w ∷ ws) = elim (Bool-cases (rolled_out w)) [
  | inl h ↦ rw h (
    λ e. ((rolled_out-IsRolledOut w).0 h, (count_ready-All ws).0 (omega (arith, e))),
    λ a. ap suc ((count_ready-All ws).1 a.1),
  )
  | inr h ↦ rw h (
    λ e. absurd (omega (arith, e, count_ready-le ws)),
    λ a. cc (h, (rolled_out-IsRolledOut w).1 a.0),
  )
]

module _ (trim_space : Bytes → Bytes) (decimal : ℕ → Bytes) where
  shows_ready-component_of :
      (bs : List Blocker) (pulling : List Bytes) (w : Workload)
      → shows_ready (component_of trim_space decimal bs pulling w).state ≡ rolled_out w
  unfolding component_of
  shows_ready-component_of bs pulling w =
      shows_ready-condition (rolled_out w) (detail_for trim_space decimal bs w.name)
        (pulling_for pulling w.name) (settled w && ltb 0 w.updated)

  tally-component_of :
      (bs : List Blocker) (pulling : List Bytes) (ws : List Workload)
      → tally by_name
          (λ c. shows_ready c.state)
          (map (component_of trim_space decimal bs pulling) ws)
        ≡ count_ready ws
  unfolding count_ready
  tally-component_of bs pulling [] = refl
  tally-component_of bs pulling (w ∷ ws) =
      rw (shows_ready-component_of bs pulling w, tally-component_of bs pulling ws) refl

  tally_all-component_of :
      (bs : List Blocker) (pulling : List Bytes) (ws : List Workload)
      → tally by_name (λ c. true) (map (component_of trim_space decimal bs pulling) ws) ≡ length ws
  tally_all-component_of bs pulling [] = refl
  tally_all-component_of bs pulling (w ∷ ws) = ap suc (tally_all-component_of bs pulling ws)

  -- The counted components are those that are shown as ready, and they are ordered by name. All are
  -- ready exactly if of every workload the controller has seen the current spec, and as many replicas
  -- as desired are updated to it and as many are ready.
  pub build_progress_lem :
      (phase : Bytes) (ws : List Workload) (pods : List PodState) (pulling : List Bytes)
      → let g = build_progress trim_space decimal phase ws pods pulling in
        (tally by_name (λ c. shows_ready c.state) g.components ≡ g.ready)
        × (tally by_name (λ c. true) g.components ≡ g.total)
        × IsOrdered by_name g.components
        × ((g.ready ≡ g.total) ↔ All IsRolledOut ws)
  unfolding build_progress
  build_progress_lem phase ws pods pulling = (
    tally-stable_sort by_name (λ c. shows_ready c.state) shown ∙ tally-component_of bs pulling ws,
    tally-stable_sort by_name (λ c. true) shown ∙ tally_all-component_of bs pulling ws,
    stable_sort-IsOrdered by_name (λ x y. less_antisym x.name y.name)
        (λ x y z. less_negtrans x.name y.name z.name) shown,
    count_ready-All ws,
  )
    where
      bs : List Blocker
      bs = (assess trim_space decimal pods).0

      shown : List Component
      shown = map (component_of trim_space decimal bs pulling) ws
