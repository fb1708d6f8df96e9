-- ===== src/Rollout/Blockers.antt =====
-- What `Assess` of internal/rollout/rollout.go tells.
use matrixctrl.Common.{
  ℕ, suc, ◌+◌, ◌≢◌, ◌↔◌, ◌⊎◌, ◌∙◌, sym, subst, false≢true, All, ◌==◌, ==_iff, not, ◌&&◌, ◌≡◌, refl,
  Bool, Bool-cases, inl, inr, true, false, List, [], ◌∷◌, ◌++◌, arith, if◌then◌else◌,
}
use matrixctrl.Common.Bytes.{
  Bytes, ascii, same, less, same_iff, less_antisym, less_negtrans, less_total,
}
use matrixctrl.Common.Sort.{IsOrdered, stable_sort, tally, tally-stable_sort, stable_sort-IsOrdered}
use matrixctrl.Rollout.Pods.{
  ContainerState, PodState, Blocker, failing_reasons, among, classify, before, blockers_in,
  is_empty, is_done, collect, assess,
}

before_antisym : (x y : Blocker) → before x y ≡ true → before y x ≡ false
unfolding before
before_antisym x y h = ground (
  arith,
  same_iff x.pod y.pod,
  same_iff y.pod x.pod,
  less_antisym x.pod y.pod,
  less_antisym x.container y.container,
)

before_negtrans : (x y z : Blocker) → before y x ≡ false → before z y ≡ false → before z x ≡ false
unfolding before
before_negtrans x y z h k = ground (
  arith,
  same_iff y.pod x.pod,
  same_iff z.pod y.pod,
  same_iff z.pod x.pod,
  less_negtrans x.pod y.pod z.pod,
  less_negtrans x.container y.container z.container,
  less_total x.pod y.pod,
)

-- Ready, or run to completion.
abbrev pub IsOver : PodState → Type 0
IsOver p = (p.ready ≡ true) ⊎ (p.phase ≡ ascii "Succeeded")

abbrev pub IsOneOf : Bytes → List Bytes → Type 0
IsOneOf r [] = ⊥
IsOneOf r (s ∷ rest) = (s ≡ r) ⊎ IsOneOf r rest

-- What a container waits for if it does not come up by itself.
abbrev pub IsFailingReason : Bytes → Type 0
IsFailingReason r = IsOneOf r (
    ascii "CrashLoopBackOff"
    ∷ ascii "ImagePullBackOff"
    ∷ ascii "ErrImagePull"
    ∷ ascii "CreateContainerError"
    ∷ ascii "CreateContainerConfigError"
    ∷ ascii "InvalidImageName"
    ∷ ascii "RunContainerError"
    ∷ [])

less_irrefl : (a : Bytes) → less a a ≡ false
less_irrefl a = elim (Bool-cases (less a a)) [ inl h ↦ less_antisym a a h | inr h ↦ h ]

-- Blocker `x` may stand before `y`: its pod's name is not the later one and, within a pod, neither is
-- its container's.
abbrev pub MayPrecede : Blocker → Blocker → Type 0
MayPrecede x y = (less y.pod x.pod ≡ false) × (x.pod ≡ y.pod → less y.container x.container ≡ false)

abbrev pub AreInOrder : List Blocker → Type 0
AreInOrder [] = Unit
AreInOrder (x ∷ xs) = All (λ y. MayPrecede x y) xs × AreInOrder xs

before-MayPrecede : (x y : Blocker) → before y x ≡ false → MayPrecede x y
unfolding before
before-MayPrecede x y h = elim (Bool-cases (same y.pod x.pod)) [
  | inl e ↦
      let q = (same_iff y.pod x.pod).0 e in
      (subst (λ t. less y.pod t ≡ false) q (less_irrefl y.pod), λ _. rw e at h)
  | inr e ↦ (rw e at h, λ q. absurd (false≢true (sym e ∙ (same_iff y.pod x.pod).1 (sym q))))
]

All-MayPrecede :
    (x : Blocker) (xs : List Blocker)
    → All (λ y. before y x ≡ false) xs
    → All (λ y. MayPrecede x y) xs
All-MayPrecede x [] a = tt
All-MayPrecede x (y ∷ xs) (h, a) = (before-MayPrecede x y h, All-MayPrecede x xs a)

IsOrdered-AreInOrder : (xs : List Blocker) → IsOrdered before xs → AreInOrder xs
IsOrdered-AreInOrder [] h = tt
IsOrdered-AreInOrder (x ∷ xs) h = (All-MayPrecede x xs (h.0), IsOrdered-AreInOrder xs (h.1))

is_done-IsOver :
    (trim_space : Bytes → Bytes) (decimal : ℕ → Bytes) (p : PodState)
    → (is_done trim_space decimal p ≡ true) ↔ IsOver p
unfolding is_done
is_done-IsOver trim_space decimal p = (
  λ h. elim (Bool-cases p.ready) [
    | inl e ↦ inl e
    | inr e ↦ inr ((same_iff p.phase (ascii "Succeeded")).0 (rw e at h))
  ],
  λ h. elim h [
    | inl e ↦ rw e refl
    | inr e ↦ ground (arith, (same_iff p.phase (ascii "Succeeded")).1 e)
  ],
)

among-IsOneOf : (r : Bytes) (rs : List Bytes) → (among r rs ≡ true) ↔ IsOneOf r rs
unfolding among
among-IsOneOf r [] = (λ h. false≢true h, λ h. absurd h)
among-IsOneOf r (s ∷ rs) = (
  λ h. elim (Bool-cases (same s r)) [
    | inl e ↦ inl ((same_iff s r).0 e)
    | inr e ↦ inr ((among-IsOneOf r rs).0 (rw e at h))
  ],
  λ h. elim h [
    | inl e ↦ rw ((same_iff s r).1 e) refl
    | inr o ↦ ground (arith, (among-IsOneOf r rs).1 o)
  ],
)

ended :
    (c : ContainerState)
    → (c.terminated && not (c.last_exit_code == 0)) ≡ true
    → c.last_exit_code ≢ 0
ended c h e = ground (arith, ==_iff c.last_exit_code 0)

not_ended :
    (c : ContainerState)
    → (c.terminated && not (c.last_exit_code == 0)) ≡ false
    → c.terminated ≡ true
    → c.last_exit_code ≢ 0
    → ⊥
not_ended c h t n = n ((==_iff c.last_exit_code 0).0 (ground arith))

module _ (trim_space : Bytes → Bytes) (decimal : ℕ → Bytes) where
  -- Container `c` fails, for the reason `r`: it waits for a failing reason, or it waits for nothing and
  -- has ended with an exit code that is not 0.
  abbrev pub FailsFor : ContainerState → Bytes → Type 0
  FailsFor c r =
      (IsFailingReason c.waiting × (r ≡ c.waiting))
      ⊎ ((c.waiting ≡ [])
          × (c.terminated ≡ true)
          × (c.last_exit_code ≢ 0)
          × (r ≡ ascii "Exit " ++ decimal c.last_exit_code))

  -- The failing ones of the containers, in their order.
  abbrev pub AreBlockersOf : PodState → List ContainerState → List Blocker → Type 0
  AreBlockersOf p [] bs = bs ≡ []
  AreBlockersOf p (c ∷ cs) bs =
      (((r : Bytes) → FailsFor c r → ⊥) × AreBlockersOf p cs bs)
      ⊎ ((r : Bytes) × (rest : List Blocker) × FailsFor c r
          × (bs
              ≡ record {
                pod = p.name;
                container = c.name;
                init = c.init;
                reason = r;
                message = trim_space c.message;
              }
                ∷ rest)
          × AreBlockersOf p cs rest)

  -- The failing containers of the pods that are not over, in their order, and how many of these pods have
  -- none.
  abbrev pub AreFound : List PodState → List Blocker → ℕ → Type 0
  AreFound [] bs n = (bs ≡ []) × (n ≡ 0)
  AreFound (p ∷ ps) bs n =
      (IsOver p × AreFound ps bs n)
      ⊎ ((IsOver p → ⊥)
          × (found : List Blocker) × (rest : List Blocker) × (m : ℕ) × AreBlockersOf p p.containers
              found
          × AreFound ps rest m
          × (bs ≡ found ++ rest)
          × (((found ≡ []) × (n ≡ suc m)) ⊎ ((found ≢ []) × (n ≡ m))))

  classify-FailsFor :
      (c : ContainerState)
      → (((classify trim_space decimal c).1 ≡ true) × FailsFor c (classify trim_space decimal c).0)
        ⊎ (((classify trim_space decimal c).1 ≡ false) × ((r : Bytes) → FailsFor c r → ⊥))
  unfolding classify
  classify-FailsFor c = elim (Bool-cases (among c.waiting failing_reasons)) [
    | inl a ↦ inl (rw a (refl, inl ((among-IsOneOf c.waiting failing_reasons).0 a, refl)))
    | inr a ↦ elim (Bool-cases (same c.waiting [])) [
      | inr w ↦ inr (
        rw (a, w) refl,
        λ r f. elim f [
          | inl q ↦ false≢true (sym a ∙ (among-IsOneOf c.waiting failing_reasons).1 (q.0))
          | inr q ↦ false≢true (sym w ∙ (same_iff c.waiting []).1 (q.0))
        ],
      )
      | inl w ↦ elim (Bool-cases (c.terminated && not (c.last_exit_code == 0))) [
        | inl t ↦
            inl (
              rw (a, w, t) (refl, inr ((same_iff c.waiting []).0 w, ground arith, ended c t, refl)))
        | inr t ↦ inr (
          rw (a, w, t) refl,
          λ r f. elim f [
            | inl q ↦ false≢true (sym a ∙ (among-IsOneOf c.waiting failing_reasons).1 (q.0))
            | inr q ↦ not_ended c t (q.1) (q.2)
          ],
        )
      ]
    ]
  ]

  blockers_in-AreBlockersOf :
      (p : PodState) (cs : List ContainerState)
      → AreBlockersOf p cs (blockers_in trim_space decimal p cs)
  unfolding blockers_in
  blockers_in-AreBlockersOf p [] = refl
  blockers_in-AreBlockersOf p (c ∷ cs) = elim (classify-FailsFor c) [
    | inl (h, f) ↦ rw h (
        inr (
          (classify trim_space decimal c).0,
          blockers_in trim_space decimal p cs,
          f,
          refl,
          blockers_in-AreBlockersOf p cs,
        ))
    | inr (h, f) ↦ rw h (inl (f, blockers_in-AreBlockersOf p cs))
  ]

  is_empty-cases :
      (found : List Blocker) (m : ℕ)
      → let n = if is_empty trim_space decimal found then m + 1 else m in
        ((found ≡ []) × (n ≡ suc m)) ⊎ ((found ≢ []) × (n ≡ m))
  is_empty-cases [] m = inl (refl, omega arith)
  is_empty-cases (b ∷ found) m = inr (λ e. cc e, refl)

  collect-AreFound :
      (ps : List PodState)
      → AreFound ps (collect trim_space decimal ps).0 (collect trim_space decimal ps).1
  unfolding collect
  collect-AreFound [] = (refl, refl)
  collect-AreFound (p ∷ ps) = elim (Bool-cases (is_done trim_space decimal p)) [
    | inl h ↦ rw h (inl ((is_done-IsOver trim_space decimal p).0 h, collect-AreFound ps))
    | inr h ↦ rw h (
        inr (
          λ o. false≢true (sym h ∙ (is_done-IsOver trim_space decimal p).1 o),
          blockers_in trim_space decimal p p.containers,
          (collect trim_space decimal ps).0,
          (collect trim_space decimal ps).1,
          blockers_in-AreBlockersOf p p.containers,
          collect-AreFound ps,
          refl,
          is_empty-cases (blockers_in trim_space decimal p p.containers)
              (collect trim_space decimal ps).1,
        ))
  ]

  -- The blockers are exactly the containers of the pods neither ready nor run to completion that wait for
  -- one of the seven failing reasons, or wait for nothing and have ended with a code other than 0, each
  -- as often as it is there, with its reason, and in the order of pod and container; and the pods of
  -- these without one are the ones that are starting.
  pub assess_lem :
      (ps : List PodState)
      → let (blockers, starting) = assess trim_space decimal ps in
        ((found : List Blocker) × AreFound ps found starting
          × ((test : Blocker → Bool) → tally before test blockers ≡ tally before test found))
        × AreInOrder blockers
  unfolding assess
  assess_lem ps = (
    (
      (collect trim_space decimal ps).0,
      collect-AreFound ps,
      λ test. tally-stable_sort before test (collect trim_space decimal ps).0,
    ),
    IsOrdered-AreInOrder (stable_sort before (collect trim_space decimal ps).0) (
        stable_sort-IsOrdered before before_antisym before_negtrans
          (collect trim_space decimal ps).0),
  )
