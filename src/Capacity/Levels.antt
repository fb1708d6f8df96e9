-- ===== src/Capacity/Levels.antt =====
-- What the levels of `Check` of internal/capacity/capacity.go say about the nodes.
use matrixctrl.Common.{
  ℕ, ◌-◌, ◌≤◌, ◌<◌, ◌≡◌, refl, ap, sym, subst, ◌∙◌, false≢true, String, Bool, true, false, Option,
  none, some, List, [], ◌∷◌, ◌&&◌, ◌||◌, ◌++◌, not, ltb, All, arith,
}
use matrixctrl.Common.Bytes.{Bytes}
use matrixctrl.Capacity.Request.{effective_request}
use matrixctrl.Capacity.Manifest.{Workload}
use matrixctrl.Capacity.Check.{
  warn, Finding, Node, Largest, none_yet, widen, widest, over, judge, is_blocked,
}

-- Some node has the resource, and none has enough of it for the request.
abbrev pub some_have : (Node → ℕ) → List Node → Bool
some_have size [] = false
some_have size (n ∷ ns) = ltb 0 (size n) || some_have size ns

abbrev pub all_below : (Node → ℕ) → ℕ → List Node → Bool
all_below size request [] = true
all_below size request (n ∷ ns) = ltb (size n) request && all_below size request ns

abbrev pub exceeds : (Node → ℕ) → ℕ → List Node → Bool
exceeds size request nodes = some_have size nodes && all_below size request nodes

-- Of one of the two resources the pod asks for more than any node has, whatever runs there.
abbrev pub too_large : ℕ × ℕ → List Node → Bool
too_large (cpu, mem) nodes =
    exceeds (λ n. n.cpu_allocatable) cpu nodes || exceeds (λ n. n.mem_allocatable) mem nodes

abbrev pub any_too_large : List Node → List (String × Workload) → Bool
any_too_large nodes [] = false
any_too_large nodes ((name, w) ∷ ws) =
    too_large (effective_request w.spec) nodes || any_too_large nodes ws

over_cpu-widest :
    (ns : List Node) (l : Largest) (request : ℕ)
    → over (widest ns l).cpu request ≡ (
        (ltb 0 l.cpu || some_have (λ n. n.cpu_allocatable) ns)
        && (ltb l.cpu request && all_below (λ n. n.cpu_allocatable) request ns))
unfolding widest
over_cpu-widest [] l request = ground arith
over_cpu-widest (n ∷ ns) l request = ground (arith, over_cpu-widest ns (widen n l) request)

over_mem-widest :
    (ns : List Node) (l : Largest) (request : ℕ)
    → over (widest ns l).mem request ≡ (
        (ltb 0 l.mem || some_have (λ n. n.mem_allocatable) ns)
        && (ltb l.mem request && all_below (λ n. n.mem_allocatable) request ns))
unfolding widest
over_mem-widest [] l request = ground arith
over_mem-widest (n ∷ ns) l request = ground (arith, over_mem-widest ns (widen n l) request)

abbrev pub level_is_blocked : Option Finding → Bool
level_is_blocked none = false
level_is_blocked (some f) = is_blocked f.level

abbrev pub level_is_warn : Option Finding → Bool
level_is_warn none = false
level_is_warn (some f) = elim f.level [ warn ↦ true | _ ↦ false ]

-- A request above what some node has is above 0.
all_below-pos :
    (size : Node → ℕ) (request : ℕ) (ns : List Node)
    → some_have size ns ≡ true
    → all_below size request ns ≡ true
    → ltb 0 request ≡ true
all_below-pos size request [] h a = absurd (false≢true h)
all_below-pos size request (n ∷ ns) h a = ground arith

over-too_large :
    (nodes : List Node) (r : ℕ × ℕ)
    → (over (widest nodes none_yet).cpu r.0 || over (widest nodes none_yet).mem r.1)
      ≡ too_large r nodes
over-too_large nodes (cpu, mem) = ground (
  arith,
  over_cpu-widest nodes none_yet cpu,
  over_mem-widest nodes none_yet mem,
  all_below-pos (λ n. n.cpu_allocatable) cpu nodes,
  all_below-pos (λ n. n.mem_allocatable) mem nodes,
)

widest-append : (ms ns : List Node) (l : Largest) → widest (ms ++ ns) l ≡ widest ns (widest ms l)
unfolding widest
widest-append [] ns l = refl
widest-append (m ∷ ms) ns l = widest-append ms ns (widen m l)

cpu-widest-lt :
    (ns : List Node) (l : Largest) (c : ℕ)
    → l.cpu < c
    → All (λ n. n.cpu_allocatable < c) ns
    → (widest ns l).cpu < c
unfolding widest
cpu-widest-lt [] l c h a = h
cpu-widest-lt (n ∷ ns) l c h (hn, a) = cpu-widest-lt ns (widen n l) c (ground arith) a

widen-le :
    (n : Node) (l : Largest)
    → n.cpu_allocatable ≤ l.cpu
    → ((widen n l).cpu ≡ l.cpu) × ((widen n l).free_cpu ≡ l.free_cpu)
widen-le n l h = ground arith

widen-lt :
    (n : Node) (l : Largest)
    → l.cpu < n.cpu_allocatable
    → ((widen n l).cpu ≡ n.cpu_allocatable)
      × ((widen n l).free_cpu ≡ n.cpu_allocatable - n.cpu_used)
widen-lt n l h = ground arith

free_cpu-widest :
    (ns : List Node) (l : Largest)
    → All (λ n. n.cpu_allocatable ≤ l.cpu) ns
    → (widest ns l).free_cpu ≡ l.free_cpu
unfolding widest
free_cpu-widest [] l a = refl
free_cpu-widest (n ∷ ns) l (h, a) =
    let (same_cpu, same_free) = widen-le n l h in
    free_cpu-widest ns (widen n l)
      (subst (λ c. All (λ m. m.cpu_allocatable ≤ c) ns) (sym same_cpu) a)
    ∙ same_free

-- The free CPU that is kept is that of the first of the largest nodes.
free_cpu-largest :
    (ms : List Node) (n : Node) (ns : List Node)
    → 0 < n.cpu_allocatable
    → All (λ m. m.cpu_allocatable < n.cpu_allocatable) ms
    → All (λ m. m.cpu_allocatable ≤ n.cpu_allocatable) ns
    → (widest (ms ++ n ∷ ns) none_yet).free_cpu ≡ n.cpu_allocatable - n.cpu_used
unfolding widest
free_cpu-largest ms n ns h below above =
    let l = widest ms none_yet in
    let kept = widen-lt n l (cpu-widest-lt ms none_yet n.cpu_allocatable h below) in
    ap (λ w. w.free_cpu) (widest-append ms (n ∷ ns) none_yet)
    ∙ free_cpu-widest ns (widen n l)
        (subst (λ c. All (λ m. m.cpu_allocatable ≤ c) ns) (sym kept.0) above)
    ∙ kept.1

module _ (decimal : ℕ → String) where
  -- The order of the cases.
  judge-levels :
      (l : Largest) (name kind : String) (r : ℕ × ℕ)
      → (level_is_blocked (judge decimal l name kind r) ≡ (over l.cpu r.0 || over l.mem r.1))
        × (level_is_warn (judge decimal l name kind r)
            ≡ (not (over l.cpu r.0 || over l.mem r.1) && over l.free_cpu r.0))
  unfolding judge
  judge-levels l name kind (cpu, mem) = ground arith

  -- A workload is warned about exactly if of CPU and of memory, each by itself, some node has in all what
  -- it asks for or no node has any, and it asks for more CPU than the first of the nodes with the most
  -- CPU has free, as long as that node has any free at all: where nothing is free, there is no warning.
  pub judge-warn :
      (ms : List Node) (n : Node) (ns : List Node) (name kind : String) (r : ℕ × ℕ)
      → 0 < n.cpu_allocatable
      → All (λ m. m.cpu_allocatable < n.cpu_allocatable) ms
      → All (λ m. m.cpu_allocatable ≤ n.cpu_allocatable) ns
      → level_is_warn (judge decimal (widest (ms ++ n ∷ ns) none_yet) name kind r) ≡ (
          not (too_large r (ms ++ n ∷ ns))
          && (ltb n.cpu_used n.cpu_allocatable && ltb (n.cpu_allocatable - n.cpu_used) r.0))
  judge-warn ms n ns name kind r h below above = ground (
    arith,
    judge-levels (widest (ms ++ n ∷ ns) none_yet) name kind r,
    over-too_large (ms ++ n ∷ ns) r,
    free_cpu-largest ms n ns h below above,
  )
