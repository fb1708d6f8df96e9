-- ===== src/NodeHist/Changes.antt =====
-- Which changes `DetectCapacityChanges` of internal/nodehist/nodehist.go reports.
use matrixctrl.Common.{
  ◌≡◌, refl, ap, subst, ◌∙◌, String, Bool, Bool-cases, inl, inr, false, Option, none, some, List,
  [], ◌∷◌, ◌&&◌, ◌||◌, not, ◌==◌, str_eq, eq_iff, insert, lookup, lookup-insert, arith,
  if◌then◌else◌,
}
use matrixctrl.NodeHist.Detect.{
  Sample, Span, CapacityChange, extend, spans, unchanged, changes, detect_capacity_changes,
}

-- The first and the last sample of a node.
abbrev pub first_of : String → List Sample → Option Sample
first_of name [] = none
first_of name (s ∷ samples) = if str_eq s.node name then some s else first_of name samples

abbrev pub last_or : String → List Sample → Sample → Sample
last_or name [] s = s
last_or name (t ∷ samples) s = last_or name samples (if str_eq t.node name then t else s)

abbrev pub capacity_differs : Sample → Sample → Bool
capacity_differs s t = not (s.cpu_alloc == t.cpu_alloc && s.mem_alloc == t.mem_alloc)

abbrev pub differs_in : String → List Sample → Option Sample → Bool
differs_in name samples none = false
differs_in name samples (some s) = capacity_differs s (last_or name samples s)

abbrev pub reports : String → List CapacityChange → Bool
reports name [] = false
reports name (c ∷ cs) = str_eq c.node name || reports name cs

-- No name is a key twice.
abbrev has_key : String → List (String × Span) → Bool
has_key name [] = false
has_key name ((k, p) ∷ m) = str_eq k name || has_key name m

abbrev HasDistinctKeys : List (String × Span) → Type 0
HasDistinctKeys [] = Unit
HasDistinctKeys ((k, p) ∷ m) = (has_key k m ≡ false) × HasDistinctKeys m

has_key-insert :
    (name k : String) (p : Span) (m : List (String × Span))
    → has_key name (insert k p m) ≡ (str_eq k name || has_key name m)
unfolding insert
has_key-insert name k p [] = ground arith
has_key-insert name k p ((j, q) ∷ m) =
    ground (arith, has_key-insert name k p m, eq_iff j k, eq_iff j name, eq_iff k name)

insert-HasDistinctKeys :
    (k : String) (p : Span) (m : List (String × Span))
    → HasDistinctKeys m
    → HasDistinctKeys (insert k p m)
unfolding insert
insert-HasDistinctKeys k p [] d = (refl, tt)
insert-HasDistinctKeys k p ((j, q) ∷ m) (h, d) = elim (Bool-cases (str_eq j k)) [
  | inl e ↦ rw e (subst (λ n. has_key n m ≡ false) ((eq_iff j k).0 e) h, d)
  | inr e ↦ rw e (
    ground (arith, has_key-insert j k p m, eq_iff j k, eq_iff k j),
    insert-HasDistinctKeys k p m d,
  )
]

spans-HasDistinctKeys :
    (samples : List Sample) (m : List (String × Span))
    → HasDistinctKeys m
    → HasDistinctKeys (spans samples m)
unfolding spans
spans-HasDistinctKeys [] m d = d
spans-HasDistinctKeys (s ∷ samples) m d =
    spans-HasDistinctKeys samples _ (insert-HasDistinctKeys s.node (extend s (lookup s.node m)) m d)

abbrev differs_at : Option Span → Bool
differs_at none = false
differs_at (some p) = not (unchanged p)

reports-no_key :
    (name : String) (m : List (String × Span))
    → has_key name m ≡ false
    → reports name (changes m) ≡ false
unfolding changes
reports-no_key name [] h = refl
reports-no_key name ((k, p) ∷ m) h = ground (arith, reports-no_key name m)

reports-changes :
    (name : String) (m : List (String × Span))
    → HasDistinctKeys m
    → reports name (changes m) ≡ differs_at (lookup name m)
unfolding changes lookup
reports-changes name [] d = refl
reports-changes name ((k, p) ∷ m) (h, d) = elim (Bool-cases (str_eq k name)) [
  | inl e ↦
      ground
        (arith, reports-no_key name m (subst (λ n. has_key n m ≡ false) ((eq_iff k name).0 e) h))
  | inr e ↦ ground (arith, reports-changes name m d)
]

abbrev seen : String → List Sample → Option Span → Option Span
seen name [] p = p
seen name (s ∷ samples) p = seen name samples (if str_eq s.node name then some (extend s p) else p)

lookup-spans :
    (name : String) (samples : List Sample) (m : List (String × Span))
    → lookup name (spans samples m) ≡ seen name samples (lookup name m)
unfolding spans
lookup-spans name [] m = refl
lookup-spans name (s ∷ samples) m =
    lookup-spans name samples (insert s.node (extend s (lookup s.node m)) m)
    ∙ ap (seen name samples) (lookup-insert s.node name (extend s (lookup s.node m)) m ∙ kept)
  where
    kept :
        (if str_eq s.node name then some (extend s (lookup s.node m)) else lookup name m)
        ≡ (if str_eq s.node name then some (extend s (lookup name m)) else lookup name m)
    kept = elim (Bool-cases (str_eq s.node name)) [
      | inl e ↦ rw e (ap (λ n. some (extend s (lookup n m))) ((eq_iff s.node name).0 e))
      | inr e ↦ rw e refl
    ]

seen-some :
    (name : String) (samples : List Sample) (s t : Sample)
    → differs_at (seen name samples (some (record { first = s; last = t })))
      ≡ capacity_differs s (last_or name samples t)
seen-some name [] s t = refl
seen-some name (u ∷ samples) s t = elim (Bool-cases (str_eq u.node name)) [
  | inl e ↦ ground (arith, seen-some name samples s u)
  | inr e ↦ ground (arith, seen-some name samples s t)
]

differs_in-skip :
    (name : String) (t : Sample) (samples : List Sample) (o : Option Sample)
    → str_eq t.node name ≡ false
    → differs_in name (t ∷ samples) o ≡ differs_in name samples o
differs_in-skip name t samples none h = refl
differs_in-skip name t samples (some s) h =
    ap (λ b. capacity_differs s (last_or name samples (if b then t else s))) h

seen-none :
    (name : String) (samples : List Sample)
    → differs_at (seen name samples none) ≡ differs_in name samples (first_of name samples)
seen-none name [] = refl
seen-none name (s ∷ samples) = elim (Bool-cases (str_eq s.node name)) [
  | inl e ↦ ground (arith, seen-some name samples s s)
  | inr e ↦
      ground
        (arith, seen-none name samples, differs_in-skip name s samples (first_of name samples) e)
]

-- A change is reported for a node exactly if the node has a sample and its first and its last sample
-- differ in what can be allocated of CPU or of memory, whatever lies between.
pub reports-detect_capacity_changes :
    (name : String) (samples : List Sample)
    → reports name (detect_capacity_changes samples)
      ≡ differs_in name samples (first_of name samples)
unfolding detect_capacity_changes lookup
reports-detect_capacity_changes name samples =
    reports-changes name (spans samples []) (spans-HasDistinctKeys samples [] tt)
    ∙ ap differs_at (lookup-spans name samples [])
    ∙ seen-none name samples
