-- ===== src/Config/Merge/Laws.antt =====
-- What a merge holds: `deepMerge` of internal/config/merge.go.
use matrixctrl.Common.{
  ◌≡◌, refl, ap, sym, ◌∙◌, String, Bool, true, false, Bool-cases, inl, inr, ◌⊎◌, eq_iff, subst,
  Option, none, some, List, [], ◌∷◌, ◌++◌, All, str_eq,
}
use matrixctrl.Common.Tree.{Value, object, Fields, end, field, find, put, fields_of, get}
use matrixctrl.Common.Tree.Paths.{get_in, get-object}
use matrixctrl.Common.Tree.Maps.{find-not_has_key, has_key, HasDistinctKeys, find-put}
use matrixctrl.Config.Merge.{deep_merge, merge_value, merge_next, merge_all, merge_to_map}

-- The value that a key has in the merge.
abbrev pub merge_option : Option Value → Option Value → Option Value
merge_option old none = old
merge_option old (some v) = some (merge_value old v)

pub find-deep_merge :
    (k : String) (dst src : Fields)
    → HasDistinctKeys src
    → find k (deep_merge dst src) ≡ merge_option (find k dst) (find k src)
unfolding deep_merge find
find-deep_merge k dst end d = refl
find-deep_merge k dst (field j v src) d = elim (Bool-cases (str_eq j k)) [
  | inl e ↦ rw e (
      find-deep_merge k (put j (merge_value (find j dst) v) dst) src (d.1)
      ∙ ap (merge_option (find k (put j (merge_value (find j dst) v) dst)))
          (find-not_has_key k src (subst (λ s. has_key s src ≡ false) ((eq_iff j k).0 e) (d.0)))
      ∙ find-put j k (merge_value (find j dst) v) dst
      ∙ rw (e, (eq_iff j k).0 e) refl)
  | inr e ↦ rw e (
      find-deep_merge k (put j (merge_value (find j dst) v) dst) src (d.1)
      ∙ ap (λ o. merge_option o (find k src))
          (find-put j k (merge_value (find j dst) v) dst ∙ rw e refl))
]

abbrev pub is_object : Value → Bool
is_object (object m) = true
is_object _ = false

merge_value-leaf : (old : Option Value) (v : Value) → is_object v ≡ false → merge_value old v ≡ v
unfolding merge_value
merge_value-leaf none v h = refl
merge_value-leaf (some (object d)) (object s) h = cc h
merge_value-leaf (some (object d)) _ h = refl
merge_value-leaf (some _) v h = refl

-- Along the path, each map has each key once.
abbrev pub IsMapAlong : List String → Option Value → Type 0
IsMapAlong [] o = Unit {0}
IsMapAlong (k ∷ path) o = HasDistinctKeys (fields_of o) × IsMapAlong path (find k (fields_of o))

-- Nothing is said at the path, nor of a place above it, but that it is a map.
abbrev pub IsSilent : List String → Option Value → Type 0
IsSilent [] o = o ≡ none
IsSilent (k ∷ path) o =
    (o ≡ none) ⊎ ((m : Fields) × (o ≡ some (object m)) × IsSilent path (find k m))

merge_option-leaf :
    (path : List String) (old o : Option Value) (v : Value)
    → IsMapAlong path o
    → get_in path o ≡ some v
    → is_object v ≡ false
    → get_in path (merge_option old o) ≡ some v
unfolding merge_value get
merge_option-leaf path old none v d g h = cc g
merge_option-leaf [] old (some w) v d g h =
    ap some (merge_value-leaf old w (subst (λ u. is_object u ≡ false) (cc g) h)) ∙ g
merge_option-leaf (k ∷ path) none (some w) v d g h = g
merge_option-leaf (k ∷ path) (some (object m)) (some (object n)) v d g h =
    get-object k path (deep_merge m n)
    ∙ ap (get_in path) (find-deep_merge k m n (d.0))
    ∙ merge_option-leaf path (find k m) (find k n) v (d.1) (sym (get-object k path n) ∙ g) h
merge_option-leaf (k ∷ path) (some (object m)) (some _) v d g h = g
merge_option-leaf (k ∷ path) (some _) (some w) v d g h = g

IsSilent-none : (path : List String) (o : Option Value) → IsSilent path o → get_in path o ≡ none
IsSilent-none [] o s = rw s refl
IsSilent-none (k ∷ path) o (inl s) = rw s refl
IsSilent-none (k ∷ path) o (inr s) =
    rw (s.1) (get-object k path (s.0) ∙ IsSilent-none path (find k (s.0)) (s.2))

merge_option-silent :
    (path : List String) (old o : Option Value)
    → IsMapAlong path o
    → IsSilent path o
    → get_in path (merge_option old o) ≡ get_in path old
unfolding merge_value get
merge_option-silent [] old o d s = rw s refl
merge_option-silent (k ∷ path) old none d s = refl
merge_option-silent (k ∷ path) old (some w) d (inl s) = cc s
merge_option-silent (k ∷ path) none (some w) d (inr s) = IsSilent-none (k ∷ path) (some w) (inr s)
merge_option-silent (k ∷ path) (some (object m)) (some (object n)) d (inr s) =
    get-object k path (deep_merge m n)
    ∙ ap (get_in path) (find-deep_merge k m n (d.0))
    ∙ merge_option-silent path (find k m) (find k n) (d.1)
        (subst (λ w. IsSilent path (find k (fields_of w))) (sym (s.1)) (s.2))
    ∙ sym (get-object k path m)
merge_option-silent (k ∷ path) (some (object m)) (some _) d (inr s) = cc (s.1)
merge_option-silent (k ∷ path) (some _) (some w) d (inr s) =
    IsSilent-none (k ∷ path) (some w) (inr s)

-- The value that a file has at a path is the one of the merge.
pub get-deep_merge :
    (path : List String) (dst src : Fields) (v : Value)
    → IsMapAlong path (some (object src))
    → get path (object src) ≡ some v
    → is_object v ≡ false
    → get path (object (deep_merge dst src)) ≡ some v
unfolding merge_value
get-deep_merge path dst src v d g h =
    merge_option-leaf path (some (object dst)) (some (object src)) v d g h

-- Where a file says nothing, the merge is what it was.
pub get-deep_merge_silent :
    (path : List String) (dst src : Fields)
    → IsMapAlong path (some (object src))
    → IsSilent path (some (object src))
    → get path (object (deep_merge dst src)) ≡ get path (object dst)
unfolding merge_value
get-deep_merge_silent path dst src d s =
    merge_option-silent path (some (object dst)) (some (object src)) d s

merge_next-some :
    (o : Option Fields) (merged : Fields) (next : Fields → Option Fields) (m : Fields)
    → merge_next o merged next ≡ some m
    → (s : Fields) × (o ≡ some s) × (next (deep_merge merged s) ≡ some m)
merge_next-some none merged next m h = cc h
merge_next-some (some s) merged next m h = (s, refl, h)

module _ (parse : String → Option Fields) (path : List String) where
  -- A file that says nothing at the path.
  abbrev pub IsSilentFile : String → Type 0
  IsSilentFile c =
      (m : Fields)
      → parse c ≡ some m
      → IsMapAlong path (some (object m)) × IsSilent path (some (object m))

  merge_all-silent :
      (contents : List String) (merged m : Fields)
      → All IsSilentFile contents
      → merge_all parse contents merged ≡ some m
      → get path (object m) ≡ get path (object merged)
  unfolding merge_all
  merge_all-silent [] merged m s h = ap (λ n. get path (object n)) (cc h)
  merge_all-silent (c ∷ contents) merged m s h = elim (Bool-cases (str_eq c "")) [
    | inl e ↦ merge_all-silent contents merged m (s.1) (rw e at h)
    | inr e ↦
        let n =
          merge_next-some (parse c) merged (λ m'. merge_all parse contents m') m (rw e at h) in
        let silent = s.0 (n.0) (n.1) in
        merge_all-silent contents (deep_merge merged (n.0)) m (s.1) (n.2)
        ∙ get-deep_merge_silent path merged (n.0) (silent.0) (silent.1)
  ]

  -- What is left to merge after some files.
  merge_all-append :
      (before after : List String) (merged m : Fields)
      → merge_all parse (before ++ after) merged ≡ some m
      → (n : Fields) × (merge_all parse after n ≡ some m)
  unfolding merge_all
  merge_all-append [] after merged m h = (merged, h)
  merge_all-append (c ∷ before) after merged m h = elim (Bool-cases (str_eq c "")) [
    | inl e ↦ merge_all-append before after merged m (rw e at h)
    | inr e ↦
        let n =
          merge_next-some (parse c) merged (λ m'. merge_all parse (before ++ after) m') m
            (rw e at h) in
        merge_all-append before after (deep_merge merged (n.0)) m (n.2)
  ]

  -- Where the files can be merged, and one that is not blank, whose maps on the way have each key once,
  -- has a value at a path that is no map, and the files after it say nothing there, nor of a place above
  -- it but that it is a map, the settings have that value at the path, whatever the files before say.
  pub get-merge_to_map :
      (before after : List String) (c : String) (src m : Fields) (v : Value)
      → merge_to_map parse (before ++ c ∷ after) ≡ some m
      → str_eq c "" ≡ false
      → parse c ≡ some src
      → IsMapAlong path (some (object src))
      → get path (object src) ≡ some v
      → is_object v ≡ false
      → All IsSilentFile after
      → get path (object m) ≡ some v
  unfolding merge_to_map merge_all
  get-merge_to_map before after c src m v h n p d g leaf silent =
      let rest = merge_all-append before (c ∷ after) end m h in
      merge_all-silent after (deep_merge (rest.0) src) m silent (rw (n, p) at (rest.1))
      ∙ get-deep_merge path (rest.0) src v d g leaf
