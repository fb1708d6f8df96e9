-- ===== src/Drift/PlainKeys.antt =====
-- `ValueAt` of internal/drift/chartmatch.go on values whose maps have no key with a dot.
use matrixctrl.Common.{
  ◌≡◌, refl, sym, ap, ◌∙◌, inl, inr, String, Bool, Bool-cases, and_left, and_right, true, false,
  not, Option, none, some, List, [], ◌∷◌, ◌&&◌, All, length, str_eq, eq_iff, arith, ◌==◌,
}
use Prim.Native.Char.{code}
use Prim.Native.String.{◌++◌ as append}
use matrixctrl.Common.Dots.{has_no_dot, split_dots, split_dots-append, append-nil_left, append-cons}
use matrixctrl.Common.Texts.{join_with}
use matrixctrl.Common.Tree.{Value, list, object, Fields, end, field, find, get}
use matrixctrl.Drift.Chart.{
  Found, found, missing, with_rest, or_else, longest_from, go_on, option_of, value_at_segments,
  value_at,
}

-- No map in the value has a key with a dot, and there is no list in it.
unfoldable mutual
  pub has_plain_keys : Value → Bool
  has_plain_keys (list items) = false
  has_plain_keys (object m) = has_plain_fields m
  has_plain_keys _ = true

  pub has_plain_fields : Fields → Bool
  has_plain_fields end = true
  has_plain_fields (field k v m) = has_no_dot k && (has_plain_keys v && has_plain_fields m)

and_false : (a : Bool) {b : Bool} → b ≡ false → (a && b) ≡ false
and_false a h = ground arith

has_no_dot-append : (s t : String) → has_no_dot (append s (append "." t)) ≡ false
has_no_dot-append String.[] t =
    ap has_no_dot (append-nil_left (append "." t) ∙ append-cons "." String.[] t)
has_no_dot-append (String.◌∷◌ c s) t =
    ap has_no_dot (append-cons c s (append "." t))
    ∙ and_false (not (code c == b'.')) (has_no_dot-append s t)

plain_first :
    (k : String) (v : Value) (m : Fields)
    → has_plain_fields (field k v m) ≡ true
    → has_plain_keys v ≡ true
unfolding has_plain_keys
plain_first k v m h =
    and_left (has_plain_keys v) (has_plain_fields m)
      (and_right (has_no_dot k) (has_plain_keys v && has_plain_fields m) h)

plain_rest :
    (k : String) (v : Value) (m : Fields)
    → has_plain_fields (field k v m) ≡ true
    → has_plain_fields m ≡ true
unfolding has_plain_keys
plain_rest k v m h =
    and_right (has_plain_keys v) (has_plain_fields m)
      (and_right (has_no_dot k) (has_plain_keys v && has_plain_fields m) h)

find-dotted :
    (k : String) (m : Fields) → has_no_dot k ≡ false → has_plain_fields m ≡ true → find k m ≡ none
unfolding find has_plain_keys
find-dotted k end h p = refl
find-dotted k (field j v m) h p = elim (Bool-cases (str_eq j k)) [
  | inl e ↦
      cc (h, (eq_iff j k).0 e, and_left (has_no_dot j) (has_plain_keys v && has_plain_fields m) p)
  | inr e ↦ rw e (find-dotted k m h (plain_rest j v m p))
]

find-has_plain_keys :
    (k : String) (m : Fields) (v : Value)
    → has_plain_fields m ≡ true
    → find k m ≡ some v
    → has_plain_keys v ≡ true
unfolding find has_plain_keys
find-has_plain_keys k end v p h = cc h
find-has_plain_keys k (field j w m) v p h = elim (Bool-cases (str_eq j k)) [
  | inl e ↦ let same : w ≡ v = cc (rw e at h) in rw (sym same) (plain_first j w m p)
  | inr e ↦ find-has_plain_keys k m v (plain_rest j w m p) (rw e at h)
]

longest_from-dotted :
    (key : String) (segs : List String) (m : Fields)
    → has_no_dot key ≡ false
    → has_plain_fields m ≡ true
    → longest_from key segs m ≡ none
unfolding longest_from
longest_from-dotted key [] m h p = ap (with_rest []) (find-dotted key m h p)
longest_from-dotted key (s ∷ segs) m h p =
    ap (λ r. or_else r (with_rest (s ∷ segs) (find key m)))
      (longest_from-dotted (append key (append "." s)) segs m (has_no_dot-append key s) p)
    ∙ ap (with_rest (s ∷ segs)) (find-dotted key m h p)

longest_from-plain :
    (key : String) (segs : List String) (m : Fields)
    → has_plain_fields m ≡ true
    → longest_from key segs m ≡ with_rest segs (find key m)
unfolding longest_from
longest_from-plain key [] m p = refl
longest_from-plain key (s ∷ segs) m p =
    ap (λ r. or_else r (with_rest (s ∷ segs) (find key m)))
      (longest_from-dotted (append key (append "." s)) segs m (has_no_dot-append key s) p)

abbrev found_of : Option Value → Found
found_of none = missing
found_of (some v) = found v

abbrev AreUndotted : List String → Type 0
AreUndotted q = All (λ s. has_no_dot s ≡ true) q

split_dots-undotted : (s : String) → has_no_dot s ≡ true → split_dots s ≡ s ∷ []
unfolding split_dots
split_dots-undotted String.[] h = refl
split_dots-undotted (String.◌∷◌ c s) h = elim (Bool-cases (code c == b'.')) [
  | inl e ↦ cc (rw e at h)
  | inr e ↦ rw (e, split_dots-undotted s (rw e at h)) refl
]

split_dots-join_with :
    (k : String) (q : List String)
    → AreUndotted (k ∷ q)
    → split_dots (join_with "." (k ∷ q)) ≡ k ∷ q
unfolding join_with
split_dots-join_with k [] h = split_dots-undotted k (h.0)
split_dots-join_with k (j ∷ q) h =
    split_dots-append k (join_with "." (j ∷ q)) (h.0)
    ∙ ap (λ r. k ∷ r) (split_dots-join_with j q (h.1))

go_on-with_rest :
    (below : Value → List String → Found) (segs : List String) (r : Option Value)
    → ((v : Value) → r ≡ some v → below v segs ≡ found_of (get segs v))
    → go_on below (with_rest segs r) ≡ found_of (elim r [ none ↦ none | some v ↦ get segs v ])
go_on-with_rest below segs none h = refl
go_on-with_rest below segs (some v) h = h v refl

option_of-found_of : (r : Option Value) → option_of (found_of r) ≡ r
option_of-found_of none = refl
option_of-found_of (some v) = refl

module _ (sprint : Value → String) where
  value_at_segments-get :
      (segs : List String) (v : Value)
      → has_plain_keys v ≡ true
      → value_at_segments sprint (length segs) v segs ≡ found_of (get segs v)
  unfolding value_at_segments get has_plain_keys
  value_at_segments-get [] v p = refl
  value_at_segments-get (s ∷ segs) (object m) p =
      ap (go_on (value_at_segments sprint (length segs))) (longest_from-plain s segs m p)
      ∙ go_on-with_rest (value_at_segments sprint (length segs)) segs (find s m)
          (λ v e. value_at_segments-get segs v (find-has_plain_keys s m v p e))
  value_at_segments-get (s ∷ segs) (list items) p = cc p
  value_at_segments-get (s ∷ segs) v p = refl

  -- In a value without lists, of which no key has a dot, the value at a dotted path is the one that its
  -- keys lead to one by one, where no key of the path has a dot.
  pub value_at-get :
      (k : String) (q : List String) (v : Value)
      → AreUndotted (k ∷ q)
      → has_plain_keys v ≡ true
      → value_at sprint v (join_with "." (k ∷ q)) ≡ get (k ∷ q) v
  unfolding value_at
  value_at-get k q v h p =
      ap (λ segs. option_of (value_at_segments sprint (length segs) v segs))
        (split_dots-join_with k q h)
      ∙ ap option_of (value_at_segments-get (k ∷ q) v p)
      ∙ option_of-found_of (get (k ∷ q) v)
