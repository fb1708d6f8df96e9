-- ===== src/Common/Tree/Paths.antt =====
-- The laws of `get`, `set` and `del` at paths.
use Prim.Native.String.{String}
use mathlib.Core.Path.{◌≡◌, refl, ap, sym, ◌∙◌}
use mathlib.Core.Logic.{inl, inr}
use mathlib.Core.Bool.{Bool, true, false}
use mathlib.Core.Option.{Option, none, some}
use mathlib.Core.List.{List, [], ◌∷◌}
use native.Mathlib.Omega.{arith}
use text.Mathlib.Text.{◌==◌ as str_eq}
use text.Mathlib.TextEquality.{eq_iff}
use matrixctrl.Common.Tests.{Bool-cases, str_eq_self, if◌then◌else◌}
use matrixctrl.Common.Tree.{Value, object, Fields, find, put, remove, fields_of, get, set}
use matrixctrl.Common.Tree.Maps.{find-put, find-remove}

-- Neither path begins with the other.
abbrev pub disjoint : List String → List String → Bool
disjoint [] q = false
disjoint (k ∷ p) [] = false
disjoint (k ∷ p) (j ∷ q) = if str_eq k j then disjoint p q else true

abbrev pub get_in : List String → Option Value → Option Value
get_in path none = none
get_in path (some v) = get path v

pub get-object :
    (k : String) (path : List String) (m : Fields)
    → get (k ∷ path) (object m) ≡ get_in path (find k m)
unfolding get
get-object k path m = ground arith

get-fields_of :
    (j : String) (path : List String) (o : Option Value)
    → get (j ∷ path) (object (fields_of o)) ≡ get_in (j ∷ path) o
unfolding get find
get-fields_of j path (some (object m)) = refl
get-fields_of j path _ = refl

pub get-put :
    (k i : String) (q : List String) (w : Value) (m : Fields)
    → get (i ∷ q) (object (put k w m)) ≡ (if str_eq k i then get q w else get (i ∷ q) (object m))
unfolding get
get-put k i q w m = ground (arith, find-put k i w m)

pub get-remove :
    (k i : String) (q : List String) (m : Fields)
    → get (i ∷ q) (object (remove k m)) ≡ (if str_eq k i then none else get (i ∷ q) (object m))
unfolding get
get-remove k i q m = ground (arith, find-remove k i m)

pub get-set :
    (k : String) (path : List String) (v : Value) (m : Fields)
    → get (k ∷ path) (object (set k path v m)) ≡ some v
unfolding set get
get-set k [] v m = get-put k k [] v m ∙ rw (str_eq_self k, get) refl
get-set k (j ∷ path) v m =
    get-put k k (j ∷ path) (object (set j path v (fields_of (find k m)))) m
    ∙ rw (str_eq_self k) (get-set j path v (fields_of (find k m)))

-- One level down: what an edit of the object under `k` leaves alone.
pub get_below :
    (k i : String) (q : List String) (j : String) (m : Fields)
    → str_eq k i ≡ true
    → get (j ∷ q) (object (fields_of (find k m))) ≡ get (i ∷ j ∷ q) (object m)
get_below k i q j m h =
    get-fields_of j q (find k m)
    ∙ ap (λ s. get_in (j ∷ q) (find s m)) ((eq_iff k i).0 h)
    ∙ sym (get-object i (j ∷ q) m)

pub disjoint_below :
    (k i : String) (p q : List String)
    → str_eq k i ≡ true
    → disjoint (k ∷ p) (i ∷ q) ≡ true
    → disjoint p q ≡ true
disjoint_below k i p q e h = rw e at h

pub get-set-disjoint :
    (k : String) (path : List String) (v : Value) (m : Fields) (q : List String)
    → disjoint (k ∷ path) q ≡ true
    → get q (object (set k path v m)) ≡ get q (object m)
unfolding set
get-set-disjoint k path v m [] h = cc h
get-set-disjoint k [] v m (i ∷ q) h = get-put k i q v m ∙ ground (arith, h)
get-set-disjoint k (j ∷ path) v m (i ∷ []) h = elim (Bool-cases (str_eq k i)) [
  | inl e ↦ cc (disjoint_below k i (j ∷ path) [] e h)
  | inr e ↦ get-put k i [] _ m ∙ rw e refl
]
get-set-disjoint k (j ∷ path) v m (i ∷ l ∷ q) h = elim (Bool-cases (str_eq k i)) [
  | inl e ↦
      get-put k i (l ∷ q) _ m
      ∙ rw e (
          get-set-disjoint j path v (fields_of (find k m)) (l ∷ q)
            (disjoint_below k i (j ∷ path) (l ∷ q) e h)
          ∙ get_below k i q l m e)
  | inr e ↦ get-put k i (l ∷ q) _ m ∙ rw e refl
]
