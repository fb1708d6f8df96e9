-- ===== src/Common/Tree/Removal.antt =====
-- The laws of `del` at paths, and what it undoes.
use Prim.Native.String.{String}
use mathlib.Core.Path.{◌≡◌, refl, ap, sym, ◌∙◌}
use mathlib.Core.Logic.{inl, inr, ◌⊎◌}
use mathlib.Core.Bool.{true, false}
use mathlib.Core.Option.{Option, none, some}
use mathlib.Core.List.{List, [], ◌∷◌}
use native.Mathlib.Omega.{arith}
use text.Mathlib.Text.{◌==◌ as str_eq}
use matrixctrl.Common.Tests.{Bool-cases, str_eq_self, if◌then◌else◌}
use matrixctrl.Common.Tree.{
  Value, object, Fields, end, field, find, put, remove, is_end, fields_of, get, set,
  put_unless_empty, into, del,
}
use matrixctrl.Common.Tree.Maps.{find-put_self, remove-put, put-find, put-put}
use matrixctrl.Common.Tree.Paths.{disjoint, get-put, get-remove, get_below, disjoint_below}

get-end : (i : String) (q : List String) → get (i ∷ q) (object end) ≡ none
unfolding get find
get-end i q = refl

get-put_unless_empty :
    (k i j : String) (q : List String) (sub m : Fields)
    → get (i ∷ j ∷ q) (object (put_unless_empty k sub m))
      ≡ (if str_eq k i then get (j ∷ q) (object sub) else get (i ∷ j ∷ q) (object m))
get-put_unless_empty k i j q end m = rw (get-end j q) (get-remove k i (j ∷ q) m)
get-put_unless_empty k i j q (field l v sub) m = get-put k i (j ∷ q) (object (field l v sub)) m

get-put_unless_empty_ne :
    (k i : String) (q : List String) (sub m : Fields)
    → str_eq k i ≡ false
    → get (i ∷ q) (object (put_unless_empty k sub m)) ≡ get (i ∷ q) (object m)
get-put_unless_empty_ne k i q end m h = get-remove k i q m ∙ rw h refl
get-put_unless_empty_ne k i q (field l v sub) m h =
    get-put k i q (object (field l v sub)) m ∙ rw h refl

get-into :
    (k i l : String) (q : List String) (edit : Fields → Fields) (m : Fields) (o : Option Value)
    → edit end ≡ end
    → find k m ≡ o
    → get (i ∷ l ∷ q) (object (into k m edit o)) ≡ (
        if str_eq k i
        then get (l ∷ q) (object (edit (fields_of o)))
        else get (i ∷ l ∷ q) (object m))
get-into k i l q edit m (some (object sub)) z h = get-put_unless_empty k i l q (edit sub) m
get-into k i l q edit m o z h = elim (Bool-cases (str_eq k i)) [
  | inl e ↦ rw (e, z) (sym (get_below k i q l m e) ∙ ap (λ r. get (l ∷ q) (object (fields_of r))) h)
  | inr e ↦ rw e refl
]

pub get-into_self :
    (k l : String) (q : List String) (edit : Fields → Fields) (m : Fields) (o : Option Value)
    → edit end ≡ end
    → find k m ≡ o
    → get (k ∷ l ∷ q) (object (into k m edit o)) ≡ get (l ∷ q) (object (edit (fields_of o)))
get-into_self k l q edit m o z h = get-into k k l q edit m o z h ∙ rw (str_eq_self k) refl

get-into_ne :
    (k i : String) (q : List String) (edit : Fields → Fields) (m : Fields) (o : Option Value)
    → str_eq k i ≡ false
    → get (i ∷ q) (object (into k m edit o)) ≡ get (i ∷ q) (object m)
get-into_ne k i q edit m (some (object sub)) h = get-put_unless_empty_ne k i q (edit sub) m h
get-into_ne k i q edit m _ h = refl

pub del-end : (k : String) (path : List String) → del k path end ≡ end
unfolding del remove find
del-end k [] = refl
del-end k (j ∷ path) = refl

pub get-del :
    (k : String) (path : List String) (m : Fields) → get (k ∷ path) (object (del k path m)) ≡ none
unfolding del
get-del k [] m = get-remove k k [] m ∙ rw (str_eq_self k) refl
get-del k (j ∷ path) m =
    get-into_self k j path (del j path) m (find k m) (del-end j path) refl
    ∙ get-del j path (fields_of (find k m))

pub get-del-disjoint :
    (k : String) (path : List String) (m : Fields) (q : List String)
    → disjoint (k ∷ path) q ≡ true
    → get q (object (del k path m)) ≡ get q (object m)
unfolding del
get-del-disjoint k path m [] h = cc h
get-del-disjoint k [] m (i ∷ q) h = get-remove k i q m ∙ ground (arith, h)
get-del-disjoint k (j ∷ path) m (i ∷ []) h = elim (Bool-cases (str_eq k i)) [
  | inl e ↦ cc (disjoint_below k i (j ∷ path) [] e h)
  | inr e ↦ get-into_ne k i [] (del j path) m (find k m) e
]
get-del-disjoint k (j ∷ path) m (i ∷ l ∷ q) h = elim (Bool-cases (str_eq k i)) [
  | inl e ↦
      get-into k i l q (del j path) m (find k m) (del-end j path) refl
      ∙ rw e (
          get-del-disjoint j path (fields_of (find k m)) (l ∷ q)
            (disjoint_below k i (j ∷ path) (l ∷ q) e h)
          ∙ get_below k i q l m e)
  | inr e ↦ get-into_ne k i (l ∷ q) (del j path) m (find k m) e
]

-- Nothing stands at the path, nor an empty object on the way to it.
abbrev pub Absent : String → List String → Fields → Type 0
Absent k [] m = find k m ≡ none
Absent k (j ∷ path) m =
    (find k m ≡ none)
    ⊎ ((sub : Fields) × (find k m ≡ some (object sub)) × (is_end sub ≡ false) × Absent j path sub)

end-Absent : (k : String) (path : List String) → Absent k path end
unfolding find
end-Absent k [] = refl
end-Absent k (j ∷ path) = inl refl

put_unless_empty-some :
    (k : String) (sub m : Fields)
    → is_end sub ≡ false
    → put_unless_empty k sub m ≡ put k (object sub) m
put_unless_empty-some k end m h = cc
put_unless_empty-some k (field j v sub) m h = refl

into-put :
    (k : String) (edit : Fields → Fields) (s m : Fields)
    → into k (put k (object s) m) edit (find k (put k (object s) m))
      ≡ put_unless_empty k (edit s) (put k (object s) m)
into-put k edit s m = ap (into k (put k (object s) m) edit) (find-put_self k (object s) m)

pub del-set :
    (k : String) (path : List String) (v : Value) (m : Fields)
    → Absent k path m
    → del k path (set k path v m) ≡ m
unfolding del set
del-set k [] v m h = remove-put k v m h
del-set k (j ∷ path) v m (inl e) = rw e (
    into-put k (del j path) (set j path v end) m
    ∙ ap (λ r. put_unless_empty k r (put k (object (set j path v end)) m))
        (del-set j path v end (end-Absent j path))
    ∙ remove-put k (object (set j path v end)) m e)
del-set k (j ∷ path) v m (inr (sub, e, n, a)) = rw e (
    into-put k (del j path) (set j path v sub) m
    ∙ ap (λ r. put_unless_empty k r (put k (object (set j path v sub)) m)) (del-set j path v sub a)
    ∙ put_unless_empty-some k sub (put k (object (set j path v sub)) m) n
    ∙ put-put k (object sub) (object (set j path v sub)) m
    ∙ put-find k (object sub) m e)
