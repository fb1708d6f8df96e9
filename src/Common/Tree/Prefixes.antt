-- ===== src/Common/Tree/Prefixes.antt =====
-- What an edit at a long path is for the object that stands at its beginning.
use Prim.Native.String.{String}
use mathlib.Core.Path.{◌≡◌, refl, ap, sym, ◌∙◌}
use mathlib.Core.Option.{Option, some}
use mathlib.Core.List.{List, [], ◌∷◌, ◌++◌}
use native.Mathlib.Omega.{arith}
use matrixctrl.Common.Tests.{str_eq_self}
use matrixctrl.Common.Tree.{
  Value, object, Fields, end, field, find, fields_of, get, set, put_unless_empty, into, del,
}
use matrixctrl.Common.Tree.Maps.{find-put_self, find-remove}
use matrixctrl.Common.Tree.Paths.{get-put, get_below}
use matrixctrl.Common.Tree.Removal.{get-into_self, del-end}

get-one : (k : String) (m : Fields) → get (k ∷ []) (object m) ≡ find k m
unfolding get
get-one k m = ground arith

pub get-set_prefix :
    (k : String) (p : List String) (j : String) (q : List String) (v : Value) (m : Fields)
    → get (k ∷ p) (object (set k (p ++ j ∷ q) v m))
      ≡ some (object (set j q v (fields_of (get (k ∷ p) (object m)))))
unfolding set
get-set_prefix k [] j q v m =
    get-one k _
    ∙ find-put_self k _ m
    ∙ ap (λ o. some (object (set j q v (fields_of o)))) (sym (get-one k m))
get-set_prefix k (i ∷ p) j q v m =
    get-put k k (i ∷ p) _ m
    ∙ rw (str_eq_self k) (
        get-set_prefix i p j q v (fields_of (find k m))
        ∙ ap (λ o. some (object (set j q v (fields_of o)))) (get_below k k p i m (str_eq_self k)))

fields_of-find-put_unless_empty :
    (k : String) (sub m : Fields) → fields_of (find k (put_unless_empty k sub m)) ≡ sub
fields_of-find-put_unless_empty k end m = rw (find-remove k k m, str_eq_self k) refl
fields_of-find-put_unless_empty k (field j v sub) m =
    ap fields_of (find-put_self k (object (field j v sub)) m)

fields_of-find-into :
    (k : String) (edit : Fields → Fields) (m : Fields) (o : Option Value)
    → edit end ≡ end
    → find k m ≡ o
    → fields_of (find k (into k m edit o)) ≡ edit (fields_of o)
fields_of-find-into k edit m (some (object sub)) z h =
    fields_of-find-put_unless_empty k (edit sub) m
fields_of-find-into k edit m _ z h = ap fields_of h ∙ sym z

pub get-del_prefix :
    (k : String) (p : List String) (j : String) (q : List String) (m : Fields)
    → fields_of (get (k ∷ p) (object (del k (p ++ j ∷ q) m)))
      ≡ del j q (fields_of (get (k ∷ p) (object m)))
unfolding del
get-del_prefix k [] j q m =
    ap fields_of (get-one k _)
    ∙ fields_of-find-into k (del j q) m (find k m) (del-end j q) refl
    ∙ ap (λ o. del j q (fields_of o)) (sym (get-one k m))
get-del_prefix k (i ∷ p) j q m =
    ap fields_of
      (get-into_self k i p (del i (p ++ j ∷ q)) m (find k m) (del-end i (p ++ j ∷ q)) refl)
    ∙ get-del_prefix i p j q (fields_of (find k m))
    ∙ ap (λ o. del j q (fields_of o)) (get_below k k p i m (str_eq_self k))
