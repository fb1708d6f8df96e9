-- ===== src/Common/Tree/Maps.antt =====
-- The laws of the entries of a map.
use Prim.Native.String.{String}
use mathlib.Core.Path.{◌≡◌, refl}
use mathlib.Core.Logic.{inl, inr}
use mathlib.Core.Bool.{Bool, false, ◌||◌}
use mathlib.Core.Option.{none, some}
use native.Mathlib.Omega.{arith}
use text.Mathlib.Text.{◌==◌ as str_eq}
use text.Mathlib.TextEquality.{eq_iff}
use matrixctrl.Common.Tests.{Bool-cases, str_eq_self, if◌then◌else◌}
use matrixctrl.Common.Tree.{Value, Fields, end, field, find, put, remove}

abbrev pub has_key : String → Fields → Bool
has_key key end = false
has_key key (field k v m) = str_eq k key || has_key key m

-- Each key once.
abbrev pub HasDistinctKeys : Fields → Type 0
HasDistinctKeys end = Unit
HasDistinctKeys (field k v m) = (has_key k m ≡ false) × HasDistinctKeys m

pub find-put :
    (k j : String) (v : Value) (m : Fields)
    → find j (put k v m) ≡ (if str_eq k j then some v else find j m)
unfolding find put
find-put k j v end = refl
find-put k j v (field i w m) = ground (arith, find-put k j v m, eq_iff k j, eq_iff i k, eq_iff i j)

pub find-put_self : (k : String) (v : Value) (m : Fields) → find k (put k v m) ≡ some v
find-put_self k v m = rw (find-put k k v m, str_eq_self k) refl

pub find-not_has_key : (k : String) (m : Fields) → has_key k m ≡ false → find k m ≡ none
unfolding find
find-not_has_key k end h = refl
find-not_has_key k (field j v m) h = ground (arith, find-not_has_key k m)

pub find-remove :
    (k j : String) (m : Fields) → find j (remove k m) ≡ (if str_eq k j then none else find j m)
unfolding find remove
find-remove k j end = ground arith
find-remove k j (field i w m) =
    ground (arith, find-remove k j m, eq_iff k j, eq_iff i k, eq_iff i j)

pub remove-none : (k : String) (m : Fields) → find k m ≡ none → remove k m ≡ m
unfolding find remove
remove-none k end h = refl
remove-none k (field j w m) h = ground (arith, remove-none k m)

has_key-put :
    (key k : String) (v : Value) (m : Fields)
    → has_key key (put k v m) ≡ (str_eq k key || has_key key m)
unfolding put
has_key-put key k v end = refl
has_key-put key k v (field j w m) =
    ground (arith, has_key-put key k v m, eq_iff j k, eq_iff j key, eq_iff k key)

pub put-HasDistinctKeys :
    (k : String) (v : Value) (m : Fields) → HasDistinctKeys m → HasDistinctKeys (put k v m)
unfolding put
put-HasDistinctKeys k v end d = (refl, tt)
put-HasDistinctKeys k v (field j w m) (h, d) = elim (Bool-cases (str_eq j k)) [
  | inl e ↦ rw e (h, d)
  | inr e ↦
      rw e
        (ground (arith, has_key-put j k v m, eq_iff j k, eq_iff k j), put-HasDistinctKeys k v m d)
]

-- An entry that was absent is gone again without a trace, and writing what is there changes nothing.
pub remove-put : (k : String) (v : Value) (m : Fields) → find k m ≡ none → remove k (put k v m) ≡ m
unfolding find put remove
remove-put k v end h = ground (arith, str_eq_self k)
remove-put k v (field j w m) h = ground (arith, remove-put k v m, remove-none k m)

pub put-find : (k : String) (v : Value) (m : Fields) → find k m ≡ some v → put k v m ≡ m
unfolding find put
put-find k v end h = cc
put-find k v (field j w m) h = ground (arith, put-find k v m)

pub put-put : (k : String) (v w : Value) (m : Fields) → put k v (put k w m) ≡ put k v m
unfolding put
put-put k v w end = ground (arith, str_eq_self k)
put-put k v w (field j u m) = ground (arith, put-put k v w m)
