-- ===== src/Common/Tree.antt =====
-- Go's `any` as it comes out of a JSON or YAML text, with the operations on `map[string]any` that
-- several packages share. A map is the list of its entries, each key once.
use Prim.Native.String.{String}
use Prim.Native.Nat.{ℕ}
use mathlib.Core.Bool.{Bool, true, false, ◌||◌}
use mathlib.Core.Option.{Option, none, some}
use mathlib.Core.List.{List, [], ◌∷◌}
use text.Mathlib.Text.{◌==◌ as str_eq}
use matrixctrl.Common.Tests.{if◌then◌else◌}
pub mod Maps
pub mod Paths
pub mod Removal
pub mod Prefixes

-- Numbers: `float` is a float64 that is a whole number and not negative, as JSON gives it; `int` is an
-- int; `number` is any other, by its text.
mutual
  pub data Value : Type 0 where
    null : Value
    bool : Bool → Value
    float : ℕ → Value
    int : ℕ → Value
    number : String → Value
    str : String → Value
    list : Items → Value
    object : Fields → Value

  pub data Items : Type 0 where
    nil : Items
    item : Value → Items → Items

  pub data Fields : Type 0 where
    end : Fields
    field : String → Value → Fields → Fields

-- `m[key]`
unfoldable pub find : String → Fields → Option Value
find key end = none
find key (field k v m) = if str_eq k key then some v else find key m

-- `m[key] = value`
unfoldable pub put : String → Value → Fields → Fields
put key value end = field key value end
put key value (field k v m) = if str_eq k key then field k value m else field k v (put key value m)

-- `delete(m, key)`
unfoldable pub remove : String → Fields → Fields
remove key end = end
remove key (field k v m) = let rest = remove key m in if str_eq k key then rest else field k v rest

abbrev pub is_end : Fields → Bool
is_end end = true
is_end (field k v m) = false

-- `v.(map[string]any)`, where anything else counts as the empty map.
abbrev pub fields_of : Option Value → Fields
fields_of (some (object m)) = m
fields_of _ = end

-- `get` of internal/tasks/tasks.go: the value at a path.
unfoldable pub get : List String → Value → Option Value
get [] v = some v
get (k ∷ path) (object m) = elim (find k m) [ none ↦ none | some v ↦ get path v ]
get (k ∷ path) _ = none

-- `set` of internal/tasks/tasks.go, at the path `k ∷ path`.
unfoldable pub set : String → List String → Value → Fields → Fields
set k [] value m = put k value m
set k (j ∷ path) value m = put k (object (set j path value (fields_of (find k m)))) m

abbrev pub put_unless_empty : String → Fields → Fields → Fields
put_unless_empty k end m = remove k m
put_unless_empty k (field j v rest) m = put k (object (field j v rest)) m

abbrev pub into : String → Fields → (Fields → Fields) → Option Value → Fields
into k m edit (some (object sub)) = put_unless_empty k (edit sub) m
into k m edit _ = m

-- `del` of internal/tasks/tasks.go: an object that is left empty goes with its last entry.
unfoldable pub del : String → List String → Fields → Fields
del k [] m = remove k m
del k (j ∷ path) m = into k m (del j path) (find k m)
