-- ===== src/Drift/Lookup.antt =====
-- How many calls `valueAt` of internal/drift/chartmatch.go makes.
use matrixctrl.Common.{
  ℕ, zero, suc, ◌≤◌, ◌≡◌, ◌≢◌, refl, String, Option, none, some, List, [], ◌∷◌, length, arith,
}
use Prim.Native.String.{◌++◌ as append}
use matrixctrl.Common.Tree.{Value, list, object, Fields, find}
use matrixctrl.Drift.Chart.{
  Found, stopped, with_rest, or_else, longest_from, go_on, with_segments, selector, select,
  value_at_segments,
}

abbrev IsWithin : ℕ → Option (Value × List String) → Type 0
IsWithin n none = Unit {0}
IsWithin n (some (v, segs)) = length segs ≤ n

with_rest-IsWithin :
    (segs : List String) (r : Option Value) → IsWithin (length segs) (with_rest segs r)
with_rest-IsWithin segs none = tt
with_rest-IsWithin segs (some v) = omega arith

IsWithin-suc : (n : ℕ) (r : Option (Value × List String)) → IsWithin n r → IsWithin (suc n) r
IsWithin-suc n none h = tt
IsWithin-suc n (some (v, segs)) h = omega arith

or_else-IsWithin :
    (n : ℕ) (r s : Option (Value × List String))
    → IsWithin n r
    → IsWithin n s
    → IsWithin n (or_else r s)
or_else-IsWithin n none s h k = k
or_else-IsWithin n (some r) s h k = h

longest_from-IsWithin :
    (key : String) (segs : List String) (m : Fields)
    → IsWithin (length segs) (longest_from key segs m)
unfolding longest_from
longest_from-IsWithin key [] m = with_rest-IsWithin [] (find key m)
longest_from-IsWithin key (s ∷ segs) m =
    or_else-IsWithin (length (s ∷ segs)) (longest_from (append key (append "." s)) segs m)
      (with_rest (s ∷ segs) (find key m))
      (IsWithin-suc (length segs) (longest_from (append key (append "." s)) segs m)
        (longest_from-IsWithin (append key (append "." s)) segs m))
      (with_rest-IsWithin (s ∷ segs) (find key m))

with_segments-IsWithin :
    (segs : List String) (r : Option Fields) → IsWithin (length segs) (with_segments segs r)
with_segments-IsWithin segs none = tt
with_segments-IsWithin segs (some m) = omega arith

-- Two ways on that end alike, and do not stop, on what is within the bound.
go_on-cong :
    (f g : Value → List String → Found) (n : ℕ) (r : Option (Value × List String))
    → IsWithin n r
    → ((v : Value) (segs : List String)
        → length segs ≤ n
        → (f v segs ≡ g v segs) × (f v segs ≢ stopped))
    → (go_on f r ≡ go_on g r) × (go_on f r ≢ stopped)
go_on-cong f g n none h k = (refl, λ e. cc e)
go_on-cong f g n (some (v, segs)) h k = k v segs h

module _ (sprint : Value → String) where
  value_at_segments-bounds :
      (n k : ℕ) (v : Value) (segs : List String)
      → length segs ≤ n
      → length segs ≤ k
      → (value_at_segments sprint n v segs ≡ value_at_segments sprint k v segs)
        × (value_at_segments sprint n v segs ≢ stopped)
  unfolding value_at_segments
  value_at_segments-bounds n k v [] h j = (refl, λ e. cc e)
  value_at_segments-bounds zero k v (s ∷ segs) h j = absurd (omega arith)
  value_at_segments-bounds (suc n) zero v (s ∷ segs) h j = absurd (omega arith)
  value_at_segments-bounds (suc n) (suc k) (object m) (s ∷ segs) h j =
      go_on-cong (value_at_segments sprint n) (value_at_segments sprint k) (length segs)
        (longest_from s segs m) (longest_from-IsWithin s segs m)
        (λ w rest l. value_at_segments-bounds n k w rest (omega arith) (omega arith))
  value_at_segments-bounds (suc n) (suc k) (list items) (s ∷ segs) h j =
      go_on-cong (value_at_segments sprint n) (value_at_segments sprint k) (length segs)
        (with_segments segs (select sprint (selector s) items))
        (with_segments-IsWithin segs (select sprint (selector s) items))
        (λ w rest l. value_at_segments-bounds n k w rest (omega arith) (omega arith))
  value_at_segments-bounds (suc n) (suc k) v (s ∷ segs) h j = (refl, λ e. cc e)

  -- With as many calls as there are segments, or more, the lookup of a path does not stop early, and ends
  -- as it does with just as many.
  value_at_segments-enough :
      (n : ℕ) (v : Value) (segs : List String)
      → length segs ≤ n
      → (value_at_segments sprint n v segs ≡ value_at_segments sprint (length segs) v segs)
        × (value_at_segments sprint n v segs ≢ stopped)
  value_at_segments-enough n v segs h =
      value_at_segments-bounds n (length segs) v segs h (omega arith)
