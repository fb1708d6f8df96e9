-- ===== src/Drift/Marked.antt =====
-- About the marks that `markChartMatches` of internal/api/handlers/drift.go sets.
use matrixctrl.Common.{
  ℕ, ◌+◌, ◌≡◌, ◌⊎◌, inl, inr, String, Bool, true, Option, none, some, List, [], ◌∷◌, All,
}
use matrixctrl.Common.Bytes.{Bytes}
use matrixctrl.Common.Tree.{Value, object, Fields}
use matrixctrl.Drift.Chart.{value_at, same_found, matches_chart}
use matrixctrl.Drift.Manual.{ManualEdit}
use matrixctrl.Drift.Marking.{with_match, chart_of, live_of}

-- The same of each count, with unmaintained and aligned ones taken together.
abbrev pub AreSameCounts : ℕ × ℕ × ℕ × ℕ → ℕ × ℕ × ℕ × ℕ → Type 0
AreSameCounts (u, h, f, a) (v, i, g, b) = (v + b ≡ u + a) × (i ≡ h) × (g ≡ f)

module _ {Q : Type 0} (sprint : Value → String) (parse_quantity : String → Option Q)
    (same_amount : Q → Q → Bool) (decode_yaml : Bytes → Option Fields)
    (equal_fold : String → String → Bool) (decode_map : String → Option Fields) where
  module _ (get_object : String → String → String → String ⊎ String) where
    -- At each path of the edit the chart's object has a value, and the live one the same.
    unfoldable pub IsAligned : Option (String ⊎ Bytes) → ManualEdit → Type 0
    IsAligned none e = ⊥
    IsAligned (some (inl x)) e = ⊥
    IsAligned (some (inr m)) e =
        (chart : Fields) × (live : Fields) × (chart_of sprint parse_quantity same_amount decode_yaml
            equal_fold decode_map m e
          ≡ some chart)
        × (live_of sprint parse_quantity same_amount decode_yaml equal_fold decode_map get_object e
            ≡ some live)
        × All
            (λ p.
              same_found sprint parse_quantity same_amount (value_at sprint (object live) p)
                (value_at sprint (object chart) p)
              ≡ true)
            e.paths

    -- The same edits but for the marks, of which each new one is right.
    unfoldable pub IsMarking : Option (String ⊎ Bytes) → List ManualEdit → List ManualEdit → Type 0
    IsMarking source [] [] = Unit {0}
    IsMarking source (e ∷ edits) (d ∷ marked) =
        ((d ≡ with_match e d.matches_chart)
          × (d.matches_chart ≡ true → (e.matches_chart ≡ true) ⊎ IsAligned source e))
        × IsMarking source edits marked
    IsMarking source _ _ = ⊥

    abbrev same_at : Fields → Fields → String → Bool
    same_at live chart p =
        same_found sprint parse_quantity same_amount (value_at sprint (object live) p)
          (value_at sprint (object chart) p)
