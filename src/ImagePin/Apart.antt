-- ===== src/ImagePin/Apart.antt =====
-- Which components `Compare` and `Orphaned` of internal/imagepin/imagepin.go name.
use matrixctrl.Common.{String, Bool, false, Option, none, some, List, [], ◌∷◌, ◌||◌, str_eq}
use matrixctrl.ImagePin.Report.{PinFinding, is_behind}

-- Whether a finding is about the component.
abbrev pub names : String → List PinFinding → Bool
names c [] = false
names c (f ∷ fs) = str_eq f.component c || names c fs

abbrev is_behind_at : Option String → Option String → Bool
is_behind_at none chart = false
is_behind_at (some cfg) chart = is_behind cfg chart
