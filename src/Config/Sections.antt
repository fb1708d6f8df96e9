-- ===== src/Config/Sections.antt =====
-- `SetSectionValues` of internal/config/sections.go on the settings as one map, without the division into
-- files: the sets, and then the removals. `SetNodeValue` and `DeleteNodeValue` do to the map that a
-- document stands for what `set` and `del` do.
use matrixctrl.Common.{String, List, [], ◌∷◌}
use matrixctrl.Common.Tree.{Value, Fields, set, del}
use matrixctrl.Common.Dots.{split_dots}

abbrev pub set_path : List String → Value → Fields → Fields
set_path [] v m = m
set_path (k ∷ path) v m = set k path v m

abbrev pub del_path : List String → Fields → Fields
del_path [] m = m
del_path (k ∷ path) m = del k path m

unfoldable pub apply_sets : List (String × Value) → Fields → Fields
apply_sets [] m = m
apply_sets ((path, v) ∷ sets) m = apply_sets sets (set_path (split_dots path) v m)

unfoldable pub apply_removes : List String → Fields → Fields
apply_removes [] m = m
apply_removes (path ∷ removes) m = apply_removes removes (del_path (split_dots path) m)
