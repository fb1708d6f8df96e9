-- ===== src/ImagePin/Report.antt =====
-- The findings of internal/imagepin/imagepin.go.
use Prim.Native.String.{◌++◌ as append}
use text.Mathlib.Text.{starts_with}
use matrixctrl.Common.{
  ℕ, String, Bool, true, false, not, Option, none, some, List, [], ◌∷◌, map, insert, lookup, length,
  str_eq, ◌&&◌, ◌||◌, if◌then◌else◌,
}
use matrixctrl.Common.Sort.{stable_sort}
use matrixctrl.Common.Texts.{join_with, after_first}
use matrixctrl.Common.Tree.{Value, str, object, Fields, end, field, find}
use matrixctrl.Drift.Check.{text_before}
use matrixctrl.ImagePin.Tags.{is_older}

pub data FindingKind : Type 0 where
  older orphan : FindingKind

pub record PinFinding : Type 0 where
  pub component : String
  pub config : String
  pub chart : String
  pub kind : FindingKind

abbrev pub by_component : PinFinding → PinFinding → Bool
by_component f g = text_before f.component g.component

abbrev pub is_behind : String → Option String → Bool
is_behind cfg none = false
is_behind cfg (some chart) =
    if str_eq cfg "" || (str_eq chart "" || str_eq cfg chart)
    then false
    else (is_older cfg chart).1 && (is_older cfg chart).0

abbrev pub tag_or_empty : Option String → String
tag_or_empty none = ""
tag_or_empty (some tag) = tag

-- The loop over the configured tags.
unfoldable pub behind : List (String × String) → List (String × String) → List PinFinding
behind [] chart_tags = []
behind ((component, cfg) ∷ config_tags) chart_tags =
    let rest = behind config_tags chart_tags in
    if is_behind cfg (lookup component chart_tags)
    then record {
      component = component;
      config = cfg;
      chart = tag_or_empty (lookup component chart_tags);
      kind = older;
    }
      ∷ rest
    else rest

unfoldable pub compare : List (String × String) → List (String × String) → List PinFinding
compare config_tags chart_tags = stable_sort by_component (behind config_tags chart_tags)

-- `section["image"]` as a map, of a section that is one.
abbrev map_of : Option Value → Option Fields
map_of (some (object m)) = some m
map_of _ = none

abbrev image_in : Option Fields → Option Fields
image_in none = none
image_in (some section) = map_of (find "image" section)

abbrev pub image_of : Option Value → Option Fields
image_of section = image_in (map_of section)

abbrev text_or_none : Option Value → String
text_or_none (some (str s)) = s
text_or_none _ = ""

abbrev pub text_in : String → Option Fields → String
text_in key none = ""
text_in key (some image) = text_or_none (find key image)

unfoldable pub extract_tags : Fields → List (String × String) → List (String × String)
extract_tags end out = out
extract_tags (field component raw values) out =
    let tag = text_in "tag" (image_of (some raw)) in
    extract_tags values (if str_eq tag "" then out else insert component tag out)

abbrev pub pinned : String → String → String
pinned repo tag =
    let all = if str_eq tag "" then repo else append repo (append ":" tag) in
    if starts_with all ":" then after_first all else all

abbrev pub is_some_image : Option Fields → Bool
is_some_image none = false
is_some_image (some image) = true

abbrev pub is_pinned : Option Fields → Bool
is_pinned image = not (str_eq (text_in "repository" image) "" && str_eq (text_in "tag" image) "")

-- The loop over the configured components.
unfoldable pub orphans : Fields → Fields → List PinFinding
orphans end chart_values = []
orphans (field component raw values) chart_values =
    let rest = orphans values chart_values in
    let image = image_of (some raw) in
    if is_pinned image && not (is_some_image (image_of (find component chart_values)))
    then record {
      component = component;
      config = pinned (text_in "repository" image) (text_in "tag" image);
      chart = "";
      kind = orphan;
    }
      ∷ rest
    else rest

unfoldable pub orphaned : Fields → Fields → List PinFinding
orphaned config_values chart_values = stable_sort by_component (orphans config_values chart_values)

abbrev pub finding_text : PinFinding → String
finding_text f = elim f.kind [
  | orphan ↦
      append f.component (append ": Config " (append f.config ", Chart hat dafür kein Image mehr"))
  | older ↦ append f.component (append ": Config " (append f.config (append ", Chart " f.chart)))
]

-- The decimals of fmt.
module _ (decimal : ℕ → String) where
  unfoldable pub describe : List PinFinding → String
  describe [] = ""
  describe (f ∷ []) =
      append "1 festgeschriebenes Image passt nicht zum Chart: " (append (finding_text f) ".")
  describe (f ∷ g ∷ findings) = append (decimal (length (f ∷ g ∷ findings))) (
      append " festgeschriebene Images passen nicht zum Chart: "
        (append (join_with " · " (map finding_text (f ∷ g ∷ findings))) "."))
