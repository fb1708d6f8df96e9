-- ===== src/ImagePin/Examples.antt =====
-- A pinned service behind its chart, one at its tag, and one whose image the chart has no more.
use matrixctrl.Common.{◌≡◌, ◌↔◌, refl, ◌⊎◌, String, true}
use matrixctrl.Common.Sort.{place, stable_sort}
use matrixctrl.Common.Texts.{split_at}
use matrixctrl.Common.Tree.{Value, str, object, Fields, end, field, find}
use matrixctrl.ImagePin.Tags.{
  prefix_of, prefix_trim, before_marker, digits_from, numbers_of, numbers, older_numbers, is_older,
}
use matrixctrl.ImagePin.Report.{orphans, orphaned}
use matrixctrl.ImagePin.Order.{IsComparable, IsOlder, IsBelow, is_older_lem}
use matrixctrl.ImagePin.Apart.{names}

abbrev image : String → String → Value
image repository tag =
    object
      (field "image" (object (field "repository" (str repository) (field "tag" (str tag) end))) end)

abbrev values : Fields
values = field "auth" (image "mas" "1.15.0") (field "redis" (image "library/redis" "7.4") end)

abbrev chart : Fields
chart = field "auth" (image "mas" "1.22.0-ess.1") (field "valkey" (image "valkey" "8.1") end)

older_by_minor : is_older "1.15.0" "1.22.0-ess.1" ≡ (true, true)
unfolding is_older prefix_of numbers prefix_trim numbers_of split_at before_marker digits_from
    older_numbers
older_by_minor = refl

-- Tags of two schemes with the same lead-in are ordered.
older_by_scheme : is_older "1.15.0" "26.8.0-ess.1" ≡ (true, true)
unfolding is_older prefix_of numbers prefix_trim numbers_of split_at before_marker digits_from
    older_numbers
older_by_scheme = refl

is_older_lem_example :
    (IsOlder "v1.9" "v1.10"
      ↔ (IsComparable "v1.9" "v1.10" × IsBelow (numbers "v1.9") (numbers "v1.10")))
    × (IsOlder "v1.9" "v1.9" → ⊥)
    × (IsOlder "v1.9" "v1.10" → IsOlder "v1.10" "v1.10.1" → IsOlder "v1.9" "v1.10.1")
    × (IsComparable "v1.9" "v1.10"
        → IsOlder "v1.9" "v1.10" ⊎ (IsOlder "v1.10" "v1.9" ⊎ (numbers "v1.9" ≡ numbers "v1.10")))
is_older_lem_example = is_older_lem "v1.9" "v1.10" "v1.10.1"

orphan_alone : names "redis" (orphaned values chart) ≡ true
unfolding orphaned orphans stable_sort place find
orphan_alone = refl
