-- ===== src/Drift/Examples.antt =====
-- A patch that puts a deployment on the host network, before and after it is in effect.
use matrixctrl.Common.{
  ℕ, ◌≤◌, ◌≡◌, ◌≢◌, refl, ◌⊎◌, inl, inr, String, Bool, true, false, Option, none, some, List, [],
  ◌∷◌, insert, str_eq, arith, if◌then◌else◌,
}
use matrixctrl.Common.Sort.{place, stable_sort}
use matrixctrl.Common.Dots.{split_dots}
use matrixctrl.Common.Texts.{join_with, before_last, split_at, cut_at}
use matrixctrl.Common.Tree.{
  Value, null, bool, float, str, list, nil, item, object, Fields, end, field, find, get,
}
use matrixctrl.Drift.Check.{Status, satisfied, drifted, Action, gone, diff, check_one}
use matrixctrl.Drift.Differing.{AreDistinct}
use matrixctrl.Drift.Reported.{IsReport, check_one-IsReport}
use matrixctrl.Drift.Chart.{
  found, stopped, longest_from, wants, has_wanted, selected, value_at_segments, value_at,
}
use matrixctrl.Drift.PlainKeys.{has_plain_keys, value_at-get}
mod Hand
mod Covering

abbrev deployment : Bool → Value
deployment b =
    object
      (field "spec" (object (field "replicas" (str "1") (field "hostNetwork" (bool b) end))) end)

abbrev json_text : Value → Option String
json_text null = some "null"
json_text (bool true) = some "true"
json_text (bool false) = some "false"
json_text (str s) = some s
json_text _ = none

abbrev decode : String → Option Value
decode s = some (deployment (str_eq s "patched"))

abbrev decode_patch : String → String ⊎ (String → String ⊎ String)
decode_patch s = inl "no operations"

abbrev merge_patch : String → String → String ⊎ String
merge_patch live patch = inr "patched"

abbrev fetch : String → String → String → String ⊎ String
fetch resource namespace name = inr "live"

abbrev patch_action : Action
patch_action = record {
  hook = "host network";
  description = "sfu";
  resource = "deployment";
  namespace = "";
  name = "sfu";
  patch_type = "merge";
  patch = "{}";
}

drifted_paths :
    (check_one json_text decode decode_patch merge_patch (some fetch) patch_action).paths
    ≡ "spec.hostNetwork" ∷ []
unfolding check_one diff gone find stable_sort place
drifted_paths = refl

check_one-IsReport_example :
    IsReport json_text decode decode_patch merge_patch
      (check_one json_text decode decode_patch merge_patch (some fetch) patch_action)
      (deployment false)
      (deployment true)
unfolding AreDistinct
check_one-IsReport_example =
    check_one-IsReport json_text decode decode_patch merge_patch fetch patch_action "live" "patched"
      "null" (deployment false) (deployment true) refl refl refl refl refl
      (refl, (refl, tt, (refl, tt, tt)), tt)

-- An annotation whose name has dots, and a container that is picked by its name.
abbrev annotated : Value
annotated = object (
    field "metadata" (object (field "kubernetes.io/class" (str "traefik") end)) (
      field "containers"
        (list (item (object (field "name" (str "sfu") (field "image" (str "livekit") end))) nil))
        end))

abbrev sprint : Value → String
sprint (str s) = s
sprint (bool true) = "true"
sprint (bool false) = "false"
sprint _ = "<nil>"

annotation : value_at sprint annotated "metadata.kubernetes.io/class" ≡ some (str "traefik")
unfolding value_at value_at_segments longest_from find split_dots
annotation = refl

container : value_at sprint annotated "containers.{name=sfu}.image" ≡ some (str "livekit")
unfolding value_at value_at_segments longest_from find split_dots before_last wants split_at cut_at
    selected has_wanted insert
container = refl

value_at-get_example :
    value_at sprint (deployment true) (join_with "." ("spec" ∷ "hostNetwork" ∷ []))
    ≡ get ("spec" ∷ "hostNetwork" ∷ []) (deployment true)
unfolding has_plain_keys
value_at-get_example =
    value_at-get sprint "spec" ("hostNetwork" ∷ []) (deployment true) (refl, (refl, tt)) refl
