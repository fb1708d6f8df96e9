-- ===== src/Tasks/Placed.antt =====
-- Where an edit of `Write` (internal/tasks/tasks.go) lands once `SetSectionValues` has carried it out.
use matrixctrl.Common.{◌≡◌, ap, String, true, [], ◌∷◌}
use matrixctrl.Common.Dots.{split_dots, has_no_dot, split_dots-append}
use matrixctrl.Common.Tree.{Value, str, object, Fields, find, put, remove, fields_of, get, set, del}
use matrixctrl.Common.Tree.Prefixes.{get-set_prefix, get-del_prefix}
use matrixctrl.Config.Sections.{apply_sets, apply_removes}
use matrixctrl.Tasks.Fields.{block}
use matrixctrl.Tasks.Edits.{Plan, block_path, config_path}

abbrev pub apply_plan : Plan → Fields → Fields
apply_plan plan values = apply_removes plan.removes (apply_sets plan.sets values)

abbrev pub set_one : String → Value → Plan
set_one path v = record { sets = (path, v) ∷ []; removes = [] }

abbrev pub remove_one : String → Plan
remove_one path = record { sets = []; removes = path ∷ [] }

abbrev pub entries_of : String → Fields → Fields
entries_of component values = fields_of (get (component ∷ "additional" ∷ []) (object values))

pub split_dots-block_path :
    (component : String)
    → has_no_dot component ≡ true
    → split_dots (block_path component) ≡ component ∷ "additional" ∷ block ∷ []
unfolding split_dots
split_dots-block_path component h = split_dots-append component "additional.matrixctrl-tasks" h

pub split_dots-config_path :
    (component : String)
    → has_no_dot component ≡ true
    → split_dots (config_path component) ≡ component ∷ "additional" ∷ block ∷ "config" ∷ []
unfolding split_dots
split_dots-config_path component h =
    split_dots-append component "additional.matrixctrl-tasks.config" h

module _ (component : String) (plain : has_no_dot component ≡ true) (values : Fields) where
  pub entries_of-remove_one :
      entries_of component (apply_plan (remove_one (block_path component)) values)
      ≡ remove block (entries_of component values)
  unfolding apply_removes apply_sets del
  entries_of-remove_one =
      rw (split_dots-block_path component plain)
        (get-del_prefix component ("additional" ∷ []) block [] values)

  pub entries_of-set_one :
      (t : String)
      → entries_of component (apply_plan (set_one (block_path component) (str t)) values)
        ≡ put block (str t) (entries_of component values)
  unfolding apply_removes apply_sets set
  entries_of-set_one t =
      rw (split_dots-block_path component plain)
        (ap fields_of (get-set_prefix component ("additional" ∷ []) block [] (str t) values))

  pub entries_of-set_config :
      (t : String)
      → entries_of component (apply_plan (set_one (config_path component) (str t)) values)
        ≡ put block
            (object (put "config" (str t) (fields_of (find block (entries_of component values)))))
            (entries_of component values)
  unfolding apply_removes apply_sets set
  entries_of-set_config t = rw (split_dots-config_path component plain) (
      ap fields_of
        (get-set_prefix component ("additional" ∷ []) block ("config" ∷ []) (str t) values))
