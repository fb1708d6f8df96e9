-- ===== src/Hooks/Coverage.antt =====
-- internal/hooks/coverage.go: which values a patch of a hook sets, at which paths.
use Prim.Native.String.{◌++◌ as append}
use text.Mathlib.Text.{starts_with}
use matrixctrl.Common.{
  String, not, List, [], ◌∷◌, ◌⊎◌, inl, inr, map, insert, str_eq, ◌&&◌, if◌then◌else◌,
}
use matrixctrl.Common.Texts.{split_at, join_with, after_first, replace_pair}
use matrixctrl.Common.Tree.{Value, object, Fields, end, field}
use matrixctrl.Hooks.Engine.{ActionType, kubectl_patch, HookAction}

-- One operation of a JSON patch, as far as it is decoded.
pub record PatchOp : Type 0 where
  pub op : String
  pub path : String
  pub value : Value

abbrev pub trim_slash : String → String
trim_slash p = if starts_with p "/" then after_first p else p

abbrev pub unescaped : String → String
unescaped s = replace_pair b'~' b'0' "~" (replace_pair b'~' b'1' "/" s)

unfoldable pub json_pointer_to_dotted : String → String
json_pointer_to_dotted p = join_with "." (map unescaped (split_at b'/' (trim_slash p)))

abbrev pub below : String → String → String
below prefix k = if str_eq prefix "" then k else append prefix (append "." k)

unfoldable pub flatten : String → Fields → List (String × Value) → List (String × Value)
flatten prefix end out = out
flatten prefix (field k (object (field j v sub)) m) out =
    flatten prefix m (flatten (below prefix k) (field j v sub) out)
flatten prefix (field k v m) out = flatten prefix m (insert (below prefix k) v out)

-- `strconv.Quote`, and `json.Unmarshal` into the operations and into a map.
module _ (quote : String → String) (decode_ops : String → String ⊎ List PatchOp)
    (decode_map : String → String ⊎ Fields) where
  unfoldable pub sets_of_ops : List PatchOp → List (String × Value) → String ⊎ List (String × Value)
  sets_of_ops [] out = inr out
  sets_of_ops (o ∷ ops) out =
      if not (str_eq o.op "add") && not (str_eq o.op "replace")
      then inl (append "op " (append (quote o.op) " cannot be covered by a chart"))
      else sets_of_ops ops (insert (json_pointer_to_dotted o.path) o.value out)

  abbrev pub sets_of_json : String ⊎ List PatchOp → String ⊎ List (String × Value)
  sets_of_json (inl e) = inl e
  sets_of_json (inr ops) = sets_of_ops ops []

  abbrev pub sets_of_map : String ⊎ Fields → String ⊎ List (String × Value)
  sets_of_map (inl e) = inl e
  sets_of_map (inr m) = inr (flatten "" m [])

  abbrev pub sets_of_type : ActionType → HookAction → String ⊎ List (String × Value)
  sets_of_type kubectl_patch a =
      if str_eq a.patch_type "json"
      then sets_of_json (decode_ops a.patch)
      else sets_of_map (decode_map a.patch)
  sets_of_type _ a = inr []

  unfoldable pub sets : HookAction → String ⊎ List (String × Value)
  sets a = sets_of_type a.type a
