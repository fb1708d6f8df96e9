-- ===== src/Tasks/Edits.antt =====
-- `Write` of internal/tasks/tasks.go: from changed fields to edits of the section files. The maps of
-- the loop are lists in the order in which it comes by their keys; Go promises none.
use Prim.Native.Nat.{Ordering}
use Prim.Native.String.{◌++◌ as append, compare}
use matrixctrl.Common.{
  String, Bool, true, false, Option, none, some, List, [], ◌∷◌, ◌++◌, ◌&&◌, not, str_eq, insert,
  lookup, if◌then◌else◌,
}
use matrixctrl.Common.Dots.{split_dots}
use matrixctrl.Common.Sort.{stable_sort}
use matrixctrl.Common.Tree.{Value, null, float, int, str, Fields, end, set, del}
use matrixctrl.Tasks.Fields.{
  Kind, port, Field, block, is_null, is_the_default, additional, read_field,
}
use matrixctrl.Tasks.Checks.{
  TaskError, unknown_setting, is_locked, set_in_block, not_encoded, validate,
}

pub record Plan : Type 0 where
  pub sets : List (String × Value)
  pub removes : List String

pub data Result (A : Type 0) : Type 0 where
  done : A → Result A
  refused : TaskError → Result A

infixl 5 ◌>>=◌
abbrev pub ◌>>=◌ : {A B : Type 0} → Result A → (A → Result B) → Result B
done a >>= f = f a
refused e >>= f = refused e

-- The variables of the loop over the changes.
pub record Edits : Type 0 where
  pub plan : Plan
  pub edited_blocks : List (String × Fields)
  pub is_json : List (String × Bool)

abbrev pub no_edits : Edits
no_edits = record { plan = record { sets = []; removes = [] }; edited_blocks = []; is_json = [] }

abbrev pub text_before : String → String → Bool
text_before s t = elim (compare s t) [ Ordering.lt ↦ true | _ ↦ false ]

-- The last field of an id counts.
unfoldable pub by_id : List Field → List (String × Field) → List (String × Field)
by_id [] fields = fields
by_id (f ∷ rest) fields = by_id rest (insert f.id f fields)

-- `v = int(n)`
abbrev pub as_int : Kind → Value → Value
as_int port (float n) = int n
as_int kind v = v

abbrev pub note_value : String → Value → Edits → Edits
note_value path v e =
    if is_null v
    then record e { plan = record { sets = e.plan.sets; removes = e.plan.removes ++ path ∷ [] } }
    else record e { plan = record { sets = insert path v e.plan.sets; removes = e.plan.removes } }

-- `del(b, key)` or `set(b, key, v)`; a key has one segment at least.
abbrev pub edit_at : List String → Value → Fields → Fields
edit_at [] v b = b
edit_at (k ∷ path) v b = if is_null v then del k path b else set k path v b

-- `copyMap`: a copy of a value that nothing writes to is the value; that of no map is empty.
abbrev pub copy_map : Option Fields → Fields
copy_map none = end
copy_map (some b) = b

abbrev pub or_copy : Option Fields → Option Fields → Fields
or_copy (some b) own = b
or_copy none own = copy_map own

abbrev pub told_json : Option Bool → Bool
told_json (some b) = b
told_json none = false

abbrev pub block_path : String → String
block_path component = append component (append ".additional." block)

-- `path+".config"`
abbrev pub config_path : String → String
config_path component = append component (append ".additional." (append block ".config"))

abbrev pub unless_refused : Option TaskError → Result Edits → Result Edits
unless_refused (some e) r = refused e
unless_refused none r = r

abbrev pub encoded : String → Option String → Plan → Result Plan
encoded path none plan = refused not_encoded
encoded path (some t) plan =
    done (record { sets = insert path (str t) plan.sets; removes = plan.removes })

abbrev pub sort_removes : Plan → Result Plan
sort_removes p = done (record { sets = p.sets; removes = stable_sort text_before p.removes })

module _ (shown : Value → String) (decode : String → Option Fields) where
  -- A value that is written down no longer follows the service's default: the default is not.
  abbrev pub unless_default : Field → Value → Value
  unless_default f v = if not (is_null v) && is_the_default shown decode f v then null else v

  abbrev pub edit_block : Field → Value → Fields → Fields
  edit_block f v b = edit_at (split_dots f.source.key) (unless_default f v) b

  module _ (values : Fields) where
    abbrev pub note_key : Field → Value → Edits → Edits
    note_key f v e = record e {
      edited_blocks =
          insert f.source.component
            (edit_block f v (
              or_copy (lookup f.source.component e.edited_blocks)
                (lookup block (additional shown decode values f.source.component))))
            e.edited_blocks;
      is_json = insert f.source.component f.source.json e.is_json;
    }

    abbrev pub change_value : Field → Value → Edits → Result Edits
    change_value f v e =
        if not (str_eq f.source.values "")
        then done (note_value f.source.values v e)
        else (let cur = read_field shown decode values f in
            if not (str_eq cur.set_elsewhere "")
            then refused (set_in_block f.label cur.set_elsewhere)
            else done (note_key f v e))

    module _ (trim_space : String → String) where
      -- The body of the loop for one change.
      abbrev pub change : Option Field → String → Value → Edits → Result Edits
      change none id v e = refused (unknown_setting id)
      change (some f) id v e =
          if not (str_eq f.locked "")
          then refused (is_locked f.label f.locked)
          else unless_refused (validate trim_space f v) (change_value f (as_int f.kind v) e)

      unfoldable pub change_all :
          List (String × Field) → List (String × Value) → Edits → Result Edits
      change_all fields [] e = done e
      change_all fields ((id, v) ∷ changes) e =
          change (lookup id fields) id v e >>= λ e'. change_all fields changes e'

module _ (json_text yaml_text : Fields → Option String) where
  -- The body of the loop over the blocks.
  abbrev pub plan_block : String → Bool → Fields → Plan → Result Plan
  plan_block component json end plan =
      done (record { sets = plan.sets; removes = plan.removes ++ block_path component ∷ [] })
  plan_block component true b plan = encoded (block_path component) (json_text b) plan
  plan_block component false b plan = encoded (config_path component) (yaml_text b) plan

  unfoldable pub plan_blocks : List (String × Bool) → List (String × Fields) → Plan → Result Plan
  plan_blocks is_json [] plan = done plan
  plan_blocks is_json ((component, b) ∷ blocks) plan =
      plan_block component (told_json (lookup component is_json)) b plan >>= λ p.
      plan_blocks is_json blocks p

module _ (shown : Value → String) (decode : String → Option Fields) (trim_space : String → String)
    (json_text yaml_text : Fields → Option String) where
  -- `Write`
  unfoldable pub write : Fields → List Field → List (String × Value) → Result Plan
  write values fields changes =
      change_all shown decode values trim_space (by_id fields []) changes no_edits >>= λ e.
      (plan_blocks json_text yaml_text e.is_json e.edited_blocks e.plan >>= λ p. sort_removes p)
