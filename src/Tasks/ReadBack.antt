-- ===== src/Tasks/ReadBack.antt =====
-- What `Read` shows after a change that `Write` planned and `SetSectionValues` carried out.
use matrixctrl.Common.{
  ◌≡◌, refl, ap, ◌∙◌, String, true, false, Bool-cases, Option, none, some, List, [], ◌∷◌, ◌⊎◌, inl,
  inr, str_eq, lookup, if◌then◌else◌,
}
use matrixctrl.Common.Dots.{split_dots, has_no_dot, is_cons, split_dots-is_cons}
use matrixctrl.Common.Tree.{Value, str, object, Fields, find, put, fields_of, get}
use matrixctrl.Common.Tree.Paths.{get-set}
use matrixctrl.Common.Tree.Removal.{get-del}
use matrixctrl.Config.Sections.{set_path, del_path, apply_sets, apply_removes}
use matrixctrl.Tasks.Fields.{
  Field, block, is_null, is_the_default, additional, read_value, or_default, read_field,
}
use matrixctrl.Tasks.Edits.{
  Plan, done, by_id, as_int, copy_map, block_path, config_path, edit_block, unless_default, write,
}
use matrixctrl.Tasks.Placed.{
  apply_plan, set_one, remove_one, entries_of, entries_of-set_one, entries_of-set_config,
  entries_of-remove_one,
}
use matrixctrl.Tasks.Single.{IsPlanOf, write-key, write-path}
use matrixctrl.Tasks.Shown.{
  unless_null, get-edit_at, IsOurs, IsReadBack, after, read-put, read-remove, read_entry-text,
  read_entry-config, get-end,
}

module _ (shown : Value → String) (decode : String → Option Fields)
    (json_text yaml_text : Fields → Option String) (values : Fields) (f : Field)
    (own : str_eq f.source.values "" ≡ true) (plain : has_no_dot f.source.component ≡ true)
    (ours : IsOurs shown decode values f) where
  -- The field shows what the block written holds at its key.
  pub read_field-planned :
      (b : Fields) (plan : Plan)
      → IsPlanOf json_text yaml_text f.source.component b plan
      → ((t : String)
          → (json_text b ≡ some t) ⊎ (yaml_text b ≡ some t)
          → IsReadBack shown decode (split_dots f.source.key) b t)
      → read_field shown decode (apply_plan plan values) f
        ≡ or_default shown decode f (get (split_dots f.source.key) (object b))
  read_field-planned b plan (inl p) codec =
      rw (p.1, p.0, get-end (split_dots f.source.key) (split_dots-is_cons f.source.key))
        (read-remove shown decode values
          (apply_plan (remove_one (block_path f.source.component)) values) f own ours
          (entries_of-remove_one f.source.component plain values))
  read_field-planned b plan (inr (inl p)) codec =
      let back = codec (p.0) (inl (p.1)) in
      ap (λ q. read_field shown decode (apply_plan q values) f) (p.2)
      ∙ read-put shown decode values
          (apply_plan (set_one (block_path f.source.component) (str (p.0))) values) f own ours b
          (str (p.0)) (back.1.0) (read_entry-text shown decode (p.0) (back.1.0) (back.0) (back.1.1))
          (back.1.2) (entries_of-set_one f.source.component plain values (p.0))
  read_field-planned b plan (inr (inr p)) codec =
      let back = codec (p.0) (inr (p.1)) in
      let old = fields_of (find block (entries_of f.source.component values)) in
      let entry = object (put "config" (str (p.0)) old) in
      ap (λ q. read_field shown decode (apply_plan q values) f) (p.2)
      ∙ read-put shown decode values
          (apply_plan (set_one (config_path f.source.component) (str (p.0))) values) f own ours b
          entry (back.1.0) (read_entry-config shown decode (p.0) (back.1.0) old (back.0) (back.1.1))
          (back.1.2) (entries_of-set_config f.source.component plain values (p.0))

-- The block of the field's component with the value `w` edited in.
abbrev pub edited : (Value → String) → (String → Option Fields) → Fields → Field → Value → Fields
edited shown decode values f w =
    edit_block shown decode f w
      (copy_map (lookup block (additional shown decode values f.source.component)))

module _ (shown : Value → String) (decode : String → Option Fields)
    (json_text yaml_text : Fields → Option String) where
  -- What a field of a block needs: a component without a dot in its name, a key that no other block sets,
  -- and an encoder whose text is read back.
  abbrev pub IsWritable : Fields → Field → Value → Type 0
  IsWritable values f w =
      (has_no_dot f.source.component ≡ true)
      × IsOurs shown decode values f
      × ((t : String)
          → (json_text (edited shown decode values f w) ≡ some t)
            ⊎ (yaml_text (edited shown decode values f w) ≡ some t)
          → IsReadBack shown decode (split_dots f.source.key) (edited shown decode values f w) t)

after-path :
    (shown : Value → String) (decode : String → Option Fields) (f : Field) (w : Value)
    → str_eq f.source.values "" ≡ false
    → read_value shown decode f (unless_null w) ≡ after shown decode f w
after-path shown decode f w k = elim (Bool-cases (is_null w)) [
  | inl n ↦ rw n refl
  | inr n ↦ rw (n, k, n) refl
]

after-key :
    (shown : Value → String) (decode : String → Option Fields) (f : Field) (w : Value)
    → str_eq f.source.values "" ≡ true
    → or_default shown decode f (unless_null (unless_default shown decode f w))
      ≡ after shown decode f w
after-key shown decode f w k = elim (Bool-cases (is_null w)) [
  | inl n ↦ rw (n, n) refl
  | inr n ↦ elim (Bool-cases (is_the_default shown decode f w)) [
    | inl d ↦ rw (n, k, d) refl
    | inr d ↦ rw (n, k, d, n) refl
  ]
]

get-set_path :
    (path : List String) (v : Value) (m : Fields)
    → is_cons path ≡ true
    → get path (object (set_path path v m)) ≡ some v
get-set_path [] v m h = cc h
get-set_path (k ∷ path) v m h = get-set k path v m

get-del_path :
    (path : List String) (m : Fields)
    → is_cons path ≡ true
    → get path (object (del_path path m)) ≡ none
get-del_path [] m h = cc h
get-del_path (k ∷ path) m h = get-del k path m

applied-path :
    (path : String) (w : Value) (values : Fields)
    → get
        (split_dots path)
        (object (apply_plan (if is_null w then remove_one path else set_one path w) values))
      ≡ unless_null w
unfolding apply_removes apply_sets
applied-path path w values = elim (Bool-cases (is_null w)) [
  | inl n ↦ rw n (get-del_path (split_dots path) values (split_dots-is_cons path))
  | inr n ↦ rw n (get-set_path (split_dots path) w values (split_dots-is_cons path))
]

read_field-path :
    (shown : Value → String) (decode : String → Option Fields) (values : Fields) (f : Field)
    → str_eq f.source.values "" ≡ false
    → read_field shown decode values f
      ≡ read_value shown decode f (get (split_dots f.source.values) (object values))
unfolding read_field
read_field-path shown decode values f k = rw k refl

-- After one change of a known field for which `Write` returns a plan, and the plan is carried out on the
-- settings as one map, the field shows the new value, or its default when it was reset or set to it.
-- For a field of a block: its component has no dot in its name, no other block sets its key, and the
-- text written for the block is not empty and is decoded to a map with the block's value at the key.
pub read_field-write :
    (shown : Value → String) (decode : String → Option Fields) (trim_space : String → String)
    (json_text yaml_text : Fields → Option String) (values : Fields) (fields : List Field)
    (id : String) (v : Value) (f : Field) (plan : Plan)
    → lookup id (by_id fields []) ≡ some f
    → write shown decode trim_space json_text yaml_text values fields ((id, v) ∷ []) ≡ done plan
    → (str_eq f.source.values "" ≡ true
        → IsWritable shown decode json_text yaml_text values f (as_int f.kind v))
    → read_field shown decode (apply_plan plan values) f ≡ after shown decode f (as_int f.kind v)
read_field-write shown decode trim_space json_text yaml_text values fields id v f plan known planned
      writable =
    let w = as_int f.kind v in
    elim (Bool-cases (str_eq f.source.values "")) [
      | inl k ↦
          let h = writable k in
          read_field-planned shown decode json_text yaml_text values f k (h.0) (h.1)
            (edited shown decode values f w) plan
            (write-key shown decode trim_space json_text yaml_text values fields id v f plan known
              planned k)
            (h.2)
          ∙ ap (or_default shown decode f) (
              get-edit_at (split_dots f.source.key) (unless_default shown decode f w) _
                (split_dots-is_cons f.source.key))
          ∙ after-key shown decode f w k
      | inr k ↦
          read_field-path shown decode (apply_plan plan values) f k
          ∙ ap
              (λ p.
                read_value shown decode f
                  (get (split_dots f.source.values) (object (apply_plan p values))))
              (write-path shown decode trim_space json_text yaml_text values fields id v f plan
                known planned k)
          ∙ ap (read_value shown decode f) (applied-path f.source.values w values)
          ∙ after-path shown decode f w k
    ]
