-- ===== src/Tasks/Single.antt =====
-- `Write` of internal/tasks/tasks.go on one change: what a plan that comes out says.
use matrixctrl.Common.{
  ◌≡◌, refl, ap, ◌∙◌, String, Bool, true, false, Bool-cases, Option, none, some, List, [], ◌∷◌, ◌⊎◌,
  inl, inr, str_eq, insert, lookup, if◌then◌else◌,
}
use matrixctrl.Common.Sort.{stable_sort, place}
use matrixctrl.Common.Tree.{Value, str, Fields, end, field}
use matrixctrl.Tasks.Fields.{Field, block, is_null, additional, read_field}
use matrixctrl.Tasks.Checks.{TaskError, validate}
use matrixctrl.Tasks.Edits.{
  Plan, Result, done, refused, ◌>>=◌, Edits, no_edits, by_id, as_int, note_value, note_key,
  copy_map, told_json, block_path, config_path, edit_block, change_value, unless_refused, change,
  change_all, encoded, plan_block, plan_blocks, sort_removes, write,
}
use matrixctrl.Tasks.Placed.{set_one, remove_one}

pub bind-done :
    {A B : Type 0} (r : Result A) (g : A → Result B) (b : B)
    → (r >>= g) ≡ done b
    → (a : A) × (r ≡ done a) × (g a ≡ done b)
bind-done (done a) g b h = (a, refl, h)
bind-done (refused e) g b h = cc h

pub unless_refused-done :
    (o : Option TaskError) (r : Result Edits) (e : Edits)
    → (unless_refused o r) ≡ done e
    → (o ≡ none) × (r ≡ done e)
unless_refused-done none r e h = (refl, h)
unless_refused-done (some x) r e h = cc h

module _ (shown : Value → String) (decode : String → Option Fields) (values : Fields) where
  -- A change that is carried out is of a field that is not locked, with a value that passes.
  pub change-done :
      (trim_space : String → String) (f : Field) (id : String) (v : Value) (e : Edits)
      → change shown decode values trim_space (some f) id v no_edits ≡ done e
      → (str_eq f.locked "" ≡ true)
        × (validate trim_space f v ≡ none)
        × (change_value shown decode values f (as_int f.kind v) no_edits ≡ done e)
  change-done trim_space f id v e h = elim (Bool-cases (str_eq f.locked "")) [
    | inl l ↦
        let u =
          unless_refused-done (validate trim_space f v)
            (change_value shown decode values f (as_int f.kind v) no_edits) e (rw l at h) in
        (l, u.0, u.1)
    | inr l ↦ cc (rw l at h)
  ]

  pub change_value-key :
      (f : Field) (w : Value) (e : Edits)
      → str_eq f.source.values "" ≡ true
      → change_value shown decode values f w no_edits ≡ done e
      → note_key shown decode values f w no_edits ≡ e
  change_value-key f w e k h =
      elim (Bool-cases (str_eq (read_field shown decode values f).set_elsewhere "")) [
        | inl s ↦ cc (rw (k, s) at h)
        | inr s ↦ cc (rw (k, s) at h)
      ]

  pub change_value-path :
      (f : Field) (w : Value) (e : Edits)
      → str_eq f.source.values "" ≡ false
      → change_value shown decode values f w no_edits ≡ done e
      → note_value f.source.values w no_edits ≡ e
  change_value-path f w e k h = cc (rw k at h)

-- The ways to write the block `b`.
abbrev pub IsWritten : (Fields → Option String) → String → Fields → Plan → Type 0
IsWritten text path b plan = (t : String) × (text b ≡ some t) × (plan ≡ set_one path (str t))

encoded-done :
    (path : String) (o : Option String) (plan : Plan)
    → (encoded path o no_edits.plan >>= λ p. sort_removes p) ≡ done plan
    → (t : String) × (o ≡ some t) × (plan ≡ set_one path (str t))
unfolding insert stable_sort
encoded-done path none plan h = cc h
encoded-done path (some t) plan h = (t, refl, cc h)

module _ (json_text yaml_text : Fields → Option String) where
  abbrev pub IsPlanOf : String → Fields → Plan → Type 0
  IsPlanOf component b plan =
      ((b ≡ end) × (plan ≡ remove_one (block_path component)))
      ⊎ IsWritten json_text (block_path component) b plan
      ⊎ IsWritten yaml_text (config_path component) b plan

  pub plan_block-done :
      (component : String) (json : Bool) (b : Fields) (plan : Plan)
      → (plan_block json_text yaml_text component json b no_edits.plan >>= λ p. sort_removes p)
        ≡ done plan
      → IsPlanOf component b plan
  unfolding stable_sort place
  plan_block-done component json end plan h = inl (refl, cc h)
  plan_block-done component true (field k v m) plan h =
      inr (inl (encoded-done (block_path component) (json_text (field k v m)) plan h))
  plan_block-done component false (field k v m) plan h =
      inr (inr (encoded-done (config_path component) (yaml_text (field k v m)) plan h))

-- The rest of `Write` after the loop over the changes.
abbrev plan_of_edits : (json_text yaml_text : Fields → Option String) → Edits → Result Plan
plan_of_edits json_text yaml_text e =
    plan_blocks json_text yaml_text e.is_json e.edited_blocks e.plan >>= λ p. sort_removes p

plan_of_edits-note_value :
    (json_text yaml_text : Fields → Option String) (path : String) (w : Value)
    → plan_of_edits json_text yaml_text (note_value path w no_edits)
      ≡ done (if is_null w then remove_one path else set_one path w)
unfolding plan_blocks stable_sort insert place
plan_of_edits-note_value json_text yaml_text path w = elim (Bool-cases (is_null w)) [
  | inl n ↦ rw n refl
  | inr n ↦ rw n refl
]

plan_of_edits-block :
    (json_text yaml_text : Fields → Option String) (component : String) (b : Fields)
    (is_json : List (String × Bool)) (plan : Plan)
    → plan_of_edits json_text yaml_text
        (record { plan = no_edits.plan; edited_blocks = (component, b) ∷ []; is_json = is_json })
      ≡ done plan
    → IsPlanOf json_text yaml_text component b plan
unfolding plan_blocks
plan_of_edits-block json_text yaml_text component b is_json plan h =
    let json = told_json (lookup component is_json) in
    let whole =
      bind-done (plan_blocks json_text yaml_text is_json ((component, b) ∷ []) no_edits.plan)
        (λ p. sort_removes p) plan h in
    let one =
      bind-done (plan_block json_text yaml_text component json b no_edits.plan) (λ p. done p)
        (whole.0) (whole.1) in
    plan_block-done json_text yaml_text component json b plan
      (ap (λ r. r >>= λ p. sort_removes p) (one.1 ∙ one.2) ∙ whole.2)

-- `Write` on one change, of a field that is there.
module _ (shown : Value → String) (decode : String → Option Fields) (trim_space : String → String)
    (json_text yaml_text : Fields → Option String) (values : Fields) (fields : List Field)
    (id : String) (v : Value) (f : Field) (plan : Plan)
    (known : lookup id (by_id fields []) ≡ some f)
    (planned : write shown decode trim_space json_text yaml_text values fields ((id, v) ∷ [])
      ≡ done plan) where
  write-change :
      (e : Edits) × (change_value shown decode values f (as_int f.kind v) no_edits ≡ done e)
      × ((plan_blocks json_text yaml_text e.is_json e.edited_blocks e.plan >>= λ p. sort_removes p)
          ≡ done plan)
  unfolding write change_all
  write-change =
      let whole =
        bind-done
          (change_all shown decode values trim_space (by_id fields []) ((id, v) ∷ []) no_edits)
          (λ e. plan_blocks json_text yaml_text e.is_json e.edited_blocks e.plan >>= λ p.
            sort_removes p)
          plan planned in
      let one =
        bind-done (change shown decode values trim_space (some f) id v no_edits) (λ e. done e)
          (whole.0) (rw known at whole.1) in
      (
        whole.0,
        (change-done shown decode values trim_space f id v (whole.0) (one.1 ∙ one.2)).2,
        whole.2,
      )

  -- A field of the chart's values: its path is set or removed.
  pub write-path :
      str_eq f.source.values "" ≡ false
      → plan ≡ (
          if is_null (as_int f.kind v)
          then remove_one f.source.values
          else set_one f.source.values (as_int f.kind v))
  write-path k =
      let e =
        change_value-path shown decode values f (as_int f.kind v) (write-change.0) k
          (write-change.1) in
      cc (
        plan_of_edits-note_value json_text yaml_text f.source.values (as_int f.kind v),
        ap (plan_of_edits json_text yaml_text) e ∙ write-change.2,
      )

  -- A field of a block: the block is removed, or written as JSON or as YAML.
  pub write-key :
      str_eq f.source.values "" ≡ true
      → IsPlanOf json_text yaml_text f.source.component
          (edit_block shown decode f
            (as_int f.kind v)
            (copy_map (lookup block (additional shown decode values f.source.component))))
          plan
  unfolding lookup insert
  write-key k =
      let e =
        change_value-key shown decode values f (as_int f.kind v) (write-change.0) k
          (write-change.1) in
      plan_of_edits-block json_text yaml_text f.source.component
        (edit_block shown decode f (as_int f.kind v)
          (copy_map (lookup block (additional shown decode values f.source.component))))
        ((f.source.component, f.source.json) ∷ []) plan
        (ap (plan_of_edits json_text yaml_text) e ∙ write-change.2)
