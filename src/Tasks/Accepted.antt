-- ===== src/Tasks/Accepted.antt =====
-- What `Write` (internal/tasks/tasks.go) has checked of every change when it returns a plan, and
-- what switching a setting on and back off leaves of its block.
use matrixctrl.Common.{
  ◌≡◌, refl, String, true, false, Bool-cases, Option, none, some, List, [], ◌∷◌, All, inl, inr,
  str_eq, lookup,
}
use matrixctrl.Common.Dots.{split_dots}
use matrixctrl.Common.Tree.{Value, Fields}
use matrixctrl.Common.Tree.Removal.{Absent, del-set}
use matrixctrl.Tasks.Fields.{Field, is_null, read_field}
use matrixctrl.Tasks.Checks.{validate}
use matrixctrl.Tasks.Edits.{
  Plan, done, ◌>>=◌, Edits, no_edits, by_id, as_int, edit_at, unless_default, edit_block,
  change_value, change, change_all, plan_blocks, sort_removes, write,
}
use matrixctrl.Tasks.Single.{bind-done, unless_refused-done}

module _ (shown : Value → String) (decode : String → Option Fields) (trim_space : String → String)
    (values : Fields) where
  -- The field is not locked, takes the value, and no other block sets its key.
  abbrev pub IsFree : Field → Value → Type 0
  IsFree f v =
      (str_eq f.locked "" ≡ true)
      × (validate trim_space f v ≡ none)
      × (str_eq f.source.values "" ≡ true
          → str_eq (read_field shown decode values f).set_elsewhere "" ≡ true)

  abbrev pub IsAccepted : List (String × Field) → String × Value → Type 0
  IsAccepted fields (id, v) = (f : Field) × (lookup id fields ≡ some f) × IsFree f v

  change_value-free :
      (f : Field) (w : Value) (e next : Edits)
      → change_value shown decode values f w e ≡ done next
      → str_eq f.source.values "" ≡ true
      → str_eq (read_field shown decode values f).set_elsewhere "" ≡ true
  change_value-free f w e next h k =
      elim (Bool-cases (str_eq (read_field shown decode values f).set_elsewhere "")) [
        | inl s ↦ s
        | inr s ↦ cc (rw (k, s) at h)
      ]

  change-IsAccepted :
      (fields : List (String × Field)) (o : Option Field) (id : String) (v : Value) (e next : Edits)
      → lookup id fields ≡ o
      → change shown decode values trim_space o id v e ≡ done next
      → IsAccepted fields (id, v)
  change-IsAccepted fields none id v e next l h = cc h
  change-IsAccepted fields (some f) id v e next l h = elim (Bool-cases (str_eq f.locked "")) [
    | inl k ↦
        let u =
          unless_refused-done (validate trim_space f v)
            (change_value shown decode values f (as_int f.kind v) e) next (rw k at h) in
        (f, l, (k, u.0, change_value-free f (as_int f.kind v) e next (u.1)))
    | inr k ↦ cc (rw k at h)
  ]

  change_all-IsAccepted :
      (fields : List (String × Field)) (changes : List (String × Value)) (e next : Edits)
      → change_all shown decode values trim_space fields changes e ≡ done next
      → All (IsAccepted fields) changes
  unfolding change_all
  change_all-IsAccepted fields [] e next h = tt
  change_all-IsAccepted fields ((id, v) ∷ changes) e next h =
      let one =
        bind-done (change shown decode values trim_space (lookup id fields) id v e)
          (λ e'. change_all shown decode values trim_space fields changes e') next h in
      (
        change-IsAccepted fields (lookup id fields) id v e (one.0) refl (one.1),
        change_all-IsAccepted fields changes (one.0) next (one.2),
      )

-- When a plan comes out, every change of the request is of a known field that is not locked, with a value
-- that passes the checks of its kind, and of a key that no other block is reported to set.
pub write-IsAccepted :
    (shown : Value → String) (decode : String → Option Fields) (trim_space : String → String)
    (json_text yaml_text : Fields → Option String) (values : Fields) (fields : List Field)
    (changes : List (String × Value)) (plan : Plan)
    → write shown decode trim_space json_text yaml_text values fields changes ≡ done plan
    → All (IsAccepted shown decode trim_space values (by_id fields [])) changes
unfolding write
write-IsAccepted shown decode trim_space json_text yaml_text values fields changes plan h =
    let whole =
      bind-done (change_all shown decode values trim_space (by_id fields []) changes no_edits)
        (λ e.
          plan_blocks json_text yaml_text e.is_json e.edited_blocks e.plan >>= λ p. sort_removes p)
        plan h in
    change_all-IsAccepted shown decode trim_space values (by_id fields []) changes no_edits
      (whole.0) (whole.1)

abbrev pub IsAbsent : List String → Fields → Type 0
IsAbsent [] b = Unit {0}
IsAbsent (k ∷ path) b = Absent k path b

edit_at-back :
    (path : List String) (v w : Value) (b : Fields)
    → IsAbsent path b
    → is_null v ≡ false
    → is_null w ≡ true
    → edit_at path w (edit_at path v b) ≡ b
edit_at-back [] v w b a n m = refl
edit_at-back (k ∷ path) v w b a n m = rw (n, m) (del-set k path v b a)

-- Setting a key that the block does not have, with no empty object on the way to it, and then setting it
-- to the default or resetting it, leaves the block as it was.
pub edit_block-back :
    (shown : Value → String) (decode : String → Option Fields) (f : Field) (v w : Value)
    (b : Fields)
    → IsAbsent (split_dots f.source.key) b
    → is_null (unless_default shown decode f v) ≡ false
    → is_null (unless_default shown decode f w) ≡ true
    → edit_block shown decode f w (edit_block shown decode f v b) ≡ b
edit_block-back shown decode f v w b a n m =
    edit_at-back (split_dots f.source.key) (unless_default shown decode f v)
      (unless_default shown decode f w) b a n m
