-- ===== src/Tasks/Examples.antt =====
-- The setting of the page that turns sign-in by password off, on an installation without settings.
use matrixctrl.Common.{
  ◌≡◌, ◌⊎◌, refl, subst, inl, inr, String, true, false, Option, none, some, List, [], ◌∷◌, All,
  str_eq, lookup, insert, if◌then◌else◌,
}
use matrixctrl.Common.Dots.{split_dots}
use matrixctrl.Common.Sort.{stable_sort, place}
use matrixctrl.Common.Tree.{Value, str, object, Fields, end, field, find, put, get, set}
use matrixctrl.Tasks.Fields.{Field, parse_blocks, additional, elsewhere, read_field}
use matrixctrl.Tasks.Frame.{IsKept}
use matrixctrl.Tasks.Checks.{validate, check_kind}
use matrixctrl.Tasks.Edits.{Plan, done, by_id, as_int, edit_block, change_all, plan_blocks, write}
use matrixctrl.Tasks.Placed.{apply_plan, set_one}
use matrixctrl.Tasks.Shown.{IsReadBack, after}
use matrixctrl.Tasks.ReadBack.{IsWritable, edited, read_field-write}
use matrixctrl.Tasks.Accepted.{IsAccepted, IsAbsent, write-IsAccepted, edit_block-back}
use matrixctrl.Tasks.Catalogue.{cards, all_fields}
use matrixctrl.Tasks.Catalogue.Parts.{zero_field}
use matrixctrl.Tasks.Catalogue.Apart.{read_field-write_card}

abbrev field_at : Option Field → Field
field_at none = zero_field
field_at (some f) = f

abbrev of_id : String → Field
of_id id = field_at (lookup id (by_id (all_fields cards) []))

abbrev passwords : Field
passwords = of_id "mas.passwords"

abbrev displayname : Field
displayname = of_id "mas.displayname"

abbrev shown : Value → String
shown (Value.bool true) = "true"
shown (Value.bool false) = "false"
shown _ = ""

abbrev off : Value
off = Value.bool false

abbrev text : String
text = "passwords: {enabled: false}"

abbrev doc : Fields
doc = field "passwords" (object (field "enabled" off end)) end

abbrev decode : String → Option Fields
decode s = if str_eq s text then some doc else none

abbrev same : String → String
same s = s

abbrev no_text : Fields → Option String
no_text b = none

abbrev one_text : Fields → Option String
one_text b = some text

abbrev off_plan : Plan
off_plan = set_one "matrixAuthenticationService.additional.matrixctrl-tasks.config" (str text)

passwords_known : lookup "mas.passwords" (by_id (all_fields cards) []) ≡ some passwords
unfolding lookup by_id insert cards all_fields
passwords_known = refl

displayname_known : lookup "mas.displayname" (by_id (all_fields cards) []) ≡ some displayname
unfolding lookup by_id insert cards all_fields
displayname_known = refl

off_planned :
    write shown decode same no_text one_text end (all_fields cards) (("mas.passwords", off) ∷ [])
    ≡ done off_plan
unfolding lookup by_id insert cards all_fields write change_all plan_blocks read_field additional
    get parse_blocks elsewhere stable_sort place split_dots set put find validate check_kind
off_planned = refl

text_is : (t : String) → some text ≡ some t → text ≡ t
text_is t e = cc e

read_back :
    (key : List String) (b : Fields)
    → get key (object doc) ≡ get key (object b)
    → (t : String) → (no_text b ≡ some t) ⊎ (one_text b ≡ some t)
    → IsReadBack shown decode key b t
read_back key b h t (inl e) = cc e
read_back key b h t (inr e) =
    subst (IsReadBack shown decode key b) (text_is t e) (refl, (doc, refl, h))

passwords-IsWritable :
    IsWritable shown decode no_text one_text end passwords (as_int passwords.kind off)
unfolding lookup by_id insert cards all_fields additional get parse_blocks elsewhere stable_sort
    split_dots set put find
passwords-IsWritable = (
  refl,
  refl,
  read_back (split_dots passwords.source.key)
      (edited shown decode end passwords (as_int passwords.kind off)) refl,
)

displayname-IsKept :
    IsKept shown decode no_text one_text end passwords (as_int passwords.kind off) displayname
unfolding lookup by_id insert cards all_fields additional get parse_blocks elsewhere stable_sort
    split_dots set put find
displayname-IsKept = (
  refl,
  read_back (split_dots displayname.source.key)
      (edited shown decode end passwords (as_int passwords.kind off)) refl,
)

passwords-IsAbsent : IsAbsent (split_dots passwords.source.key) end
unfolding lookup by_id insert cards all_fields split_dots find
passwords-IsAbsent = inl refl

read_field-write_example :
    read_field shown decode (apply_plan off_plan end) passwords
    ≡ after shown decode passwords (as_int passwords.kind off)
read_field-write_example =
    read_field-write shown decode same no_text one_text end (all_fields cards) "mas.passwords" off
      passwords off_plan passwords_known off_planned (λ h. passwords-IsWritable)

write-IsAccepted_example :
    All
      (IsAccepted shown decode same end (by_id (all_fields cards) []))
      (("mas.passwords", off) ∷ [])
write-IsAccepted_example =
    write-IsAccepted shown decode same no_text one_text end (all_fields cards)
      (("mas.passwords", off) ∷ []) off_plan off_planned

read_field-write_card_example :
    read_field shown decode (apply_plan off_plan end) displayname
    ≡ read_field shown decode end displayname
read_field-write_card_example =
    read_field-write_card shown decode same no_text one_text end "mas.passwords" "mas.displayname"
      off passwords displayname off_plan passwords_known displayname_known refl off_planned
      (λ n. displayname-IsKept)

edit_block-back_example :
    edit_block shown decode passwords (Value.bool true) (edit_block shown decode passwords off end)
    ≡ end
unfolding lookup by_id insert cards all_fields
edit_block-back_example =
    edit_block-back shown decode passwords off (Value.bool true) end passwords-IsAbsent refl refl
