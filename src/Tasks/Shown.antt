-- ===== src/Tasks/Shown.antt =====
-- What `Read` of internal/tasks/tasks.go shows of a field once our block was written or removed.
use matrixctrl.Common.{
  ◌≡◌, refl, sym, ◌∙◌, String, true, false, Bool-cases, Option, none, some, List, [], ◌∷◌, inl, inr,
  str_eq, if◌then◌else◌,
}
use matrixctrl.Common.Dots.{split_dots, is_cons}
use matrixctrl.Common.Sort.{stable_sort, tally-stable_sort}
use matrixctrl.Common.Tree.{Value, str, object, Fields, end, find, put, remove, get}
use matrixctrl.Common.Tree.Maps.{find-put_self}
use matrixctrl.Common.Tree.Paths.{get-set}
use matrixctrl.Common.Tree.Removal.{get-del}
use matrixctrl.Tasks.Fields.{
  Field, FieldValue, block, by_block_name, is_null, is_the_default, read_entry, parse_blocks,
  additional, elsewhere, fallback, or_default, read_field,
}
use matrixctrl.Tasks.Blocks.{
  sets_key, elsewhere-none, tally-none, lookup-parse_blocks-put, lookup-parse_blocks-remove,
  tally-parse_blocks-put, tally-parse_blocks-remove,
}
use matrixctrl.Tasks.Edits.{edit_at}
use matrixctrl.Tasks.Placed.{entries_of}

abbrev pub unless_null : Value → Option Value
unless_null v = if is_null v then none else some v

pub get-edit_at :
    (path : List String) (v : Value) (b : Fields)
    → is_cons path ≡ true
    → get path (object (edit_at path v b)) ≡ unless_null v
get-edit_at [] v b h = cc h
get-edit_at (k ∷ path) v b h = elim (Bool-cases (is_null v)) [
  | inl n ↦ rw n (get-del k path b)
  | inr n ↦ rw n (get-set k path v b)
]

module _ (shown : Value → String) (decode : String → Option Fields) where
  -- No block but ours sets the key.
  abbrev pub IsOurs : Fields → Field → Type 0
  IsOurs values f =
      elsewhere shown decode (split_dots f.source.key)
        (stable_sort by_block_name (additional shown decode values f.source.component))
      ≡ none

  -- A text that is read back has the block's value at the key.
  abbrev pub IsReadBack : List String → Fields → String → Type 0
  IsReadBack key b t =
      (str_eq t "" ≡ false)
      × ((doc : Fields) × (decode t ≡ some doc) × (get key (object doc) ≡ get key (object b)))

  -- What is shown of a field after `v` was written to it.
  abbrev pub after : Field → Value → FieldValue
  after f v =
      if is_null v
      then fallback shown decode f
      else (if str_eq f.source.values ""
          then (if is_the_default shown decode f v
              then fallback shown decode f
              else record { value = v; is_default = false; set_elsewhere = "" })
          else record {
            value = v;
            is_default = is_the_default shown decode f v;
            set_elsewhere = "";
          })

  elsewhere-put :
      (key : List String) (e : Value) (m : Fields)
      → elsewhere shown decode key (stable_sort by_block_name (parse_blocks shown decode m)) ≡ none
      → elsewhere shown decode key
          (stable_sort by_block_name (parse_blocks shown decode (put block e m)))
        ≡ none
  elsewhere-put key e m h =
      elsewhere-none shown decode key
        (stable_sort by_block_name (parse_blocks shown decode (put block e m)))
        (tally-stable_sort by_block_name (sets_key key) (parse_blocks shown decode (put block e m))
          ∙ tally-parse_blocks-put shown decode key e m
          ∙ sym (tally-stable_sort by_block_name (sets_key key) (parse_blocks shown decode m))
          ∙ tally-none shown decode key (stable_sort by_block_name (parse_blocks shown decode m)) h)

  elsewhere-remove :
      (key : List String) (m : Fields)
      → elsewhere shown decode key (stable_sort by_block_name (parse_blocks shown decode m)) ≡ none
      → elsewhere shown decode key
          (stable_sort by_block_name (parse_blocks shown decode (remove block m)))
        ≡ none
  elsewhere-remove key m h =
      elsewhere-none shown decode key
        (stable_sort by_block_name (parse_blocks shown decode (remove block m)))
        (tally-stable_sort by_block_name (sets_key key) (parse_blocks shown decode (remove block m))
          ∙ tally-parse_blocks-remove shown decode key m
          ∙ sym (tally-stable_sort by_block_name (sets_key key) (parse_blocks shown decode m))
          ∙ tally-none shown decode key (stable_sort by_block_name (parse_blocks shown decode m)) h)

  module _ (values new : Fields) (f : Field) (own : str_eq f.source.values "" ≡ true)
      (ours : IsOurs values f) where
    pub read-put :
        (b : Fields) (e : Value) (doc : Fields)
        → read_entry shown decode e ≡ some doc
        → get (split_dots f.source.key) (object doc) ≡ get (split_dots f.source.key) (object b)
        → entries_of f.source.component new ≡ put block e (entries_of f.source.component values)
        → read_field shown decode new f
          ≡ or_default shown decode f (get (split_dots f.source.key) (object b))
    unfolding read_field additional
    read-put b e doc r g h =
        rw
          (
            own,
            h,
            elsewhere-put (split_dots f.source.key) e (entries_of f.source.component values) ours,
            lookup-parse_blocks-put shown decode block e doc (entries_of f.source.component values)
                r,
            g,
          )
          refl

    pub read-remove :
        entries_of f.source.component new ≡ remove block (entries_of f.source.component values)
        → read_field shown decode new f ≡ fallback shown decode f
    unfolding read_field additional
    read-remove h =
        rw
          (
            own,
            h,
            elsewhere-remove (split_dots f.source.key) (entries_of f.source.component values) ours,
            lookup-parse_blocks-remove shown decode block (entries_of f.source.component values),
          )
          refl

  pub read_entry-text :
      (t : String) (doc : Fields)
      → str_eq t "" ≡ false
      → decode t ≡ some doc
      → read_entry shown decode (str t) ≡ some doc
  read_entry-text t doc n d = rw (n, d) refl

  pub read_entry-config :
      (t : String) (doc e : Fields)
      → str_eq t "" ≡ false
      → decode t ≡ some doc
      → read_entry shown decode (object (put "config" (str t) e)) ≡ some doc
  read_entry-config t doc e n d = rw (find-put_self "config" (str t) e, n, d) refl

pub get-end : (path : List String) → is_cons path ≡ true → get path (object end) ≡ none
unfolding get find
get-end [] h = cc h
get-end (k ∷ path) h = refl
