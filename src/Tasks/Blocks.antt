-- ===== src/Tasks/Blocks.antt =====
-- The additional blocks of a component (internal/tasks/tasks.go) after one entry was written or removed.
use matrixctrl.Common.{
  suc, ◌≡◌, refl, ap, sym, ◌∙◌, String, Bool, Bool-cases, inl, inr, true, false, Option, none, some,
  List, [], ◌∷◌, ◌&&◌, not, str_eq, str_eq_self, eq_iff, lookup, arith, if◌then◌else◌,
}
use matrixctrl.Common.Sort.{tally}
use matrixctrl.Common.Tree.{Value, Fields, object, end, field, get, put, remove}
use matrixctrl.Tasks.Fields.{block, by_block_name, note_block, read_entry, parse_blocks, elsewhere}

-- Another block than ours sets the key.
abbrev pub is_some : Option Value → Bool
is_some none = false
is_some (some v) = true

abbrev pub sets_key : List String → String × Fields → Bool
sets_key key (name, doc) = not (str_eq name block) && is_some (get key (object doc))

str_eq_ne_left : (j k n : String) → str_eq j k ≡ true → str_eq k n ≡ false → str_eq j n ≡ false
str_eq_ne_left j k n s h = ap (λ i. str_eq i n) ((eq_iff j k).0 s) ∙ h

module _ (shown : Value → String) (decode : String → Option Fields) where
  pub elsewhere-none :
      (key : List String) (blocks : List (String × Fields))
      → tally by_block_name (sets_key key) blocks ≡ 0
      → elsewhere shown decode key blocks ≡ none
  unfolding elsewhere
  elsewhere-none key [] h = refl
  elsewhere-none key ((name, doc) ∷ blocks) h = ground (arith, elsewhere-none key blocks)

  pub tally-none :
      (key : List String) (blocks : List (String × Fields))
      → elsewhere shown decode key blocks ≡ none
      → tally by_block_name (sets_key key) blocks ≡ 0
  unfolding elsewhere
  tally-none key [] h = refl
  tally-none key ((name, doc) ∷ blocks) h = ground (arith, tally-none key blocks)

  tally-note_block :
      (key : List String) (name : String) (o : Option Fields) (blocks : List (String × Fields))
      → str_eq name block ≡ true
      → tally by_block_name (sets_key key) (note_block shown decode name o blocks)
        ≡ tally by_block_name (sets_key key) blocks
  tally-note_block key name none blocks h = refl
  tally-note_block key name (some doc) blocks h = rw h refl

  tally-note_block_cong :
      (key : List String) (name : String) (o : Option Fields) (us bs : List (String × Fields))
      → tally by_block_name (sets_key key) us ≡ tally by_block_name (sets_key key) bs
      → tally by_block_name (sets_key key) (note_block shown decode name o us)
        ≡ tally by_block_name (sets_key key) (note_block shown decode name o bs)
  tally-note_block_cong key name none us bs h = h
  tally-note_block_cong key name (some doc) us bs h =
      ap (λ n. if sets_key key (name, doc) then suc n else n) h

  lookup-note_block_cong :
      (name other : String) (o : Option Fields) (us bs : List (String × Fields))
      → lookup other us ≡ lookup other bs
      → lookup other (note_block shown decode name o us)
        ≡ lookup other (note_block shown decode name o bs)
  unfolding lookup
  lookup-note_block_cong name other none us bs h = h
  lookup-note_block_cong name other (some doc) us bs h =
      ap (λ o. if str_eq name other then some doc else o) h

  lookup-nil : (k : String) → lookup {V = Fields} k [] ≡ none
  unfolding lookup
  lookup-nil k = refl

  lookup-note_block_ne :
      (name other : String) (o : Option Fields) (blocks : List (String × Fields))
      → str_eq name other ≡ false
      → lookup other (note_block shown decode name o blocks) ≡ lookup other blocks
  unfolding lookup
  lookup-note_block_ne name other none blocks h = refl
  lookup-note_block_ne name other (some doc) blocks h = rw h refl

  lookup-note_block_self :
      (name other : String) (doc : Fields) (blocks : List (String × Fields))
      → str_eq name other ≡ true
      → lookup other (note_block shown decode name (some doc) blocks) ≡ some doc
  unfolding lookup
  lookup-note_block_self name other doc blocks h = rw h refl

  pub lookup-parse_blocks-put :
      (k : String) (e : Value) (doc : Fields) (m : Fields)
      → read_entry shown decode e ≡ some doc
      → lookup k (parse_blocks shown decode (put k e m)) ≡ some doc
  unfolding parse_blocks put
  lookup-parse_blocks-put k e doc end h = rw h (lookup-note_block_self k k doc [] (str_eq_self k))
  lookup-parse_blocks-put k e doc (field j w m) h = elim (Bool-cases (str_eq j k)) [
    | inl s ↦ rw (s, h) (lookup-note_block_self j k doc (parse_blocks shown decode m) s)
    | inr s ↦ rw s (
        lookup-note_block_ne j k (read_entry shown decode w) (parse_blocks shown decode (put k e m))
          s
        ∙ lookup-parse_blocks-put k e doc m h)
  ]

  pub lookup-parse_blocks-put_ne :
      (k n : String) (e : Value) (m : Fields)
      → str_eq k n ≡ false
      → lookup n (parse_blocks shown decode (put k e m)) ≡ lookup n (parse_blocks shown decode m)
  unfolding parse_blocks put
  lookup-parse_blocks-put_ne k n e end h = lookup-note_block_ne k n (read_entry shown decode e) [] h
  lookup-parse_blocks-put_ne k n e (field j w m) h = elim (Bool-cases (str_eq j k)) [
    | inl s ↦ rw s (
        lookup-note_block_ne j n (read_entry shown decode e) (parse_blocks shown decode m)
          (str_eq_ne_left j k n s h)
        ∙ sym (
            lookup-note_block_ne j n (read_entry shown decode w) (parse_blocks shown decode m)
              (str_eq_ne_left j k n s h)))
    | inr s ↦ rw s (
        lookup-note_block_cong j n (read_entry shown decode w)
          (parse_blocks shown decode (put k e m)) (parse_blocks shown decode m)
          (lookup-parse_blocks-put_ne k n e m h))
  ]

  pub lookup-parse_blocks-remove :
      (k : String) (m : Fields) → lookup k (parse_blocks shown decode (remove k m)) ≡ none
  unfolding parse_blocks remove
  lookup-parse_blocks-remove k end = lookup-nil k
  lookup-parse_blocks-remove k (field j w m) = elim (Bool-cases (str_eq j k)) [
    | inl s ↦ rw s (lookup-parse_blocks-remove k m)
    | inr s ↦ rw s (
        lookup-note_block_ne j k (read_entry shown decode w)
          (parse_blocks shown decode (remove k m)) s
        ∙ lookup-parse_blocks-remove k m)
  ]

  pub lookup-parse_blocks-remove_ne :
      (k n : String) (m : Fields)
      → str_eq k n ≡ false
      → lookup n (parse_blocks shown decode (remove k m)) ≡ lookup n (parse_blocks shown decode m)
  unfolding parse_blocks remove
  lookup-parse_blocks-remove_ne k n end h = refl
  lookup-parse_blocks-remove_ne k n (field j w m) h = elim (Bool-cases (str_eq j k)) [
    | inl s ↦ rw s (
        lookup-parse_blocks-remove_ne k n m h
        ∙ sym (
            lookup-note_block_ne j n (read_entry shown decode w) (parse_blocks shown decode m)
              (str_eq_ne_left j k n s h)))
    | inr s ↦ rw s (
        lookup-note_block_cong j n (read_entry shown decode w)
          (parse_blocks shown decode (remove k m)) (parse_blocks shown decode m)
          (lookup-parse_blocks-remove_ne k n m h))
  ]

  pub tally-parse_blocks-put :
      (key : List String) (e : Value) (m : Fields)
      → tally by_block_name (sets_key key) (parse_blocks shown decode (put block e m))
        ≡ tally by_block_name (sets_key key) (parse_blocks shown decode m)
  unfolding parse_blocks put
  tally-parse_blocks-put key e end = tally-note_block key block (read_entry shown decode e) [] refl
  tally-parse_blocks-put key e (field j w m) = elim (Bool-cases (str_eq j block)) [
    | inl s ↦ rw s (
        tally-note_block key j (read_entry shown decode e) (parse_blocks shown decode m) s
        ∙ sym (tally-note_block key j (read_entry shown decode w) (parse_blocks shown decode m) s))
    | inr s ↦ rw s (
        tally-note_block_cong key j (read_entry shown decode w)
          (parse_blocks shown decode (put block e m)) (parse_blocks shown decode m)
          (tally-parse_blocks-put key e m))
  ]

  pub tally-parse_blocks-remove :
      (key : List String) (m : Fields)
      → tally by_block_name (sets_key key) (parse_blocks shown decode (remove block m))
        ≡ tally by_block_name (sets_key key) (parse_blocks shown decode m)
  unfolding parse_blocks remove
  tally-parse_blocks-remove key end = refl
  tally-parse_blocks-remove key (field j w m) = elim (Bool-cases (str_eq j block)) [
    | inl s ↦ rw s (
        tally-parse_blocks-remove key m
        ∙ sym (tally-note_block key j (read_entry shown decode w) (parse_blocks shown decode m) s))
    | inr s ↦ rw s (
        tally-note_block_cong key j (read_entry shown decode w)
          (parse_blocks shown decode (remove block m)) (parse_blocks shown decode m)
          (tally-parse_blocks-remove key m))
  ]
