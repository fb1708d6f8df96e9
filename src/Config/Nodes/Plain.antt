-- ===== src/Config/Nodes/Plain.antt =====
-- The edits of nodes (internal/config/yamledit.go) are edits of the settings that the nodes stand for.
use matrixctrl.Common.{
  ◌≡◌, refl, ap, sym, ◌∙◌, subst, String, Bool, true, false, Bool-cases, inl, inr, eq_iff, Option,
  none, some, List, [], ◌∷◌, str_eq,
}
use matrixctrl.Common.Tree.{
  Value, object, Fields, end, field, find, put, remove, fields_of, set, del, into, put_unless_empty,
}
use matrixctrl.Common.Tree.Maps.{has_key, HasDistinctKeys, find-not_has_key, remove-none}
use matrixctrl.Config.Merge.Laws.{is_object}
use matrixctrl.Config.Nodes.{
  Remarks, Key, YamlNode, mapping, leaf, Pairs, no_pairs, pair, find_node, upsert, drop_key,
  in_place_of, pairs_of, as_block, set_in, styled, is_multi_line, delete_in, delete_below,
  drop_if_empty, set_encoded, set_node_value,
}

-- The settings that a document stands for.
unfoldable mutual
  pub plain_node : YamlNode → Value
  plain_node (mapping flow r m) = object (plain m)
  plain_node (leaf v literal r) = v

  pub plain : Pairs → Fields
  plain no_pairs = end
  plain (pair k n m) = field k.text (plain_node n) (plain m)

plain_option : Option YamlNode → Option Value
plain_option none = none
plain_option (some n) = some (plain_node n)

find-plain : (k : String) (m : Pairs) → find k (plain m) ≡ plain_option (find_node k m)
unfolding plain_option plain find find_node
find-plain k no_pairs = refl
find-plain k (pair key n m) = elim (Bool-cases (str_eq key.text k)) [
  | inl e ↦ rw e refl
  | inr e ↦ rw e (find-plain k m)
]

find_node-pair :
    (k : String) (key : Key) (n : YamlNode) (m : Pairs)
    → str_eq key.text k ≡ false
    → find_node k (pair key n m) ≡ find_node k m
unfolding find_node
find_node-pair k key n m e = rw e refl

plain-upsert :
    (k : String) (f : Option YamlNode → YamlNode) (m : Pairs)
    → plain (upsert k f m) ≡ put k (plain_node (f (find_node k m))) (plain m)
unfolding plain put upsert find_node
plain-upsert k f no_pairs = refl
plain-upsert k f (pair key n m) = elim (Bool-cases (str_eq key.text k)) [
  | inl e ↦ rw e refl
  | inr e ↦ rw e (
      ap (field key.text (plain_node n)) (
        plain-upsert k f m
        ∙ ap (λ o. put k (plain_node (f o)) (plain m)) (sym (find_node-pair k key n m e))))
]

-- Distinct keys make dropping the first entry of a key removing it.
plain-drop_key :
    (k : String) (m : Pairs) → HasDistinctKeys (plain m) → plain (drop_key k m) ≡ remove k (plain m)
unfolding plain drop_key remove
plain-drop_key k no_pairs d = refl
plain-drop_key k (pair key n m) d = elim (Bool-cases (str_eq key.text k)) [
  | inl e ↦ rw e (
      sym (
        remove-none k (plain m) (
          find-not_has_key k (plain m)
            (subst (λ s. has_key s (plain m) ≡ false) ((eq_iff key.text k).0 e) (d.0)))))
  | inr e ↦ rw e (ap (field key.text (plain_node n)) (plain-drop_key k m (d.1)))
]

plain-in_place_of :
    (n : YamlNode) (old : Option YamlNode) → plain_node (in_place_of n old) ≡ plain_node n
unfolding plain
plain-in_place_of n none = refl
plain-in_place_of (mapping flow r m) (some old) = refl
plain-in_place_of (leaf v literal r) (some old) = refl

plain-as_block :
    (old : Option YamlNode) (m : Pairs) → plain_node (as_block old m) ≡ object (plain m)
unfolding plain
plain-as_block none m = refl
plain-as_block (some (mapping flow r old)) m = refl
plain-as_block (some (leaf v literal r)) m = refl

-- Above the end of the path, a node that decodes to a map is a mapping (it is no alias of one).
abbrev pub IsPlainNode : Option YamlNode → Type 0
IsPlainNode (some (leaf v literal r)) = is_object v ≡ false
IsPlainNode _ = Unit {0}

abbrev pub IsOpen : String → List String → Pairs → Type 0
IsOpen k [] m = Unit {0}
IsOpen k (j ∷ path) m = IsPlainNode (find_node k m) × IsOpen j path (pairs_of (find_node k m))

fields_of-leaf : (v : Value) → is_object v ≡ false → fields_of (some v) ≡ end
fields_of-leaf (object m) h = cc h
fields_of-leaf _ h = refl

plain-pairs_of :
    (o : Option YamlNode) → IsPlainNode o → plain (pairs_of o) ≡ fields_of (plain_option o)
unfolding plain plain_option
plain-pairs_of none h = refl
plain-pairs_of (some (mapping flow r m)) h = refl
plain-pairs_of (some (leaf v literal r)) h = sym (fields_of-leaf v h)

pub plain-set_in :
    (k : String) (path : List String) (n : YamlNode) (m : Pairs)
    → IsOpen k path m
    → plain (set_in k path n m) ≡ set k path (plain_node n) (plain m)
unfolding set_in set
plain-set_in k [] n m o =
    plain-upsert k (in_place_of n) m
    ∙ ap (λ v. put k v (plain m)) (plain-in_place_of n (find_node k m))
plain-set_in k (j ∷ path) n m o =
    plain-upsert k (λ old. as_block old (set_in j path n (pairs_of old))) m
    ∙ ap (λ v. put k v (plain m))
        (plain-as_block (find_node k m) (set_in j path n (pairs_of (find_node k m)))
          ∙ ap object (
              plain-set_in j path n (pairs_of (find_node k m)) (o.1)
              ∙ ap (set j path (plain_node n))
                  (plain-pairs_of (find_node k m) (o.0) ∙ ap fields_of (sym (find-plain k m)))))

abbrev pub IsDistinct : String → List String → Pairs → Type 0
IsDistinct k [] m = HasDistinctKeys (plain m)
IsDistinct k (j ∷ path) m = HasDistinctKeys (plain m) × IsDistinct j path (pairs_of (find_node k m))

plain-drop_if_empty :
    (k : String) (flow : Bool) (r : Remarks) (sub m : Pairs)
    → HasDistinctKeys (plain m)
    → plain (drop_if_empty k flow r sub m) ≡ put_unless_empty k (plain sub) (plain m)
unfolding plain
plain-drop_if_empty k flow r no_pairs m d = plain-drop_key k m d
plain-drop_if_empty k flow r (pair key n sub) m d =
    plain-upsert k (λ old. mapping flow r (pair key n sub)) m

into-leaf :
    (k : String) (m : Fields) (edit : Fields → Fields) (v : Value)
    → is_object v ≡ false
    → into k m edit (some v) ≡ m
into-leaf k m edit (object n) h = cc h
into-leaf k m edit _ h = refl

plain-delete_below :
    (k : String) (edit : Pairs → Pairs) (edit_plain : Fields → Fields) (o : Option YamlNode)
    (m : Pairs)
    → HasDistinctKeys (plain m)
    → IsPlainNode o
    → plain (edit (pairs_of o)) ≡ edit_plain (plain (pairs_of o))
    → plain (delete_below k edit o m) ≡ into k (plain m) edit_plain (plain_option o)
unfolding plain plain_option
plain-delete_below k edit edit_plain none m d p h = refl
plain-delete_below k edit edit_plain (some (leaf v literal r)) m d p h =
    sym (into-leaf k (plain m) edit_plain v p)
plain-delete_below k edit edit_plain (some (mapping flow r sub)) m d p h =
    plain-drop_if_empty k flow r (edit sub) m d ∙ ap (λ s. put_unless_empty k s (plain m)) h

pub plain-delete_in :
    (k : String) (path : List String) (m : Pairs)
    → IsOpen k path m
    → IsDistinct k path m
    → plain (delete_in k path m) ≡ del k path (plain m)
unfolding delete_in del
plain-delete_in k [] m o d = plain-drop_key k m d
plain-delete_in k (j ∷ path) m o d =
    plain-delete_below k (delete_in j path) (del j path) (find_node k m) m (d.0) (o.0)
      (plain-delete_in j path (pairs_of (find_node k m)) (o.1) (d.1))
    ∙ ap (into k (plain m) (del j path)) (sym (find-plain k m))

some-plain : (k n : YamlNode) → some k ≡ some n → plain_node n ≡ plain_node k
some-plain k n h = cc h

plain-styled :
    (literal : Bool) (o : Option YamlNode) (n : YamlNode) (v : Value)
    → styled literal o ≡ some n
    → ((n : YamlNode) → o ≡ some n → plain_node n ≡ v)
    → plain_node n ≡ v
unfolding plain
plain-styled literal none n v h p = cc h
plain-styled true (some (leaf w l r)) n v h p = some-plain (leaf w true r) n h ∙ p (leaf w l r) refl
plain-styled true (some (mapping flow r m)) n v h p =
    some-plain (mapping flow r m) n h ∙ p (mapping flow r m) refl
plain-styled false (some k) n v h p = some-plain k n h ∙ p k refl

set_encoded-plain :
    (k : String) (path : List String) (o : Option YamlNode) (v : Value) (m new : Pairs)
    → IsOpen k path m
    → ((n : YamlNode) → o ≡ some n → plain_node n ≡ v)
    → set_encoded k path o m ≡ some new
    → plain new ≡ set k path v (plain m)
set_encoded-plain k path none v m new o p h = cc h
set_encoded-plain k path (some n) v m new o p h =
    ap plain (cc h) ∙ plain-set_in k path n m o ∙ ap (λ w. set k path w (plain m)) (p n refl)

-- Where the maps on the way are mapping nodes with each key once, and the encoder's node decodes to the
-- value, setting a value in a document sets it in the settings that the document stands for, and deleting
-- a path deletes it there, with the objects that are left empty.
pub plain-edits :
    (has_newline : String → Bool) (encode : Value → Option YamlNode) (k : String)
    (path : List String) (v : Value) (m new : Pairs)
    → IsOpen k path m
    → IsDistinct k path m
    → ((n : YamlNode) → encode v ≡ some n → plain_node n ≡ v)
    → set_node_value has_newline encode k path v m ≡ some new
    → (plain new ≡ set k path v (plain m)) × (plain (delete_in k path m) ≡ del k path (plain m))
unfolding set_node_value
plain-edits has_newline encode k path v m new o d p h = (
  set_encoded-plain k path (styled (is_multi_line has_newline v) (encode v)) v m new o
      (λ n q. plain-styled (is_multi_line has_newline v) (encode v) n v q p) h,
  plain-delete_in k path m o d,
)
