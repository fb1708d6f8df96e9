-- ===== src/Config/Nodes.antt =====
-- internal/config/yamledit.go: edits of a YAML document by its nodes, so that its comments stay.
use matrixctrl.Common.{
  ℕ, String, Bool, true, false, Option, none, some, List, [], ◌∷◌, str_eq, if◌then◌else◌,
}
use matrixctrl.Common.Tree.{Value, null, str, object, Fields, end, field}
pub mod Plain
pub mod Kept

pub record Remarks : Type 0 where
  pub head : String
  pub line : String
  pub foot : String

abbrev pub no_remarks : Remarks
no_remarks = record { head = ""; line = ""; foot = "" }

pub record Key : Type 0 where
  pub text : String
  pub remarks : Remarks

-- A mapping node with its flow style, or any other with the value that it decodes to and whether it is
-- written as a literal block.
mutual
  pub data YamlNode : Type 0 where
    mapping : Bool → Remarks → Pairs → YamlNode
    leaf : Value → Bool → Remarks → YamlNode

  pub data Pairs : Type 0 where
    no_pairs : Pairs
    pair : Key → YamlNode → Pairs → Pairs

-- `findKey`, and the value node behind it.
unfoldable pub find_node : String → Pairs → Option YamlNode
find_node key no_pairs = none
find_node key (pair k n m) = if str_eq k.text key then some n else find_node key m

abbrev pub new_key : String → Key
new_key key = record { text = key; remarks = no_remarks }

-- The value node of a key is replaced, or one is appended with a new key.
unfoldable pub upsert : String → (Option YamlNode → YamlNode) → Pairs → Pairs
upsert key f no_pairs = pair (new_key key) (f none) no_pairs
upsert key f (pair k n m) =
    if str_eq k.text key then pair k (f (some n)) m else pair k n (upsert key f m)

-- `append(m.Content[:idx], m.Content[idx+2:]...)` for the index of a key.
unfoldable pub drop_key : String → Pairs → Pairs
drop_key key no_pairs = no_pairs
drop_key key (pair k n m) = if str_eq k.text key then m else pair k n (drop_key key m)

abbrev pub remarks_of : YamlNode → Remarks
remarks_of (mapping flow r m) = r
remarks_of (leaf v literal r) = r

abbrev pub with_remarks : Remarks → YamlNode → YamlNode
with_remarks r (mapping flow s m) =
    mapping flow (record { head = r.head; line = r.line; foot = s.foot }) m
with_remarks r (leaf v literal s) =
    leaf v literal (record { head = r.head; line = r.line; foot = s.foot })

-- The new value node takes the comments of the old.
abbrev pub in_place_of : YamlNode → Option YamlNode → YamlNode
in_place_of new none = new
in_place_of new (some old) = with_remarks (remarks_of old) new

-- The mapping to descend into, with its flow style taken off.
abbrev pub pairs_of : Option YamlNode → Pairs
pairs_of (some (mapping flow r m)) = m
pairs_of _ = no_pairs

abbrev pub as_block : Option YamlNode → Pairs → YamlNode
as_block (some (mapping flow r old)) m = mapping false r m
as_block _ m = mapping false no_remarks m

-- `setIn` at the path `k ∷ path`, with the value's node.
unfoldable pub set_in : String → List String → YamlNode → Pairs → Pairs
set_in k [] new m = upsert k (in_place_of new) m
set_in k (j ∷ path) new m = upsert k (λ old. as_block old (set_in j path new (pairs_of old))) m

abbrev pub is_multi_line : (String → Bool) → Value → Bool
is_multi_line has_newline (str s) = has_newline s
is_multi_line has_newline v = false

abbrev pub as_literal : YamlNode → YamlNode
as_literal (leaf v literal r) = leaf v true r
as_literal n = n

-- The value's node: `vn.Encode(value)`, a text of several lines as a literal block.
abbrev pub styled : Bool → Option YamlNode → Option YamlNode
styled literal none = none
styled literal (some n) = some (if literal then as_literal n else n)

abbrev pub drop_if_empty : String → Bool → Remarks → Pairs → Pairs → Pairs
drop_if_empty k flow r no_pairs m = drop_key k m
drop_if_empty k flow r (pair key n sub) m = upsert k (λ old. mapping flow r (pair key n sub)) m

abbrev pub delete_below : String → (Pairs → Pairs) → Option YamlNode → Pairs → Pairs
delete_below k edit (some (mapping flow r sub)) m = drop_if_empty k flow r (edit sub) m
delete_below k edit _ m = m

-- `deleteIn` at the path `k ∷ path`.
unfoldable pub delete_in : String → List String → Pairs → Pairs
delete_in k [] m = drop_key k m
delete_in k (j ∷ path) m = delete_below k (delete_in j path) (find_node k m) m

abbrev pub set_encoded : String → List String → Option YamlNode → Pairs → Option Pairs
set_encoded k path none m = none
set_encoded k path (some n) m = some (set_in k path n m)

-- `SetNodeValue` on a document whose root is a mapping; `none` is the error of the encoder.
unfoldable pub set_node_value :
    (String → Bool)
    → (Value → Option YamlNode)
    → String
    → List String
    → Value
    → Pairs
    → Option Pairs
set_node_value has_newline encode k path v m =
    set_encoded k path (styled (is_multi_line has_newline v) (encode v)) m
