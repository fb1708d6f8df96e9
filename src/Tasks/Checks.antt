-- ===== src/Tasks/Checks.antt =====
-- `validate` of internal/tasks/tasks.go and the patterns that it tests with.
use Prim.Native.String.{len}
use matrixctrl.Common.{
  ℕ, String, Bool, true, false, Option, none, some, List, [], ◌∷◌, ◌&&◌, ◌||◌, not, str_eq, ◌==◌,
  ltb, leb, length, if◌then◌else◌,
}
use matrixctrl.Common.Bytes
use matrixctrl.Common.Bytes.{Bytes, ascii}
use matrixctrl.Common.Tree.{Value, null, float, int, str, list, Items, nil, item}
use matrixctrl.Tasks.Fields.{
  Kind, bool, text, quantity, size, duration, port, choice, allow_list, label, Choice, Field,
}

-- What is refused; each stands for a sentence about the field of that label.
pub data TaskError : Type 0 where
  unknown_setting : String → TaskError
  is_locked : (label why : String) → TaskError
  expected : Kind → (label : String) → TaskError
  unknown_choice : (label : String) → Value → TaskError
  not_a_server : (label : String) → Value → TaskError
  set_in_block : (label name : String) → TaskError
  not_encoded : TaskError

abbrev pub is_digit : ℕ → Bool
is_digit c = leb b'0' c && leb c b'9'

abbrev pub is_host_char : ℕ → Bool
is_host_char c = (leb b'a' c && leb c b'z') || is_digit c

unfoldable pub is_one_of : ℕ → Bytes → Bool
is_one_of c [] = false
is_one_of c (d ∷ ds) = c == d || is_one_of c ds

-- Digits, at least one, and then one of the letters: `^[0-9]+[KMG]$` and `^[0-9]+[smhdwy]$`. The flag
-- says whether a digit was read.
unfoldable pub digits_then : Bytes → Bool → Bytes → Bool
digits_then letters seen [] = false
digits_then letters seen (c ∷ []) = seen && is_one_of c letters
digits_then letters seen (c ∷ d ∷ s) = is_digit c && digits_then letters true (d ∷ s)

abbrev pub size_re : String → Bool
size_re s = digits_then (ascii "KMG") false (ascii s)

abbrev pub duration_re : String → Bool
duration_re s = digits_then (ascii "smhdwy") false (ascii s)

unfoldable pub all_bytes : (ℕ → Bool) → Bytes → Bool
all_bytes test [] = true
all_bytes test (c ∷ s) = test c && all_bytes test s

-- `[a-z0-9]([a-z0-9-]*[a-z0-9])?`
abbrev pub ends_well : ℕ → Bytes → Bool
ends_well c [] = is_host_char c
ends_well c (d ∷ s) = ends_well d s

abbrev pub is_host_label : Bytes → Bool
is_host_label [] = false
is_host_label (c ∷ s) =
    is_host_char c && all_bytes (λ d. is_host_char d || d == b'-') s && ends_well c s

unfoldable pub all_labels : List Bytes → Bool
all_labels [] = true
all_labels (l ∷ ls) = is_host_label l && all_labels ls

-- Two labels at least; then a colon and one to five digits, or nothing.
abbrev pub is_host_name : Bytes → Bool
is_host_name h = ltb 1 (length (Bytes.split b'.' h)) && all_labels (Bytes.split b'.' h)

abbrev pub host_parts : List Bytes → Bool
host_parts (h ∷ []) = is_host_name h
host_parts (h ∷ p ∷ []) =
    is_host_name h && leb 1 (length p) && leb (length p) 5 && all_bytes is_digit p
host_parts _ = false

abbrev pub host_re : String → Bool
host_re s = host_parts (Bytes.split b':' (ascii s))

-- What follows the digits and dots at the start, and whether there are any.
unfoldable pub after_number : Bool → Bytes → Bool × Bytes
after_number seen [] = (seen, [])
after_number seen (c ∷ s) =
    let rest = after_number true s in if is_digit c || c == b'.' then rest else (seen, c ∷ s)

unfoldable pub is_unit : Bytes → List String → Bool
is_unit s [] = false
is_unit s (u ∷ us) = Bytes.same s (ascii u) || is_unit s us

abbrev pub units : List String
units = "" ∷ "m" ∷ "k" ∷ "M" ∷ "G" ∷ "T" ∷ "Ki" ∷ "Mi" ∷ "Gi" ∷ "Ti" ∷ []

-- The `quantityRE` function, after its TrimSpace.
unfoldable pub quantity_re : Bytes → Bool
quantity_re s = let (seen, rest) = after_number false s in seen && is_unit rest units

abbrev pub in_port_range : ℕ → Bool
in_port_range n = leb 1 n && leb n 65535

unfoldable pub is_option : String → List Choice → Bool
is_option s [] = false
is_option s (o ∷ options) = str_eq o.value s || is_option s options

-- `s, _ := v.(string)`
abbrev pub str_or_empty : Value → String
str_or_empty (str s) = s
str_or_empty _ = ""

abbrev pub refuse_unless : Bool → TaskError → Option TaskError
refuse_unless true e = none
refuse_unless false e = some e

abbrev pub check_server : String → Value → Option TaskError → Option TaskError
check_server name (str s) rest = if host_re s then rest else some (not_a_server name (str s))
check_server name v rest = some (not_a_server name v)

unfoldable pub check_servers : String → Items → Option TaskError
check_servers name nil = none
check_servers name (item v items) = check_server name v (check_servers name items)

module _ (trim_space : String → String) where
  -- The `switch`: what a value that is not `nil` must be.
  unfoldable pub check_kind : Kind → Field → Value → Option TaskError
  check_kind bool f (Value.bool b) = none
  check_kind text f (str s) =
      refuse_unless
        (not (str_eq (trim_space s) "")
          && not (is_one_of 32 (ascii s))
          && not (is_one_of b'/' (ascii s))
          && not (is_one_of b':' (ascii s)))
        (expected text f.label)
  check_kind quantity f (str s) =
      refuse_unless (quantity_re (ascii (trim_space s))) (expected quantity f.label)
  check_kind size f (str s) = refuse_unless (size_re s) (expected size f.label)
  check_kind duration f (str s) = refuse_unless (duration_re s) (expected duration f.label)
  check_kind port f (float n) = refuse_unless (in_port_range n) (expected port f.label)
  check_kind port f (int n) = refuse_unless (in_port_range n) (expected port f.label)
  check_kind choice f v =
      refuse_unless (is_option (str_or_empty v) f.options) (unknown_choice f.label v)
  check_kind label f (str s) =
      refuse_unless (not (str_eq (trim_space s) "") && leb (len s) 64) (expected label f.label)
  check_kind allow_list f (list items) = check_servers f.label items
  check_kind kind f v = some (expected kind f.label)

  unfoldable pub validate : Field → Value → Option TaskError
  validate f null = none
  validate f v = check_kind f.kind f v
