-- ===== src/Tasks/Fields.antt =====
-- The types of internal/tasks/tasks.go, and how a field's current value is read.
use matrixctrl.Common.{
  String, Bool, true, false, Option, none, some, List, [], ◌∷◌, ◌&&◌, not, str_eq, lookup,
  if◌then◌else◌,
}
use matrixctrl.Common.Dots.{split_dots}
use matrixctrl.Common.Sort.{stable_sort}
use matrixctrl.Common.Tree.{Value, null, str, object, Fields, end, field, find, fields_of, get}
use Prim.Native.Nat.{Ordering}
use Prim.Native.String.{compare}

abbrev pub block : String
block = "matrixctrl-tasks"

pub data Kind : Type 0 where
  bool text quantity size duration port choice allow_list label : Kind

pub record Source : Type 0 where
  pub values : String
  pub component : String
  pub key : String
  pub json : Bool

pub record Choice : Type 0 where
  pub value : String
  pub label : String

-- A default of `nil` is `null`.
pub record Field : Type 0 where
  pub id : String
  pub label : String
  pub help : String
  pub kind : Kind
  pub default : Value
  pub restarts : String
  pub warn : String
  pub locked : String
  pub group : String
  pub options : List Choice
  pub source : Source

pub record Card : Type 0 where
  pub id : String
  pub title : String
  pub sub : String
  pub icon : String
  pub fields : List Field

abbrev pub val : String → Source
val path = record { values = path; component = ""; key = ""; json = false }

abbrev pub mas : String → Source
mas key = record { values = ""; component = "matrixAuthenticationService"; key = key; json = false }

abbrev pub synapse : String → Source
synapse key = record { values = ""; component = "synapse"; key = key; json = false }

abbrev pub web : String → Source
web key = record { values = ""; component = "elementWeb"; key = key; json = true }

-- A field's current state, the source's `Value`.
pub record FieldValue : Type 0 where
  pub value : Value
  pub is_default : Bool
  pub set_elsewhere : String

abbrev pub by_block_name : String × Fields → String × Fields → Bool
by_block_name (a, m) (b, n) = elim (compare a b) [ Ordering.lt ↦ true | _ ↦ false ]

abbrev pub text_of : Option Value → String
text_of (some (str s)) = s
text_of _ = ""

-- The text of one block: the entry itself, or what stands under its `config`.
abbrev pub entry_text : Value → String
entry_text (str s) = s
entry_text (object e) = text_of (find "config" e)
entry_text _ = ""

-- `f.Default != nil && fmt.Sprint(v) == fmt.Sprint(f.Default)`
abbrev pub is_null : Value → Bool
is_null null = true
is_null _ = false

-- `fmt.Sprint` of the package fmt, and `yaml.Unmarshal` into a map; `none` is an error.
module _ (shown : Value → String) (decode : String → Option Fields) where
  abbrev pub is_the_default : Field → Value → Bool
  is_the_default f v = not (is_null f.default) && str_eq (shown v) (shown f.default)

  abbrev pub note_block : String → Option Fields → List (String × Fields) → List (String × Fields)
  note_block name none blocks = blocks
  note_block name (some doc) blocks = (name, doc) ∷ blocks

  -- An entry without a text, or with one that cannot be parsed, is left out.
  abbrev pub read_entry : Value → Option Fields
  read_entry entry = if str_eq (entry_text entry) "" then none else decode (entry_text entry)

  -- The loop over the entries under `additional`.
  unfoldable pub parse_blocks : Fields → List (String × Fields)
  parse_blocks end = []
  parse_blocks (field name entry rest) = note_block name (read_entry entry) (parse_blocks rest)

  unfoldable pub additional : Fields → String → List (String × Fields)
  additional values component =
      parse_blocks (fields_of (get (component ∷ "additional" ∷ []) (object values)))

  -- The first block of another name that sets the key.
  unfoldable pub elsewhere : List String → List (String × Fields) → Option (Value × String)
  elsewhere key [] = none
  elsewhere key ((name, doc) ∷ blocks) =
      let rest = elsewhere key blocks in
      if str_eq name block
      then rest
      else elim (get key (object doc)) [ some v ↦ some (v, name) | none ↦ rest ]

  abbrev pub fallback : Field → FieldValue
  fallback f = record { value = f.default; is_default = true; set_elsewhere = "" }

  abbrev pub read_value : Field → Option Value → FieldValue
  read_value f none = fallback f
  read_value f (some v) =
      if is_null v
      then fallback f
      else record { value = v; is_default = is_the_default f v; set_elsewhere = "" }

  abbrev pub or_default : Field → Option Value → FieldValue
  or_default f none = fallback f
  or_default f (some v) = record { value = v; is_default = false; set_elsewhere = "" }

  abbrev pub get_from : List String → Option Fields → Option Value
  get_from key none = none
  get_from key (some doc) = get key (object doc)

  abbrev pub read_key : Field → Option (Value × String) → Option Fields → FieldValue
  read_key f (some (v, name)) own = record { value = v; is_default = false; set_elsewhere = name }
  read_key f none own = or_default f (get_from (split_dots f.source.key) own)

  unfoldable pub read_field : Fields → Field → FieldValue
  read_field values f =
      if str_eq f.source.values ""
      then (let blocks = additional values f.source.component in
          read_key f (elsewhere (split_dots f.source.key) (stable_sort by_block_name blocks))
            (lookup block blocks))
      else read_value f (get (split_dots f.source.values) (object values))

  -- `Read`: the value of each field under its id.
  unfoldable pub read_all : Fields → List Field → List (String × FieldValue)
  read_all values [] = []
  read_all values (f ∷ fields) = (f.id, read_field values f) ∷ read_all values fields
