-- ===== src/Rtc/CallPath.antt =====
-- `TURNFromConfig`, `asStrings` and `AssessCallPaths` of internal/rtc/callpath.go. What the YAML
-- library decodes of a file is a parameter: an error, or what stands under `turn_uris`, if anything.
use matrixctrl.Common.{
  String, Bool, true, false, Option, none, some, List, [], ◌∷◌, str_eq, if◌then◌else◌,
}
use matrixctrl.Common.Bytes.{Bytes, less}
use matrixctrl.Common.Sort.{stable_sort}

pub data TurnStatus : Type 0 where
  turn_present turn_absent turn_unknown : TurnStatus

pub record CallPaths : Type 0 where
  pub element_call : Bool
  pub turn : TurnStatus
  pub turn_uris : List String

-- A value of a document, as far as it is told apart.
pub data Item : Type 0 where
  text : String → Item
  no_text : Item

pub data Value : Type 0 where
  sequence : List Item → Value
  scalar : String → Value
  no_uris : Value

unfoldable pub texts : List Item → List String
texts [] = []
texts (no_text ∷ items) = texts items
texts (text s ∷ items) = if str_eq s "" then texts items else s ∷ texts items

abbrev pub as_strings : Value → List String
as_strings (sequence items) = texts items
as_strings (scalar s) = if str_eq s "" then [] else s ∷ []
as_strings no_uris = []

-- The variables of the loop.
pub record Turn : Type 0 where
  pub status : TurnStatus
  pub uris : List String
  pub parsed_any : Bool

abbrev pub not_read : Turn
not_read = record { status = turn_absent; uris = []; parsed_any = false }

abbrev pub status_of : List String → TurnStatus
status_of [] = turn_absent
status_of (u ∷ uris) = turn_present

-- A file that cannot be parsed is passed over, and so is one without the key.
abbrev pub note_file : Option (Option Value) → Turn → Turn
note_file none t = t
note_file (some none) t = record { status = t.status; uris = t.uris; parsed_any = true }
note_file (some (some raw)) t = record {
  status = status_of (as_strings raw);
  uris = as_strings raw;
  parsed_any = true;
}

abbrev pub by_file_name : Bytes × String → Bytes × String → Bool
by_file_name (a, s) (b, t) = less a b

module _ (decode : String → Option (Option Value)) where
  unfoldable pub read_files : List (Bytes × String) → Turn → Turn
  read_files [] t = t
  read_files ((name, content) ∷ files) t = read_files files (note_file (decode content) t)

  abbrev pub told : Turn → TurnStatus × List String
  told t = if t.parsed_any then (t.status, t.uris) else (turn_unknown, [])

  -- The entries of the map in the order of their names.
  unfoldable pub turn_from_config : List (Bytes × String) → TurnStatus × List String
  turn_from_config [] = (turn_unknown, [])
  turn_from_config (f ∷ files) = told (read_files (stable_sort by_file_name (f ∷ files)) not_read)

pub data FindingLevel : Type 0 where
  level_ok level_warn level_unknown : FindingLevel

-- The level of the finding; its texts are fixed for each.
abbrev pub assess_call_paths : CallPaths → FindingLevel
assess_call_paths paths = elim paths.turn [
  | turn_present ↦ level_ok
  | turn_unknown ↦ level_unknown
  | turn_absent ↦ level_warn
]
