-- ===== src/Helm/Probe.antt =====
-- `probeNewestRelease` and `revisionOf` of internal/helm/release_read.go.
use Prim.Native.Char.{code}
use matrixctrl.Common.{
  ℕ, String, Option, none, some, List, [], ◌∷◌, ◌⊎◌, inl, inr, str_eq, ◌&&◌, leb, ◌==◌,
  if◌then◌else◌,
}
use matrixctrl.ImagePin.Tags.{digits_from, atoi}

-- An integer that a label or a name tells. Of one below 0 the source asks no more than that it is.
pub data LabelNumber : Type 0 where
  below_zero : LabelNumber
  natural : ℕ → LabelNumber

abbrev negated : Option ℕ → Option LabelNumber
negated none = none
negated (some n) =
    if n == 0
    then some (natural 0)
    else (if leb n 9223372036854775808 then some below_zero else none)

abbrev as_natural : Option ℕ → Option LabelNumber
as_natural none = none
as_natural (some n) = some (natural n)

-- `strconv.Atoi`
unfoldable pub parse_int : String → Option LabelNumber
parse_int String.[] = none
parse_int (String.◌∷◌ c s) =
    if code c == b'-'
    then (if str_eq s "" then none else negated (digits_from 0 s))
    else as_natural (if code c == b'+' then atoi s else atoi (String.◌∷◌ c s))

-- What is behind the last ".v", if there is one.
unfoldable pub behind_last_v : String → Option String
behind_last_v String.[] = none
behind_last_v (String.◌∷◌ c String.[]) = none
behind_last_v (String.◌∷◌ c (String.◌∷◌ d s)) = elim (behind_last_v (String.◌∷◌ d s)) [
  | some rest ↦ some rest
  | none ↦ if code c == b'.' && code d == b'v' then some s else none
]

abbrev from_name : Option String → Option LabelNumber
from_name none = none
from_name (some rest) = parse_int rest

unfoldable pub revision_of : String → String → Option LabelNumber
revision_of secret_name version_label = elim (parse_int version_label) [
  | some n ↦ some n
  | none ↦ from_name (behind_last_v secret_name)
]

pub record ReleaseIdentity : Type 0 where
  pub revision : ℕ
  pub status : String
  pub modified_at : String
  pub secret_name : String

-- A secret's name and the labels that are read; a missing one is "".
pub record SecretItem : Type 0 where
  pub name : String
  pub version : String
  pub status : String
  pub modified_at : String

abbrev pub identity_of : ℕ → SecretItem → ReleaseIdentity
identity_of rev item = record {
  revision = rev;
  status = item.status;
  modified_at = item.modified_at;
  secret_name = item.name;
}

-- `none` is the revision -1 that the loop starts with.
abbrev pub better :
    Option LabelNumber → SecretItem → Option ReleaseIdentity → Option ReleaseIdentity
better none item best = best
better (some below_zero) item best = best
better (some (natural rev)) item none = some (identity_of rev item)
better (some (natural rev)) item (some best) =
    if leb rev best.revision then some best else some (identity_of rev item)

unfoldable pub newest_of : List SecretItem → Option ReleaseIdentity → Option ReleaseIdentity
newest_of [] best = best
newest_of (item ∷ items) best =
    newest_of items (better (revision_of item.name item.version) item best)

abbrev pub found_or_error : Option ReleaseIdentity → String ⊎ ReleaseIdentity
found_or_error none = inl "release: not found"
found_or_error (some best) = inr best

-- What the metadata client lists, if there is one.
unfoldable pub probe_newest_release : Option (String ⊎ List SecretItem) → String ⊎ ReleaseIdentity
probe_newest_release none = inl "no metadata client"
probe_newest_release (some (inl e)) = inl e
probe_newest_release (some (inr items)) = found_or_error (newest_of items none)
