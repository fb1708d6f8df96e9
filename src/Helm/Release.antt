-- ===== src/Helm/Release.antt =====
-- `GetRelease` of internal/helm/history.go with readRelease of release_read.go and the memo of cache.go.
-- A time is a number. The mutex of the memo makes each operation on it one step.
use Prim.Native.String.{◌++◌ as append}
use matrixctrl.Common.{
  ℕ, String, Bool, Option, none, some, List, ◌⊎◌, inl, inr, insert, delete, lookup, str_eq, ◌&&◌,
  ◌==◌, if◌then◌else◌,
}
use matrixctrl.Helm.Probe.{ReleaseIdentity, SecretItem, probe_newest_release}

-- What is read of Helm's release, whose chart and info are there.
pub record Release : Type 0 where
  pub name : String
  pub namespace : String
  pub chart_name : String
  pub chart_version : String
  pub version : ℕ
  pub status : String
  pub last_deployed : ℕ

pub record ReleaseInfo : Type 0 where
  pub name : String
  pub namespace : String
  pub chart_version : String
  pub version : String
  pub revision : ℕ
  pub status : String
  pub deployed_at : ℕ

unfoldable pub to_release_info : Release → ReleaseInfo
to_release_info r = record {
  name = r.name;
  namespace = r.namespace;
  chart_version = append r.chart_name (append "-" r.chart_version);
  version = r.chart_version;
  revision = r.version;
  status = r.status;
  deployed_at = r.last_deployed;
}

pub record MemoisedRelease : Type 0 where
  pub identity : ReleaseIdentity
  pub info : ReleaseInfo

abbrev pub Memo : Type 0
Memo = List (String × MemoisedRelease)

abbrev pub same_identity : ReleaseIdentity → ReleaseIdentity → Bool
same_identity a b =
    (a.revision == b.revision)
    && (str_eq a.status b.status
        && (str_eq a.modified_at b.modified_at && str_eq a.secret_name b.secret_name))

abbrev pub if_same : ReleaseIdentity → Option MemoisedRelease → Option ReleaseInfo
if_same id none = none
if_same id (some entry) = if same_identity entry.identity id then some entry.info else none

unfoldable pub memoised_release_info : String → ReleaseIdentity → Memo → Option ReleaseInfo
memoised_release_info name id memo = if_same id (lookup name memo)

unfoldable pub store_release_info : String → ReleaseIdentity → ReleaseInfo → Memo → Memo
store_release_info name id info memo = insert name (record { identity = id; info = info }) memo

unfoldable pub invalidate_release : String → Memo → Memo
invalidate_release name memo = delete name memo

-- What the cluster answers at some moment: to the listing of a release's secrets, to Helm's storage for one
-- revision, and to Helm's own reading of the whole history.
pub record Cluster : Type 0 where
  pub listing : String → Option (String ⊎ List SecretItem)
  pub get_revision : String → ℕ → String ⊎ Release
  pub run : String → String ⊎ Release

abbrev pub info_or_error : String → String ⊎ Release → String ⊎ ReleaseInfo
info_or_error name (inl e) = inl (append "get release " (append name (append ": " e)))
info_or_error name (inr r) = inr (to_release_info r)

abbrev pub get_release_uncached : Cluster → String → String ⊎ ReleaseInfo
get_release_uncached w name = info_or_error name (w.run name)

abbrev pub decode_with :
    Cluster → String → ReleaseIdentity → String ⊎ Release → Memo → (String ⊎ ReleaseInfo) × Memo
decode_with w name id (inl e) memo = (get_release_uncached w name, memo)
decode_with w name id (inr r) memo =
    (inr (to_release_info r), store_release_info name id (to_release_info r) memo)

abbrev pub read_with :
    Cluster → String → ReleaseIdentity → Option ReleaseInfo → Memo → (String ⊎ ReleaseInfo) × Memo
read_with w name id (some info) memo = (inr info, memo)
read_with w name id none memo = decode_with w name id (w.get_revision name id.revision) memo

abbrev pub read_at :
    Cluster → String → String ⊎ ReleaseIdentity → Memo → (String ⊎ ReleaseInfo) × Memo
read_at w name (inl e) memo = (get_release_uncached w name, memo)
read_at w name (inr id) memo = read_with w name id (memoised_release_info name id memo) memo

unfoldable pub read_release : Cluster → String → Memo → (String ⊎ ReleaseInfo) × Memo
read_release w name memo = read_at w name (probe_newest_release (w.listing name)) memo

abbrev pub get_release : Cluster → String → Memo → (String ⊎ ReleaseInfo) × Memo
get_release w name memo = read_release w name memo
