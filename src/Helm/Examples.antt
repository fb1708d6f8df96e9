-- ===== src/Helm/Examples.antt =====
-- A release whose labels tell of two revisions, of which the newest is decoded once.
use matrixctrl.Common.{◌≡◌, refl, inl, inr, String, some, List, [], ◌∷◌, All, insert, lookup}
use matrixctrl.ImagePin.Tags.{digits_from}
use matrixctrl.Helm.Probe.{
  parse_int, revision_of, behind_last_v, ReleaseIdentity, SecretItem, newest_of,
  probe_newest_release,
}
use matrixctrl.Helm.Release.{
  Release, Cluster, to_release_info, memoised_release_info, store_release_info, read_release,
}
use matrixctrl.Helm.Fresh.{reading, after, IsTruthful, IsFresh, read_release-IsFresh}
use matrixctrl.Helm.Newest.{IsCovered, IsOneOf, probe_newest_release-greatest}

abbrev secret : String → String → SecretItem
secret name version = record {
  name = name;
  version = version;
  status = "deployed";
  modified_at = "1";
}

abbrev items : List SecretItem
items = secret "sh.helm.release.v1.ess.v9" "" ∷ secret "sh.helm.release.v1.ess.v10" "10" ∷ []

abbrev newest : ReleaseIdentity
newest = record {
  revision = 10;
  status = "deployed";
  modified_at = "1";
  secret_name = "sh.helm.release.v1.ess.v10";
}

abbrev release : Release
release = record {
  name = "ess";
  namespace = "ess";
  chart_name = "matrix-stack";
  chart_version = "26.8.0";
  version = 10;
  status = "deployed";
  last_deployed = 1;
}

abbrev cluster : Cluster
cluster = record {
  listing = λ name. some (inr items);
  get_revision = λ name rev. inr release;
  run = λ name. inl "timeout";
}

-- The storage cannot be reached any more.
abbrev broken : Cluster
broken = record {
  listing = λ name. some (inr items);
  get_revision = λ name rev. inl "timeout";
  run = λ name. inl "timeout";
}

abbrev truth : String → ReleaseIdentity → Release
truth name id = release

picked : probe_newest_release (some (inr items)) ≡ inr newest
unfolding probe_newest_release newest_of revision_of parse_int behind_last_v digits_from
picked = refl

cluster-IsTruthful : IsTruthful truth cluster
unfolding IsTruthful
cluster-IsTruthful name id r p g = cc g

broken-IsTruthful : IsTruthful truth broken
unfolding IsTruthful
broken-IsTruthful name id r p g = cc g

-- The second reading is answered from the memo.
remembered :
    (read_release broken "ess" (after (reading cluster "ess" ∷ []) [])).0
    ≡ inr (to_release_info release)
unfolding read_release memoised_release_info store_release_info insert lookup probe_newest_release
    newest_of revision_of parse_int behind_last_v digits_from
remembered = refl

read_release-IsFresh_example :
    IsFresh truth broken "ess" (read_release broken "ess" (after (reading cluster "ess" ∷ []) [])).0
read_release-IsFresh_example =
    read_release-IsFresh truth (reading cluster "ess" ∷ []) broken "ess" (cluster-IsTruthful, tt)
      broken-IsTruthful

probe_newest_release-greatest_example :
    IsOneOf newest items
    × All (λ item. IsCovered (revision_of item.name item.version) (some newest)) items
probe_newest_release-greatest_example = probe_newest_release-greatest items newest picked
