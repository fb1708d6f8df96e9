-- ===== src/Helm/Fresh.antt =====
-- What is read through the memo of internal/helm/cache.go, and which revision internal/helm/release_read.go picks.
use matrixctrl.Common.{
  ◌≡◌, refl, sym, subst, ap, ◌∙◌, ◌⊎◌, inl, inr, String, Bool, Bool-cases, and_left, and_right,
  true, Option, none, some, List, [], ◌∷◌, lookup, lookup-insert, lookup-delete, str_eq, eq_iff,
  ◌&&◌, ◌==◌, ==_iff,
}
use matrixctrl.Helm.Probe.{ReleaseIdentity, probe_newest_release}
use matrixctrl.Helm.Release.{
  Release, ReleaseInfo, to_release_info, MemoisedRelease, Memo, same_identity, if_same,
  memoised_release_info, store_release_info, invalidate_release, Cluster, get_release_uncached,
  decode_with, read_with, read_at, read_release,
}

-- What happens to the memo: releases are read, each at some moment of the cluster, or it is told to forget one.
pub data Event : Type 0 where
  reading : Cluster → String → Event
  forgetting : String → Event

abbrev pub after : List Event → Memo → Memo
after [] memo = memo
after (reading w name ∷ events) memo = after events ((read_release w name memo).1)
after (forgetting name ∷ events) memo = after events (invalidate_release name memo)

abbrev same_times : ReleaseIdentity → ReleaseIdentity → Bool
same_times a b = str_eq a.modified_at b.modified_at && str_eq a.secret_name b.secret_name

abbrev same_texts : ReleaseIdentity → ReleaseIdentity → Bool
same_texts a b = str_eq a.status b.status && same_times a b

same_identity_lem : (a b : ReleaseIdentity) → same_identity a b ≡ true → a ≡ b
same_identity_lem a b h =
    let r0 =
      (==_iff a.revision b.revision).0 (and_left (a.revision == b.revision) (same_texts a b) h) in
    let h1 = and_right (a.revision == b.revision) (same_texts a b) h in
    let r1 =
      (eq_iff a.status b.status).0 (and_left (str_eq a.status b.status) (same_times a b) h1) in
    let h2 = and_right (str_eq a.status b.status) (same_times a b) h1 in
    let r2 =
      (eq_iff a.modified_at b.modified_at).0
        (and_left (str_eq a.modified_at b.modified_at) (str_eq a.secret_name b.secret_name) h2) in
    let r3 =
      (eq_iff a.secret_name b.secret_name).0
        (and_right (str_eq a.modified_at b.modified_at) (str_eq a.secret_name b.secret_name) h2) in
    λ i. record { revision = r0 i; status = r1 i; modified_at = r2 i; secret_name = r3 i }

-- `truth` has the release that is behind an identity.
module _ (truth : String → ReleaseIdentity → Release) where
  -- Where the storage has the revision that the labels tell of, it is that release.
  unfoldable pub IsTruthful : Cluster → Type 0
  IsTruthful w =
      (name : String) (id : ReleaseIdentity) (r : Release)
      → probe_newest_release (w.listing name) ≡ inr id
      → w.get_revision name id.revision ≡ inr r
      → r ≡ truth name id

  abbrev pub AreTruthful : List Event → Type 0
  AreTruthful [] = Unit {0}
  AreTruthful (reading w name ∷ events) = IsTruthful w × AreTruthful events
  AreTruthful (forgetting name ∷ events) = AreTruthful events

  IsRight : Memo → Type 0
  IsRight memo =
      (name : String) (entry : MemoisedRelease)
      → lookup name memo ≡ some entry
      → entry.info ≡ to_release_info (truth name entry.identity)

  -- An answer: of the newest revision, as it is; or, where that cannot be told or not be decoded, Helm's own.
  unfoldable pub IsFresh : Cluster → String → String ⊎ ReleaseInfo → Type 0
  IsFresh w name answer =
      ((id : ReleaseIdentity) × (probe_newest_release (w.listing name) ≡ inr id)
        × (answer ≡ inr (to_release_info (truth name id))))
      ⊎ (answer ≡ get_release_uncached w name)
        × (((e : String) × (probe_newest_release (w.listing name) ≡ inl e))
            ⊎ ((id : ReleaseIdentity) × (e : String) × (probe_newest_release (w.listing name)
                  ≡ inr id)
                × (w.get_revision name id.revision ≡ inl e)))

  if_same-info :
      (name : String) (id : ReleaseIdentity) (memo : Memo) (entry : Option MemoisedRelease)
      (info : ReleaseInfo)
      → IsRight memo
      → lookup name memo ≡ entry
      → if_same id entry ≡ some info
      → info ≡ to_release_info (truth name id)
  unfolding IsRight
  if_same-info name id memo none info r l h = cc h
  if_same-info name id memo (some entry) info r l h =
      elim (Bool-cases (same_identity entry.identity id)) [
        | inr e ↦ cc (rw e at h)
        | inl e ↦
            let same : entry.info ≡ info = cc (rw e at h) in
            sym same
            ∙ r name entry l
            ∙ ap (λ x. to_release_info (truth name x)) (same_identity_lem entry.identity id e)
      ]

  store-IsRight :
      (name : String) (id : ReleaseIdentity) (memo : Memo)
      → IsRight memo
      → IsRight (store_release_info name id (to_release_info (truth name id)) memo)
  unfolding IsRight store_release_info
  store-IsRight name id memo r other entry l =
      let value : MemoisedRelease = record {
        identity = id;
        info = to_release_info (truth name id);
      } in
      let q = sym (lookup-insert name other value memo) ∙ l in
      elim (Bool-cases (str_eq name other)) [
        | inl e ↦
            let same : value ≡ entry = cc (rw e at q) in
            subst (λ x. x.info ≡ to_release_info (truth other x.identity)) same
              (ap (λ n. to_release_info (truth n id)) ((eq_iff name other).0 e))
        | inr e ↦ r other entry (rw e at q)
      ]

  invalidate-IsRight :
      (name : String) (memo : Memo) → IsRight memo → IsRight (invalidate_release name memo)
  unfolding IsRight invalidate_release
  invalidate-IsRight name memo r other entry l =
      let q = sym (lookup-delete name other memo) ∙ l in
      elim (Bool-cases (str_eq name other)) [
        | inl e ↦ cc (rw e at q)
        | inr e ↦ r other entry (rw e at q)
      ]

  -- One reading: its answer, and the memo after it.
  IsGoodReading : Cluster → String → (String ⊎ ReleaseInfo) × Memo → Type 0
  IsGoodReading w name (answer, memo) = IsFresh w name answer × IsRight memo

  decode_with-IsGoodReading :
      (w : Cluster) (name : String) (id : ReleaseIdentity) (memo : Memo) (got : String ⊎ Release)
      → IsTruthful w
      → IsRight memo
      → probe_newest_release (w.listing name) ≡ inr id
      → w.get_revision name id.revision ≡ got
      → IsGoodReading w name (decode_with w name id got memo)
  unfolding IsGoodReading IsFresh IsTruthful
  decode_with-IsGoodReading w name id memo (inl e) t r p g = (inr (refl, inr (id, e, p, g)), r)
  decode_with-IsGoodReading w name id memo (inr x) t r p g =
      let same = t name id x p g in
      (
        inl (id, p, ap (λ y. inr (to_release_info y)) same),
        subst (λ y. IsRight (store_release_info name id (to_release_info y) memo)) (sym same)
            (store-IsRight name id memo r),
      )

  read_with-IsGoodReading :
      (w : Cluster) (name : String) (id : ReleaseIdentity) (memo : Memo) (kept : Option ReleaseInfo)
      → IsTruthful w
      → IsRight memo
      → probe_newest_release (w.listing name) ≡ inr id
      → memoised_release_info name id memo ≡ kept
      → IsGoodReading w name (read_with w name id kept memo)
  unfolding IsGoodReading IsFresh memoised_release_info
  read_with-IsGoodReading w name id memo none t r p k =
      decode_with-IsGoodReading w name id memo (w.get_revision name id.revision) t r p refl
  read_with-IsGoodReading w name id memo (some info) t r p k =
      (inl (id, p, ap inr (if_same-info name id memo (lookup name memo) info r refl k)), r)

  read_at-IsGoodReading :
      (w : Cluster) (name : String) (memo : Memo) (probed : String ⊎ ReleaseIdentity)
      → IsTruthful w
      → IsRight memo
      → probe_newest_release (w.listing name) ≡ probed
      → IsGoodReading w name (read_at w name probed memo)
  unfolding IsGoodReading IsFresh
  read_at-IsGoodReading w name memo (inl e) t r p = (inr (refl, inl (e, p)), r)
  read_at-IsGoodReading w name memo (inr id) t r p =
      read_with-IsGoodReading w name id memo (memoised_release_info name id memo) t r p refl

  read_release-IsGoodReading :
      (w : Cluster) (name : String) (memo : Memo)
      → IsTruthful w
      → IsRight memo
      → IsGoodReading w name (read_release w name memo)
  unfolding read_release
  read_release-IsGoodReading w name memo t r =
      read_at-IsGoodReading w name memo (probe_newest_release (w.listing name)) t r refl

  after-IsRight :
      (events : List Event) (memo : Memo)
      → AreTruthful events
      → IsRight memo
      → IsRight (after events memo)
  unfolding IsGoodReading
  after-IsRight [] memo t r = r
  after-IsRight (reading w name ∷ events) memo t r =
      after-IsRight events ((read_release w name memo).1) (t.1)
        ((read_release-IsGoodReading w name memo (t.0) r).1)
  after-IsRight (forgetting name ∷ events) memo t r =
      after-IsRight events (invalidate_release name memo) t (invalidate-IsRight name memo r)

  nil-IsRight : IsRight []
  unfolding IsRight lookup
  nil-IsRight name entry l = cc l

  -- Whatever was read and forgotten before: as long as an identity has always one release behind it, a
  -- reading answers with the newest revision as it is; and where that cannot be told or not be
  -- decoded, as Helm's own reading of the whole history does.
  pub read_release-IsFresh :
      (events : List Event) (w : Cluster) (name : String)
      → AreTruthful events
      → IsTruthful w
      → IsFresh w name (read_release w name (after events [])).0
  unfolding IsGoodReading
  read_release-IsFresh events w name t u =
      (read_release-IsGoodReading w name (after events []) u
        (after-IsRight events [] t nil-IsRight)).0
