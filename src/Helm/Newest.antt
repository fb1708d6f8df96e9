-- ===== src/Helm/Newest.antt =====
-- Which revision `probeNewestRelease` of internal/helm/release_read.go picks.
use matrixctrl.Common.{
  ℕ, ◌≤◌, ◌≡◌, refl, subst, ◌⊎◌, inl, inr, Bool-cases, Option, none, some, List, [], ◌∷◌, All, leb,
  arith,
}
use matrixctrl.Helm.Probe.{
  LabelNumber, below_zero, natural, revision_of, ReleaseIdentity, SecretItem, identity_of, better,
  newest_of, found_or_error, probe_newest_release,
}

abbrev IsAtLeast : ℕ → Option ReleaseIdentity → Type 0
IsAtLeast n none = ⊥
IsAtLeast n (some r) = n ≤ r.revision

-- The revision is not below the one that a secret tells of, if it tells of one.
abbrev pub IsCovered : Option LabelNumber → Option ReleaseIdentity → Type 0
IsCovered none r = Unit {0}
IsCovered (some below_zero) r = Unit {0}
IsCovered (some (natural n)) r = IsAtLeast n r

-- The identity is that of one of the secrets.
abbrev pub IsOneOf : ReleaseIdentity → List SecretItem → Type 0
IsOneOf r [] = ⊥
IsOneOf r (item ∷ items) =
    ((revision_of item.name item.version ≡ some (natural r.revision))
      × (r ≡ identity_of r.revision item))
    ⊎ IsOneOf r items

better-IsAtLeast :
    (n : ℕ) (i : Option LabelNumber) (item : SecretItem) (best : Option ReleaseIdentity)
    → IsAtLeast n best
    → IsAtLeast n (better i item best)
better-IsAtLeast n none item best h = h
better-IsAtLeast n (some below_zero) item best h = h
better-IsAtLeast n (some (natural k)) item none h = absurd h
better-IsAtLeast n (some (natural k)) item (some b) h = elim (Bool-cases (leb k b.revision)) [
  | inl e ↦ rw e h
  | inr e ↦ rw e (ground arith)
]

better-IsCovered :
    (i : Option LabelNumber) (item : SecretItem) (best : Option ReleaseIdentity)
    → IsCovered i (better i item best)
better-IsCovered none item best = tt
better-IsCovered (some below_zero) item best = tt
better-IsCovered (some (natural k)) item none = omega arith
better-IsCovered (some (natural k)) item (some b) = elim (Bool-cases (leb k b.revision)) [
  | inl e ↦ rw e (ground arith)
  | inr e ↦ rw e (omega arith)
]

newest_of-IsAtLeast :
    (n : ℕ) (items : List SecretItem) (best : Option ReleaseIdentity)
    → IsAtLeast n best
    → IsAtLeast n (newest_of items best)
unfolding newest_of
newest_of-IsAtLeast n [] best h = h
newest_of-IsAtLeast n (item ∷ items) best h =
    newest_of-IsAtLeast n items (better (revision_of item.name item.version) item best)
      (better-IsAtLeast n (revision_of item.name item.version) item best h)

newest_of-IsCovered :
    (i : Option LabelNumber) (items : List SecretItem) (best : Option ReleaseIdentity)
    → IsCovered i best
    → IsCovered i (newest_of items best)
newest_of-IsCovered none items best h = tt
newest_of-IsCovered (some below_zero) items best h = tt
newest_of-IsCovered (some (natural n)) items best h = newest_of-IsAtLeast n items best h

newest_of-All :
    (items : List SecretItem) (best : Option ReleaseIdentity)
    → All (λ item. IsCovered (revision_of item.name item.version) (newest_of items best)) items
unfolding newest_of
newest_of-All [] best = tt
newest_of-All (item ∷ items) best =
    let next = better (revision_of item.name item.version) item best in
    (
      newest_of-IsCovered (revision_of item.name item.version) items next
          (better-IsCovered (revision_of item.name item.version) item best),
      newest_of-All items next,
    )

better-cases :
    (i : Option LabelNumber) (item : SecretItem) (best : Option ReleaseIdentity)
    (r : ReleaseIdentity)
    → better i item best ≡ some r
    → (best ≡ some r) ⊎ ((i ≡ some (natural r.revision)) × (r ≡ identity_of r.revision item))
better-cases none item best r h = inl h
better-cases (some below_zero) item best r h = inl h
better-cases (some (natural k)) item none r h =
    let same : identity_of k item ≡ r = cc h in
    inr (
      subst
        (λ x. (some (natural k) ≡ some (natural x.revision)) × (x ≡ identity_of x.revision item))
        same (refl, refl))
better-cases (some (natural k)) item (some b) r h = elim (Bool-cases (leb k b.revision)) [
  | inl e ↦ inl (rw e at h)
  | inr e ↦
      let same : identity_of k item ≡ r = cc (rw e at h) in
      inr (
        subst
          (λ x. (some (natural k) ≡ some (natural x.revision)) × (x ≡ identity_of x.revision item))
          same (refl, refl))
]

newest_of-IsOneOf :
    (items : List SecretItem) (best : Option ReleaseIdentity) (r : ReleaseIdentity)
    → newest_of items best ≡ some r
    → (best ≡ some r) ⊎ IsOneOf r items
unfolding newest_of
newest_of-IsOneOf [] best r h = inl h
newest_of-IsOneOf (item ∷ items) best r h =
    elim (newest_of-IsOneOf items (better (revision_of item.name item.version) item best) r h) [
      | inr o ↦ inr (inr o)
      | inl e ↦ elim (better-cases (revision_of item.name item.version) item best r e) [
        | inl b ↦ inl b
        | inr o ↦ inr (inl o)
      ]
    ]

found-some :
    (o : Option ReleaseIdentity) (r : ReleaseIdentity) → found_or_error o ≡ inr r → o ≡ some r
found-some none r h = cc h
found-some (some b) r h = cc h

-- Where a revision is picked from a listing, it is that of one of its secrets, with what its labels tell,
-- and no secret tells of a higher one.
pub probe_newest_release-greatest :
    (items : List SecretItem) (r : ReleaseIdentity)
    → probe_newest_release (some (inr items)) ≡ inr r
    → IsOneOf r items × All (λ item. IsCovered (revision_of item.name item.version) (some r)) items
unfolding probe_newest_release
probe_newest_release-greatest items r h =
    let picked = found-some (newest_of items none) r h in
    (
      elim (newest_of-IsOneOf items none r picked) [ inl e ↦ cc e | inr o ↦ o ],
      subst (λ o. All (λ item. IsCovered (revision_of item.name item.version) o) items) picked
          (newest_of-All items none),
    )
