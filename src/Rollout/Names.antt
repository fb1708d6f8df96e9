-- ===== src/Rollout/Names.antt =====
-- What the shortened texts of internal/rollout/rollout.go keep, and how long they get.
use matrixctrl.Common.{
  ℕ, zero, suc, ◌≤◌, ◌≡◌, ◌≢◌, ◌↔◌, refl, ap, sym, ◌∙◌, Bool-cases, inl, inr, true, false, List, [],
  ◌∷◌, ◌++◌, map, All, length, length-append, length-take, take, ltb, ◌==◌, arith,
}
use matrixctrl.Common.Bytes.{Bytes, ascii, join, split, join-split}
use mathlib.Core.List.{append-nil, append_assoc}
use matrixctrl.Rollout.Pods.{Blocker}
use matrixctrl.Rollout.Text.{
  looks_like_hash, last_part, but_last, drop_hashes, short_pod, cut, ellipsis, gather, summarise,
  line_of, describe, mid_dot,
}

but_last-append :
    (t : Bytes) (rest : List Bytes) → but_last t rest ++ last_part t rest ∷ [] ≡ t ∷ rest
but_last-append t [] = refl
but_last-append t (u ∷ rest) = ap (λ l. t ∷ l) (but_last-append u rest)

-- At most `n` segments are dropped, all of them look like hashes, and one is kept.
abbrev Dropped : ℕ → List Bytes → List Bytes → Type 0
Dropped n parts kept =
    (gone : List Bytes) × (parts ≡ kept ++ gone)
    × All (λ s. looks_like_hash s ≡ true) gone
    × (length gone ≤ n)

All-append_one :
    (gone : List Bytes) (s : Bytes)
    → All (λ s. looks_like_hash s ≡ true) gone
    → looks_like_hash s ≡ true
    → All (λ s. looks_like_hash s ≡ true) (gone ++ s ∷ [])
All-append_one [] s a h = (h, tt)
All-append_one (t ∷ gone) s (h, a) e = (h, All-append_one gone s a e)

drop_hashes-Dropped : (n : ℕ) (parts : List Bytes) → Dropped n parts (drop_hashes n parts)
unfolding drop_hashes
drop_hashes-Dropped zero parts = ([], sym (append-nil parts), tt, omega arith)
drop_hashes-Dropped (suc n) [] = ([], refl, tt, omega arith)
drop_hashes-Dropped (suc n) (s ∷ []) = ([], refl, tt, omega arith)
drop_hashes-Dropped (suc n) (s ∷ t ∷ rest) =
    elim (Bool-cases (looks_like_hash (last_part t rest))) [
      | inl h ↦
          let (gone, e, a, k) = drop_hashes-Dropped n (s ∷ but_last t rest) in
          rw (h, drop_hashes)
            (
              gone ++ last_part t rest ∷ [],
              ap (λ l. s ∷ l) (sym (but_last-append t rest))
                  ∙ ap (λ l. l ++ last_part t rest ∷ []) e
                  ∙ append_assoc _ gone (last_part t rest ∷ []),
              All-append_one gone (last_part t rest) a h,
              omega (arith, k, length-append {0} gone (last_part t rest ∷ [])),
            )
      | inr h ↦ rw (h, drop_hashes) ([], sym (append-nil (s ∷ t ∷ rest)), tt, omega arith)
    ]

-- A pod's name is its dash-separated segments: the short name joins all of them but at most two at
-- the end, each of which looks like a generated hash.
pub short_pod-Dropped :
    (name : Bytes)
    → (kept gone : List Bytes) × (join (ascii "-") (kept ++ gone) ≡ name)
      × (short_pod name ≡ join (ascii "-") kept)
      × All (λ s. looks_like_hash s ≡ true) gone
      × (length gone ≤ 2)
unfolding short_pod
short_pod-Dropped name =
    let (gone, e, a, k) = drop_hashes-Dropped 2 (split b'-' name) in
    (
      drop_hashes 2 (split b'-' name),
      gone,
      ap (join (ascii "-")) (sym e) ∙ join-split b'-' name,
      refl,
      a,
      k,
    )

suc-ne-zero : (n : ℕ) → (suc n == 0) ≡ false
suc-ne-zero n = ground arith

append_cons-ne-nil : (xs : Bytes) (y : ℕ) (ys : Bytes) → xs ++ y ∷ ys ≢ []
append_cons-ne-nil [] y ys h = cc
append_cons-ne-nil (x ∷ xs) y ys h = cc

append-ne-nil_left : (xs ys : Bytes) → xs ≢ [] → xs ++ ys ≢ []
append-ne-nil_left [] ys n h = n refl
append-ne-nil_left (x ∷ xs) ys n h = cc

module _ (trim_space : Bytes → Bytes) (decimal : ℕ → Bytes) where
  -- A summary has at most 200 bytes of the text, and the three of the ellipsis.
  pub length-summarise : (s : Bytes) → length (summarise trim_space decimal s) ≤ 203
  unfolding summarise cut
  length-summarise s = elim (Bool-cases (ltb 200 (length out))) [
    | inl long ↦
        rw long (omega (arith, length-append {0} (take 200 out) ellipsis, length-take {0} 200 out))
    | inr short ↦ rw short (ground arith)
  ]
    where
      out : Bytes
      out = join (ascii ": ") (gather trim_space decimal (split 10 s) [])

  line_of-ne-nil : (b : Blocker) → line_of trim_space decimal b ≢ []
  line_of-ne-nil b = append_cons-ne-nil (short_pod b.pod) 32 _

  lines-ne-nil :
      (b : Blocker) (bs : List Blocker)
      → join mid_dot (map (line_of trim_space decimal) (b ∷ bs)) ≢ []
  unfolding join
  lines-ne-nil b [] = line_of-ne-nil b
  lines-ne-nil b (c ∷ bs) = append-ne-nil_left _ _ (line_of-ne-nil b)

  -- Nothing is said exactly where nothing is failing and nothing is starting.
  pub describe-eq-nil :
      (bs : List Blocker) (starting : ℕ)
      → (describe trim_space decimal bs starting ≡ []) ↔ ((bs ≡ []) × (starting ≡ 0))
  unfolding describe
  describe-eq-nil [] zero = (λ h. (refl, refl), λ h. refl)
  describe-eq-nil [] (suc n) = (
    λ h. absurd (append_cons-ne-nil (decimal (suc n)) 32 _ (rw (suc-ne-zero n) at h)),
    λ h. absurd (omega (arith, h.1)),
  )
  describe-eq-nil (b ∷ bs) starting =
      (λ h. absurd (append-ne-nil_left _ _ (lines-ne-nil b bs) h), λ h. cc h.0)
