-- ===== src/Config/Migrate/Kept.antt =====
-- Where the sections go when they are divided into files (internal/config/migrate.go).
use Prim.Native.String.{◌++◌ as append}
use matrixctrl.Common.{
  ◌≡◌, refl, ap, sym, ◌∙◌, String, true, false, Bool-cases, Option, none, some, List, [], ◌∷◌, ◌⊎◌,
  inl, inr, All, str_eq, str_eq_self, has_text, insert, lookup, lookup-insert,
}
use matrixctrl.Config.Nodes.{Pairs, no_pairs, pair}
use matrixctrl.Config.Store.{general_keys}
use matrixctrl.Config.Migrate.{Parts, append_pairs, and_then, add_file, place_doc, place_docs}

append_pairs_assoc :
    (l m n : Pairs) → append_pairs (append_pairs l m) n ≡ append_pairs l (append_pairs m n)
unfolding append_pairs
append_pairs_assoc no_pairs m n = refl
append_pairs_assoc (pair k v l) m n = ap (pair k v) (append_pairs_assoc l m n)

pub append_pairs-nil : (m : Pairs) → append_pairs m no_pairs ≡ m
unfolding append_pairs
append_pairs-nil no_pairs = refl
append_pairs-nil (pair k v m) = ap (pair k v) (append_pairs-nil m)

pub and_then-some :
    {A B : Type 0} (o : Option A) (f : A → Option B) (b : B)
    → and_then o f ≡ some b
    → (a : A) × (o ≡ some a) × (f a ≡ some b)
and_then-some none f b h = cc h
and_then-some (some a) f b h = (a, refl, h)

-- The document's pairs stand together in the mapping.
abbrev pub HasPart : Pairs → Pairs → Type 0
HasPart g d = (before : Pairs) × (after : Pairs) × (g ≡ append_pairs before (append_pairs d after))

-- The section goes to general.yaml, or not to the file `f`.
abbrev pub IsOtherSection : String → String × Pairs → Type 0
IsOtherSection f (key, d) =
    (has_text key general_keys ≡ true) ⊎ (str_eq (append key ".yaml") f ≡ false)

abbrev pub AreApart : List (String × Pairs) → Type 0
AreApart [] = Unit {0}
AreApart ((key, d) ∷ docs) = All (IsOtherSection (append key ".yaml")) docs × AreApart docs

pub add_file-some :
    (name : String) (o : Option String) (p q : Parts)
    → add_file name o p ≡ some q
    → (t : String) × (o ≡ some t)
      × (q ≡ record { files = insert name t p.files; general = p.general })
add_file-some name none p q h = cc h
add_file-some name (some t) p q h = (t, refl, cc h)

some-parts : (p q : Parts) → some p ≡ some q → q ≡ p
some-parts p q h = cc h

pub other_name :
    (f key : String) (d : Pairs)
    → IsOtherSection f (key, d)
    → has_text key general_keys ≡ false
    → str_eq (append key ".yaml") f ≡ false
other_name f key d (inl g) n = cc (g, n)
other_name f key d (inr s) n = s

module _ (marshal : Pairs → Option String) where
  place_doc-some :
      (key : String) (d : Pairs) (p q : Parts)
      → place_doc marshal key d p ≡ some q
      → ((has_text key general_keys ≡ true)
          × (q ≡ record { files = p.files; general = append_pairs p.general d }))
        ⊎ ((has_text key general_keys ≡ false)
            × ((t : String) × (marshal d ≡ some t)
                × (q ≡ record {
                  files = insert (append key ".yaml") t p.files;
                  general = p.general;
                })))
  place_doc-some key d p q h = elim (Bool-cases (has_text key general_keys)) [
    | inl g ↦ inl (g, some-parts _ q (rw g at h))
    | inr g ↦ inr (g, add_file-some (append key ".yaml") (marshal d) p q (rw g at h))
  ]

  place_doc-lookup :
      (f key : String) (d : Pairs) (p q : Parts)
      → IsOtherSection f (key, d)
      → place_doc marshal key d p ≡ some q
      → lookup f q.files ≡ lookup f p.files
  place_doc-lookup f key d p q s h = elim (place_doc-some key d p q h) [
    | inl g ↦ ap (λ r. lookup f r.files) (g.1)
    | inr g ↦
        ap (λ r. lookup f r.files) (g.1.2)
        ∙ lookup-insert (append key ".yaml") f (g.1.0) p.files
        ∙ rw (other_name f key d s (g.0)) refl
  ]

  place_doc-general :
      (key : String) (d : Pairs) (p q : Parts)
      → place_doc marshal key d p ≡ some q
      → (more : Pairs) × (q.general ≡ append_pairs p.general more)
  place_doc-general key d p q h = elim (place_doc-some key d p q h) [
    | inl g ↦ (d, ap (λ r. r.general) (g.1))
    | inr g ↦ (no_pairs, ap (λ r. r.general) (g.1.2) ∙ sym (append_pairs-nil p.general))
  ]

  place_docs-lookup :
      (f : String) (docs : List (String × Pairs)) (p q : Parts)
      → place_docs marshal docs p ≡ some q
      → All (IsOtherSection f) docs
      → lookup f q.files ≡ lookup f p.files
  unfolding place_docs
  place_docs-lookup f [] p q h a = ap (λ r. lookup f r.files) (some-parts p q h)
  place_docs-lookup f ((key, d) ∷ docs) p q h a =
      let one = and_then-some (place_doc marshal key d p) (λ r. place_docs marshal docs r) q h in
      place_docs-lookup f docs (one.0) q (one.2) (a.1)
      ∙ place_doc-lookup f key d p (one.0) (a.0) (one.1)

  place_docs-general :
      (docs : List (String × Pairs)) (p q : Parts)
      → place_docs marshal docs p ≡ some q
      → (rest : Pairs) × (q.general ≡ append_pairs p.general rest)
  unfolding place_docs
  place_docs-general [] p q h =
      (no_pairs, ap (λ r. r.general) (some-parts p q h) ∙ sym (append_pairs-nil p.general))
  place_docs-general ((key, d) ∷ docs) p q h =
      let one = and_then-some (place_doc marshal key d p) (λ r. place_docs marshal docs r) q h in
      let more = place_doc-general key d p (one.0) (one.1) in
      let rest = place_docs-general docs (one.0) q (one.2) in
      (
        append_pairs (more.0) (rest.0),
        rest.1
            ∙ ap (λ g. append_pairs g (rest.0)) (more.1)
            ∙ append_pairs_assoc p.general (more.0) (rest.0),
      )

  -- A section is part of general.yaml, or is a file of its own.
  abbrev pub IsPlaced : Parts → String × Pairs → Type 0
  IsPlaced q (key, d) =
      ((has_text key general_keys ≡ true) × HasPart q.general d)
      ⊎ ((has_text key general_keys ≡ false)
          × ((t : String) × (marshal d ≡ some t) × (lookup (append key ".yaml") q.files ≡ some t)))

  -- When the sections are divided, no two of them into a file of the same name, each stands whole in the
  -- mapping of general.yaml if its key is one of the general ones, and is else the file that is named
  -- after it.
  pub place_docs-IsPlaced :
      (docs : List (String × Pairs)) (p q : Parts)
      → place_docs marshal docs p ≡ some q
      → AreApart docs
      → All (IsPlaced q) docs
  unfolding place_docs
  place_docs-IsPlaced [] p q h a = tt
  place_docs-IsPlaced ((key, d) ∷ docs) p q h a =
      let one = and_then-some (place_doc marshal key d p) (λ r. place_docs marshal docs r) q h in
      let rest = place_docs-general docs (one.0) q (one.2) in
      (
        elim (place_doc-some key d p (one.0) (one.1)) [
          | inl g ↦ inl (
            g.0,
            (
              p.general,
              rest.0,
              rest.1
                  ∙ ap (λ r. append_pairs r.general (rest.0)) (g.1)
                  ∙ append_pairs_assoc p.general d (rest.0),
            ),
          )
          | inr g ↦ inr (
            g.0,
            (
              g.1.0,
              g.1.1,
              place_docs-lookup (append key ".yaml") docs (one.0) q (one.2) (a.0)
                  ∙ ap (λ r. lookup (append key ".yaml") r.files) (g.1.2)
                  ∙ lookup-insert (append key ".yaml") (append key ".yaml") (g.1.0) p.files
                  ∙ rw (str_eq_self (append key ".yaml")) refl,
            ),
          )
        ],
        place_docs-IsPlaced docs (one.0) q (one.2) (a.1),
      )
