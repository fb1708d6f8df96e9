-- ===== src/Drift/Covered.antt =====
-- What a covered patch is, for internal/drift/hookcover.go, apart from the loops that find it out.
use matrixctrl.Common.{
  String, Bool, Bool-cases, true, false, Option, List, [], ◌∷◌, ◌++◌, ◌⊎◌, inl, inr, ◌≡◌, ◌↔◌, refl,
  All, arith,
}
use matrixctrl.Common.Bytes.{Bytes}
use matrixctrl.Common.Dots.{is_cons}
use matrixctrl.Common.Sort.{place, stable_sort}
use matrixctrl.Common.Tree.{Value, Fields}
use matrixctrl.Hooks.Engine.{HookAction}
use matrixctrl.Hooks.Coverage.{PatchOp}
use matrixctrl.Drift.Check.{text_before}
use matrixctrl.Drift.Chart.{manifest_object, carries, missing_in, is_none_missing, patch_covered}
use matrixctrl.Drift.HookCover.{is_covered_by, entry_of}

is_none_missing-place :
    (before : String → String → Bool) (x : String) (xs : List String)
    → is_none_missing (place before x xs) ≡ false
unfolding place
is_none_missing-place before x [] = refl
is_none_missing-place before x (y ∷ ys) = ground arith

is_none_missing-stable_sort :
    (before : String → String → Bool) (xs : List String)
    → is_none_missing (stable_sort before xs) ≡ is_none_missing xs
unfolding stable_sort
is_none_missing-stable_sort before [] = refl
is_none_missing-stable_sort before (x ∷ xs) = is_none_missing-place before x (stable_sort before xs)

never : (false ≡ true) ↔ ⊥
never = (λ h. cc h, λ h. absurd h)

module _ {Q : Type 0} (sprint : Value → String) (parse_quantity : String → Option Q)
    (same_amount : Q → Q → Bool) (decode_yaml : Bytes → Option Fields)
    (equal_fold : String → String → Bool) (quote : String → String)
    (decode_ops : String → String ⊎ List PatchOp) (decode_map : String → String ⊎ Fields) where
  abbrev chart_object : Bytes → HookAction → Option Fields
  chart_object m a =
      manifest_object sprint parse_quantity same_amount decode_yaml equal_fold m a.resource a.name

  abbrev chart_carries : Option Fields → String → Value → Bool
  chart_carries obj path want =
      carries sprint parse_quantity same_amount decode_yaml equal_fold obj path want

  abbrev chart_missing : Option Fields → List (String × Value) → List String
  chart_missing obj sets =
      missing_in sprint parse_quantity same_amount decode_yaml equal_fold obj sets

  -- The object has each value at its path.
  abbrev pub AreCarried : Option Fields → List (String × Value) → Type 0
  AreCarried obj sets = All (λ s. chart_carries obj (s.0) (s.1) ≡ true) sets

  AreCarried-missing :
      (obj : Option Fields) (sets : List (String × Value))
      → (is_none_missing (chart_missing obj sets) ≡ true) ↔ AreCarried obj sets
  unfolding missing_in
  AreCarried-missing obj [] = (λ h. tt, λ h. refl)
  AreCarried-missing obj ((p, v) ∷ sets) = elim (Bool-cases (chart_carries obj p v)) [
    | inl e ↦ (
      λ h. (e, (AreCarried-missing obj sets).0 (rw e at h)),
      λ h. rw e ((AreCarried-missing obj sets).1 (h.1)),
    )
    | inr e ↦ (λ h. cc (rw e at h), λ h. cc (e, h.0))
  ]

  -- What a covered patch is: it sets something, there is a manifest, and its object has all that it sets.
  abbrev pub IsCoveredPatch : String ⊎ Bytes → HookAction → String ⊎ List (String × Value) → Type 0
  IsCoveredPatch manifest a (inl e) = ⊥
  IsCoveredPatch manifest a (inr []) = ⊥
  IsCoveredPatch (inl e) a (inr (s ∷ sets)) = ⊥
  IsCoveredPatch (inr []) a (inr (s ∷ sets)) = ⊥
  IsCoveredPatch (inr (b ∷ m)) a (inr (s ∷ sets)) = AreCarried (chart_object (b ∷ m) a) (s ∷ sets)

  pub is_covered_by-IsCoveredPatch :
      (manifest : String ⊎ Bytes) (a : HookAction) (r : String ⊎ List (String × Value))
      → (is_covered_by sprint parse_quantity same_amount decode_yaml equal_fold quote decode_ops
            decode_map manifest a r
          ≡ true)
        ↔ IsCoveredPatch manifest a r
  unfolding patch_covered
  is_covered_by-IsCoveredPatch manifest a (inl e) = never
  is_covered_by-IsCoveredPatch manifest a (inr []) = never
  is_covered_by-IsCoveredPatch (inl e) a (inr (s ∷ sets)) = never
  is_covered_by-IsCoveredPatch (inr []) a (inr (s ∷ sets)) = never
  is_covered_by-IsCoveredPatch (inr (b ∷ m)) a (inr (s ∷ sets)) =
      rw
        (is_none_missing-stable_sort text_before
          (chart_missing (chart_object (b ∷ m) a) (s ∷ sets)))
        (AreCarried-missing (chart_object (b ∷ m) a) (s ∷ sets))

  pub entry_of-is_cons :
      (manifest : String ⊎ Bytes) (a : HookAction) (r : String ⊎ List (String × Value))
      (covered : List String)
      → IsCoveredPatch manifest a r
      → is_cons (
          covered
          ++ entry_of sprint parse_quantity same_amount decode_yaml equal_fold quote decode_ops
              decode_map a r)
        ≡ true
  entry_of-is_cons manifest a (inl e) covered d = absurd d
  entry_of-is_cons manifest a (inr sets) [] d = refl
  entry_of-is_cons manifest a (inr sets) (c ∷ cs) d = refl
