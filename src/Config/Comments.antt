-- ===== src/Config/Comments.antt =====
-- `keepComments` of internal/config/keepcomments.go. A text is the list of its lines, as the
-- line-by-line comparison of the package diffmatchpatch leaves them; its result is a parameter.
use matrixctrl.Common.{
  ◌≡◌, ◌≢◌, refl, ap, sym, ◌∙◌, String, Bool, true, Bool-cases, inl, inr, List, [], ◌∷◌, ◌++◌, ◌&&◌,
  ◌||◌, str_eq, arith, if◌then◌else◌,
}
use mathlib.Core.List.{append-nil, append_assoc}
use matrixctrl.Common.Bytes.{ascii, has_prefix}

pub data Change : Type 0 where
  equal delete insert : Change

abbrev pub Diffs : Type 0
Diffs = List (Change × List String)

module _ (trim_space : String → String) where
  -- A line that is blank or a comment.
  abbrev pub is_comment : String → Bool
  is_comment l = str_eq (trim_space l) "" || has_prefix (ascii (trim_space l)) (ascii "#")

  unfoldable pub only_comments : List String → Bool
  only_comments [] = true
  only_comments (l ∷ ls) = is_comment l && only_comments ls

  abbrev pub flush : List String → List String → List String → List String
  flush out del ins = if only_comments del && only_comments ins then out ++ del else out ++ ins

  unfoldable pub restored : Diffs → List String → List String → List String → List String
  restored [] out del ins = flush out del ins
  restored ((equal, t) ∷ ds) out del ins = restored ds (flush out del ins ++ t) [] []
  restored ((delete, t) ∷ ds) out del ins = restored ds out (del ++ t) ins
  restored ((insert, t) ∷ ds) out del ins = restored ds out del (ins ++ t)

  unfoldable pub keep_comments : List String → List String → Diffs → List String
  keep_comments [] edited ds = edited
  keep_comments (l ∷ original) edited ds = restored ds [] [] []

  -- The lines that are neither blank nor comments.
  unfoldable pub settings : List String → List String
  settings [] = []
  settings (l ∷ ls) = let rest = settings ls in if is_comment l then rest else l ∷ rest

  -- The two texts that a comparison is of.
  unfoldable pub old_text : Diffs → List String
  old_text [] = []
  old_text ((insert, t) ∷ ds) = old_text ds
  old_text ((_, t) ∷ ds) = t ++ old_text ds

  unfoldable pub new_text : Diffs → List String
  new_text [] = []
  new_text ((delete, t) ∷ ds) = new_text ds
  new_text ((_, t) ∷ ds) = t ++ new_text ds

  settings-append : (xs ys : List String) → settings (xs ++ ys) ≡ settings xs ++ settings ys
  unfolding settings
  settings-append [] ys = refl
  settings-append (x ∷ xs) ys = elim (Bool-cases (is_comment x)) [
    | inl e ↦ rw e (settings-append xs ys)
    | inr e ↦ rw e (ap (λ zs. x ∷ zs) (settings-append xs ys))
  ]

  settings-only_comments : (xs : List String) → only_comments xs ≡ true → settings xs ≡ []
  unfolding settings only_comments
  settings-only_comments [] h = refl
  settings-only_comments (x ∷ xs) h = elim (Bool-cases (is_comment x)) [
    | inl e ↦ rw e (settings-only_comments xs (rw e at h))
    | inr e ↦ cc (rw e at h)
  ]

  settings-flush :
      (out del ins : List String) → settings (flush out del ins) ≡ settings out ++ settings ins
  settings-flush out del ins = elim (Bool-cases (only_comments del && only_comments ins)) [
    | inl e ↦ rw e (
        settings-append out del
        ∙ ap (λ s. settings out ++ s)
            (settings-only_comments del (ground arith)
              ∙ sym (settings-only_comments ins (ground arith))))
    | inr e ↦ rw e (settings-append out ins)
  ]

  settings-append_cong :
      (xs ys zs : List String)
      → settings xs ≡ settings ys
      → settings (xs ++ zs) ≡ settings (ys ++ zs)
  settings-append_cong xs ys zs h =
      settings-append xs zs ∙ ap (λ s. s ++ settings zs) h ∙ sym (settings-append ys zs)

  settings-restored :
      (ds : Diffs) (out del ins : List String)
      → settings (restored ds out del ins) ≡ settings ((out ++ ins) ++ new_text ds)
  unfolding restored new_text
  settings-restored [] out del ins =
      settings-flush out del ins
      ∙ sym (settings-append out ins)
      ∙ ap settings (sym (append-nil (out ++ ins)))
  settings-restored ((equal, t) ∷ ds) out del ins =
      settings-restored ds (flush out del ins ++ t) [] []
      ∙ ap settings (
          ap (λ s. s ++ new_text ds) (append-nil (flush out del ins ++ t))
          ∙ append_assoc (flush out del ins) t (new_text ds))
      ∙ settings-append_cong (flush out del ins) (out ++ ins) (t ++ new_text ds)
          (settings-flush out del ins ∙ sym (settings-append out ins))
  settings-restored ((delete, t) ∷ ds) out del ins = settings-restored ds out (del ++ t) ins
  settings-restored ((insert, t) ∷ ds) out del ins =
      settings-restored ds out del (ins ++ t)
      ∙ ap settings (
          ap (λ s. s ++ new_text ds) (sym (append_assoc out ins t))
          ∙ append_assoc (out ++ ins) t (new_text ds))

  -- Where the comparison is one of the edited text, the result has the lines of the edited text that are
  -- neither blank nor comments, in their order, whatever comments were put back.
  pub settings-keep_comments :
      (original edited : List String) (ds : Diffs)
      → new_text ds ≡ edited
      → settings (keep_comments original edited ds) ≡ settings edited
  unfolding keep_comments
  settings-keep_comments [] edited ds h = refl
  settings-keep_comments (l ∷ original) edited ds h = settings-restored ds [] [] [] ∙ ap settings h

  -- Only comments are taken away or put in.
  unfoldable pub moves_comments : Diffs → Bool
  moves_comments [] = true
  moves_comments ((equal, t) ∷ ds) = moves_comments ds
  moves_comments ((_, t) ∷ ds) = only_comments t && moves_comments ds

  only_comments-append :
      (xs ys : List String) → only_comments (xs ++ ys) ≡ (only_comments xs && only_comments ys)
  unfolding only_comments
  only_comments-append [] ys = refl
  only_comments-append (x ∷ xs) ys = ground (arith, only_comments-append xs ys)

  restored-old_text :
      (ds : Diffs) (out del ins : List String)
      → moves_comments ds ≡ true
      → only_comments del ≡ true
      → only_comments ins ≡ true
      → restored ds out del ins ≡ (out ++ del) ++ old_text ds
  unfolding restored moves_comments old_text only_comments
  restored-old_text [] out del ins h d i = rw (d, i) (sym (append-nil (out ++ del)))
  restored-old_text ((equal, t) ∷ ds) out del ins h d i =
      rw (d, i)
        (restored-old_text ds ((out ++ del) ++ t) [] [] h refl refl
          ∙ ap (λ s. s ++ old_text ds) (append-nil ((out ++ del) ++ t))
          ∙ append_assoc (out ++ del) t (old_text ds))
  restored-old_text ((delete, t) ∷ ds) out del ins h d i =
      restored-old_text ds out (del ++ t) ins (ground arith)
        (only_comments-append del t ∙ ground arith) i
      ∙ ap (λ s. s ++ old_text ds) (sym (append_assoc out del t))
      ∙ append_assoc (out ++ del) t (old_text ds)
  restored-old_text ((insert, t) ∷ ds) out del ins h d i =
      restored-old_text ds out del (ins ++ t) (ground arith) d
        (only_comments-append ins t ∙ ground arith)

  -- An edit that moves comments only leaves the original.
  pub keep_comments-moved :
      (original edited : List String) (ds : Diffs)
      → old_text ds ≡ original
      → moves_comments ds ≡ true
      → original ≢ []
      → keep_comments original edited ds ≡ original
  unfolding keep_comments only_comments
  keep_comments-moved [] edited ds h m n = absurd (n refl)
  keep_comments-moved (l ∷ original) edited ds h m n = restored-old_text ds [] [] [] m refl refl ∙ h
