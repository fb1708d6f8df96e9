-- ===== src/Rtc/Override.antt =====
-- Which file decides about the relay in internal/rtc/callpath.go.
use matrixctrl.Common.{
  String, ◌≡◌, refl, arith, ap, ◌∙◌, Bool, true, false, Option, none, some, List, [], ◌∷◌, ◌||◌,
  if◌then◌else◌,
}
use matrixctrl.Common.Bytes.{Bytes, less_antisym, less_negtrans}
use matrixctrl.Common.Sort.{stable_sort, IsOrdered, stable_sort-IsOrdered}
use matrixctrl.Rtc.CallPath.{
  TurnStatus, turn_absent, turn_unknown, Value, as_strings, Turn, not_read, status_of, note_file,
  by_file_name, read_files, told, turn_from_config,
}

-- The URIs that a file sets, if it can be parsed and has the key.
abbrev pub sets : Option (Option Value) → Option (List String)
sets none = none
sets (some none) = none
sets (some (some raw)) = some (as_strings raw)

abbrev pub parses : Option (Option Value) → Bool
parses none = false
parses (some v) = true

abbrev pub later : Option (List String) → Option (List String) → Option (List String)
later (some uris) earlier = some uris
later none earlier = earlier

abbrev pub uris_or : Option (List String) → List String → List String
uris_or (some uris) before = uris
uris_or none before = before

abbrev pub status_or : Option (List String) → TurnStatus → TurnStatus
status_or (some uris) before = status_of uris
status_or none before = before

module _ (decode : String → Option (Option Value)) where
  -- What the last of the files sets that sets any.
  abbrev pub last_set : List (Bytes × String) → Option (List String)
  last_set [] = none
  last_set ((name, content) ∷ files) = later (last_set files) (sets (decode content))

  abbrev pub any_parses : List (Bytes × String) → Bool
  any_parses [] = false
  any_parses ((name, content) ∷ files) = parses (decode content) || any_parses files

  abbrev Reads : List (Bytes × String) → Turn → Turn → Type 0
  Reads files t u =
      (u.status ≡ status_or (last_set files) t.status)
      × (u.uris ≡ uris_or (last_set files) t.uris)
      × (u.parsed_any ≡ (t.parsed_any || any_parses files))

  or_true : (b : Bool) → true ≡ (b || true)
  or_true true = refl
  or_true false = refl

  add_file :
      (d : Option (Option Value)) (later_set : Option (List String)) (parsed : Bool) (t u : Turn)
      → (u.status ≡ status_or later_set (note_file d t).status)
        × (u.uris ≡ uris_or later_set (note_file d t).uris)
        × (u.parsed_any ≡ ((note_file d t).parsed_any || parsed))
      → (u.status ≡ status_or (later later_set (sets d)) t.status)
        × (u.uris ≡ uris_or (later later_set (sets d)) t.uris)
        × (u.parsed_any ≡ (t.parsed_any || (parses d || parsed)))
  add_file none (some l) parsed t u h = h
  add_file none none parsed t u h = h
  add_file (some none) (some l) parsed t u h = (h.0, h.1, h.2 ∙ or_true t.parsed_any)
  add_file (some none) none parsed t u h = (h.0, h.1, h.2 ∙ or_true t.parsed_any)
  add_file (some (some raw)) (some l) parsed t u h = (h.0, h.1, h.2 ∙ or_true t.parsed_any)
  add_file (some (some raw)) none parsed t u h = (h.0, h.1, h.2 ∙ or_true t.parsed_any)

  told-Reads :
      (files : List (Bytes × String)) (t u : Turn)
      → t.parsed_any ≡ false
      → Reads files t u
      → told decode u ≡ (
          if any_parses files
          then (status_or (last_set files) t.status, uris_or (last_set files) t.uris)
          else (turn_unknown, []))
  told-Reads files t u n (s, us, p) =
      ap (λ b. if b then (u.status, u.uris) else (turn_unknown, []))
        (p ∙ ap (λ b. b || any_parses files) n)
      ∙ (λ i. if any_parses files then (s i, us i) else (turn_unknown, []))

  read_files-Reads :
      (files : List (Bytes × String)) (t : Turn) → Reads files t (read_files decode files t)
  unfolding read_files
  read_files-Reads [] t = (refl, refl, ground arith)
  read_files-Reads ((name, content) ∷ files) t =
      add_file (decode content) (last_set files) (any_parses files) t
        (read_files decode files (note_file (decode content) t))
        (read_files-Reads files (note_file (decode content) t))

  -- The files are read in the order of their names. If one of them can be parsed, what the last of
  -- them sets that can be parsed and has the key is what is told, or that there is no relay if none
  -- does; and else that nothing is known.
  pub turn_from_config_lem :
      (files : List (Bytes × String))
      → let sorted = stable_sort by_file_name files in
        IsOrdered by_file_name sorted
        × (turn_from_config decode files ≡ (
            if any_parses sorted
            then (status_or (last_set sorted) turn_absent, uris_or (last_set sorted) [])
            else (turn_unknown, [])))
  unfolding turn_from_config stable_sort
  turn_from_config_lem [] = (tt, refl)
  turn_from_config_lem (f ∷ files) =
      let sorted = stable_sort by_file_name (f ∷ files) in
      (
        stable_sort-IsOrdered by_file_name (λ x y. less_antisym x.0 y.0)
            (λ x y z. less_negtrans x.0 y.0 z.0) (f ∷ files),
        told-Reads sorted not_read (read_files decode sorted not_read) refl
            (read_files-Reads sorted not_read),
      )
