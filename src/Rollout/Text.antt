-- ===== src/Rollout/Text.antt =====
-- The progress line of internal/rollout/rollout.go: `Describe` and what it shortens pods' names and
-- log tails with.
use matrixctrl.Common.{
  ℕ, zero, suc, Bool, true, false, Option, none, some, List, [], ◌∷◌, ◌++◌, map, ◌&&◌, ◌||◌, not,
  ◌==◌, ltb, leb, length, take, if◌then◌else◌,
}
use matrixctrl.Common.Bytes.{Bytes, ascii, same, contains, join, split}
use matrixctrl.Rollout.Pods.{Blocker, among}

-- " — ", " · " and "…", of two and three bytes beside the spaces
abbrev pub em_dash : Bytes
em_dash = 32 ∷ 0xE2 ∷ 0x80 ∷ 0x94 ∷ 32 ∷ []

abbrev pub mid_dot : Bytes
mid_dot = 32 ∷ 0xC2 ∷ 0xB7 ∷ 32 ∷ []

abbrev pub ellipsis : Bytes
ellipsis = 0xE2 ∷ 0x80 ∷ 0xA6 ∷ []

abbrev pub is_lower_or_digit : ℕ → Bool
is_lower_or_digit c = (leb b'a' c && leb c b'z') || (leb b'0' c && leb c b'9')

abbrev pub is_vowel : ℕ → Bool
is_vowel c = c == b'a' || c == b'e' || c == b'i' || c == b'o' || c == b'u'

unfoldable pub all_hash_bytes : Bytes → Bool
all_hash_bytes [] = true
all_hash_bytes (c ∷ s) = is_lower_or_digit c && not (is_vowel c) && all_hash_bytes s

unfoldable pub looks_like_hash : Bytes → Bool
looks_like_hash s = if ltb (length s) 5 || ltb 10 (length s) then false else all_hash_bytes s

abbrev pub last_part : Bytes → List Bytes → Bytes
last_part s [] = s
last_part s (t ∷ rest) = last_part t rest

abbrev pub but_last : Bytes → List Bytes → List Bytes
but_last s [] = []
but_last s (t ∷ rest) = s ∷ but_last t rest

-- The loop: `n` segments may still go, and never the only one.
unfoldable pub drop_hashes : ℕ → List Bytes → List Bytes
drop_hashes zero parts = parts
drop_hashes (suc n) [] = []
drop_hashes (suc n) (s ∷ []) = s ∷ []
drop_hashes (suc n) (s ∷ t ∷ rest) = elim (looks_like_hash (last_part t rest)) [
  | true ↦ drop_hashes n (s ∷ but_last t rest)
  | false ↦ s ∷ t ∷ rest
]

unfoldable pub short_pod : Bytes → Bytes
short_pod name = join (ascii "-") (drop_hashes 2 (split b'-' name))

-- `strings.TrimLeft(line, "0123456789: ")`
unfoldable pub trim_numbers : Bytes → Bytes
trim_numbers [] = []
trim_numbers (c ∷ s) =
    let rest = trim_numbers s in
    if (leb b'0' c && leb c b'9') || c == b':' || c == 32 then rest else c ∷ s

abbrev pub envelope : Bytes → Bool
envelope line = among line ([] ∷ ascii "Caused by:" ∷ ascii "Caused by" ∷ [])

abbrev pub repeated : Bytes → List Bytes → Bool
repeated line [] = false
repeated line (k ∷ kept) = contains (last_part k kept) line

-- What is left of a trimmed line, if it is to be kept behind `kept`.
unfoldable pub worth : Bytes → List Bytes → Option Bytes
worth line kept =
    if envelope line
    then none
    else if same (trim_numbers line) [] || repeated (trim_numbers line) kept
    then none
    else some (trim_numbers line)

unfoldable pub cut : Bytes → Bytes
cut out = if ltb 200 (length out) then take 200 out ++ ellipsis else out

abbrev pub plural : ℕ → Bytes → Bytes → Bytes
plural n one many = if n == 1 then one else many

module _ (trim_space : Bytes → Bytes) (decimal : ℕ → Bytes) where
  -- The loop over the lines, which ends with the second that is kept.
  unfoldable pub gather : List Bytes → List Bytes → List Bytes
  gather [] kept = kept
  gather (l ∷ ls) kept = elim (worth (trim_space l) kept) [
    | none ↦ gather ls kept
    | some line ↦
        let rest = gather ls (kept ++ line ∷ []) in
        if length (kept ++ line ∷ []) == 2 then kept ++ line ∷ [] else rest
  ]

  unfoldable pub summarise : Bytes → Bytes
  summarise s = cut (join (ascii ": ") (gather (split 10 s) []))

  abbrev pub place_of : Blocker → Bytes
  place_of b = if b.init then ascii "init:" ++ b.container else b.container

  abbrev pub message_of : Blocker → Bytes
  message_of b = if same b.message [] then [] else em_dash ++ summarise b.message

  abbrev pub line_of : Blocker → Bytes
  line_of b =
      short_pod b.pod ++ (ascii " [" ++ (place_of b ++ (ascii "] " ++ (b.reason ++ message_of b))))

  unfoldable pub describe : List Blocker → ℕ → Bytes
  describe [] starting =
      if starting == 0
      then []
      else decimal starting
        ++ (ascii " Pod" ++ (plural starting [] (ascii "s") ++ ascii " startet noch"))
  describe (b ∷ bs) starting =
      join mid_dot (map line_of (b ∷ bs))
      ++ (if ltb 0 starting
          then ascii " (" ++ (decimal starting ++ ascii " weitere starten noch)")
          else [])
