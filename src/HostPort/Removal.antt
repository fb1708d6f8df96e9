-- ===== src/HostPort/Removal.antt =====
-- What `UnblockHostPortRollouts` of internal/k8s/hostport.go removes.
use matrixctrl.Common.{String, ◌≡◌, ◌≢◌, All, Option, none, List, [], ◌∷◌, ◌++◌}
use matrixctrl.Common.Bytes.{Bytes}
use matrixctrl.HostPort.Unblock.{Removal}

module _ (delete_pod : String → Option String) where
  abbrev pub IsEnd : List String → Option String → Type 0
  IsEnd [] e = e ≡ none
  IsEnd (v ∷ rest) e = (delete_pod v ≡ e) × (e ≢ none)

  -- What was removed stands ahead of what was not, every removal of it succeeded, and the first of
  -- the rest is the one whose error is reported.
  abbrev pub IsPrefix : List String → Removal → Type 0
  IsPrefix victims r =
      (rest : List String) × (victims ≡ r.removed ++ rest)
      × All (λ v. delete_pod v ≡ none) r.removed
      × IsEnd rest r.error
