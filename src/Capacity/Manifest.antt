-- ===== src/Capacity/Manifest.antt =====
-- `podSpecs` of internal/capacity/capacity.go. What the YAML library decodes of a document is a
-- parameter: its kind, and its name and pod template as an object of that kind.
use matrixctrl.Common.{
  ℕ, zero, suc, String, Option, none, some, List, [], ◌∷◌, str_eq, insert, ◌||◌, if◌then◌else◌,
}
use matrixctrl.Common.Bytes.{Bytes, ascii, same, has_prefix}
use matrixctrl.Capacity.Request.{PodSpec}

pub record Workload : Type 0 where
  pub kind : String
  pub spec : PodSpec

abbrev onto_head : ℕ → List Bytes → List Bytes
onto_head c [] = (c ∷ []) ∷ []
onto_head c (d ∷ ds) = (c ∷ d) ∷ ds

-- `strings.Split(manifest, "\n---")`; the number says how many bytes of a separator are still to pass.
unfoldable pub documents : ℕ → Bytes → List Bytes
documents n [] = [] ∷ []
documents zero (c ∷ s) =
    if has_prefix (c ∷ s) (10 ∷ ascii "---")
    then [] ∷ documents 3 s
    else onto_head c (documents 0 s)
documents (suc n) (c ∷ s) = documents n s

module _ (trim_space : Bytes → Bytes) (kind_of : Bytes → Option String)
    (template_of : String → Bytes → Option (String × PodSpec)) where
  abbrev pub note_template :
      String → Option (String × PodSpec) → List (String × Workload) → List (String × Workload)
  note_template kind none out = out
  note_template kind (some (name, spec)) out =
      if str_eq name "" then out else insert name (record { kind = kind; spec = spec }) out

  abbrev pub note_kind : Option String → Bytes → List (String × Workload) → List (String × Workload)
  note_kind none doc out = out
  note_kind (some kind) doc out =
      if str_eq kind "Deployment" || str_eq kind "StatefulSet"
      then note_template kind (template_of kind doc) out
      else out

  -- The loop over the documents.
  unfoldable pub note_documents : List Bytes → List (String × Workload) → List (String × Workload)
  note_documents [] out = out
  note_documents (d ∷ ds) out = note_documents ds (
      if same (trim_space d) [] then out else note_kind (kind_of (trim_space d)) (trim_space d) out)

  unfoldable pub pod_specs : Bytes → List (String × Workload)
  pod_specs manifest = note_documents (documents 0 manifest) []
