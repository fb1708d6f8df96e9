-- ===== src/NodeHist/Detect.antt =====
-- `DetectCapacityChanges` of internal/nodehist/nodehist.go, over the samples in the order of their
-- times. The map is read in the order of its entries.
use matrixctrl.Common.{
  ℕ, String, Bool, Option, none, some, List, [], ◌∷◌, ◌&&◌, ◌==◌, insert, lookup, if◌then◌else◌,
}

pub record Sample : Type 0 where
  pub at : ℕ
  pub node : String
  pub cpu : ℕ
  pub cpu_alloc : ℕ
  pub mem : ℕ
  pub mem_alloc : ℕ

-- `pair`
pub record Span : Type 0 where
  pub first : Sample
  pub last : Sample

pub record CapacityChange : Type 0 where
  pub node : String
  pub from_cpu : ℕ
  pub to_cpu : ℕ
  pub from_mem : ℕ
  pub to_mem : ℕ
  pub at : ℕ

abbrev pub extend : Sample → Option Span → Span
extend s none = record { first = s; last = s }
extend s (some p) = record { first = p.first; last = s }

-- The loop over the samples.
unfoldable pub spans : List Sample → List (String × Span) → List (String × Span)
spans [] by_node = by_node
spans (s ∷ samples) by_node =
    spans samples (insert s.node (extend s (lookup s.node by_node)) by_node)

abbrev pub unchanged : Span → Bool
unchanged p = p.first.cpu_alloc == p.last.cpu_alloc && p.first.mem_alloc == p.last.mem_alloc

abbrev pub change_of : String → Span → CapacityChange
change_of name p = record {
  node = name;
  from_cpu = p.first.cpu_alloc;
  to_cpu = p.last.cpu_alloc;
  from_mem = p.first.mem_alloc;
  to_mem = p.last.mem_alloc;
  at = p.last.at;
}

-- The loop over the map.
unfoldable pub changes : List (String × Span) → List CapacityChange
changes [] = []
changes ((name, p) ∷ by_node) =
    let rest = changes by_node in if unchanged p then rest else change_of name p ∷ rest

unfoldable pub detect_capacity_changes : List Sample → List CapacityChange
detect_capacity_changes samples = changes (spans samples [])
