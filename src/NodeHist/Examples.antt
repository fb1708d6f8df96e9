-- ===== src/NodeHist/Examples.antt =====
-- A node that lost most of its cores.
use matrixctrl.Common.{ℕ, String, ◌≡◌, List, [], ◌∷◌}
use matrixctrl.NodeHist.Detect.{Sample, detect_capacity_changes}
use matrixctrl.NodeHist.Changes.{first_of, differs_in, reports, reports-detect_capacity_changes}

abbrev sample : ℕ → String → ℕ → Sample
sample at node cores = record {
  at = at;
  node = node;
  cpu = 500;
  cpu_alloc = cores;
  mem = 1000;
  mem_alloc = 36000;
}

abbrev samples : List Sample
samples =
    sample 1 "main" 32000
    ∷ sample 1 "other" 4000
    ∷ sample 2 "main" 6000
    ∷ sample 2 "other" 4000
    ∷ []

reports-detect_capacity_changes_example :
    reports "main" (detect_capacity_changes samples)
    ≡ differs_in "main" samples (first_of "main" samples)
reports-detect_capacity_changes_example = reports-detect_capacity_changes "main" samples
