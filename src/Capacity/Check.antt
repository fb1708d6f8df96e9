-- ===== src/Capacity/Check.antt =====
-- `Check` and `Blocking` of internal/capacity/capacity.go. The map that podSpecs returns
-- is read in the order of its entries; Go promises none, and no theorem depends on it. A text that
-- `fmt` puts together is the list of its pieces, with its decimals as a parameter.
use matrixctrl.Common.{
  ℕ, ◌-◌, String, Bool, true, false, Option, none, some, List, [], ◌∷◌, ◌++◌, ◌&&◌, ◌||◌, ◌==◌, ltb,
  if◌then◌else◌,
}
use matrixctrl.Common.Bytes.{Bytes, same}
use matrixctrl.Capacity.Request.{PodSpec, effective_request}
use matrixctrl.Capacity.Manifest.{Workload, pod_specs}

pub data Level : Type 0 where
  fits warn blocked unknown : Level

pub record Finding : Type 0 where
  pub level : Level
  pub workload : String
  pub kind : String
  pub cpu_request : ℕ
  pub cpu_allocatable : ℕ
  pub mem_request : ℕ
  pub mem_allocatable : ℕ
  pub message : List String

pub record NodeInfo : Type 0 where
  pub name : String
  pub cpu_total : ℕ
  pub cpu_used : ℕ
  pub mem_used : ℕ
  pub mem_total : ℕ

pub record Node : Type 0 where
  pub name : String
  pub cpu_allocatable : ℕ
  pub cpu_used : ℕ
  pub mem_allocatable : ℕ

unfoldable pub from_node_info : List NodeInfo → List Node
from_node_info [] = []
from_node_info (n ∷ ns) =
    record {
      name = n.name;
      cpu_allocatable = n.cpu_total;
      cpu_used = n.cpu_used;
      mem_allocatable = n.mem_total;
    }
    ∷ from_node_info ns

pub record Largest : Type 0 where
  pub cpu : ℕ
  pub free_cpu : ℕ
  pub mem : ℕ

-- What is free may be below 0 in the source, where it is only asked whether it is above: 0 stands for it.
abbrev pub widen : Node → Largest → Largest
widen n l = record {
  cpu = if ltb l.cpu n.cpu_allocatable then n.cpu_allocatable else l.cpu;
  free_cpu = if ltb l.cpu n.cpu_allocatable then n.cpu_allocatable - n.cpu_used else l.free_cpu;
  mem = if ltb l.mem n.mem_allocatable then n.mem_allocatable else l.mem;
}

unfoldable pub widest : List Node → Largest → Largest
widest [] l = l
widest (n ∷ ns) l = widest ns (widen n l)

abbrev pub none_yet : Largest
none_yet = record { cpu = 0; free_cpu = 0; mem = 0 }

abbrev pub over : ℕ → ℕ → Bool
over limit request = ltb 0 limit && ltb limit request

abbrev pub and_between : Bool → Bool → List String
and_between true true = " und " ∷ []
and_between _ _ = []

module _ (decimal : ℕ → String) where
  abbrev pub cpu_part : Bool → ℕ → ℕ → List String
  cpu_part false cpu largest = []
  cpu_part true cpu largest = decimal cpu ∷ "m CPU (größter Node: " ∷ decimal largest ∷ "m)" ∷ []

  abbrev pub mem_part : Bool → ℕ → ℕ → List String
  mem_part false mem largest = []
  mem_part true mem largest =
      decimal mem ∷ " Mi Speicher (größter Node: " ∷ decimal largest ∷ " Mi)" ∷ []

  unfoldable pub blocked_message : String → ℕ → ℕ → Largest → Bool → Bool → List String
  blocked_message name cpu mem l over_cpu over_mem =
      (name ∷ " würde " ∷ cpu_part over_cpu cpu l.cpu)
      ++ (and_between over_cpu over_mem
          ++ (mem_part over_mem mem l.mem
              ++ " anfordern — mehr, als ein einzelner Node bereitstellen kann. Dieser Pod kann nach dem Anwenden auf keinem Node laufen."
                ∷ []))

  abbrev pub warn_message : String → ℕ → ℕ → List String
  warn_message name cpu free =
      name
      ∷ " würde "
      ∷ decimal cpu
      ∷ "m CPU anfordern; auf dem größten Node sind derzeit etwa "
      ∷ decimal free
      ∷ "m frei. Das kann sich von selbst lösen, sobald anderes weicht."
      ∷ []

  -- The body of the loop for one workload, with its effective request.
  unfoldable pub judge : Largest → String → String → ℕ × ℕ → Option Finding
  judge l name kind (cpu, mem) =
      if cpu == 0 && mem == 0
      then none
      else if over l.cpu cpu || over l.mem mem
      then some record {
        level = blocked;
        workload = name;
        kind = kind;
        cpu_request = cpu;
        cpu_allocatable = l.cpu;
        mem_request = mem;
        mem_allocatable = l.mem;
        message = blocked_message name cpu mem l (over l.cpu cpu) (over l.mem mem);
      }
      else if over l.free_cpu cpu
      then some record {
        level = warn;
        workload = name;
        kind = kind;
        cpu_request = cpu;
        cpu_allocatable = l.cpu;
        mem_request = 0;
        mem_allocatable = 0;
        message = warn_message name cpu l.free_cpu;
      }
      else none

  abbrev pub onto : Option Finding → List Finding → List Finding
  onto none findings = findings
  onto (some f) findings = f ∷ findings

  unfoldable pub judge_all : Largest → List (String × Workload) → List Finding
  judge_all l [] = []
  judge_all l ((name, w) ∷ rest) =
      onto (judge l name w.kind (effective_request w.spec)) (judge_all l rest)

  abbrev pub not_checked : Finding
  not_checked = record {
    level = unknown;
    workload = "";
    kind = "";
    cpu_request = 0;
    cpu_allocatable = 0;
    mem_request = 0;
    mem_allocatable = 0;
    message = "Die Konfiguration konnte nicht gegen die Cluster-Kapazität geprüft werden." ∷ [];
  }

  module _ (trim_space : Bytes → Bytes) (kind_of : Bytes → Option String)
      (template_of : String → Bytes → Option (String × PodSpec)) where
    unfoldable pub check_manifest : Bytes → List Node → List Finding
    check_manifest manifest [] = not_checked ∷ []
    check_manifest manifest (n ∷ ns) =
        if same (trim_space manifest) []
        then not_checked ∷ []
        else judge_all (widest (n ∷ ns) none_yet)
            (pod_specs trim_space kind_of template_of manifest)

abbrev pub is_blocked : Level → Bool
is_blocked blocked = true
is_blocked _ = false

unfoldable pub blocking : List Finding → Bool
blocking [] = false
blocking (f ∷ findings) = is_blocked f.level || blocking findings
