-- ===== src/HostPort/Examples.antt =====
-- A call server whose replacement waits for the ports of the pod that it replaces.
use matrixctrl.Common.{
  ◌↔◌, String, ◌≡◌, refl, Bool, true, false, Option, none, List, [], ◌∷◌, ◌&&◌, str_eq, has_text,
  insert, lookup,
}
use matrixctrl.Common.Bytes.{Bytes, ascii}
use matrixctrl.HostPort.Unblock.{
  Owner, Pod, ReplicaSet, is_stuck, blocks, host_port_victims, owner_map, note_owners, victims_for,
  add_blocking, deployment_of, owner_rs,
}
use matrixctrl.HostPort.Victims.{Exists, IsVictimOf, IsDistinct, host_port_victims_lem}

abbrev owned : String → String → List Owner
owned kind name = record { kind = kind; name = name } ∷ []

abbrev pod : String → String → String → Pod
pod name phase rs = record {
  name = name;
  phase = phase;
  host_network = true;
  deleting = false;
  owners = owned "ReplicaSet" rs;
}

abbrev pods : List Pod
pods =
    pod "sfu-old" "Running" "sfu-1"
    ∷ pod "sfu-new" "Pending" "sfu-2"
    ∷ pod "turn" "Running" "turn-1"
    ∷ []

abbrev sets : List ReplicaSet
sets =
    record { name = "sfu-1"; owners = owned "Deployment" "sfu" }
    ∷ record { name = "sfu-2"; owners = owned "Deployment" "sfu" }
    ∷ record { name = "turn-1"; owners = owned "Deployment" "turn" }
    ∷ []

abbrev refusal : String → Bytes
refusal name = ascii "0/1 nodes are available: 1 node(s) didn't have free ports"

abbrev deletes : String → Option String
deletes name = none

old_is_picked : host_port_victims (owner_map sets []) refusal pods ≡ "sfu-old" ∷ []
unfolding host_port_victims victims_for add_blocking is_stuck blocks owner_rs deployment_of lookup
    owner_map note_owners insert matrixctrl.Common.Bytes.contains matrixctrl.Common.Bytes.has_prefix
old_is_picked = refl

host_port_victims_lem_example :
    ((v : String)
      → (has_text v (host_port_victims (owner_map sets []) refusal pods) ≡ true)
        ↔ Exists (IsVictimOf (owner_map sets []) refusal pods v) pods)
    × IsDistinct (host_port_victims (owner_map sets []) refusal pods)
host_port_victims_lem_example = host_port_victims_lem (owner_map sets []) refusal pods
