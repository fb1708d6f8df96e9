-- ===== src/HostPort/Unblock.antt =====
-- `hostPortVictims` and `UnblockHostPortRollouts` of internal/k8s/hostport.go. The calls of the
-- cluster and the scheduler's events are parameters, each of which may answer anything.
use matrixctrl.Common.{
  String, Bool, false, Option, none, some, List, [], ◌∷◌, ◌++◌, ◌&&◌, ◌||◌, not, str_eq, has_text,
  insert, lookup, if◌then◌else◌,
}
use matrixctrl.Common.Bytes.{Bytes, ascii, contains}

pub record Owner : Type 0 where
  pub kind : String
  pub name : String

pub record Pod : Type 0 where
  pub name : String
  pub phase : String
  pub host_network : Bool
  pub deleting : Bool
  pub owners : List Owner

pub record ReplicaSet : Type 0 where
  pub name : String
  pub owners : List Owner

-- The name of the first owner that is a ReplicaSet, or "".
unfoldable pub owner_rs : List Owner → String
owner_rs [] = ""
owner_rs (o ∷ os) = if str_eq o.kind "ReplicaSet" then o.name else owner_rs os

abbrev pub found_or_empty : Option String → String
found_or_empty none = ""
found_or_empty (some s) = s

-- `rsOwner[name]`
unfoldable pub deployment_of : List (String × String) → String → String
deployment_of owners rs = found_or_empty (lookup rs owners)

module _ (rs_owner : List (String × String)) (refusal : String → Bytes) where
  -- A pending pod that the scheduler refused for its ports, on the host network, of a Deployment.
  unfoldable pub is_stuck : Pod → Bool
  is_stuck pending =
      str_eq pending.phase "Pending"
      && pending.host_network
      && not pending.deleting
      && not (str_eq (owner_rs pending.owners) "")
      && not (str_eq (deployment_of rs_owner (owner_rs pending.owners)) "")
      && contains (refusal pending.name) (ascii "didn't have free ports")

  -- `old` runs on the host network for another ReplicaSet of the same Deployment.
  unfoldable pub blocks : Pod → Pod → Bool
  blocks pending old =
      str_eq old.phase "Running"
      && old.host_network
      && not old.deleting
      && not (str_eq (owner_rs old.owners) (owner_rs pending.owners))
      && str_eq (deployment_of rs_owner (owner_rs old.owners))
          (deployment_of rs_owner (owner_rs pending.owners))

  -- The inner loop. `seen` holds the names of the victims.
  unfoldable pub add_blocking : Pod → List Pod → List String → List String
  add_blocking pending [] victims = victims
  add_blocking pending (old ∷ pods) victims = add_blocking pending pods (
      if blocks pending old && not (has_text old.name victims)
      then victims ++ old.name ∷ []
      else victims)

  -- The outer loop over the pods that may be pending.
  unfoldable pub victims_for : List Pod → List Pod → List String → List String
  victims_for [] pods victims = victims
  victims_for (pending ∷ rest) pods victims =
      victims_for rest pods
        (if is_stuck pending then add_blocking pending pods victims else victims)

  unfoldable pub host_port_victims : List Pod → List String
  host_port_victims pods = victims_for pods pods []

unfoldable pub any_pending : List Pod → Bool
any_pending [] = false
any_pending (p ∷ pods) = (str_eq p.phase "Pending" && p.host_network) || any_pending pods

unfoldable pub note_owners : String → List Owner → List (String × String) → List (String × String)
note_owners rs [] owners = owners
note_owners rs (o ∷ os) owners =
    note_owners rs os (if str_eq o.kind "Deployment" then insert rs o.name owners else owners)

unfoldable pub owner_map : List ReplicaSet → List (String × String) → List (String × String)
owner_map [] owners = owners
owner_map (rs ∷ rest) owners = owner_map rest (note_owners rs.name rs.owners owners)

-- What was removed, and the error that ended the removal, if one did.
pub record Removal : Type 0 where
  pub removed : List String
  pub error : Option String

unfoldable pub remove_all : (String → Option String) → List String → List String → Removal
remove_all delete_pod [] removed = record { removed = removed; error = none }
remove_all delete_pod (v ∷ victims) removed = elim (delete_pod v) [
  | some e ↦ record { removed = removed; error = some e }
  | none ↦ remove_all delete_pod victims (removed ++ v ∷ [])
]

-- What a List call answers: items, or an error.
pub data Listed (A : Type 0) : Type 0 where
  items : List A → Listed A
  refused : String → Listed A

abbrev pub nothing : Option String → Removal
nothing e = record { removed = []; error = e }

module _ (refusal : String → Bytes) (delete_pod : String → Option String) where
  abbrev pub unblock_with : List Pod → Listed ReplicaSet → Removal
  unblock_with pods (refused e) = nothing (some e)
  unblock_with pods (items sets) =
      remove_all delete_pod (host_port_victims (owner_map sets []) refusal pods) []

  abbrev pub unblock_pods : Listed Pod → Listed ReplicaSet → Removal
  unblock_pods (refused e) sets = nothing (some e)
  unblock_pods (items pods) sets = if any_pending pods then unblock_with pods sets else nothing none
