-- ===== src/Controller/Status.antt =====
-- internal/controller/ruleset.go: `writeStatus`, over an API server.
pub mod Settling
use cnidaria_cni.Base.{
  String, ◌<>◌, ◌≡◌, not, Option, none, some, List, [], ◌∷◌, if◌then◌else◌, ◌==◌, string_eq,
}
use cnidaria_cni.Nodepol.Types.{NodeNetworkPolicy, NodeNetworkPolicyNodeStatus}
use cnidaria_cni.Controller.{PolicyStatus, with_entry}

abbrev pub with_nodes : NodeNetworkPolicy → List NodeNetworkPolicyNodeStatus → NodeNetworkPolicy
with_nodes p nodes = record p { status = record { nodes = nodes } }

-- `Status().Update` on a state of the API server.
abbrev pub Update : Type 0 → Type 0
Update A = NodeNetworkPolicy → A → Option String × A

module _ {A : Type 0} (update : Update A) where
  -- `writeStatus`
  unfoldable pub write_status : String → List PolicyStatus → A → Option String × A
  unfolding with_entry
  write_status node [] a = (none, a)
  write_status node (s ∷ rest) a =
      let (nodes, changed) = with_entry s.policy.status.nodes node s.entry in
      let skipped = write_status node rest a in
      let (failure, a1) = update (with_nodes s.policy nodes) a in
      let later = write_status node rest a1 in
      let written : Option String × A = elim failure [
        | some e ↦ (some ("status of NodeNetworkPolicy " <> (s.policy.name <> (": " <> e))), a1)
        | none ↦ later
      ] in
      if not changed then skipped else written

  -- What an update does to the entries that the server holds for each policy.
  pub record IsServer (nodes_of : A → String → List NodeNetworkPolicyNodeStatus) : Type 0 where
    pub updated :
        (p : NodeNetworkPolicy) (a : A)
        → (update p a).0 ≡ none
        → (name : String)
        → nodes_of (update p a).1 name
          ≡ (if p.name == name then p.status.nodes else nodes_of a name)
