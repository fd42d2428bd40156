-- ===== src/Controller.antt =====
-- internal/controller/ruleset.go: what this node says in the status of the NodeNetworkPolicies.
pub mod Entries
pub mod Pods
pub mod Policies
pub mod Status
pub mod Nodes
pub mod Render
pub mod Reconcile
pub mod Host
pub mod RouteReconcile
use cnidaria_cni.Base.{
  String, Bool, true, false, ◌&&◌, not, Option, none, some, List, [], ◌∷◌, ◌++◌, map, if◌then◌else◌,
  ◌==◌, nat_eq, string_eq, Eq, ℤ, pos, negsuc, lookup, find_first, Result, ok, err,
}
use cnidaria_cni.Nodepol.Types.{NodeNetworkPolicy, NodeNetworkPolicyNodeStatus}
use cnidaria_cni.Nodepol.Add.{AddError, policy_error, other_error, Modes}

abbrev pub int_beq : ℤ → ℤ → Bool
int_beq (pos m) (pos n) = m == n
int_beq (negsuc m) (negsuc n) = m == n
int_beq _ _ = false

-- Go's `==` on two entries.
abbrev pub entry_beq : NodeNetworkPolicyNodeStatus → NodeNetworkPolicyNodeStatus → Bool
entry_beq a b =
    a.name == b.name
    && int_beq a.observed_generation b.observed_generation
    && a.mode == b.mode
    && a.message == b.message

-- `policyStatus`
pub record PolicyStatus : Type 0 where
  pub policy : NodeNetworkPolicy
  pub entry : Option NodeNetworkPolicyNodeStatus

abbrev pub success_entry :
    String → NodeNetworkPolicy → Option String → Option NodeNetworkPolicyNodeStatus
success_entry node p none = none
success_entry node p (some mode) =
    some (record { name = node; observed_generation = p.generation; mode = mode; message = "" })

abbrev refused_entry : String → String → NodeNetworkPolicy → PolicyStatus
refused_entry node message p = record {
  policy = p;
  entry =
      some
        (record { name = node; observed_generation = p.generation; mode = ""; message = message });
}

abbrev refused_status : String → String → Option NodeNetworkPolicy → List PolicyStatus
refused_status node message none = []
refused_status node message (some p) = refused_entry node message p ∷ []

-- `addNodeNetworkPolicies`, from what `Add` gave: the statuses, and the error if there is one.
unfoldable pub statuses :
    String → Result AddError Modes → List NodeNetworkPolicy → List PolicyStatus × Option AddError
unfolding lookup find_first
statuses node (ok modes) policies = (
  map (λ p. record { policy = p; entry = success_entry node p (lookup p.name modes) }) policies,
  none,
)
statuses node (err (other_error e)) policies = ([], some (other_error e))
statuses node (err (policy_error name message)) policies = (
  refused_status node message (find_first (λ p. p.name == name) policies),
  some (policy_error name message),
)

abbrev is_entry : Option NodeNetworkPolicyNodeStatus → NodeNetworkPolicyNodeStatus → Bool
is_entry none n = false
is_entry (some e) n = entry_beq n e

abbrev pub put_entry :
    Option NodeNetworkPolicyNodeStatus
    → List NodeNetworkPolicyNodeStatus
    → List NodeNetworkPolicyNodeStatus
put_entry none out = out
put_entry (some e) out = e ∷ out

-- The loop of `withEntry`: the list built and `found`, or nothing for its early return.
unfoldable pub scan :
    String
    → Option NodeNetworkPolicyNodeStatus
    → List NodeNetworkPolicyNodeStatus
    → Option (List NodeNetworkPolicyNodeStatus × Bool)
scan name entry [] = some ([], false)
scan name entry (n ∷ ns) =
    let later = scan name entry ns in
    let kept : Option (List NodeNetworkPolicyNodeStatus × Bool) = elim later [
      | none ↦ none
      | some r ↦ some (n ∷ r.0, r.1)
    ] in
    let replaced : Option (List NodeNetworkPolicyNodeStatus × Bool) = elim later [
      | none ↦ none
      | some r ↦ some (put_entry entry r.0, true)
    ] in
    if not (n.name == name) then kept else if is_entry entry n then none else replaced

-- What follows the loop.
abbrev pub finish :
    Option NodeNetworkPolicyNodeStatus
    → Option (List NodeNetworkPolicyNodeStatus × Bool)
    → List NodeNetworkPolicyNodeStatus × Bool
finish entry none = ([], false)
finish entry (some (out, true)) = (out, true)
finish none (some (out, false)) = ([], false)
finish (some e) (some (out, false)) = (out ++ (e ∷ []), true)

-- `withEntry`
unfoldable pub with_entry :
    List NodeNetworkPolicyNodeStatus
    → String
    → Option NodeNetworkPolicyNodeStatus
    → List NodeNetworkPolicyNodeStatus × Bool
unfolding scan
with_entry nodes name entry = finish entry (scan name entry nodes)
