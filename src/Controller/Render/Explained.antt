-- ===== src/Controller/Render/Explained.antt =====
-- What each result of `render` comes from.
use cnidaria_cni.Base.{
  String, ◌<>◌, ◌≡◌, ◌≢◌, none, some, List, [], ◌∷◌, ◌++◌, string_eq, ◌⊎◌, Result, ok, err, All,
  Each, Memᴰ, lookup,
}
use cnidaria_cni.Kube.{External}
use cnidaria_cni.Kube.Objects.{Node, NetworkPolicy}
use cnidaria_cni.Nftables.Params.{SafePorts}
use cnidaria_cni.Nftables.Ruleset.{Ruleset, ruleset_text}
use cnidaria_cni.Nftables.Render as nftables
use cnidaria_cni.Netpol.Add as netpol
use cnidaria_cni.Nodepol.Types.{NodeNetworkPolicy}
use cnidaria_cni.Nodepol.Add as nodepol
use cnidaria_cni.Nodepol.Add.{AddError, policy_error, other_error, Modes}
use cnidaria_cni.Controller.{PolicyStatus}
use cnidaria_cni.Controller.Policies.{from_network_policy}
use cnidaria_cni.Controller.Render.{Cache, Rendered}
use cnidaria_cni.Controller.Render.Inputs.{HasNoCidr, Inputs, skeleton_params, Reading}

module _ (x : External) (node : String) (ports : SafePorts) (cache : Cache) where
  -- A table with the NetworkPolicies in it, of everything that is listed.
  pub record Begun : Type 0 where
    pub inputs : Inputs x node cache
    pub read : Reading x node inputs
    pub skeleton : Ruleset
    pub rendered : nftables.render (skeleton_params x node ports inputs) ≡ ok skeleton
    pub table : Ruleset
    pub filled : netpol.add x skeleton read.network ≡ ok table

  -- What `nodepol.Add` makes of such a table and of NodeNetworkPolicies.
  abbrev pub added : Begun → List NodeNetworkPolicy → Result AddError Modes × Ruleset
  added b policies =
      nodepol.add x b.table (record { name = node; labels = b.inputs.own.meta.labels }) policies

  -- What is said of a policy: the mode reported for it, or that there is none.
  pub record Says (modes : Modes) (p : NodeNetworkPolicy) (s : PolicyStatus) : Type 0 where
    pub about : s.policy ≡ p
    pub entry :
        ((lookup p.name modes ≡ none) × (s.entry ≡ none))
        ⊎ ((mode : String) × (lookup p.name modes ≡ some mode)
            × (s.entry
                ≡ some (record {
                  name = node;
                  observed_generation = p.generation;
                  mode = mode;
                  message = "";
                })))

  -- What is said of the refused policy, which is the first of its name: the message, and no mode.
  abbrev pub Refuses : List NodeNetworkPolicy → String → String → List PolicyStatus → Type 0
  Refuses policies name message sts =
      (All (λ (q : NodeNetworkPolicy). q.name ≢ name) policies × (sts ≡ []))
      ⊎ ((before after : List NodeNetworkPolicy) × (p : NodeNetworkPolicy) × (policies
            ≡ before ++ (p ∷ after))
          × All (λ (q : NodeNetworkPolicy). q.name ≢ name) before
          × (p.name ≡ name)
          × (sts
              ≡ record {
                policy = p;
                entry = some (record {
                  name = node;
                  observed_generation = p.generation;
                  mode = "";
                  message = message;
                });
              }
                ∷ []))

  -- A text is that of the table that the three renderers make, one after the other, of everything
  -- that is listed.
  pub record ComesFrom (text : String) (sts : List PolicyStatus) : Type 0 where
    pub begun : Begun
    pub node_policies : List NodeNetworkPolicy
    pub node_policies_listed : cache.node_network_policies ≡ ok node_policies
    pub modes : Modes
    pub last_table : Ruleset
    pub finished : added begun node_policies ≡ (ok modes, last_table)
    pub printed : text ≡ ruleset_text last_table
    pub full : text ≢ ""
    pub said : Each (Says modes) node_policies sts

  -- Why nothing is rendered, though there is no error.
  pub data IsHeld : List PolicyStatus → Type 0 where
    no_cidr : (nodes : List Node) → cache.nodes ≡ ok nodes → HasNoCidr x node nodes → IsHeld []
    unread :
        (i : Inputs x node cache) (p : NetworkPolicy) (e : String)
        → Memᴰ p i.policies
        → from_network_policy x p ≡ err e
        → IsHeld []
    no_skeleton :
        (i : Inputs x node cache) (e : String)
        → nftables.render (skeleton_params x node ports i) ≡ err e
        → IsHeld []
    not_filled :
        (i : Inputs x node cache) (read : Reading x node i) (skeleton : Ruleset) (e : String)
        → nftables.render (skeleton_params x node ports i) ≡ ok skeleton
        → netpol.add x skeleton read.network ≡ err e
        → IsHeld []
    refused :
        (b : Begun) (policies : List NodeNetworkPolicy) (name message : String)
        (sts : List PolicyStatus)
        → cache.node_network_policies ≡ ok policies
        → (added b policies).0 ≡ err (policy_error name message)
        → Refuses policies name message sts
        → IsHeld sts

  -- What an error comes from.
  pub data Failed : String → Type 0 where
    nodes : (e : String) → cache.nodes ≡ err e → Failed ("list nodes: " <> e)
    pods : (e : String) → cache.pods ≡ err e → Failed ("list pods: " <> e)
    namespaces : (e : String) → cache.namespaces ≡ err e → Failed ("list namespaces: " <> e)
    network_policies :
        (e : String) → cache.network_policies ≡ err e → Failed ("list network policies: " <> e)
    node_policies :
        (e : String) → cache.node_network_policies ≡ err e → Failed ("list node policies: " <> e)
    not_added :
        (b : Begun) (policies : List NodeNetworkPolicy) (e : String)
        → cache.node_network_policies ≡ ok policies
        → (added b policies).0 ≡ err (other_error e)
        → Failed e

  abbrev pub Explained : Result String Rendered → Type 0
  Explained (err e) = Failed e
  Explained (ok (text, sts)) = ComesFrom text sts ⊎ ((text ≡ "") × IsHeld sts)
