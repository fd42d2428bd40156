-- ===== src/Controller/Render.antt =====
-- internal/controller/ruleset.go: `render`, from what the cache lists.
pub mod Inputs
pub mod Explained
pub mod Finishing
pub mod Explaining
use cnidaria_cni.Base.{
  String, ◌<>◌, Option, none, some, List, [], ◌∷◌, ◌++◌, map, if◌then◌else◌, ◌==◌, string_eq,
  Result, ok, err, ◌>>=◌, map_err, traverse,
}
use cnidaria_cni.Netip.Prefix.{Prefix}
use cnidaria_cni.Kube.{External, Labels}
use cnidaria_cni.Kube.Objects.{Node, Namespace, Pod, NetworkPolicy}
use cnidaria_cni.Nftables.Params.{SafePorts}
use cnidaria_cni.Nftables.Params
use cnidaria_cni.Nftables.Ruleset.{Ruleset, ruleset_text}
use cnidaria_cni.Nftables.Validate.{is_empty}
use cnidaria_cni.Nftables.Render as nftables
use cnidaria_cni.Netpol.Types
use cnidaria_cni.Netpol.Add as netpol
use cnidaria_cni.Nodepol.Types.{NodeNetworkPolicy}
use cnidaria_cni.Nodepol.Add as nodepol
use cnidaria_cni.Nodepol.Add.{AddError, policy_error, other_error}
use cnidaria_cni.Controller.{PolicyStatus, statuses}
use cnidaria_cni.Controller.Nodes.{from_node, parsed_cidrs}
use cnidaria_cni.Controller.Pods.{from_pod}
use cnidaria_cni.Controller.Policies.{from_network_policy}

-- What each `List` of the client gives.
pub record Cache : Type 0 where
  pub nodes : Result String (List Node)
  pub pods : Result String (List Pod)
  pub namespaces : Result String (List Namespace)
  pub network_policies : Result String (List NetworkPolicy)
  pub node_network_policies : Result String (List NodeNetworkPolicy)

-- What the loop over the nodes leaves: the parameters' CIDRs, and the labels of this node.
pub record Gathered : Type 0 where
  pub cluster_pod_cidrs : List Prefix
  pub pod_cidrs : List Prefix
  pub labels : Labels

abbrev pub nothing_gathered : Gathered
nothing_gathered = record { cluster_pod_cidrs = []; pod_cidrs = []; labels = [] }

abbrev pub namespace_of : Namespace → Types.Namespace
namespace_of n = record { name = n.meta.name; labels = n.meta.labels }

-- What the reconciler applies and says; an empty text is nothing to apply.
abbrev pub Rendered : Type 0
Rendered = String × List PolicyStatus

abbrev nothing_rendered : Rendered
nothing_rendered = ("", [])

module _ (x : External) (node : String) where
  -- The loop over the nodes; the last one of this name counts.
  unfoldable pub gather : Gathered → List Node → Gathered
  unfolding from_node parsed_cidrs
  gather g [] = g
  gather g (n ∷ ns) =
      let cidrs = (from_node x n).pod_cidrs in
      let own = n.meta.name == node in
      gather
        (record {
          cluster_pod_cidrs = g.cluster_pod_cidrs ++ cidrs;
          pod_cidrs = if own then cidrs else g.pod_cidrs;
          labels = if own then n.meta.labels else g.labels;
        })
        ns

  abbrev pub nftables_params : SafePorts → Gathered → Params.Params
  nftables_params ports g = record {
    pod_cidrs = g.pod_cidrs;
    cluster_pod_cidrs = g.cluster_pod_cidrs;
    safe_ports = ports;
  }

  unfoldable pub netpol_params : List Pod → List Namespace → List Types.NetworkPolicy → Types.Params
  unfolding from_pod
  netpol_params pods namespaces policies = record {
    node_name = node;
    pods = map (from_pod x) pods;
    namespaces = map namespace_of namespaces;
    policies = policies;
  }

  -- `nftables.Render` and `netpol.Add`.
  unfoldable pub first_table : Params.Params → Types.Params → Result String Ruleset
  unfolding nftables.render netpol.add
  first_table params p = nftables.render params >>= λ r. netpol.add x r p

  -- What `addNodeNetworkPolicies` gave, and the table it left.
  after_statuses : List PolicyStatus × Option AddError → Ruleset → Result String Rendered
  unfolding ruleset_text
  after_statuses (sts, none) table = ok (ruleset_text table, sts)
  after_statuses (sts, some (policy_error name message)) table = ok ("", sts)
  after_statuses (sts, some (other_error e)) table = err e

  -- The part from `addNodeNetworkPolicies` on.
  unfoldable pub add_node_network_policies :
      Result String (List NodeNetworkPolicy) → Labels → Ruleset → Result String Rendered
  unfolding after_statuses statuses nodepol.add
  add_node_network_policies listed labels table = do
    policies ← map_err (λ e. "list node policies: " <> e) listed
    let added = nodepol.add x table (record { name = node; labels = labels }) policies
    after_statuses (statuses node added.0 policies) added.1

  unfoldable pub render_policies :
      SafePorts
      → Gathered
      → List Pod
      → List Namespace
      → List NetworkPolicy
      → Result String (List NodeNetworkPolicy)
      → Result String Rendered
  unfolding from_network_policy traverse first_table add_node_network_policies
  render_policies ports g pods namespaces policies listed =
      elim (traverse (from_network_policy x) policies) [
        | err e ↦ ok nothing_rendered
        | ok converted ↦
            elim (first_table (nftables_params ports g) (netpol_params pods namespaces converted)) [
              | err e ↦ ok nothing_rendered
              | ok table ↦ add_node_network_policies listed g.labels table
            ]
      ]

  -- The part after the nodes are read.
  unfoldable pub render_node : SafePorts → Cache → Gathered → Result String Rendered
  unfolding render_policies
  render_node ports cache g = if is_empty g.pod_cidrs then ok nothing_rendered else (do
    pods ← map_err (λ e. "list pods: " <> e) cache.pods
    namespaces ← map_err (λ e. "list namespaces: " <> e) cache.namespaces
    policies ← map_err (λ e. "list network policies: " <> e) cache.network_policies
    render_policies ports g pods namespaces policies cache.node_network_policies)

  -- `render`
  unfoldable pub render : SafePorts → Cache → Result String Rendered
  unfolding gather render_node
  render ports cache = do
    nodes ← map_err (λ e. "list nodes: " <> e) cache.nodes
    render_node ports cache (gather nothing_gathered nodes)
