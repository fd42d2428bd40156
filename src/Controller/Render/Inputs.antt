-- ===== src/Controller/Render/Inputs.antt =====
-- What `render` reads of the cache before it renders.
use cnidaria_cni.Base.{
  String, ◌≡◌, ◌≢◌, refl, sym, ap, ◌∙◌, List, [], ◌∷◌, ◌++◌, append_assoc, append-nil, ◌==◌,
  string_eq, differs_text, Bool-cases, inl, inr, ◌⊎◌, All, Each, ok,
}
use cnidaria_cni.Netip.Prefix.{Prefix}
use cnidaria_cni.Kube.{External}
use cnidaria_cni.Kube.Objects.{Node, Namespace, Pod, NetworkPolicy}
use cnidaria_cni.Nftables.Params.{SafePorts}
use cnidaria_cni.Nftables.Params
use cnidaria_cni.Netpol.Types
use cnidaria_cni.Controller.Nodes.{from_node, parsed_cidrs}
use cnidaria_cni.Controller.Pods.{from_pod}
use cnidaria_cni.Controller.Policies.Reading.{Reads}
use cnidaria_cni.Controller.Render.{Cache, Gathered, gather}

module _ (x : External) (node : String) where
  -- The pod CIDRs of all nodes, in order.
  abbrev pub all_cidrs : List Node → List Prefix
  all_cidrs [] = []
  all_cidrs (n ∷ ns) = parsed_cidrs x n.pod_cidrs ++ all_cidrs ns

  -- The last node of this name.
  pub record IsOwn (nodes : List Node) (own : Node) : Type 0 where
    pub before : List Node
    pub after : List Node
    pub split : nodes ≡ before ++ (own ∷ after)
    pub named : own.meta.name ≡ node
    pub last : All (λ (n : Node). n.meta.name ≢ node) after

  -- There is no node of this name, or its last one has no pod CIDR that parses.
  abbrev pub HasNoCidr : List Node → Type 0
  HasNoCidr nodes =
      All (λ (n : Node). n.meta.name ≢ node) nodes
      ⊎ ((own : Node) × IsOwn nodes own × (parsed_cidrs x own.pod_cidrs ≡ []))

  -- What is gathered of nodes, after what was gathered before.
  pub record Gathers (g : Gathered) (nodes : List Node) (all : Gathered) : Type 0 where
    pub cluster : all.cluster_pod_cidrs ≡ g.cluster_pod_cidrs ++ all_cidrs nodes
    pub own :
        (All (λ (n : Node). n.meta.name ≢ node) nodes
          × (all.pod_cidrs ≡ g.pod_cidrs)
          × (all.labels ≡ g.labels))
        ⊎ ((own : Node) × IsOwn nodes own
            × (all.pod_cidrs ≡ parsed_cidrs x own.pod_cidrs)
            × (all.labels ≡ own.meta.labels))

  IsOwn-later : (n : Node) (ns : List Node) (own : Node) → IsOwn ns own → IsOwn (n ∷ ns) own
  IsOwn-later n ns own o = record {
    before = n ∷ o.before;
    after = o.after;
    split = ap (λ l. n ∷ l) o.split;
    named = o.named;
    last = o.last;
  }

  pub gather-Gathers : (g : Gathered) (nodes : List Node) → Gathers g nodes (gather x node g nodes)
  unfolding gather from_node
  gather-Gathers g [] = record {
    cluster = sym (append-nil g.cluster_pod_cidrs);
    own = inl (tt, refl, refl);
  }
  gather-Gathers g (n ∷ ns) = elim (Bool-cases (n.meta.name == node)) [
    | inl own ↦
        let next : Gathered = record {
          cluster_pod_cidrs = g.cluster_pod_cidrs ++ parsed_cidrs x n.pod_cidrs;
          pod_cidrs = parsed_cidrs x n.pod_cidrs;
          labels = n.meta.labels;
        } in
        let rest = gather-Gathers next ns in
        rw own (record {
          cluster =
              rest.cluster
              ∙ append_assoc g.cluster_pod_cidrs (parsed_cidrs x n.pod_cidrs) (all_cidrs ns);
          own = elim rest.own [
            | inl (none_later, cidrs, labels) ↦ inr (
              n,
              record {
                before = [];
                after = ns;
                split = refl;
                named = (string_eq.beq_iff n.meta.name node).0 own;
                last = none_later;
              },
              cidrs,
              labels,
            )
            | inr (m, is_own, cidrs, labels) ↦ inr (m, IsOwn-later n ns m is_own, cidrs, labels)
          ];
        })
    | inr other ↦
        let next : Gathered = record {
          cluster_pod_cidrs = g.cluster_pod_cidrs ++ parsed_cidrs x n.pod_cidrs;
          pod_cidrs = g.pod_cidrs;
          labels = g.labels;
        } in
        let rest = gather-Gathers next ns in
        rw other (record {
          cluster =
              rest.cluster
              ∙ append_assoc g.cluster_pod_cidrs (parsed_cidrs x n.pod_cidrs) (all_cidrs ns);
          own = elim rest.own [
            | inl (none_later, cidrs, labels) ↦
                inl ((differs_text n.meta.name node other, none_later), cidrs, labels)
            | inr (m, is_own, cidrs, labels) ↦ inr (m, IsOwn-later n ns m is_own, cidrs, labels)
          ];
        })
  ]

  -- Everything that is listed, with this node.
  pub record Inputs (cache : Cache) : Type 0 where
    pub nodes : List Node
    pub nodes_listed : cache.nodes ≡ ok nodes
    pub own : Node
    pub is_own : IsOwn nodes own
    pub pods : List Pod
    pub pods_listed : cache.pods ≡ ok pods
    pub namespaces : List Namespace
    pub namespaces_listed : cache.namespaces ≡ ok namespaces
    pub policies : List NetworkPolicy
    pub policies_listed : cache.network_policies ≡ ok policies

  -- The parameters of the table: the CIDRs of this node and of all, and the ports given.
  abbrev pub skeleton_params : {cache : Cache} → SafePorts → Inputs cache → Params.Params
  skeleton_params ports i = record {
    pod_cidrs = parsed_cidrs x i.own.pod_cidrs;
    cluster_pod_cidrs = all_cidrs i.nodes;
    safe_ports = ports;
  }

  -- What is read of the pods, the namespaces and the policies, one by one.
  pub record Reading {cache : Cache} (i : Inputs cache) : Type 0 where
    pub network : Types.Params
    pub node_named : network.node_name ≡ node
    pub every_pod : Each (λ pod read. from_pod x pod ≡ read) i.pods network.pods
    pub every_namespace :
        Each
          (λ (n : Namespace) (read : Types.Namespace).
            (read.name ≡ n.meta.name) × (read.labels ≡ n.meta.labels))
          i.namespaces
          network.namespaces
    pub every_policy : Each (Reads x) i.policies network.policies
