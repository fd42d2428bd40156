-- ===== src/Nftables/Render.antt =====
-- internal/nftables/render.go: the skeleton of the table.
use cnidaria_cni.Base.{String, ◌<>◌, [], ◌∷◌, nat_eq, Result, ok, ◌>>◌, map_err}
use cnidaria_cni.Netip.Prefix.{prefix_eq}
use cnidaria_cni.Nftables.Ruleset.{Ruleset}
use cnidaria_cni.Nftables.Params.{
  Params, set_node_pods_v4, set_node_pods_v6, set_cluster_pods_v4, set_cluster_pods_v6,
  set_isolated_egress_v4, set_isolated_egress_v6, set_isolated_ingress_v4, set_isolated_ingress_v6,
  chain_egress, chain_egress_dispatch, chain_ingress, chain_ingress_dispatch,
}
use cnidaria_cni.Nftables.Validate.{validate}
use cnidaria_cni.Nftables.Families.{split_families}
use cnidaria_cni.Nftables.Chains.{
  prefix_set, isolated_set, pod_chain, dispatch_chain, input_chain, output_chain, postrouting_chain,
}

-- The table that `Render` builds once the parameters are valid.
unfoldable pub skeleton : Params → Ruleset
unfolding split_families prefix_set pod_chain dispatch_chain input_chain output_chain
    postrouting_chain
skeleton p = record {
  sets =
      prefix_set set_node_pods_v4 "ipv4_addr" (split_families p.pod_cidrs).0
        "This node's pod CIDRs (node.spec.podCIDRs)"
      ∷ prefix_set set_node_pods_v6 "ipv6_addr" (split_families p.pod_cidrs).1 ""
      ∷ prefix_set set_cluster_pods_v4 "ipv4_addr" (split_families p.cluster_pod_cidrs).0 (
          "Every node's pod CIDRs: traffic to these stays inside the cluster and is not "
          <> "masqueraded")
      ∷ prefix_set set_cluster_pods_v6 "ipv6_addr" (split_families p.cluster_pod_cidrs).1 ""
      ∷ isolated_set set_isolated_egress_v4 "ipv4_addr" (
          "Pods selected by at least one NetworkPolicy of that policyType; "
          <> "filled by the NetworkPolicy renderer")
      ∷ isolated_set set_isolated_egress_v6 "ipv6_addr" ""
      ∷ isolated_set set_isolated_ingress_v4 "ipv4_addr" ""
      ∷ isolated_set set_isolated_ingress_v6 "ipv6_addr" ""
      ∷ [];
  chains =
      pod_chain chain_egress "filter" "saddr" set_isolated_egress_v4 set_isolated_egress_v6
        chain_egress_dispatch "NetworkPolicy egress, keyed on the source pod (ADR 0003)"
      ∷ dispatch_chain chain_egress_dispatch
      ∷ pod_chain chain_ingress "filter + 1" "daddr" set_isolated_ingress_v4 set_isolated_ingress_v6
          chain_ingress_dispatch "NetworkPolicy ingress, keyed on the destination pod (ADR 0003)"
      ∷ dispatch_chain chain_ingress_dispatch
      ∷ input_chain p.safe_ports
      ∷ output_chain p.safe_ports
      ∷ postrouting_chain
      ∷ [];
}

-- `Render`
unfoldable pub render : Params → Result String Ruleset
unfolding validate skeleton
render p = do map_err (λ e. "nftables: " <> e) (validate p); ok (skeleton p)
