-- ===== src/Nftables/Chains.antt =====
-- internal/nftables/render.go: the sets and chains of the skeleton.
use cnidaria_cni.Base.{ℕ, String, ◌<>◌, Option, none, some, List, [], ◌∷◌, ◌++◌, nat_eq}
use cnidaria_cni.Netip.Prefix.{prefix_eq}
use cnidaria_cni.Nftables.Ruleset.{Set, Chain, BaseChain, Rule}
use cnidaria_cni.Nftables.Params.{
  PortRange, SafePorts, port_range_text, set_node_pods_v4, set_node_pods_v6, set_cluster_pods_v4,
  set_cluster_pods_v6, chain_input, chain_output, chain_postrouting,
}

abbrev safe_icmp_types : String
safe_icmp_types = "echo-request, destination-unreachable, time-exceeded, parameter-problem"

abbrev safe_icmpv6_types : String
safe_icmpv6_types =
    "echo-request, destination-unreachable, time-exceeded, parameter-problem, packet-too-big, "
    <> ("nd-router-solicit, nd-router-advert, nd-neighbor-solicit, nd-neighbor-advert, "
        <> "mld-listener-query, mld-listener-report, mld-listener-done, mld2-listener-report")

unfoldable pub prefix_set : String → String → List String → String → Set
prefix_set name type elements comment = record {
  name = name;
  type = type;
  flags = "interval" ∷ [];
  elements = elements;
  comment = comment;
}

abbrev pub rule : String → String → String → Rule
rule match verdict comment = record { match = match; verdict = verdict; comment = comment }

abbrev pub base_chain : String → String → String → Option BaseChain
base_chain type hook priority =
    some (record { type = type; hook = hook; priority = priority; policy = "accept" })

-- `podChain`
unfoldable pub pod_chain : String → String → String → String → String → String → String → Chain
pod_chain name priority addr set_v4 set_v6 dispatch comment = record {
  name = name;
  base = base_chain "filter" "forward" priority;
  rules =
      rule "ct state established,related" "accept" "replies follow the connection"
      ∷ rule "icmpv6 type { nd-neighbor-solicit, nd-neighbor-advert }" "accept"
          "neighbour discovery is not policy traffic"
      ∷ rule ("ip " <> (addr <> (" @" <> set_v4))) ("jump " <> dispatch) ("isolated for " <> name)
      ∷ rule ("ip6 " <> (addr <> (" @" <> set_v6))) ("jump " <> dispatch) ("isolated for " <> name)
      ∷ [];
  comment = comment;
}

abbrev pub dispatch_drop : Rule
dispatch_drop = rule "" "drop" "isolated pod, no policy accepted"

-- `dispatchChain`
unfoldable pub dispatch_chain : String → Chain
dispatch_chain name = record {
  name = name;
  base = none;
  rules = dispatch_drop ∷ [];
  comment = "One jump per NetworkPolicy goes ahead of the drop";
}

-- `safeRulesCommon`
unfoldable pub safe_rules_common : String → List Rule
safe_rules_common iface =
    rule "ct state established,related" "accept" "safe: replies to what the node opened"
    ∷ rule (iface <> " \"lo\"") "accept" "safe: loopback"
    ∷ rule ("icmp type { " <> (safe_icmp_types <> " }")) "accept" "safe: icmp"
    ∷ rule ("icmpv6 type { " <> (safe_icmpv6_types <> " }")) "accept" "safe: icmpv6"
    ∷ []

-- `safePort`
unfoldable pub safe_port : String → PortRange → String → Rule
unfolding port_range_text
safe_port proto port what =
    rule (proto <> (" dport " <> port_range_text port)) "accept" ("safe: " <> what)

abbrev pub single : ℕ → PortRange
single port = record { from = port; to = port }

-- `inputChain`
unfoldable pub input_chain : SafePorts → Chain
unfolding safe_rules_common safe_port
input_chain ports = record {
  name = chain_input;
  base = base_chain "filter" "input" "filter";
  rules =
      safe_rules_common "iifname"
      ++ (safe_port "tcp" (single ports.ssh) "ssh"
          ∷ safe_port "tcp" (single ports.kubelet) "kubelet"
          ∷ safe_port "tcp" (single ports.api_server) "apiserver"
          ∷ safe_port "tcp" ports.etcd "etcd"
          ∷ safe_port "tcp" ports.node_port "nodeport"
          ∷ safe_port "udp" ports.node_port "nodeport"
          ∷ []);
  comment = "NodeNetworkPolicy ingress, behind the safe rules a policy cannot remove (ADR 0004)";
}

-- `outputChain`
unfoldable pub output_chain : SafePorts → Chain
unfolding safe_rules_common safe_port
output_chain ports = record {
  name = chain_output;
  base = base_chain "filter" "output" "filter";
  rules =
      safe_rules_common "oifname"
      ++ (safe_port "tcp" (single ports.api_server) "apiserver"
          ∷ safe_port "tcp" ports.etcd "etcd"
          ∷ safe_port "tcp" (single ports.kubelet) "kubelet"
          ∷ safe_port "tcp" (single ports.dns) "dns"
          ∷ safe_port "udp" (single ports.dns) "dns"
          ∷ rule ("ip daddr @" <> set_node_pods_v4) "accept" "safe: this node's pods"
          ∷ rule ("ip6 daddr @" <> set_node_pods_v6) "accept" "safe: this node's pods"
          ∷ []);
  comment = "NodeNetworkPolicy egress, behind the safe rules a policy cannot remove (ADR 0004)";
}

-- `postroutingChain`
unfoldable pub postrouting_chain : Chain
postrouting_chain = record {
  name = chain_postrouting;
  base = base_chain "nat" "postrouting" "srcnat";
  rules =
      rule ("ip saddr @" <> (set_node_pods_v4 <> (" ip daddr != @" <> set_cluster_pods_v4)))
        "masquerade" "pod traffic leaving the cluster"
      ∷ rule ("ip6 saddr @" <> (set_node_pods_v6 <> (" ip6 daddr != @" <> set_cluster_pods_v6)))
          "masquerade" "pod traffic leaving the cluster"
      ∷ [];
  comment = "Masquerade for pod traffic leaving the cluster's pod CIDRs (ADR 0001, ADR 0003)";
}

abbrev pub isolated_set : String → String → String → Set
isolated_set name type comment = record {
  name = name;
  type = type;
  flags = [];
  elements = [];
  comment = comment;
}
