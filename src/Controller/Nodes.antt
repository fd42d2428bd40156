-- ===== src/Controller/Nodes.antt =====
-- internal/controller/routes.go: what the route computation reads off a Node (`fromNode`).
use cnidaria_cni.Base.{
  String, ◌||◌, not, Option, none, some, List, [], ◌∷◌, if◌then◌else◌, ◌==◌, string_eq, ok, err,
  lookup,
}
use cnidaria_cni.Netip.Addr.{Addr, no_addr, is6, is4_in6, is_global_unicast}
use cnidaria_cni.Netip.Prefix.{Prefix}
use cnidaria_cni.Kube.{External}
use cnidaria_cni.Kube.Objects.{Node, NodeAddress}
use cnidaria_cni.Routes

-- `NodeIPv6Annotation`
abbrev pub node_ipv6_annotation : String
node_ipv6_annotation = "cnidaria.unstable.cloud/node-ipv6"

module _ (x : External) where
  -- The loop over the pod CIDRs: one that does not parse is left out.
  unfoldable pub parsed_cidrs : List String → List Prefix
  parsed_cidrs [] = []
  parsed_cidrs (s ∷ ss) = elim (x.parse_prefix s) [
    | err e ↦ parsed_cidrs ss
    | ok p ↦ p ∷ parsed_cidrs ss
  ]

  -- The loop over the addresses, of which the internal ones that parse are kept.
  unfoldable pub internal_ips : List NodeAddress → List Addr
  internal_ips [] = []
  internal_ips (a ∷ rest) =
      let later = internal_ips rest in
      let kept : List Addr = elim (x.parse_addr a.address) [ err e ↦ later | ok ip ↦ ip ∷ later ] in
      if not (a.type == "InternalIP") then later else kept

  abbrev usable_ip : Addr → Addr
  unfolding is_global_unicast
  usable_ip ip = if not (is6 ip) || is4_in6 ip || not (is_global_unicast ip) then no_addr else ip

  -- The annotated address, if it is a global unicast IPv6 one.
  unfoldable pub annotated_ipv6 : Option String → Addr
  unfolding usable_ip is_global_unicast
  annotated_ipv6 none = no_addr
  annotated_ipv6 (some s) = elim (x.parse_addr s) [ err e ↦ no_addr | ok ip ↦ usable_ip ip ]

  -- `fromNode`
  unfoldable pub from_node : Node → Routes.Node
  unfolding parsed_cidrs internal_ips annotated_ipv6 lookup
  from_node n = record {
    name = n.meta.name;
    pod_cidrs = parsed_cidrs n.pod_cidrs;
    internal_ips = internal_ips n.addresses;
    annotated_ipv6 = annotated_ipv6 (lookup node_ipv6_annotation n.meta.annotations);
  }
