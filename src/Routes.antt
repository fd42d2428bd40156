-- ===== src/Routes.antt =====
-- internal/routes: the routes to the other nodes' pod CIDRs (routes.go), and the choice of a node's
-- own address (kernel.go).
pub mod Sound
pub mod Accounted
pub mod Lowest
pub mod Kernel
pub mod Watching
pub mod OwnAddress
pub mod Converging
pub mod Following
use Prim.Native.String
use cnidaria_cni.Base.{
  String, ◌<>◌, Bool, true, false, ◌&&◌, ◌||◌, not, Option, none, some, List, [], ◌∷◌, ◌++◌,
  if◌then◌else◌, ◌==◌, string_eq, sort_func, then_by, Ordering, le_by,
}
use cnidaria_cni.Netip.Addr.{Addr, no_addr, is4_in6, is6, is_valid, addr_compare, addr_text}
use cnidaria_cni.Netip.Prefix.{Prefix, masked, prefix_text}

-- `Node`; the annotated address is `no_addr` if there is none.
pub record Node : Type 0 where
  pub name : String
  pub pod_cidrs : List Prefix
  pub internal_ips : List Addr
  pub annotated_ipv6 : Addr

-- `Route`
pub record Route : Type 0 where
  pub node : String
  pub dst : Prefix
  pub via : Addr

-- `Missing`
pub record Missing : Type 0 where
  pub node : String
  pub family : String
  pub pod_cidr : Prefix

-- `Route.String`
unfoldable pub route_text : Route → String
unfolding prefix_text addr_text
route_text r = prefix_text r.dst <> (" via " <> (addr_text r.via <> (" (node " <> (r.node <> ")"))))

-- `Missing.String`
unfoldable pub missing_text : Missing → String
unfolding prefix_text
missing_text m =
    let how = if m.family == "IPv6" then "InternalIP or annotated address" else "InternalIP" in
    "node "
    <> (m.node
        <> (" has the "
            <> (m.family
                <> (" pod CIDR "
                    <> (prefix_text m.pod_cidr
                        <> (" but no "
                            <> (m.family
                                <> (" "
                                    <> (how
                                        <> ("; no "
                                            <> (m.family <> " route installed for it")))))))))))

-- `firstOfFamily`
unfoldable pub first_of_family : List Addr → Bool → Option Addr
first_of_family [] v6 = none
first_of_family (a ∷ rest) v6 =
    let later = first_of_family rest v6 in if (if is6 a then v6 else not v6) then some a else later

-- `nextHop`
unfoldable pub next_hop : Node → Bool → Option Addr
unfolding first_of_family
next_hop n v6 = elim (first_of_family n.internal_ips v6) [
  | some via ↦ some via
  | none ↦ if v6 && is6 n.annotated_ipv6 then some n.annotated_ipv6 else none
]

-- `family`
unfoldable pub family : Addr → String
family a = if is6 a then "IPv6" else "IPv4"

-- `byNodeThenPrefix`
unfoldable pub by_node_then_prefix : String → Prefix → String → Prefix → Ordering
unfolding prefix_text
by_node_then_prefix node_a prefix_a node_b prefix_b =
    then_by (String.compare node_a node_b)
      (String.compare (prefix_text prefix_a) (prefix_text prefix_b))

abbrev pub by_route : Route → Route → Ordering
by_route a b = by_node_then_prefix a.node a.dst b.node b.dst

abbrev pub by_missing : Missing → Missing → Ordering
by_missing a b = by_node_then_prefix a.node a.pod_cidr b.node b.pod_cidr

-- The loop over the pod CIDRs of one node.
unfoldable pub node_routes : Node → List Prefix → List Route × List Missing
unfolding next_hop masked family
node_routes n [] = ([], [])
node_routes n (cidr ∷ rest) =
    let (routes, missing) = node_routes n rest in
    elim (next_hop n (is6 cidr.addr)) [
      | none ↦
          (routes, record { node = n.name; family = family cidr.addr; pod_cidr = cidr } ∷ missing)
      | some via ↦ (record { node = n.name; dst = masked cidr; via = via } ∷ routes, missing)
    ]

-- The loop over the nodes.
unfoldable pub all_routes : String → List Node → List Route × List Missing
unfolding node_routes
all_routes self [] = ([], [])
all_routes self (n ∷ rest) =
    let later = all_routes self rest in
    let here = node_routes n n.pod_cidrs in
    if n.name == self then later else (here.0 ++ later.0, here.1 ++ later.1)

-- `Compute`
unfoldable pub compute : String → List Node → List Route × List Missing
unfolding all_routes sort_func by_node_then_prefix
compute self nodes =
    (sort_func by_route (all_routes self nodes).0, sort_func by_missing (all_routes self nodes).1)

-- A netlink address as `pickGlobalIPv6` reads it: the address if there is one, whether its scope is
-- the universe, and whether one of the flags in `unusable` is set.
pub record HeldAddr : Type 0 where
  pub ip : Option Addr
  pub is_universe : Bool
  pub has_unusable_flag : Bool

-- An address that may be picked.
unfoldable pub pickable : HeldAddr → Option Addr
pickable a = elim a.ip [
  | none ↦ none
  | some ip ↦
      if not (is6 ip) || is4_in6 ip || not a.is_universe || a.has_unusable_flag
      then none
      else some ip
]

-- The loop of `pickGlobalIPv6`; `ip.Less(best)` is that `ip` does not come after `best` and is not equal.
unfoldable pub pick_from : Addr → List HeldAddr → Addr
unfolding pickable addr_compare
pick_from best [] = best
pick_from best (a ∷ rest) = elim (pickable a) [
  | none ↦ pick_from best rest
  | some ip ↦
      pick_from (if not (is_valid best) || not (le_by addr_compare best ip) then ip else best) rest
]

-- `pickGlobalIPv6`
unfoldable pub pick_global_ipv6 : List HeldAddr → Option Addr
unfolding pick_from
pick_global_ipv6 addrs =
    if is_valid (pick_from no_addr addrs) then some (pick_from no_addr addrs) else none
