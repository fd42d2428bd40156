-- ===== src/Routes/Accounted.antt =====
-- Each pod CIDR of another node has its route or its report.
use mathlib.Core.List.{Perm}
use mathlib.Core.Path.{subst}
use cnidaria_cni.Base.{
  String, ◌≡◌, sym, Option-cases, none, some, List, [], ◌∷◌, ◌++◌, map, ◌==◌, string_eq, Bool-cases,
  inl, inr, if◌then◌else◌, sort_func-perm,
}
use cnidaria_cni.Netip.Addr.{Addr, is6}
use cnidaria_cni.Netip.Prefix.{Prefix, masked}
use cnidaria_cni.Routes.{
  Node, Route, Missing, next_hop, node_routes, all_routes, compute, by_route, by_missing, family,
}
use cnidaria_cni.Routes.Sound.{node_routes_missing, node_routes_found}

-- The pod CIDRs of the nodes but the one of this name, each with its node.
abbrev pub others_cidrs : String → List Node → List (Node × Prefix)
others_cidrs self [] = []
others_cidrs self (n ∷ rest) =
    let later = others_cidrs self rest in
    if n.name == self then later else map (λ c. (n, c)) n.pod_cidrs ++ later

-- One after the other, a pod CIDR has a route if its node has a next hop of its family, and else a report.
pub data Accounts : List (Node × Prefix) → List Route → List Missing → Type 0 where
  finished : Accounts [] [] []
  routed :
      (n : Node) (c : Prefix) (via : Addr) (rest : List (Node × Prefix)) (rs : List Route)
      (ms : List Missing)
      → next_hop n (is6 c.addr) ≡ some via
      → Accounts rest rs ms
      → Accounts ((n, c) ∷ rest) (record { node = n.name; dst = masked c; via = via } ∷ rs) ms
  reported :
      (n : Node) (c : Prefix) (rest : List (Node × Prefix)) (rs : List Route) (ms : List Missing)
      → next_hop n (is6 c.addr) ≡ none
      → Accounts rest rs ms
      → Accounts ((n, c) ∷ rest) rs (
          record { node = n.name; family = if is6 c.addr then "IPv6" else "IPv4"; pod_cidr = c }
          ∷ ms)

node_routes-Accounts :
    (n : Node) (cidrs : List Prefix) (rest : List (Node × Prefix)) (rs : List Route)
    (ms : List Missing)
    → Accounts rest rs ms
    → Accounts
        (map (λ c. (n, c)) cidrs ++ rest)
        ((node_routes n cidrs).0 ++ rs)
        ((node_routes n cidrs).1 ++ ms)
unfolding node_routes family
node_routes-Accounts n [] rest rs ms later = later
node_routes-Accounts n (c ∷ cidrs) rest rs ms later =
    let ih = node_routes-Accounts n cidrs rest rs ms later in
    elim (Option-cases (next_hop n (is6 c.addr))) [
      | inl nowhere ↦
          subst
            (λ (q : List Route × List Missing).
              Accounts ((n, c) ∷ (map (λ c. (n, c)) cidrs ++ rest)) (q.0 ++ rs) (q.1 ++ ms))
            (sym (node_routes_missing n c cidrs nowhere)) (reported n c _ _ _ nowhere ih)
      | inr (via, found) ↦
          subst
            (λ (q : List Route × List Missing).
              Accounts ((n, c) ∷ (map (λ c. (n, c)) cidrs ++ rest)) (q.0 ++ rs) (q.1 ++ ms))
            (sym (node_routes_found n c cidrs found)) (routed n c via _ _ _ found ih)
    ]

all_routes-Accounts :
    (self : String) (nodes : List Node)
    → Accounts (others_cidrs self nodes) (all_routes self nodes).0 (all_routes self nodes).1
unfolding all_routes
all_routes-Accounts self [] = finished
all_routes-Accounts self (n ∷ rest) =
    let later = all_routes-Accounts self rest in
    elim (Bool-cases (n.name == self)) [
      | inl own ↦ rw own later
      | inr other ↦ rw other (
          node_routes-Accounts n n.pod_cidrs (others_cidrs self rest) (all_routes self rest).0
            (all_routes self rest).1 later)
    ]

-- The routes and the reports of `compute` are, in another order, those that the pod CIDRs of the other
-- nodes give one after the other: a CIDR whose node has a next hop of its family gives one route, to it
-- masked over that hop, and no report; and every other one gives one report, of its node, family and
-- CIDR, and no route.
pub compute-Accounts :
    (self : String) (nodes : List Node)
    → (rs : List Route) × (ms : List Missing) × Perm (compute self nodes).0 rs
      × Perm (compute self nodes).1 ms
      × Accounts (others_cidrs self nodes) rs ms
unfolding compute
compute-Accounts self nodes = (
  (all_routes self nodes).0,
  (all_routes self nodes).1,
  sort_func-perm by_route (all_routes self nodes).0,
  sort_func-perm by_missing (all_routes self nodes).1,
  all_routes-Accounts self nodes,
)
