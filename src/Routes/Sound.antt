-- ===== src/Routes/Sound.antt =====
-- What routes `Compute` gives, for which pod CIDRs, and over which next hops.
use mathlib.Core.List.{Memᴰ}
use mathlib.Core.Path.{subst}
use cnidaria_cni.Base.{
  String, ◌≡◌, refl, ◌≢◌, Bool, Option-cases, some, List, [], ◌∷◌, arith, string_eq, inl, inr, All,
  All-imp, All-append, Bool-cases, differs_text, sort_func-All, ◌==◌, none, sym,
}
use cnidaria_cni.Netip.Addr.{Addr, is6}
use cnidaria_cni.Netip.Prefix.{Prefix, masked}
use cnidaria_cni.Routes.{
  Node, Route, first_of_family, next_hop, node_routes, Missing, all_routes, compute, by_route,
  family,
}

first_of_family-same :
    (ips : List Addr) (v6 : Bool) {via : Addr} → first_of_family ips v6 ≡ some via → is6 via ≡ v6
unfolding first_of_family
first_of_family-same [] v6 h = cc
first_of_family-same (a ∷ rest) v6 {via} h =
    ground (arith, first_of_family-same rest v6 {via = via})

-- A next hop is of the family asked for.
pub next_hop-same : (n : Node) (v6 : Bool) {via : Addr} → next_hop n v6 ≡ some via → is6 via ≡ v6
unfolding next_hop
next_hop-same n v6 {via} h = elim (Option-cases (first_of_family n.internal_ips v6)) [
  | inl missing ↦ ground arith
  | inr (a, found) ↦ ground (arith, first_of_family-same n.internal_ips v6 {via = a} found)
]

-- A route for a pod CIDR of another node, over a next hop of the CIDR's family.
pub record Leads (self : String) (nodes : List Node) (r : Route) : Type 0 where
  pub to : Node
  pub known : Memᴰ to nodes
  pub other : to.name ≢ self
  pub named : r.node ≡ to.name
  pub cidr : Prefix
  pub held : Memᴰ cidr to.pod_cidrs
  pub dst : r.dst ≡ masked cidr
  pub hop : next_hop to (is6 cidr.addr) ≡ some r.via
  pub family : is6 r.via ≡ is6 cidr.addr

-- The same with the node and the CIDR left in the middle of a loop.
LeadsFrom : Node → List Prefix → Route → Type 0
LeadsFrom n cidrs r =
    (cidr : Prefix) × Memᴰ cidr cidrs
    × (r.node ≡ n.name)
    × (r.dst ≡ masked cidr)
    × (next_hop n (is6 cidr.addr) ≡ some r.via)

LeadsFrom-later :
    (n : Node) (c : Prefix) (cidrs : List Prefix) (r : Route)
    → LeadsFrom n cidrs r
    → LeadsFrom n (c ∷ cidrs) r
unfolding LeadsFrom
LeadsFrom-later n c cidrs r (cidr, m, named, dst, hop) = (cidr, Memᴰ.tail m, named, dst, hop)

pub node_routes_missing :
    (n : Node) (cidr : Prefix) (rest : List Prefix)
    → next_hop n (is6 cidr.addr) ≡ none
    → node_routes n (cidr ∷ rest) ≡ (
      (node_routes n rest).0,
      record { node = n.name; family = family cidr.addr; pod_cidr = cidr } ∷ (node_routes n rest).1,
    )
unfolding node_routes
node_routes_missing n cidr rest h = rw (h, node_routes) refl

pub node_routes_found :
    (n : Node) (cidr : Prefix) (rest : List Prefix) {via : Addr}
    → next_hop n (is6 cidr.addr) ≡ some via
    → node_routes n (cidr ∷ rest) ≡ (
      record { node = n.name; dst = masked cidr; via = via } ∷ (node_routes n rest).0,
      (node_routes n rest).1,
    )
unfolding node_routes
node_routes_found n cidr rest h = rw (h, node_routes) refl

node_routes-leads :
    (n : Node) (cidrs : List Prefix) → All (LeadsFrom n cidrs) (node_routes n cidrs).0
unfolding node_routes LeadsFrom
node_routes-leads n [] = tt
node_routes-leads n (cidr ∷ rest) =
    let later =
      All-imp (LeadsFrom n (cidr ∷ rest)) (LeadsFrom-later n cidr rest) (node_routes n rest).0
        (node_routes-leads n rest) in
    elim (Option-cases (next_hop n (is6 cidr.addr))) [
      | inl missing ↦
          subst (λ (q : List Route × List Missing). All (LeadsFrom n (cidr ∷ rest)) q.0)
            (sym (node_routes_missing n cidr rest missing)) later
      | inr (via, found) ↦
          subst (λ (q : List Route × List Missing). All (LeadsFrom n (cidr ∷ rest)) q.0)
            (sym (node_routes_found n cidr rest found))
            ((cidr, Memᴰ.head refl, refl, refl, found), later)
    ]

Leads-of :
    (self : String) (n : Node) (rest : List Node)
    → n.name ≢ self
    → (r : Route) → LeadsFrom n n.pod_cidrs r
    → Leads self (n ∷ rest) r
unfolding LeadsFrom
Leads-of self n rest other r (cidr, m, named, dst, hop) = record {
  to = n;
  known = Memᴰ.head refl;
  other = other;
  named = named;
  cidr = cidr;
  held = m;
  dst = dst;
  hop = hop;
  family = next_hop-same n (is6 cidr.addr) {via = r.via} hop;
}

Leads-later :
    (self : String) (n : Node) (rest : List Node) (r : Route)
    → Leads self rest r
    → Leads self (n ∷ rest) r
Leads-later self n rest r l = record {
  to = l.to;
  known = Memᴰ.tail l.known;
  other = l.other;
  named = l.named;
  cidr = l.cidr;
  held = l.held;
  dst = l.dst;
  hop = l.hop;
  family = l.family;
}

all_routes-Leads :
    (self : String) (nodes : List Node) → All (Leads self nodes) (all_routes self nodes).0
unfolding all_routes
all_routes-Leads self [] = tt
all_routes-Leads self (n ∷ rest) =
    let later =
      All-imp (Leads self (n ∷ rest)) (Leads-later self n rest) (all_routes self rest).0
        (all_routes-Leads self rest) in
    elim (Bool-cases (n.name == self)) [
      | inl own ↦ rw own later
      | inr other ↦
          let here =
            All-imp (Leads self (n ∷ rest)) (Leads-of self n rest (differs_text n.name self other))
              (node_routes n n.pod_cidrs).0 (node_routes-leads n n.pod_cidrs) in
          rw other (
            All-append (Leads self (n ∷ rest)) (node_routes n n.pod_cidrs).0
              (all_routes self rest).0 here later)
    ]

-- Every route that `compute` gives leads to a pod CIDR of a node of the list other than this one, masked, over that
-- node's next hop for the CIDR's family, which is an address of that family.
pub compute-Leads :
    (self : String) (nodes : List Node) → All (Leads self nodes) (compute self nodes).0
unfolding compute
compute-Leads self nodes =
    sort_func-All by_route (Leads self nodes) (all_routes self nodes).0
      (all_routes-Leads self nodes)
