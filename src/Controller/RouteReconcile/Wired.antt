-- ===== src/Controller/RouteReconcile/Wired.antt =====
-- internal/controller/routes.go over the kernel of internal/routes, as cmd/cnidaria/main.go puts them
-- together.
use cnidaria_cni.Base.{
  String, ◌≡◌, refl, ap, Option, none, some, List, [], ◌∷◌, map, ok, join_errors, arith,
}
use cnidaria_cni.Netip.Addr.{Addr}
use cnidaria_cni.Netip.Prefix.{Prefix}
use cnidaria_cni.Kube.{External}
use cnidaria_cni.Kube.Objects.{Node}
use cnidaria_cni.Routes.{Route, compute}
use cnidaria_cni.Routes.Sound.{Leads}
use cnidaria_cni.Routes.Kernel.{Netlink, apply}
use cnidaria_cni.Routes.Converging.{IsRoutingTable}
use cnidaria_cni.Routes.Following.{apply-compute-Leads}
use cnidaria_cni.Controller.Nodes.{from_node}
use cnidaria_cni.Controller.Host.{Host}
use cnidaria_cni.Controller.Reconcile.{resync}
use cnidaria_cni.Controller.RouteReconcile.{Reconciler, reconcile}
use cnidaria_cni.Controller.RouteReconcile.EveryStep.{after_routes, reconcile_iff}

-- `Kernel.Apply` as the interface of the reconciler has it, its failures joined.
unfoldable pub joined_apply :
    {S : Type 0} → Netlink S → List Route → S → List Route × Option String × S
unfolding apply join_errors
joined_apply netlink want s =
    let (installed, errs, s1) = apply netlink want s in (installed, join_errors (map some errs), s1)

-- The host whose kernel netlink talks to.
unfoldable pub wired : {S : Type 0} → Netlink S → Host S → Host S
unfolding joined_apply
wired netlink host = record host { apply_routes = joined_apply netlink }

no_errors : (errs : List String) → join_errors (map some errs) ≡ none → errs ≡ []
unfolding join_errors
no_errors [] h = refl
no_errors (e ∷ es) h = absurd (ground arith)

module _ {S : Type 0} (x : External) (host : Host S) (r : Reconciler) (netlink : Netlink S)
    (via : S → Prefix → Option Addr) (table : IsRoutingTable netlink via) where
  routes_applied :
      (items : List Node) (s : S)
      → (after_routes x (wired netlink host) r items s).0 ≡ none
      → apply netlink (compute r.node_name (map (from_node x) items)).0 s ≡ (
        (apply netlink (compute r.node_name (map (from_node x) items)).0 s).0,
        [],
        (after_routes x (wired netlink host) r items s).1,
      )
  unfolding wired joined_apply
  routes_applied items s h =
      let p = apply netlink (compute r.node_name (map (from_node x) items)).0 s in
      ap (λ errs. (p.0, errs, p.2)) (no_errors p.1 h)

  -- Over a netlink that answers for a routing table, if the nodes are listed and a reconcile succeeds, then
  -- after its step for the routes each route that the kernel holds for the protocol leads to a pod CIDR
  -- of another node of the list, over that node's next hop for the CIDR's family.
  pub reconcile-Leads :
      (s : S) {items : List Node}
      → host.list_nodes s ≡ ok items
      → (reconcile x (wired netlink host) r s).0 ≡ ok resync
      → (d : Prefix) (a : Addr) → via (after_routes x (wired netlink host) r items s).1 d ≡ some a
      → (route : Route) × Leads r.node_name (map (from_node x) items) route
        × (route.dst ≡ d)
        × (route.via ≡ a)
  unfolding wired
  reconcile-Leads s {items} listed done d a found =
      let (ends, succeeds) = reconcile_iff x (wired netlink host) r s {items = items} listed in
      let (applied, forwarded, written, annotated) = succeeds.0 done in
      apply-compute-Leads netlink via table r.node_name (map (from_node x) items) s
        (routes_applied items s applied) d a found
