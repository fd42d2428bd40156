-- ===== src/Routes/Following.antt =====
-- `Compute` and `Kernel.Apply` one after the other, as `Routes.Reconcile` of
-- internal/controller/routes.go runs them.
use cnidaria_cni.Base.{
  ◌≡◌, sym, ap, ◌∙◌, String, Option, none, some, List, [], ◌∷◌, ◌==◌, All, All-imp, arith,
  Bool-cases, ◌⊎◌, inl, inr,
}
use cnidaria_cni.Netip.Addr.{Addr}
use cnidaria_cni.Netip.Prefix.{Prefix, prefix_eq, masked, masked_again}
use cnidaria_cni.Routes.{Node, Route, compute}
use cnidaria_cni.Routes.Sound.{Leads, compute-Leads}
use cnidaria_cni.Routes.Kernel.{Netlink, apply}
use cnidaria_cni.Routes.Converging.{IsRoutingTable, wanted_via, apply-via}

-- A next hop that is not the other one is that of a wanted route to the destination.
wanted_via-All :
    (P : Route → Type 0) (want : List Route) (d : Prefix) (other : Option Addr) (a : Addr)
    → All P want
    → wanted_via want d other ≡ some a
    → (other ≡ some a) ⊎ ((r : Route) × P r × (r.dst ≡ d) × (r.via ≡ a))
wanted_via-All P [] d other a ps h = inl h
wanted_via-All P (r ∷ rest) d other a (p, ps) h = elim (Bool-cases (r.dst == d)) [
  | inr differs ↦ wanted_via-All P rest d other a ps (rw differs at h)
  | inl same ↦ elim (wanted_via-All P rest d (some r.via) a ps (rw same at h)) [
    | inl here ↦ inr (r, p, (prefix_eq.beq_iff r.dst d).0 same, ground arith)
    | inr later ↦ inr later
  ]
]

Leads-masked :
    (self : String) (nodes : List Node) (r : Route) → Leads self nodes r → masked r.dst ≡ r.dst
Leads-masked self nodes r l = ap (λ p. masked p) l.dst ∙ masked_again l.cidr ∙ sym l.dst

module _ {K : Type 0} (netlink : Netlink K) (via : K → Prefix → Option Addr)
    (table : IsRoutingTable netlink via) where
  -- Over a netlink that answers for a routing table, if Apply of what Compute gives for a node reports
  -- no failure, then each route that the kernel holds for the protocol leads to a pod CIDR of another
  -- node of the list, over that node's next hop for the CIDR's family.
  pub apply-compute-Leads :
      (self : String) (nodes : List Node) (k : K) {installed : List Route} {k' : K}
      → apply netlink (compute self nodes).0 k ≡ (installed, [], k')
      → (d : Prefix) (a : Addr) → via k' d ≡ some a
      → (r : Route) × Leads self nodes r × (r.dst ≡ d) × (r.via ≡ a)
  apply-compute-Leads self nodes k h d a found =
      let want = (compute self nodes).0 in
      let leads = compute-Leads self nodes in
      let masks =
        All-imp (λ (r : Route). masked r.dst ≡ r.dst) (Leads-masked self nodes) want leads in
      let whole = apply-via netlink via table want k masks h d in
      elim (wanted_via-All (Leads self nodes) want d none a leads (sym whole ∙ found)) [
        | inl nothing ↦ absurd (ground arith)
        | inr route ↦ route
      ]
