-- ===== src/Tests/Kernel.antt =====
-- Applying routes to a kernel that is a list of them.
use mathlib.Core.Path.{subst}
use cnidaria_cni.Base.{
  ◌≡◌, refl, sym, ap, false, Option, none, some, List, [], ◌∷◌, if◌then◌else◌, ◌==◌, Result, ok,
  err, map, any, arith, Bool-cases, inl, inr, String,
}
use cnidaria_cni.Netip.Addr.{Addr, v4}
use cnidaria_cni.Netip.Prefix.{Prefix, prefix_eq, masked}
use cnidaria_cni.Routes.{Route, compute}
use cnidaria_cni.Kube.Objects.{Node, ObjectMeta}
use cnidaria_cni.Routes.Kernel.{HeldRoute, Netlink, apply}
use cnidaria_cni.Routes.Converging.{IsRoutingTable, leads_to, wanted_via, apply-via}
use cnidaria_cni.Tests.Data.{external, pod_prefix, ten}
use cnidaria_cni.Routes.Sound.{Leads}
use cnidaria_cni.Controller.Nodes.{from_node}
use cnidaria_cni.Controller.Host.{Host}
use cnidaria_cni.Controller.Reconcile.{resync}
use cnidaria_cni.Controller.RouteReconcile.{Reconciler, reconcile}
use cnidaria_cni.Controller.RouteReconcile.Wired.{wired, reconcile-Leads}

abbrev Table : Type 0
Table = List (Prefix × Addr)

abbrev table_via : Table → Prefix → Option Addr
table_via [] d = none
table_via ((p, a) ∷ k) d = if p == d then some a else table_via k d

abbrev without : Prefix → Table → Table
without d [] = []
without d ((p, a) ∷ k) = let rest = without d k in if p == d then rest else (p, a) ∷ rest

abbrev read_routes : Table → List HeldRoute
read_routes [] = []
read_routes ((p, a) ∷ k) = record { dst = some p; gateway = some a } ∷ read_routes k

abbrev delete_from : Option Prefix → Table → Table
delete_from none k = k
delete_from (some p) k = without p k

abbrev tables : Netlink Table
tables = record {
  list = λ k. ok (read_routes k);
  replace = λ p a k. (none, (p, a) ∷ k);
  delete = λ h k. (none, delete_from h.dst k);
}

read_routes-listed :
    (k : Table) (d : Prefix) → any (leads_to d) (read_routes k) ≡ false → table_via k d ≡ none
unfolding any
read_routes-listed [] d h = refl
read_routes-listed ((p, a) ∷ k) d h = elim (Bool-cases (p == d)) [
  | inl same ↦ absurd (ground arith)
  | inr other ↦ rw other (read_routes-listed k d (rw other at h))
]

table_via-without :
    (k : Table) (p d : Prefix)
    → table_via (without p k) d ≡ (if p == d then none else table_via k d)
table_via-without [] p d = elim (Bool-cases (p == d)) [ inl e ↦ rw e refl | inr e ↦ rw e refl ]
table_via-without ((q, a) ∷ k) p d = elim (Bool-cases (q == p)) [
  | inl same ↦
      let ih = table_via-without k p d in
      let moved : (q == d) ≡ (p == d) = ap (λ i. i == d) ((prefix_eq.beq_iff q p).0 same) in
      elim (Bool-cases (p == d)) [
        | inl e ↦ rw (same, ih, e) refl
        | inr e ↦ rw (same, ih, moved, e) refl
      ]
  | inr other ↦ elim (Bool-cases (q == d)) [
    | inl this ↦ elim (Bool-cases (p == d)) [
      | inl e ↦
          let moved : (q == p) ≡ (q == d) = ap (λ i. q == i) ((prefix_eq.beq_iff p d).0 e) in
          absurd (ground arith)
      | inr e ↦ rw (other, this, e) refl
    ]
    | inr that ↦ (let ih = table_via-without k p d in rw (other, that, ih) refl)
  ]
]

ok_injective :
    {hs hs' : List HeldRoute} → ◌≡◌ {A = Result String (List HeldRoute)} (ok hs) (ok hs') → hs ≡ hs'
ok_injective e = cc

tables-IsRoutingTable : IsRoutingTable tables table_via
tables-IsRoutingTable = record {
  listed = λ k e d h.
      let same : read_routes k ≡ _ = ok_injective e in
      read_routes-listed k d (subst (λ i. any (leads_to d) i ≡ false) (sym same) h);
  replaced = λ p a k went d. refl;
  deleted = λ h p k to gone d. rw to (table_via-without k p d);
}

-- One route is held and no longer wanted, and another one is wanted.
abbrev stale_table : Table
stale_table = (ten, v4 0xc0000201) ∷ []

abbrev wanted : List Route
wanted = record { node = "node-2"; dst = pod_prefix; via = v4 0xc0000202 } ∷ []

applied : apply tables wanted stale_table ≡ (wanted, [], (pod_prefix, v4 0xc0000202) ∷ [])
unfolding apply masked any
applied = refl

apply-via_example : table_via ((pod_prefix, v4 0xc0000202) ∷ []) ten ≡ wanted_via wanted ten none
unfolding masked
apply-via_example =
    apply-via tables table_via tables-IsRoutingTable wanted stale_table (refl, tt) applied ten

abbrev meta_of : String → ObjectMeta
meta_of name = record {
  namespace = "";
  name = name;
  uid = "7";
  resource_version = "42";
  labels = [];
  annotations = [];
  finalizers = [];
}

-- This node, which has no pod CIDR yet, and another one.
abbrev items : List Node
items =
    record { meta = meta_of "node-1"; pod_cidrs = []; addresses = [] }
    ∷ record {
      meta = meta_of "node-2";
      pod_cidrs = "10.0.0.0/8" ∷ [];
      addresses = record { type = "InternalIP"; address = "10.244.1.5" } ∷ [];
    }
    ∷ []

-- A host on which nothing but the routes changes.
abbrev host : Host Table
host = record {
  list_nodes = λ k. ok items;
  patch = λ n k. (none, k);
  apply_routes = λ want k. ([], none, k);
  global_ipv6 = λ on k. ok none;
  apply_forward = λ cidrs k. (none, k);
  interfaces = λ k. ok [];
  files = record {
    read_file = λ path k. err "no such file or directory";
    create_temp = λ path k. (err "read-only file system", k);
    write = λ tmp text k. (none, k);
    chmod = λ tmp mode k. (none, k);
    close = λ tmp k. (none, k);
    rename = λ tmp path k. (none, k);
    remove = λ tmp k. (none, k);
  };
}

abbrev reconciler : Reconciler
reconciler = record {
  node_name = "node-1";
  conflist = record { path = "list"; name = "cnidaria"; bridge = "cni0"; mtu = 0 };
}

reconciled : (reconcile external (wired tables host) reconciler stale_table).0 ≡ ok resync
unfolding reconcile wired masked any
reconciled = refl

reconcile-Leads_example :
    (route : Route) × Leads "node-1" (map (from_node external) items) route
    × (route.dst ≡ ten)
    × (route.via ≡ v4 0x0af40105)
unfolding wired masked any compute from_node
reconcile-Leads_example =
    reconcile-Leads external host reconciler tables table_via tables-IsRoutingTable stale_table refl
      reconciled ten (v4 0x0af40105) refl
