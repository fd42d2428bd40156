-- ===== src/Controller/RouteReconcile.antt =====
-- internal/controller/routes.go: `Routes.Reconcile`, over the host around it.
pub mod EveryStep
pub mod OnDisk
pub mod Wired
use cnidaria_cni.Base.{
  ℕ, String, ◌<>◌, Bool, true, false, Option, none, some, List, [], ◌∷◌, ◌++◌, map, if◌then◌else◌,
  ◌==◌, nat_eq, string_eq, Result, ok, err, ◌>>=◌, map_err, find_first, join_errors,
}
use cnidaria_cni.Netip.Prefix.{Prefix}
use cnidaria_cni.Kube.{External}
use cnidaria_cni.Kube.Objects.{Node}
use cnidaria_cni.Nftables.Validate.{is_empty}
use cnidaria_cni.Routes
use cnidaria_cni.Routes.{Route, compute}
use cnidaria_cni.Conflist.Printing.{render_text}
use cnidaria_cni.Conflist.Writing.{write_file}
use cnidaria_cni.Controller.Nodes.{from_node}
use cnidaria_cni.Controller.Host.{Host, uplink_mtu, publish_ipv6}
use cnidaria_cni.Controller.Reconcile.{resync}

-- `Conflist`
pub record Conflist : Type 0 where
  pub path : String
  pub name : String
  pub bridge : String
  pub mtu : ℕ

-- `Routes`, without the interfaces that `Host` stands for.
pub record Reconciler : Type 0 where
  pub node_name : String
  pub conflist : Conflist

abbrev pub pod_cidrs_of : List Routes.Node → List Prefix
pod_cidrs_of [] = []
pod_cidrs_of (n ∷ ns) = n.pod_cidrs ++ pod_cidrs_of ns

-- The failure of `publishIPv6` as `Reconcile` reports it.
pub annotate_error : Option String → Option String
annotate_error none = none
annotate_error (some e) = some ("node IPv6 annotation: " <> e)

-- A success asks for another run.
abbrev pub outcome : Option String → Result String ℕ
outcome none = ok resync
outcome (some e) = err e

module _ {S : Type 0} (x : External) (host : Host S) (r : Reconciler) where
  unfoldable pub conflist_text : Routes.Node → ℕ → Result String String
  unfolding render_text
  conflist_text self mtu = render_text (record {
    name = r.conflist.name;
    bridge = r.conflist.bridge;
    mtu = mtu;
    pod_cidrs = self.pod_cidrs;
  })

  -- The MTU given, or that of the uplink.
  unfoldable pub chosen_mtu : Routes.Node → S → Result String ℕ
  unfolding uplink_mtu
  chosen_mtu self s =
      if r.conflist.mtu == 0
      then map_err (λ e. "conflist: " <> e) (uplink_mtu self.internal_ips (host.interfaces s))
      else ok r.conflist.mtu

  after_file : Result String Bool × S → Option String × S
  after_file (ok changed, s) = (none, s)
  after_file (err e, s) = (some e, s)

  put_conflist : Result String String → S → Option String × S
  unfolding write_file after_file
  put_conflist (err e) s = (some e, s)
  put_conflist (ok text) s = after_file (write_file host.files r.conflist.path text s)

  -- `writeConflist`
  unfoldable pub write_conflist : Routes.Node → S → Option String × S
  unfolding put_conflist conflist_text chosen_mtu
  write_conflist self s =
      if is_empty self.pod_cidrs
      then (none, s)
      else put_conflist (chosen_mtu self s >>= conflist_text self) s

  -- The steps on this node's own object, if it is listed: what each failed with.
  unfoldable pub own_steps : Option Node → S → Option String × Option String × S
  unfolding write_conflist publish_ipv6 annotate_error from_node
  own_steps none s = (none, none, s)
  own_steps (some n) s =
      let (unwritten, s1) = write_conflist (from_node x n) s in
      let (unannotated, s2) = publish_ipv6 host n (from_node x n) s1 in
      (unwritten, annotate_error unannotated, s2)

  -- The steps after the nodes are read: what each failed with.
  unfoldable pub steps : List Node → S → List (Option String) × S
  unfolding own_steps from_node compute find_first
  steps items s =
      let nodes = map (from_node x) items in
      let (installed, unapplied, s1) = host.apply_routes (compute r.node_name nodes).0 s in
      let (unforwarded, s2) = host.apply_forward (pod_cidrs_of nodes) s1 in
      let (unwritten, unannotated, s3) =
        own_steps (find_first (λ (n : Node). n.meta.name == r.node_name) items) s2 in
      (unapplied ∷ unforwarded ∷ unwritten ∷ unannotated ∷ [], s3)

  reconcile_nodes : Result String (List Node) → S → Result String ℕ × S
  unfolding steps join_errors
  reconcile_nodes (err e) s = (err ("list nodes: " <> e), s)
  reconcile_nodes (ok items) s =
      let (errors, s1) = steps items s in (outcome (join_errors errors), s1)

  -- `Reconcile`
  unfoldable pub reconcile : S → Result String ℕ × S
  unfolding reconcile_nodes
  reconcile s = reconcile_nodes (host.list_nodes s) s
