-- ===== src/Controller/RouteReconcile/EveryStep.antt =====
-- Each step runs whatever became of the ones before it.
use cnidaria_cni.Base.{
  String, ◌≡◌, refl, sym, ◌∙◌, ap, ◌↔◌, Option, none, some, List, [], ◌∷◌, map, ◌==◌, string_eq, ok,
  find_first, join_errors, join_errors_iff,
}
use cnidaria_cni.Kube.{External}
use cnidaria_cni.Kube.Objects.{Node}
use cnidaria_cni.Routes.{compute}
use cnidaria_cni.Controller.Nodes.{from_node}
use cnidaria_cni.Controller.Host.{Host, publish_ipv6}
use cnidaria_cni.Controller.Reconcile.{resync}
use cnidaria_cni.Controller.RouteReconcile.{
  Reconciler, pod_cidrs_of, write_conflist, annotate_error, own_steps, steps, outcome,
  reconcile_nodes, reconcile,
}

outcome_iff : (e : Option String) → (outcome e ≡ ok resync) ↔ (e ≡ none)
outcome_iff none = (λ h. refl, λ h. refl)
outcome_iff (some e) = (λ h. cc, λ h. cc)

annotate_error_iff : (e : Option String) → (annotate_error e ≡ none) ↔ (e ≡ none)
unfolding annotate_error
annotate_error_iff none = (λ h. refl, λ h. refl)
annotate_error_iff (some e) = (λ h. cc, λ h. cc)

module _ {S : Type 0} (x : External) (host : Host S) (r : Reconciler) where
  -- What the route set, the forward chain, the CNI configuration file and the annotation of this node
  -- leave, each on what the one before it left. The last two do nothing if this node is not listed.
  abbrev pub after_routes : List Node → S → Option String × S
  after_routes items s =
      let (installed, e, s1) =
        host.apply_routes (compute r.node_name (map (from_node x) items)).0 s in
      (e, s1)

  abbrev pub after_forward : List Node → S → Option String × S
  after_forward items s =
      host.apply_forward (pod_cidrs_of (map (from_node x) items)) (after_routes items s).1

  abbrev own : List Node → Option Node
  own items = find_first (λ (n : Node). n.meta.name == r.node_name) items

  abbrev conflist_of : Option Node → S → Option String × S
  conflist_of none s = (none, s)
  conflist_of (some n) s = write_conflist x host r (from_node x n) s

  abbrev address_of : Option Node → S → Option String × S
  address_of none s = (none, s)
  address_of (some n) s = publish_ipv6 host n (from_node x n) s

  abbrev pub after_conflist : List Node → S → Option String × S
  after_conflist items s = conflist_of (own items) (after_forward items s).1

  abbrev pub after_address : List Node → S → Option String × S
  after_address items s = address_of (own items) (after_conflist items s).1

  own_steps_lem :
      (o : Option Node) (s : S)
      → own_steps x host r o s ≡ (
        (conflist_of o s).0,
        annotate_error (address_of o (conflist_of o s).1).0,
        (address_of o (conflist_of o s).1).1,
      )
  unfolding own_steps annotate_error
  own_steps_lem none s = refl
  own_steps_lem (some n) s = refl

  listed_lem :
      (s : S) {items : List Node}
      → host.list_nodes s ≡ ok items
      → reconcile x host r s ≡ (
        outcome (
            join_errors (
              (after_routes items s).0
              ∷ (after_forward items s).0
              ∷ (after_conflist items s).0
              ∷ annotate_error (after_address items s).0
              ∷ [])),
        (after_address items s).1,
      )
  unfolding reconcile reconcile_nodes steps
  listed_lem s {items} h =
      rw (h, reconcile) (rw (own_steps_lem (own items) (after_forward items s).1) refl)

  -- Once the nodes are listed, a reconcile applies the routes and the forward chain and, if this node is
  -- listed, writes its CNI configuration and publishes its IPv6 address, one after the other, each on
  -- what the one before left, whether or not that failed; and it succeeds exactly if none of them failed.
  pub reconcile_iff :
      (s : S) {items : List Node}
      → host.list_nodes s ≡ ok items
      → ((reconcile x host r s).1 ≡ (after_address items s).1)
        × (((reconcile x host r s).0 ≡ ok resync) ↔ (
            ((after_routes items s).0 ≡ none)
            × ((after_forward items s).0 ≡ none)
            × ((after_conflist items s).0 ≡ none)
            × ((after_address items s).0 ≡ none)))
  reconcile_iff s {items} h =
      let whole = listed_lem s h in
      let errors = join_errors_iff (
        (after_routes items s).0
        ∷ (after_forward items s).0
        ∷ (after_conflist items s).0
        ∷ annotate_error (after_address items s).0
        ∷ []) in
      (
        ap (λ t. t.1) whole,
        (
          λ k.
              let (a, (b, (c, (d, end)))) =
                errors.0 ((outcome_iff _).0 (ap (λ t. t.0) (sym whole) ∙ k)) in
              (a, b, c, (annotate_error_iff (after_address items s).0).0 d),
          λ k.
              ap (λ t. t.0) whole
              ∙ (outcome_iff _).1 (
                  errors.1 (
                    k.0,
                    (k.1, (k.2, ((annotate_error_iff (after_address items s).0).1 k.3, tt))),
                  )),
        ),
      )
