-- ===== src/Controller/Render/Explaining.antt =====
-- Every result of `render` is explained.
use mathlib.Core.Path.{subst}
use cnidaria_cni.Base.{
  String, ◌≡◌, refl, sym, ap, ◌∙◌, List, string_eq, inl, inr, Result, ok, err, Result-cases,
  Each-map, traverse, traverse-Each, traverse-err, Bool-cases, true, false, map_err, ◌>>=◌,
}
use cnidaria_cni.Kube.{External}
use cnidaria_cni.Kube.Objects.{Node}
use cnidaria_cni.Netip.Prefix.{Prefix}
use cnidaria_cni.Nftables.Params.{SafePorts}
use cnidaria_cni.Nftables.Params
use cnidaria_cni.Nftables.Ruleset.{Ruleset}
use cnidaria_cni.Nftables.Validate.{is_empty, is_empty-eq}
use cnidaria_cni.Nftables.Render as nftables
use cnidaria_cni.Netpol.Types
use cnidaria_cni.Netpol.Add as netpol
use cnidaria_cni.Controller.{PolicyStatus}
use cnidaria_cni.Controller.Nodes.{parsed_cidrs}
use cnidaria_cni.Controller.Policies.{from_network_policy}
use cnidaria_cni.Controller.Policies.Reading.{Reads, from_network_policy-Reads}
use cnidaria_cni.Controller.Render.{
  Cache, Gathered, nothing_gathered, nothing_rendered, Rendered, gather, nftables_params,
  netpol_params, namespace_of, first_table, add_node_network_policies, render_policies, render_node,
  render,
}
use cnidaria_cni.Controller.Render.Inputs.{
  IsOwn, HasNoCidr, Gathers, gather-Gathers, Inputs, skeleton_params, Reading, all_cidrs,
}
use cnidaria_cni.Controller.Render.Explained.{
  IsHeld, no_cidr, unread, no_skeleton, not_filled, nodes, pods, namespaces, network_policies,
  Explained,
}
use cnidaria_cni.Controller.Render.Finishing.{add_node_network_policies-Explained}

-- What holds after a list that fails or succeeds.
listing :
    {A : Type 0} (P : Result String Rendered → Type 0) (r : Result String A)
    {what : String → String} {k : A → Result String Rendered}
    → ((e : String) → r ≡ err e → P (err (what e)))
    → ((a : A) → r ≡ ok a → P (k a))
    → P (map_err what r >>= k)
listing P (ok a) bad good = good a refl
listing P (err e) bad good = bad e refl

module _ (x : External) (node : String) (ports : SafePorts) (cache : Cache) where
  -- What is read, if every policy can be.
  reading :
      (i : Inputs x node cache) {converted : List Types.NetworkPolicy}
      → traverse (from_network_policy x) i.policies ≡ ok converted
      → Reading x node i
  unfolding netpol_params
  reading i {converted} h = record {
    network = netpol_params x node i.pods i.namespaces converted;
    node_named = refl;
    every_pod = Each-map _ _ (λ pod. refl) i.pods;
    every_namespace = Each-map _ namespace_of (λ n. (refl, refl)) i.namespaces;
    every_policy =
        traverse-Each (Reads x) (from_network_policy x)
          (λ p out. from_network_policy-Reads x p {out = out}) i.policies h;
  }

  -- The results of the steps of `render_policies`.
  unconverted :
      (g : Gathered) (i : Inputs x node cache) {e : String}
      → traverse (from_network_policy x) i.policies ≡ err e
      → render_policies x node ports g i.pods i.namespaces i.policies cache.node_network_policies
        ≡ ok nothing_rendered
  unfolding render_policies
  unconverted g i h = rw (h, render_policies) refl

  unfilled :
      (g : Gathered) (i : Inputs x node cache) {converted : List Types.NetworkPolicy} {e : String}
      → traverse (from_network_policy x) i.policies ≡ ok converted
      → first_table x node
          (nftables_params x node ports g)
          (netpol_params x node i.pods i.namespaces converted)
        ≡ err e
      → render_policies x node ports g i.pods i.namespaces i.policies cache.node_network_policies
        ≡ ok nothing_rendered
  unfolding render_policies
  unfilled g i h k = rw (h, k, render_policies) refl

  went_on :
      (g : Gathered) (i : Inputs x node cache) {converted : List Types.NetworkPolicy}
      {table : Ruleset}
      → traverse (from_network_policy x) i.policies ≡ ok converted
      → first_table x node
          (nftables_params x node ports g)
          (netpol_params x node i.pods i.namespaces converted)
        ≡ ok table
      → render_policies x node ports g i.pods i.namespaces i.policies cache.node_network_policies
        ≡ add_node_network_policies x node cache.node_network_policies g.labels table
  unfolding render_policies
  went_on g i h k = rw (h, k, render_policies) refl

  held :
      {sts : List PolicyStatus}
      → IsHeld x node ports cache sts
      → Explained x node ports cache (ok ("", sts))
  held h = inr (refl, h)

  first_unrendered :
      (q : Params.Params) (network : Types.Params) {e : String}
      → nftables.render q ≡ err e
      → first_table x node q network ≡ err e
  unfolding first_table
  first_unrendered q network h = rw (h, first_table) refl

  first_rendered :
      (q : Params.Params) (network : Types.Params) {skeleton : Ruleset}
      → nftables.render q ≡ ok skeleton
      → first_table x node q network ≡ netpol.add x skeleton network
  unfolding first_table
  first_rendered q network h = rw (h, first_table) refl

  -- The part of `render` from the conversion of the policies on.
  converted-Explained :
      (g : Gathered) (i : Inputs x node cache) {converted : List Types.NetworkPolicy}
      → nftables_params x node ports g ≡ skeleton_params x node ports i
      → g.labels ≡ i.own.meta.labels
      → traverse (from_network_policy x) i.policies ≡ ok converted
      → Explained x node ports cache (
          render_policies x node ports g i.pods i.namespaces i.policies cache.node_network_policies)
  unfolding netpol_params reading
  converted-Explained g i {converted} params labels good =
      let network = netpol_params x node i.pods i.namespaces converted in
      let q = nftables_params x node ports g in
      let same = ap (λ p. nftables.render p) params in
      elim (Result-cases (nftables.render (skeleton_params x node ports i))) [
        | inr (e, bad) ↦
            subst (Explained x node ports cache)
              (sym (unfilled g i good (first_unrendered q network (same ∙ bad))))
              (held (no_skeleton i e bad))
        | inl (skeleton, made) ↦
            let first = first_rendered q network (same ∙ made) in
            elim (Result-cases (netpol.add x skeleton network)) [
              | inr (e, bad) ↦
                  subst (Explained x node ports cache) (sym (unfilled g i good (first ∙ bad)))
                    (held (not_filled i (reading i good) skeleton e made bad))
              | inl (table, filled) ↦
                  subst (Explained x node ports cache)
                    (sym (
                      went_on g i good (first ∙ filled)
                      ∙ ap
                          (λ l.
                            add_node_network_policies x node cache.node_network_policies l table)
                          labels))
                    (add_node_network_policies-Explained x node ports cache (record {
                      inputs = i;
                      read = reading i good;
                      skeleton = skeleton;
                      rendered = made;
                      table = table;
                      filled = filled;
                    }))
            ]
      ]

  render_policies-Explained :
      (g : Gathered) (i : Inputs x node cache)
      → nftables_params x node ports g ≡ skeleton_params x node ports i
      → g.labels ≡ i.own.meta.labels
      → Explained x node ports cache (
          render_policies x node ports g i.pods i.namespaces i.policies cache.node_network_policies)
  render_policies-Explained g i params labels =
      elim (Result-cases (traverse (from_network_policy x) i.policies)) [
        | inr (e, bad) ↦
            let (p, m, failed) = traverse-err (from_network_policy x) i.policies bad in
            subst (Explained x node ports cache) (sym (unconverted g i bad))
              (held (unread i p e m failed))
        | inl (converted, good) ↦ converted-Explained g i params labels good
      ]

  -- Some node of this name has a pod CIDR.
  listed-Explained :
      (g : Gathered) (ns : List Node) (own : Node)
      → cache.nodes ≡ ok ns
      → IsOwn x node ns own
      → nftables_params x node ports g ≡ record {
        pod_cidrs = parsed_cidrs x own.pod_cidrs;
        cluster_pod_cidrs = all_cidrs x node ns;
        safe_ports = ports;
      }
      → g.labels ≡ own.meta.labels
      → is_empty g.pod_cidrs ≡ false
      → Explained x node ports cache (render_node x node ports cache g)
  unfolding render_node
  listed-Explained g ns own nodes_listed is_own params labels some_cidr = rw some_cidr (
      listing (Explained x node ports cache) cache.pods (λ e h. pods e h)
        (λ ps pods_listed.
          listing (Explained x node ports cache) cache.namespaces (λ e h. namespaces e h)
            (λ nss namespaces_listed.
              listing (Explained x node ports cache) cache.network_policies
                (λ e h. network_policies e h)
                (λ policies policies_listed.
                  render_policies-Explained g
                    (record {
                      nodes = ns;
                      nodes_listed = nodes_listed;
                      own = own;
                      is_own = is_own;
                      pods = ps;
                      pods_listed = pods_listed;
                      namespaces = nss;
                      namespaces_listed = namespaces_listed;
                      policies = policies;
                      policies_listed = policies_listed;
                    })
                    params labels))))

  nowhere :
      (g : Gathered) (ns : List Node)
      → cache.nodes ≡ ok ns
      → HasNoCidr x node ns
      → is_empty g.pod_cidrs ≡ true
      → Explained x node ports cache (render_node x node ports cache g)
  unfolding render_node
  nowhere g ns listed none_yet empty = rw empty (held (no_cidr ns listed none_yet))

  -- The part of `render` after the nodes are listed.
  gathered-Explained :
      (ns : List Node) (g : Gathered)
      → cache.nodes ≡ ok ns
      → Gathers x node nothing_gathered ns g
      → Explained x node ports cache (render_node x node ports cache g)
  gathered-Explained ns g listed h = elim h.own [
    | inl (nobody, cidrs, labels) ↦
        nowhere g ns listed (inl nobody) (ap (λ (l : List Prefix). is_empty l) cidrs)
    | inr (own, is_own, cidrs, labels) ↦ elim (Bool-cases (is_empty g.pod_cidrs)) [
      | inl empty ↦
          nowhere g ns listed (inr (own, is_own, sym cidrs ∙ is_empty-eq g.pod_cidrs empty)) empty
      | inr some_cidr ↦
          listed-Explained g ns own listed is_own (rw (cidrs, h.cluster) refl) labels some_cidr
    ]
  ]

  -- Every result of `render` is explained. A text is that of the table that the three renderers make, one
  -- after the other, of everything the cache lists: the pod CIDRs of all nodes and of the last one of this
  -- name, and each pod, namespace, NetworkPolicy and NodeNetworkPolicy, none left out; the statuses are one
  -- for each NodeNetworkPolicy, with the mode that is reported for it. An empty text, and no error, is for
  -- a node without a pod CIDR, for a NetworkPolicy that cannot be read, for a table that the first two
  -- renderers refuse, or for a NodeNetworkPolicy that the last one refuses, and then its message is the only
  -- status. An error is that of a list, or another one of the last renderer.
  pub render-Explained : Explained x node ports cache (render x node ports cache)
  unfolding render
  render-Explained =
      listing (Explained x node ports cache) cache.nodes (λ e h. nodes e h)
        (λ ns listed.
          gathered-Explained ns (gather x node nothing_gathered ns) listed
            (gather-Gathers x node nothing_gathered ns))
