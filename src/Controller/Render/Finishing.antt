-- ===== src/Controller/Render/Finishing.antt =====
-- What the results of the NodeNetworkPolicies' part of `render` come from.
use text.Mathlib.TextLemmas.{cons-append, cons-ne-nil}
use mathlib.Core.Path.{subst}
use cnidaria_cni.Base.{
  String, ◌≡◌, ◌≢◌, refl, sym, ap, ◌∙◌, Option-cases, List, ◌==◌, string_eq, differs_text, inl, inr,
  Result, ok, err, Result-cases, All-imp, Each, Each-map, find_first, find_first-none,
  find_first-splits, lookup, join,
}
use cnidaria_cni.Kube.{External}
use cnidaria_cni.Nftables.Params.{SafePorts}
use cnidaria_cni.Nftables.Ruleset.{Ruleset, ruleset_text}
use cnidaria_cni.Nodepol.Types.{NodeNetworkPolicy}
use cnidaria_cni.Nodepol.Add.{AddError, policy_error, other_error, Modes}
use cnidaria_cni.Controller.{success_entry, statuses}
use cnidaria_cni.Controller.Render.{Cache, after_statuses, add_node_network_policies}
use cnidaria_cni.Controller.Render.Explained.{
  Begun, added, Says, Refuses, refused, node_policies, not_added, Explained,
}

text-full : (r : Ruleset) → ruleset_text r ≢ ""
unfolding ruleset_text join
text-full r e = absurd (cons-ne-nil _ _ (sym (cons-append _ _ _) ∙ e))

module _ (x : External) (node : String) (ports : SafePorts) (cache : Cache) where
  -- The statuses of a success, and of a refusal.
  said_lem :
      (modes : Modes) (policies : List NodeNetworkPolicy)
      → Each (Says x node ports cache modes) policies (statuses node (ok modes) policies).0
  unfolding statuses
  said_lem modes policies = Each-map (Says x node ports cache modes) _ says policies
    where
      says :
          (p : NodeNetworkPolicy)
          → Says x node ports cache modes p
              (record { policy = p; entry = success_entry node p (lookup p.name modes) })
      says p = elim (Option-cases (lookup p.name modes)) [
        | inl none_for ↦ record { about = refl; entry = inl (none_for, rw none_for refl) }
        | inr (mode, found) ↦ record { about = refl; entry = inr (mode, found, rw found refl) }
      ]

  refused_lem :
      (name message : String) (policies : List NodeNetworkPolicy)
      → Refuses x node ports cache policies name message
          (statuses node (err (policy_error name message)) policies).0
  unfolding statuses
  refused_lem name message policies =
      elim (Option-cases (find_first (λ (p : NodeNetworkPolicy). p.name == name) policies)) [
        | inl nobody ↦ inl (
          All-imp (λ (q : NodeNetworkPolicy). q.name ≢ name) (λ q. differs_text q.name name)
              policies (find_first-none _ policies nobody),
          rw nobody refl,
        )
        | inr (p, found) ↦
            let (before, after, split, none_before, passes) =
              find_first-splits (λ (p : NodeNetworkPolicy). p.name == name) policies found in
            inr (
              before,
              after,
              p,
              split,
              All-imp (λ (q : NodeNetworkPolicy). q.name ≢ name) (λ q. differs_text q.name name)
                  before none_before,
              (string_eq.beq_iff p.name name).0 passes,
              rw found refl,
            )
      ]

  after_statuses-Explained :
      (b : Begun x node ports cache) (policies : List NodeNetworkPolicy) (r : Result AddError Modes)
      (last : Ruleset)
      → cache.node_network_policies ≡ ok policies
      → added x node ports cache b policies ≡ (r, last)
      → Explained x node ports cache (after_statuses x node (statuses node r policies) last)
  unfolding after_statuses statuses
  after_statuses-Explained b policies (ok modes) last listed h = inl (record {
    begun = b;
    node_policies = policies;
    node_policies_listed = listed;
    modes = modes;
    last_table = last;
    finished = h;
    printed = refl;
    full = text-full last;
    said = said_lem modes policies;
  })
  after_statuses-Explained b policies (err (other_error e)) last listed h =
      not_added b policies e listed (ap (λ q. q.0) h)
  after_statuses-Explained b policies (err (policy_error name message)) last listed h = inr (
    refl,
    refused b policies name message _ listed (ap (λ q. q.0) h) (refused_lem name message policies),
  )

  pub add_node_network_policies-Explained :
      (b : Begun x node ports cache)
      → Explained x node ports cache (
          add_node_network_policies x node cache.node_network_policies b.inputs.own.meta.labels
            b.table)
  unfolding add_node_network_policies
  add_node_network_policies-Explained b = elim (Result-cases cache.node_network_policies) [
    | inr (e, unlisted) ↦
        subst
          (λ r.
            Explained x node ports cache
              (add_node_network_policies x node r b.inputs.own.meta.labels b.table))
          (sym unlisted) (node_policies e unlisted)
    | inl (policies, listed) ↦
        subst
          (λ r.
            Explained x node ports cache
              (add_node_network_policies x node r b.inputs.own.meta.labels b.table))
          (sym listed) (after_statuses-Explained b policies _ _ listed refl)
  ]
