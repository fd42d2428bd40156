-- ===== src/Netpol/Standing/Every.antt =====
-- That no policy is missing from the table.
use mathlib.Core.Path.{subst}
use cnidaria_cni.Base.{
  String, ◌<>◌, ◌≡◌, refl, sym, ap, ◌∙◌, Bool, Option-cases, none, List, [], ◌∷◌, ◌++◌, arith,
  Bool-cases, inl, inr, ◌⊎◌, Result, ok, err, map_err, All, map_err-eq-ok, >>=-eq-ok, sort_func,
  every_member, All-sort_func, string_eq,
}
use cnidaria_cni.Kube.{External, Labels}
use cnidaria_cni.Nftables.Ruleset.{
  Chain, Rule, Ruleset, chain_named, write_chain, insert_before_last,
}
use cnidaria_cni.Nftables.Ruleset.Inserting.{HasRules, HasRules-last, HasRules-write}
use cnidaria_cni.Nftables.Validate.{is_empty, is_empty-eq}
use cnidaria_cni.Nftables.Identifier.{identifier}
use cnidaria_cni.Netpol.Types.{Pod, NetworkPolicy, Params, governs}
use cnidaria_cni.Netpol.Match.{PodAddrs}
use cnidaria_cni.Netpol.Sets.{
  Dir, ingress, egress, Cluster, State, pod_ips, pod_sets, as_selector, full_name, append_chain,
}
use cnidaria_cni.Netpol.Policy.{
  direction_rules, jumps_to, put_jumps, direction_chain, policy_direction, selected_pods,
  render_policy, add_policy,
}
use cnidaria_cni.Netpol.Add.{add_policies, cluster, start, by_policy_name, add}
use cnidaria_cni.Netpol.Dispatching.{
  IsStable, isolate_all-chains, policy_direction-stable, add_policies-stable, fill_isolated-chains,
}
use cnidaria_cni.Netpol.Standing.Finding.{FoundWith, FoundWith-jumps}
use cnidaria_cni.Netpol.Standing.Jumping.{IsDirected, jumps_to-HasJumps}
use cnidaria_cni.Netpol.Standing.{Rendered, InPlace, InPlace-stable}

-- What `put_jumps` leaves of the chains that it is given.
put_jumps-Found :
    (d : Dir) (jumps : List Rule) (s : State) {s' : State}
    → put_jumps d jumps s ≡ ok s'
    → FoundWith d.dispatch jumps s'.table.chains
      × (write_chain d.dispatch
            (λ c. record c { rules = insert_before_last jumps c.rules })
            s.table.chains
          ≡ s'.table.chains)
unfolding put_jumps
put_jumps-Found d jumps s {s'} h = elim (Option-cases (chain_named d.dispatch s.table.chains)) [
  | inl missing ↦ absurd (ground arith)
  | inr (k, found) ↦
      let e : write_chain d.dispatch (λ c. record c { rules = insert_before_last jumps c.rules })
            s.table.chains
          ≡ s'.table.chains =
        ground arith in
      (
        subst (FoundWith d.dispatch jumps) e
            (FoundWith-jumps d.dispatch jumps s.table.chains {c = k} found),
        e,
      )
]

chains_of : Result String State → List Chain
chains_of (ok z) = z.table.chains
chains_of (err e) = []

module _ (x : External) (c : Cluster) (p : NetworkPolicy) where
  direction_chain-Rendered :
      (d : Dir) (selected : List Pod) (addrs : PodAddrs) (before s : State) {s' : State}
      {filled : State}
      → IsDirected d
      → pod_sets x "pods_" (p.namespace ∷ p.name ∷ []) selected before ≡ ok (addrs, filled)
      → direction_chain x c p d selected addrs s ≡ ok s'
      → Rendered x c p d selected s'.table.chains
  unfolding direction_chain chains_of
  direction_chain-Rendered d selected addrs before s {s'} {filled} ends sets h =
      let (chain, named, rest) =
        >>=-eq-ok (identifier x.sha256_hex d.chain_prefix (p.namespace ∷ p.name ∷ [])) _ h in
      let ((rules, s1), ruled, rest1) = >>=-eq-ok (direction_rules x c p d selected s) _ rest in
      let comment = full_name p.namespace p.name in
      let new_chain : Chain = record {
        name = chain;
        base = none;
        rules = rules;
        comment = "NetworkPolicy " <> (comment <> (", " <> d.typ));
      } in
      let jumps = jumps_to d addrs chain comment in
      let (s2, put, whole) = >>=-eq-ok (put_jumps d jumps (append_chain new_chain s1)) _ rest1 in
      let (found, written) = put_jumps-Found d jumps (append_chain new_chain s1) {s' = s2} put in
      let last : s2.table.chains ≡ s'.table.chains =
        sym (isolate_all-chains d.typ (pod_ips selected) s2) ∙ ap (λ z. chains_of z) whole in
      let there =
        HasRules-write chain d.dispatch rules jumps (s1.table.chains ++ (new_chain ∷ []))
          (HasRules-last chain rules s1.table.chains new_chain (refl, every_member rules)) in
      record {
        chain = chain;
        named = named;
        reached = s;
        left = s1;
        rules = rules;
        ruled = ruled;
        holds = subst (HasRules chain rules) (written ∙ last) there;
        jumps =
            jumps_to-HasJumps x p d selected addrs chain s'.table.chains before ends sets
              (subst (FoundWith d.dispatch jumps) last found);
      }

  policy_direction-InPlace :
      (d : Dir) (selected : List Pod) (addrs : PodAddrs) (before s : State) {s' : State}
      {filled : State}
      → IsDirected d
      → pod_sets x "pods_" (p.namespace ∷ p.name ∷ []) selected before ≡ ok (addrs, filled)
      → policy_direction x c p d selected addrs s ≡ ok s'
      → InPlace x c p d selected s'.table.chains
  unfolding policy_direction
  policy_direction-InPlace d selected addrs before s {s'} {filled} ends sets h =
      elim (Bool-cases (governs p d.typ)) [
        | inr free ↦ inl free
        | inl governed ↦ inr (
            direction_chain-Rendered d selected addrs before s {s' = s'} {filled = filled} ends sets
              (rw governed at h))
      ]

  render_policy-InPlace :
      (selected : List Pod) (s : State) {s' : State}
      → render_policy x c p selected s ≡ ok s'
      → InPlace x c p ingress selected s'.table.chains
        × InPlace x c p egress selected s'.table.chains
  unfolding render_policy
  render_policy-InPlace selected s {s'} h =
      let ((addrs, s1), sets, rest) =
        >>=-eq-ok (pod_sets x "pods_" (p.namespace ∷ p.name ∷ []) selected s) _ h in
      let (s2, inward, outward) =
        >>=-eq-ok (policy_direction x c p ingress selected addrs s1) _ rest in
      let stable = InPlace-stable x c p ingress selected in
      (
        policy_direction-stable (InPlace x c p ingress selected) stable x c p egress selected addrs
            s2 {s' = s'} stable.leaving outward
            (policy_direction-InPlace ingress selected addrs s s1 {s' = s2} {filled = s1}
              (refl, refl) sets inward),
        policy_direction-InPlace egress selected addrs s s2 {s' = s'} {filled = s1} (refl, refl)
            sets outward,
      )

  -- How a policy stands in the table: it selects no usable pod of this node, or each direction that it governs is
  -- rendered for the pods that it selects.
  pub record Stands (cs : List Chain) : Type 0 where
    pub matches : Labels → Bool
    pub selector : as_selector x p.pod_selector ≡ ok matches
    pub placed :
        (selected_pods c p matches ≡ [])
        ⊎ (InPlace x c p ingress (selected_pods c p matches) cs
            × InPlace x c p egress (selected_pods c p matches) cs)

  Stands-moved :
      (cs ds : List Chain)
      → ((d : Dir) (selected : List Pod)
          → InPlace x c p d selected cs
          → InPlace x c p d selected ds)
      → Stands cs
      → Stands ds
  Stands-moved cs ds moved s = record {
    matches = s.matches;
    selector = s.selector;
    placed = elim s.placed [
      | inl nobody ↦ inl nobody
      | inr (one, two) ↦ inr (moved ingress _ one, moved egress _ two)
    ];
  }

  Stands-stable : IsStable Stands
  Stands-stable = record {
    appending =
        λ cs k. Stands-moved cs _ (λ d selected. (InPlace-stable x c p d selected).appending cs k);
    entering = λ cs jumps.
        Stands-moved cs _ (λ d selected. (InPlace-stable x c p d selected).entering cs jumps);
    leaving = λ cs jumps.
        Stands-moved cs _ (λ d selected. (InPlace-stable x c p d selected).leaving cs jumps);
  }

  add_policy-Stands : (s : State) {s' : State} → add_policy x c p s ≡ ok s' → Stands s'.table.chains
  unfolding add_policy
  add_policy-Stands s {s'} h =
      let (f, chosen, rest) = >>=-eq-ok (as_selector x p.pod_selector) _ h in
      elim (Bool-cases (is_empty (selected_pods c p f))) [
        | inl nobody ↦ record {
          matches = f;
          selector = chosen;
          placed = inl (is_empty-eq (selected_pods c p f) nobody);
        }
        | inr somebody ↦ record {
          matches = f;
          selector = chosen;
          placed =
              inr (render_policy-InPlace (selected_pods c p f) s {s' = s'} (rw somebody at rest));
        }
      ]

add_policies-Stands :
    (x : External) (c : Cluster) (ps : List NetworkPolicy) (s : State) {s' : State}
    → add_policies x c ps s ≡ ok s'
    → All (λ p. Stands x c p s'.table.chains) ps
unfolding add_policies
add_policies-Stands x c [] s h = tt
add_policies-Stands x c (p ∷ ps) s {s'} h =
    let (s1, one, rest) =
      >>=-eq-ok
        (map_err (λ e. "netpol: NetworkPolicy " <> (full_name p.namespace p.name <> (": " <> e)))
          (add_policy x c p s))
        _ h in
    (
      add_policies-stable (Stands x c p) (Stands-stable x c p) x c ps s1 {s' = s'} rest
          (add_policy-Stands x c p s {s' = s1} (map_err-eq-ok _ (add_policy x c p s) one)),
      add_policies-Stands x c ps s1 {s' = s'} rest,
    )

-- If `add` succeeds, no policy is missing from the table: each of them selects no usable pod of this node, or has,
-- for each direction that it governs, a chain with the rules of the direction and, in the dispatch chain of the
-- direction, for each family that the selected pods have an address of, a jump to that chain for packets whose
-- destination, on ingress, or source, on egress, is in the set named for the policy and the family.
pub add-Stands :
    (x : External) (r : Ruleset) (p : Params) {next : Ruleset}
    → add x r p ≡ ok next
    → All (λ policy. Stands x (cluster p) policy next.chains) p.policies
unfolding add
add-Stands x r p {next} h =
    let (s, done, rest) =
      >>=-eq-ok (add_policies x (cluster p) (sort_func by_policy_name p.policies) (start r)) _ h in
    subst (λ cs. All (λ policy. Stands x (cluster p) policy cs) p.policies)
      (sym (fill_isolated-chains s rest))
      (All-sort_func (λ policy. Stands x (cluster p) policy s.table.chains) by_policy_name
        p.policies (add_policies-Stands x (cluster p) _ (start r) {s' = s} done))
