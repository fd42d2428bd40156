-- ===== src/Netpol/Isolating.antt =====
-- Which addresses `Add` isolates.
pub mod Marking
use cnidaria_cni.Base.{
  String, ◌≡◌, refl, sym, ◌∙◌, Bool, false, ◌&&◌, ◌||◌, List, [], ◌∷◌, arith, if◌then◌else◌, ◌==◌,
  string_eq, Bool-cases, inl, inr, contains, ok, any, err, map_err, map_err-eq-ok, >>=-eq-ok, none,
  ap, ◌<>◌, ◌⊎◌,
}
use mathlib.Core.Path.{subst}
use cnidaria_cni.Netip.Addr.{Addr, addr_eq}
use cnidaria_cni.Nftables.Ruleset.{Chain}
use cnidaria_cni.Netpol.Types.{Pod, NetworkPolicy, governs}
use cnidaria_cni.Netpol.Sets.{
  Dir, State, isolated, pod_ips, pod_sets, as_selector, full_name, append_chain, egress, ingress,
  Cluster,
}
use cnidaria_cni.Netpol.Policy.{
  put_jumps, isolate_all, direction_rules, jumps_to, direction_chain, policy_direction,
  selected_pods, render_policy, add_policy,
}
use cnidaria_cni.Netpol.Frame.{pod_sets-OnlySets, direction_rules-OnlySets}
use cnidaria_cni.Nftables.Identifier.{identifier}
use cnidaria_cni.Netpol.Match.{PodAddrs}
use cnidaria_cni.Kube.{External, Labels}
use cnidaria_cni.Netpol.Add.{add_policies}
use cnidaria_cni.Nftables.Validate.{is_empty, is_empty-eq}
use cnidaria_cni.Netpol.Isolating.Marking.{
  alike, isolate_all_lem, OnlySets-isolated, put_jumps-isolated,
}

-- The type of a policy of one of the two directions.
abbrev pub IsWay : String → Type 0
IsWay t = (t ≡ ingress.typ) ⊎ (t ≡ egress.typ)

two_ways :
    (t : String) (g : String → Bool) (b rest : Bool)
    → IsWay t
    → ((alike t egress.typ && g egress.typ && b)
        || ((alike t ingress.typ && g ingress.typ && b) || rest))
      ≡ ((g t && b) || rest)
two_ways t g b rest (inl e) = rw e refl
two_ways t g b rest (inr e) = rw e (tidy (g "Egress" && b) rest)
  where
    tidy : (u v : Bool) → (u || (false || v)) ≡ (u || v)
    tidy u v = refl

module _ (x : External) (c : Cluster) (t : String) (a : Addr) where
  direction_chain-isolates :
      (p : NetworkPolicy) (d : Dir) (selected : List Pod) (addrs : PodAddrs) (s : State)
      {s' : State}
      → direction_chain x c p d selected addrs s ≡ ok s'
      → contains (isolated s' t) a
        ≡ ((alike t d.typ && contains (pod_ips selected) a) || contains (isolated s t) a)
  unfolding direction_chain
  direction_chain-isolates p d selected addrs s {s'} h =
      let (chain, named, rest) =
        >>=-eq-ok (identifier x.sha256_hex d.chain_prefix (p.namespace ∷ p.name ∷ [])) _ h in
      let ((rules, s1), ruled, rest1) = >>=-eq-ok (direction_rules x c p d selected s) _ rest in
      let comment = full_name p.namespace p.name in
      let new_chain : Chain = record {
        name = chain;
        base = none;
        rules = rules;
        comment = "NetworkPolicy " <> (comment <> (", " <> d.typ));
      } in
      let (s2, put, whole) =
        >>=-eq-ok (put_jumps d (jumps_to d addrs chain comment) (append_chain new_chain s1)) _
          rest1 in
      let last : isolate_all d.typ (pod_ips selected) s2 ≡ s' = ground arith in
      let before : isolated s2 t ≡ isolated s t =
        put_jumps-isolated d _ (append_chain new_chain s1) t put
        ∙ OnlySets-isolated t (direction_rules-OnlySets x c p d selected s ruled) in
      subst
        (λ (z : State).
          contains (isolated z t) a
          ≡ ((alike t d.typ && contains (pod_ips selected) a) || contains (isolated s t) a))
        last
        (isolate_all_lem t d.typ (pod_ips selected) a s2
          ∙ ap (λ l. (alike t d.typ && contains (pod_ips selected) a) || contains l a) before)

  policy_direction-isolates :
      (p : NetworkPolicy) (d : Dir) (selected : List Pod) (addrs : PodAddrs) (s : State)
      {s' : State}
      → policy_direction x c p d selected addrs s ≡ ok s'
      → contains (isolated s' t) a ≡ (
          (alike t d.typ && governs p d.typ && contains (pod_ips selected) a)
          || contains (isolated s t) a)
  unfolding policy_direction
  policy_direction-isolates p d selected addrs s {s'} h = elim (Bool-cases (governs p d.typ)) [
    | inl governed ↦
        let done = direction_chain-isolates p d selected addrs s {s' = s'} (rw governed at h) in
        ground arith
    | inr free ↦
        let same : s ≡ s' = ground arith in
        let kept : contains (isolated s' t) a ≡ contains (isolated s t) a =
          ap (λ (z : State). contains (isolated z t) a) (sym same) in
        ground arith
  ]

  -- Whether a policy isolates an address in a direction.
  unfoldable pub isolates : NetworkPolicy → Bool
  unfolding as_selector contains selected_pods pod_ips governs
  isolates p = elim (as_selector x p.pod_selector) [
    | ok f ↦ governs p t && contains (pod_ips (selected_pods c p f)) a
    | err _ ↦ false
  ]

  render_policy-isolates :
      (p : NetworkPolicy) (selected : List Pod) (s : State) {s' : State}
      → render_policy x c p selected s ≡ ok s'
      → contains (isolated s' t) a ≡ (
          (alike t egress.typ && governs p egress.typ && contains (pod_ips selected) a)
          || ((alike t ingress.typ && governs p ingress.typ && contains (pod_ips selected) a)
              || contains (isolated s t) a))
  unfolding render_policy
  render_policy-isolates p selected s {s'} h =
      let ((addrs, s1), sets, rest) =
        >>=-eq-ok (pod_sets x "pods_" (p.namespace ∷ p.name ∷ []) selected s) _ h in
      let (s2, inward, outward) =
        >>=-eq-ok (policy_direction x c p ingress selected addrs s1) _ rest in
      policy_direction-isolates p egress selected addrs s2 outward
      ∙ ap (λ b. (alike t egress.typ && governs p egress.typ && contains (pod_ips selected) a) || b)
          (policy_direction-isolates p ingress selected addrs s1 inward
            ∙ ap
                (λ l.
                  (alike t ingress.typ && governs p ingress.typ && contains (pod_ips selected) a)
                  || contains l a)
                (OnlySets-isolated t
                  (pod_sets-OnlySets x "pods_" (p.namespace ∷ p.name ∷ []) selected s sets)))

  isolates_selected :
      (p : NetworkPolicy) {f : Labels → Bool}
      → as_selector x p.pod_selector ≡ ok f
      → isolates p ≡ (governs p t && contains (pod_ips (selected_pods c p f)) a)
  unfolding isolates
  isolates_selected p h = rw (h, isolates) refl

  add_policy-isolates :
      (p : NetworkPolicy) (s : State) {s' : State}
      → IsWay t
      → add_policy x c p s ≡ ok s'
      → contains (isolated s' t) a ≡ (isolates p || contains (isolated s t) a)
  unfolding add_policy
  add_policy-isolates p s {s'} way h =
      let (f, chosen, rest) = >>=-eq-ok (as_selector x p.pod_selector) _ h in
      let selected = selected_pods c p f in
      rw (isolates_selected p chosen) (elim (Bool-cases (is_empty selected)) [
        | inl nobody ↦
            let same : s ≡ s' = ground arith in
            let none_held : contains (pod_ips selected) a ≡ false =
              ap (λ l. contains (pod_ips l) a) (is_empty-eq selected nobody) in
            rw none_held (
              subst
                (λ (z : State).
                  contains (isolated z t) a ≡ ((governs p t && false) || contains (isolated s t) a))
                same (ground arith))
        | inr somebody ↦
            render_policy-isolates p selected s {s' = s'} (rw somebody at rest)
            ∙ two_ways t (governs p) (contains (pod_ips selected) a) _ way
      ])

  -- If rendering a list of policies succeeds, an address is isolated in a direction afterwards exactly if it was before
  -- or one of the policies isolates it.
  pub add_policies-isolates :
      (ps : List NetworkPolicy) (s : State) {s' : State}
      → IsWay t
      → add_policies x c ps s ≡ ok s'
      → contains (isolated s' t) a ≡ (any isolates ps || contains (isolated s t) a)
  unfolding add_policies any
  add_policies-isolates [] s way h = ground arith
  add_policies-isolates (p ∷ ps) s {s'} way h =
      let (s1, one, rest) =
        >>=-eq-ok
          (map_err (λ e. "netpol: NetworkPolicy " <> (full_name p.namespace p.name <> (": " <> e)))
            (add_policy x c p s))
          _ h in
      add_policies-isolates ps s1 way rest
      ∙ rw (add_policy-isolates p s way (map_err-eq-ok _ (add_policy x c p s) one))
          (swap (any isolates ps) (isolates p) _)
    where
      swap : (b d e : Bool) → (b || (d || e)) ≡ ((d || b) || e)
      swap b d e = ground arith
