-- ===== src/Netpol/Dispatching.antt =====
-- The chains of the table while the policies are rendered into it.
use mathlib.Core.Path.{subst}
use cnidaria_cni.Base.{
  String, ◌<>◌, ◌≡◌, refl, sym, ap, ◌∙◌, Option-cases, none, List, [], ◌∷◌, ◌++◌, arith, string_eq,
  Bool-cases, inl, inr, Result, ok, err, map_err, map_err-eq-ok, >>=-eq-ok, sort_func,
}
use cnidaria_cni.Netip.Addr.{Addr}
use cnidaria_cni.Kube.{External}
use cnidaria_cni.Nftables.Ruleset.{
  Chain, Rule, Ruleset, chain_named, write_chain, insert_before_last,
}
use cnidaria_cni.Nftables.Validate.{is_empty}
use cnidaria_cni.Nftables.Identifier.{identifier}
use cnidaria_cni.Netpol.Types.{Pod, NetworkPolicy, Params, governs}
use cnidaria_cni.Netpol.Match.{PodAddrs}
use cnidaria_cni.Netpol.Sets.{
  Dir, ingress, egress, Cluster, State, isolated, isolate, pod_ips, pod_sets, as_selector,
  full_name, append_chain,
}
use cnidaria_cni.Netpol.Policy.{
  direction_rules, jumps_to, put_jumps, isolate_all, direction_chain, policy_direction,
  selected_pods, render_policy, add_policy,
}
use cnidaria_cni.Netpol.Add.{
  add_policies, fill_direction, fill_isolated, cluster, start, by_policy_name, add,
}
use cnidaria_cni.Netpol.Frame.{pod_sets-OnlySets, direction_rules-OnlySets}

-- What stays true of a table's chains when one is appended, and when jumps go into a dispatch chain.
pub record IsStable (P : List Chain → Type 0) : Type 0 where
  pub appending : (cs : List Chain) (c : Chain) → P cs → P (cs ++ (c ∷ []))
  pub entering :
      (cs : List Chain) (jumps : List Rule)
      → P cs
      → P (
          write_chain ingress.dispatch
            (λ c. record c { rules = insert_before_last jumps c.rules })
            cs)
  pub leaving :
      (cs : List Chain) (jumps : List Rule)
      → P cs
      → P (
          write_chain egress.dispatch
            (λ c. record c { rules = insert_before_last jumps c.rules })
            cs)

pub isolate_all-chains :
    (t : String) (ips : List Addr) (s : State) → (isolate_all t ips s).table.chains ≡ s.table.chains
unfolding isolate_all isolate
isolate_all-chains t [] s = refl
isolate_all-chains t (ip ∷ ips) s = isolate_all-chains t ips (isolate t ip s) ∙ ground arith

module _ (P : List Chain → Type 0) (stable : IsStable P) (x : External) (c : Cluster) where
  put_jumps-stable :
      (d : Dir) (jumps : List Rule) (s : State) {s' : State}
      → ((cs : List Chain)
          → P cs
          → P (
              write_chain d.dispatch
                (λ c. record c { rules = insert_before_last jumps c.rules })
                cs))
      → put_jumps d jumps s ≡ ok s'
      → P s.table.chains
      → P s'.table.chains
  unfolding put_jumps
  put_jumps-stable d jumps s {s'} writes h p =
      elim (Option-cases (chain_named d.dispatch s.table.chains)) [
        | inl missing ↦ absurd (ground arith)
        | inr (k, found) ↦
            let e : write_chain d.dispatch
                  (λ c. record c { rules = insert_before_last jumps c.rules }) s.table.chains
                ≡ s'.table.chains =
              ground arith in
            subst P e (writes s.table.chains p)
      ]

  direction_chain-stable :
      (p : NetworkPolicy) (d : Dir) (selected : List Pod) (addrs : PodAddrs) (s : State)
      {s' : State}
      → ((cs : List Chain) (jumps : List Rule)
          → P cs
          → P (
              write_chain d.dispatch
                (λ c. record c { rules = insert_before_last jumps c.rules })
                cs))
      → direction_chain x c p d selected addrs s ≡ ok s'
      → P s.table.chains
      → P s'.table.chains
  unfolding direction_chain
  direction_chain-stable p d selected addrs s {s'} writes h held =
      let (chain, named, rest) =
        >>=-eq-ok (identifier x.sha256_hex d.chain_prefix (p.namespace ∷ p.name ∷ [])) _ h in
      let ((rules, s1), ruled, rest1) = >>=-eq-ok (direction_rules x c p d selected s) _ rest in
      let comment = full_name p.namespace p.name in
      let new_chain : Chain = record {
        name = chain;
        base = none;
        rules = rules;
        comment = "NetworkPolicy " <> (comment <> (", " <> d.typ));
      } in
      let (s2, put, whole) =
        >>=-eq-ok (put_jumps d (jumps_to d addrs chain comment) (append_chain new_chain s1)) _
          rest1 in
      let ruled_same : s.table.chains ≡ s1.table.chains =
        sym (direction_rules-OnlySets x c p d selected s ruled).chains in
      let put_held =
        put_jumps-stable d (jumps_to d addrs chain comment) (append_chain new_chain s1) {s' = s2}
          (λ cs. writes cs (jumps_to d addrs chain comment)) put
          (stable.appending s1.table.chains new_chain (subst P ruled_same held)) in
      let last : s2.table.chains ≡ s'.table.chains =
        sym (isolate_all-chains d.typ (pod_ips selected) s2)
        ∙ ap (λ (z : Result String State). chains_of z) whole in
      subst P last put_held
    where
      chains_of : Result String State → List Chain
      chains_of (ok z) = z.table.chains
      chains_of (err e) = []

  pub policy_direction-stable :
      (p : NetworkPolicy) (d : Dir) (selected : List Pod) (addrs : PodAddrs) (s : State)
      {s' : State}
      → ((cs : List Chain) (jumps : List Rule)
          → P cs
          → P (
              write_chain d.dispatch
                (λ c. record c { rules = insert_before_last jumps c.rules })
                cs))
      → policy_direction x c p d selected addrs s ≡ ok s'
      → P s.table.chains
      → P s'.table.chains
  unfolding policy_direction
  policy_direction-stable p d selected addrs s {s'} writes h held =
      elim (Bool-cases (governs p d.typ)) [
        | inl governed ↦
            direction_chain-stable p d selected addrs s {s' = s'} writes (rw governed at h) held
        | inr free ↦ let e : s.table.chains ≡ s'.table.chains = ground arith in subst P e held
      ]

  render_policy-stable :
      (p : NetworkPolicy) (selected : List Pod) (s : State) {s' : State}
      → render_policy x c p selected s ≡ ok s'
      → P s.table.chains
      → P s'.table.chains
  unfolding render_policy
  render_policy-stable p selected s {s'} h held =
      let ((addrs, s1), sets, rest) =
        >>=-eq-ok (pod_sets x "pods_" (p.namespace ∷ p.name ∷ []) selected s) _ h in
      let (s2, inward, outward) =
        >>=-eq-ok (policy_direction x c p ingress selected addrs s1) _ rest in
      let e : s.table.chains ≡ s1.table.chains =
        sym (pod_sets-OnlySets x "pods_" (p.namespace ∷ p.name ∷ []) selected s sets).chains in
      policy_direction-stable p egress selected addrs s2 stable.leaving outward (
        policy_direction-stable p ingress selected addrs s1 stable.entering inward (subst P e held))

  add_policy-stable :
      (p : NetworkPolicy) (s : State) {s' : State}
      → add_policy x c p s ≡ ok s'
      → P s.table.chains
      → P s'.table.chains
  unfolding add_policy
  add_policy-stable p s {s'} h held =
      let (f, chosen, rest) = >>=-eq-ok (as_selector x p.pod_selector) _ h in
      elim (Bool-cases (is_empty (selected_pods c p f))) [
        | inl nobody ↦ let e : s.table.chains ≡ s'.table.chains = ground arith in subst P e held
        | inr somebody ↦
            render_policy-stable p (selected_pods c p f) s {s' = s'} (rw somebody at rest) held
      ]

  pub add_policies-stable :
      (ps : List NetworkPolicy) (s : State) {s' : State}
      → add_policies x c ps s ≡ ok s'
      → P s.table.chains
      → P s'.table.chains
  unfolding add_policies
  add_policies-stable [] s {s'} h held =
      let e : s.table.chains ≡ s'.table.chains = ground arith in subst P e held
  add_policies-stable (p ∷ ps) s {s'} h held =
      let (s1, one, rest) =
        >>=-eq-ok
          (map_err (λ e. "netpol: NetworkPolicy " <> (full_name p.namespace p.name <> (": " <> e)))
            (add_policy x c p s))
          _ h in
      add_policies-stable ps s1 rest
        (add_policy-stable p s (map_err-eq-ok _ (add_policy x c p s) one) held)

pub fill_isolated-chains :
    (s : State) {r : Ruleset} → fill_isolated s ≡ ok r → r.chains ≡ s.table.chains
unfolding fill_isolated
fill_isolated-chains s {r} h =
    let (one, first, rest) =
      >>=-eq-ok (fill_direction ingress (isolated s ingress.typ) s.table.sets) _ h in
    let (two, second, whole) =
      >>=-eq-ok (fill_direction egress (isolated s egress.typ) one) _ rest in
    ground arith

pub add-stable :
    (P : List Chain → Type 0) (x : External) (r : Ruleset) (p : Params) {next : Ruleset}
    → IsStable P
    → add x r p ≡ ok next
    → P r.chains
    → P next.chains
unfolding add
add-stable P x r p {next} stable h held =
    let (s, done, rest) =
      >>=-eq-ok (add_policies x (cluster p) (sort_func by_policy_name p.policies) (start r)) _ h in
    subst P (sym (fill_isolated-chains s rest))
      (add_policies-stable P stable x (cluster p) _ (start r) done held)
