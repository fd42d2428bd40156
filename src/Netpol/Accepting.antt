-- ===== src/Netpol/Accepting.antt =====
-- The chains of NetworkPolicies only accept.
use cnidaria_cni.Base.{
  ℕ, ◌+◌, ◌≡◌, refl, Option-cases, List, [], ◌∷◌, ◌++◌, arith, if◌then◌else◌, ◌==◌, string_eq,
  String, inl, inr, All, All-append, ok, >>=-eq-ok,
}
use mathlib.Core.Path.{subst}
use cnidaria_cni.Kube.{External}
use cnidaria_cni.Nftables.Ruleset.{Rule}
use cnidaria_cni.Netpol.Types.{Pod, NetworkPolicy, Peer, Port, policy_type_egress, rules_of}
use cnidaria_cni.Netpol.Types
use cnidaria_cni.Netpol.Match.{Match, and}
use cnidaria_cni.Netpol.Sets.{Dir, Cluster, State, full_name}
use cnidaria_cni.Netpol.Peers.{peer_matches}
use cnidaria_cni.Netpol.Ports.{port_matches}
use cnidaria_cni.Netpol.Policy.{
  accepts_with, accepts, or_any_peer, peers_rules, entries_rules, direction_rules,
}

-- Rules that only accept.
abbrev pub OnlyAccepts : List Rule → Type 0
OnlyAccepts rs = All (λ (r : Rule). r.verdict ≡ "accept") rs

accepts_with-OnlyAccepts :
    (comment : String) (pm : Match) (qms : List Match) → OnlyAccepts (accepts_with comment pm qms)
unfolding accepts_with
accepts_with-OnlyAccepts comment pm [] = tt
accepts_with-OnlyAccepts comment pm (qm ∷ qms) = elim (Option-cases (and pm qm)) [
  | inl apart ↦ rw (apart, accepts_with) (accepts_with-OnlyAccepts comment pm qms)
  | inr (m, both) ↦ rw (both, accepts_with) (refl, accepts_with-OnlyAccepts comment pm qms)
]

accepts-OnlyAccepts :
    (comment : String) (pms qms : List Match) → OnlyAccepts (accepts comment pms qms)
unfolding accepts
accepts-OnlyAccepts comment [] qms = tt
accepts-OnlyAccepts comment (pm ∷ pms) qms =
    All-append _ (accepts_with comment pm qms) (accepts comment pms qms)
      (accepts_with-OnlyAccepts comment pm qms) (accepts-OnlyAccepts comment pms qms)

module _ (x : External) (c : Cluster) (policy : NetworkPolicy) (d : Dir) (selected : List Pod) where
  peers_rules-OnlyAccepts :
      (i j : ℕ) (peers : List Peer) (ports : List Port) (s : State) {rs : List Rule} {s' : State}
      → peers_rules x c policy d selected i j peers ports s ≡ ok (rs, s')
      → OnlyAccepts rs
  unfolding peers_rules
  peers_rules-OnlyAccepts i j [] ports s {rs} {s'} h =
      let same : [] ≡ rs = ground arith in subst OnlyAccepts same tt
  peers_rules-OnlyAccepts i j (peer ∷ peers) ports s {rs} {s'} h =
      let ((pms, named, s1), one, rest) = >>=-eq-ok (peer_matches x c policy d i j peer s) _ h in
      let ((qms, s2), two, rest2) =
        >>=-eq-ok
          (port_matches x policy d i j ports
            (if d.typ == policy_type_egress then named else selected) s1)
          _ rest in
      let ((later, s3), three, whole) =
        >>=-eq-ok (peers_rules x c policy d selected i (j + 1) peers ports s2) _ rest2 in
      let here = accepts (full_name policy.namespace policy.name) pms qms in
      let same : here ++ later ≡ rs = ground arith in
      subst OnlyAccepts same (
        All-append _ here later (accepts-OnlyAccepts _ pms qms)
          (peers_rules-OnlyAccepts i (j + 1) peers ports s2 three))

  entries_rules-OnlyAccepts :
      (i : ℕ) (entries : List Types.Rule) (s : State) {rs : List Rule} {s' : State}
      → entries_rules x c policy d selected i entries s ≡ ok (rs, s')
      → OnlyAccepts rs
  unfolding entries_rules
  entries_rules-OnlyAccepts i [] s {rs} {s'} h =
      let same : [] ≡ rs = ground arith in subst OnlyAccepts same tt
  entries_rules-OnlyAccepts i (entry ∷ entries) s {rs} {s'} h =
      let ((here, s1), one, rest) =
        >>=-eq-ok (peers_rules x c policy d selected i 0 (or_any_peer entry.peers) entry.ports s) _
          h in
      let ((later, s2), two, whole) =
        >>=-eq-ok (entries_rules x c policy d selected (i + 1) entries s1) _ rest in
      let same : here ++ later ≡ rs = ground arith in
      subst OnlyAccepts same (
        All-append _ here later
          (peers_rules-OnlyAccepts i 0 (or_any_peer entry.peers) entry.ports s one)
          (entries_rules-OnlyAccepts (i + 1) entries s1 two))

  -- If the rules of a policy's direction are rendered, each of them accepts: a policy never takes away
  -- what another one allows.
  pub direction_rules-OnlyAccepts :
      (s : State) {rs : List Rule} {s' : State}
      → direction_rules x c policy d selected s ≡ ok (rs, s')
      → OnlyAccepts rs
  unfolding direction_rules
  direction_rules-OnlyAccepts s h = entries_rules-OnlyAccepts 0 (rules_of policy d.typ) s h
