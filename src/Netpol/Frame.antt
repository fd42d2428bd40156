-- ===== src/Netpol/Frame.antt =====
-- Rendering the rules of a policy appends sets to the table, and changes nothing else.
use cnidaria_cni.Base.{
  ℕ, ◌+◌, String, ◌<>◌, ◌≡◌, sym, ap, ◌∙◌, ◌&&◌, not, Option-cases, List, [], ◌∷◌, ◌++◌, map,
  append-nil, append_assoc, arith, if◌then◌else◌, ◌==◌, string_eq, Bool-cases, inl, inr, ok,
  >>=-eq-ok, select, itoa, to_lower, compact, sort_func,
}
use Prim.Native.String
use cnidaria_cni.Netip.Addr.{Addr, is4, addr_text}
use cnidaria_cni.Nftables.Chains.{isolated_set}
use cnidaria_cni.Kube.{External}
use cnidaria_cni.Nftables.Ruleset.{Set, Chain}
use cnidaria_cni.Nftables.Ruleset
use cnidaria_cni.Nftables.Identifier.{identifier}
use cnidaria_cni.Netpol.Types.{Pod, NetworkPolicy, Peer, Port, Rule, policy_type_egress, rules_of}
use cnidaria_cni.Netpol.Match.{Match, PodAddrs}
use cnidaria_cni.Netpol.Sets.{Dir, Cluster, State, append_set, add_set, pod_sets, pod_ips}
use cnidaria_cni.Netpol.Peers.{peer_pods, peer_matches, selector_peer, entry_name, is_none}
use cnidaria_cni.Netpol.Ports.{
  number_matches, named_port, number_match, one_port, ports_from, port_matches, pods_giving,
  declarations, given_numbers, tcp_if_empty,
}
use cnidaria_cni.Netpol.Policy.{or_any_peer, peers_rules, entries_rules, direction_rules}

pub record OnlySets (s s' : State) : Type 0 where
  pub ingress : s'.isolated_ingress ≡ s.isolated_ingress
  pub egress : s'.isolated_egress ≡ s.isolated_egress
  pub chains : s'.table.chains ≡ s.table.chains
  pub more : List Set
  pub sets : s'.table.sets ≡ s.table.sets ++ more

pub same_state : (s : State) {s' : State} → s ≡ s' → OnlySets s s'
same_state s e = record {
  ingress = sym (ap (λ (t : State). t.isolated_ingress) e);
  egress = sym (ap (λ (t : State). t.isolated_egress) e);
  chains = sym (ap (λ (t : State). t.table.chains) e);
  more = [];
  sets = sym (ap (λ (t : State). t.table.sets) e) ∙ sym (append-nil s.table.sets);
}

appended : (set : Set) (s : State) {s' : State} → append_set set s ≡ s' → OnlySets s s'
appended set s e = record {
  ingress = sym (ap (λ (t : State). t.isolated_ingress) e);
  egress = sym (ap (λ (t : State). t.isolated_egress) e);
  chains = sym (ap (λ (t : State). t.table.chains) e);
  more = set ∷ [];
  sets = sym (ap (λ (t : State). t.table.sets) e);
}

infixr 30 ◌then◌
pub ◌then◌ : {a b c : State} → OnlySets a b → OnlySets b c → OnlySets a c
◌then◌ {a} f g = record {
  ingress = g.ingress ∙ f.ingress;
  egress = g.egress ∙ f.egress;
  chains = g.chains ∙ f.chains;
  more = f.more ++ g.more;
  sets = g.sets ∙ ap (λ l. l ++ g.more) f.sets ∙ append_assoc a.table.sets f.more g.more;
}

module _ (x : External) where
  add_set-OnlySets :
      (prefix : String) (parts : List String) (type family : String) (addrs : List Addr) (s : State)
      {name : String} {s' : State}
      → add_set x prefix parts type family addrs s ≡ ok (name, s')
      → OnlySets s s'
  unfolding add_set
  add_set-OnlySets prefix parts type family [] s h = same_state s (ground arith)
  add_set-OnlySets prefix parts type family (a ∷ rest) s {name} {s'} h =
      let (n, named, whole) =
        >>=-eq-ok (identifier x.sha256_hex prefix (parts ++ (family ∷ []))) _ h in
      let set : Set = record (isolated_set n type "") {
        elements = compact (sort_func String.compare (map addr_text (a ∷ rest)));
      } in
      appended set s (ground arith)

  pub pod_sets-OnlySets :
      (prefix : String) (parts : List String) (pods : List Pod) (s : State) {addrs : PodAddrs}
      {s' : State}
      → pod_sets x prefix parts pods s ≡ ok (addrs, s')
      → OnlySets s s'
  unfolding pod_sets
  pod_sets-OnlySets prefix parts pods s {addrs} {s'} h =
      let ((v4, s1), one, rest) =
        >>=-eq-ok (add_set x prefix parts "ipv4_addr" "v4" (select is4 (pod_ips pods)) s) _ h in
      let ((v6, s2), two, whole) =
        >>=-eq-ok
          (add_set x prefix parts "ipv6_addr" "v6" (select (λ a. not (is4 a)) (pod_ips pods)) s1) _
          rest in
      add_set-OnlySets prefix parts "ipv4_addr" "v4" (select is4 (pod_ips pods)) s one
      then (add_set-OnlySets prefix parts "ipv6_addr" "v6"
            (select (λ a. not (is4 a)) (pod_ips pods)) s1 two
          then same_state s2 (ground arith))

  pub number_matches-OnlySets :
      (policy : NetworkPolicy) (name protocol : String) (pairs : List (ℕ × Pod)) (ns : List ℕ)
      (s : State) {ms : List Match} {s' : State}
      → number_matches x policy name protocol pairs ns s ≡ ok (ms, s')
      → OnlySets s s'
  unfolding number_matches
  number_matches-OnlySets policy name protocol pairs [] s h = same_state s (ground arith)
  number_matches-OnlySets policy name protocol pairs (n ∷ ns) s {ms} {s'} h =
      let ((addrs, s1), one, rest) =
        >>=-eq-ok
          (pod_sets x "port_" (policy.namespace ∷ policy.name ∷ name ∷ itoa n ∷ [])
            (pods_giving n pairs) s)
          _ h in
      let ((later, s2), two, whole) =
        >>=-eq-ok (number_matches x policy name protocol pairs ns s1) _ rest in
      pod_sets-OnlySets "port_" (policy.namespace ∷ policy.name ∷ name ∷ itoa n ∷ [])
        (pods_giving n pairs) s one
      then (number_matches-OnlySets policy name protocol pairs ns s1 two
          then same_state s2 (ground arith))

  one_port-OnlySets :
      (policy : NetworkPolicy) (d : Dir) (i j k : ℕ) (port : Port) (receivers : List Pod)
      (s : State) {ms : List Match} {s' : State}
      → one_port x policy d i j k port receivers s ≡ ok (ms, s')
      → OnlySets s s'
  unfolding one_port named_port
  one_port-OnlySets policy d i j k port receivers s {ms} {s'} h =
      elim (Bool-cases (port.name == "")) [
        | inl numbered ↦
            let (m, done, whole) =
              >>=-eq-ok (number_match port (to_lower (tcp_if_empty port.protocol)))
                (λ m. ok (m ∷ [], s)) {b = (ms, s')} (rw numbered at h) in
            same_state s (ground arith)
        | inr named ↦
            number_matches-OnlySets policy (entry_name d i j <> ("." <> itoa k))
              (to_lower (tcp_if_empty port.protocol)) (declarations port receivers)
              (given_numbers (declarations port receivers)) s (rw named at h)
      ]

  ports_from-OnlySets :
      (policy : NetworkPolicy) (d : Dir) (i j k : ℕ) (ports : List Port) (receivers : List Pod)
      (s : State) {ms : List Match} {s' : State}
      → ports_from x policy d i j k ports receivers s ≡ ok (ms, s')
      → OnlySets s s'
  unfolding ports_from
  ports_from-OnlySets policy d i j k [] receivers s h = same_state s (ground arith)
  ports_from-OnlySets policy d i j k (port ∷ ports) receivers s {ms} {s'} h =
      let ((here, s1), one, rest) = >>=-eq-ok (one_port x policy d i j k port receivers s) _ h in
      let ((later, s2), two, whole) =
        >>=-eq-ok (ports_from x policy d i j (k + 1) ports receivers s1) _ rest in
      one_port-OnlySets policy d i j k port receivers s one
      then (ports_from-OnlySets policy d i j (k + 1) ports receivers s1 two
          then same_state s2 (ground arith))

  port_matches-OnlySets :
      (policy : NetworkPolicy) (d : Dir) (i j : ℕ) (ports : List Port) (receivers : List Pod)
      (s : State) {ms : List Match} {s' : State}
      → port_matches x policy d i j ports receivers s ≡ ok (ms, s')
      → OnlySets s s'
  unfolding port_matches
  port_matches-OnlySets policy d i j [] receivers s h = same_state s (ground arith)
  port_matches-OnlySets policy d i j (port ∷ ports) receivers s h =
      ports_from-OnlySets policy d i j 0 (port ∷ ports) receivers s h

  module _ (c : Cluster) (policy : NetworkPolicy) (d : Dir) where
    selector_peer-OnlySets :
        (i j : ℕ) (peer : Peer) (s : State) {ms : List Match} {pods : List Pod} {s' : State}
        → selector_peer x c policy d i j peer s ≡ ok (ms, pods, s')
        → OnlySets s s'
    unfolding selector_peer
    selector_peer-OnlySets i j peer s {ms} {pods} {s'} h =
        let (ps, found, rest) = >>=-eq-ok (peer_pods x c policy.namespace peer) _ h in
        let ((addrs, s1), one, whole) =
          >>=-eq-ok
            (pod_sets x "peer_" (policy.namespace ∷ policy.name ∷ entry_name d i j ∷ []) ps s) _
            rest in
        pod_sets-OnlySets "peer_" (policy.namespace ∷ policy.name ∷ entry_name d i j ∷ []) ps s one
        then same_state s1 (ground arith)

    peer_matches-OnlySets :
        (i j : ℕ) (peer : Peer) (s : State) {ms : List Match} {pods : List Pod} {s' : State}
        → peer_matches x c policy d i j peer s ≡ ok (ms, pods, s')
        → OnlySets s s'
    unfolding peer_matches
    peer_matches-OnlySets i j peer s {ms} {pods} {s'} h = elim (Option-cases peer.ip_block) [
      | inr (block, blocked) ↦ same_state s (ground arith)
      | inl unblocked ↦
          elim (Bool-cases (is_none peer.pod_selector && is_none peer.namespace_selector)) [
            | inl all ↦ same_state s (ground arith)
            | inr some_pods ↦
                selector_peer-OnlySets i j peer s {ms = ms} {pods = pods} {s' = s'} (ground arith)
          ]
    ]

    peers_rules-OnlySets :
        (selected : List Pod) (i j : ℕ) (peers : List Peer) (ports : List Port) (s : State)
        {rs : List Ruleset.Rule} {s' : State}
        → peers_rules x c policy d selected i j peers ports s ≡ ok (rs, s')
        → OnlySets s s'
    unfolding peers_rules
    peers_rules-OnlySets selected i j [] ports s h = same_state s (ground arith)
    peers_rules-OnlySets selected i j (peer ∷ peers) ports s {rs} {s'} h =
        let ((pms, named, s1), one, rest) = >>=-eq-ok (peer_matches x c policy d i j peer s) _ h in
        let ((qms, s2), two, rest2) =
          >>=-eq-ok
            (port_matches x policy d i j ports
              (if d.typ == policy_type_egress then named else selected) s1)
            _ rest in
        let ((later, s3), three, whole) =
          >>=-eq-ok (peers_rules x c policy d selected i (j + 1) peers ports s2) _ rest2 in
        peer_matches-OnlySets i j peer s one
        then (port_matches-OnlySets policy d i j ports
              (if d.typ == policy_type_egress then named else selected) s1 two
            then (peers_rules-OnlySets selected i (j + 1) peers ports s2 three
                then same_state s3 (ground arith)))

    entries_rules-OnlySets :
        (selected : List Pod) (i : ℕ) (entries : List Rule) (s : State) {rs : List Ruleset.Rule}
        {s' : State}
        → entries_rules x c policy d selected i entries s ≡ ok (rs, s')
        → OnlySets s s'
    unfolding entries_rules
    entries_rules-OnlySets selected i [] s h = same_state s (ground arith)
    entries_rules-OnlySets selected i (entry ∷ entries) s {rs} {s'} h =
        let ((here, s1), one, rest) =
          >>=-eq-ok (peers_rules x c policy d selected i 0 (or_any_peer entry.peers) entry.ports s)
            _ h in
        let ((later, s2), two, whole) =
          >>=-eq-ok (entries_rules x c policy d selected (i + 1) entries s1) _ rest in
        peers_rules-OnlySets selected i 0 (or_any_peer entry.peers) entry.ports s one
        then (entries_rules-OnlySets selected (i + 1) entries s1 two
            then same_state s2 (ground arith))

    pub direction_rules-OnlySets :
        (selected : List Pod) (s : State) {rs : List Ruleset.Rule} {s' : State}
        → direction_rules x c policy d selected s ≡ ok (rs, s')
        → OnlySets s s'
    unfolding direction_rules
    direction_rules-OnlySets selected s h =
        entries_rules-OnlySets selected 0 (rules_of policy d.typ) s h
