-- ===== src/Netpol/Policy.antt =====
-- internal/netpol/render.go: the chains of one policy.
use cnidaria_cni.Base.{
  ℕ, ◌+◌, String, ◌<>◌, Bool, ◌&&◌, none, some, List, [], ◌∷◌, ◌++◌, map, if◌then◌else◌, ◌==◌,
  string_eq, Result, ok, err, ◌>>=◌, select,
}
use cnidaria_cni.Netip.Addr.{Addr}
use cnidaria_cni.Kube.{External, Labels}
use cnidaria_cni.Nftables.Ruleset.{Chain, Rule, chain_named, write_chain, insert_before_last}
use cnidaria_cni.Nftables.Chains.{rule}
use cnidaria_cni.Nftables.Validate.{is_empty}
use cnidaria_cni.Nftables.Identifier.{identifier}
use cnidaria_cni.Netpol.Types.{
  Pod, NetworkPolicy, Peer, Port, policy_type_egress, governs, rules_of,
}
use cnidaria_cni.Netpol.Types
use cnidaria_cni.Netpol.Match.{Match, PodAddrs, and, addr_matches}
use cnidaria_cni.Netpol.Sets.{
  Dir, ingress, egress, Cluster, State, isolate, append_chain, full_name, as_selector, pod_ips,
  pod_sets,
}
use cnidaria_cni.Netpol.Peers.{peer_matches}
use cnidaria_cni.Netpol.Ports.{port_matches}

-- The accepting rules of one peer's match with each port's match.
unfoldable pub accepts_with : String → Match → List Match → List Rule
unfolding and
accepts_with comment pm [] = []
accepts_with comment pm (qm ∷ qms) =
    let later = accepts_with comment pm qms in
    elim (and pm qm) [ none ↦ later | some m ↦ rule m.expr "accept" comment ∷ later ]

unfoldable pub accepts : String → List Match → List Match → List Rule
unfolding accepts_with
accepts comment [] qms = []
accepts comment (pm ∷ pms) qms = accepts_with comment pm qms ++ accepts comment pms qms

abbrev any_peer : Peer
any_peer = record { pod_selector = none; namespace_selector = none; ip_block = none }

abbrev pub or_any_peer : List Peer → List Peer
or_any_peer [] = any_peer ∷ []
or_any_peer (p ∷ ps) = p ∷ ps

module _ (x : External) (c : Cluster) (policy : NetworkPolicy) (d : Dir) (selected : List Pod) where
  -- The loop over the peers of entry `i`.
  unfoldable pub peers_rules :
      ℕ → ℕ → List Peer → List Port → State → Result String (List Rule × State)
  unfolding peer_matches port_matches accepts full_name
  peers_rules i j [] ports s = ok ([], s)
  peers_rules i j (peer ∷ peers) ports s = do
    (pms, named, s) ← peer_matches x c policy d i j peer s
    let receivers = if d.typ == policy_type_egress then named else selected
    (qms, s) ← port_matches x policy d i j ports receivers s
    (rest, s) ← peers_rules i (j + 1) peers ports s
    ok (accepts (full_name policy.namespace policy.name) pms qms ++ rest, s)

  unfoldable pub entries_rules : ℕ → List Types.Rule → State → Result String (List Rule × State)
  unfolding peers_rules
  entries_rules i [] s = ok ([], s)
  entries_rules i (entry ∷ entries) s = do
    (here, s) ← peers_rules i 0 (or_any_peer entry.peers) entry.ports s
    (rest, s) ← entries_rules (i + 1) entries s
    ok (here ++ rest, s)

  -- `directionRules`
  unfoldable pub direction_rules : State → Result String (List Rule × State)
  unfolding entries_rules rules_of
  direction_rules s = entries_rules 0 (rules_of policy d.typ) s

-- The jumps into a policy's chain, one per family that it has a set for.
unfoldable pub jumps_to : Dir → PodAddrs → String → String → List Rule
unfolding addr_matches
jumps_to d addrs chain comment =
    map (λ (m : Match). rule m.expr ("jump " <> chain) comment)
      (addr_matches addrs (λ family set. family <> (" " <> (d.self_addr <> (" @" <> set)))))

-- Putting jumps into the dispatch chain of the direction, if the table has it.
unfoldable pub put_jumps : Dir → List Rule → State → Result String State
unfolding chain_named write_chain insert_before_last
put_jumps d jumps s = elim (chain_named d.dispatch s.table.chains) [
  | none ↦ err ("the table has no chain " <> d.dispatch)
  | some _ ↦ ok (record s {
    table = record (s.table) {
      chains =
          write_chain d.dispatch (λ c. record c { rules = insert_before_last jumps c.rules })
            s.table.chains;
    };
  })
]

unfoldable pub isolate_all : String → List Addr → State → State
unfolding isolate
isolate_all t [] s = s
isolate_all t (ip ∷ ips) s = isolate_all t ips (isolate t ip s)

unfoldable pub direction_chain :
    External → Cluster → NetworkPolicy → Dir → List Pod → PodAddrs → State → Result String State
unfolding direction_rules jumps_to put_jumps isolate_all identifier full_name pod_ips
direction_chain x c policy d selected addrs s = do
  chain ← identifier x.sha256_hex d.chain_prefix (policy.namespace ∷ policy.name ∷ [])
  (rules, s) ← direction_rules x c policy d selected s
  let comment = full_name policy.namespace policy.name
  let new_chain : Chain = record {
    name = chain;
    base = none;
    rules = rules;
    comment = "NetworkPolicy " <> (comment <> (", " <> d.typ));
  }
  s ← put_jumps d (jumps_to d addrs chain comment) (append_chain new_chain s)
  ok (isolate_all d.typ (pod_ips selected) s)

-- One round of the loop over the directions in `policy`.
unfoldable pub policy_direction :
    External → Cluster → NetworkPolicy → Dir → List Pod → PodAddrs → State → Result String State
unfolding direction_chain governs
policy_direction x c policy d selected addrs s =
    if governs policy d.typ then direction_chain x c policy d selected addrs s else ok s

-- The pods of this node that a policy governs.
unfoldable pub selected_pods : Cluster → NetworkPolicy → (Labels → Bool) → List Pod
unfolding select
selected_pods c policy matches =
    select
      (λ pod.
        pod.namespace == policy.namespace && pod.node_name == c.node_name && matches pod.labels)
      c.pods

unfoldable pub render_policy :
    External → Cluster → NetworkPolicy → List Pod → State → Result String State
unfolding pod_sets policy_direction
render_policy x c policy selected s = do
  (addrs, s) ← pod_sets x "pods_" (policy.namespace ∷ policy.name ∷ []) selected s
  s ← policy_direction x c policy ingress selected addrs s
  policy_direction x c policy egress selected addrs s

-- `policy`
unfoldable pub add_policy : External → Cluster → NetworkPolicy → State → Result String State
unfolding as_selector selected_pods render_policy
add_policy x c policy s = do
  matches ← as_selector x policy.pod_selector
  let selected = selected_pods c policy matches
  if is_empty selected then ok s else render_policy x c policy selected s
