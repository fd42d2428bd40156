-- ===== src/Netpol/Ports.antt =====
-- internal/netpol/render.go: a "ports" list as matches, named ports resolved against pods.
use cnidaria_cni.Base.{
  ℕ, ◌+◌, String, ◌<>◌, Bool, ◌&&◌, not, List, [], ◌∷◌, ◌++◌, map, if◌then◌else◌, ltb, ◌==◌, nat_eq,
  string_eq, Result, ok, err, ◌>>=◌, select, sort_func, compact, compare, itoa, to_lower,
}
use cnidaria_cni.Kube.{External}
use cnidaria_cni.Netpol.Types.{NamedPort, Pod, NetworkPolicy, Port, protocol_tcp}
use cnidaria_cni.Netpol.Match.{Match, match_all, family_both, addr_matches}
use cnidaria_cni.Netpol.Sets.{Dir, State, pod_sets}
use cnidaria_cni.Netpol.Peers.{entry_name}

abbrev pub tcp_if_empty : String → String
tcp_if_empty p = if p == "" then protocol_tcp else p

-- `samePortProtocol`
unfoldable pub same_port_protocol : String → String → Bool
same_port_protocol a b = tcp_if_empty a == tcp_if_empty b

-- The numbers that one pod gives a port name, in the order of its ports.
unfoldable pub numbers_of : Port → List NamedPort → List ℕ
unfolding same_port_protocol
numbers_of port [] = []
numbers_of port (declared ∷ rest) =
    let later = numbers_of port rest in
    if declared.name == port.name && same_port_protocol declared.protocol port.protocol
    then declared.port ∷ later
    else later

-- The pairs that `byNumber` collects, in the order of the receivers.
unfoldable pub declarations : Port → List Pod → List (ℕ × Pod)
unfolding numbers_of
declarations port [] = []
declarations port (pod ∷ pods) =
    map (λ n. (n, pod)) (numbers_of port pod.ports) ++ declarations port pods

-- `byNumber[number]`
unfoldable pub pods_giving : ℕ → List (ℕ × Pod) → List Pod
unfolding select
pods_giving number pairs = map (λ (p : ℕ × Pod). p.1) (select (λ p. p.0 == number) pairs)

-- The keys of `byNumber`, ascending.
unfoldable pub given_numbers : List (ℕ × Pod) → List ℕ
unfolding sort_func compact
given_numbers pairs = compact (sort_func compare (map (λ (p : ℕ × Pod). p.0) pairs))

-- The loop of `namedPort` over the numbers.
unfoldable pub number_matches :
    External
    → NetworkPolicy
    → String
    → String
    → List (ℕ × Pod)
    → List ℕ
    → State
    → Result String (List Match × State)
unfolding pod_sets addr_matches pods_giving itoa
number_matches x policy name protocol pairs [] s = ok ([], s)
number_matches x policy name protocol pairs (n ∷ ns) s = do
  (addrs, s) ←
      pod_sets x "port_" (policy.namespace ∷ policy.name ∷ name ∷ itoa n ∷ []) (pods_giving n pairs)
        s
  (rest, s) ← number_matches x policy name protocol pairs ns s
  ok (
    addr_matches addrs (λ family set.
          family <> (" daddr @" <> (set <> (" " <> (protocol <> (" dport " <> itoa n))))))
        ++ rest,
    s,
  )

-- `namedPort`
unfoldable pub named_port :
    External
    → NetworkPolicy
    → Dir
    → ℕ
    → ℕ
    → ℕ
    → Port
    → String
    → List Pod
    → State
    → Result String (List Match × State)
unfolding declarations given_numbers number_matches entry_name itoa
named_port x policy d i j k port protocol receivers s =
    let pairs = declarations port receivers in
    number_matches x policy (entry_name d i j <> ("." <> itoa k)) protocol pairs
      (given_numbers pairs) s

abbrev port_expr : String → Match
port_expr expr = record { fam = family_both; expr = expr }

-- A port given by number, or left out.
unfoldable pub number_match : Port → String → Result String Match
unfolding itoa
number_match port protocol =
    if port.number == 0
    then ok (port_expr ("meta l4proto " <> protocol))
    else if ltb port.number port.end_port
    then ok
        (port_expr (protocol <> (" dport " <> (itoa port.number <> ("-" <> itoa port.end_port)))))
    else if not (port.end_port == 0) && ltb port.end_port port.number
    then err ("endPort " <> (itoa port.end_port <> (" is below port " <> itoa port.number)))
    else ok (port_expr (protocol <> (" dport " <> itoa port.number)))

unfoldable pub one_port :
    External
    → NetworkPolicy
    → Dir
    → ℕ
    → ℕ
    → ℕ
    → Port
    → List Pod
    → State
    → Result String (List Match × State)
unfolding named_port number_match to_lower
one_port x policy d i j k port receivers s =
    let protocol = to_lower (tcp_if_empty port.protocol) in
    let numbered = (do m ← number_match port protocol; ok (m ∷ [], s)) in
    if port.name == "" then numbered else named_port x policy d i j k port protocol receivers s

unfoldable pub ports_from :
    External
    → NetworkPolicy
    → Dir
    → ℕ
    → ℕ
    → ℕ
    → List Port
    → List Pod
    → State
    → Result String (List Match × State)
unfolding one_port
ports_from x policy d i j k [] receivers s = ok ([], s)
ports_from x policy d i j k (port ∷ ports) receivers s = do
  (here, s) ← one_port x policy d i j k port receivers s
  (rest, s) ← ports_from x policy d i j (k + 1) ports receivers s
  ok (here ++ rest, s)

-- `ports`
unfoldable pub port_matches :
    External
    → NetworkPolicy
    → Dir
    → ℕ
    → ℕ
    → List Port
    → List Pod
    → State
    → Result String (List Match × State)
unfolding ports_from
port_matches x policy d i j [] receivers s = ok (match_all ∷ [], s)
port_matches x policy d i j (port ∷ ports) receivers s =
    ports_from x policy d i j 0 (port ∷ ports) receivers s
