-- ===== src/Tests/Openings.antt =====
-- What the rules of a policy accept, of a packet from a block of addresses to a port.
use cnidaria_cni.Base.{
  ℕ, String, ◌≡◌, refl, Bool, none, some, List, [], ◌∷◌, any, contains, ok, string_eq, All,
}
use cnidaria_cni.Nftables.Ruleset.{Rule, Ruleset}
use cnidaria_cni.Netpol.Types
use cnidaria_cni.Netpol.Types.{rules_of}
use cnidaria_cni.Netpol.Match.{Match, family_v4, family_both, join_families}
use cnidaria_cni.Netpol.Add.{cluster, start}
use cnidaria_cni.Netpol.Sets.{State, ingress}
use cnidaria_cni.Netpol.Peers.{peer_matches}
use cnidaria_cni.Netpol.Ports.{port_matches}
use cnidaria_cni.Netpol.Policy.{direction_rules}
use cnidaria_cni.Netpol.Accepting.{OnlyAccepts}
use cnidaria_cni.Netpol.Opening.{
  Opening, Reads, is_open, EntriesOpen, an_entry, no_entry, a_peer, no_peer,
}
use cnidaria_cni.Netpol.Opening.Accepted.{direction_rules-Open}
use cnidaria_cni.Tests.Data.{external, ten, any_labels, cluster_params, pod}

abbrev to_port : (number end_port : ℕ) → Types.Port
to_port number end_port = record {
  protocol = "TCP";
  number = number;
  name = "";
  end_port = end_port;
}

abbrev from_ten : Types.Peer
from_ten = record {
  pod_selector = none;
  namespace_selector = none;
  ip_block = some (record { cidr = ten; except = [] });
}

-- From 10.0.0.0/8, to one port and to a range of ports.
abbrev allow : Types.NetworkPolicy
allow = record {
  namespace = "default";
  name = "allow";
  pod_selector = any_labels;
  policy_types = "Ingress" ∷ [];
  ingress = record { peers = from_ten ∷ []; ports = to_port 5432 0 ∷ to_port 80 90 ∷ [] } ∷ [];
  egress = [];
}

abbrev empty_table : Ruleset
empty_table = record { sets = []; chains = [] }

abbrev begin : State
begin = start empty_table

abbrev source : Match
source = record { fam = family_v4; expr = "ip saddr 10.0.0.0/8" }

abbrev to_sql : Match
to_sql = record { fam = family_both; expr = "tcp dport 5432" }

abbrev to_web : Match
to_web = record { fam = family_both; expr = "tcp dport 80-90" }

abbrev opening : Opening
opening = (source ∷ [], to_sql ∷ to_web ∷ [])

opened :
    EntriesOpen external
      (cluster cluster_params)
      allow
      ingress
      (pod ∷ [])
      0
      (rules_of allow "Ingress")
      begin
      (opening ∷ [])
      begin
unfolding rules_of peer_matches port_matches
opened =
    an_entry 0 _ [] begin begin begin (opening ∷ []) []
      (a_peer 0 from_ten [] begin begin begin begin (source ∷ []) (to_sql ∷ to_web ∷ []) [] [] refl
        refl (no_peer 1 begin))
      (no_entry 1 begin)

-- The matches that a packet from 10.0.0.0/8 to TCP port 5432 meets.
abbrev meets : String → Bool
meets text =
    contains
      ("" ∷ "ip saddr 10.0.0.0/8" ∷ "tcp dport 5432" ∷ "ip saddr 10.0.0.0/8 tcp dport 5432" ∷ [])
      text

meets-Reads : All (Reads meets) (opening ∷ [])
unfolding contains join_families
meets-Reads = (
  (
    (
      record { joined = λ both some_source some_port. refl; apart = λ h. cc },
      (record { joined = λ both some_source some_port. refl; apart = λ h. cc }, tt),
    ),
    tt,
  ),
  tt,
)

direction_rules-Open_example :
    (rs : List Rule) × (direction_rules external
        (cluster cluster_params)
        allow
        ingress
        (pod ∷ [])
        begin
      ≡ ok (rs, begin))
    × OnlyAccepts rs
    × (any (λ (r : Rule). meets r.match) rs ≡ any (is_open meets) (opening ∷ []))
unfolding contains
direction_rules-Open_example =
    direction_rules-Open meets refl external (cluster cluster_params) allow ingress (pod ∷ []) begin
      (opening ∷ []) opened meets-Reads
