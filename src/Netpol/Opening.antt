-- ===== src/Netpol/Opening.antt =====
-- What the rules of a policy's direction accept: a packet of a peer on a port of one entry.
pub mod Accepted
use cnidaria_cni.Base.{
  ℕ, ◌+◌, String, ◌<>◌, ◌≡◌, Bool, false, ◌&&◌, List, [], ◌∷◌, ◌++◌, ◌==◌, string_eq, any, ok,
  if◌then◌else◌, none, some, All,
}
use cnidaria_cni.Kube.{External}
use cnidaria_cni.Nftables.Ruleset.{Rule}
use cnidaria_cni.Netpol.Types.{Pod, NetworkPolicy, Peer, Port, policy_type_egress}
use cnidaria_cni.Netpol.Types
use cnidaria_cni.Netpol.Match.{Match, Family, join_families}
use cnidaria_cni.Netpol.Sets.{Dir, Cluster, State}
use cnidaria_cni.Netpol.Peers.{peer_matches}
use cnidaria_cni.Netpol.Ports.{port_matches}
use cnidaria_cni.Netpol.Policy.{or_any_peer}

-- The matches of one peer of an entry, and those of the entry's ports.
abbrev pub Opening : Type 0
Opening = List Match × List Match

abbrev pub met : (String → Bool) → List Match → Bool
met meets ms = any (λ (m : Match). meets m.expr) ms

-- Whether a packet meets a match of the peer and a match of the ports.
abbrev pub is_open : (String → Bool) → Opening → Bool
is_open meets o = met meets o.0 && met meets o.1

-- How nft reads a match of the peer and one of the ports, of one packet: written one after the other in one
-- rule both are met, where they can be about one family; and else no packet meets both.
pub record ReadsPair (meets : String → Bool) (m n : Match) : Type 0 where
  pub joined :
      {f : Family}
      → join_families m.fam n.fam ≡ some f
      → (m.expr == "") ≡ false
      → (n.expr == "") ≡ false
      → meets (m.expr <> (" " <> n.expr)) ≡ (meets m.expr && meets n.expr)
  pub apart : join_families m.fam n.fam ≡ none → (meets m.expr && meets n.expr) ≡ false

-- So it reads the matches of an opening.
abbrev pub Reads : (String → Bool) → Opening → Type 0
Reads meets o = All (λ m. All (ReadsPair meets m) o.1) o.0

module _ (x : External) (c : Cluster) (policy : NetworkPolicy) (d : Dir) (selected : List Pod) where
  -- The openings of the peers of entry `i` from the peer `j` on, with the pods that a named port is
  -- looked up in: those selected on ingress, those of the peer on egress.
  pub data PeersOpen (i : ℕ) (ports : List Port)
      : ℕ → List Peer → State → List Opening → State → Type 0 where
    no_peer : (j : ℕ) (s : State) → PeersOpen i ports j [] s [] s
    a_peer :
        (j : ℕ) (peer : Peer) (peers : List Peer) (s s1 s2 s3 : State) (pms qms : List Match)
        (named : List Pod) (os : List Opening)
        → peer_matches x c policy d i j peer s ≡ ok (pms, named, s1)
        → port_matches x policy d i j ports
            (if d.typ == policy_type_egress then named else selected)
            s1
          ≡ ok (qms, s2)
        → PeersOpen i ports (j + 1) peers s2 os s3
        → PeersOpen i ports j (peer ∷ peers) s ((pms, qms) ∷ os) s3

  -- The openings of the entries from `i` on, where an entry without peers is about any.
  pub data EntriesOpen : ℕ → List Types.Rule → State → List Opening → State → Type 0 where
    no_entry : (i : ℕ) (s : State) → EntriesOpen i [] s [] s
    an_entry :
        (i : ℕ) (entry : Types.Rule) (entries : List Types.Rule) (s s1 s2 : State)
        (os more : List Opening)
        → PeersOpen i entry.ports 0 (or_any_peer entry.peers) s os s1
        → EntriesOpen (i + 1) entries s1 more s2
        → EntriesOpen i (entry ∷ entries) s (os ++ more) s2
