-- ===== src/Netpol/Opening/Accepted.antt =====
-- Which packets the rules of a policy's direction accept.
use mathlib.Core.Path.{}
use cnidaria_cni.Base.{
  ℕ, ◌+◌, String, ◌≡◌, refl, sym, ap, ◌∙◌, Bool, true, false, ◌&&◌, ◌||◌, Option-cases, none, some,
  List, [], ◌∷◌, ◌++◌, ◌==◌, string_eq, any, any-append, Result, All-append_left, All-append_right,
  ok, All, Bool-cases, inl, inr, arith,
}
use cnidaria_cni.Kube.{External}
use cnidaria_cni.Nftables.Ruleset.{Rule}
use cnidaria_cni.Nftables.Chains.{rule}
use cnidaria_cni.Netpol.Types.{Pod, NetworkPolicy, Peer, Port, policy_type_egress, rules_of}
use cnidaria_cni.Netpol.Types
use cnidaria_cni.Netpol.Match.{Family, Match, join_families, join_exprs, and}
use cnidaria_cni.Netpol.Sets.{Dir, Cluster, State, full_name}
use cnidaria_cni.Netpol.Peers.{}
use cnidaria_cni.Netpol.Ports.{}
use cnidaria_cni.Netpol.Policy.{
  accepts, accepts_with, or_any_peer, peers_rules, entries_rules, direction_rules,
}
use cnidaria_cni.Netpol.Accepting.{OnlyAccepts, direction_rules-OnlyAccepts}
use cnidaria_cni.Netpol.Opening.{
  ReadsPair, Reads, Opening, met, is_open, PeersOpen, no_peer, a_peer, EntriesOpen, no_entry,
  an_entry,
}

skip_lem :
    (comment : String) (pm qm : Match) (qms : List Match)
    → join_families pm.fam qm.fam ≡ none
    → accepts_with comment pm (qm ∷ qms) ≡ accepts_with comment pm qms
unfolding accepts_with and
skip_lem comment pm qm qms h = rw (h, accepts_with, and) refl

take_lem :
    (comment : String) (pm qm : Match) (qms : List Match) {fam : Family}
    → join_families pm.fam qm.fam ≡ some fam
    → accepts_with comment pm (qm ∷ qms)
      ≡ rule (join_exprs pm.expr qm.expr) "accept" comment ∷ accepts_with comment pm qms
unfolding accepts_with and
take_lem comment pm qm qms h = rw (h, accepts_with, and) refl

module _ (meets : String → Bool) (reads_empty : meets "" ≡ true) where
  -- Whether one of the rules is met.
  abbrev pub is_met : List Rule → Bool
  is_met rs = any (λ (r : Rule). meets r.match) rs

  join_exprs-meets :
      (m n : Match) {f : Family}
      → ReadsPair meets m n
      → join_families m.fam n.fam ≡ some f
      → meets (join_exprs m.expr n.expr) ≡ (meets m.expr && meets n.expr)
  unfolding join_exprs
  join_exprs-meets m n reads both = elim (Bool-cases (m.expr == "")) [
    | inl all_peers ↦
        let met_all : meets m.expr ≡ true =
          ap meets ((string_eq.beq_iff m.expr "").0 all_peers) ∙ reads_empty in
        rw (all_peers, met_all) refl
    | inr some_peers ↦ elim (Bool-cases (n.expr == "")) [
      | inl all_ports ↦
          let met_all : meets n.expr ≡ true =
            ap meets ((string_eq.beq_iff n.expr "").0 all_ports) ∙ reads_empty in
          rw (some_peers, all_ports, met_all) (and_true (meets m.expr))
      | inr some_ports ↦ rw (some_peers, some_ports) (reads.joined both some_peers some_ports)
    ]
  ]
    where
      and_true : (b : Bool) → b ≡ (b && true)
      and_true b = ground arith

  accepts_with-met :
      (comment : String) (pm : Match) (qms : List Match)
      → All (ReadsPair meets pm) qms
      → is_met (accepts_with comment pm qms) ≡ (meets pm.expr && met meets qms)
  unfolding accepts_with and any
  accepts_with-met comment pm [] h = ground arith
  accepts_with-met comment pm (qm ∷ qms) (reads, h) =
      let later = accepts_with-met comment pm qms h in
      elim (Option-cases (join_families pm.fam qm.fam)) [
        | inl apart ↦
            ap is_met (skip_lem comment pm qm qms apart)
            ∙ later
            ∙ left_out (meets pm.expr) (meets qm.expr) (met meets qms) (reads.apart apart)
        | inr (fam, both) ↦
            ap is_met (take_lem comment pm qm qms both)
            ∙ rw (join_exprs-meets pm qm reads both, later)
                (shared (meets pm.expr) (meets qm.expr) (met meets qms))
      ]
    where
      left_out : (a b c : Bool) → (a && b) ≡ false → (a && c) ≡ (a && (b || c))
      left_out a b c h = ground arith

      shared : (a b c : Bool) → ((a && b) || (a && c)) ≡ (a && (b || c))
      shared a b c = ground arith

  accepts-met :
      (comment : String) (pms qms : List Match)
      → Reads meets (pms, qms)
      → is_met (accepts comment pms qms) ≡ (met meets pms && met meets qms)
  unfolding accepts any
  accepts-met comment [] qms reads = refl
  accepts-met comment (pm ∷ pms) qms (here, reads) =
      any-append (λ (r : Rule). meets r.match) (accepts_with comment pm qms)
        (accepts comment pms qms)
      ∙ rw (accepts_with-met comment pm qms here, accepts-met comment pms qms reads)
          (factor (meets pm.expr) (met meets pms) (met meets qms))
    where
      factor : (a b c : Bool) → ((a && c) || (b && c)) ≡ ((a || b) && c)
      factor a b c = ground arith

  module _ (x : External) (c : Cluster) (policy : NetworkPolicy) (d : Dir)
      (selected : List Pod) where
    -- The result of a loop, with what its rules say of a packet.
    abbrev Renders : Result String (List Rule × State) → List Opening → State → Type 0
    Renders r os s' = (rs : List Rule) × (r ≡ ok (rs, s')) × (is_met rs ≡ any (is_open meets) os)

    peers_rules-Renders :
        (i : ℕ) (ports : List Port) (j : ℕ) (peers : List Peer) (s : State) (os : List Opening)
        {s' : State}
        → PeersOpen x c policy d selected i ports j peers s os s'
        → All (Reads meets) os
        → Renders (peers_rules x c policy d selected i j peers ports s) os s'
    unfolding peers_rules any
    peers_rules-Renders i ports _ _ _ _ (no_peer j s) reads = ([], refl, refl)
    peers_rules-Renders i ports _ _ _ _
          (a_peer j peer rest s s1 s2 s3 pms qms named more one two opened) (here, reads) =
        let (later, three, counts) =
          peers_rules-Renders i ports (j + 1) rest s2 more opened reads in
        let comment = full_name policy.namespace policy.name in
        (
          accepts comment pms qms ++ later,
          rw (one, peers_rules) (rw two (rw three refl)),
          any-append (λ (r : Rule). meets r.match) (accepts comment pms qms) later
              ∙ rw (accepts-met comment pms qms here, counts) refl,
        )

    entries_rules-Renders :
        (i : ℕ) (entries : List Types.Rule) (s : State) (os : List Opening) {s' : State}
        → EntriesOpen x c policy d selected i entries s os s'
        → All (Reads meets) os
        → Renders (entries_rules x c policy d selected i entries s) os s'
    unfolding entries_rules any
    entries_rules-Renders _ _ _ _ (no_entry i s) reads = ([], refl, refl)
    entries_rules-Renders _ _ _ _ (an_entry i entry rest s s1 s2 here more opened opens) reads =
        let (rules, one, counts) =
          peers_rules-Renders i entry.ports 0 (or_any_peer entry.peers) s here opened
            (All-append_left (Reads meets) here more reads) in
        let (later, two, adds) =
          entries_rules-Renders (i + 1) rest s1 more opens
            (All-append_right (Reads meets) here more reads) in
        (
          rules ++ later,
          rw (one, entries_rules) (rw two refl),
          any-append (λ (r : Rule). meets r.match) rules later
              ∙ rw (counts, adds) (sym (any-append (is_open meets) here more)),
        )

    -- If the matches of each peer of each entry, where an entry without peers is about any, and of the
    -- entry's ports can be made one after the other, then the rules of the policy's direction are rendered
    -- from them, and each accepts. If moreover nft reads a match of a peer and one of its ports in one rule as
    -- both of them, and the empty match as met, then a packet meets one of the rules exactly if, for some peer
    -- of some entry, it meets a match of that peer and a match of that entry's ports.
    pub direction_rules-Open :
        (s : State) (os : List Opening) {s' : State}
        → EntriesOpen x c policy d selected 0 (rules_of policy d.typ) s os s'
        → All (Reads meets) os
        → (rs : List Rule) × (direction_rules x c policy d selected s ≡ ok (rs, s'))
          × OnlyAccepts rs
          × (is_met rs ≡ any (is_open meets) os)
    unfolding direction_rules
    direction_rules-Open s os opened reads =
        let (rs, made, counts) =
          entries_rules-Renders 0 (rules_of policy d.typ) s os opened reads in
        (rs, made, direction_rules-OnlyAccepts x c policy d selected s made, counts)
