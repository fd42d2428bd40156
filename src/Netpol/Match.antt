-- ===== src/Netpol/Match.antt =====
-- internal/netpol/render.go: conditions with the address family that they constrain.
use cnidaria_cni.Base.{
  String, ◌<>◌, Bool, true, false, Option, none, some, List, [], ◌∷◌, ◌++◌, if◌then◌else◌, ◌==◌,
  string_eq, map, join,
}
use cnidaria_cni.Netip.Addr.{is6}
use cnidaria_cni.Netip.Prefix.{prefix_text}
use cnidaria_cni.Netpol.Types.{IpBlock}

-- `family`
pub data Family : Type 0 where
  family_both family_v4 family_v6 : Family

abbrev pub family_beq : Family → Family → Bool
family_beq family_both family_both = true
family_beq family_v4 family_v4 = true
family_beq family_v6 family_v6 = true
family_beq _ _ = false

-- `match`
pub record Match : Type 0 where
  pub fam : Family
  pub expr : String

abbrev pub match_all : Match
match_all = record { fam = family_both; expr = "" }

-- The first switch of `match.and`.
unfoldable pub join_families : Family → Family → Option Family
join_families m other =
    if family_beq m other
    then some m
    else if family_beq m family_both
    then some other
    else if family_beq other family_both
    then some m
    else none

-- The second switch.
unfoldable pub join_exprs : String → String → String
join_exprs m other = if m == "" then other else if other == "" then m else m <> (" " <> other)

-- `match.and`
unfoldable pub and : Match → Match → Option Match
unfolding join_families join_exprs
and m other = elim (join_families m.fam other.fam) [
  | none ↦ none
  | some fam ↦ some (record { fam = fam; expr = join_exprs m.expr other.expr })
]

-- `podAddrs`: the names of the sets, empty for a family without one.
pub record PodAddrs : Type 0 where
  pub v4 : String
  pub v6 : String

-- `podAddrs.matches`
unfoldable pub addr_matches : PodAddrs → (String → String → String) → List Match
addr_matches a expr =
    (if a.v4 == "" then [] else record { fam = family_v4; expr = expr "ip" a.v4 } ∷ [])
    ++ (if a.v6 == "" then [] else record { fam = family_v6; expr = expr "ip6" a.v6 } ∷ [])

except_text : String → String → List String → String
unfolding join
except_text prefix addr [] = ""
except_text prefix addr (e ∷ es) =
    " " <> (prefix <> (" " <> (addr <> (" != { " <> (join (e ∷ es) ", " <> " }")))))

-- `ipBlockMatch`
unfoldable pub ip_block_match : String → IpBlock → Match
unfolding except_text prefix_text
ip_block_match peer_addr block =
    let word = if is6 block.cidr.addr then "ip6" else "ip" in
    record {
      fam = if is6 block.cidr.addr then family_v6 else family_v4;
      expr =
          word
          <> (" "
              <> (peer_addr
                  <> (" "
                      <> (prefix_text block.cidr
                          <> except_text word peer_addr (map prefix_text block.except)))));
    }
