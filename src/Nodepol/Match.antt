-- ===== src/Nodepol/Match.antt =====
-- internal/nodepol/match.go: a policy's rules as match texts.
use cnidaria_cni.Base.{
  ℕ, String, ◌<>◌, ◌||◌, not, Option, none, some, List, [], ◌∷◌, ◌++◌, map, if◌then◌else◌, ltb,
  ◌==◌, string_eq, Result, ok, err, ◌>>=◌, ◌>>◌, guard, map_err, traverse, ℤ, int_text, in_range,
  itoa, quote, join, trim_space,
}
use cnidaria_cni.Netip.Addr.{is6}
use cnidaria_cni.Netip.Prefix.{Prefix, prefix_eq, prefix_beq, masked, prefix_text}
use cnidaria_cni.Kube.{IpBlock, External}
use cnidaria_cni.Nodepol.Types.{NodeNetworkPolicyPeer, NodeNetworkPolicyPort}

-- `entry`
pub record Entry : Type 0 where
  pub peers : List NodeNetworkPolicyPeer
  pub ports : List NodeNetworkPolicyPort

-- `comment`
unfoldable pub comment : String → String
comment name = "nodenetworkpolicy " <> name

-- `collect`
unfoldable pub collect :
    {A : Type 0} → List A → (A → Result String String) → Result String (List String)
unfolding traverse
collect [] render = ok ("" ∷ [])
collect (e ∷ es) render = traverse render (e ∷ es)

-- `prefix`
unfoldable pub prefix : External → String → Result String Prefix
unfolding masked prefix_text quote
prefix x cidr = do
  p ← map_err (λ e. quote cidr <> (": " <> e)) (x.parse_prefix cidr)
  guard (prefix_beq p (masked p))
      (quote cidr <> (" has bits set below its prefix length; write " <> prefix_text (masked p)))
  ok p

-- One exception of an ipBlock.
except_text : External → Prefix → String → Result String String
unfolding prefix
except_text x block e = do
  except ← map_err (λ m. "ipBlock except: " <> m) (prefix x e)
  guard (not (if is6 except.addr then not (is6 block.addr) else is6 block.addr)) (
      "ipBlock except "
      <> (prefix_text except <> (" is not of the same family as cidr " <> prefix_text block)))
  ok (prefix_text except)

family_word : Prefix → String
family_word p = if is6 p.addr then "ip6" else "ip"

with_excepts : String → Prefix → String → List String → String
unfolding family_word join
with_excepts addr p match [] = match
with_excepts addr p match (e ∷ es) =
    match
    <> (" " <> (family_word p <> (" " <> (addr <> (" != { " <> (join (e ∷ es) ", " <> " }"))))))

block_match : External → String → IpBlock → Result String String
unfolding except_text with_excepts prefix
block_match x addr block = do
  p ← map_err (λ m. "ipBlock cidr: " <> m) (prefix x block.cidr)
  let match = family_word p <> (" " <> (addr <> (" " <> prefix_text p)))
  excepts ← traverse (except_text x p) block.except
  ok (with_excepts addr p match excepts)

-- `direction.peerMatch`; `addr` is the direction's end of the traffic.
unfoldable pub peer_match : External → String → NodeNetworkPolicyPeer → Result String String
unfolding block_match
peer_match x addr peer = elim peer.ip_block [
  | none ↦ err "a peer needs an ipBlock"
  | some block ↦ block_match x addr block
]

-- `protocol`
unfoldable pub protocol : String → Result String String
unfolding quote
protocol p =
    if p == "" || p == "TCP"
    then ok "tcp"
    else if p == "UDP"
    then ok "udp"
    else if p == "SCTP"
    then ok "sctp"
    else err ("protocol " <> (quote p <> " is not one nftables matches on a port"))

-- `portNumber`
unfoldable pub port_number : ℤ → Result String ℕ
unfolding in_range int_text
port_number p = elim (in_range 1 65535 p) [
  | none ↦ err ("port " <> (int_text p <> " is outside 1-65535"))
  | some n ↦ ok n
]

port_range : String → ℕ → Option ℤ → Result String String
unfolding port_number itoa
port_range proto first none = ok (proto <> (" dport " <> itoa first))
port_range proto first (some p) = do
  last ← port_number p
  guard (not (ltb last first)) ("endPort " <> (itoa last <> (" is below port " <> itoa first)))
  ok (proto <> (" dport " <> (itoa first <> ("-" <> itoa last))))

with_port : String → Option ℤ → Option ℤ → Result String String
unfolding port_number port_range int_text
with_port proto none none = ok ("meta l4proto " <> proto)
with_port proto none (some e) = err ("endPort " <> (int_text e <> " without a port"))
with_port proto (some p) end = do first ← port_number p; port_range proto first end

-- `portMatch`
unfoldable pub port_match : NodeNetworkPolicyPort → Result String String
unfolding protocol with_port
port_match port = do proto ← protocol port.protocol; with_port proto port.port port.end_port

cross : List String → List String → List String
unfolding trim_space
cross [] ports = []
cross (peer ∷ peers) ports =
    map (λ port. trim_space (peer <> (" " <> port))) ports ++ cross peers ports

-- `direction.matches`: every peer with every port.
unfoldable pub matches : External → String → Entry → Result String (List String)
unfolding collect peer_match port_match cross
matches x addr e = do
  peers ← collect e.peers (peer_match x addr)
  ports ← collect e.ports port_match
  ok (cross peers ports)
