-- ===== src/Conflist.antt =====
-- internal/conflist/conflist.go: the CNI configuration list of a node, as the document that is
-- printed as JSON.
pub mod Rendered
pub mod Printing
pub mod Writing
use cnidaria_cni.Base.{
  ℕ, String, ◌<>◌, Bool, true, false, ◌&&◌, not, List, [], ◌∷◌, if◌then◌else◌, ◌==◌, string_eq,
  Result, ok, err, ◌>>=◌, ◌>>◌, guard, quote,
}
use cnidaria_cni.Netip.Addr.{is4, is6}
use cnidaria_cni.Netip.Prefix.{Prefix, prefix_is_valid, prefix_text, masked}
use cnidaria_cni.Nftables.Validate.{is_empty}

abbrev pub cni_version : String
cni_version = "1.0.0"

-- `Params`
pub record Params : Type 0 where
  pub name : String
  pub bridge : String
  pub mtu : ℕ
  pub pod_cidrs : List Prefix

-- `hostLocalRange`
pub record HostLocalRange : Type 0 where
  pub subnet : String

-- `hostLocalIPAM`
pub record HostLocalIpam : Type 0 where
  pub type : String
  pub ranges : List (List HostLocalRange)

-- `bridgePlugin`, `portmapPlugin`: the entries of the list of plugins.
pub data Plugin : Type 0 where
  bridge_plugin :
      (type bridge : String) (is_default_gateway hairpin_mode : Bool) (mtu : ℕ)
      (ipam : HostLocalIpam)
      → Plugin
  portmap_plugin : (type : String) (capabilities : List (String × Bool)) → Plugin

-- `document`
pub record Document : Type 0 where
  pub cni_version : String
  pub name : String
  pub plugins : List Plugin

-- The loop over the pod CIDRs, with `sawV4` and `sawV6`.
unfoldable pub ranges_from : Bool → Bool → List Prefix → Result String (List (List HostLocalRange))
unfolding prefix_text quote masked
ranges_from saw_v4 saw_v6 [] = ok []
ranges_from saw_v4 saw_v6 (cidr ∷ rest) =
    let here : List HostLocalRange = record { subnet = prefix_text (masked cidr) } ∷ [] in
    let after_v4 = (do later ← ranges_from true saw_v6 rest; ok (here ∷ later)) in
    let after_v6 = (do later ← ranges_from saw_v4 true rest; ok (here ∷ later)) in
    if not (prefix_is_valid cidr)
    then err ("conflist: invalid pod CIDR " <> quote (prefix_text cidr))
    else if is4 cidr.addr && not saw_v4
    then after_v4
    else if is6 cidr.addr && not saw_v6
    then after_v6
    else err ("conflist: more than one pod CIDR for one address family: " <> prefix_text cidr)

abbrev pub plugins : Params → List (List HostLocalRange) → List Plugin
plugins p ranges =
    bridge_plugin "bridge" p.bridge true true p.mtu
      (record { type = "host-local"; ranges = ranges })
    ∷ portmap_plugin "portmap" (("portMappings", true) ∷ [])
    ∷ []

-- `Render`, up to the printing.
unfoldable pub render : Params → Result String Document
unfolding ranges_from
render p = do
  guard (not (p.name == "")) "conflist: network name is required"
  guard (not (p.bridge == "")) "conflist: bridge name is required"
  guard (not (is_empty p.pod_cidrs)) "conflist: at least one pod CIDR is required"
  ranges ← ranges_from false false p.pod_cidrs
  ok (record { cni_version = cni_version; name = p.name; plugins = plugins p ranges })
