-- ===== src/Netpol/Types.antt =====
-- internal/netpol/netpol.go: the values that the renderer takes. A protocol and a policy type are texts.
use cnidaria_cni.Base.{ℕ, String, Bool, not, Option, List, if◌then◌else◌, ◌==◌, string_eq, contains}
use cnidaria_cni.Netip.Addr.{Addr}
use cnidaria_cni.Netip.Prefix.{Prefix}
use cnidaria_cni.Kube.{Labels, LabelSelector}
use cnidaria_cni.Nftables.Validate.{is_empty}

pub record NamedPort : Type 0 where
  pub name : String
  pub port : ℕ
  pub protocol : String

pub record Pod : Type 0 where
  pub namespace : String
  pub name : String
  pub node_name : String
  pub labels : Labels
  pub ips : List Addr
  pub host_network : Bool
  pub terminated : Bool
  pub ports : List NamedPort

pub record Namespace : Type 0 where
  pub name : String
  pub labels : Labels

pub record IpBlock : Type 0 where
  pub cidr : Prefix
  pub except : List Prefix

pub record Peer : Type 0 where
  pub pod_selector : Option LabelSelector
  pub namespace_selector : Option LabelSelector
  pub ip_block : Option IpBlock

-- A number of 0 and an empty name are "left out".
pub record Port : Type 0 where
  pub protocol : String
  pub number : ℕ
  pub name : String
  pub end_port : ℕ

pub record Rule : Type 0 where
  pub peers : List Peer
  pub ports : List Port

pub record NetworkPolicy : Type 0 where
  pub namespace : String
  pub name : String
  pub pod_selector : LabelSelector
  pub policy_types : List String
  pub ingress : List Rule
  pub egress : List Rule

pub record Params : Type 0 where
  pub node_name : String
  pub pods : List Pod
  pub namespaces : List Namespace
  pub policies : List NetworkPolicy

abbrev pub protocol_tcp : String
protocol_tcp = "TCP"

abbrev pub policy_type_ingress : String
policy_type_ingress = "Ingress"

abbrev pub policy_type_egress : String
policy_type_egress = "Egress"

-- `NetworkPolicy.governs`
unfoldable pub governs : NetworkPolicy → String → Bool
unfolding contains
governs p t =
    if is_empty p.policy_types
    then (if t == policy_type_egress then not (is_empty p.egress) else t == policy_type_ingress)
    else contains p.policy_types t

-- `NetworkPolicy.rules`
unfoldable pub rules_of : NetworkPolicy → String → List Rule
rules_of p t = if t == policy_type_egress then p.egress else p.ingress
