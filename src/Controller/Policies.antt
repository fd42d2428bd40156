-- ===== src/Controller/Policies.antt =====
-- internal/controller/ruleset.go: reading a NetworkPolicy into the value the renderer takes
-- (`fromNetworkPolicy`).
pub mod Readable
pub mod Reading
use cnidaria_cni.Base.{
  ℕ, String, ◌<>◌, Option, none, some, List, [], ◌∷◌, Result, ok, err, ◌>>=◌, map_err, traverse,
  quote, int_text, in_range, ℤ,
}
use cnidaria_cni.Netip.Prefix.{Prefix, masked}
use cnidaria_cni.Kube.{External}
use cnidaria_cni.Kube
use cnidaria_cni.Kube.Objects.{
  IntOrString, of_int, of_string, NetworkPolicyPeer, NetworkPolicyPort, NetworkPolicyIngressRule,
  NetworkPolicyEgressRule, NetworkPolicy,
}
use cnidaria_cni.Netpol.Types
use cnidaria_cni.Netpol.Types.{IpBlock, Peer, Port, Rule}

module _ (x : External) where
  -- A prefix of an `ipBlock`, masked, or its error with what it is.
  unfoldable pub block_prefix : String → String → Result String Prefix
  unfolding masked quote
  block_prefix what s = do
    p ← map_err (λ e. "ipBlock " <> (what <> (" " <> (quote s <> (": " <> e))))) (x.parse_prefix s)
    ok (masked p)

  -- `fromIPBlock`
  unfoldable pub from_ip_block : Kube.IpBlock → Result String IpBlock
  unfolding block_prefix traverse
  from_ip_block block = do
    cidr ← block_prefix "cidr" block.cidr
    except ← traverse (block_prefix "except") block.except
    ok (record { cidr = cidr; except = except })

  -- One peer of `fromRule`.
  abbrev pub block_of : Option Kube.IpBlock → Result String (Option IpBlock)
  unfolding from_ip_block
  block_of none = ok none
  block_of (some block) = do b ← from_ip_block block; ok (some b)

  unfoldable pub from_peer : NetworkPolicyPeer → Result String Peer
  unfolding from_ip_block
  from_peer peer = do
    block ← block_of peer.ip_block
    ok (record {
      pod_selector = peer.pod_selector;
      namespace_selector = peer.namespace_selector;
      ip_block = block;
    })

-- The protocol left out is the empty one.
abbrev pub protocol_of : Option String → String
protocol_of none = ""
protocol_of (some p) = p

-- A number from 1 to 65535, or an error that says what it is not.
unfoldable pub port_number : String → ℤ → Result String ℕ
unfolding in_range int_text
port_number what n = elim (in_range 1 65535 n) [
  | none ↦ err (what <> (" " <> (int_text n <> " is not a port number")))
  | some p ↦ ok p
]

-- The name and the number of a port, of which one is left out.
unfoldable pub port_of : Option IntOrString → Result String (String × ℕ)
unfolding port_number
port_of none = ok ("", 0)
port_of (some (of_string name)) = ok (name, 0)
port_of (some (of_int n)) = do p ← port_number "port" n; ok ("", p)

unfoldable pub end_port_of : Option ℤ → Result String ℕ
unfolding port_number
end_port_of none = ok 0
end_port_of (some n) = port_number "endPort" n

-- One port of `fromRule`.
unfoldable pub from_port : NetworkPolicyPort → Result String Port
unfolding port_of end_port_of
from_port port = do
  (name, number) ← port_of port.port
  end_port ← end_port_of port.end_port
  ok (record {
    protocol = protocol_of port.protocol;
    number = number;
    name = name;
    end_port = end_port;
  })

module _ (x : External) where
  -- `fromRule`
  unfoldable pub from_rule : List NetworkPolicyPeer → List NetworkPolicyPort → Result String Rule
  unfolding from_peer from_port traverse
  from_rule peers ports = do
    ps ← traverse (from_peer x) peers
    qs ← traverse from_port ports
    ok (record { peers = ps; ports = qs })

  -- `fromNetworkPolicy`
  unfoldable pub from_network_policy : NetworkPolicy → Result String Types.NetworkPolicy
  unfolding from_rule traverse
  from_network_policy policy =
      map_err
        (λ e.
          "NetworkPolicy " <> (policy.meta.namespace <> ("/" <> (policy.meta.name <> (": " <> e)))))
        (do
          ingress ←
              traverse (λ (r : NetworkPolicyIngressRule). from_rule r.from r.ports)
                policy.spec.ingress
          egress ←
              traverse (λ (r : NetworkPolicyEgressRule). from_rule r.to r.ports) policy.spec.egress
          ok (record {
            namespace = policy.meta.namespace;
            name = policy.meta.name;
            pod_selector = policy.spec.pod_selector;
            policy_types = policy.spec.policy_types;
            ingress = ingress;
            egress = egress;
          }))
