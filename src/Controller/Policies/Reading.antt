-- ===== src/Controller/Policies/Reading.antt =====
-- What is read of a NetworkPolicy, rule by rule, peer by peer and port by port.
use cnidaria_cni.Base.{
  ℕ, ◌≤◌, String, ◌≡◌, refl, sym, Option, none, some, List, ok, Each, traverse-Each, traverse,
  arith, ℤ, pos, map_err, map_err-eq-ok, >>=-eq-ok, ok_inj,
}
use mathlib.Core.Path.{subst}
use cnidaria_cni.Netip.Prefix.{Prefix, masked}
use cnidaria_cni.Kube.{External}
use cnidaria_cni.Kube
use cnidaria_cni.Kube.Objects.{
  IntOrString, of_int, of_string, NetworkPolicyPeer, NetworkPolicyPort, NetworkPolicyIngressRule,
  NetworkPolicyEgressRule, NetworkPolicy,
}
use cnidaria_cni.Netpol.Types
use cnidaria_cni.Netpol.Types.{IpBlock, Peer, Port, Rule}
use cnidaria_cni.Controller.Policies.{
  block_prefix, from_ip_block, block_of, from_peer, port_number, port_of, end_port_of, from_port,
  from_rule, from_network_policy, protocol_of,
}
use cnidaria_cni.Controller.Policies.Readable.{port_number-eq-ok}

-- A number that stands for a port.
abbrev pub StandsFor : ℤ → ℕ → Type 0
StandsFor z n = (z ≡ pos n) × (1 ≤ n) × (n ≤ 65535)

abbrev pub ReadsProtocol : Option String → String → Type 0
ReadsProtocol none s = s ≡ ""
ReadsProtocol (some t) s = s ≡ t

-- A port by its name or its number, of which the other is left out.
abbrev pub ReadsNumber : Option IntOrString → String → ℕ → Type 0
ReadsNumber none name n = (name ≡ "") × (n ≡ 0)
ReadsNumber (some (of_string s)) name n = (name ≡ s) × (n ≡ 0)
ReadsNumber (some (of_int z)) name n = (name ≡ "") × StandsFor z n

abbrev pub ReadsEnd : Option ℤ → ℕ → Type 0
ReadsEnd none n = n ≡ 0
ReadsEnd (some z) n = StandsFor z n

abbrev pub ReadsPort : NetworkPolicyPort → Port → Type 0
ReadsPort q p =
    ReadsProtocol q.protocol p.protocol
    × ReadsNumber q.port p.name p.number
    × ReadsEnd q.end_port p.end_port

module _ (x : External) where
  -- The network of the prefix that a text is parsed as.
  abbrev pub ReadsPrefix : String → Prefix → Type 0
  ReadsPrefix s p = (q : Prefix) × (x.parse_prefix s ≡ ok q) × (p ≡ masked q)

  abbrev pub ReadsBlock : Option Kube.IpBlock → Option IpBlock → Type 0
  ReadsBlock none none = Unit
  ReadsBlock (some b) (some c) = ReadsPrefix b.cidr c.cidr × Each ReadsPrefix b.except c.except
  ReadsBlock none (some c) = ⊥
  ReadsBlock (some b) none = ⊥

  abbrev pub ReadsPeer : NetworkPolicyPeer → Peer → Type 0
  ReadsPeer q p =
      (p.pod_selector ≡ q.pod_selector)
      × (p.namespace_selector ≡ q.namespace_selector)
      × ReadsBlock q.ip_block p.ip_block

  abbrev pub ReadsRule : List NetworkPolicyPeer → List NetworkPolicyPort → Rule → Type 0
  ReadsRule peers ports r = Each ReadsPeer peers r.peers × Each ReadsPort ports r.ports

  -- The whole policy.
  pub record Reads (policy : NetworkPolicy) (out : Types.NetworkPolicy) : Type 0 where
    pub namespace : out.namespace ≡ policy.meta.namespace
    pub name : out.name ≡ policy.meta.name
    pub pod_selector : out.pod_selector ≡ policy.spec.pod_selector
    pub policy_types : out.policy_types ≡ policy.spec.policy_types
    pub ingress :
        Each
          (λ (q : NetworkPolicyIngressRule) (r : Rule). ReadsRule q.from q.ports r)
          policy.spec.ingress
          out.ingress
    pub egress :
        Each
          (λ (q : NetworkPolicyEgressRule) (r : Rule). ReadsRule q.to q.ports r)
          policy.spec.egress
          out.egress

port_of-Reads :
    (q : Option IntOrString) (name : String) (n : ℕ)
    → port_of q ≡ ok (name, n)
    → ReadsNumber q name n
unfolding port_of
port_of-Reads none name n h = ground arith
port_of-Reads (some (of_string s)) name n h = ground arith
port_of-Reads (some (of_int z)) name n h =
    let (p, number, whole) = >>=-eq-ok (port_number "port" z) _ h in
    let named : name ≡ "" = ground arith in
    let same : p ≡ n = ground arith in (named, port_number-eq-ok "port" z n (rw same at number))

end_port_of-Reads : (q : Option ℤ) (n : ℕ) → end_port_of q ≡ ok n → ReadsEnd q n
unfolding end_port_of
end_port_of-Reads none n h = ground arith
end_port_of-Reads (some z) n h = port_number-eq-ok "endPort" z n h

protocol_of-Reads : (q : Option String) → ReadsProtocol q (protocol_of q)
protocol_of-Reads none = refl
protocol_of-Reads (some t) = refl

from_port-Reads : (q : NetworkPolicyPort) (p : Port) → from_port q ≡ ok p → ReadsPort q p
unfolding from_port
from_port-Reads q p h =
    let ((name, n), number, rest) = >>=-eq-ok (port_of q.port) _ h in
    let (e, ends, whole) = >>=-eq-ok (end_port_of q.end_port) _ rest in
    subst (λ (p : Port). ReadsPort q p) (ok_inj whole)
      (
        protocol_of-Reads q.protocol,
        port_of-Reads q.port name n number,
        end_port_of-Reads q.end_port e ends,
      )

module _ (x : External) where
  block_prefix-Reads :
      (what s : String) (p : Prefix) → block_prefix x what s ≡ ok p → ReadsPrefix x s p
  unfolding block_prefix
  block_prefix-Reads what s p h =
      let (q, parsed, whole) = >>=-eq-ok (map_err _ (x.parse_prefix s)) _ h in
      (q, map_err-eq-ok _ (x.parse_prefix s) parsed, sym (ok_inj whole))

  from_ip_block-Reads :
      (b : Kube.IpBlock) (c : IpBlock)
      → from_ip_block x b ≡ ok c
      → ReadsPrefix x b.cidr c.cidr × Each (ReadsPrefix x) b.except c.except
  unfolding from_ip_block
  from_ip_block-Reads b c h =
      let (cidr, one, rest) = >>=-eq-ok (block_prefix x "cidr" b.cidr) _ h in
      let (except, two, whole) = >>=-eq-ok (traverse (block_prefix x "except") b.except) _ rest in
      subst (λ (c : IpBlock). ReadsPrefix x b.cidr c.cidr × Each (ReadsPrefix x) b.except c.except)
        (ok_inj whole)
        (
          block_prefix-Reads "cidr" b.cidr cidr one,
          traverse-Each (ReadsPrefix x) (block_prefix x "except") (block_prefix-Reads "except")
              b.except two,
        )

  block_of-Reads :
      (b : Option Kube.IpBlock) (c : Option IpBlock) → block_of x b ≡ ok c → ReadsBlock x b c
  unfolding from_ip_block
  block_of-Reads none c h = subst (λ c. ReadsBlock x none c) (ok_inj h) tt
  block_of-Reads (some b) c h =
      let (d, one, whole) = >>=-eq-ok (from_ip_block x b) _ h in
      subst (λ c. ReadsBlock x (some b) c) (ok_inj whole) (from_ip_block-Reads b d one)

  from_peer-Reads : (q : NetworkPolicyPeer) (p : Peer) → from_peer x q ≡ ok p → ReadsPeer x q p
  unfolding from_peer from_ip_block
  from_peer-Reads q p h =
      let (block, one, whole) = >>=-eq-ok (block_of x q.ip_block) _ h in
      subst (λ (p : Peer). ReadsPeer x q p) (ok_inj whole)
        (refl, refl, block_of-Reads q.ip_block block one)

  from_rule-Reads :
      (peers : List NetworkPolicyPeer) (ports : List NetworkPolicyPort) (r : Rule)
      → from_rule x peers ports ≡ ok r
      → ReadsRule x peers ports r
  unfolding from_rule
  from_rule-Reads peers ports r h =
      let (ps, one, rest) = >>=-eq-ok (traverse (from_peer x) peers) _ h in
      let (qs, two, whole) = >>=-eq-ok (traverse from_port ports) _ rest in
      subst (λ (r : Rule). ReadsRule x peers ports r) (ok_inj whole)
        (
          traverse-Each (ReadsPeer x) (from_peer x) from_peer-Reads peers one,
          traverse-Each ReadsPort from_port from_port-Reads ports two,
        )

  -- What is read of a NetworkPolicy has its name, its selector and its types, and rule by rule its peers
  -- and its ports: none is left out, each block is the network of what its text is parsed as, and each
  -- number is the one given, from 1 to 65535.
  pub from_network_policy-Reads :
      (policy : NetworkPolicy) {out : Types.NetworkPolicy}
      → from_network_policy x policy ≡ ok out
      → Reads x policy out
  unfolding from_network_policy
  from_network_policy-Reads policy {out} h =
      let inner = map_err-eq-ok _ _ h in
      let (ingress, one, rest) =
        >>=-eq-ok
          (traverse (λ (r : NetworkPolicyIngressRule). from_rule x r.from r.ports)
            policy.spec.ingress)
          _ inner in
      let (egress, two, whole) =
        >>=-eq-ok
          (traverse (λ (r : NetworkPolicyEgressRule). from_rule x r.to r.ports) policy.spec.egress)
          _ rest in
      subst (λ (out : Types.NetworkPolicy). Reads x policy out) (ok_inj whole)
        (record {
          namespace = refl;
          name = refl;
          pod_selector = refl;
          policy_types = refl;
          ingress =
              traverse-Each
                (λ (q : NetworkPolicyIngressRule) (r : Rule). ReadsRule x q.from q.ports r) _
                (λ q r. from_rule-Reads q.from q.ports r) policy.spec.ingress one;
          egress =
              traverse-Each (λ (q : NetworkPolicyEgressRule) (r : Rule). ReadsRule x q.to q.ports r)
                _ (λ q r. from_rule-Reads q.to q.ports r) policy.spec.egress two;
        })
