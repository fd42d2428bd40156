-- ===== src/Controller/Policies/Readable.antt =====
-- Which NetworkPolicies can be read, and what is read.
use cnidaria_cni.Base.{
  ℕ, ◌≤◌, String, ◌≡◌, ◌↔◌, Option, none, some, List, ok, Succeeds, Succeeds-map_err,
  Succeeds-ok_after, Succeeds-both, Succeeds-traverse, traverse, All, arith, ℤ, pos, negsuc,
  in_range, Succeeds-ok,
}
use cnidaria_cni.Netip.Prefix.{Prefix, masked}
use cnidaria_cni.Kube.{External}
use cnidaria_cni.Kube
use cnidaria_cni.Kube.Objects.{
  IntOrString, of_int, of_string, NetworkPolicyPeer, NetworkPolicyPort, NetworkPolicyIngressRule,
  NetworkPolicyEgressRule, NetworkPolicy,
}
use cnidaria_cni.Netpol.Types.{}
use cnidaria_cni.Controller.Policies.{
  block_prefix, from_ip_block, block_of, from_peer, port_number, port_of, end_port_of, from_port,
  from_rule, from_network_policy,
}

-- A number that a port can have.
abbrev pub IsPortNumber : ℤ → Type 0
IsPortNumber (pos n) = (1 ≤ n) × (n ≤ 65535)
IsPortNumber (negsuc n) = ⊥

abbrev pub IsPort : Option IntOrString → Type 0
IsPort none = Unit
IsPort (some (of_string name)) = Unit
IsPort (some (of_int n)) = IsPortNumber n

abbrev pub IsEndPort : Option ℤ → Type 0
IsEndPort none = Unit
IsEndPort (some n) = IsPortNumber n

module _ (x : External) where
  -- A text that the parser of prefixes takes.
  abbrev pub IsPrefix : String → Type 0
  IsPrefix s = Succeeds (x.parse_prefix s)

  abbrev pub IsBlock : Option Kube.IpBlock → Type 0
  IsBlock none = Unit
  IsBlock (some b) = IsPrefix b.cidr × All IsPrefix b.except

  abbrev pub IsRule : List NetworkPolicyPeer → List NetworkPolicyPort → Type 0
  IsRule peers ports =
      All (λ (p : NetworkPolicyPeer). IsBlock p.ip_block) peers
      × All (λ (q : NetworkPolicyPort). IsPort q.port × IsEndPort q.end_port) ports

  abbrev pub IsReadable : NetworkPolicy → Type 0
  IsReadable policy =
      All (λ (r : NetworkPolicyIngressRule). IsRule r.from r.ports) policy.spec.ingress
      × All (λ (r : NetworkPolicyEgressRule). IsRule r.to r.ports) policy.spec.egress

then_iff {ℓ κ μ} : {A : Type ℓ} {B : Type κ} {C : Type μ} → (A ↔ B) → (B ↔ C) → A ↔ C
then_iff p q = (λ h. q.0 (p.0 h), λ h. p.1 (q.1 h))

and_iff {ℓ κ μ ν} :
    {A : Type ℓ} {B : Type κ} {C : Type μ} {D : Type ν} → (A ↔ B) → (C ↔ D) → (A × C) ↔ (B × D)
and_iff p q = (λ h. (p.0 h.0, q.0 h.1), λ h. (p.1 h.0, q.1 h.1))

port_number_in : (what : String) (n : ℕ) → 1 ≤ n → n ≤ 65535 → port_number what (pos n) ≡ ok n
unfolding port_number in_range
port_number_in what n least most = ground arith

pub port_number-eq-ok :
    (what : String) (n : ℤ) (p : ℕ)
    → port_number what n ≡ ok p
    → (n ≡ pos p) × (1 ≤ p) × (p ≤ 65535)
unfolding port_number in_range
port_number-eq-ok what (pos n) p h = (ground arith, ground arith, ground arith)
port_number-eq-ok what (negsuc n) p h = cc

port_number_iff : (what : String) (n : ℤ) → Succeeds (port_number what n) ↔ IsPortNumber n
port_number_iff what n = (λ h. forth n (Succeeds-ok (port_number what n) h), back n)
  where
    forth : (n : ℤ) → (p : ℕ) × (port_number what n ≡ ok p) → IsPortNumber n
    forth n (p, e) = let (same, least, most) = port_number-eq-ok what n p e in rw same (least, most)

    back : (n : ℤ) → IsPortNumber n → Succeeds (port_number what n)
    back (pos n) (least, most) = rw (port_number_in what n least most) tt
    back (negsuc n) h = absurd h

port_of_iff : (p : Option IntOrString) → Succeeds (port_of p) ↔ IsPort p
unfolding port_of
port_of_iff none = (λ h. h, λ h. h)
port_of_iff (some (of_string name)) = (λ h. h, λ h. h)
port_of_iff (some (of_int n)) =
    then_iff (Succeeds-ok_after (port_number "port" n) (λ (p : ℕ). ("", p)))
      (port_number_iff "port" n)

end_port_of_iff : (p : Option ℤ) → Succeeds (end_port_of p) ↔ IsEndPort p
unfolding end_port_of
end_port_of_iff none = (λ h. h, λ h. h)
end_port_of_iff (some n) = port_number_iff "endPort" n

from_port_iff :
    (q : NetworkPolicyPort) → Succeeds (from_port q) ↔ (IsPort q.port × IsEndPort q.end_port)
unfolding from_port
from_port_iff q =
    then_iff (Succeeds-both (port_of q.port) (end_port_of q.end_port) _)
      (and_iff (port_of_iff q.port) (end_port_of_iff q.end_port))

module _ (x : External) where
  block_prefix_iff : (what s : String) → Succeeds (block_prefix x what s) ↔ IsPrefix x s
  unfolding block_prefix
  block_prefix_iff what s =
      then_iff (Succeeds-ok_after _ (λ (p : Prefix). masked p))
        (Succeeds-map_err _ (x.parse_prefix s))

  from_ip_block_iff :
      (b : Kube.IpBlock)
      → Succeeds (from_ip_block x b) ↔ (IsPrefix x b.cidr × All (IsPrefix x) b.except)
  unfolding from_ip_block
  from_ip_block_iff b =
      then_iff
        (Succeeds-both (block_prefix x "cidr" b.cidr) (traverse (block_prefix x "except") b.except)
          _)
        (and_iff (block_prefix_iff "cidr" b.cidr) (
          Succeeds-traverse (IsPrefix x) (block_prefix x "except") (block_prefix_iff "except")
            b.except))

  block_of_iff : (b : Option Kube.IpBlock) → Succeeds (block_of x b) ↔ IsBlock x b
  unfolding block_of from_ip_block
  block_of_iff none = (λ h. h, λ h. h)
  block_of_iff (some b) = then_iff (Succeeds-ok_after (from_ip_block x b) _) (from_ip_block_iff b)

  from_peer_iff : (p : NetworkPolicyPeer) → Succeeds (from_peer x p) ↔ IsBlock x p.ip_block
  unfolding from_peer from_ip_block
  from_peer_iff p = then_iff (Succeeds-ok_after (block_of x p.ip_block) _) (block_of_iff p.ip_block)

  from_rule_iff :
      (peers : List NetworkPolicyPeer) (ports : List NetworkPolicyPort)
      → Succeeds (from_rule x peers ports) ↔ IsRule x peers ports
  unfolding from_rule
  from_rule_iff peers ports =
      then_iff (Succeeds-both (traverse (from_peer x) peers) (traverse from_port ports) _) (
        and_iff
          (Succeeds-traverse (λ (p : NetworkPolicyPeer). IsBlock x p.ip_block) (from_peer x)
            from_peer_iff peers)
          (Succeeds-traverse (λ (q : NetworkPolicyPort). IsPort q.port × IsEndPort q.end_port)
            from_port from_port_iff ports))

  -- A NetworkPolicy is read exactly if each port and end port that is given as a number is one from 1
  -- to 65535, and the prefix parser takes each CIDR and each exception of each of its blocks.
  pub from_network_policy_iff :
      (policy : NetworkPolicy) → Succeeds (from_network_policy x policy) ↔ IsReadable x policy
  unfolding from_network_policy
  from_network_policy_iff policy = then_iff (Succeeds-map_err _ _) (
      then_iff
        (Succeeds-both
          (traverse (λ (r : NetworkPolicyIngressRule). from_rule x r.from r.ports)
            policy.spec.ingress)
          (traverse (λ (r : NetworkPolicyEgressRule). from_rule x r.to r.ports) policy.spec.egress)
          _)
        (and_iff
          (Succeeds-traverse (λ (r : NetworkPolicyIngressRule). IsRule x r.from r.ports)
            (λ (r : NetworkPolicyIngressRule). from_rule x r.from r.ports)
            (λ r. from_rule_iff r.from r.ports) policy.spec.ingress)
          (Succeeds-traverse (λ (r : NetworkPolicyEgressRule). IsRule x r.to r.ports)
            (λ (r : NetworkPolicyEgressRule). from_rule x r.to r.ports)
            (λ r. from_rule_iff r.to r.ports) policy.spec.egress)))
