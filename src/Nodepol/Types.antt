-- ===== src/Nodepol/Types.antt =====
-- internal/apis/v1alpha1: the NodeNetworkPolicy object. A mode and a policy type are texts.
use cnidaria_cni.Base.{String, Option, List, ℤ}
use cnidaria_cni.Kube.{LabelSelector, IpBlock}

abbrev pub mode_permissive : String
mode_permissive = "Permissive"

abbrev pub mode_enforce : String
mode_enforce = "Enforce"

abbrev pub policy_type_ingress : String
policy_type_ingress = "Ingress"

abbrev pub policy_type_egress : String
policy_type_egress = "Egress"

pub record NodeNetworkPolicyPeer : Type 0 where
  pub ip_block : Option IpBlock

pub record NodeNetworkPolicyPort : Type 0 where
  pub protocol : String
  pub port : Option ℤ
  pub end_port : Option ℤ

-- The ingress rules have `from` for `peers`, the egress rules `to`.
pub record NodeNetworkPolicyIngressRule : Type 0 where
  pub from : List NodeNetworkPolicyPeer
  pub ports : List NodeNetworkPolicyPort

pub record NodeNetworkPolicyEgressRule : Type 0 where
  pub to : List NodeNetworkPolicyPeer
  pub ports : List NodeNetworkPolicyPort

pub record NodeNetworkPolicySpec : Type 0 where
  pub mode : String
  pub node_selector : LabelSelector
  pub policy_types : List String
  pub ingress : List NodeNetworkPolicyIngressRule
  pub egress : List NodeNetworkPolicyEgressRule

pub record NodeNetworkPolicyNodeStatus : Type 0 where
  pub name : String
  pub observed_generation : ℤ
  pub mode : String
  pub message : String

pub record NodeNetworkPolicyStatus : Type 0 where
  pub nodes : List NodeNetworkPolicyNodeStatus

-- Of the metadata, the name and the generation.
pub record NodeNetworkPolicy : Type 0 where
  pub name : String
  pub generation : ℤ
  pub spec : NodeNetworkPolicySpec
  pub status : NodeNetworkPolicyStatus
