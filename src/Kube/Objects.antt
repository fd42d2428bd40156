-- ===== src/Kube/Objects.antt =====
-- The objects that the reconcilers of internal/controller read: nodes, namespaces, pods and
-- NetworkPolicies, with the fields that the code names and, of a pod, some that it drops.
use cnidaria_cni.Base.{String, Bool, Option, List, ℤ}
use cnidaria_cni.Kube.{Labels, LabelSelector, IpBlock}

-- `metav1.ObjectMeta`
pub record ObjectMeta : Type 0 where
  pub namespace : String
  pub name : String
  pub uid : String
  pub resource_version : String
  pub labels : Labels
  pub annotations : Labels
  pub finalizers : List String

-- `corev1.NodeAddress`
pub record NodeAddress : Type 0 where
  pub type : String
  pub address : String

-- `corev1.Node`
pub record Node : Type 0 where
  pub meta : ObjectMeta
  pub pod_cidrs : List String
  pub addresses : List NodeAddress

-- `corev1.Namespace`
pub record Namespace : Type 0 where
  pub meta : ObjectMeta

-- `corev1.ContainerPort`
pub record ContainerPort : Type 0 where
  pub name : String
  pub container_port : ℤ
  pub protocol : String

-- `corev1.Container`
pub record Container : Type 0 where
  pub name : String
  pub image : String
  pub command : List String
  pub restart_policy : Option String
  pub ports : List ContainerPort

-- `corev1.PodSpec`
pub record PodSpec : Type 0 where
  pub node_name : String
  pub host_network : Bool
  pub service_account_name : String
  pub containers : List Container
  pub init_containers : List Container

-- `corev1.PodStatus`, its `PodIPs` by their texts.
pub record PodStatus : Type 0 where
  pub phase : String
  pub message : String
  pub pod_ips : List String

-- `corev1.Pod`
pub record Pod : Type 0 where
  pub type_meta : String
  pub meta : ObjectMeta
  pub spec : PodSpec
  pub status : PodStatus

-- `intstr.IntOrString`
pub data IntOrString : Type 0 where
  of_int : ℤ → IntOrString
  of_string : String → IntOrString

-- `networkingv1.NetworkPolicyPeer`
pub record NetworkPolicyPeer : Type 0 where
  pub pod_selector : Option LabelSelector
  pub namespace_selector : Option LabelSelector
  pub ip_block : Option IpBlock

-- `networkingv1.NetworkPolicyPort`
pub record NetworkPolicyPort : Type 0 where
  pub protocol : Option String
  pub port : Option IntOrString
  pub end_port : Option ℤ

-- An ingress rule has `from` for `peers`, an egress rule `to`.
pub record NetworkPolicyIngressRule : Type 0 where
  pub from : List NetworkPolicyPeer
  pub ports : List NetworkPolicyPort

pub record NetworkPolicyEgressRule : Type 0 where
  pub to : List NetworkPolicyPeer
  pub ports : List NetworkPolicyPort

-- `networkingv1.NetworkPolicySpec`
pub record NetworkPolicySpec : Type 0 where
  pub pod_selector : LabelSelector
  pub ingress : List NetworkPolicyIngressRule
  pub egress : List NetworkPolicyEgressRule
  pub policy_types : List String

-- `networkingv1.NetworkPolicy`
pub record NetworkPolicy : Type 0 where
  pub meta : ObjectMeta
  pub spec : NetworkPolicySpec
