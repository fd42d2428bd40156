-- ===== src/Controller/Pods.antt =====
-- internal/controller/ruleset.go: what the policy renderer reads off a pod (`fromPod`), and what the
-- cache keeps of one (`StripPod`).
pub mod Stripping
use cnidaria_cni.Base.{
  ℕ, String, Bool, true, false, ◌||◌, Option, none, some, List, [], ◌∷◌, ◌++◌, map, if◌then◌else◌,
  ◌==◌, string_eq, ok, err, in_range,
}
use cnidaria_cni.Netip.Addr.{Addr}
use cnidaria_cni.Kube.{External}
use cnidaria_cni.Kube.Objects.{Pod, Container, ContainerPort, ObjectMeta}
use cnidaria_cni.Netpol.Types
use cnidaria_cni.Netpol.Types.{NamedPort}

-- The loop over the pod's addresses: one that does not parse is left out.
unfoldable pub parsed_ips : External → List String → List Addr
parsed_ips x [] = []
parsed_ips x (ip ∷ ips) = elim (x.parse_addr ip) [
  | err e ↦ parsed_ips x ips
  | ok addr ↦ addr ∷ parsed_ips x ips
]

-- A container that restarts always.
abbrev keeps_running : Container → Bool
keeps_running c = elim c.restart_policy [ none ↦ false | some policy ↦ policy == "Always" ]

-- The loop over the init containers.
unfoldable pub sidecars : List Container → List Container
sidecars [] = []
sidecars (c ∷ cs) = let rest = sidecars cs in if keeps_running c then c ∷ rest else rest

-- `containersThatServe`
unfoldable pub containers_that_serve : Pod → List Container
unfolding sidecars
containers_that_serve pod = pod.spec.containers ++ sidecars pod.spec.init_containers

-- A port that has a name and a number.
abbrev named_port : ContainerPort → Option NamedPort
unfolding in_range
named_port p = if p.name == "" then none else elim (in_range 1 65535 p.container_port) [
  | none ↦ none
  | some n ↦ some (record { name = p.name; port = n; protocol = p.protocol })
]

-- The loops over the containers and their ports.
unfoldable pub named_ports : List ContainerPort → List NamedPort
unfolding named_port in_range
named_ports [] = []
named_ports (p ∷ ps) = elim (named_port p) [
  | none ↦ named_ports ps
  | some port ↦ port ∷ named_ports ps
]

unfoldable pub ports_of : List Container → List NamedPort
unfolding named_ports
ports_of [] = []
ports_of (c ∷ cs) = named_ports c.ports ++ ports_of cs

-- `fromPod`
unfoldable pub from_pod : External → Pod → Types.Pod
unfolding parsed_ips containers_that_serve ports_of
from_pod x pod = record {
  namespace = pod.meta.namespace;
  name = pod.meta.name;
  node_name = pod.spec.node_name;
  labels = pod.meta.labels;
  ips = parsed_ips x pod.status.pod_ips;
  host_network = pod.spec.host_network;
  terminated = pod.status.phase == "Succeeded" || pod.status.phase == "Failed";
  ports = ports_of (containers_that_serve pod);
}

-- `keepPorts`
abbrev pub keep_ports : Container → Container
keep_ports c = record {
  name = c.name;
  image = "";
  command = [];
  restart_policy = c.restart_policy;
  ports = c.ports;
}

abbrev kept_meta : ObjectMeta → ObjectMeta
kept_meta m = record {
  namespace = m.namespace;
  name = m.name;
  uid = m.uid;
  resource_version = m.resource_version;
  labels = m.labels;
  annotations = [];
  finalizers = [];
}

-- What `StripPod` makes of a pod.
unfoldable pub stripped : Pod → Pod
stripped pod = record {
  type_meta = pod.type_meta;
  meta = kept_meta pod.meta;
  spec = record {
    node_name = pod.spec.node_name;
    host_network = pod.spec.host_network;
    service_account_name = "";
    containers = map keep_ports pod.spec.containers;
    init_containers = map keep_ports pod.spec.init_containers;
  };
  status = record { phase = pod.status.phase; message = ""; pod_ips = pod.status.pod_ips };
}

-- What a cache hands to its transform: a pod, or a tombstone or another thing.
pub data Cached : Type 0 where
  pod : Pod → Cached
  other : String → Cached

-- `StripPod`
unfoldable pub strip_pod : Cached → Cached
unfolding stripped
strip_pod (pod p) = pod (stripped p)
strip_pod (other o) = other o
