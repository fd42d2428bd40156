-- ===== src/Nftables/Params.antt =====
-- internal/nftables/render.go: the parameters of a table, and the names of its sets and chains.
use cnidaria_cni.Base.{ℕ, String, ◌<>◌, List, if◌then◌else◌, ◌==◌, nat_eq, itoa}
use cnidaria_cni.Netip.Prefix.{Prefix, prefix_eq}

pub record PortRange : Type 0 where
  pub from : ℕ
  pub to : ℕ

pub record SafePorts : Type 0 where
  pub ssh : ℕ
  pub kubelet : ℕ
  pub api_server : ℕ
  pub etcd : PortRange
  pub node_port : PortRange
  pub dns : ℕ

abbrev pub default_safe_ports : SafePorts
default_safe_ports = record {
  ssh = 22;
  kubelet = 10250;
  api_server = 6443;
  etcd = record { from = 2379; to = 2380 };
  node_port = record { from = 30000; to = 32767 };
  dns = 53;
}

pub record Params : Type 0 where
  pub pod_cidrs : List Prefix
  pub cluster_pod_cidrs : List Prefix
  pub safe_ports : SafePorts

-- `PortRange.String`
unfoldable pub port_range_text : PortRange → String
unfolding itoa
port_range_text r = if r.from == r.to then itoa r.from else itoa r.from <> ("-" <> itoa r.to)

abbrev pub set_node_pods_v4 : String
set_node_pods_v4 = "node_pods_v4"

abbrev pub set_node_pods_v6 : String
set_node_pods_v6 = "node_pods_v6"

abbrev pub set_cluster_pods_v4 : String
set_cluster_pods_v4 = "cluster_pods_v4"

abbrev pub set_cluster_pods_v6 : String
set_cluster_pods_v6 = "cluster_pods_v6"

abbrev pub set_isolated_egress_v4 : String
set_isolated_egress_v4 = "isolated_egress_v4"

abbrev pub set_isolated_egress_v6 : String
set_isolated_egress_v6 = "isolated_egress_v6"

abbrev pub set_isolated_ingress_v4 : String
set_isolated_ingress_v4 = "isolated_ingress_v4"

abbrev pub set_isolated_ingress_v6 : String
set_isolated_ingress_v6 = "isolated_ingress_v6"

abbrev pub chain_egress : String
chain_egress = "egress"

abbrev pub chain_egress_dispatch : String
chain_egress_dispatch = "egress_dispatch"

abbrev pub chain_ingress : String
chain_ingress = "ingress"

abbrev pub chain_ingress_dispatch : String
chain_ingress_dispatch = "ingress_dispatch"

abbrev pub chain_input : String
chain_input = "input"

abbrev pub chain_output : String
chain_output = "output"

abbrev pub chain_postrouting : String
chain_postrouting = "postrouting"
