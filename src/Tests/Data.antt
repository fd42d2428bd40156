-- ===== src/Tests/Data.antt =====
-- The values that the runs share.
use cnidaria_cni.Base.{String, Bool, true, false, none, some, [], ◌∷◌, ◌==◌, string_eq, pos, ok}
use cnidaria_cni.Netip.Addr.{Addr, v4}
use cnidaria_cni.Netip.Prefix.{Prefix}
use cnidaria_cni.Kube.{External, LabelSelector}
use cnidaria_cni.Nftables.Params
use cnidaria_cni.Nodepol.Types.{NodeNetworkPolicy, NodeNetworkPolicyIngressRule}
use cnidaria_cni.Nodepol.Add.{Node}
use cnidaria_cni.Netpol.Types

abbrev pub ten : Prefix
ten = record { addr = v4 0x0a000000; bits_plus_one = 9 }

abbrev pub external : External
external = record {
  label_selector = λ s. ok (λ labels. true);
  parse_prefix = λ s. ok ten;
  parse_addr = λ s. ok (v4 0x0af40105);
  sha256_hex = λ s. "0123456789abcdef0123456789abcdef";
}

abbrev pub any_labels : LabelSelector
any_labels = record { match_labels = []; match_expressions = [] }

abbrev pub web_rule : NodeNetworkPolicyIngressRule
web_rule = record {
  from = record { ip_block = some (record { cidr = "10.0.0.0/8"; except = [] }) } ∷ [];
  ports = record { protocol = "TCP"; port = some (pos 80); end_port = none } ∷ [];
}

-- A policy that closes ingress, but for port 80 from 10.0.0.0/8, and egress.
abbrev pub web : NodeNetworkPolicy
web = record {
  name = "web";
  generation = pos 3;
  spec = record {
    mode = "Enforce";
    node_selector = any_labels;
    policy_types = "Ingress" ∷ "Egress" ∷ [];
    ingress = web_rule ∷ [];
    egress = [];
  };
  status = record { nodes = [] };
}

abbrev pub node : Node
node = record { name = "node-1"; labels = [] }

abbrev pub pod_prefix : Prefix
pod_prefix = record { addr = v4 0x0af40100; bits_plus_one = 25 }

abbrev pub table_params : Params.Params
table_params = record {
  pod_cidrs = pod_prefix ∷ [];
  cluster_pod_cidrs = pod_prefix ∷ [];
  safe_ports = Params.default_safe_ports;
}

abbrev pub pod_addr : Addr
pod_addr = v4 0x0af40105

abbrev pub pod : Types.Pod
pod = record {
  namespace = "default";
  name = "db";
  node_name = "node-1";
  labels = [];
  ips = pod_addr ∷ [];
  host_network = false;
  terminated = false;
  ports = [];
}

-- A policy that closes both directions of every pod of its namespace.
abbrev pub deny : Types.NetworkPolicy
deny = record {
  namespace = "default";
  name = "deny";
  pod_selector = any_labels;
  policy_types = "Ingress" ∷ "Egress" ∷ [];
  ingress = [];
  egress = [];
}

abbrev pub cluster_params : Types.Params
cluster_params = record {
  node_name = "node-1";
  pods = pod ∷ [];
  namespaces = record { name = "default"; labels = [] } ∷ [];
  policies = deny ∷ [];
}

-- A packet to port 80 from 10.0.0.0/8, and one that no rule matches.
abbrev pub to_web : String → Bool
to_web match = match == "ip saddr 10.0.0.0/8 tcp dport 80"

abbrev pub stray : String → Bool
stray match = false
