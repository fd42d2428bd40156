-- ===== src/Tests/Reconcilers.antt =====
-- The reconcilers of internal/controller, over a cache, an API server and a host that are given here.
use cnidaria_cni.Base.{
  String, ◌≡◌, ◌≢◌, ◌↔◌, refl, false, none, some, List, [], ◌∷◌, if◌then◌else◌, ◌==◌, string_eq, ℕ,
  ◌⊎◌, inl, pos, Result, ok, err, Succeeds, differs_text, All,
}
use cnidaria_cni.Kube.Objects.{
  Pod, NetworkPolicy, NetworkPolicyPort, NetworkPolicyPeer, ObjectMeta, of_int, Container,
}
use cnidaria_cni.Netpol.Types
use cnidaria_cni.Nodepol.Types.{NodeNetworkPolicyNodeStatus}
use cnidaria_cni.Nftables.Params
use cnidaria_cni.Nftables.Applier.{new_applier}
use cnidaria_cni.Nftables.Applier.Remembering.{IsTransaction}
use cnidaria_cni.Controller.{PolicyStatus}
use cnidaria_cni.Controller.Pods.{from_pod, pod, strip_pod, stripped}
use cnidaria_cni.Controller.Pods.Stripping.{from_pod-stripped}
use cnidaria_cni.Controller.Policies.{from_network_policy}
use cnidaria_cni.Controller.Policies.Readable.{IsReadable, from_network_policy_iff}
use cnidaria_cni.Controller.Policies.Reading.{Reads, from_network_policy-Reads}
use cnidaria_cni.Controller.Status.{Update, IsServer, write_status}
use cnidaria_cni.Controller.Status.Settling.{IsSettled, write_status-settles}
use cnidaria_cni.Controller.Render.{Cache, Rendered, render, netpol_params}
use cnidaria_cni.Controller.Render.Explained.{Explained}
use cnidaria_cni.Controller.Render.Explaining.{render-Explained}
use cnidaria_cni.Controller.Reconcile.{Ruleset, is_due, reconcile, resync}
use cnidaria_cni.Controller.Reconcile.Renewing.{IsRenewed, IsLeft, reconcile-IsRenewed}
use cnidaria_cni.Controller.Reconcile.Running.{Reconciled, reconcile-Reconciled}
use cnidaria_cni.Tests.Data.{external, any_labels, web}

abbrev named : String → String → ObjectMeta
named namespace name = record {
  namespace = namespace;
  name = name;
  uid = "7";
  resource_version = "42";
  labels = [];
  annotations = ("k8s.v1.cni.cncf.io/networks", "") ∷ [];
  finalizers = [];
}

abbrev server_container : Container
server_container = record {
  name = "postgres";
  image = "postgres:17";
  command = "postgres" ∷ [];
  restart_policy = some "Always";
  ports = record { name = "sql"; container_port = pos 5432; protocol = "TCP" } ∷ [];
}

abbrev db : Pod
db = record {
  type_meta = "v1/Pod";
  meta = named "default" "db";
  spec = record {
    node_name = "node-1";
    host_network = false;
    service_account_name = "db";
    containers = server_container ∷ [];
    init_containers = server_container ∷ [];
  };
  status = record { phase = "Running"; message = ""; pod_ips = "10.244.1.5" ∷ [] };
}

abbrev to_sql : NetworkPolicyPort
to_sql = record { protocol = some "TCP"; port = some (of_int (pos 5432)); end_port = none }

abbrev from_ten : NetworkPolicyPeer
from_ten = record {
  pod_selector = none;
  namespace_selector = none;
  ip_block = some (record { cidr = "10.0.0.0/8"; except = [] });
}

abbrev sql_only : NetworkPolicy
sql_only = record {
  meta = named "default" "sql-only";
  spec = record {
    pod_selector = any_labels;
    ingress = record { from = from_ten ∷ []; ports = to_sql ∷ [] } ∷ [];
    egress = [];
    policy_types = "Ingress" ∷ [];
  };
}

abbrev read_of : Result String Types.NetworkPolicy → Types.NetworkPolicy
read_of (ok p) = p
read_of (err e) = record {
  namespace = "";
  name = "";
  pod_selector = any_labels;
  policy_types = [];
  ingress = [];
  egress = [];
}

abbrev sql_read : Types.NetworkPolicy
unfolding from_network_policy
sql_read = read_of (from_network_policy external sql_only)

sql_reads : from_network_policy external sql_only ≡ ok sql_read
unfolding from_network_policy
sql_reads = refl

from_pod-stripped_example :
    (from_pod external (stripped db) ≡ from_pod external db)
    × (strip_pod (strip_pod (pod db)) ≡ strip_pod (pod db))
from_pod-stripped_example = from_pod-stripped external db

from_network_policy_iff_example :
    Succeeds (from_network_policy external sql_only) ↔ IsReadable external sql_only
from_network_policy_iff_example = from_network_policy_iff external sql_only

from_network_policy-Reads_example : Reads external sql_only sql_read
from_network_policy-Reads_example = from_network_policy-Reads external sql_only sql_reads

-- An API server that holds the entries of each policy by its name.
abbrev Server : Type 0
Server = String → List NodeNetworkPolicyNodeStatus

abbrev update : Update Server
update p a = (none, λ name. if p.name == name then p.status.nodes else a name)

update-IsServer : IsServer update (λ a name. a name)
update-IsServer = record { updated = λ p a h name. refl }

abbrev web_status : PolicyStatus
web_status = record {
  policy = web;
  entry =
      some
        (record { name = "node-1"; mode = "Enforce"; message = ""; observed_generation = pos 3 });
}

abbrev blank : Server
blank name = []

write_status-settles_example :
    All
      (λ (s : PolicyStatus).
        IsSettled "node-1" s.entry s.policy.status.nodes
          ((write_status update "node-1" (web_status ∷ []) blank).1 s.policy.name))
      (web_status ∷ [])
unfolding write_status
write_status-settles_example =
    write_status-settles update "node-1" (λ a name. a name) update-IsServer (web_status ∷ []) blank
      (refl, tt) (refl, tt) (tt, tt) refl

abbrev cache : Cache
cache = record {
  nodes =
      ok (record { meta = named "" "node-1"; pod_cidrs = "10.0.0.0/8" ∷ []; addresses = [] } ∷ []);
  pods = ok (db ∷ []);
  namespaces = ok (record { meta = named "" "default" } ∷ []);
  network_policies = ok (sql_only ∷ []);
  node_network_policies = ok (web ∷ []);
}

abbrev rendered : Result String Rendered
unfolding render
rendered = render external "node-1" Params.default_safe_ports cache

abbrev taken : Result String Rendered → Rendered
taken (ok r) = r
taken (err e) = ("", [])

abbrev text : String
unfolding rendered
text = (taken rendered).0

abbrev sts : List PolicyStatus
unfolding rendered
sts = (taken rendered).1

renders : render external "node-1" Params.default_safe_ports cache ≡ ok (text, sts)
unfolding rendered text sts render netpol_params
renders = refl

full : text ≢ ""
unfolding rendered text render netpol_params
full = differs_text text "" refl

render-Explained_example :
    Explained external "node-1" Params.default_safe_ports cache
      (render external "node-1" Params.default_safe_ports cache)
render-Explained_example = render-Explained external "node-1" Params.default_safe_ports cache

abbrev reconciler : Ruleset
reconciler = record {
  node_name = "node-1";
  safe_ports = Params.default_safe_ports;
  applier = new_applier;
  last_apply = none;
}

-- An nft whose kernel holds the last text.
abbrev nft : String → String → Result String (Unit {0}) × String
nft applied k = (ok tt, applied)

nft-IsTransaction : IsTransaction nft (λ applied k. applied ≡ k)
nft-IsTransaction = record {
  success = λ applied k h. refl;
  failure = λ applied k h. absurd (never h);
}
  where
    never : {e : String} → ◌≡◌ {A = Result String (Unit {0})} (ok tt) (err e) → ⊥
    never h = cc

reconcile-Reconciled_example :
    Reconciled external nft update
      (λ applied k. applied ≡ k)
      nft-IsTransaction
      text
      ""
      blank
      (reconcile external nft update cache 1 2 reconciler "" blank)
unfolding is_due
reconcile-Reconciled_example =
    reconcile-Reconciled external nft update (λ applied k. applied ≡ k) nft-IsTransaction cache 1 2
      reconciler "" blank text sts renders full (inl refl)

abbrev ended : Result String ℕ × Ruleset × String × Server
unfolding reconcile
ended = reconcile external nft update cache 1 2 reconciler "" blank

reconciles :
    reconcile external nft update cache 1 2 reconciler "" blank
    ≡ (ok resync, ended.1, ended.2, ended.3)
unfolding ended reconcile render netpol_params
reconciles = refl

reconcile-IsRenewed_example :
    IsRenewed external nft update
      (λ applied k. applied ≡ k)
      nft-IsTransaction
      cache
      reconciler
      ended.2
    ⊎ IsLeft external nft update
        (λ applied k. applied ≡ k)
        nft-IsTransaction
        cache
        reconciler
        ""
        ended.2
unfolding is_due
reconcile-IsRenewed_example =
    reconcile-IsRenewed external nft update (λ applied k. applied ≡ k) nft-IsTransaction cache 1 2
      reconciler "" blank reconciles (inl refl)
