-- ===== src/Daemon.antt =====
-- cmd/cnidaria/main.go: `run`, from the flags on, over the host and the manager.
pub mod Guarding
use cnidaria_cni.Base.{
  ℕ, String, ◌<>◌, Option, none, some, List, [], ◌∷◌, if◌then◌else◌, ◌==◌, string_eq, Result, ok,
  err, join,
}
use cnidaria_cni.Nftables.Params.{default_safe_ports}
use cnidaria_cni.Nftables.Applier.{new_applier}
use cnidaria_cni.Sysctl.{Files, check, ensure_forwarding}
use cnidaria_cni.Iptables.{Runner}
use cnidaria_cni.Iptables.Detecting.{Forward, detect}
use cnidaria_cni.Controller.Pods.{Cached, strip_pod}
use cnidaria_cni.Controller.Reconcile.{Ruleset}
use cnidaria_cni.Controller.RouteReconcile.{Reconciler}

-- The flags, parsed; that of the settings' root is in what reads the files.
pub record Flags : Type 0 where
  pub node_name : String
  pub conflist_path : String
  pub mtu : ℕ
  pub network_name : String
  pub health_addr : String
  pub metrics_addr : String

-- The options of the manager: what its cache makes of a pod, and its addresses.
pub record Options : Type 0 where
  pub pod_transform : Cached → Cached
  pub metrics_addr : String
  pub health_addr : String

-- What `run` calls of the host and of the manager, on one state of both. A configuration, a manager and
-- a netlink handle that were made are in the state.
pub record Outside (W : Type 0) : Type 0 where
  pub files : Files W
  pub run : Runner W
  pub get_config : W → Option String × W
  pub add_client_scheme : W → Option String × W
  pub add_own_scheme : W → Option String × W
  pub new_manager : Options → W → Option String × W
  pub add_healthz_check : W → Option String × W
  pub add_readyz_check : W → Option String × W
  pub new_kernel : W → Option String × W
  pub close_kernel : W → W
  pub setup_routes : Reconciler → Forward → W → Option String × W
  pub setup_ruleset : Ruleset → W → Option String × W
  pub start : W → Option String × W

-- A failure with what it is about.
unfoldable pub about : {W : Type 0} → String → Option String × W → Option String × W
about what (none, w) = (none, w)
about what (some e, w) = (some (what <> e), w)

-- What follows a step, unless it failed.
unfoldable pub and_then :
    {W : Type 0} → Option String × W → (W → Option String × W) → Option String × W
and_then (none, w) next = next w
and_then (some e, w) next = (some e, w)

-- Steps one after the other, up to one that fails.
unfoldable pub in_turn : {W : Type 0} → List (W → Option String × W) → W → Option String × W
unfolding and_then
in_turn [] w = (none, w)
in_turn (f ∷ fs) w = and_then (f w) (in_turn fs)

abbrev options_of : Flags → Options
unfolding strip_pod
options_of flags = record {
  pod_transform = strip_pod;
  metrics_addr = flags.metrics_addr;
  health_addr = flags.health_addr;
}

abbrev routes_of : Flags → Reconciler
routes_of flags = record {
  node_name = flags.node_name;
  conflist = record {
    path = flags.conflist_path;
    name = flags.network_name;
    bridge = "cni0";
    mtu = flags.mtu;
  };
}

abbrev ruleset_of : Flags → Ruleset
ruleset_of flags = record {
  node_name = flags.node_name;
  safe_ports = default_safe_ports;
  applier = new_applier;
  last_apply = none;
}

module _ {W : Type 0} (outside : Outside W) (flags : Flags) where
  -- The two reconcilers, and the start.
  unfoldable pub set_up : Forward → List (W → Option String × W)
  unfolding about
  set_up forward =
      (λ w. about "routes reconciler: " (outside.setup_routes (routes_of flags) forward w))
      ∷ (λ w. about "ruleset reconciler: " (outside.setup_ruleset (ruleset_of flags) w))
      ∷ []

  unfoldable pub start_all : Forward → W → Option String × W
  unfolding set_up and_then in_turn
  start_all forward w = and_then (in_turn (set_up forward) w) outside.start

  -- The deferred close.
  close_after : Option String × W → Option String × W
  close_after (e, w) = (e, outside.close_kernel w)

  after_kernel : Forward → Option String × W → Option String × W
  unfolding close_after start_all
  after_kernel forward (some e, w) = (some e, w)
  after_kernel forward (none, w) = close_after (start_all forward w)

  after_detect : Result String Forward × W → Option String × W
  unfolding after_kernel
  after_detect (err e, w) = (some e, w)
  after_detect (ok forward, w) = after_kernel forward (outside.new_kernel w)

  -- The manager with its scheme and its probes.
  unfoldable pub make_manager : List (W → Option String × W)
  unfolding about options_of
  make_manager =
      (λ w. about "kubeconfig: " (outside.get_config w))
      ∷ (λ w. about "scheme: " (outside.add_client_scheme w))
      ∷ (λ w. about "scheme: " (outside.add_own_scheme w))
      ∷ (λ w. about "manager: " (outside.new_manager (options_of flags) w))
      ∷ outside.add_healthz_check
      ∷ outside.add_readyz_check
      ∷ []

  after_forwarding : List String × Option String × W → Option String × W
  unfolding make_manager and_then in_turn after_detect detect
  after_forwarding (changed, some e, w) = (some ("could not turn on forwarding:\n" <> e), w)
  after_forwarding (changed, none, w) =
      and_then (in_turn make_manager w) (λ w1. after_detect (detect outside.run w1))

  after_check : List String → W → Option String × W
  unfolding after_forwarding ensure_forwarding
  after_check [] w = after_forwarding (ensure_forwarding outside.files w)
  after_check (c ∷ cs) w =
      (some ("kernel settings the data plane needs are not in place:\n" <> join (c ∷ cs) "\n"), w)

  -- `run`
  unfoldable pub run_daemon : W → Option String × W
  unfolding after_check check
  run_daemon w =
      if flags.node_name == ""
      then (some "--node-name or NODE_NAME is required", w)
      else after_check (check outside.files w) w
