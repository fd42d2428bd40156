-- ===== src/Netpol/Sets.antt =====
-- internal/netpol/render.go: the builder, the usable pods, and the sets that groups of pods become.
use Prim.Native.String
use cnidaria_cni.Base.{
  String, ◌<>◌, Bool, ◌&&◌, ◌||◌, not, List, [], ◌∷◌, ◌++◌, map, if◌then◌else◌, ◌==◌, string_eq,
  contains, Result, ok, err, ◌>>=◌, sort_func, compact, select, Ordering,
}
use cnidaria_cni.Netip.Addr.{Addr, addr_eq, is4, is_valid, unmap, addr_text}
use cnidaria_cni.Kube.{External, Labels, LabelSelector}
use cnidaria_cni.Nftables.Ruleset.{Set, Chain, Ruleset}
use cnidaria_cni.Nftables.Params.{
  chain_ingress_dispatch, chain_egress_dispatch, set_isolated_ingress_v4, set_isolated_ingress_v6,
  set_isolated_egress_v4, set_isolated_egress_v6,
}
use cnidaria_cni.Nftables.Chains.{isolated_set}
use cnidaria_cni.Nftables.Validate.{is_empty}
use cnidaria_cni.Nftables.Identifier.{identifier}
use cnidaria_cni.Netpol.Types.{Pod, Namespace, policy_type_ingress, policy_type_egress}
use cnidaria_cni.Netpol.Match.{PodAddrs}

-- `dir`
pub record Dir : Type 0 where
  pub typ : String
  pub tag : String
  pub chain_prefix : String
  pub dispatch : String
  pub peer_addr : String
  pub self_addr : String
  pub isolated_v4 : String
  pub isolated_v6 : String

abbrev pub ingress : Dir
ingress = record {
  typ = policy_type_ingress;
  tag = "in";
  chain_prefix = "ingress_";
  dispatch = chain_ingress_dispatch;
  peer_addr = "saddr";
  self_addr = "daddr";
  isolated_v4 = set_isolated_ingress_v4;
  isolated_v6 = set_isolated_ingress_v6;
}

abbrev pub egress : Dir
egress = record {
  typ = policy_type_egress;
  tag = "eg";
  chain_prefix = "egress_";
  dispatch = chain_egress_dispatch;
  peer_addr = "daddr";
  self_addr = "saddr";
  isolated_v4 = set_isolated_egress_v4;
  isolated_v6 = set_isolated_egress_v6;
}

-- What the steps of `builder` read.
pub record Cluster : Type 0 where
  pub node_name : String
  pub namespaces : List (String × Namespace)
  pub pods : List Pod

-- What they write: the table, and the addresses isolated so far in each direction.
pub record State : Type 0 where
  pub table : Ruleset
  pub isolated_ingress : List Addr
  pub isolated_egress : List Addr

abbrev pub isolated : State → String → List Addr
isolated s t = if t == policy_type_egress then s.isolated_egress else s.isolated_ingress

-- `b.isolated[t][ip] = true`
unfoldable pub isolate : String → Addr → State → State
unfolding contains
isolate t ip s =
    if contains (isolated s t) ip
    then s
    else if t == policy_type_egress
    then record s { isolated_egress = ip ∷ s.isolated_egress }
    else record s { isolated_ingress = ip ∷ s.isolated_ingress }

abbrev pub append_set : Set → State → State
append_set set s = record s { table = record (s.table) { sets = s.table.sets ++ (set ∷ []) } }

abbrev pub append_chain : Chain → State → State
append_chain c s = record s { table = record (s.table) { chains = s.table.chains ++ (c ∷ []) } }

unfoldable pub full_name : String → String → String
full_name namespace name = namespace <> ("/" <> name)

abbrev pub by_pod_name : Pod → Pod → Ordering
by_pod_name a b = String.compare (full_name a.namespace a.name) (full_name b.namespace b.name)

-- A pod with the addresses that are valid, unmapped.
abbrev pub with_valid_ips : Pod → Pod
with_valid_ips pod = record pod { ips = map unmap (select is_valid pod.ips) }

abbrev pub is_usable : Pod → Bool
is_usable pod =
    not (pod.host_network || pod.terminated) && not (is_empty (map unmap (select is_valid pod.ips)))

-- `usablePods`
unfoldable pub usable_pods : List Pod → List Pod
unfolding select sort_func full_name
usable_pods pods = sort_func by_pod_name (map with_valid_ips (select is_usable pods))

-- `asSelector`
unfoldable pub as_selector : External → LabelSelector → Result String (Labels → Bool)
as_selector x s = elim (x.label_selector s) [ ok f ↦ ok f | err e ↦ err ("label selector: " <> e) ]

-- The addresses of a group of pods, in order.
unfoldable pub pod_ips : List Pod → List Addr
pod_ips [] = []
pod_ips (pod ∷ pods) = pod.ips ++ pod_ips pods

-- The helper `addSet` of `podSets`.
unfoldable pub add_set :
    External
    → String
    → List String
    → String
    → String
    → List Addr
    → State
    → Result String (String × State)
unfolding identifier sort_func compact addr_text
add_set x prefix parts type family [] s = ok ("", s)
add_set x prefix parts type family (a ∷ as') s = do
  name ← identifier x.sha256_hex prefix (parts ++ (family ∷ []))
  let set = isolated_set name type ""
  ok (
    name,
    append_set
        (record set { elements = compact (sort_func String.compare (map addr_text (a ∷ as'))) }) s,
  )

-- `podSets`
unfoldable pub pod_sets :
    External → String → List String → List Pod → State → Result String (PodAddrs × State)
unfolding add_set pod_ips select
pod_sets x prefix parts pods s = do
  (v4, s) ← add_set x prefix parts "ipv4_addr" "v4" (select is4 (pod_ips pods)) s
  (v6, s) ← add_set x prefix parts "ipv6_addr" "v6" (select (λ a. not (is4 a)) (pod_ips pods)) s
  ok (record { v4 = v4; v6 = v6 }, s)
