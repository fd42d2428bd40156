-- ===== src/Netpol/Add.antt =====
-- internal/netpol/render.go: `Add`, over every policy, and the isolated sets. The table that an
-- error leaves behind is not kept: the caller drops it.
use Prim.Native.String
use cnidaria_cni.Base.{
  String, ◌<>◌, Bool, true, false, ◌||◌, not, Option, none, some, List, [], ◌∷◌, ◌++◌, map,
  if◌then◌else◌, Result, ok, err, ◌>>=◌, map_err, select, sort_func, insert, Ordering,
}
use cnidaria_cni.Netip.Addr.{Addr, is4, addr_compare, addr_text}
use cnidaria_cni.Kube.{External}
use cnidaria_cni.Nftables.Ruleset.{Set, Ruleset, set_named, write_set}
use cnidaria_cni.Netpol.Types.{Namespace, NetworkPolicy, Params}
use cnidaria_cni.Netpol.Sets.{
  Dir, ingress, egress, Cluster, State, isolated, full_name, usable_pods,
}
use cnidaria_cni.Netpol.Policy.{add_policy}

unfoldable pub namespaces_by_name :
    List Namespace → List (String × Namespace) → List (String × Namespace)
unfolding insert
namespaces_by_name [] m = m
namespaces_by_name (ns ∷ rest) m = namespaces_by_name rest (insert ns.name ns m)

abbrev pub by_policy_name : NetworkPolicy → NetworkPolicy → Ordering
by_policy_name a b = String.compare (full_name a.namespace a.name) (full_name b.namespace b.name)

unfoldable pub add_policies : External → Cluster → List NetworkPolicy → State → Result String State
unfolding add_policy full_name
add_policies x c [] s = ok s
add_policies x c (p ∷ ps) s = do
  s ←
      map_err (λ e. "netpol: NetworkPolicy " <> (full_name p.namespace p.name <> (": " <> e)))
        (add_policy x c p s)
  add_policies x c ps s

abbrev pub append_elements : List String → Set → Set
append_elements es set = record set { elements = set.elements ++ es }

abbrev pub is_missing : Option Set → Bool
is_missing none = true
is_missing (some s) = false

-- The texts of the isolated addresses of one family, ascending.
unfoldable pub isolated_texts : (Addr → Bool) → List Addr → List String
unfolding select sort_func addr_compare addr_text
isolated_texts family addrs = map addr_text (select family (sort_func addr_compare addrs))

-- One direction of `fillIsolated`.
unfoldable pub fill_direction : Dir → List Addr → List Set → Result String (List Set)
unfolding set_named write_set isolated_texts
fill_direction d addrs sets =
    if is_missing (set_named d.isolated_v4 sets) || is_missing (set_named d.isolated_v6 sets)
    then err ("netpol: the table has no sets " <> (d.isolated_v4 <> (" and " <> d.isolated_v6)))
    else ok (
        write_set d.isolated_v6 (append_elements (isolated_texts (λ a. not (is4 a)) addrs))
          (write_set d.isolated_v4 (append_elements (isolated_texts is4 addrs)) sets))

-- `fillIsolated`
unfoldable pub fill_isolated : State → Result String Ruleset
unfolding fill_direction
fill_isolated s = do
  sets ← fill_direction ingress (isolated s ingress.typ) s.table.sets
  sets ← fill_direction egress (isolated s egress.typ) sets
  ok (record (s.table) { sets = sets })

abbrev pub cluster : Params → Cluster
cluster p = record {
  node_name = p.node_name;
  namespaces = namespaces_by_name p.namespaces [];
  pods = usable_pods p.pods;
}

abbrev pub start : Ruleset → State
start r = record { table = r; isolated_ingress = []; isolated_egress = [] }

-- `Add`
unfoldable pub add : External → Ruleset → Params → Result String Ruleset
unfolding add_policies fill_isolated namespaces_by_name usable_pods sort_func
add x r p = do
  s ← add_policies x (cluster p) (sort_func by_policy_name p.policies) (start r)
  fill_isolated s
