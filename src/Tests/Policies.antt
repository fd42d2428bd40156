-- ===== src/Tests/Policies.antt =====
-- The policies' renderers, alone and one after the other.
use cnidaria_cni.Base.{
  ◌≡◌, refl, String, true, [], ◌∷◌, any, Result, ok, err, inl, All, contains, some,
}
use cnidaria_cni.Nftables.Ruleset.{Ruleset, chain_named, Rule}
use cnidaria_cni.Nftables.Chains.{dispatch_drop, input_chain, output_chain}
use cnidaria_cni.Nftables.Render.{skeleton, render}
use cnidaria_cni.Nftables.Verdicts.{
  dropped, distinct_names, distinct_names→HasDistinctNames, accepted,
}
use cnidaria_cni.Netpol.Add as netpol
use cnidaria_cni.Netpol.Sets
use cnidaria_cni.Netpol.Isolating.{isolates, add_policies-isolates}
use cnidaria_cni.Netpol.Filling.Direction.{Holds}
use cnidaria_cni.Netpol.Filling.{add-isolates_ingress, add-isolates_egress}
use cnidaria_cni.Netpol.Ending.{EndsWith}
use cnidaria_cni.Netpol.Standing.Every.{Stands, add-Stands}
use cnidaria_cni.Nodepol.Add as nodepol
use cnidaria_cni.Nodepol.Add.{Modes, selects}
use cnidaria_cni.Nodepol.Deciding.{Decides, expected, add-ingress-Decides, add-egress-Decides}
use cnidaria_cni.Nodepol.Match.{matches}
use cnidaria_cni.Pipeline.{table-EndsWith, table-Decides, input-accepts, output-accepts}
use cnidaria_cni.Tests.Data.{
  external, web, node, table_params, cluster_params, stray, pod_addr, to_web, deny,
}
use cnidaria_cni.Netip.Addr.{addr_eq}

-- The table after each step.
abbrev first_table : Ruleset
unfolding skeleton
first_table = skeleton table_params

abbrev taken : Result String Ruleset → Ruleset
taken (ok r) = r
taken (err e) = first_table

abbrev second_table : Ruleset
unfolding netpol.add
second_table = taken (netpol.add external first_table cluster_params)

abbrev third_table : Ruleset
unfolding nodepol.add
third_table = (nodepol.add external second_table node (web ∷ [])).1

abbrev modes : Modes
modes = ("web", "Enforce") ∷ []

selects-web : selects external node (web ∷ []) ≡ ok (web ∷ [])
unfolding selects
selects-web = refl

renders : render table_params ≡ ok first_table
unfolding render
renders = refl

second_added : netpol.add external first_table cluster_params ≡ ok second_table
unfolding netpol.add first_table
second_added = refl

third_added : nodepol.add external second_table node (web ∷ []) ≡ (ok modes, third_table)
unfolding nodepol.add second_table first_table
third_added = refl

third_distinct : distinct_names third_table.chains ≡ true
unfolding distinct_names third_table second_table first_table
third_distinct = refl

first_input : chain_named "input" first_table.chains ≡ some (input_chain table_params.safe_ports)
unfolding chain_named first_table
first_input = refl

found_input : chain_named "input" second_table.chains ≡ some (input_chain table_params.safe_ports)
unfolding chain_named second_table first_table
found_input = refl

found_output :
    chain_named "output" second_table.chains ≡ some (output_chain table_params.safe_ports)
unfolding chain_named second_table first_table
found_output = refl

accepting_input :
    All (λ (r : Rule). r.verdict ≡ "accept") (input_chain table_params.safe_ports).rules
accepting_input = input-accepts table_params.safe_ports

accepting_output :
    All (λ (r : Rule). r.verdict ≡ "accept") (output_chain table_params.safe_ports).rules
accepting_output = output-accepts table_params.safe_ports

abbrev taken_state : Result String Sets.State → Sets.State
taken_state (ok s) = s
taken_state (err e) = netpol.start first_table

abbrev policies_state : Sets.State
unfolding netpol.add_policies
policies_state = taken_state (
    netpol.add_policies external (netpol.cluster cluster_params) (deny ∷ [])
      (netpol.start first_table))

policies_added :
    netpol.add_policies external
      (netpol.cluster cluster_params)
      (deny ∷ [])
      (netpol.start first_table)
    ≡ ok policies_state
unfolding netpol.add_policies policies_state first_table Sets.usable_pods
policies_added = refl

table-Decides_example :
    Decides stray third_table.chains "input" 2 dropped
    × Decides stray third_table.chains "output" 2 dropped
unfolding expected nodepol.closed_by input_chain output_chain nodepol.entries matches
table-Decides_example =
    table-Decides external table_params cluster_params node (web ∷ []) (web ∷ []) stray 0 renders
      second_added selects-web third_added
      (distinct_names→HasDistinctNames third_table.chains third_distinct)

table-EndsWith_example :
    EndsWith dispatch_drop "ingress_dispatch" second_table.chains
    × EndsWith dispatch_drop "egress_dispatch" second_table.chains
table-EndsWith_example = table-EndsWith external table_params cluster_params renders second_added

add-Stands_example :
    All
      (λ policy. Stands external (netpol.cluster cluster_params) policy second_table.chains)
      cluster_params.policies
add-Stands_example = add-Stands external first_table cluster_params second_added

add-isolates_ingress_example : Holds "isolated_ingress_v4" pod_addr second_table.sets
unfolding isolates any Sets.usable_pods
add-isolates_ingress_example =
    add-isolates_ingress external first_table cluster_params pod_addr second_added refl

add-isolates_egress_example : Holds "isolated_egress_v4" pod_addr second_table.sets
unfolding isolates any Sets.usable_pods
add-isolates_egress_example =
    add-isolates_egress external first_table cluster_params pod_addr second_added refl

add-ingress-Decides_example : Decides to_web third_table.chains "input" 2 accepted
unfolding expected nodepol.closed_by input_chain nodepol.entries matches
add-ingress-Decides_example =
    add-ingress-Decides external second_table node (web ∷ []) (web ∷ [])
      (input_chain table_params.safe_ports) to_web 0 selects-web third_added found_input
      accepting_input (distinct_names→HasDistinctNames third_table.chains third_distinct)

add-egress-Decides_example : Decides to_web third_table.chains "output" 2 dropped
unfolding expected nodepol.closed_by output_chain nodepol.entries matches
add-egress-Decides_example =
    add-egress-Decides external second_table node (web ∷ []) (web ∷ [])
      (output_chain table_params.safe_ports) to_web 0 selects-web third_added found_output
      accepting_output (distinct_names→HasDistinctNames third_table.chains third_distinct)

add_policies-isolates_example :
    contains ⦃e = addr_eq⦄ (Sets.isolated policies_state "Ingress") pod_addr ≡ true
unfolding isolates any Sets.usable_pods
add_policies-isolates_example =
    add_policies-isolates external (netpol.cluster cluster_params) "Ingress" pod_addr (deny ∷ [])
      (netpol.start first_table) (inl refl) policies_added
