-- ===== src/Pipeline.antt =====
-- The table as the reconciler of internal/controller/ruleset.go makes it: `nftables.Render`, then
-- `netpol.Add`, then `nodepol.Add`.
use mathlib.Core.Path.{subst}
use cnidaria_cni.Base.{
  ℕ, suc, String, ◌≡◌, refl, sym, Bool, true, some, List, [], arith, All, differs_text, ok, map_err,
  >>=-eq-ok, ◌<>◌, all, all→All, All-imp, ◌==◌, string_eq,
}
use cnidaria_cni.Kube.{External}
use cnidaria_cni.Nftables.Ruleset.{Rule, Ruleset, chain_named}
use cnidaria_cni.Nftables.Params
use cnidaria_cni.Nftables.Params.{SafePorts}
use cnidaria_cni.Nftables.Chains.{input_chain, output_chain, dispatch_drop, dispatch_chain}
use cnidaria_cni.Nftables.Validate.{validate}
use cnidaria_cni.Nftables.Render.{skeleton, render}
use cnidaria_cni.Nftables.Verdicts.{HasDistinctNames}
use cnidaria_cni.Netpol.Types
use cnidaria_cni.Netpol.Add as netpol
use cnidaria_cni.Netpol.Ending.{EndsWith, add-EndsWith, add-found}
use cnidaria_cni.Nodepol.Types.{NodeNetworkPolicy}
use cnidaria_cni.Nodepol.Add.{Node, Modes, ingress, egress, selects}
use cnidaria_cni.Nodepol.Add as nodepol
use cnidaria_cni.Nodepol.Deciding.{Decides, expected, add-ingress-Decides, add-egress-Decides}

render-skeleton : (p : Params.Params) {r : Ruleset} → render p ≡ ok r → r ≡ skeleton p
unfolding render
render-skeleton p {r} h =
    let (u, valid, whole) = >>=-eq-ok (map_err (λ e. "nftables: " <> e) (validate p)) _ h in
    ground arith

skeleton-input :
    (p : Params.Params) → chain_named "input" (skeleton p).chains ≡ some (input_chain p.safe_ports)
unfolding skeleton chain_named
skeleton-input p = refl

skeleton-output :
    (p : Params.Params)
    → chain_named "output" (skeleton p).chains ≡ some (output_chain p.safe_ports)
unfolding skeleton chain_named
skeleton-output p = refl

accepts_of_test :
    (rs : List Rule)
    → all (λ r. r.verdict == "accept") rs ≡ true
    → All (λ (r : Rule). r.verdict ≡ "accept") rs
accepts_of_test rs h =
    All-imp _ (λ r. (string_eq.beq_iff r.verdict "accept").0) rs
      (all→All (λ r. r.verdict == "accept") rs h)

pub input-accepts :
    (ports : SafePorts) → All (λ (r : Rule). r.verdict ≡ "accept") (input_chain ports).rules
unfolding input_chain all
input-accepts ports = accepts_of_test (input_chain ports).rules refl

pub output-accepts :
    (ports : SafePorts) → All (λ (r : Rule). r.verdict ≡ "accept") (output_chain ports).rules
unfolding output_chain all
output-accepts ports = accepts_of_test (output_chain ports).rules refl

skeleton-ends :
    (p : Params.Params)
    → EndsWith dispatch_drop "ingress_dispatch" (skeleton p).chains
      × EndsWith dispatch_drop "egress_dispatch" (skeleton p).chains
unfolding skeleton dispatch_chain chain_named
skeleton-ends p = (
  record { chain = dispatch_chain "ingress_dispatch"; found = refl; init = []; ends = refl },
  record { chain = dispatch_chain "egress_dispatch"; found = refl; init = []; ends = refl },
)

module _ (x : External) (p : Params.Params) (np : Types.Params) {r0 r1 : Ruleset} where
  -- Once the NetworkPolicies are rendered into a rendered table, the dispatch chain of each direction
  -- still ends in the rule that drops what no policy accepted.
  pub table-EndsWith :
      render p ≡ ok r0
      → netpol.add x r0 np ≡ ok r1
      → EndsWith dispatch_drop "ingress_dispatch" r1.chains
        × EndsWith dispatch_drop "egress_dispatch" r1.chains
  table-EndsWith h0 h1 =
      let same : skeleton p ≡ r0 = sym (render-skeleton p h0) in
      let (inward, outward) = skeleton-ends p in
      (
        add-EndsWith x r0 np dispatch_drop "ingress_dispatch" h1 (
            subst (λ (r : Ruleset). EndsWith dispatch_drop "ingress_dispatch" r.chains) same
              inward),
        add-EndsWith x r0 np dispatch_drop "egress_dispatch" h1 (
            subst (λ (r : Ruleset). EndsWith dispatch_drop "egress_dispatch" r.chains) same
              outward),
      )

  module _ (node : Node) (policies selected : List NodeNetworkPolicy) (holds : String → Bool)
      (depth : ℕ) {ms : Modes} {next : Ruleset} where
    -- If the three renderers succeed one after the other, and the chains of the table they make have different names, then
    -- its input chain and its output chain decide as the safe rules say first, and then, where a selected policy closes
    -- the direction, as the policies and the mode say.
    pub table-Decides :
        render p ≡ ok r0
        → netpol.add x r0 np ≡ ok r1
        → selects x node policies ≡ ok selected
        → nodepol.add x r1 node policies ≡ (ok ms, next)
        → HasDistinctNames next.chains
        → Decides holds next.chains "input"
            (suc (suc depth))
            (expected x ingress holds selected (input_chain p.safe_ports))
          × Decides holds next.chains "output"
              (suc (suc depth))
              (expected x egress holds selected (output_chain p.safe_ports))
    table-Decides h0 h1 chosen h2 distinct =
        let same : skeleton p ≡ r0 = sym (render-skeleton p h0) in
        let in0 =
          subst (λ (r : Ruleset). chain_named "input" r.chains ≡ some (input_chain p.safe_ports))
            same (skeleton-input p) in
        let out0 =
          subst (λ (r : Ruleset). chain_named "output" r.chains ≡ some (output_chain p.safe_ports))
            same (skeleton-output p) in
        let in1 =
          add-found x r0 np "input" (input_chain p.safe_ports) h1
            (differs_text "input" "ingress_dispatch" refl)
            (differs_text "input" "egress_dispatch" refl) in0 in
        let out1 =
          add-found x r0 np "output" (output_chain p.safe_ports) h1
            (differs_text "output" "ingress_dispatch" refl)
            (differs_text "output" "egress_dispatch" refl) out0 in
        (
          add-ingress-Decides x r1 node policies selected (input_chain p.safe_ports) holds depth
              chosen h2 in1 (input-accepts p.safe_ports) distinct,
          add-egress-Decides x r1 node policies selected (output_chain p.safe_ports) holds depth
              chosen h2 out1 (output-accepts p.safe_ports) distinct,
        )
