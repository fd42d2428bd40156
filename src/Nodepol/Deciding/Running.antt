-- ===== src/Nodepol/Deciding/Running.antt =====
-- The two runs of `add_direction` that `Add` succeeds by, and the names of their chains.
use mathlib.Core.Path.{subst}
use Prim.Native.Char.{Char, char, code}
use text.Mathlib.TextLemmas.{cons-append, head-eq_of_cons-eq}
use cnidaria_cni.Base.{
  String, ◌<>◌, ◌≡◌, sym, ap, ◌∙◌, ◌≢◌, List, [], arith, inl, inr, ok, Result-cases, >>=-eq-ok,
}
use cnidaria_cni.Kube.{External}
use cnidaria_cni.Nftables.Ruleset.{Chain, Ruleset}
use cnidaria_cni.Nodepol.Types.{NodeNetworkPolicy}
use cnidaria_cni.Nodepol.Add.{Modes, ingress, add_direction, egress, rendered, add, Node, selects}
use cnidaria_cni.Nodepol.Placed.{IsApart}

pub apart_by_letter :
    (c : Char) (s : String) (rest : String) (k : Char) (t : String)
    → code c ≢ code k
    → (String.◌∷◌ c s <> rest) ≢ String.◌∷◌ k t
apart_by_letter c s rest k t other e =
    other (ap code (head-eq_of_cons-eq (sym (cons-append c s rest) ∙ e)))

pub input-IsApart : IsApart ingress "input"
input-IsApart = record {
  prefix =
      λ rest. apart_by_letter (char b'n' tt) "odepol_in_" rest (char b'i' tt) "nput" (ground arith);
  dispatch = λ e. cc;
}

pub output-IsApart : IsApart egress "output"
output-IsApart = record {
  prefix = λ rest.
      apart_by_letter (char b'n' tt) "odepol_out_" rest (char b'o' tt) "utput" (ground arith);
  dispatch = λ e. cc;
}

pub ingress-IsApart_output : IsApart ingress "output"
ingress-IsApart_output = record {
  prefix = λ rest.
      apart_by_letter (char b'n' tt) "odepol_in_" rest (char b'o' tt) "utput" (ground arith);
  dispatch = λ e. cc;
}

-- The two runs that a success is made of.
pub record Runs (x : External) (selected : List NodeNetworkPolicy) (cs next : List Chain)
    : Type 0 where
  pub between : List Chain
  pub noted : Modes
  pub first : add_direction x selected ingress (cs, []) ≡ ok (between, noted)
  pub modes : Modes
  pub second : add_direction x selected egress (between, noted) ≡ ok (next, modes)

pub rendered-Runs :
    (x : External) (rs : Ruleset) (node : Node) (policies : List NodeNetworkPolicy)
    {selected : List NodeNetworkPolicy} {next : Ruleset} {ms : Modes}
    → selects x node policies ≡ ok selected
    → rendered x rs node policies ≡ ok (next, ms)
    → Runs x selected rs.chains next.chains
unfolding rendered
rendered-Runs x rs node policies {selected} {next} {ms} chosen h =
    let (s, selecting, rest) = >>=-eq-ok (selects x node policies) _ h in
    let same : s ≡ selected = ground arith in
    let ((c1, m1), one, rest1) = >>=-eq-ok (add_direction x s ingress (rs.chains, [])) _ rest in
    let ((c2, m2), two, whole) = >>=-eq-ok (add_direction x s egress (c1, m1)) _ rest1 in
    let chains : c2 ≡ next.chains = ground arith in
    let runs : Runs x s rs.chains c2 = record {
      between = c1;
      noted = m1;
      first = one;
      modes = m2;
      second = two;
    } in
    subst (λ t. Runs x t rs.chains next.chains) same (subst (Runs x s rs.chains) chains runs)

pub add-rendered :
    (x : External) (rs : Ruleset) (node : Node) (policies : List NodeNetworkPolicy) {next : Ruleset}
    {ms : Modes}
    → add x rs node policies ≡ (ok ms, next)
    → rendered x rs node policies ≡ ok (next, ms)
unfolding add
add-rendered x rs node policies {next} {ms} h = elim (Result-cases (rendered x rs node policies)) [
  | inl ((n, m), done) ↦ ground arith
  | inr (e, failed) ↦ absurd (ground arith)
]
