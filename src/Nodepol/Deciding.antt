-- ===== src/Nodepol/Deciding.antt =====
-- What `Add` makes the base chains decide, for the directions it renders.
pub mod Running
use mathlib.Core.Path.{subst}
use Prim.Native.String.{len}
use cnidaria_cni.Base.{
  ℕ, suc, String, ◌<>◌, ◌≡◌, refl, sym, ap, ◌∙◌, ◌≢◌, Bool, true, false, some, List, [], ◌++◌, ◌≤◌,
  append-nil, arith, if◌then◌else◌, Bool-cases, inl, inr, All, any, ok,
}
use cnidaria_cni.Kube.{External}
use cnidaria_cni.Nftables.Ruleset.{Chain, Rule, chain_named, Ruleset}
use cnidaria_cni.Nftables.Validate.{is_empty}
use cnidaria_cni.Nftables.Verdicts.{
  Outcome, accepted, passed, meets, walk, HasDistinctNames, walk-accepting,
}
use cnidaria_cni.Nodepol.Types.{NodeNetworkPolicy}
use cnidaria_cni.Nodepol.Add.{
  Direction, Modes, ingress, closed_by, add_direction, egress, add, Node, selects,
}
use cnidaria_cni.Nodepol.Jumping.{jump_from-other}
use cnidaria_cni.Nodepol.Placed.{IsApart, Placed, decision, Placed-outcome}
use cnidaria_cni.Nodepol.Placing.{add_direction-Ran, Ran-Placed, Placed-kept}
use cnidaria_cni.Nftables.Ruleset.Finding.{chain_named-append}
use cnidaria_cni.Nodepol.Deciding.Running.{
  input-IsApart, output-IsApart, ingress-IsApart_output, rendered-Runs, add-rendered,
}

-- A direction that no policy closes is left as it was; one that a policy closes has its chains.
data Standing (x : External) (d : Direction) (selected : List NodeNetworkPolicy) (base : Chain)
    (table : List Chain) : Type 0 where
  untouched :
      is_empty (closed_by d selected) ≡ true
      → chain_named d.chain table ≡ some base
      → Standing x d selected base table
  placed :
      is_empty (closed_by d selected) ≡ false
      → Placed x d (closed_by d selected) base table
      → Standing x d selected base table

-- What the base chain decides: by its own rules first, then, if a policy closes the direction, by
-- the policies, and last by the mode.
unfoldable pub expected :
    External → Direction → (String → Bool) → List NodeNetworkPolicy → Chain → Outcome
unfolding decision any
expected x d holds selected base =
    let own = any (λ (r : Rule). meets holds r.match) base.rules in
    if is_empty (closed_by d selected)
    then if own then accepted else passed
    else decision x d holds (closed_by d selected) base

module _ (x : External) (selected : List NodeNetworkPolicy) where
  add_direction-idle :
      (d : Direction) (cs : List Chain) (ms : Modes)
      → is_empty (closed_by d selected) ≡ true
      → add_direction x selected d (cs, ms) ≡ ok (cs, ms)
  unfolding add_direction
  add_direction-idle d cs ms h = rw h refl

  -- The chain of another name is found as before.
  chain-kept :
      (e : Direction) (name : String) (base : Chain) (cs : List Chain) (ms : Modes)
      {cs' : List Chain} {ms' : Modes}
      → name ≢ e.chain
      → chain_named name cs ≡ some base
      → add_direction x selected e (cs, ms) ≡ ok (cs', ms')
      → chain_named name cs' ≡ some base
  chain-kept e name base cs ms {cs'} {ms'} other found h =
      elim (Bool-cases (is_empty (closed_by e selected))) [
        | inl idle ↦
            let same : cs ≡ cs' = ground (arith, add_direction-idle e cs ms idle) in
            subst (λ k. chain_named name k ≡ some base) same found
        | inr closing ↦
            let ran = add_direction-Ran x selected e cs ms closing h in
            jump_from-other _ e.chain e.dispatch name ran.jumped other
            ∙ chain_named-append (cs ++ ran.added) _ name
                (chain_named-append cs ran.added name found)
      ]

  add_direction-Standing :
      (d : Direction) (base : Chain) (cs : List Chain) (ms : Modes) {cs' : List Chain} {ms' : Modes}
      → len d.prefix ≤ 200
      → IsApart d d.chain
      → chain_named d.chain cs ≡ some base
      → add_direction x selected d (cs, ms) ≡ ok (cs', ms')
      → Standing x d selected base cs'
  add_direction-Standing d base cs ms {cs'} {ms'} short apart found h =
      elim (Bool-cases (is_empty (closed_by d selected))) [
        | inl idle ↦
            let same : cs ≡ cs' = ground (arith, add_direction-idle d cs ms idle) in
            untouched idle (subst (λ k. chain_named d.chain k ≡ some base) same found)
        | inr closing ↦ placed closing (
            Ran-Placed x d (closed_by d selected) base cs short apart found
              (add_direction-Ran x selected d cs ms closing h))
      ]

  Standing-kept :
      (d e : Direction) (base : Chain) (cs : List Chain) (ms : Modes) {cs' : List Chain}
      {ms' : Modes}
      → len d.prefix ≤ 200
      → IsApart d e.chain
      → d.chain ≢ e.chain
      → add_direction x selected e (cs, ms) ≡ ok (cs', ms')
      → Standing x d selected base cs
      → Standing x d selected base cs'
  Standing-kept d e base cs ms short apart other h (untouched idle found) =
      untouched idle (chain-kept e d.chain base cs ms other found h)
  Standing-kept d e base cs ms {cs'} {ms'} short apart other h (placed closing p) =
      elim (Bool-cases (is_empty (closed_by e selected))) [
        | inl idle ↦
            let same : cs ≡ cs' = ground (arith, add_direction-idle e cs ms idle) in
            placed closing (subst (Placed x d (closed_by d selected) base) same p)
        | inr busy ↦ placed closing (
            Placed-kept x d (closed_by d selected) base cs e (closed_by e selected) short apart
              other p (add_direction-Ran x selected e cs ms busy h))
      ]

-- A chain of the table, and what its rules decide.
abbrev pub Decides : (String → Bool) → List Chain → String → ℕ → Outcome → Type 0
Decides holds table name depth outcome =
    (c : Chain) × (chain_named name table ≡ some c) × (walk holds table depth c.rules ≡ outcome)

Standing-Decides :
    (x : External) (d : Direction) (selected : List NodeNetworkPolicy) (base : Chain)
    (table : List Chain) (holds : String → Bool) (depth : ℕ)
    → HasDistinctNames table
    → All (λ (r : Rule). r.verdict ≡ "accept") base.rules
    → Standing x d selected base table
    → Decides holds table d.chain (suc (suc depth)) (expected x d holds selected base)
unfolding expected walk
Standing-Decides x d selected base table holds depth distinct accepting (untouched idle found) = (
  base,
  found,
  sym (ap (walk holds table (suc (suc depth))) (append-nil base.rules))
      ∙ walk-accepting holds table (suc (suc depth)) base.rules [] accepting
      ∙ rw idle refl,
)
Standing-Decides x d selected base table holds depth distinct accepting (placed closing p) = (
  _,
  p.jumping,
  Placed-outcome x d holds (closed_by d selected) base table depth p distinct accepting
      ∙ rw closing refl,
)

module _ (x : External) (rs : Ruleset) (node : Node) (policies selected : List NodeNetworkPolicy)
    (base : Chain) (holds : String → Bool) (depth : ℕ) {next : Ruleset} {ms : Modes} where
  -- When `add` succeeds on a table whose input chain has accepting rules, and the new table's chains have different names, the
  -- input chain of the new table accepts what those rules accept. What they leave passes if no selected policy closes
  -- ingress; else what an entry of a closing policy allows is accepted, and the rest is dropped if
  -- every closing policy enforces and passes if one is permissive.
  pub add-ingress-Decides :
      selects x node policies ≡ ok selected
      → add x rs node policies ≡ (ok ms, next)
      → chain_named "input" rs.chains ≡ some base
      → All (λ (r : Rule). r.verdict ≡ "accept") base.rules
      → HasDistinctNames next.chains
      → Decides holds next.chains "input" (suc (suc depth)) (expected x ingress holds selected base)
  add-ingress-Decides chosen h found accepting distinct =
      let runs = rendered-Runs x rs node policies chosen (add-rendered x rs node policies h) in
      let stands =
        add_direction-Standing x selected ingress base rs.chains [] (ground arith) input-IsApart
          found runs.first in
      Standing-Decides x ingress selected base next.chains holds depth distinct accepting (
        Standing-kept x selected ingress egress base runs.between runs.noted (ground arith)
          ingress-IsApart_output (λ e. cc) runs.second stands)

  -- When `add` succeeds on a table whose output chain has accepting rules, and the new table's chains have different names, the
  -- output chain of the new table accepts what those rules accept. What they leave passes if no selected policy closes
  -- egress; else what an entry of a closing policy allows is accepted, and the rest is dropped if
  -- every closing policy enforces and passes if one is permissive.
  pub add-egress-Decides :
      selects x node policies ≡ ok selected
      → add x rs node policies ≡ (ok ms, next)
      → chain_named "output" rs.chains ≡ some base
      → All (λ (r : Rule). r.verdict ≡ "accept") base.rules
      → HasDistinctNames next.chains
      → Decides holds next.chains "output" (suc (suc depth)) (expected x egress holds selected base)
  add-egress-Decides chosen h found accepting distinct =
      let runs = rendered-Runs x rs node policies chosen (add-rendered x rs node policies h) in
      let kept =
        chain-kept x selected ingress "output" base rs.chains [] (λ e. cc) found runs.first in
      Standing-Decides x egress selected base next.chains holds depth distinct accepting (
        add_direction-Standing x selected egress base runs.between runs.noted (ground arith)
          output-IsApart kept runs.second)
