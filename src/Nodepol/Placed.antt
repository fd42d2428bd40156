-- ===== src/Nodepol/Placed.antt =====
-- Where a direction's chains stand in the table that its rendering gives.
use mathlib.Core.List.{Memᴰ}
use mathlib.Core.Path.{subst}
use Prim.Native.String.{len}
use cnidaria_cni.Base.{
  ℕ, suc, String, ◌<>◌, ◌≡◌, refl, sym, ap, ◌∙◌, ◌≢◌, Bool, some, List, [], ◌∷◌, ◌++◌, ◌≤◌, arith,
  if◌then◌else◌, ◌==◌, string_eq, All, any, ok, map_err, >>=-eq-ok, map_err-eq-ok, all, Bool-cases,
  inl, inr,
}
use cnidaria_cni.Kube.{External}
use cnidaria_cni.Nftables.Ruleset.{Chain, Rule, chain_named}
use cnidaria_cni.Nftables.Identifier.{identifier}
use cnidaria_cni.Nftables.Identifier.Begins.{BeginsWith, identifier-begins}
use cnidaria_cni.Nftables.Verdicts.{
  Outcome, accepted, dropped, passed, meets, walk, HasDistinctNames, walk-accepting, or_later,
}
use cnidaria_cni.Nodepol.Types.{NodeNetworkPolicy}
use cnidaria_cni.Nodepol.Add.{
  Direction, policy_error, dispatch_jump, dispatch_chain, chain_for, effective_mode, entry_rules,
  entries, jump_from,
}
use cnidaria_cni.Nodepol.Chains.{Renders, policy_jumps, allows}
use cnidaria_cni.Nodepol.Jumping.{jump_from-member}
use cnidaria_cni.Nodepol.Outcome.{jump_step, jumps-outcome, verdict-outcome}

-- The names that a direction gives are not those of a base chain.
pub record IsApart (d : Direction) (base : String) : Type 0 where
  pub prefix : (rest : String) → (d.prefix <> rest) ≢ base
  pub dispatch : d.dispatch ≢ base

-- The chains of a direction's policies are in the table, and its base chain jumps to them.
pub record Placed (x : External) (d : Direction) (ps : List NodeNetworkPolicy) (base : Chain)
    (table : List Chain) : Type 0 where
  pub added : List Chain
  pub renders : Renders x d ps added
  pub members : All (λ c. Memᴰ c table) added
  pub dispatch : Memᴰ (dispatch_chain d (effective_mode ps) (policy_jumps ps added)) table
  pub jumping :
      chain_named d.chain table
      ≡ some (record base { rules = base.rules ++ (dispatch_jump d.dispatch ∷ []) })

-- A policy that does not only log.
abbrev pub enforces : NodeNetworkPolicy → Bool
enforces p = p.spec.mode == "Enforce"

-- The decision of the base chain, for a packet that meets the match texts that hold.
unfoldable pub decision :
    External → Direction → (String → Bool) → List NodeNetworkPolicy → Chain → Outcome
unfolding any all allows
decision x d holds ps base =
    let by_policy =
      if any (allows x d holds) ps then accepted else if all enforces ps then dropped else passed in
    if any (λ (r : Rule). meets holds r.match) base.rules then accepted else by_policy

-- One permissive policy makes the direction permissive.
effective_mode_lem :
    (ps : List NodeNetworkPolicy) → (effective_mode ps == "Enforce") ≡ all enforces ps
unfolding effective_mode all
effective_mode_lem [] = refl
effective_mode_lem (p ∷ ps) = elim (Bool-cases (p.spec.mode == "Enforce")) [
  | inl enforced ↦ rw enforced (effective_mode_lem ps)
  | inr logged ↦ rw logged refl
]

passes_on : (o : Outcome) → or_later o passed ≡ o
passes_on Outcome.accepted = refl
passes_on Outcome.dropped = refl
passes_on Outcome.passed = refl

module _ (x : External) (d : Direction) (holds : String → Bool) (ps : List NodeNetworkPolicy)
    (base : Chain) (table : List Chain) where
  dispatch-outcome :
      (depth : ℕ) (placed : Placed x d ps base table)
      → HasDistinctNames table
      → walk holds table
          (suc depth)
          (dispatch_chain d (effective_mode ps) (policy_jumps ps placed.added)).rules
        ≡ (if any (allows x d holds) ps
            then accepted
            else if all enforces ps
            then dropped
            else passed)
  unfolding dispatch_chain
  dispatch-outcome depth placed distinct =
      jumps-outcome x d holds table depth ps placed.added _ distinct placed.renders placed.members
      ∙ ap (λ o. if any (allows x d holds) ps then accepted else o)
          (verdict-outcome x d holds table depth (effective_mode ps)
            ∙ ap (λ b. if b then dropped else passed) (effective_mode_lem ps))

  pub Placed-outcome :
      (depth : ℕ)
      → Placed x d ps base table
      → HasDistinctNames table
      → All (λ (r : Rule). r.verdict ≡ "accept") base.rules
      → walk holds table (suc (suc depth)) (base.rules ++ (dispatch_jump d.dispatch ∷ []))
        ≡ decision x d holds ps base
  unfolding decision walk dispatch_chain
  Placed-outcome depth placed distinct accepting =
      walk-accepting holds table (suc (suc depth)) base.rules _ accepting
      ∙ ap (λ o. if any (λ (r : Rule). meets holds r.match) base.rules then accepted else o)
          (jump_step x d holds table (suc depth)
              (dispatch_chain d (effective_mode ps) (policy_jumps ps placed.added))
              "nodenetworkpolicy: everything the safe rules did not accept" [] distinct
              placed.dispatch
            ∙ passes_on _
            ∙ dispatch-outcome depth placed distinct)

chain_for-begins :
    (x : External) (d : Direction) (p : NodeNetworkPolicy) {c : Chain}
    → chain_for x d p ≡ ok c
    → len d.prefix ≤ 200
    → BeginsWith d.prefix c.name
unfolding chain_for
chain_for-begins x d p {c} h short =
    let (name, named, rest) =
      >>=-eq-ok (map_err (policy_error p.name) (identifier x.sha256_hex d.prefix (p.name ∷ []))) _
        h in
    let (rules, rendered, whole) =
      >>=-eq-ok (map_err (policy_error p.name) (entry_rules x d p.name (entries d p))) _ rest in
    let same : name ≡ c.name = ground arith in
    let named' = map_err-eq-ok _ (identifier x.sha256_hex d.prefix (p.name ∷ [])) named in
    subst (BeginsWith d.prefix) same
      (identifier-begins x.sha256_hex d.prefix (p.name ∷ []) named' short)

pub added-apart :
    (x : External) (d : Direction) (base : String) (ps : List NodeNetworkPolicy) (cs : List Chain)
    → Renders x d ps cs
    → len d.prefix ≤ 200
    → IsApart d base
    → All (λ (c : Chain). c.name ≢ base) cs
added-apart x d base [] [] r short apart = tt
added-apart x d base [] (c ∷ cs) r short apart = absurd r
added-apart x d base (p ∷ ps) [] r short apart = absurd r
added-apart x d base (p ∷ ps) (c ∷ cs) (made, r) short apart =
    let (rest, begins) = chain_for-begins x d p made short in
    (λ e. apart.prefix rest (sym begins ∙ e), added-apart x d base ps cs r short apart)

-- Members stay members, unless the base chain of their name is changed.
pub members_kept :
    (cs : List Chain) (name dispatch : String) (ks : List Chain) {cs' : List Chain}
    → jump_from cs name dispatch ≡ ok cs'
    → All (λ (c : Chain). c.name ≢ name) ks
    → All (λ c. Memᴰ c cs) ks
    → All (λ c. Memᴰ c cs') ks
members_kept cs name dispatch [] h others ms = tt
members_kept cs name dispatch (k ∷ ks) h (other, others) (m, ms) =
    (jump_from-member cs name dispatch h other m, members_kept cs name dispatch ks h others ms)
