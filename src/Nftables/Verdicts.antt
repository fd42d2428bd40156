-- ===== src/Nftables/Verdicts.antt =====
-- What a chain's rules decide for one packet, read as the nft manual does: rules in order, the first
-- verdict that ends the evaluation counts, a jump goes through another chain and comes back if that
-- chain decides nothing. Whether the packet meets a match text is a parameter.
use mathlib.Core.List.{Memᴰ}
use mathlib.Core.Path.{subst}
use text.Mathlib.TextLemmas.{append_cancel_left}
use cnidaria_cni.Base.{
  ℕ, zero, suc, String, ◌<>◌, ◌≡◌, refl, sym, ap, ◌∙◌, Bool, true, ◌||◌, Option, none, some, List,
  [], ◌∷◌, ◌++◌, arith, if◌then◌else◌, ◌==◌, string_eq, Bool-cases, inl, inr, All, any, find_first,
  all, all→All, not, ◌&&◌, All-imp, differs_text,
}
use cnidaria_cni.Nftables.Ruleset.{Chain, Rule}

pub data Outcome : Type 0 where
  accepted dropped passed : Outcome

-- The chain that a verdict jumps to.
unfoldable pub jump_target : List Chain → String → Option Chain
unfolding find_first
jump_target chains verdict = find_first (λ c. verdict == ("jump " <> c.name)) chains

-- A text that is empty matches every packet.
abbrev pub meets : (String → Bool) → String → Bool
meets holds match = match == "" || holds match

abbrev pub or_later : Outcome → Outcome → Outcome
or_later passed later = later
or_later decided later = decided

module _ (holds : String → Bool) (chains : List Chain) where
  -- One rule whose match holds; `sub` is what the chain it jumps to decides.
  abbrev rule_outcome : String → Outcome → Outcome → Outcome
  rule_outcome verdict sub later =
      if verdict == "accept"
      then accepted
      else if verdict == "drop"
      then dropped
      else or_later sub later

  -- The rules of a chain, with at most so many jumps inside one another.
  unfoldable pub walk : ℕ → List Rule → Outcome
  walk depth [] = passed
  walk zero (r ∷ rs) =
      let later = walk zero rs in
      let here = rule_outcome r.verdict passed later in if meets holds r.match then here else later
  walk (suc depth) (r ∷ rs) =
      let later = walk (suc depth) rs in
      let sub : Outcome = elim (jump_target chains r.verdict) [
        | none ↦ passed
        | some c ↦ walk depth c.rules
      ] in
      let here = rule_outcome r.verdict sub later in if meets holds r.match then here else later

  accept_step :
      (depth : ℕ) (r : Rule) (rs : List Rule)
      → r.verdict ≡ "accept"
      → walk depth (r ∷ rs) ≡ (if meets holds r.match then accepted else walk depth rs)
  unfolding walk
  accept_step zero r rs v =
      let accepts : (r.verdict == "accept") ≡ true = (string_eq.beq_iff _ _).1 v in rw accepts
  accept_step (suc depth) r rs v =
      let accepts : (r.verdict == "accept") ≡ true = (string_eq.beq_iff _ _).1 v in rw accepts

  -- A list of accepting rules decides by whether one of them matches, and otherwise leaves it to
  -- what comes after them.
  pub walk-accepting :
      (depth : ℕ) (rs later : List Rule)
      → All (λ r. r.verdict ≡ "accept") rs
      → walk depth (rs ++ later)
        ≡ (if any (λ r. meets holds r.match) rs then accepted else walk depth later)
  unfolding any
  walk-accepting depth [] later h = refl
  walk-accepting depth (r ∷ rs) later (v, h) =
      accept_step depth r (rs ++ later) v ∙ ground (arith, walk-accepting depth rs later h)

-- No two chains of one name.
abbrev pub HasDistinctNames : List Chain → Type 0
HasDistinctNames [] = Unit
HasDistinctNames (c ∷ cs) = All (λ (d : Chain). d.name ≡ c.name → ⊥) cs × HasDistinctNames cs

-- What holds of every chain holds of a member.
pub All-mem {ℓ κ} : {A : Type ℓ} (P : A → Type κ) (cs : List A) {c : A} → All P cs → Memᴰ c cs → P c
All-mem P [] h m = elim m [ ]
All-mem P (d ∷ cs) (p, h) (Memᴰ.head e) = subst P (sym e) p
All-mem P (d ∷ cs) (p, h) (Memᴰ.tail m) = All-mem P cs h m

same_target : (n m : String) → (("jump " <> n) == ("jump " <> m)) ≡ true → n ≡ m
same_target n m h = append_cancel_left "jump " n m ((string_eq.beq_iff _ _).0 h)

-- A jump to a chain of the table goes to it.
pub jump_target-member :
    (chains : List Chain) {c : Chain}
    → HasDistinctNames chains
    → Memᴰ c chains
    → jump_target chains ("jump " <> c.name) ≡ some c
unfolding jump_target find_first
jump_target-member [] h m = elim m [ ]
jump_target-member (d ∷ cs) {c} (fresh, distinct) (Memᴰ.head e) =
    let here : (("jump " <> c.name) == ("jump " <> d.name)) ≡ true =
      (string_eq.beq_iff _ _).1 (ap (λ (k : Chain). "jump " <> k.name) e) in
    rw here (ap some (sym e))
jump_target-member (d ∷ cs) {c} (fresh, distinct) (Memᴰ.tail m) =
    elim (Bool-cases (("jump " <> c.name) == ("jump " <> d.name))) [
      | inl same ↦ absurd (All-mem _ cs fresh m (same_target c.name d.name same))
      | inr other ↦ rw other (jump_target-member cs distinct m)
    ]

-- The test for `HasDistinctNames`.
unfoldable pub distinct_names : List Chain → Bool
unfolding all
distinct_names [] = true
distinct_names (c ∷ cs) = all (λ (d : Chain). not (d.name == c.name)) cs && distinct_names cs

pub distinct_names→HasDistinctNames :
    (cs : List Chain) → distinct_names cs ≡ true → HasDistinctNames cs
unfolding distinct_names
distinct_names→HasDistinctNames [] h = tt
distinct_names→HasDistinctNames (c ∷ cs) h =
    let fresh : all (λ (d : Chain). not (d.name == c.name)) cs ≡ true = ground arith in
    (
      All-imp _ (λ d t. differs_text d.name c.name (ground arith)) cs
          (all→All (λ (d : Chain). not (d.name == c.name)) cs fresh),
      distinct_names→HasDistinctNames cs (ground arith),
    )
