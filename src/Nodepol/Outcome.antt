-- ===== src/Nodepol/Outcome.antt =====
-- What the base chain of a direction decides once the selected policies are in the table.
use Prim.Native.Char.{Char, char, code}
use mathlib.Core.List.{Memᴰ}
use text.Mathlib.TextLemmas.{cons-append, head-eq_of_cons-eq}
use cnidaria_cni.Base.{
  ℕ, suc, String, ◌<>◌, ◌≡◌, refl, sym, ap, ◌∙◌, ◌≢◌, Bool, true, false, ◌||◌, none, List, [], ◌∷◌,
  ◌++◌, append-nil, arith, if◌then◌else◌, ◌==◌, string_eq, Bool-cases, inl, inr, All, any,
  find_first, quote, ok, text_differs,
}
use cnidaria_cni.Kube.{External}
use cnidaria_cni.Nftables.Ruleset.{Chain, Rule}
use cnidaria_cni.Nftables.Verdicts.{
  Outcome, accepted, dropped, passed, meets, walk, jump_target, HasDistinctNames,
  jump_target-member, walk-accepting, or_later,
}
use cnidaria_cni.Nodepol.Types.{NodeNetworkPolicy}
use cnidaria_cni.Nodepol.Match.{comment}
use cnidaria_cni.Nodepol.Add.{Direction, jump, verdict, chain_for}
use cnidaria_cni.Nodepol.Chains.{Renders, policy_jumps, allows, chain_for-Accepts}

abbrev letter_j : Char
letter_j = char b'j' tt

jump-cons : (n : String) → "jump " <> n ≡ String.◌∷◌ letter_j ("ump " <> n)
jump-cons n = cons-append letter_j "ump " n

-- A text that begins with another character is no jump.
pub not_jump :
    (n : String) (c : Char) (s : String) → code c ≢ b'j' → ("jump " <> n) ≢ String.◌∷◌ c s
not_jump n c s other e = other (sym (ap code (head-eq_of_cons-eq (sym (jump-cons n) ∙ e))))

jump_not_accept : (n : String) → (("jump " <> n) == "accept") ≡ false
jump_not_accept n = text_differs _ _ (not_jump n (char b'a' tt) "ccept" (ground arith))

jump_not_drop : (n : String) → (("jump " <> n) == "drop") ≡ false
jump_not_drop n = text_differs _ _ (not_jump n (char b'd' tt) "rop" (ground arith))

-- No chain is the target of such a text.
no_target :
    (chains : List Chain) (c : Char) (s : String)
    → code c ≢ b'j'
    → jump_target chains (String.◌∷◌ c s) ≡ none
unfolding jump_target find_first
no_target [] c s h = refl
no_target (k ∷ ks) c s h =
    rw (text_differs (String.◌∷◌ c s) ("jump " <> k.name) (λ e. not_jump k.name c s h (sym e)))
      (no_target ks c s h)

idle : (b : Bool) → (if b then passed else passed) ≡ passed
idle true = refl
idle false = refl

merge :
    (a b : Bool) (later : Outcome)
    → or_later (if a then accepted else passed) (if b then accepted else later)
      ≡ (if a || b then accepted else later)
merge true b later = refl
merge false b later = refl

module _ (x : External) (d : Direction) (holds : String → Bool) (table : List Chain) where
  -- A jump decides what the chain that it goes to decides, and else leaves it to the later rules.
  pub jump_step :
      (depth : ℕ) (c : Chain) (said : String) (later : List Rule)
      → HasDistinctNames table
      → Memᴰ c table
      → walk holds table (suc depth) (jump c.name said ∷ later)
        ≡ or_later (walk holds table depth c.rules) (walk holds table (suc depth) later)
  unfolding walk
  jump_step depth c said later distinct m =
      rw (jump_not_accept c.name, jump_not_drop c.name, jump_target-member table distinct m) refl

  chain-outcome :
      (depth : ℕ) (p : NodeNetworkPolicy) (c : Chain)
      → chain_for x d p ≡ ok c
      → walk holds table depth c.rules ≡ (if allows x d holds p then accepted else passed)
  unfolding walk
  chain-outcome depth p c made =
      let a = chain_for-Accepts x d holds p made in
      sym (ap (walk holds table depth) (append-nil c.rules))
      ∙ walk-accepting holds table depth c.rules [] a.accepting
      ∙ ap (λ b. if b then accepted else passed) a.meaning

  -- The jumps to the policies' chains accept what one of the policies allows.
  pub jumps-outcome :
      (depth : ℕ) (ps : List NodeNetworkPolicy) (cs : List Chain) (later : List Rule)
      → HasDistinctNames table
      → Renders x d ps cs
      → All (λ c. Memᴰ c table) cs
      → walk holds table (suc depth) (policy_jumps ps cs ++ later)
        ≡ (if any (allows x d holds) ps then accepted else walk holds table (suc depth) later)
  unfolding any
  jumps-outcome depth [] [] later distinct r m = refl
  jumps-outcome depth (p ∷ ps) (c ∷ cs) later distinct (made, r) (m, ms) =
      jump_step depth c (comment p.name) (policy_jumps ps cs ++ later) distinct m
      ∙ rw (chain-outcome depth p c made, jumps-outcome depth ps cs later distinct r ms)
          (merge (allows x d holds p) (any (allows x d holds) ps)
            (walk holds table (suc depth) later))
  jumps-outcome depth [] (c ∷ cs) later distinct r m = absurd r
  jumps-outcome depth (p ∷ ps) [] later distinct r m = absurd r

  pub verdict-outcome :
      (depth : ℕ) (mode : String)
      → walk holds table (suc depth) (verdict mode)
        ≡ (if mode == "Enforce" then dropped else passed)
  unfolding walk verdict quote
  verdict-outcome depth mode = elim (Bool-cases (mode == "Enforce")) [
    | inl enforced ↦ rw enforced refl
    | inr permissive ↦
        let log : jump_target table ("log prefix " <> quote "cnidaria-nodenetworkpolicy ") ≡ none =
          no_target table (char b'l' tt) ("og prefix " <> quote "cnidaria-nodenetworkpolicy ")
            (ground arith) in
        let continue : jump_target table "continue" ≡ none =
          no_target table (char b'c' tt) "ontinue" (ground arith) in
        rw permissive (rw (log, continue) (idle (meets holds "limit rate 10/second")))
  ]
