-- ===== src/Iptables/Choice.antt =====
-- The jump into cnidaria's chain is put in FORWARD once, and the two families' backends agree where
-- kube-proxy's chains say nothing else.
use cnidaria_cni.Base.{
  ℕ, zero, suc, ◌≤◌, String, ◌≡◌, ◌≢◌, ap, ◌∙◌, true, none, List, arith, inl, inr, ok, err,
  Bool-cases, some, refl, Option, Result, sym,
}
use cnidaria_cni.Netip.Prefix.{Prefix}
use cnidaria_cni.Iptables.{
  Failure, Runner, is_exit_1, restore_command, check_command, insert_command, insert_jump,
  after_check, settle, apply_family, after_restore,
}

-- What iptables documents of the three commands, for the number of jumps that FORWARD has.
pub record CountsJumps {K : Type 0} (run : Runner K) (bin : String) (jumps : K → ℕ) : Type 0 where
  pub restoring :
      (k : K) (cidrs : List Prefix) → jumps (run k (restore_command bin cidrs)).1 ≡ jumps k
  pub checking : (k : K) → jumps (run k (check_command bin)).1 ≡ jumps k
  pub present : (k : K) {out : String} → (run k (check_command bin)).0 ≡ ok out → jumps k ≢ 0
  pub absent :
      (k : K) {e : Failure}
      → (run k (check_command bin)).0 ≡ err e
      → is_exit_1 e ≡ true
      → jumps k ≡ 0
  pub inserted :
      (k : K) {out : String}
      → (run k (insert_command bin)).0 ≡ ok out
      → jumps (run k (insert_command bin)).1 ≡ suc (jumps k)
  pub refused :
      (k : K) {e : Failure}
      → (run k (insert_command bin)).0 ≡ err e
      → jumps (run k (insert_command bin)).1 ≡ jumps k

-- As many as before, or one where there was none.
abbrev pub at_least_one : ℕ → ℕ
at_least_one zero = 1
at_least_one (suc n) = suc n

-- What one call leaves, from the jumps before it.
abbrev pub LeavesOne : {K : Type 0} → (K → ℕ) → ℕ → Option Failure × K → Type 0
LeavesOne jumps before (failure, after) =
    (failure ≡ none → jumps after ≡ at_least_one before)
    × (before ≤ jumps after)
    × (jumps after ≤ at_least_one before)

at_least : (n : ℕ) → n ≤ at_least_one n
at_least zero = omega arith
at_least (suc n) = omega arith

positive : (n : ℕ) → n ≢ 0 → at_least_one n ≡ n
positive zero h = absurd (h refl)
positive (suc n) h = refl

module _ {K : Type 0} (run : Runner K) (bin : String) (jumps : K → ℕ)
    (counts : CountsJumps run bin jumps) where
  settle-leaves :
      (r : Result Failure String) (before : ℕ) (after : K)
      → before ≡ 0
      → ((out : String) → r ≡ ok out → jumps after ≡ suc before)
      → ((e : Failure) → r ≡ err e → jumps after ≡ before)
      → LeavesOne jumps before (settle run r after)
  settle-leaves (ok out) before after empty done failed =
      let grown = done out refl in
      let one : at_least_one before ≡ 1 = ap at_least_one empty in
      (λ e. omega arith, omega arith, omega arith)
  settle-leaves (err f) before after empty done failed =
      let same = failed f refl in
      (λ e. absurd (some_not_none e), omega arith, omega (arith, at_least before))
    where
      some_not_none : some f ≡ none → ⊥
      some_not_none e = cc

  after_check-leaves :
      (r : Result Failure String) (before : ℕ) (after : K)
      → jumps after ≡ before
      → ((out : String) → r ≡ ok out → before ≢ 0)
      → ((e : Failure) → r ≡ err e → is_exit_1 e ≡ true → before ≡ 0)
      → LeavesOne jumps before (after_check run bin r after)
  unfolding after_check insert_jump
  after_check-leaves (ok out) before after same present absent =
      let one = positive before (present out refl) in (λ e. omega arith, omega arith, omega arith)
  after_check-leaves (err f) before after same present absent = elim (Bool-cases (is_exit_1 f)) [
    | inl exit ↦
        let empty = absent f refl exit in
        rw exit (
          settle-leaves _ before _ empty (λ out done. counts.inserted after done ∙ ap suc same)
            (λ e failed. counts.refused after failed ∙ same))
    | inr another ↦
        rw another (λ e. absurd (not_none e), omega arith, omega (arith, at_least before))
  ]
    where
      not_none : some f ≡ none → ⊥
      not_none e = cc

  -- Over an iptables that does what it documents, a call of `Forward.apply` never adds a jump where there is one, nor
  -- takes one away, and adds at most one; a call that reports no failure leaves one where there was none.
  pub apply_family-leaves :
      (cidrs : List Prefix) (k : K) → LeavesOne jumps (jumps k) (apply_family run bin cidrs k)
  unfolding apply_family after_restore
  apply_family-leaves cidrs k =
      restored (run k (restore_command bin cidrs)).0 (jumps k) (run k (restore_command bin cidrs)).1
        (counts.restoring k cidrs)
    where
      not_none : {f : Failure} → some f ≡ none → ⊥
      not_none e = cc

      restored :
          (r : Result Failure String) (before : ℕ) (after : K)
          → jumps after ≡ before
          → LeavesOne jumps before (after_restore run bin r after)
      restored (err f) before after same =
          (λ e. absurd (not_none e), omega arith, omega (arith, at_least before))
      restored (ok out) before after same =
          after_check-leaves _ before _ (counts.checking after ∙ same)
            (λ out found e. counts.present after found (same ∙ e))
            (λ e missing exit. sym same ∙ counts.absent after missing exit)
