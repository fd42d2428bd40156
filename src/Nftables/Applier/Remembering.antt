-- ===== src/Nftables/Applier/Remembering.antt =====
-- The applier remembers a text only while the kernel holds it.
use cnidaria_cni.Base.{
  String, ◌≡◌, refl, ◌∙◌, ◌≢◌, ◌⊎◌, inl, inr, true, false, ◌==◌, string_eq, arith, Bool-cases,
  Result, ok, err, Bool,
}
use cnidaria_cni.Nftables.Applier.{Applier, new_applier, forget, apply, after_run}

module _ {K : Type 0} (run : String → K → Result String (Unit {0}) × K)
    (Holds : String → K → Type 0) where
  -- The documented behaviour of `nft -f`: the file is one transaction, so a run that succeeds
  -- leaves the node with its text, and a run that fails leaves it as it was.
  pub record IsTransaction : Type 0 where
    pub success : (text : String) (k : K) → (run text k).0 ≡ ok tt → Holds text (run text k).1
    pub failure : (text : String) (k : K) {e : String} → (run text k).0 ≡ err e → (run text k).1 ≡ k

  -- What the daemon does with its applier, in any order.
  pub data Reach : Applier → K → Type 0 where
    started : (k : K) → Reach new_applier k
    forgot : {a : Applier} {k : K} → Reach a k → Reach (forget a) k
    applied :
        {a : Applier} {k : K} (text : String)
        → Reach a k
        → Reach (apply run text a k).1 (apply run text a k).2

  abbrev pub IsRemembered : Applier → K → Type 0
  IsRemembered a k = (a.applied ≡ "") ⊎ Holds a.applied k

  after_run-IsRemembered :
      (text : String) (a : Applier) (k : K)
      → IsTransaction
      → IsRemembered a k
      → IsRemembered (after_run run a text (run text k)).1 (after_run run a text (run text k)).2
  unfolding after_run
  after_run-IsRemembered text a k t m = by_result (run text k) refl
    where
      by_result :
          (r : Result String (Unit {0}) × K)
          → run text k ≡ r
          → IsRemembered (after_run run a text r).1 (after_run run a text r).2
      by_result (ok u, k') e = inr (rw e at (t.success text k (rw e)))
      by_result (err m', k') e =
          let same : k' ≡ k = rw e at (t.failure text k {e = m'} (rw e)) in rw same m

  pub apply-IsRemembered :
      (text : String) (a : Applier) (k : K)
      → IsTransaction
      → IsRemembered a k
      → IsRemembered (apply run text a k).1 (apply run text a k).2
  unfolding apply
  apply-IsRemembered text a k t m = elim (Bool-cases (text == a.applied)) [
    | inl same ↦ rw same m
    | inr other ↦ rw other (after_run-IsRemembered text a k t m)
  ]

  -- How an application ends: in a failure that leaves the kernel as it was, or with the kernel holding
  -- the text.
  abbrev pub Ended : String → K → Result String Bool × Applier × K → Type 0
  Ended text k (r, a, k') = ((e : String) × (r ≡ err e) × (k' ≡ k)) ⊎ Holds text k'

  pub apply-Ended :
      (text : String) (a : Applier) (k : K)
      → IsTransaction
      → text ≢ ""
      → IsRemembered a k
      → Ended text k (apply run text a k)
  unfolding apply after_run
  apply-Ended text a k t full m = elim (Bool-cases (text == a.applied)) [
    | inl same ↦
        let held = (string_eq.beq_iff text a.applied).0 same in
        rw same
          (elim m [ inl empty ↦ absurd (full (held ∙ empty)) | inr holds ↦ inr (rw held holds) ])
    | inr other ↦ rw other (by_result (run text k) refl)
  ]
    where
      by_result :
          (r : Result String (Unit {0}) × K)
          → run text k ≡ r
          → Ended text k (after_run run a text r)
      by_result (ok u, k') e = inr (rw e at (t.success text k (rw e)))
      by_result (err m', k') e = inl (m', refl, rw e at (t.failure text k {e = m'} (rw e)))

  -- Over an nft whose runs are transactions, whatever was applied and forgotten in whatever order, with successes and failures, the text
  -- that the applier remembers is empty or is the text that the kernel holds, as long as nobody
  -- else writes the table.
  pub Reach-IsRemembered : {a : Applier} {k : K} → IsTransaction → Reach a k → IsRemembered a k
  unfolding forget
  Reach-IsRemembered t (started k) = inl refl
  Reach-IsRemembered t (forgot r) = inl refl
  Reach-IsRemembered t (applied {a} {k} text r) =
      apply-IsRemembered text a k t (Reach-IsRemembered t r)

  -- After `Forget`, `Apply` of a text that is not empty runs nft whatever was applied before; if nft
  -- succeeds the text is remembered, and applying it once more does not run nft again.
  pub apply-forget :
      (text : String) (a : Applier) (k k' : K)
      → text ≢ ""
      → run text k ≡ (ok tt, k')
      → (apply run text (forget a) k ≡ (ok true, record { applied = text }, k'))
        × (apply run text (record { applied = text }) k'
            ≡ (ok false, record { applied = text }, k'))
  unfolding apply forget after_run
  apply-forget text a k k' h e =
      (ground (arith, string_eq.beq_iff text ""), ground (arith, string_eq.beq_iff text text))
