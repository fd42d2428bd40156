-- ===== src/Controller/Reconcile/Running.antt =====
-- The node runs what the reconciler rendered, and the statuses say so only afterwards.
use cnidaria_cni.Base.{
  ℕ, String, ◌<>◌, ◌≡◌, ◌≢◌, refl, Bool, true, false, List, ◌==◌, string_eq, arith, Bool-cases, inl,
  inr, ◌⊎◌, Result, ok, err,
}
use cnidaria_cni.Kube.{External}
use cnidaria_cni.Nftables.Applier.{Applier, forget, apply}
use cnidaria_cni.Nftables.Applier.Remembering.{IsTransaction, IsRemembered, Ended, apply-Ended}
use cnidaria_cni.Controller.{PolicyStatus}
use cnidaria_cni.Controller.Render.{Cache, render}
use cnidaria_cni.Controller.Status.{Update}
use cnidaria_cni.Controller.Reconcile.{
  Ruleset, is_due, say, after_apply, asked, after_render, reconcile,
}

module _ {K A : Type 0} (x : External) (run : String → K → Result String (Unit {0}) × K)
    (update : Update A) (Holds : String → K → Type 0) (nft : IsTransaction run Holds) where
  asked-IsRemembered :
      (r : Ruleset) (now : ℕ) (k : K)
      → (is_due r.last_apply now ≡ true) ⊎ IsRemembered run Holds r.applier k
      → IsRemembered run Holds (asked r now) k
  unfolding asked forget
  asked-IsRemembered r now k (inl due) = rw due (inl refl)
  asked-IsRemembered r now k (inr m) = elim (Bool-cases (is_due r.last_apply now)) [
    | inl due ↦ rw due (inl refl)
    | inr early ↦ rw early m
  ]

  -- A reconcile that ends: with the kernel holding the text, or in a failure with the kernel and the
  -- API server as they were.
  abbrev pub Reconciled : String → K → A → Result String ℕ × Ruleset × K × A → Type 0
  Reconciled text k a p = Holds text p.2 ⊎ ((e : String) × (p.0 ≡ err e) × (p.2 ≡ k) × (p.3 ≡ a))

  after_apply-Reconciled :
      (text : String) (sts : List PolicyStatus) (later : ℕ) (r : Ruleset) (k : K) (a : A)
      (p : Result String Bool × Applier × K)
      → Ended run Holds text k p
      → Reconciled text k a (after_apply update sts later r p a)
  unfolding after_apply say
  after_apply-Reconciled text sts later r k a (err e, applier, k') (inr holds) = inl holds
  after_apply-Reconciled text sts later r k a (err e, applier, k') (inl (f, failed, same)) =
      inr ("apply the nftables table: " <> e, refl, same, refl)
  after_apply-Reconciled text sts later r k a (ok changed, applier, k') (inr holds) = inl holds
  after_apply-Reconciled text sts later r k a (ok changed, applier, k') (inl (f, failed, same)) =
      absurd (ground arith)

  -- Over an nft whose runs are transactions, if something is rendered, and a text was last applied longer
  -- ago than the resync interval or what the applier remembers is what the kernel holds, then a reconcile
  -- leaves the kernel holding the text rendered, whatever it held before; or it fails, with the kernel and
  -- every status as they were.
  pub reconcile-Reconciled :
      (cache : Cache) (now later : ℕ) (r : Ruleset) (k : K) (a : A) (text : String)
      (sts : List PolicyStatus)
      → render x r.node_name r.safe_ports cache ≡ ok (text, sts)
      → text ≢ ""
      → (is_due r.last_apply now ≡ true) ⊎ IsRemembered run Holds r.applier k
      → Reconciled text k a (reconcile x run update cache now later r k a)
  unfolding reconcile after_render
  reconcile-Reconciled cache now later r k a text sts rendered full m =
      rw (rendered, differs text full)
        (after_apply-Reconciled text sts later r k a (apply run text (asked r now) k)
          (apply-Ended run Holds text (asked r now) k nft full (asked-IsRemembered r now k m)))
    where
      differs : (text : String) → text ≢ "" → (text == "") ≡ false
      differs text full = elim (Bool-cases (text == "")) [
        | inl empty ↦ absurd (full ((string_eq.beq_iff text "").0 empty))
        | inr other ↦ other
      ]
