-- ===== src/Controller/Reconcile/Renewing.antt =====
-- What the kernel holds after a reconcile of the ruleset controller that ends without an error.
use mathlib.Core.Path.{subst}
use cnidaria_cni.Base.{
  ℕ, String, ◌≡◌, refl, sym, ap, ◌∙◌, true, List, string_eq, arith, inl, inr, ◌⊎◌, Result,
  Result-cases, ok, err,
}
use cnidaria_cni.Kube.{External}
use cnidaria_cni.Nftables.Applier.Remembering.{IsTransaction, IsRemembered}
use cnidaria_cni.Controller.{PolicyStatus}
use cnidaria_cni.Controller.Render.{Cache, render}
use cnidaria_cni.Controller.Render.Explained.{ComesFrom, IsHeld, Explained}
use cnidaria_cni.Controller.Render.Explaining.{render-Explained}
use cnidaria_cni.Controller.Status.{Update}
use cnidaria_cni.Controller.Reconcile.{Ruleset, is_due, say, after_render, reconcile}
use cnidaria_cni.Controller.Reconcile.Running.{reconcile-Reconciled}

module _ {K A : Type 0} (x : External) (run : String → K → Result String (Unit {0}) × K)
    (update : Update A) (Holds : String → K → Type 0) (nft : IsTransaction run Holds) where
  -- The kernel holds the text of a table of everything that the cache lists.
  pub record IsRenewed (cache : Cache) (r : Ruleset) (k : K) : Type 0 where
    pub text : String
    pub statuses : List PolicyStatus
    pub from : ComesFrom x r.node_name r.safe_ports cache text statuses
    pub holds : Holds text k

  -- Nothing is rendered, for one of the reasons for that, and the kernel is as it was.
  pub record IsLeft (cache : Cache) (r : Ruleset) (before after : K) : Type 0 where
    pub statuses : List PolicyStatus
    pub reason : IsHeld x r.node_name r.safe_ports cache statuses
    pub same : after ≡ before

  explained :
      (cache : Cache) (r : Ruleset) {text : String} {sts : List PolicyStatus}
      → render x r.node_name r.safe_ports cache ≡ ok (text, sts)
      → ComesFrom x r.node_name r.safe_ports cache text sts
        ⊎ ((text ≡ "") × IsHeld x r.node_name r.safe_ports cache sts)
  explained cache r made =
      subst (Explained x r.node_name r.safe_ports cache) made
        (render-Explained x r.node_name r.safe_ports cache)

  unrendered :
      (cache : Cache) (now later : ℕ) (r : Ruleset) (k : K) (a : A) {e : String}
      → render x r.node_name r.safe_ports cache ≡ err e
      → (reconcile x run update cache now later r k a).0 ≡ err e
  unfolding reconcile after_render
  unrendered cache now later r k a failed = rw failed refl

  early_kernel :
      (cache : Cache) (now later : ℕ) (r : Ruleset) (k : K) (a : A) {sts : List PolicyStatus}
      → render x r.node_name r.safe_ports cache ≡ ok ("", sts)
      → (reconcile x run update cache now later r k a).2 ≡ k
  unfolding reconcile after_render say
  early_kernel cache now later r k a nothing = rw nothing refl

  -- Over an nft whose runs are transactions, if a text was last applied longer ago than the resync interval
  -- or what the applier remembers is what the kernel holds, and a reconcile ends without an error, then the
  -- kernel holds the text of a table that the renderers make of everything the cache lists, with every
  -- pod, namespace and policy in it; or the kernel is as it was and nothing is rendered, since the node has
  -- no pod CIDR yet, or a NetworkPolicy cannot be read, or one of the renderers refuses what is listed.
  pub reconcile-IsRenewed :
      (cache : Cache) (now later : ℕ) (r : Ruleset) (k : K) (a : A) {n : ℕ} {r' : Ruleset} {k' : K}
      {a' : A}
      → reconcile x run update cache now later r k a ≡ (ok n, r', k', a')
      → (is_due r.last_apply now ≡ true) ⊎ IsRemembered run Holds r.applier k
      → IsRenewed cache r k' ⊎ IsLeft cache r k k'
  reconcile-IsRenewed cache now later r k a {n} {k' = k'} h m =
      let went = ap (λ p. p.0) h in
      let left = ap (λ p. p.2) h in
      elim (Result-cases (render x r.node_name r.safe_ports cache)) [
        | inr (e, failed) ↦
            absurd (let no = sym (unrendered cache now later r k a failed) ∙ went in ground arith)
        | inl ((text, sts), made) ↦ elim (explained cache r made) [
          | inr (empty, reason) ↦
              let nothing = made ∙ ap (λ t. ok (t, sts)) empty in
              inr (record {
                statuses = sts;
                reason = reason;
                same = sym left ∙ early_kernel cache now later r k a nothing;
              })
          | inl from ↦
              elim (reconcile-Reconciled x run update Holds nft cache now later r k a text sts made
                from.full m) [
                  | inl holds ↦ inl (record {
                    text = text;
                    statuses = sts;
                    from = from;
                    holds = subst (Holds text) left holds;
                  })
                  | inr (e, failed, same, still) ↦
                      absurd (let no = sym failed ∙ went in ground arith)
                ]
        ]
      ]
