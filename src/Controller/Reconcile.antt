-- ===== src/Controller/Reconcile.antt =====
-- internal/controller/ruleset.go: `Ruleset.Reconcile`, over the kernel that runs nft, the API server
-- and a clock in nanoseconds.
pub mod Running
pub mod Renewing
use cnidaria_cni.Base.{
  ℕ, ◌-◌, String, ◌<>◌, Bool, true, Option, none, some, List, if◌then◌else◌, leb, ◌==◌, string_eq,
  Result, ok, err,
}
use cnidaria_cni.Kube.{External}
use cnidaria_cni.Nftables.Params.{SafePorts}
use cnidaria_cni.Nftables.Applier.{Applier, forget, apply}
use cnidaria_cni.Controller.{PolicyStatus}
use cnidaria_cni.Controller.Render.{Cache, Rendered, render}
use cnidaria_cni.Controller.Status.{Update, write_status}

-- `Resync`: five minutes.
abbrev pub resync : ℕ
resync = 300000000000

-- `Ruleset`, with the applier that it holds; `none` is the zero time.
pub record Ruleset : Type 0 where
  pub node_name : String
  pub safe_ports : SafePorts
  pub applier : Applier
  pub last_apply : Option ℕ

-- `time.Since(r.lastApply) >= Resync`
unfoldable pub is_due : Option ℕ → ℕ → Bool
is_due none now = true
is_due (some t) now = leb resync (now - t)

-- The applier that `Apply` is called on.
unfoldable pub asked : Ruleset → ℕ → Applier
unfolding is_due forget
asked r now = if is_due r.last_apply now then forget r.applier else r.applier

module _ {A : Type 0} (update : Update A) where
  -- The status, which goes after the table; a success asks for another run after `resync`.
  unfoldable pub say :
      {K : Type 0} → List PolicyStatus → Ruleset → K → A → Result String ℕ × Ruleset × K × A
  unfolding write_status
  say sts r k a =
      let (failure, a1) = write_status update r.node_name sts a in
      (elim failure [ some e ↦ err e | none ↦ ok resync ], r, k, a1)

  -- What follows `Applier.Apply`.
  unfoldable pub after_apply :
      {K : Type 0}
      → List PolicyStatus
      → ℕ
      → Ruleset
      → Result String Bool × Applier × K
      → A
      → Result String ℕ × Ruleset × K × A
  unfolding say
  after_apply sts later r (err e, applier, k) a =
      (err ("apply the nftables table: " <> e), record r { applier = applier }, k, a)
  after_apply sts later r (ok changed, applier, k) a =
      say sts
        (record r { applier = applier; last_apply = if changed then some later else r.last_apply })
        k a

module _ {K A : Type 0} (x : External) (run : String → K → Result String (Unit {0}) × K)
    (update : Update A) where
  unfoldable pub after_render :
      ℕ → ℕ → Result String Rendered → Ruleset → K → A → Result String ℕ × Ruleset × K × A
  unfolding after_apply asked apply
  after_render now later (err e) r k a = (err e, r, k, a)
  after_render now later (ok (text, sts)) r k a =
      if text == ""
      then say update sts r k a
      else after_apply update sts later r (apply run text (asked r now) k) a

  -- `Reconcile`, with what the clock says before `Apply` and after it.
  unfoldable pub reconcile : Cache → ℕ → ℕ → Ruleset → K → A → Result String ℕ × Ruleset × K × A
  unfolding after_render render
  reconcile cache now later r k a =
      after_render now later (render x r.node_name r.safe_ports cache) r k a
