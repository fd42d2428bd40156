-- ===== src/Nftables/Applier.antt =====
-- internal/nftables/apply.go: the applier, over a kernel that runs `nft -f -`.
pub mod Remembering
use cnidaria_cni.Base.{String, Bool, true, false, if◌then◌else◌, ◌==◌, string_eq, Result, ok, err}

pub record Applier : Type 0 where
  pub applied : String

-- `NewApplier`
abbrev pub new_applier : Applier
new_applier = record { applied = "" }

-- `Forget`
unfoldable pub forget : Applier → Applier
forget a = record a { applied = "" }

-- `Runner`: one run of nft on a text, in the kernel's state `K`.
module _ {K : Type 0} (run : String → K → Result String (Unit {0}) × K) where
  after_run : Applier → String → Result String (Unit {0}) × K → Result String Bool × Applier × K
  after_run a text (ok _, k) = (ok true, record a { applied = text }, k)
  after_run a text (err e, k) = (err e, a, k)

  -- `Apply`
  unfoldable pub apply : String → Applier → K → Result String Bool × Applier × K
  unfolding after_run
  apply text a k = if text == a.applied then (ok false, a, k) else after_run a text (run text k)
