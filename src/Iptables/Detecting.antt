-- ===== src/Iptables/Detecting.antt =====
-- internal/iptables/forward.go: `Detect`, which runs the four `-save` commands and chooses the backends.
use cnidaria_cni.Base.{String, ◌<>◌, ◌≡◌, refl, ◌∙◌, [], Result, ok, err}
use cnidaria_cni.Iptables.{Backend, Family, probe, choose, Command, Runner}

-- `Forward`, without its runner.
pub record Forward : Type 0 where
  pub v4 : Backend
  pub v6 : Backend
  pub v4_reason : String
  pub v6_reason : String

abbrev pub save_command : String → Command
save_command name = record { stdin = ""; name = name; args = [] }

-- What is made of the two families.
unfoldable pub chosen : Family → Family → Forward
unfolding choose
chosen v4 v6 = record {
  v4 = (choose v4 v6).0;
  v6 = (choose v6 v4).0;
  v4_reason = (choose v4 v6).1;
  v6_reason = (choose v6 v4).1;
}

module _ {K : Type 0} (run : Runner K) where
  -- The two runs of `probe`, and what it makes of them.
  unfoldable pub run_probe : String → K → Result String Family × K
  unfolding probe
  run_probe prog k =
      let (nft_out, k1) = run k (save_command (prog <> "-nft-save")) in
      let (legacy_out, k2) = run k1 (save_command (prog <> "-legacy-save")) in
      (probe prog nft_out legacy_out, k2)

  unfoldable pub second_probe : Family → Result String Family × K → Result String Forward × K
  unfolding chosen
  second_probe v4 (err e, k) = (err e, k)
  second_probe v4 (ok v6, k) = (ok (chosen v4 v6), k)

  unfoldable pub first_probe : Result String Family × K → Result String Forward × K
  unfolding second_probe run_probe
  first_probe (err e, k) = (err e, k)
  first_probe (ok v4, k) = second_probe v4 (run_probe "ip6tables" k)

  -- `Detect`
  unfoldable pub detect : K → Result String Forward × K
  unfolding first_probe run_probe
  detect k = first_probe (run_probe "iptables" k)

module _ {K A : Type 0} (run : Runner K) (view : K → A) where
  -- A view of the kernel that no command changes.
  abbrev pub IsUnrun : Type 0
  IsUnrun = (k : K) (c : Command) → view (run k c).1 ≡ view k

  run_probe-keeps : (prog : String) (k : K) → IsUnrun → view (run_probe run prog k).1 ≡ view k
  unfolding run_probe
  run_probe-keeps prog k same =
      same (run k (save_command (prog <> "-nft-save"))).1 (save_command (prog <> "-legacy-save"))
      ∙ same k (save_command (prog <> "-nft-save"))

  second_probe-keeps :
      (f4 : Family) (p : Result String Family × K) → view (second_probe run f4 p).1 ≡ view p.1
  unfolding second_probe
  second_probe-keeps f4 (err e, k) = refl
  second_probe-keeps f4 (ok f6, k) = refl

  first_probe-keeps :
      (p : Result String Family × K) → IsUnrun → view (first_probe run p).1 ≡ view p.1
  unfolding first_probe
  first_probe-keeps (err e, k) same = refl
  first_probe-keeps (ok f4, k) same =
      second_probe-keeps f4 (run_probe run "ip6tables" k) ∙ run_probe-keeps "ip6tables" k same

  pub detect-keeps : (k : K) → IsUnrun → view (detect run k).1 ≡ view k
  unfolding detect
  detect-keeps k same =
      first_probe-keeps (run_probe run "iptables" k) same ∙ run_probe-keeps "iptables" k same
