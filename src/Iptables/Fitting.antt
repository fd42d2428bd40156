-- ===== src/Iptables/Fitting.antt =====
-- How the backends that `Detect` chooses fit what the `-save` commands print.
use mathlib.Core.Path.{subst}
use cnidaria_cni.Base.{
  ℕ, ◌≤◌, String, ◌<>◌, ◌≡◌, refl, sym, ◌∙◌, ap, Bool, ◌&&◌, not, Bool-cases, Option-cases, none,
  some, List, [], ◌∷◌, arith, inl, inr, Result, ok, err, ok_inj, ◌⊎◌, ◌↔◌, if◌then◌else◌, length,
  select,
}
use cnidaria_cni.Iptables.{
  Backend, nft, legacy, Failure, Family, probe, by_kube_proxy, choose, Runner, lines, has_prefix,
  count_kube, kube_chains, is_not_found, printed,
}
use cnidaria_cni.Iptables.Detecting.{
  Forward, chosen, save_command, run_probe, first_probe, second_probe, detect,
}

-- How many of kube-proxy's chains a `-save` command lists: the lines that declare one, of what it prints
-- if it succeeds.
abbrev pub kube_listed : Result Failure String → ℕ
kube_listed (ok out) = length (select (λ l. has_prefix l ":KUBE-") (lines out))
kube_listed (err e) = 0

-- Of two numbers, of nft and of legacy, that of a backend.
abbrev pub of_backend : ℕ → ℕ → Backend → ℕ
of_backend m n nft = m
of_backend m n legacy = n

-- Neither is more than that of the backend.
abbrev pub IsMost : ℕ → ℕ → Backend → Type 0
IsMost m n b = (m ≤ of_backend m n b) × (n ≤ of_backend m n b)

count_kube_lem :
    (ls : List String) → count_kube ls ≡ length (select (λ l. has_prefix l ":KUBE-") ls)
unfolding count_kube select
count_kube_lem [] = refl
count_kube_lem (l ∷ ls) = elim (Bool-cases (has_prefix l ":KUBE-")) [
  | inl kube ↦ rw kube (rw (count_kube_lem ls) (omega arith))
  | inr other ↦ rw other (count_kube_lem ls)
]

printed_lem : (out : Result Failure String) → kube_chains (printed out) ≡ kube_listed out
unfolding kube_chains count_kube lines has_prefix
printed_lem (ok out) = count_kube_lem (lines out)
printed_lem (err e) = refl

-- What a probe that succeeds reads from the two commands.
record Showed (f : Family) (n l : Result Failure String) : Type 0 where
  in_nft : f.nft_kube ≡ kube_listed n
  in_legacy : f.legacy_kube ≡ kube_listed l
  installed : f.nft_installed ≡ not (is_not_found n)

probe-Showed :
    (prog : String) (n l : Result Failure String) {f : Family}
    → probe prog n l ≡ ok f
    → Showed f n l
unfolding probe
probe-Showed prog n l {f} h = elim (Bool-cases (is_not_found n && is_not_found l)) [
  | inl neither ↦ absurd (let no = rw neither at h in ground arith)
  | inr some_there ↦
      let e = ok_inj (rw some_there at h) in
      record {
        in_nft = sym (ap (λ (g : Family). g.nft_kube) e) ∙ printed_lem n;
        in_legacy = sym (ap (λ (g : Family). g.legacy_kube) e) ∙ printed_lem l;
        installed = sym (ap (λ (g : Family). g.nft_installed) e);
      }
]

-- What `byKubeProxy` says, in the two numbers.
by_kube_proxy-IsMost :
    (f : Family) (b : Backend)
    → by_kube_proxy f ≡ some b
    → IsMost f.nft_kube f.legacy_kube b × ¬ (f.nft_kube ≡ f.legacy_kube)
unfolding by_kube_proxy
by_kube_proxy-IsMost f nft h = ((ground arith, ground arith), λ tied. ground arith)
by_kube_proxy-IsMost f legacy h = ((ground arith, ground arith), λ tied. ground arith)

by_kube_proxy-tied : (f : Family) → by_kube_proxy f ≡ none → f.nft_kube ≡ f.legacy_kube
unfolding by_kube_proxy
by_kube_proxy-tied f h = ground arith

tied-IsMost : (m n : ℕ) (b : Backend) → m ≡ n → IsMost m n b
tied-IsMost m n nft tied = (omega arith, omega arith)
tied-IsMost m n legacy tied = (omega arith, omega arith)

choose_own : (f s : Family) {b : Backend} → by_kube_proxy f ≡ some b → (choose f s).0 ≡ b
unfolding choose
choose_own f s e = rw (e, choose) refl

choose_sibling :
    (f s : Family) {b : Backend}
    → by_kube_proxy f ≡ none
    → by_kube_proxy s ≡ some b
    → (choose f s).0 ≡ b
unfolding choose
choose_sibling f s e g = rw (e, g, choose) refl

-- The backend without any preference.
abbrev pub default : Bool → Backend
default installed = if installed then nft else legacy

choose-default :
    (f s : Family)
    → by_kube_proxy f ≡ none
    → by_kube_proxy s ≡ none
    → (choose f s).0 ≡ default f.nft_installed
unfolding choose
choose-default f s e g = elim (Bool-cases f.nft_installed) [
  | inl there ↦ rw (e, g, choose) (rw there refl)
  | inr gone ↦ rw (e, g, choose) (rw gone refl)
]

choose-IsMost : (f s : Family) → IsMost f.nft_kube f.legacy_kube (choose f s).0
choose-IsMost f s = elim (Option-cases (by_kube_proxy f)) [
  | inl e ↦ tied-IsMost f.nft_kube f.legacy_kube (choose f s).0 (by_kube_proxy-tied f e)
  | inr (b, e) ↦ rw (choose_own f s e) (by_kube_proxy-IsMost f b e).0
]

-- The number of nft is that of legacy.
abbrev IsTied : Family → Type 0
IsTied f = f.nft_kube ≡ f.legacy_kube

choose_agree : (f s : Family) → ((choose f s).0 ≡ (choose s f).0) ⊎ (IsTied f ↔ IsTied s)
choose_agree f s = elim (Option-cases (by_kube_proxy f)) [
  | inl e ↦ elim (Option-cases (by_kube_proxy s)) [
    | inl g ↦ inr (λ h. by_kube_proxy-tied s g, λ h. by_kube_proxy-tied f e)
    | inr (b, g) ↦ inl (choose_sibling f s e g ∙ sym (choose_own s f g))
  ]
  | inr (b, e) ↦ elim (Option-cases (by_kube_proxy s)) [
    | inl g ↦ inl (choose_own f s e ∙ sym (choose_sibling s f g e))
    | inr (c, g) ↦ inr (
      λ h. absurd ((by_kube_proxy-IsMost f b e).1 h),
      λ h. absurd ((by_kube_proxy-IsMost s c g).1 h),
    )
  ]
]

choose_tied : (f s : Family) → IsTied f → IsTied s → (choose f s).0 ≡ default f.nft_installed
choose_tied f s tied other = elim (Option-cases (by_kube_proxy f)) [
  | inr (b, e) ↦ absurd ((by_kube_proxy-IsMost f b e).1 tied)
  | inl e ↦ elim (Option-cases (by_kube_proxy s)) [
    | inr (b, g) ↦ absurd ((by_kube_proxy-IsMost s b g).1 other)
    | inl g ↦ choose-default f s e g
  ]
]

-- What is chosen for the two families, from the numbers of chains that nft and legacy hold for each, and
-- whether nft is installed.
pub record Fits (m4 l4 m6 l6 : ℕ) (installed4 installed6 : Bool) (fw : Forward) : Type 0 where
  pub most_v4 : IsMost m4 l4 fw.v4
  pub most_v6 : IsMost m6 l6 fw.v6
  pub agree : (fw.v4 ≡ fw.v6) ⊎ ((m4 ≡ l4) ↔ (m6 ≡ l6))
  pub by_default : m4 ≡ l4 → m6 ≡ l6 → (fw.v4 ≡ default installed4) × (fw.v6 ≡ default installed6)

chosen-Fits :
    (f4 f6 : Family) (m4 l4 m6 l6 : ℕ) (i4 i6 : Bool)
    → (f4.nft_kube ≡ m4) × (f4.legacy_kube ≡ l4) × (f4.nft_installed ≡ i4)
    → (f6.nft_kube ≡ m6) × (f6.legacy_kube ≡ l6) × (f6.nft_installed ≡ i6)
    → Fits m4 l4 m6 l6 i4 i6 (chosen f4 f6)
unfolding chosen
chosen-Fits f4 f6 m4 l4 m6 l6 i4 i6 (a, b, c) (d, e, g) =
    rw⁻¹ (a, b, c, d, e, g)
      (record {
        most_v4 = choose-IsMost f4 f6;
        most_v6 = choose-IsMost f6 f4;
        agree = choose_agree f4 f6;
        by_default = λ p q. (choose_tied f4 f6 p q, choose_tied f6 f4 q p);
      })

module _ {K : Type 0} (run : Runner K) where
  -- What the two `-save` commands of a family give, one after the other, and the host after them.
  abbrev pub saved : String → K → Result Failure String × Result Failure String × K
  saved prog k =
      let (n, k1) = run k (save_command (prog <> "-nft-save")) in
      let (l, k2) = run k1 (save_command (prog <> "-legacy-save")) in (n, l, k2)

  -- What the commands of both families give.
  abbrev pub FitsSaved :
      Result Failure String × Result Failure String × K
      → Result Failure String × Result Failure String × K
      → Forward
      → Type 0
  FitsSaved s4 s6 fw =
      Fits (kube_listed s4.0) (kube_listed s4.1) (kube_listed s6.0) (kube_listed s6.1)
        (not (is_not_found s4.0)) (not (is_not_found s6.0)) fw

  run_probe-Showed :
      (prog : String) (k : K) {f : Family}
      → (run_probe run prog k).0 ≡ ok f
      → ((f.nft_kube ≡ kube_listed (saved prog k).0)
          × (f.legacy_kube ≡ kube_listed (saved prog k).1)
          × (f.nft_installed ≡ not (is_not_found (saved prog k).0)))
        × ((run_probe run prog k).1 ≡ (saved prog k).2)
  unfolding run_probe
  run_probe-Showed prog k h =
      let s = probe-Showed prog (saved prog k).0 (saved prog k).1 h in
      ((s.in_nft, s.in_legacy, s.installed), refl)

  second_probe-ok :
      (f4 : Family) (p : Result String Family × K) (fw : Forward)
      → (second_probe run f4 p).0 ≡ ok fw
      → (f6 : Family) × (p.0 ≡ ok f6) × (chosen f4 f6 ≡ fw)
  unfolding second_probe
  second_probe-ok f4 (err e, k) fw h = absurd (ground arith)
  second_probe-ok f4 (ok f6, k) fw h = (f6, refl, ok_inj h)

  first_probe-ok :
      (p : Result String Family × K) (fw : Forward)
      → (first_probe run p).0 ≡ ok fw
      → (f4 f6 : Family) × (p.0 ≡ ok f4)
        × ((run_probe run "ip6tables" p.1).0 ≡ ok f6)
        × (chosen f4 f6 ≡ fw)
  unfolding first_probe
  first_probe-ok (err e, k) fw h = absurd (ground arith)
  first_probe-ok (ok f4, k) fw h =
      let (f6, probed, same) = second_probe-ok f4 (run_probe run "ip6tables" k) fw h in
      (f4, f6, refl, probed, same)

  -- If Detect succeeds, then for each family it chose a backend whose `-save` command lists no fewer of
  -- kube-proxy's chains than that of the other; it chose the same for both families, unless each of them
  -- has a backend that lists more than the other or neither has; and if neither has, it chose for each
  -- family nft if the command of that is installed, and else legacy. A command that fails lists none.
  pub detect-Fits :
      (k : K) (fw : Forward)
      → (detect run k).0 ≡ ok fw
      → FitsSaved (saved "iptables" k) (saved "ip6tables" (saved "iptables" k).2) fw
  unfolding detect
  detect-Fits k fw h =
      let (f4, f6, one, two, same) = first_probe-ok (run_probe run "iptables" k) fw h in
      let (showed4, after) = run_probe-Showed "iptables" k one in
      let two' = subst (λ k. (run_probe run "ip6tables" k).0 ≡ ok f6) after two in
      let (showed6, last) = run_probe-Showed "ip6tables" (saved "iptables" k).2 two' in
      subst (FitsSaved (saved "iptables" k) (saved "ip6tables" (saved "iptables" k).2)) same
        (chosen-Fits f4 f6 _ _ _ _ _ _ showed4 showed6)
