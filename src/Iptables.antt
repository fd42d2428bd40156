-- ===== src/Iptables.antt =====
-- internal/iptables/forward.go. Running a command is a parameter.
pub mod Choice
pub mod Detecting
pub mod Fitting
use Prim.Native.String
use Prim.Native.Char.{Char, code}
use cnidaria_cni.Base.{
  ℕ, zero, suc, ◌+◌, String, ◌<>◌, Bool, true, false, ◌&&◌, ◌||◌, not, Option, none, some, List, [],
  ◌∷◌, ◌++◌, map, if◌then◌else◌, ltb, ◌==◌, nat_eq, string_eq, Result, ok, err, select, sort_func,
  compact,
}
use cnidaria_cni.Netip.Addr.{is4}
use cnidaria_cni.Netip.Prefix.{Prefix, prefix_eq, prefix_compare, prefix_text, masked}

abbrev pub chain : String
chain = "CNIDARIA-FWD"

abbrev pub jump_comment : String
jump_comment = "cnidaria: accept pod traffic ahead of the FORWARD policy"

-- `Backend`
pub data Backend : Type 0 where
  nft legacy : Backend

abbrev pub backend_text : Backend → String
backend_text nft = "nft"
backend_text legacy = "legacy"

-- What a command that did not succeed says: it is not installed, it exited with a code, or another failure.
pub data Failure : Type 0 where
  not_found : Failure
  exited : ℕ → String → Failure
  failed : String → Failure

-- `family`
pub record Family : Type 0 where
  pub prog : String
  pub nft_kube : ℕ
  pub legacy_kube : ℕ
  pub nft_installed : Bool

-- The lines of a text, each without its line feed. A text that ends in one has an empty line behind
-- it here, which `kubeChains` does not count either way.
split_line : Char → String × List String → String × List String
split_line c (line, rest) = if code c == b'\n' then ("", line ∷ rest) else (String.◌∷◌ c line, rest)

abbrev lines_from : String → String × List String
lines_from String.[] = ("", [])
lines_from (String.◌∷◌ c s) = split_line c (lines_from s)

-- `strings.Lines`
unfoldable pub lines : String → List String
unfolding split_line
lines s = let (line, rest) = lines_from s in line ∷ rest

-- `strings.HasPrefix`
unfoldable pub has_prefix : String → String → Bool
has_prefix s String.[] = true
has_prefix String.[] (String.◌∷◌ d t) = false
has_prefix (String.◌∷◌ c s) (String.◌∷◌ d t) = code c == code d && has_prefix s t

abbrev is_kube : String → Bool
is_kube l = has_prefix l ":KUBE-"

-- The loop of `kubeChains`.
unfoldable pub count_kube : List String → ℕ
unfolding has_prefix
count_kube [] = 0
count_kube (l ∷ ls) = let rest = count_kube ls in if is_kube l then 1 + rest else rest

-- `kubeChains`
unfoldable pub kube_chains : String → ℕ
unfolding lines count_kube
kube_chains save = count_kube (lines save)

abbrev pub is_not_found : Result Failure String → Bool
is_not_found (err not_found) = true
is_not_found _ = false

-- What a command printed, which is nothing if it failed before that.
abbrev pub printed : Result Failure String → String
printed (ok out) = out
printed (err e) = ""

-- `probe`, from what the two `-save` commands gave.
unfoldable pub probe : String → Result Failure String → Result Failure String → Result String Family
unfolding kube_chains
probe prog nft_out legacy_out =
    if is_not_found nft_out && is_not_found legacy_out
    then err (
        "neither "
        <> (prog
            <> ("-nft nor "
                <> (prog <> "-legacy is installed: the image needs the iptables package"))))
    else ok (record {
      prog = prog;
      nft_kube = kube_chains (printed nft_out);
      legacy_kube = kube_chains (printed legacy_out);
      nft_installed = not (is_not_found nft_out);
    })

-- `family.byKubeProxy`
unfoldable pub by_kube_proxy : Family → Option Backend
by_kube_proxy f =
    if ltb f.nft_kube f.legacy_kube
    then some legacy
    else if ltb f.legacy_kube f.nft_kube
    then some nft
    else none

-- `choose`
unfoldable pub choose : Family → Family → Backend × String
unfolding by_kube_proxy
choose f sibling = elim (by_kube_proxy f) [
  | some b ↦ (b, "kube-proxy's KUBE- chains are in this backend")
  | none ↦ elim (by_kube_proxy sibling) [
    | some b ↦ (
      b,
      "no KUBE- chains here; following " <> (sibling.prog <> ", where they are in this backend"),
    )
    | none ↦
        if not f.nft_installed
        then (legacy, "no KUBE- chains in either family, and only legacy is installed")
        else (nft, "no KUBE- chains in either family; nft is the default")
  ]
]

-- One command: what it is fed, its name and its arguments.
pub record Command : Type 0 where
  pub stdin : String
  pub name : String
  pub args : List String

abbrev accept_lines : List Prefix → String
accept_lines [] = ""
accept_lines (p ∷ ps) =
    "-A "
    <> (chain
        <> (" -s "
            <> (prefix_text p
                <> (" -j ACCEPT\n"
                    <> ("-A "
                        <> (chain
                            <> (" -d "
                                <> (prefix_text p <> (" -j ACCEPT\n" <> accept_lines ps)))))))))

-- What is fed to `iptables-restore`.
unfoldable pub restore_text : List Prefix → String
unfolding sort_func compact prefix_compare prefix_text
restore_text cidrs =
    "*filter\n:"
    <> (chain
        <> (" - [0:0]\n"
            <> (accept_lines (compact (sort_func prefix_compare cidrs)) <> "COMMIT\n")))

abbrev jump_args : List String
jump_args = "-m" ∷ "comment" ∷ "--comment" ∷ jump_comment ∷ "-j" ∷ chain ∷ []

abbrev pub restore_command : String → List Prefix → Command
restore_command bin cidrs = record {
  stdin = restore_text cidrs;
  name = bin <> "-restore";
  args = "-w" ∷ "--noflush" ∷ [];
}

abbrev pub check_command : String → Command
check_command bin = record {
  stdin = "";
  name = bin;
  args = "-w" ∷ "-t" ∷ "filter" ∷ "-C" ∷ "FORWARD" ∷ jump_args;
}

abbrev pub insert_command : String → Command
insert_command bin = record {
  stdin = "";
  name = bin;
  args = "-w" ∷ "-t" ∷ "filter" ∷ "-I" ∷ "FORWARD" ∷ "1" ∷ jump_args;
}

-- Running a command on a state of the host.
abbrev pub Runner : Type 0 → Type 0
Runner K = K → Command → Result Failure String × K

-- `errors.As(err, &exit)` with `exit.ExitCode() == 1`
abbrev pub is_exit_1 : Failure → Bool
is_exit_1 (exited n said) = n == 1
is_exit_1 _ = false

module _ {K : Type 0} (run : Runner K) where
  -- The result of the insertion.
  abbrev pub settle : Result Failure String → K → Option Failure × K
  settle (ok out) after = (none, after)
  settle (err e) after = (some e, after)

  unfoldable pub insert_jump : String → K → Option Failure × K
  insert_jump bin k = settle (run k (insert_command bin)).0 (run k (insert_command bin)).1

  -- The switch on what `-C` gave.
  unfoldable pub after_check : String → Result Failure String → K → Option Failure × K
  unfolding insert_jump
  after_check bin (ok out) after = (none, after)
  after_check bin (err e) after = if is_exit_1 e then insert_jump bin after else (some e, after)

  -- The part after `iptables-restore`.
  unfoldable pub after_restore : String → Result Failure String → K → Option Failure × K
  unfolding after_check
  after_restore bin (err e) after = (some e, after)
  after_restore bin (ok out) after =
      after_check bin (run after (check_command bin)).0 (run after (check_command bin)).1

  -- `Forward.apply`
  unfoldable pub apply_family : String → List Prefix → K → Option Failure × K
  unfolding after_restore restore_text
  apply_family bin cidrs k =
      after_restore bin (run k (restore_command bin cidrs)).0 (run k (restore_command bin cidrs)).1

  -- `Forward.Apply`: the failures of both families.
  unfoldable pub apply : Backend → Backend → List Prefix → K → List (Option Failure) × K
  unfolding apply_family select masked
  apply v4 v6 cidrs k =
      let of4 = map masked (select (λ p. is4 p.addr) cidrs) in
      let of6 = map masked (select (λ p. not (is4 p.addr)) cidrs) in
      let (first, k1) = apply_family ("iptables-" <> backend_text v4) of4 k in
      let (second, k2) = apply_family ("ip6tables-" <> backend_text v6) of6 k1 in
      (first ∷ second ∷ [], k2)
