-- ===== src/Tests/Host.antt =====
-- The parts that touch the host: iptables, the kernel settings, and the status of the policies.
use cnidaria_cni.Base.{
  ℕ, suc, String, ◌≡◌, refl, sym, ap, ◌∙◌, false, Option, none, some, List, [], ◌∷◌, arith,
  if◌then◌else◌, ◌==◌, nat_eq, string_eq, Bool-cases, inl, inr, All, contains, lookup, insert,
  lookup-insert, ◌↔◌, Result, ok, err, pos, text_differs,
}
use cnidaria_cni.Iptables.{Failure, exited, Runner, apply_family}
use cnidaria_cni.Iptables.Choice.{CountsJumps, LeavesOne, apply_family-leaves}
use cnidaria_cni.Sysctl.{
  Files, ReadError, not_exist, read, check, ensure_forwarding, bridge_settings,
}
use cnidaria_cni.Sysctl.Settled.{KeepsFiles, check_iff, ensure_forwarding-settles}
use cnidaria_cni.Nodepol.Types.{NodeNetworkPolicyNodeStatus}
use cnidaria_cni.Controller.{with_entry}
use cnidaria_cni.Controller.Entries.{others, with_entry-settles}
use cnidaria_cni.Tests.Data.{pod_prefix}

-- An iptables that is the number of its jumps.
abbrev counting : Runner ℕ
unfolding contains
counting jumps c =
    if contains c.args "--noflush"
    then (ok "", jumps)
    else if contains c.args "-C"
    then (if jumps == 0 then err (exited 1 "") else ok "", jumps)
    else (ok "", suc jumps)

never_err : {e : Failure} → ◌≡◌ {A = Result Failure String} (ok "") (err e) → ⊥
never_err h = cc

counting-CountsJumps : CountsJumps counting "iptables-nft" (λ n. n)
unfolding counting contains
counting-CountsJumps = record {
  restoring = λ k cidrs. refl;
  checking = λ k. refl;
  present = λ k h. elim (Bool-cases (k == 0)) [
    | inl zero_jumps ↦ absurd (ground arith)
    | inr more ↦ λ e. absurd (ground arith)
  ];
  absent = λ k h x. elim (Bool-cases (k == 0)) [
    | inl zero_jumps ↦ ground arith
    | inr more ↦ absurd (ground arith)
  ];
  inserted = λ k h. refl;
  refused = λ k h. absurd (never_err h);
}

apply_family-leaves_example :
    LeavesOne (λ n. n) 0 (apply_family counting "iptables-nft" (pod_prefix ∷ []) 0)
apply_family-leaves_example =
    apply_family-leaves counting "iptables-nft" (λ n. n) counting-CountsJumps (pod_prefix ∷ []) 0

-- Files as an association list.
abbrev Texts : Type 0
Texts = List (String × String)

abbrev read_text : Option String → Result ReadError String
read_text none = err not_exist
read_text (some t) = ok t

abbrev texts : Files Texts
unfolding lookup insert
texts = record {
  read_file = λ s name. read_text (lookup name s);
  write_file = λ s name text. ok (insert name text s);
}

same_after : {q r : Texts} → ◌≡◌ {A = Result String Texts} (ok q) (ok r) → q ≡ r
same_after e = cc

read_back :
    (s : Texts) (name text another : String) {after : Texts}
    → insert name text s ≡ after
    → read_text (lookup another after)
      ≡ read_text (if name == another then some text else lookup another s)
read_back s name text another e =
    ap (λ m. read_text (lookup another m)) (sym e)
    ∙ ap read_text (lookup-insert name another text s)

texts-KeepsFiles : KeepsFiles texts
unfolding texts
texts-KeepsFiles = record {
  written = λ s name f h.
      read_back s name "1\n" name (same_after h) ∙ rw ((string_eq.beq_iff name name).1 refl) refl;
  others = λ s name another f known h differs.
      read_back s name "1\n" another (same_after h)
      ∙ rw (text_differs name another (λ e. differs (sym e))) refl;
}

abbrev settings : Texts
settings =
    ("net.bridge.bridge-nf-call-iptables", "1\n")
    ∷ ("net.bridge.bridge-nf-call-ip6tables", "1\n")
    ∷ ("net.ipv4.ip_forward", "0\n")
    ∷ ("net.ipv6.conf.all.forwarding", "1\n")
    ∷ []

check_iff_example :
    (check texts settings ≡ []) ↔ All (λ n. read texts settings n ≡ ok "1") bridge_settings
check_iff_example = check_iff texts settings

abbrev forwarding : Texts
unfolding ensure_forwarding texts
forwarding = (ensure_forwarding texts settings).2

forwarded : ensure_forwarding texts settings ≡ ("net.ipv4.ip_forward" ∷ [], none, forwarding)
unfolding ensure_forwarding texts forwarding
forwarded = refl

ensure_forwarding-settles_example :
    All
      (λ n. read texts forwarding n ≡ ok "1")
      ("net.ipv4.ip_forward" ∷ "net.ipv6.conf.all.forwarding" ∷ [])
    × All (λ n. read texts forwarding n ≡ read texts settings n) bridge_settings
ensure_forwarding-settles_example =
    ensure_forwarding-settles texts texts-KeepsFiles settings {done = "net.ipv4.ip_forward" ∷ []}
      {after = forwarding} forwarded

abbrev entry_of : String → String → NodeNetworkPolicyNodeStatus
entry_of name mode = record { name = name; observed_generation = pos 1; mode = mode; message = "" }

with_entry-settles_example :
    (others "node-1" (entry_of "node-2" "Enforce" ∷ entry_of "node-1" "Enforce" ∷ [])
      ≡ others "node-1" (entry_of "node-2" "Enforce" ∷ []))
    × (with_entry
          (entry_of "node-2" "Enforce" ∷ entry_of "node-1" "Enforce" ∷ [])
          "node-1"
          (some (entry_of "node-1" "Enforce"))
        ≡ ([], false))
unfolding with_entry
with_entry-settles_example =
    with_entry-settles "node-1" (some (entry_of "node-1" "Enforce"))
      (entry_of "node-2" "Enforce" ∷ []) refl refl
