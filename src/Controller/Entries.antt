-- ===== src/Controller/Entries.antt =====
-- `withEntry` speaks for its own node only, and has nothing more to say after a change.
use cnidaria_cni.Base.{
  String, ◌≡◌, refl, ap, ◌∙◌, Bool, true, false, not, Option, Option-cases, none, some, List, [],
  ◌∷◌, ◌++◌, arith, ◌==◌, string_eq, Bool-cases, inl, inr, select, ℤ, pos, negsuc, nat_eq,
}
use cnidaria_cni.Nodepol.Types.{NodeNetworkPolicyNodeStatus}
use cnidaria_cni.Controller.{scan, finish, with_entry, put_entry, entry_beq, int_beq}
use mathlib.Core.Path.{subst}

-- The entries of other nodes.
abbrev pub others : String → List NodeNetworkPolicyNodeStatus → List NodeNetworkPolicyNodeStatus
others name ns = select (λ n. not (n.name == name)) ns

-- The entry is about the node of this name.
abbrev pub IsAbout : String → Option NodeNetworkPolicyNodeStatus → Type 0
IsAbout name none = Unit
IsAbout name (some e) = (e.name == name) ≡ true

others_put :
    (name : String) (entry : Option NodeNetworkPolicyNodeStatus)
    (out : List NodeNetworkPolicyNodeStatus)
    → IsAbout name entry
    → others name (put_entry entry out) ≡ others name out
unfolding select
others_put name none out about = refl
others_put name (some e) out about = rw about refl

-- A loop that went through: what it made of each entry.
data Scanned (name : String) (entry : Option NodeNetworkPolicyNodeStatus)
    : List NodeNetworkPolicyNodeStatus → List NodeNetworkPolicyNodeStatus → Bool → Type 0 where
  ended : Scanned name entry [] [] false
  kept :
      {n : NodeNetworkPolicyNodeStatus} {ns out : List NodeNetworkPolicyNodeStatus} {found : Bool}
      → (n.name == name) ≡ false
      → Scanned name entry ns out found
      → Scanned name entry (n ∷ ns) (n ∷ out) found
  replaced :
      {n : NodeNetworkPolicyNodeStatus} {ns out : List NodeNetworkPolicyNodeStatus} {found : Bool}
      → (n.name == name) ≡ true
      → Scanned name entry ns out found
      → Scanned name entry (n ∷ ns) (put_entry entry out) true

scan-Scanned :
    (name : String) (entry : Option NodeNetworkPolicyNodeStatus)
    (ns : List NodeNetworkPolicyNodeStatus) {out : List NodeNetworkPolicyNodeStatus} {found : Bool}
    → scan name entry ns ≡ some (out, found)
    → Scanned name entry ns out found
unfolding scan
scan-Scanned name entry [] {out} {found} h =
    subst (λ (r : List NodeNetworkPolicyNodeStatus × Bool). Scanned name entry [] r.0 r.1)
      (some_inj h) ended
  where
    some_inj : {q r : List NodeNetworkPolicyNodeStatus × Bool} → some q ≡ some r → q ≡ r
    some_inj e = cc
scan-Scanned name entry (n ∷ ns) {out} {found} h = elim (Option-cases (scan name entry ns)) [
  | inl stopped ↦ absurd (ground arith)
  | inr ((rest, seen), went) ↦
      let ih = scan-Scanned name entry ns {out = rest} {found = seen} went in
      elim (Bool-cases (n.name == name)) [
        | inr other ↦
            let e : ◌≡◌ {A = List NodeNetworkPolicyNodeStatus × Bool} (n ∷ rest, seen)
                (out, found) =
              ground arith in
            subst
              (λ (r : List NodeNetworkPolicyNodeStatus × Bool). Scanned name entry (n ∷ ns) r.0 r.1)
              e (kept other ih)
        | inl own ↦
            let e : ◌≡◌ {A = List NodeNetworkPolicyNodeStatus × Bool} (put_entry entry rest, true)
                (out, found) =
              ground arith in
            subst
              (λ (r : List NodeNetworkPolicyNodeStatus × Bool). Scanned name entry (n ∷ ns) r.0 r.1)
              e (replaced own ih)
      ]
]

Scanned-others :
    (name : String) (entry : Option NodeNetworkPolicyNodeStatus)
    {ns out : List NodeNetworkPolicyNodeStatus} {found : Bool}
    → IsAbout name entry
    → Scanned name entry ns out found
    → others name out ≡ others name ns
unfolding select
Scanned-others name entry about ended = refl
Scanned-others name entry about (kept {n = n} other r) =
    rw other (ap (λ l. n ∷ l) (Scanned-others name entry about r))
Scanned-others name entry about (replaced {out = out} own r) =
    others_put name entry out about ∙ Scanned-others name entry about r ∙ rw own refl

int_beq_self : (i : ℤ) → int_beq i i ≡ true
int_beq_self (pos n) = (nat_eq.beq_iff n n).1 refl
int_beq_self (negsuc n) = (nat_eq.beq_iff n n).1 refl

entry_beq_self : (e : NodeNetworkPolicyNodeStatus) → entry_beq e e ≡ true
entry_beq_self e =
    rw
      (
        (string_eq.beq_iff e.name e.name).1 refl,
        int_beq_self e.observed_generation,
        (string_eq.beq_iff e.mode e.mode).1 refl,
        (string_eq.beq_iff e.message e.message).1 refl,
      )
      refl

scan_own :
    (name : String) (e : NodeNetworkPolicyNodeStatus) (ns : List NodeNetworkPolicyNodeStatus)
    → (e.name == name) ≡ true
    → scan name (some e) (e ∷ ns) ≡ none
unfolding scan
scan_own name e ns about = rw (about, entry_beq_self e) refl

scan_later :
    (name : String) (entry : Option NodeNetworkPolicyNodeStatus) (n : NodeNetworkPolicyNodeStatus)
    (ns : List NodeNetworkPolicyNodeStatus)
    → scan name entry ns ≡ none
    → scan name entry (n ∷ ns) ≡ none
unfolding scan
scan_later name entry n ns h = ground arith

-- A list that holds the entry stops the loop.
scan_held :
    (name : String) (e : NodeNetworkPolicyNodeStatus) (ns : List NodeNetworkPolicyNodeStatus)
    → (e.name == name) ≡ true
    → scan name (some e) (ns ++ (e ∷ [])) ≡ none
scan_held name e [] about = scan_own name e [] about
scan_held name e (n ∷ ns) about = scan_later name (some e) n _ (scan_held name e ns about)

Scanned-held :
    (name : String) (e : NodeNetworkPolicyNodeStatus) {ns out : List NodeNetworkPolicyNodeStatus}
    {found : Bool}
    → (e.name == name) ≡ true
    → found ≡ true
    → Scanned name (some e) ns out found
    → scan name (some e) out ≡ none
Scanned-held name e about is_found ended = cc
Scanned-held name e about is_found (kept {n = n} other r) =
    scan_later name (some e) n _ (Scanned-held name e about is_found r)
Scanned-held name e about is_found (replaced {out = out} own r) = scan_own name e out about

Scanned-gone :
    (name : String) {ns out : List NodeNetworkPolicyNodeStatus} {found : Bool}
    → Scanned name none ns out found
    → scan name none out ≡ some (out, false)
unfolding scan
Scanned-gone name ended = refl
Scanned-gone name (kept other r) = rw (Scanned-gone name r) (rw other refl)
Scanned-gone name (replaced own r) = Scanned-gone name r

others-append :
    (name : String) (ns : List NodeNetworkPolicyNodeStatus) (e : NodeNetworkPolicyNodeStatus)
    → (e.name == name) ≡ true
    → others name (ns ++ (e ∷ [])) ≡ others name ns
unfolding select
others-append name [] e about = rw about refl
others-append name (n ∷ ns) e about = ground (arith, others-append name ns e about)

-- A change keeps the entries of the other nodes, in their order, and asking for it again changes nothing.
Settled :
    String
    → Option NodeNetworkPolicyNodeStatus
    → List NodeNetworkPolicyNodeStatus
    → List NodeNetworkPolicyNodeStatus
    → Type 0
unfolding with_entry
Settled name entry nodes out =
    (others name out ≡ others name nodes) × (with_entry out name entry ≡ ([], false))

finish-Settled :
    (name : String) (entry : Option NodeNetworkPolicyNodeStatus)
    (nodes : List NodeNetworkPolicyNodeStatus)
    (r : Option (List NodeNetworkPolicyNodeStatus × Bool)) {out : List NodeNetworkPolicyNodeStatus}
    → IsAbout name entry
    → scan name entry nodes ≡ r
    → finish entry r ≡ (out, true)
    → Settled name entry nodes out
unfolding Settled with_entry
finish-Settled name entry nodes none about went h = cc
finish-Settled name none nodes (some (out, false)) about went h = cc
finish-Settled name none nodes (some (o, true)) {out} about went h =
    let s = scan-Scanned name none nodes went in
    let e : o ≡ out = ground arith in
    subst
      (λ l. (others name l ≡ others name nodes) × (finish none (scan name none l) ≡ ([], false))) e
      (Scanned-others name none about s, rw (Scanned-gone name s) refl)
finish-Settled name (some x) nodes (some (o, true)) {out} about went h =
    let s = scan-Scanned name (some x) nodes went in
    let e : o ≡ out = ground arith in
    subst
      (λ l.
        (others name l ≡ others name nodes)
        × (finish (some x) (scan name (some x) l) ≡ ([], false)))
      e (Scanned-others name (some x) about s, rw (Scanned-held name x about refl s) refl)
finish-Settled name (some x) nodes (some (o, false)) {out} about went h =
    let s = scan-Scanned name (some x) nodes went in
    let e : o ++ (x ∷ []) ≡ out = ground arith in
    subst
      (λ l.
        (others name l ≡ others name nodes)
        × (finish (some x) (scan name (some x) l) ≡ ([], false)))
      e
      (
        others-append name o x about ∙ Scanned-others name (some x) about s,
        rw (scan_held name x o about) refl,
      )

-- If `with_entry` reports a change for an entry about the node itself, or for none, then the new list has the same entries
-- of the other nodes in the same order, and asking for the same entry again reports no change.
pub with_entry-settles :
    (name : String) (entry : Option NodeNetworkPolicyNodeStatus)
    (nodes : List NodeNetworkPolicyNodeStatus) {out : List NodeNetworkPolicyNodeStatus}
    → IsAbout name entry
    → with_entry nodes name entry ≡ (out, true)
    → (others name out ≡ others name nodes) × (with_entry out name entry ≡ ([], false))
unfolding Settled with_entry
with_entry-settles name entry nodes {out} about h =
    finish-Settled name entry nodes (scan name entry nodes) about refl h
