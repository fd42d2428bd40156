-- ===== src/Netpol/Isolating/Marking.antt =====
-- What the steps of `isolate` add to the isolated addresses.
use cnidaria_cni.Base.{
  String, ◌≡◌, refl, sym, ◌∙◌, Bool, true, false, ◌&&◌, ◌||◌, not, Option-cases, List, [], ◌∷◌,
  arith, if◌then◌else◌, ◌==◌, string_eq, Bool-cases, inl, inr, contains, ok,
}
use mathlib.Core.Path.{subst}
use cnidaria_cni.Netip.Addr.{Addr, addr_eq}
use cnidaria_cni.Nftables.Ruleset.{Rule, chain_named}
use cnidaria_cni.Netpol.Types.{policy_type_egress}
use cnidaria_cni.Netpol.Sets.{Dir, State, isolated, isolate}
use cnidaria_cni.Netpol.Policy.{put_jumps, isolate_all}
use cnidaria_cni.Netpol.Frame.{OnlySets}

-- Two types of policy that keep one set of isolated addresses.
abbrev pub alike : String → String → Bool
alike t u =
    if t == policy_type_egress then u == policy_type_egress else not (u == policy_type_egress)

absorb :
    (ip a : Addr) (l : List Addr) → contains l ip ≡ true → (ip == a || contains l a) ≡ contains l a
absorb ip a l h = elim (Bool-cases (ip == a)) [
  | inl same ↦
      let e : ip ≡ a = (addr_eq.beq_iff ip a).0 same in
      rw same (sym (subst (λ b. contains l b ≡ true) e h))
  | inr other ↦ rw other refl
]

alike-isolated : (t u : String) (s : State) → alike t u ≡ true → isolated s t ≡ isolated s u
alike-isolated t u s same = elim (Bool-cases (t == policy_type_egress)) [
  | inl out ↦ let u_out : (u == policy_type_egress) ≡ true = ground arith in rw (out, u_out) refl
  | inr inward ↦
      let u_in : (u == policy_type_egress) ≡ false = ground arith in rw (inward, u_in) refl
]

isolate_lem :
    (t u : String) (ip a : Addr) (s : State)
    → contains (isolated (isolate u ip s) t) a
      ≡ ((alike t u && ip == a) || contains (isolated s t) a)
unfolding isolate contains
isolate_lem t u ip a s = elim (Bool-cases (contains (isolated s u) ip)) [
  | inl held ↦ rw held (elim (Bool-cases (alike t u)) [
    | inl same ↦ rw same (sym (absorb ip a (isolated s t) (rw (alike-isolated t u s same) held)))
    | inr other ↦ rw other refl
  ])
  | inr fresh ↦ elim (Bool-cases (u == policy_type_egress)) [
    | inl out ↦ elim (Bool-cases (t == policy_type_egress)) [
      | inl t_out ↦ rw fresh (rw (out, t_out) refl)
      | inr t_in ↦ rw fresh (rw (out, t_in) refl)
    ]
    | inr inward ↦ elim (Bool-cases (t == policy_type_egress)) [
      | inl t_out ↦ rw fresh (rw (inward, t_out) refl)
      | inr t_in ↦ rw fresh (rw (inward, t_in) refl)
    ]
  ]
]

pub isolate_all_lem :
    (t u : String) (ips : List Addr) (a : Addr) (s : State)
    → contains (isolated (isolate_all u ips s) t) a
      ≡ ((alike t u && contains ips a) || contains (isolated s t) a)
unfolding isolate_all contains
isolate_all_lem t u [] a s = ground arith
isolate_all_lem t u (ip ∷ ips) a s =
    isolate_all_lem t u ips a (isolate u ip s) ∙ rw (isolate_lem t u ip a s) (ground arith)

pub OnlySets-isolated : {s s' : State} (t : String) → OnlySets s s' → isolated s' t ≡ isolated s t
OnlySets-isolated t o = elim (Bool-cases (t == policy_type_egress)) [
  | inl out ↦ rw out o.egress
  | inr inward ↦ rw inward o.ingress
]

pub put_jumps-isolated :
    (d : Dir) (jumps : List Rule) (s : State) {s' : State} (t : String)
    → put_jumps d jumps s ≡ ok s'
    → isolated s' t ≡ isolated s t
unfolding put_jumps
put_jumps-isolated d jumps s t h = elim (Option-cases (chain_named d.dispatch s.table.chains)) [
  | inl missing ↦ absurd (ground arith)
  | inr (c, found) ↦ ground arith
]
