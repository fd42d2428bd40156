-- ===== src/Nodepol/Jumping.antt =====
-- What `jumpFrom` does to the chains of the table.
use mathlib.Core.List.{Memᴰ}
use mathlib.Core.Path.{subst}
use cnidaria_cni.Base.{
  String, ◌≡◌, refl, sym, ap, ◌∙◌, ◌≢◌, false, some, List, [], ◌∷◌, ◌++◌, arith, ◌==◌, string_eq,
  Bool-cases, inl, inr, ok, >>=-eq-ok,
}
use cnidaria_cni.Nftables.Ruleset.{Chain, chain_named}
use cnidaria_cni.Nodepol.Add.{dispatch_jump, jump_from}

-- A member of another name is still one after the first chain is changed.
jumped_member :
    (k : Chain) (ks : List Chain) (dispatch : String) {cs' : List Chain} {c : Chain}
    → record k { rules = k.rules ++ (dispatch_jump dispatch ∷ []) } ∷ ks ≡ cs'
    → c.name ≢ k.name
    → Memᴰ c (k ∷ ks)
    → Memᴰ c cs'
jumped_member k ks dispatch e other (Memᴰ.head same) =
    absurd (other (ap (λ (c : Chain). c.name) same))
jumped_member k ks dispatch {cs'} {c} e other (Memᴰ.tail m) = subst (Memᴰ c) e (Memᴰ.tail m)

kept_member :
    (k : Chain) (ks rest : List Chain) (c : Chain)
    → (Memᴰ c ks → Memᴰ c rest)
    → Memᴰ c (k ∷ ks)
    → Memᴰ c (k ∷ rest)
kept_member k ks rest c f (Memᴰ.head same) = Memᴰ.head same
kept_member k ks rest c f (Memᴰ.tail m) = Memᴰ.tail (f m)

-- `jump_from` keeps every chain of another name, and adds one jump to the first of its name.
pub jump_from-member :
    (cs : List Chain) (name dispatch : String) {cs' : List Chain} {c : Chain}
    → jump_from cs name dispatch ≡ ok cs'
    → c.name ≢ name
    → Memᴰ c cs
    → Memᴰ c cs'
unfolding jump_from
jump_from-member [] name dispatch h other m = elim m [ ]
jump_from-member (k ∷ ks) name dispatch {cs'} {c} h other m = elim (Bool-cases (k.name == name)) [
  | inl same ↦
      jumped_member k ks dispatch (ground arith) (λ e. other (e ∙ (string_eq.beq_iff _ _).0 same)) m
  | inr differs ↦
      let (rest, later, whole) =
        >>=-eq-ok (jump_from ks name dispatch) (λ r. ok (k ∷ r)) {b = cs'} (ground arith) in
      let deeper = kept_member k ks rest c (jump_from-member ks name dispatch later other) m in
      let e : k ∷ rest ≡ cs' = ground arith in subst (Memᴰ c) e deeper
]

pub jump_from-named :
    (cs : List Chain) (name dispatch : String) {cs' : List Chain} {c : Chain}
    → jump_from cs name dispatch ≡ ok cs'
    → chain_named name cs ≡ some c
    → chain_named name cs' ≡ some (record c { rules = c.rules ++ (dispatch_jump dispatch ∷ []) })
unfolding jump_from chain_named
jump_from-named [] name dispatch h found = cc
jump_from-named (k ∷ ks) name dispatch {cs'} {c} h found = elim (Bool-cases (k.name == name)) [
  | inl same ↦ ground arith
  | inr differs ↦
      let (rest, later, whole) =
        >>=-eq-ok (jump_from ks name dispatch) (λ r. ok (k ∷ r)) {b = cs'} (ground arith) in
      let deeper = jump_from-named ks name dispatch {cs' = rest} {c = c} later (ground arith) in
      let e : k ∷ rest ≡ cs' = ground arith in rw (← e) (rw differs deeper)
]

pub jump_from-other :
    (cs : List Chain) (name dispatch other : String) {cs' : List Chain}
    → jump_from cs name dispatch ≡ ok cs'
    → other ≢ name
    → chain_named other cs' ≡ chain_named other cs
unfolding jump_from chain_named
jump_from-other [] name dispatch other h differs = cc
jump_from-other (k ∷ ks) name dispatch other {cs'} h differs = elim (Bool-cases (k.name == name)) [
  | inl same ↦
      let e : record k { rules = k.rules ++ (dispatch_jump dispatch ∷ []) } ∷ ks ≡ cs' =
        ground arith in
      let distinct : (k.name == other) ≡ false = elim (Bool-cases (k.name == other)) [
        | inl clash ↦
            absurd
              (differs (sym ((string_eq.beq_iff _ _).0 clash) ∙ (string_eq.beq_iff _ _).0 same))
        | inr fine ↦ fine
      ] in
      rw (← e) (rw distinct refl)
  | inr another ↦
      let (rest, later, whole) =
        >>=-eq-ok (jump_from ks name dispatch) (λ r. ok (k ∷ r)) {b = cs'} (ground arith) in
      let e : k ∷ rest ≡ cs' = ground arith in
      rw (← e) (rw (jump_from-other ks name dispatch other later differs) refl)
]
