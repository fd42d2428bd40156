-- ===== src/Base/Results.antt =====
-- A value or an error, Go's pair of a value and an `error`.
use mathlib.Core.Path.{◌≡◌, refl, subst, ap, ◌∙◌}
use mathlib.Core.Bool.{Bool, true, false}
use mathlib.Core.List.{List, [], ◌∷◌, map, Memᴰ}
use native.Mathlib.Omega.{arith}
use mathlib.Core.Logic.{◌⊎◌, inl, inr, ◌↔◌}
use cnidaria_cni.Base.Lists.{All}

pub data Result {ℓ κ} (E : Type ℓ) (A : Type κ) : Type (ℓ ⊔ κ) where
  ok : A → Result E A
  err : E → Result E A

infixl 5 ◌>>=◌ ◌>>◌
abbrev pub ◌>>=◌ {ℓ κ μ} :
    {E : Type ℓ} {A : Type κ} {B : Type μ} → Result E A → (A → Result E B) → Result E B
ok a >>= f = f a
err e >>= f = err e

abbrev pub ◌>>◌ {ℓ κ} : {E : Type ℓ} {B : Type κ} → Result E (Unit {0}) → Result E B → Result E B
m >> k = m >>= λ _. k

-- `if !test { return err }`
abbrev pub guard {ℓ} : {E : Type ℓ} → Bool → E → Result E (Unit {0})
guard true e = ok tt
guard false e = err e

-- `fmt.Errorf("…: %w", err)`
abbrev pub map_err {ℓ κ μ} :
    {E : Type ℓ} {F : Type κ} {A : Type μ} → (E → F) → Result E A → Result F A
map_err f (ok a) = ok a
map_err f (err e) = err (f e)

-- Inversion of a successful bind.
pub >>=-eq-ok {ℓ κ μ} :
    {E : Type ℓ} {A : Type κ} {B : Type μ} (first : Result E A) (next : A → Result E B) {b : B}
    → (first >>= next) ≡ ok b
    → (value : A) × (first ≡ ok value) × (next value ≡ ok b)
>>=-eq-ok (err failure) next h = cc
>>=-eq-ok (ok value) next h = (value, refl, h)

pub map_err-eq-ok {ℓ κ μ} :
    {E : Type ℓ} {F : Type κ} {A : Type μ} (f : E → F) (m : Result E A) {a : A}
    → map_err f m ≡ ok a
    → m ≡ ok a
map_err-eq-ok f (ok a) h = cc
map_err-eq-ok f (err e) h = cc

pub guard-eq-ok {ℓ} : {E : Type ℓ} (b : Bool) (e : E) {u : Unit {0}} → guard b e ≡ ok u → b ≡ true
guard-eq-ok true e h = refl
guard-eq-ok false e h = cc

pub Result-cases {ℓ κ} :
    {E : Type ℓ} {A : Type κ} (r : Result E A) → ((a : A) × (r ≡ ok a)) ⊎ ((e : E) × (r ≡ err e))
Result-cases (ok a) = inl (a, refl)
Result-cases (err e) = inr (e, refl)

pub ok_inj {ℓ κ} : {E : Type ℓ} {A : Type κ} {a b : A} → ◌≡◌ {A = Result E A} (ok a) (ok b) → a ≡ b
ok_inj h = cc

pub err_inj {ℓ κ} :
    {E : Type ℓ} {A : Type κ} {a b : E} → ◌≡◌ {A = Result E A} (err a) (err b) → a ≡ b
err_inj h = cc

-- A loop that renders each element and stops at the first error.
unfoldable pub traverse {ℓ κ μ} :
    {E : Type ℓ} {A : Type κ} {B : Type μ} → (A → Result E B) → List A → Result E (List B)
traverse f [] = ok []
traverse f (x ∷ xs) = do y ← f x; ys ← traverse f xs; ok (y ∷ ys)

-- There is a value.
abbrev pub Succeeds {ℓ κ} : {E : Type ℓ} {A : Type κ} → Result E A → Type 0
Succeeds (ok a) = Unit
Succeeds (err e) = ⊥

pub Succeeds-ok {ℓ κ} :
    {E : Type ℓ} {A : Type κ} (r : Result E A) → Succeeds r → (a : A) × (r ≡ ok a)
Succeeds-ok (ok a) h = (a, refl)
Succeeds-ok (err e) h = absurd h

pub Succeeds-map_err {ℓ κ μ} :
    {E : Type ℓ} {F : Type κ} {A : Type μ} (f : E → F) (r : Result E A)
    → Succeeds (map_err f r) ↔ Succeeds r
Succeeds-map_err f (ok a) = (λ h. h, λ h. h)
Succeeds-map_err f (err e) = (λ h. h, λ h. h)

-- A step that goes on with a value whatever it is.
pub Succeeds-ok_after {ℓ κ μ} :
    {E : Type ℓ} {A : Type κ} {B : Type μ} (r : Result E A) (f : A → B)
    → Succeeds (r >>= λ a. ok (f a)) ↔ Succeeds r
Succeeds-ok_after (ok a) f = (λ h. h, λ h. h)
Succeeds-ok_after (err e) f = (λ h. h, λ h. h)

-- Two steps, neither of which needs what the other gives.
pub Succeeds-both {ℓ κ μ ν} :
    {E : Type ℓ} {A : Type κ} {B : Type μ} {C : Type ν} (r : Result E A) (s : Result E B)
    (f : A → B → C)
    → Succeeds (r >>= λ a. (s >>= λ b. ok (f a b))) ↔ (Succeeds r × Succeeds s)
Succeeds-both (ok a) (ok b) f = (λ h. (tt, tt), λ h. tt)
Succeeds-both (ok a) (err e) f = (λ h. absurd h, λ h. h.1)
Succeeds-both (err e) s f = (λ h. absurd h, λ h. h.0)

pub Succeeds-traverse {ℓ κ μ ν} :
    {E : Type ℓ} {A : Type κ} {B : Type μ} (P : A → Type ν) (f : A → Result E B)
    → ((x : A) → Succeeds (f x) ↔ P x)
    → (xs : List A) → Succeeds (traverse f xs) ↔ All P xs
unfolding traverse
Succeeds-traverse P f each [] = (λ h. tt, λ h. tt)
Succeeds-traverse P f each (x ∷ xs) =
    let both = Succeeds-both (f x) (traverse f xs) (λ y ys. y ∷ ys) in
    let rest = Succeeds-traverse P f each xs in
    (λ h. ((each x).0 (both.0 h).0, rest.0 (both.0 h).1), λ h. both.1 ((each x).1 h.0, rest.1 h.1))

-- Two lists of one length, related element by element.
abbrev pub Each {ℓ κ} : {A : Type ℓ} {B : Type κ} → (A → B → Type 0) → List A → List B → Type 0
Each R [] [] = Unit
Each R (x ∷ xs) (y ∷ ys) = R x y × Each R xs ys
Each R [] (y ∷ ys) = ⊥
Each R (x ∷ xs) [] = ⊥

pub traverse-Each {ℓ κ μ} :
    {E : Type ℓ} {A : Type κ} {B : Type μ} (R : A → B → Type 0) (f : A → Result E B)
    → ((x : A) (y : B) → f x ≡ ok y → R x y)
    → (xs : List A) {ys : List B} → traverse f xs ≡ ok ys
    → Each R xs ys
unfolding traverse
traverse-Each R f each [] {ys} h = subst (λ l. Each R [] l) (ok_inj h) tt
traverse-Each R f each (x ∷ xs) {ys} h =
    let (y, one, rest) = >>=-eq-ok (f x) _ h in
    let (zs, two, whole) = >>=-eq-ok (traverse f xs) _ rest in
    subst (λ l. Each R (x ∷ xs) l) (ok_inj whole) (each x y one, traverse-Each R f each xs two)

-- A list whose values a function gives, one by one.
pub Each-map {ℓ κ} :
    {A : Type ℓ} {B : Type κ} (R : A → B → Type 0) (f : A → B)
    → ((x : A) → R x (f x))
    → (xs : List A) → Each R xs (map f xs)
Each-map R f each [] = tt
Each-map R f each (x ∷ xs) = (each x, Each-map R f each xs)

-- A traversal that fails does so with the error of a member.
pub traverse-err {ℓ κ μ} :
    {E : Type ℓ} {A : Type κ} {B : Type μ} (f : A → Result E B) (xs : List A) {e : E}
    → traverse f xs ≡ err e
    → (x : A) × Memᴰ x xs × (f x ≡ err e)
unfolding traverse
traverse-err f [] h = absurd (ground arith)
traverse-err f (x ∷ xs) {e} h = elim (Result-cases (f x)) [
  | inr (e', failed) ↦
      (let same : e' ≡ e = err_inj (rw failed at h) in (x, Memᴰ.head refl, failed ∙ ap err same))
  | inl (y, went) ↦ elim (Result-cases (traverse f xs)) [
    | inr (e', later) ↦
        let same : e' ≡ e = err_inj (rw (went, later) at h) in
        let (z, m, failed) = traverse-err f xs {e = e} (later ∙ ap err same) in
        (z, Memᴰ.tail m, failed)
    | inl (ys, fine) ↦ absurd (let no = rw (went, fine) at h in ground arith)
  ]
]
