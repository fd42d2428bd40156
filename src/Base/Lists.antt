-- ===== src/Base/Lists.antt =====
-- Lists by native numbers and Boolean membership.
use Prim.Native.Nat.{ℕ, suc}
use mathlib.Core.Path.{◌≡◌, refl}
use mathlib.Core.Bool.{Bool, true, false, ◌&&◌, ◌||◌}
use mathlib.Core.Logic.{inl, inr}
use mathlib.Core.List.{List, [], ◌∷◌, ◌++◌, map}
use mathlib.Core.Option.{Option, none, some}
use native.Mathlib.Omega.{arith}
use cnidaria_cni.Base.Tests.{if◌then◌else◌, Bool-cases, Eq, ◌==◌}

module _ {ℓ} {A : Type ℓ} where
  abbrev pub length : List A → ℕ
  length [] = 0
  length (x ∷ xs) = suc (length xs)

  -- A predicate on every element.
  abbrev pub All {κ} : (A → Type κ) → List A → Type κ
  All P [] = Unit
  All P (x ∷ xs) = P x × All P xs

  -- The loop `for … { if p(x) { out = append(out, x) } }`.
  unfoldable pub select : (A → Bool) → List A → List A
  select p [] = []
  select p (x ∷ xs) = let rest = select p xs in if p x then x ∷ rest else rest

  unfoldable pub any : (A → Bool) → List A → Bool
  any p [] = false
  any p (x ∷ xs) = p x || any p xs

  unfoldable pub all : (A → Bool) → List A → Bool
  all p [] = true
  all p (x ∷ xs) = p x && all p xs

  -- The first element that passes a test.
  unfoldable pub find_first : (A → Bool) → List A → Option A
  find_first p [] = none
  find_first p (x ∷ xs) = let rest = find_first p xs in if p x then some x else rest

module _ {ℓ κ} {A : Type ℓ} (P : A → Type κ) where
  pub All-append : (xs ys : List A) → All P xs → All P ys → All P (xs ++ ys)
  All-append [] ys hx hy = hy
  All-append (x ∷ xs) ys (p, hx) hy = (p, All-append xs ys hx hy)

  pub All-append_left : (xs ys : List A) → All P (xs ++ ys) → All P xs
  All-append_left [] ys h = tt
  All-append_left (x ∷ xs) ys (p, h) = (p, All-append_left xs ys h)

  pub All-append_right : (xs ys : List A) → All P (xs ++ ys) → All P ys
  All-append_right [] ys h = h
  All-append_right (x ∷ xs) ys (p, h) = All-append_right xs ys h

  pub All-of_forall : ((x : A) → P x) → (xs : List A) → All P xs
  All-of_forall f [] = tt
  All-of_forall f (x ∷ xs) = (f x, All-of_forall f xs)

  pub All-imp {μ} : {Q : A → Type μ} → ((x : A) → Q x → P x) → (xs : List A) → All Q xs → All P xs
  All-imp f [] h = tt
  All-imp f (x ∷ xs) (q, h) = (f x q, All-imp f xs h)

  pub All-select : (p : A → Bool) (xs : List A) → All P xs → All P (select p xs)
  unfolding select
  All-select p [] h = tt
  All-select p (x ∷ xs) (q, h) = ground (arith, All-select p xs h)

module _ {ℓ κ} {A : Type ℓ} {B : Type κ} where
  pub All-map {μ} :
      (P : B → Type μ) (f : A → B) (xs : List A) → All (λ x. P (f x)) xs → All P (map f xs)
  All-map P f [] h = tt
  All-map P f (x ∷ xs) (p, h) = (p, All-map P f xs h)

module _ {ℓ} {A : Type ℓ} where
  pub All-select_test : (p : A → Bool) (xs : List A) → All (λ x. p x ≡ true) (select p xs)
  unfolding select
  All-select_test p [] = tt
  All-select_test p (x ∷ xs) = ground (arith, All-select_test p xs)

  pub all→All : (p : A → Bool) (xs : List A) → all p xs ≡ true → All (λ x. p x ≡ true) xs
  unfolding all
  all→All p [] h = tt
  all→All p (x ∷ xs) h = ground (arith, all→All p xs)

  pub any-append : (p : A → Bool) (xs ys : List A) → any p (xs ++ ys) ≡ (any p xs || any p ys)
  unfolding any
  any-append p [] ys = refl
  any-append p (x ∷ xs) ys = ground (arith, any-append p xs ys)

module _ {ℓ} {A : Type ℓ} ⦃e : Eq A⦄ where
  unfoldable pub contains : List A → A → Bool
  contains [] a = false
  contains (x ∷ xs) a = x == a || contains xs a

  pub contains-append :
      (xs ys : List A) (a : A) → contains (xs ++ ys) a ≡ (contains xs a || contains ys a)
  unfolding contains
  contains-append [] ys a = refl
  contains-append (x ∷ xs) ys a = ground (arith, contains-append xs ys a)

  pub contains_self : (x : A) (xs : List A) → contains (x ∷ xs) x ≡ true
  unfolding contains
  contains_self x xs = rw ((e.beq_iff x x).1 refl)

  pub contains-All {κ} :
      (P : A → Type κ) (xs : List A) (a : A) → All P xs → contains xs a ≡ true → P a
  unfolding contains
  contains-All P [] a h m = cc
  contains-All P (x ∷ xs) a (p, h) m = elim (Bool-cases (x == a)) [
    | inl same ↦ rw (← (e.beq_iff x a).0 same) p
    | inr other ↦ contains-All P xs a h (ground arith)
  ]

  pub All-contains {κ} :
      (P : A → Type κ) (xs : List A) → ((a : A) → contains xs a ≡ true → P a) → All P xs
  unfolding contains
  All-contains P [] f = tt
  All-contains P (x ∷ xs) f =
      (f x (contains_self x xs), All-contains P xs (λ a m. f a (ground arith)))
