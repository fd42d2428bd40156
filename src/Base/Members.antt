-- ===== src/Base/Members.antt =====
-- Members of lists, and what holds of all the elements of a sorted list.
use mathlib.Core.Path.{◌≡◌, refl, sym, ap, ◌∙◌}
use mathlib.Core.Bool.{Bool, true, false}
use mathlib.Core.Option.{none, some, some-injective}
use native.Mathlib.Omega.{arith}
use mathlib.Core.Logic.{inl, inr}
use mathlib.Core.List.{List, [], ◌∷◌, ◌++◌, Memᴰ}
use Prim.Native.Nat.{Ordering}
use cnidaria_cni.Base.Tests.{Bool-cases}
use cnidaria_cni.Base.Lists.{All, All-imp, any, find_first}
use cnidaria_cni.Base.Sorting.{insert_by, sort_func, le_by}

module _ {ℓ} {A : Type ℓ} where
  pub mem_left : (xs ys : List A) {x : A} → Memᴰ x xs → Memᴰ x (xs ++ ys)
  mem_left [] ys m = elim m [ ]
  mem_left (z ∷ zs) ys (Memᴰ.head e) = Memᴰ.head e
  mem_left (z ∷ zs) ys (Memᴰ.tail m) = Memᴰ.tail (mem_left zs ys m)

  pub mem_right : (xs ys : List A) {x : A} → Memᴰ x ys → Memᴰ x (xs ++ ys)
  mem_right [] ys m = m
  mem_right (z ∷ zs) ys m = Memᴰ.tail (mem_right zs ys m)

  pub every_member : (xs : List A) → All (λ x. Memᴰ x xs) xs
  every_member [] = tt
  every_member (z ∷ zs) = (Memᴰ.head refl, All-imp _ (λ x m. Memᴰ.tail m) zs (every_member zs))

  module _ {κ} (P : A → Type κ) (cmp : A → A → Ordering) where
    All-insert_by : (x : A) (xs : List A) → All P (insert_by cmp x xs) → P x × All P xs
    unfolding insert_by
    All-insert_by x [] h = h
    All-insert_by x (y ∷ ys) h = elim (Bool-cases (le_by cmp x y)) [
      | inl before ↦ (rw before at h)
      | inr after ↦
          let (q, rest) : P y × All P (insert_by cmp x ys) = rw after at h in
          let (p, others) = All-insert_by x ys rest in (p, (q, others))
    ]

    pub All-sort_func : (xs : List A) → All P (sort_func cmp xs) → All P xs
    unfolding sort_func
    All-sort_func [] h = tt
    All-sort_func (x ∷ xs) h =
        let (p, rest) = All-insert_by x (sort_func cmp xs) h in (p, All-sort_func xs rest)

module _ {ℓ} {A : Type ℓ} (p : A → Bool) where
  -- A test passes on one of the elements exactly if it passes on a member.
  pub any_of_member : (xs : List A) {x : A} → Memᴰ x xs → p x ≡ true → any p xs ≡ true
  unfolding any
  any_of_member [] m h = elim m [ ]
  any_of_member (y ∷ ys) {x} (Memᴰ.head e) h = (let here : p y ≡ true = cc in ground arith)
  any_of_member (y ∷ ys) {x} (Memᴰ.tail m) h =
      (let later = any_of_member ys {x = x} m h in ground arith)

  pub member_of_any : (xs : List A) → any p xs ≡ true → (x : A) × Memᴰ x xs × (p x ≡ true)
  unfolding any
  member_of_any [] h = absurd (ground arith)
  member_of_any (y ∷ ys) h = elim (Bool-cases (p y)) [
    | inl here ↦ (y, Memᴰ.head refl, here)
    | inr later ↦ let (x, m, passes) = member_of_any ys (ground arith) in (x, Memᴰ.tail m, passes)
  ]

  -- The first that passes, between those before it, which do not, and those after it.
  pub find_first-splits :
      (xs : List A) {x : A}
      → find_first p xs ≡ some x
      → (before after : List A) × (xs ≡ before ++ (x ∷ after))
        × All (λ y. p y ≡ false) before
        × (p x ≡ true)
  unfolding find_first
  find_first-splits [] h = absurd (ground arith)
  find_first-splits (y ∷ ys) {x} h = elim (Bool-cases (p y)) [
    | inl here ↦
        let same : y ≡ x = some-injective _ _ (rw here at h) in
        ([], ys, ap (λ z. z ∷ ys) same, tt, ap p (sym same) ∙ here)
    | inr later ↦
        let (before, after, split, none_before, passes) =
          find_first-splits ys {x = x} (rw later at h) in
        (y ∷ before, after, ap (λ l. y ∷ l) split, (later, none_before), passes)
  ]

  pub find_first-none : (xs : List A) → find_first p xs ≡ none → All (λ y. p y ≡ false) xs
  unfolding find_first
  find_first-none [] h = tt
  find_first-none (y ∷ ys) h = elim (Bool-cases (p y)) [
    | inl here ↦ absurd (let no = rw here at h in ground arith)
    | inr later ↦ (later, find_first-none ys (rw later at h))
  ]
