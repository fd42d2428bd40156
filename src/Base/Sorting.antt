-- ===== src/Base/Sorting.antt =====
-- `slices.SortFunc` and `slices.Compact`: an insertion sort that keeps equals in order, and what
-- makes the result of sorting independent of the order of its input.
use mathlib.Core.Path.{◌≡◌, refl, sym, ap₂, ◌∙◌, ap}
use mathlib.Core.Bool.{Bool, true, false, ◌||◌}
use mathlib.Core.Logic.{inl, inr}
use mathlib.Core.List.{List, [], ◌∷◌, Perm}
use mathlib.Core.List.Perm
use Prim.Native.Nat.{Ordering, suc}
use native.Mathlib.Omega.{arith}
use cnidaria_cni.Base.Tests.{if◌then◌else◌, Bool-cases, Eq, ◌==◌}
use cnidaria_cni.Base.Lists.{All, All-imp, contains, contains_self, contains-All, length}

abbrev pub le_by {ℓ} : {A : Type ℓ} → (A → A → Ordering) → A → A → Bool
le_by cmp a b = elim (cmp a b) [ Ordering.gt ↦ false | _ ↦ true ]

module _ {ℓ} {A : Type ℓ} where
  unfoldable pub insert_by : (A → A → Ordering) → A → List A → List A
  insert_by cmp x [] = x ∷ []
  insert_by cmp x (y ∷ ys) =
      let later = y ∷ insert_by cmp x ys in if le_by cmp x y then x ∷ y ∷ ys else later

  unfoldable pub sort_func : (A → A → Ordering) → List A → List A
  unfolding insert_by
  sort_func cmp [] = []
  sort_func cmp (x ∷ xs) = insert_by cmp x (sort_func cmp xs)

  abbrev pub IsSorted : (A → A → Ordering) → List A → Type 0
  IsSorted cmp [] = Unit
  IsSorted cmp (x ∷ xs) = All (λ y. le_by cmp x y ≡ true) xs × IsSorted cmp xs

  -- What a comparison needs for its sort to be ascending.
  pub record IsOrder (cmp : A → A → Ordering) : Type ℓ where
    pub total : (a b : A) → le_by cmp a b ≡ false → le_by cmp b a ≡ true
    pub trans : (a b c : A) → le_by cmp a b ≡ true → le_by cmp b c ≡ true → le_by cmp a c ≡ true

  -- What it needs for the result to be unique.
  pub record IsLinear (cmp : A → A → Ordering) : Type ℓ where
    pub order : IsOrder cmp
    pub antisymm : (a b : A) → le_by cmp a b ≡ true → le_by cmp b a ≡ true → a ≡ b

  pub le_by_self : {cmp : A → A → Ordering} → IsOrder cmp → (a : A) → le_by cmp a a ≡ true
  le_by_self {cmp} order a = elim (Bool-cases (le_by cmp a a)) [
    | inl below ↦ below
    | inr above ↦ order.total a a above
  ]

module _ {ℓ} {A : Type ℓ} (cmp : A → A → Ordering) where
  insert_by-perm : (x : A) (xs : List A) → Perm (insert_by cmp x xs) (x ∷ xs)
  unfolding insert_by
  insert_by-perm x [] = Perm.rfl
  insert_by-perm x (y ∷ ys) = elim (Bool-cases (le_by cmp x y)) [
    | inl before ↦ rw before Perm.rfl
    | inr after ↦ rw after (Perm.trans (Perm.cons y (insert_by-perm x ys)) (Perm.swap x y ys))
  ]

  pub sort_func-perm : (xs : List A) → Perm (sort_func cmp xs) xs
  unfolding sort_func
  sort_func-perm [] = Perm.rfl
  sort_func-perm (x ∷ xs) =
      Perm.trans (insert_by-perm x (sort_func cmp xs)) (Perm.cons x (sort_func-perm xs))

  insert_by-All {κ} :
      (P : A → Type κ) (x : A) (xs : List A) → P x → All P xs → All P (insert_by cmp x xs)
  unfolding insert_by
  insert_by-All P x [] p h = (p, tt)
  insert_by-All P x (y ∷ ys) p (q, h) = elim (Bool-cases (le_by cmp x y)) [
    | inl before ↦ rw before (p, (q, h))
    | inr after ↦ rw after (q, insert_by-All P x ys p h)
  ]

  pub sort_func-All {κ} : (P : A → Type κ) (xs : List A) → All P xs → All P (sort_func cmp xs)
  unfolding sort_func
  sort_func-All P [] h = tt
  sort_func-All P (x ∷ xs) (p, h) = insert_by-All P x (sort_func cmp xs) p (sort_func-All P xs h)

module _ {ℓ} {A : Type ℓ} {cmp : A → A → Ordering} (order : IsOrder cmp) where
  insert_by-IsSorted : (x : A) (xs : List A) → IsSorted cmp xs → IsSorted cmp (insert_by cmp x xs)
  unfolding insert_by
  insert_by-IsSorted x [] s = (tt, tt)
  insert_by-IsSorted x (y ∷ ys) (h, s) = elim (Bool-cases (le_by cmp x y)) [
    | inl before ↦ rw before ((before, All-imp _ (λ z q. order.trans x y z before q) ys h), (h, s))
    | inr after ↦ rw after (
      insert_by-All cmp (λ z. le_by cmp y z ≡ true) x ys (order.total x y after) h,
      insert_by-IsSorted x ys s,
    )
  ]

  pub sort_func-IsSorted : (xs : List A) → IsSorted cmp (sort_func cmp xs)
  unfolding sort_func
  sort_func-IsSorted [] = tt
  sort_func-IsSorted (x ∷ xs) = insert_by-IsSorted x (sort_func cmp xs) (sort_func-IsSorted xs)

module _ {ℓ} {A : Type ℓ} ⦃e : Eq A⦄ where
  unfoldable pub compact : List A → List A
  compact (x ∷ y ∷ rest) = let later = compact (y ∷ rest) in if x == y then later else x ∷ later
  compact xs = xs

  -- Sorted without repetitions.
  abbrev pub IsAscending : (A → A → Ordering) → List A → Type 0
  IsAscending cmp [] = Unit
  IsAscending cmp (x ∷ xs) =
      All (λ y. (le_by cmp x y ≡ true) × ((x == y) ≡ false)) xs × IsAscending cmp xs

  contains-insert_by :
      (cmp : A → A → Ordering) (x : A) (xs : List A) (a : A)
      → contains (insert_by cmp x xs) a ≡ (x == a || contains xs a)
  unfolding insert_by contains
  contains-insert_by cmp x [] a = refl
  contains-insert_by cmp x (y ∷ ys) a = ground (arith, contains-insert_by cmp x ys a)

  pub contains-sort_func :
      (cmp : A → A → Ordering) (xs : List A) (a : A) → contains (sort_func cmp xs) a ≡ contains xs a
  unfolding sort_func contains
  contains-sort_func cmp [] a = refl
  contains-sort_func cmp (x ∷ xs) a = rw (contains-insert_by, contains-sort_func cmp xs a) refl

  pub contains-compact : (xs : List A) (a : A) → contains (compact xs) a ≡ contains xs a
  unfolding compact contains
  contains-compact [] a = refl
  contains-compact (x ∷ []) a = refl
  contains-compact (x ∷ y ∷ rest) a = ground (arith, contains-compact (y ∷ rest) a, e.beq_iff x y)

  pub compact-All {κ} : (P : A → Type κ) (xs : List A) → All P xs → All P (compact xs)
  unfolding compact
  compact-All P [] h = tt
  compact-All P (x ∷ []) h = h
  compact-All P (x ∷ y ∷ rest) (p, h) = elim (Bool-cases (x == y)) [
    | inl same ↦ rw same (compact-All P (y ∷ rest) h)
    | inr other ↦ rw other (p, compact-All P (y ∷ rest) h)
  ]

module _ {ℓ} {A : Type ℓ} ⦃e : Eq A⦄ {cmp : A → A → Ordering} (linear : IsLinear cmp) where
  open linear use {order, antisymm}

  not_again :
      (x y z : A)
      → (x == y) ≡ false
      → le_by cmp x y ≡ true
      → le_by cmp y z ≡ true
      → (x == z) ≡ false
  not_again x y z other le_xy le_yz = elim (Bool-cases (x == z)) [
    | inl same ↦
        let same_z : x ≡ z = (e.beq_iff x z).0 same in
        let same_y : x ≡ y = antisymm x y le_xy (rw same_z le_yz) in cc
    | inr fresh ↦ fresh
  ]

  pub compact-IsAscending : (xs : List A) → IsSorted cmp xs → IsAscending cmp (compact xs)
  unfolding compact
  compact-IsAscending [] s = tt
  compact-IsAscending (x ∷ []) s = (tt, tt)
  compact-IsAscending (x ∷ y ∷ rest) ((le_xy, h), (k, s)) = elim (Bool-cases (x == y)) [
    | inl same ↦ rw same (compact-IsAscending (y ∷ rest) (k, s))
    | inr other ↦ rw other (
      compact-All _ (y ∷ rest) (
        (le_xy, other),
        All-imp _ (λ z q. (order.trans x y z le_xy q, not_again x y z other le_xy q)) rest k,
      ),
      compact-IsAscending (y ∷ rest) (k, s),
    )
  ]

  le_of_contains :
      (x y : A) (ys : List A)
      → All (λ z. (le_by cmp y z ≡ true) × ((y == z) ≡ false)) ys
      → contains (y ∷ ys) x ≡ true
      → le_by cmp y x ≡ true
  unfolding contains
  le_of_contains x y ys h m = elim (Bool-cases (y == x)) [
    | inl same ↦ rw (← (e.beq_iff y x).0 same) (le_by_self order y)
    | inr other ↦ (contains-All _ ys x h (ground arith)).0
  ]

  not-contains_of_head :
      (x : A) (xs : List A)
      → All (λ z. (le_by cmp x z ≡ true) × ((x == z) ≡ false)) xs
      → contains xs x ≡ false
  not-contains_of_head x xs h = elim (Bool-cases (contains xs x)) [
    | inl m ↦ cc ((contains-All _ xs x h m).1, (e.beq_iff x x).1 refl)
    | inr no_m ↦ no_m
  ]

  -- An ascending list is determined by its members.
  pub IsAscending-unique :
      (xs ys : List A)
      → IsAscending cmp xs
      → IsAscending cmp ys
      → ((a : A) → contains xs a ≡ contains ys a)
      → xs ≡ ys
  unfolding contains
  IsAscending-unique [] [] s t h = refl
  IsAscending-unique [] (y ∷ ys) s t h = cc (h y, contains_self y ys)
  IsAscending-unique (x ∷ xs) [] s t h = cc (h x, contains_self x xs)
  IsAscending-unique (x ∷ xs) (y ∷ ys) (hx, s) (hy, t) h =
      let heads : x ≡ y =
        antisymm x y (le_of_contains y x xs hx (h y ∙ contains_self y ys))
          (le_of_contains x y ys hy (sym (h x) ∙ contains_self x xs)) in
      ap₂ ◌∷◌ heads (
        IsAscending-unique xs ys s t λ a. elim (Bool-cases (x == a)) [
          | inl same ↦
              let is_a = (e.beq_iff x a).0 same in
              let left : contains xs a ≡ false = rw (← is_a) (not-contains_of_head x xs hx) in
              let right : contains ys a ≡ false =
                rw (← is_a, heads) (not-contains_of_head y ys hy) in
              left ∙ sym right
          | inr other ↦ let other_y : (y == a) ≡ false = rw (← heads) other in ground (arith, h a)
        ])

module _ {ℓ} {A : Type ℓ} (cmp : A → A → Ordering) where
  length-insert_by : (x : A) (xs : List A) → length (insert_by cmp x xs) ≡ suc (length xs)
  unfolding insert_by
  length-insert_by x [] = refl
  length-insert_by x (y ∷ ys) = ground (arith, length-insert_by x ys)

  pub length-sort_func : (xs : List A) → length (sort_func cmp xs) ≡ length xs
  unfolding sort_func
  length-sort_func [] = refl
  length-sort_func (x ∷ xs) = length-insert_by x (sort_func cmp xs) ∙ ap suc (length-sort_func xs)
