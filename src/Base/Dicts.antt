-- ===== src/Base/Dicts.antt =====
-- Maps from texts, as association lists; and signed integers with their text.
use Prim.Native.Nat.{ℕ, ◌+◌}
use Prim.Native.String.{String, ◌++◌ as ◌<>◌}
use mathlib.Core.Path.{◌≡◌, refl}
use mathlib.Core.Option.{Option, none, some}
use mathlib.Core.List.{List, [], ◌∷◌}
use native.Mathlib.Omega.{arith}
use cnidaria_cni.Base.Tests.{if◌then◌else◌, ◌==◌, string_eq, leb}
use cnidaria_cni.Base.Texts.{itoa}

module _ {ℓ} {V : Type ℓ} where
  -- `m[key]` with its `ok`.
  unfoldable pub lookup : String → List (String × V) → Option V
  lookup key [] = none
  lookup key (pair ∷ rest) =
      let deeper = lookup key rest in if pair.0 == key then some pair.1 else deeper

  -- `m[key] = value`
  unfoldable pub insert : String → V → List (String × V) → List (String × V)
  insert key value [] = (key, value) ∷ []
  insert key value (pair ∷ rest) =
      let deeper = pair ∷ insert key value rest in
      if pair.0 == key then (key, value) ∷ rest else deeper

  pub lookup-insert :
      (written asked : String) (value : V) (m : List (String × V))
      → lookup asked (insert written value m)
        ≡ (if written == asked then some value else lookup asked m)
  unfolding lookup insert
  lookup-insert written asked value [] = refl
  lookup-insert written asked value (pair ∷ rest) = ground (
    arith,
    lookup-insert written asked value rest,
    string_eq.beq_iff pair.0 asked,
    string_eq.beq_iff pair.0 written,
    string_eq.beq_iff written asked,
  )

-- `negsuc n` is -(n + 1).
pub data ℤ : Type 0 where
  pos : ℕ → ℤ
  negsuc : ℕ → ℤ

-- `%d`
unfoldable pub int_text : ℤ → String
unfolding itoa
int_text (pos n) = itoa n
int_text (negsuc n) = "-" <> itoa (n + 1)

-- `low <= p && p <= high` for bounds that are not negative: the number, if it lies between them.
unfoldable pub in_range : ℕ → ℕ → ℤ → Option ℕ
in_range low high (pos n) = if leb low n then (if leb n high then some n else none) else none
in_range low high (negsuc n) = none

module _ {ℓ} {V : Type ℓ} where
  -- `delete(m, key)`
  unfoldable pub erase : String → List (String × V) → List (String × V)
  erase key [] = []
  erase key (pair ∷ rest) =
      let deeper = erase key rest in if pair.0 == key then deeper else pair ∷ deeper

  pub lookup-erase :
      (erased asked : String) (m : List (String × V))
      → lookup asked (erase erased m) ≡ (if erased == asked then none else lookup asked m)
  unfolding lookup erase
  lookup-erase erased asked [] = ground arith
  lookup-erase erased asked (pair ∷ rest) = ground (
    arith,
    lookup-erase erased asked rest,
    string_eq.beq_iff pair.0 asked,
    string_eq.beq_iff pair.0 erased,
    string_eq.beq_iff erased asked,
  )

  pub erase-insert :
      (key : String) (value : V) (m : List (String × V))
      → erase key (insert key value m) ≡ erase key m
  unfolding insert erase
  erase-insert key value [] = rw ((string_eq.beq_iff key key).1 refl) refl
  erase-insert key value (pair ∷ rest) =
      ground (arith, erase-insert key value rest, string_eq.beq_iff key key)

  pub erase-erase : (key : String) (m : List (String × V)) → erase key (erase key m) ≡ erase key m
  unfolding erase
  erase-erase key [] = refl
  erase-erase key (pair ∷ rest) = ground (arith, erase-erase key rest)
