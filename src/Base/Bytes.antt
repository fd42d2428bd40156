-- ===== src/Base/Bytes.antt =====
-- Lengths of texts in bytes, and of the slices at their beginning.
use Prim.Native.Nat.{ℕ, ◌+◌, ◌-◌, ◌≤◌, compare, Ordering}
use Prim.Native.Char.{Char, len_utf8}
use Prim.Native.String.{String, len, slice, fits}
use Prim.Native.String.slice as slices
use Prim.Native.String.len as lens
use mathlib.Core.Path.{◌≡◌, refl}
use native.Mathlib.Omega.{arith}

len-cons : (c : Char) (s : String) → len (String.◌∷◌ c s) ≡ len_utf8 c + len s
len-cons c s = lens.cons c s

len-nil : len String.[] ≡ 0
len-nil = lens.nil

lt-of-compare : (a b : ℕ) → compare a b ≡ Ordering.lt → a ≤ b
lt-of-compare a b e = ground arith

eq-of-compare : (a b : ℕ) → compare a b ≡ Ordering.eq → a ≤ b
eq-of-compare a b e = ground arith

len-fits :
    (c : Char) (s : String) (n : ℕ)
    → len s ≤ n - len_utf8 c
    → len (fits (compare (len_utf8 c) n) c s) ≤ n
len-fits c s n h = by_order (compare (len_utf8 c) n) refl
  where
    by_order : (o : Ordering) → compare (len_utf8 c) n ≡ o → len (fits o c s) ≤ n
    by_order Ordering.lt e = omega (arith, len-cons c s, lt-of-compare (len_utf8 c) n e)
    by_order Ordering.eq e = omega (arith, len-cons c s, eq-of-compare (len_utf8 c) n e)
    by_order Ordering.gt e = omega (arith, len-nil)

-- A slice from the beginning has at most the bytes asked for.
pub len-slice : (s : String) (n : ℕ) → len (slice s 0 n) ≤ n
len-slice String.[] n = rw (slices.nil 0 n) (omega arith)
len-slice (String.◌∷◌ c s) n =
    rw (slices.cons-zero c s n)
      (len-fits c (slice s 0 (n - len_utf8 c)) n (len-slice s (n - len_utf8 c)))
