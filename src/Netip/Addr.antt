-- ===== src/Netip/Addr.antt =====
-- `netip.Addr`: the families, `Unmap`, `Compare` and the printed form.
use Prim.Native.String
use text.Mathlib.TextEquality.{path_by_compare}
use text.Mathlib.TextPositions.{compare_refl}
use cnidaria_cni.Base.{
  ℕ, zero, suc, ◌+◌, ◌/◌, ◌%◌, ◌^◌, Ordering, compare, String, ◌<>◌, ◌≡◌, refl, ◌↔◌, Bool, true,
  false, ◌&&◌, ◌||◌, not, List, [], ◌∷◌, arith, if◌then◌else◌, ltb, leb, Eq, ◌==◌, nat_eq,
  string_eq, le_by, IsLinear, compare-IsLinear, then_by, itoa, hex, join,
}

-- The zero `Addr`, an IPv4 address below 2^32, an IPv6 address below 2^128 with its zone.
pub data Addr : Type 0 where
  no_addr : Addr
  v4 : ℕ → Addr
  v6 : ℕ → String → Addr

abbrev pub is4 : Addr → Bool
is4 (v4 n) = true
is4 _ = false

abbrev pub is6 : Addr → Bool
is6 (v6 n zone) = true
is6 _ = false

abbrev pub is_valid : Addr → Bool
is_valid no_addr = false
is_valid _ = true

-- The high 80 bits are zero and the next 16 are ones.
abbrev pub is4_in6 : Addr → Bool
is4_in6 (v6 n zone) = n / 2 ^ 32 == 0xffff
is4_in6 _ = false

abbrev pub unmap : Addr → Addr
unmap (v6 n zone) = if n / 2 ^ 32 == 0xffff then v4 (n % 2 ^ 32) else v6 n zone
unmap a = a

-- `Addr.IsGlobalUnicast`: neither unspecified, nor the broadcast address, loopback, multicast or
-- link-local. An IPv6 address is not unmapped first, which its callers rule out.
unfoldable pub is_global_unicast : Addr → Bool
is_global_unicast no_addr = false
is_global_unicast (v4 n) =
    not (n == 0)
    && not (n == 0xffffffff)
    && not (n / 2 ^ 24 == 127)
    && not (n / 2 ^ 28 == 0xe)
    && not (n / 2 ^ 16 == 0xa9fe)
is_global_unicast (v6 n zone) =
    not (n == 0 && zone == "")
    && not (n == 1)
    && not (n / 2 ^ 120 == 0xff)
    && not (n / 2 ^ 118 == 0x3fa)

abbrev pub bit_len : Addr → ℕ
bit_len no_addr = 0
bit_len (v4 n) = 32
bit_len (v6 n zone) = 128

abbrev pub value : Addr → ℕ
value no_addr = 0
value (v4 n) = n
value (v6 n zone) = n

abbrev pub zone_of : Addr → String
zone_of (v6 n zone) = zone
zone_of _ = ""

abbrev pub without_zone : Addr → Addr
without_zone (v6 n zone) = v6 n ""
without_zone a = a

abbrev pub addr_beq : Addr → Addr → Bool
addr_beq no_addr no_addr = true
addr_beq (v4 m) (v4 n) = m == n
addr_beq (v6 m zone) (v6 n zone') = m == n && zone == zone'
addr_beq _ _ = false

pub addr_beq_iff : (a b : Addr) → (addr_beq a b ≡ true) ↔ (a ≡ b)
addr_beq_iff no_addr no_addr = ground arith
addr_beq_iff (v4 m) (v4 n) = ground arith
addr_beq_iff (v6 m zone) (v6 n zone') = ground (arith, string_eq.beq_iff zone zone')
addr_beq_iff no_addr (v4 n) = ground arith
addr_beq_iff no_addr (v6 n z) = ground arith
addr_beq_iff (v4 m) no_addr = ground arith
addr_beq_iff (v4 m) (v6 n z) = ground arith
addr_beq_iff (v6 m z) no_addr = ground arith
addr_beq_iff (v6 m z) (v4 n) = ground arith

instance abbrev pub addr_eq : Eq Addr
addr_eq = record { beq = addr_beq; beq_iff = addr_beq_iff }

-- `Addr.Compare`: by bit length, then by value, then by zone.
unfoldable pub addr_compare : Addr → Addr → Ordering
addr_compare a b =
    then_by (compare (bit_len a) (bit_len b))
      (then_by (compare (value a) (value b)) (String.compare (zone_of a) (zone_of b)))

addr_of_parts :
    (a b : Addr) → bit_len a ≡ bit_len b → value a ≡ value b → zone_of a ≡ zone_of b → a ≡ b
addr_of_parts no_addr no_addr p q r = refl
addr_of_parts (v4 m) (v4 n) p q r = cc
addr_of_parts (v6 m z) (v6 n w) p q r = cc
addr_of_parts no_addr (v4 n) p q r = absurd (omega arith)
addr_of_parts no_addr (v6 n z) p q r = absurd (omega arith)
addr_of_parts (v4 m) no_addr p q r = absurd (omega arith)
addr_of_parts (v4 m) (v6 n z) p q r = absurd (omega arith)
addr_of_parts (v6 m z) no_addr p q r = absurd (omega arith)
addr_of_parts (v6 m z) (v4 n) p q r = absurd (omega arith)

-- Comparing two numbers and a text in turn, the shape of `addr_compare`.
module _ (m n : ℕ) (s : String) (m' n' : ℕ) (s' : String) where
  abbrev triple_compare : Ordering
  triple_compare = then_by (compare m m') (then_by (compare n n') (String.compare s s'))

triple-total :
    (m n : ℕ) (s : String) (m' n' : ℕ) (s' : String)
    → le_by {A = Unit {0}} (λ _ _. triple_compare m n s m' n' s') tt tt ≡ false
    → le_by {A = Unit {0}} (λ _ _. triple_compare m' n' s' m n s) tt tt ≡ true
triple-total m n s m' n' s' h = ground (arith, compare-IsLinear.order.total s s')

triple_trans :
    (m n : ℕ) (s : String) (m' n' : ℕ) (s' : String) (k l : ℕ) (t : String)
    → le_by {A = Unit {0}} (λ _ _. triple_compare m n s m' n' s') tt tt ≡ true
    → le_by {A = Unit {0}} (λ _ _. triple_compare m' n' s' k l t) tt tt ≡ true
    → le_by {A = Unit {0}} (λ _ _. triple_compare m n s k l t) tt tt ≡ true
triple_trans m n s m' n' s' k l t p q = ground (arith, compare-IsLinear.order.trans s s' t)

triple_antisymm :
    (m n : ℕ) (s : String) (m' n' : ℕ) (s' : String)
    → le_by {A = Unit {0}} (λ _ _. triple_compare m n s m' n' s') tt tt ≡ true
    → le_by {A = Unit {0}} (λ _ _. triple_compare m' n' s' m n s) tt tt ≡ true
    → (m ≡ m') × (n ≡ n') × (s ≡ s')
triple_antisymm m n s m' n' s' p q = ground (arith, compare-IsLinear.antisymm s s')

-- `Addr.Compare` is a linear order on addresses.
pub addr_compare-IsLinear : IsLinear addr_compare
unfolding addr_compare
addr_compare-IsLinear = record {
  order = record {
    total =
        λ a b h. triple-total (bit_len a) (value a) (zone_of a) (bit_len b) (value b) (zone_of b) h;
    trans = λ a b c p q.
        triple_trans (bit_len a) (value a) (zone_of a) (bit_len b) (value b) (zone_of b) (bit_len c)
          (value c) (zone_of c) p q;
  };
  antisymm = λ a b p q.
      let (x, y, z) =
        triple_antisymm (bit_len a) (value a) (zone_of a) (bit_len b) (value b) (zone_of b) p q in
      addr_of_parts a b x y z;
}

pub addr_compare_self : (a : Addr) → addr_compare a a ≡ Ordering.eq
unfolding addr_compare
addr_compare_self a = ground (arith, compare_refl (zone_of a))

pub addr_compare-eq : (a b : Addr) → addr_compare a b ≡ Ordering.eq → a ≡ b
unfolding addr_compare
addr_compare-eq a b h =
    addr_of_parts a b (ground arith) (ground arith)
      (ground (arith, path_by_compare (zone_of a) (zone_of b)))

-- Dotted decimal.
dotted : ℕ → String
dotted n =
    join
      (itoa (n / 2 ^ 24) ∷ itoa (n / 2 ^ 16 % 256) ∷ itoa (n / 2 ^ 8 % 256) ∷ itoa (n % 256) ∷ [])
      "."

-- The eight 16-bit groups, the highest first.
groups_from : ℕ → ℕ → List ℕ → List ℕ
groups_from zero n acc = acc
groups_from (suc k) n acc = groups_from k (n / 2 ^ 16) (n % 2 ^ 16 ∷ acc)

-- How many zeros a list begins with.
zeros : List ℕ → ℕ
zeros [] = 0
zeros (g ∷ gs) = let more = suc (zeros gs) in if g == 0 then more else 0

-- Where the longest run of at least two zeros begins and how long it is; the first of equals.
longest_run : ℕ → List ℕ → ℕ × ℕ → ℕ × ℕ
longest_run i [] best = best
longest_run i (g ∷ gs) best =
    longest_run (i + 1) gs
      (if ltb 1 (zeros (g ∷ gs)) && ltb best.1 (zeros (g ∷ gs)) then (i, zeros (g ∷ gs)) else best)

groups_text : ℕ → ℕ × ℕ → List ℕ → String
groups_text i run [] = ""
groups_text i run (g ∷ gs) =
    let rest = groups_text (i + 1) run gs in
    if not (run.1 == 0) && i == run.0
    then "::" <> rest
    else if not (run.1 == 0) && leb run.0 i && ltb i (run.0 + run.1)
    then rest
    else if i == 0 || (not (run.1 == 0) && i == run.0 + run.1)
    then hex g <> rest
    else ":" <> (hex g <> rest)

zoned : String → String → String
zoned text zone = if zone == "" then text else text <> ("%" <> zone)

-- `Addr.String`
unfoldable pub addr_text : Addr → String
unfolding dotted groups_from zeros longest_run groups_text zoned itoa hex join
addr_text no_addr = "invalid IP"
addr_text (v4 n) = dotted n
addr_text (v6 n zone) =
    let groups = groups_from 8 n [] in
    let plain = groups_text 0 (longest_run 0 groups (0, 0)) groups in
    zoned (if n / 2 ^ 32 == 0xffff then "::ffff:" <> dotted (n % 2 ^ 32) else plain) zone

addr_texts :
    (addr_text (v4 0x0af40102) ≡ "10.244.1.2")
    × (addr_text (v6 0xfd000000000000000000000000000102 "") ≡ "fd00::102")
    × (addr_text (v6 1 "eth0") ≡ "::1%eth0")
    × (addr_text (v6 0x20010db8000000010000000000000000 "") ≡ "2001:db8:0:1::")
    × (addr_text (v6 0 "") ≡ "::")
unfolding addr_text
addr_texts = (refl, refl, refl, refl, refl)
