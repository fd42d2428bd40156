-- ===== src/Netip/Prefix.antt =====
-- `netip.Prefix`: validity, masking, order and the printed form.
use native.Mathlib.Nat.{mul-div_cancel}
use cnidaria_cni.Base.{
  false, ◌∙◌, ap, zero, suc, Bool-cases, inl, inr, ℕ, ◌+◌, ◌-◌, ◌*◌, ◌/◌, ◌^◌, Ordering, compare,
  String, ◌<>◌, ◌≡◌, refl, ◌↔◌, Bool, true, ◌&&◌, arith, if◌then◌else◌, leb, Eq, ◌==◌, nat_eq,
  then_by, itoa,
}
use cnidaria_cni.Netip.Addr.{
  Addr, no_addr, v4, v6, is_valid, bit_len, without_zone, addr_eq, addr_beq, addr_compare,
  addr_text,
}

-- The bit count is kept with one added, and is 0 in a prefix that is not valid.
pub record Prefix : Type 0 where
  pub addr : Addr
  pub bits_plus_one : ℕ

abbrev pub no_prefix : Prefix
no_prefix = record { addr = no_addr; bits_plus_one = 0 }

abbrev pub prefix_is_valid : Prefix → Bool
prefix_is_valid p = leb 1 p.bits_plus_one

abbrev pub prefix_beq : Prefix → Prefix → Bool
prefix_beq p q = addr_beq p.addr q.addr && p.bits_plus_one == q.bits_plus_one

pub prefix_beq_iff : (p q : Prefix) → (prefix_beq p q ≡ true) ↔ (p ≡ q)
prefix_beq_iff p q = ground (arith, addr_eq.beq_iff p.addr q.addr)

instance abbrev pub prefix_eq : Eq Prefix
prefix_eq = record { beq = prefix_beq; beq_iff = prefix_beq_iff }

-- `netip.PrefixFrom` on a bit count that is not negative.
unfoldable pub prefix_from : Addr → ℕ → Prefix
prefix_from a bits = record {
  addr = without_zone a;
  bits_plus_one = if is_valid a && leb bits (bit_len a) then bits + 1 else 0;
}

-- The value with the low `width - bits` bits cleared.
abbrev clear_low : ℕ → ℕ → ℕ → ℕ
clear_low n width bits = n / 2 ^ (width - bits) * 2 ^ (width - bits)

masked_to : Addr → ℕ → Prefix
masked_to no_addr bits = no_prefix
masked_to (v4 n) bits =
    if leb bits 32
    then record { addr = v4 (clear_low n 32 bits); bits_plus_one = bits + 1 }
    else no_prefix
masked_to (v6 n zone) bits =
    if leb bits 128
    then record { addr = v6 (clear_low n 128 bits) ""; bits_plus_one = bits + 1 }
    else no_prefix

-- `Prefix.Masked`
unfoldable pub masked : Prefix → Prefix
unfolding masked_to
masked p = if p.bits_plus_one == 0 then no_prefix else masked_to p.addr (p.bits_plus_one - 1)

-- `Prefix.Compare`: by masked address, then by bit count, then by address.
unfoldable pub prefix_compare : Prefix → Prefix → Ordering
unfolding masked addr_compare
prefix_compare p q =
    then_by (addr_compare (masked p).addr (masked q).addr)
      (then_by (compare p.bits_plus_one q.bits_plus_one) (addr_compare p.addr q.addr))

-- `Prefix.String`
unfoldable pub prefix_text : Prefix → String
unfolding addr_text
prefix_text p =
    if p.bits_plus_one == 0
    then "invalid Prefix"
    else addr_text p.addr <> ("/" <> itoa (p.bits_plus_one - 1))

prefix_texts :
    (prefix_text (masked (prefix_from (v4 0x0af401ff) 24)) ≡ "10.244.1.0/24")
    × (masked (prefix_from (v4 0x0af401ff) 33) ≡ no_prefix)
unfolding prefix_text masked prefix_from
prefix_texts = (refl, refl)

cleared_again : (n w : ℕ) → n / w * w / w * w ≡ n / w * w
cleared_again n zero = omega arith
cleared_again n (suc w) = ap (λ m. m * suc w) (mul-div_cancel (n / suc w) {n = suc w} (omega arith))

masked_none : masked no_prefix ≡ no_prefix
unfolding masked
masked_none = refl

masked_lem :
    (a : Addr) (bits : ℕ)
    → masked (record { addr = a; bits_plus_one = bits + 1 }) ≡ masked_to a bits
unfolding masked
masked_lem a bits =
    let nonzero : (bits + 1 == 0) ≡ false = ground arith in
    let back : bits + 1 - 1 ≡ bits = omega arith in rw (nonzero, back) refl

cleared_v4 :
    (n bits : ℕ)
    → leb bits 32 ≡ true
    → masked_to (v4 (clear_low n 32 bits)) bits
      ≡ record { addr = v4 (clear_low n 32 bits); bits_plus_one = bits + 1 }
unfolding masked_to
cleared_v4 n bits fits = rw (fits, cleared_again n (2 ^ (32 - bits))) refl

cleared_v6 :
    (n bits : ℕ)
    → leb bits 128 ≡ true
    → masked_to (v6 (clear_low n 128 bits) "") bits
      ≡ record { addr = v6 (clear_low n 128 bits) ""; bits_plus_one = bits + 1 }
unfolding masked_to
cleared_v6 n bits fits = rw (fits, cleared_again n (2 ^ (128 - bits))) refl

masked_to-again : (a : Addr) (bits : ℕ) → masked (masked_to a bits) ≡ masked_to a bits
unfolding masked_to
masked_to-again no_addr bits = masked_none
masked_to-again (v4 n) bits = elim (Bool-cases (leb bits 32)) [
  | inl fits ↦ rw fits (masked_lem (v4 (clear_low n 32 bits)) bits ∙ cleared_v4 n bits fits)
  | inr over ↦ rw over masked_none
]
masked_to-again (v6 n zone) bits = elim (Bool-cases (leb bits 128)) [
  | inl fits ↦ rw fits (masked_lem (v6 (clear_low n 128 bits) "") bits ∙ cleared_v6 n bits fits)
  | inr over ↦ rw over masked_none
]

-- Masking twice is masking once.
pub masked_again : (p : Prefix) → masked (masked p) ≡ masked p
unfolding masked
masked_again p = elim (Bool-cases (p.bits_plus_one == 0)) [
  | inl invalid ↦ rw invalid masked_none
  | inr valid ↦ rw valid (masked_to-again p.addr (p.bits_plus_one - 1))
]
