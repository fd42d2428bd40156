-- ===== src/Nftables/Families/Order.antt =====
-- The elements of the CIDR sets depend on the prefixes alone.
use cnidaria_cni.Base.{
  ℕ, ◌≡◌, sym, ◌∙◌, Bool, true, false, List, map, arith, contains, contains-sort_func,
  contains-compact, sort_func, sort_func-IsSorted, compact-IsAscending, IsAscending,
  IsAscending-unique, IsLinear, Ordering, le_by, compare, then_by,
}
use cnidaria_cni.Netip.Addr.{
  Addr, addr_eq, addr_compare, addr_compare-IsLinear, addr_compare-eq, addr_compare_self,
}
use cnidaria_cni.Netip.Prefix.{Prefix, prefix_eq, masked}
use cnidaria_cni.Nftables.Families.{by_addr_then_bits, sorted_prefixes, split_families}

-- Comparing by an address and then by a number.
abbrev pair_compare : Addr → ℕ → Addr → ℕ → Ordering
pair_compare a m b n = then_by (addr_compare a b) (compare m n)

abbrev pair_le : Addr → ℕ → Addr → ℕ → Bool
pair_le a m b n = le_by {A = Unit {0}} (λ _ _. pair_compare a m b n) tt tt

pair_le-total :
    (a : Addr) (m : ℕ) (b : Addr) (n : ℕ) → pair_le a m b n ≡ false → pair_le b n a m ≡ true
pair_le-total a m b n h = ground (
  arith,
  addr_compare-eq a b,
  addr_compare-eq b a,
  addr_compare_self a,
  addr_compare_self b,
  addr_compare-IsLinear.order.total a b,
)

pair_le_trans :
    (a : Addr) (l : ℕ) (b : Addr) (m : ℕ) (c : Addr) (n : ℕ)
    → pair_le a l b m ≡ true
    → pair_le b m c n ≡ true
    → pair_le a l c n ≡ true
pair_le_trans a l b m c n p q = ground (
  arith,
  addr_compare-eq a b,
  addr_compare-eq b c,
  addr_compare-eq a c,
  addr_compare_self a,
  addr_compare-IsLinear.order.trans a b c,
  addr_compare-IsLinear.antisymm a b,
)

pair_le_antisymm :
    (a : Addr) (m : ℕ) (b : Addr) (n : ℕ)
    → pair_le a m b n ≡ true
    → pair_le b n a m ≡ true
    → (a ≡ b) × (m ≡ n)
pair_le_antisymm a m b n p q =
    ground (arith, addr_compare-eq a b, addr_compare_self a, addr_compare-IsLinear.antisymm a b)

by_addr_then_bits-IsLinear : IsLinear by_addr_then_bits
unfolding by_addr_then_bits
by_addr_then_bits-IsLinear = record {
  order = record {
    total = λ a b h. pair_le-total a.addr a.bits_plus_one b.addr b.bits_plus_one h;
    trans = λ a b c p q.
        pair_le_trans a.addr a.bits_plus_one b.addr b.bits_plus_one c.addr c.bits_plus_one p q;
  };
  antisymm = λ a b p q.
      let (same, bits) = pair_le_antisymm a.addr a.bits_plus_one b.addr b.bits_plus_one p q in cc;
}

sorted_prefixes-IsAscending :
    (xs : List Prefix) → IsAscending by_addr_then_bits (sorted_prefixes xs)
unfolding sorted_prefixes
sorted_prefixes-IsAscending xs =
    compact-IsAscending by_addr_then_bits-IsLinear _
      (sort_func-IsSorted by_addr_then_bits-IsLinear.order (map masked xs))

contains-sorted_prefixes :
    (xs : List Prefix) (p : Prefix) → contains (sorted_prefixes xs) p ≡ contains (map masked xs) p
unfolding sorted_prefixes
contains-sorted_prefixes xs p =
    contains-compact (sort_func by_addr_then_bits (map masked xs)) p
    ∙ contains-sort_func by_addr_then_bits (map masked xs) p

-- Two lists of CIDRs that hold the same masked prefixes, in whatever order and however often, give
-- the same elements of the IPv4 set and of the IPv6 set.
pub split_families_of_same :
    (xs ys : List Prefix)
    → ((p : Prefix) → contains (map masked xs) p ≡ contains (map masked ys) p)
    → split_families xs ≡ split_families ys
unfolding split_families
split_families_of_same xs ys h =
    let same : sorted_prefixes xs ≡ sorted_prefixes ys =
      IsAscending-unique by_addr_then_bits-IsLinear _ _ (sorted_prefixes-IsAscending xs)
        (sorted_prefixes-IsAscending ys)
        (λ p. contains-sorted_prefixes xs p ∙ h p ∙ sym (contains-sorted_prefixes ys p)) in
    rw same
