-- ===== src/Nftables/Families.antt =====
-- internal/nftables/render.go: the elements of the CIDR sets.
pub mod Order
use cnidaria_cni.Base.{
  String, not, List, map, nat_eq, Ordering, compare, then_by, sort_func, compact, select,
}
use cnidaria_cni.Netip.Addr.{is4, addr_compare}
use cnidaria_cni.Netip.Prefix.{Prefix, prefix_eq, masked, prefix_text}

-- The order `splitFamilies` sorts by.
unfoldable pub by_addr_then_bits : Prefix → Prefix → Ordering
by_addr_then_bits a b =
    then_by (addr_compare a.addr b.addr) (compare a.bits_plus_one b.bits_plus_one)

unfoldable pub sorted_prefixes : List Prefix → List Prefix
unfolding by_addr_then_bits masked compact sort_func
sorted_prefixes prefixes = compact (sort_func by_addr_then_bits (map masked prefixes))

-- `splitFamilies`
unfoldable pub split_families : List Prefix → List String × List String
unfolding sorted_prefixes prefix_text select
split_families prefixes = (
  map prefix_text (select (λ p. is4 p.addr) (sorted_prefixes prefixes)),
  map prefix_text (select (λ p. not (is4 p.addr)) (sorted_prefixes prefixes)),
)
