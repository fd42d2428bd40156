-- ===== src/Routes/OwnAddress.antt =====
-- internal/routes/kernel.go: `Kernel.GlobalIPv6`, over what netlink lists of addresses and links.
use cnidaria_cni.Base.{
  ℕ, String, ◌<>◌, Bool, false, Option, none, some, List, ◌==◌, find_first, Result, ok, ◌>>=◌,
  map_err,
}
use cnidaria_cni.Netip.Addr.{Addr, addr_eq, unmap, addr_text}
use cnidaria_cni.Routes.{HeldAddr, pick_global_ipv6}

-- An IPv4 address of an interface: the address, if it can be read, and the number of its link.
pub record LinkAddr : Type 0 where
  pub ip : Option Addr
  pub link_index : ℕ

-- What netlink reads on a state of the kernel: the IPv4 addresses, a link by its number, which is the
-- number of the link found, and the IPv6 addresses of a link.
pub record Addresses (K : Type 0) : Type 0 where
  pub list_v4 : K → Result String (List LinkAddr)
  pub link_by_index : ℕ → K → Result String ℕ
  pub list_v6 : ℕ → K → Result String (List HeldAddr)

abbrev holds : Addr → LinkAddr → Bool
holds on a = elim a.ip [ none ↦ false | some ip ↦ unmap ip == on ]

module _ {K : Type 0} (netlink : Addresses K) where
  -- The part of `GlobalIPv6` after the interface is found.
  unfoldable pub address_on : Addr → Option LinkAddr → K → Result String (Option Addr)
  unfolding pick_global_ipv6 addr_text
  address_on on none k = ok none
  address_on on (some a) k = do
    link ←
        map_err (λ e. "routes: link of " <> (addr_text on <> (": " <> e)))
          (netlink.link_by_index a.link_index k)
    v6 ← map_err (λ e. "routes: list addresses: " <> e) (netlink.list_v6 link k)
    ok (pick_global_ipv6 v6)

  -- `Kernel.GlobalIPv6`; `none` is the false that it reports.
  unfoldable pub global_ipv6 : Addr → K → Result String (Option Addr)
  unfolding address_on find_first
  global_ipv6 on k = do
    v4 ← map_err (λ e. "routes: list addresses: " <> e) (netlink.list_v4 k)
    address_on on (find_first (holds on) v4) k
