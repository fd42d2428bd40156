-- ===== src/Routes/Kernel.antt =====
-- internal/routes/kernel.go: the routes that the kernel holds, and `Kernel.Apply`.
use cnidaria_cni.Base.{
  String, ◌<>◌, Bool, true, not, Option, none, some, List, [], ◌∷◌, ◌++◌, if◌then◌else◌, ◌==◌,
  Result, ok, err, any,
}
use cnidaria_cni.Netip.Addr.{Addr, addr_eq}
use cnidaria_cni.Netip.Prefix.{Prefix, prefix_eq, masked, prefix_text}
use cnidaria_cni.Routes.{Route, route_text}

-- A route of the kernel as it is read: its destination by `prefixOf`, and its gateway, unmapped.
pub record HeldRoute : Type 0 where
  pub dst : Option Prefix
  pub gateway : Option Addr

-- netlink, over the state of the kernel: what it lists for the protocol, and the two writes, with
-- their failures.
pub record Netlink (K : Type 0) : Type 0 where
  pub list : K → Result String (List HeldRoute)
  pub replace : Prefix → Addr → K → Option String × K
  pub delete : HeldRoute → K → Option String × K

-- The map `held` of `Kernel.Apply`: the last route read for a destination is the one found.
unfoldable pub held : List HeldRoute → Prefix → Option Addr
held [] d = none
held (h ∷ rest) d =
    let later = held rest d in
    elim later [
      | some via ↦ some via
      | none ↦ elim h.dst [ none ↦ none | some p ↦ if p == d then h.gateway else none ]
    ]

-- Whether a route was not held with the same next hop.
unfoldable pub is_new : Option Addr → Route → Bool
is_new none r = true
is_new (some via) r = not (via == r.via)

-- The set `wanted` of `Kernel.Apply`.
abbrev pub is_wanted : List Route → Prefix → Bool
unfolding any
is_wanted want d = any (λ (r : Route). r.dst == d) want

unfoldable pub install_error : Route → String → String
unfolding route_text
install_error r e = "routes: install " <> (route_text r <> (": " <> e))

unfoldable pub remove_error : Prefix → String → String
unfolding prefix_text
remove_error d e = "routes: remove stale " <> (prefix_text d <> (": " <> e))

module _ {K : Type 0} (netlink : Netlink K) where
  -- The first loop of `Kernel.Apply`: the routes that went in and are new, and the failures.
  unfoldable pub install : List HeldRoute → List Route → K → List Route × List String × K
  unfolding is_new held install_error
  install existing [] k = ([], [], k)
  install existing (r ∷ rest) k =
      let (failure, k1) = netlink.replace (masked r.dst) r.via k in
      let (installed, errs, k2) = install existing rest k1 in
      elim failure [
        | some e ↦ (installed, install_error r e ∷ errs, k2)
        | none ↦ (if is_new (held existing r.dst) r then r ∷ installed else installed, errs, k2)
      ]

  -- The second loop: the failures.
  unfoldable pub remove : List Route → List HeldRoute → K → List String × K
  unfolding remove_error
  remove want [] k = ([], k)
  remove want (h ∷ rest) k =
      let kept = remove want rest k in
      let (failure, k1) = netlink.delete h k in
      let (errs, k2) = remove want rest k1 in
      elim h.dst [
        | none ↦ kept
        | some d ↦
            if is_wanted want d
            then kept
            else elim failure [ some e ↦ (remove_error d e ∷ errs, k2) | none ↦ (errs, k2) ]
      ]

  -- `Kernel.Apply`: the routes installed, the failures it joins, and the kernel after it.
  unfoldable pub apply : List Route → K → List Route × List String × K
  unfolding install remove
  apply want k = elim (netlink.list k) [
    | err e ↦ ([], ("routes: list: " <> e) ∷ [], k)
    | ok existing ↦
        let (installed, failed, k1) = install existing want k in
        let (stale, k2) = remove want existing k1 in (installed, failed ++ stale, k2)
  ]
