-- ===== src/Routes/Lowest.antt =====
-- Which address `pickGlobalIPv6` picks.
use mathlib.Core.Path.{subst}
use mathlib.Core.List.{Memᴰ}
use cnidaria_cni.Base.{
  ◌≡◌, refl, true, false, ◌||◌, not, Option-cases, none, some, List, [], ◌∷◌, ◌⊎◌, arith,
  Bool-cases, inl, inr, All, le_by, le_by_self, IsOrder, if◌then◌else◌, Option,
}
use cnidaria_cni.Netip.Addr.{
  Addr, v4, v6, no_addr, is_valid, is6, is4_in6, addr_compare, addr_compare-IsLinear,
}
use cnidaria_cni.Routes.{HeldAddr, pickable, pick_from, pick_global_ipv6}

-- Not above any address that may be picked.
abbrev pub IsLowest : Addr → List HeldAddr → Type 0
IsLowest a hs = All (λ h. (b : Addr) → pickable h ≡ some b → le_by addr_compare a b ≡ true) hs

abbrev pub NonePickable : List HeldAddr → Type 0
NonePickable hs = All (λ h. pickable h ≡ none) hs

-- What `pickGlobalIPv6` promises of its result.
abbrev pub Picked : List HeldAddr → Option Addr → Type 0
Picked addrs none = NonePickable addrs
Picked addrs (some a) = IsLowest a addrs × ((h : HeldAddr) × Memᴰ h addrs × (pickable h ≡ some a))

record Picks (best : Addr) (hs : List HeldAddr) (r : Addr) : Type 0 where
  below : is_valid best ≡ true → le_by addr_compare r best ≡ true
  lowest : IsLowest r hs
  stays : is_valid best ≡ true → is_valid r ≡ true
  unpicked : is_valid r ≡ false → NonePickable hs
  from : (r ≡ best) ⊎ ((h : HeldAddr) × Memᴰ h hs × (pickable h ≡ some r))

pickable_missing : (h : HeldAddr) → h.ip ≡ none → pickable h ≡ none
unfolding pickable
pickable_missing h e = rw (e, pickable) refl

pickable_held :
    (h : HeldAddr) {ip : Addr}
    → h.ip ≡ some ip
    → pickable h ≡ (
        if not (is6 ip) || is4_in6 ip || not h.is_universe || h.has_unusable_flag
        then none
        else some ip)
unfolding pickable
pickable_held h e = rw (e, pickable) refl

held-differs :
    (h : HeldAddr) (ip : Addr) → h.ip ≡ some ip → pickable h ≡ some no_addr → false ≡ true
held-differs h no_addr held e = (let guarded = pickable_held h held in ground arith)
held-differs h (v4 n) held e = (let guarded = pickable_held h held in ground arith)
held-differs h (v6 n zone) held e = (let guarded = pickable_held h held in ground arith)

pickable-valid : (h : HeldAddr) (a : Addr) → pickable h ≡ some a → is_valid a ≡ true
pickable-valid h no_addr e = elim (Option-cases h.ip) [
  | inl missing ↦ (let away = pickable_missing h missing in ground arith)
  | inr (ip, held) ↦ held-differs h ip held e
]
pickable-valid h (v4 n) e = refl
pickable-valid h (v6 n zone) e = refl

order : IsOrder addr_compare
order = addr_compare-IsLinear.order

skip :
    (best : Addr) (h : HeldAddr) (hs : List HeldAddr)
    → pickable h ≡ none
    → pick_from best (h ∷ hs) ≡ pick_from best hs
unfolding pick_from
skip best h hs e = rw (e, pick_from) refl

take_one :
    (best : Addr) (h : HeldAddr) (hs : List HeldAddr) {ip : Addr}
    → pickable h ≡ some ip
    → pick_from best (h ∷ hs)
      ≡ pick_from (if not (is_valid best) || not (le_by addr_compare best ip) then ip else best) hs
unfolding pick_from
take_one best h hs e = rw (e, pick_from) refl

skip-Picks :
    (best : Addr) (h : HeldAddr) (hs : List HeldAddr)
    → pickable h ≡ none
    → Picks best hs (pick_from best hs)
    → Picks best (h ∷ hs) (pick_from best hs)
skip-Picks best h hs e p = record {
  below = p.below;
  lowest = ((λ b picked. (ground arith)), p.lowest);
  stays = p.stays;
  unpicked = λ v. (e, p.unpicked v);
  from = elim p.from [ inl same ↦ inl same | inr (g, m, picked) ↦ inr (g, Memᴰ.tail m, picked) ];
}

replace-Picks :
    (best ip : Addr) (h : HeldAddr) (hs : List HeldAddr)
    → pickable h ≡ some ip
    → (is_valid best ≡ true → le_by addr_compare ip best ≡ true)
    → Picks ip hs (pick_from ip hs)
    → Picks best (h ∷ hs) (pick_from ip hs)
replace-Picks best ip h hs e lower p =
    let valid = pickable-valid h ip e in
    let under = p.below valid in
    record {
      below = λ v. order.trans _ ip best under (lower v);
      lowest = (
        (λ b picked.
            subst (λ i. le_by addr_compare (pick_from ip hs) i ≡ true) (ground arith) under),
        p.lowest,
      );
      stays = λ v. p.stays valid;
      unpicked = λ v. (let stays = p.stays valid in absurd (ground arith));
      from = elim p.from [
        | inl same ↦ inr (h, Memᴰ.head refl, (ground arith))
        | inr (g, m, picked) ↦ inr (g, Memᴰ.tail m, picked)
      ];
    }

keep-Picks :
    (best ip : Addr) (h : HeldAddr) (hs : List HeldAddr)
    → pickable h ≡ some ip
    → is_valid best ≡ true
    → le_by addr_compare best ip ≡ true
    → Picks best hs (pick_from best hs)
    → Picks best (h ∷ hs) (pick_from best hs)
keep-Picks best ip h hs e valid lower p = record {
  below = p.below;
  lowest = (
    (λ b picked.
        order.trans _ best b (p.below valid)
          (subst (λ i. le_by addr_compare best i ≡ true) (ground arith) lower)),
    p.lowest,
  );
  stays = p.stays;
  unpicked = λ v. (let stays = p.stays valid in absurd (ground arith));
  from = elim p.from [ inl same ↦ inl same | inr (g, m, picked) ↦ inr (g, Memᴰ.tail m, picked) ];
}

take-Picks :
    (best ip : Addr) (h : HeldAddr) (hs : List HeldAddr)
    → pickable h ≡ some ip
    → Picks ip hs (pick_from ip hs)
    → Picks best hs (pick_from best hs)
    → Picks best (h ∷ hs) (
        pick_from (if not (is_valid best) || not (le_by addr_compare best ip) then ip else best) hs)
take-Picks best ip h hs e p q = elim (Bool-cases (is_valid best)) [
  | inr invalid ↦ rw invalid (replace-Picks best ip h hs e (λ v. ground arith) p)
  | inl valid ↦ elim (Bool-cases (le_by addr_compare best ip)) [
    | inl lower ↦ rw (valid, lower) (keep-Picks best ip h hs e valid lower q)
    | inr above ↦
        rw (valid, above) (replace-Picks best ip h hs e (λ v. order.total best ip above) p)
  ]
]

pick_from-Picks : (best : Addr) (hs : List HeldAddr) → Picks best hs (pick_from best hs)
unfolding pick_from
pick_from-Picks best [] = record {
  below = λ v. le_by_self order best;
  lowest = tt;
  stays = λ v. v;
  unpicked = λ v. tt;
  from = inl refl;
}
pick_from-Picks best (h ∷ hs) = elim (Option-cases (pickable h)) [
  | inl e ↦ rw (skip best h hs e) (skip-Picks best h hs e (pick_from-Picks best hs))
  | inr (ip, e) ↦
      rw (take_one best h hs e)
        (take-Picks best ip h hs e (pick_from-Picks ip hs) (pick_from-Picks best hs))
]

none_picked :
    (addrs : List HeldAddr)
    → is_valid (pick_from no_addr addrs) ≡ false
    → pick_global_ipv6 addrs ≡ none
unfolding pick_global_ipv6
none_picked addrs e = rw (e, pick_global_ipv6) refl

some_picked :
    (addrs : List HeldAddr)
    → is_valid (pick_from no_addr addrs) ≡ true
    → pick_global_ipv6 addrs ≡ some (pick_from no_addr addrs)
unfolding pick_global_ipv6
some_picked addrs e = rw (e, pick_global_ipv6) refl

-- The address picked for a node is one that the kernel holds as a usable IPv6 address, and no other
-- usable one is below it; if none is picked, then none of the addresses is usable.
pub pick_global_ipv6-Picked : (addrs : List HeldAddr) → Picked addrs (pick_global_ipv6 addrs)
pick_global_ipv6-Picked addrs =
    let p = pick_from-Picks no_addr addrs in
    elim (Bool-cases (is_valid (pick_from no_addr addrs))) [
      | inl valid ↦ rw (some_picked addrs valid) (
        p.lowest,
        elim p.from [
          | inl same ↦ absurd (
              let bad : is_valid no_addr ≡ true = subst (λ i. is_valid i ≡ true) same valid in
              ground arith)
          | inr found ↦ found
        ],
      )
      | inr invalid ↦ rw (none_picked addrs invalid) (p.unpicked invalid)
    ]
