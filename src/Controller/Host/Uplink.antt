-- ===== src/Controller/Host/Uplink.antt =====
-- Which interface the MTU of the uplink is read from.
use cnidaria_cni.Base.{
  ℕ, String, ◌≡◌, refl, sym, ◌∙◌, true, Option, Option-cases, none, some, List, ◌∷◌, ◌++◌, arith,
  ◌==◌, inl, inr, Result, ok, err, ok_inj, find_first, All, All-imp, Memᴰ, any_of_member,
  member_of_any, find_first-splits,
}
use cnidaria_cni.Netip.Addr.{Addr, addr_eq, unmap}
use cnidaria_cni.Controller.Host.{Interface, is_one_of, has_one_of, uplink_mtu}

-- An interface that holds one of the addresses, or one that is the same unmapped.
pub record IsHolder (addrs : List Addr) (i : Interface) : Type 0 where
  pub listed : List (Option Addr)
  pub known : i.addrs ≡ some listed
  pub held : Addr
  pub here : Memᴰ (some held) listed
  pub wanted : Addr
  pub among : Memᴰ wanted addrs
  pub same : unmap held ≡ unmap wanted

-- The MTU is that of the first interface that holds one of the addresses.
pub record IsUplink (addrs : List Addr) (interfaces : List Interface) (mtu : ℕ) : Type 0 where
  pub before : List Interface
  pub uplink : Interface
  pub after : List Interface
  pub split : interfaces ≡ before ++ (uplink ∷ after)
  pub none_before : All (λ i. ¬ IsHolder addrs i) before
  pub holds : IsHolder addrs uplink
  pub read : uplink.mtu ≡ mtu

is_one_of-member :
    (addrs : List Addr) (a : Option Addr)
    → is_one_of addrs a ≡ true
    → (held wanted : Addr) × (a ≡ some held) × Memᴰ wanted addrs × (unmap held ≡ unmap wanted)
unfolding is_one_of
is_one_of-member addrs none h = absurd (ground arith)
is_one_of-member addrs (some held) h =
    let (wanted, among, same) = member_of_any (λ b. unmap held == unmap b) addrs h in
    (held, wanted, refl, among, (addr_eq.beq_iff (unmap held) (unmap wanted)).0 same)

has_one_of-IsHolder :
    (addrs : List Addr) (i : Interface) → has_one_of addrs i ≡ true → IsHolder addrs i
unfolding has_one_of
has_one_of-IsHolder addrs i h = elim (Option-cases i.addrs) [
  | inl unknown ↦ absurd (let no = rw unknown at h in ground arith)
  | inr (listed, known) ↦
      let (a, here, passes) = member_of_any (is_one_of addrs) listed (rw known at h) in
      let (held, wanted, is_held, among, same) = is_one_of-member addrs a passes in
      record {
        listed = listed;
        known = known;
        held = held;
        here = rw is_held at here;
        wanted = wanted;
        among = among;
        same = same;
      }
]

IsHolder-has_one_of :
    (addrs : List Addr) (i : Interface) → IsHolder addrs i → has_one_of addrs i ≡ true
unfolding has_one_of is_one_of
IsHolder-has_one_of addrs i h = rw h.known (
    any_of_member (is_one_of addrs) h.listed h.here (
      any_of_member (λ b. unmap h.held == unmap b) addrs h.among
        ((addr_eq.beq_iff (unmap h.held) (unmap h.wanted)).1 h.same)))

pub uplink_mtu-IsUplink :
    (addrs : List Addr) (interfaces : Result String (List Interface)) {mtu : ℕ}
    → uplink_mtu addrs interfaces ≡ ok mtu
    → (listed : List Interface) × (interfaces ≡ ok listed) × IsUplink addrs listed mtu
unfolding uplink_mtu
uplink_mtu-IsUplink addrs (err e) h = absurd (ground arith)
uplink_mtu-IsUplink addrs (ok interfaces) {mtu} h =
    elim (Option-cases (find_first (has_one_of addrs) interfaces)) [
      | inl nowhere ↦ absurd (let no = rw nowhere at h in ground arith)
      | inr (i, found) ↦
          let (before, after, split, none_before, passes) =
            find_first-splits (has_one_of addrs) interfaces found in
          (
            interfaces,
            refl,
            record {
              before = before;
              uplink = i;
              after = after;
              split = split;
              none_before =
                  All-imp (λ i. ¬ IsHolder addrs i)
                    (λ i fails holds.
                      let no = sym fails ∙ IsHolder-has_one_of addrs i holds in ground arith)
                    before none_before;
              holds = has_one_of-IsHolder addrs i passes;
              read = ok_inj (rw found at h);
            },
          )
    ]
