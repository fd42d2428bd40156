-- ===== src/Routes/Converging.antt =====
-- What the kernel holds after `Kernel.Apply`.
pub mod Steps
use mathlib.Core.Path.{subst}
use cnidaria_cni.Base.{
  Result-cases, ◌<>◌, ◌≡◌, refl, sym, ap, ◌∙◌, Bool, true, false, Option, Option-cases, none, some,
  List, [], ◌∷◌, ◌++◌, if◌then◌else◌, ◌==◌, ok, any, All, arith, Bool-cases, inl, inr,
}
use cnidaria_cni.Netip.Addr.{Addr}
use cnidaria_cni.Netip.Prefix.{Prefix, prefix_eq, masked}
use cnidaria_cni.Routes.{Route}
use cnidaria_cni.Routes.Kernel.{HeldRoute, Netlink, install, remove, apply, is_wanted}
use cnidaria_cni.Routes.Converging.Steps.{
  no_failure, install_failed, install_went, remove_nothing, remove_nowhere, remove_kept,
  remove_gone, remove_failed, apply_listed, apply_unlisted,
}

-- Whether a route read from the kernel is one to a destination.
abbrev pub leads_to : Prefix → HeldRoute → Bool
leads_to d h = elim h.dst [ none ↦ false | some p ↦ p == d ]

-- The next hop for a destination: that of the last wanted route to it, or the other one.
abbrev pub wanted_via : List Route → Prefix → Option Addr → Option Addr
wanted_via [] d other = other
wanted_via (r ∷ rest) d other = wanted_via rest d (if r.dst == d then some r.via else other)

-- How the kernel's table answers netlink, with `via` the gateway it holds for a destination among the
-- routes of the protocol, of which it has one for a destination.
pub record IsRoutingTable {K : Type 0} (netlink : Netlink K) (via : K → Prefix → Option Addr)
    : Type 0 where
  pub listed :
      (k : K) {hs : List HeldRoute}
      → netlink.list k ≡ ok hs
      → (d : Prefix) → any (leads_to d) hs ≡ false
      → via k d ≡ none
  pub replaced :
      (p : Prefix) (a : Addr) (k : K)
      → (netlink.replace p a k).0 ≡ none
      → (d : Prefix) → via (netlink.replace p a k).1 d ≡ (if p == d then some a else via k d)
  pub deleted :
      (h : HeldRoute) (p : Prefix) (k : K)
      → h.dst ≡ some p
      → (netlink.delete h k).0 ≡ none
      → (d : Prefix) → via (netlink.delete h k).1 d ≡ (if p == d then none else via k d)

wanted_via_wanted :
    (want : List Route) (d : Prefix) (a b : Option Addr)
    → is_wanted want d ≡ true
    → wanted_via want d a ≡ wanted_via want d b
unfolding any
wanted_via_wanted [] d a b h = absurd (ground arith)
wanted_via_wanted (r ∷ rest) d a b h = elim (Bool-cases (r.dst == d)) [
  | inl same ↦ rw same refl
  | inr other ↦ rw other (wanted_via_wanted rest d a b (ground arith))
]

wanted_via_unwanted :
    (want : List Route) (d : Prefix) (a : Option Addr)
    → is_wanted want d ≡ false
    → wanted_via want d a ≡ a
unfolding any
wanted_via_unwanted [] d a h = refl
wanted_via_unwanted (r ∷ rest) d a h = elim (Bool-cases (r.dst == d)) [
  | inl same ↦ absurd (ground arith)
  | inr other ↦ rw other (wanted_via_unwanted rest d a (ground arith))
]

wanted_same :
    (want : List Route) (p d : Prefix) → (p == d) ≡ true → is_wanted want p ≡ is_wanted want d
wanted_same want p d same = ap (λ i. is_wanted want i) ((prefix_eq.beq_iff p d).0 same)

leads_to-some : (d p : Prefix) (x : HeldRoute) → x.dst ≡ some p → leads_to d x ≡ (p == d)
leads_to-some d p x to = rw to refl

leads_to-none : (d : Prefix) (x : HeldRoute) → x.dst ≡ none → leads_to d x ≡ false
leads_to-none d x nowhere = rw nowhere refl

module _ {K : Type 0} (netlink : Netlink K) (via : K → Prefix → Option Addr)
    (table : IsRoutingTable netlink via) where
  install-via :
      (hs : List HeldRoute) (want : List Route) (k : K)
      → All (λ (r : Route). masked r.dst ≡ r.dst) want
      → (install netlink hs want k).1 ≡ []
      → (d : Prefix) → via (install netlink hs want k).2 d ≡ wanted_via want d (via k d)
  unfolding install
  install-via hs [] k ms h d = refl
  install-via hs (r ∷ rest) k (m, ms) h d =
      elim (Option-cases (netlink.replace (masked r.dst) r.via k).0) [
        | inr (e, failed) ↦
            absurd (let no = sym (install_failed netlink hs r rest k failed) ∙ h in ground arith)
        | inl went ↦
            let (errs, after) = install_went netlink hs r rest k went in
            let k1 = (netlink.replace (masked r.dst) r.via k).1 in
            let ih = install-via hs rest k1 ms (sym errs ∙ h) d in
            let step = table.replaced (masked r.dst) r.via k went d in rw (after, ih, step, m) refl
      ]

  remove-via :
      (want : List Route) (hs : List HeldRoute) (k : K)
      → (remove netlink want hs k).0 ≡ []
      → (d : Prefix)
      → via (remove netlink want hs k).1 d
        ≡ (if is_wanted want d then via k d else if any (leads_to d) hs then none else via k d)
  unfolding any
  remove-via want [] k h d = elim (Bool-cases (is_wanted want d)) [
    | inl w ↦ rw (remove_nothing netlink want k, w) refl
    | inr w ↦ rw (remove_nothing netlink want k, w) refl
  ]
  remove-via want (x ∷ hs) k h d = elim (Option-cases x.dst) [
    | inl nowhere ↦
        let same = remove_nowhere netlink want x hs k nowhere in
        rw (same, leads_to-none d x nowhere) (remove-via want hs k (rw same at h) d)
    | inr (p, to) ↦ elim (Bool-cases (is_wanted want p)) [
      | inl kept ↦
          let same = remove_kept netlink want x hs k to kept in
          let ih = remove-via want hs k (rw same at h) d in
          let there = wanted_same want p d in
          rw (same, leads_to-some d p x to)
            (elim (Bool-cases (p == d)) [
              | inl this ↦ (let w = sym (there this) ∙ kept in rw (ih, w) refl)
              | inr other ↦ rw other ih
            ])
      | inr stale ↦ elim (Option-cases (netlink.delete x k).0) [
        | inl gone ↦
            let same = remove_gone netlink want x hs k to stale gone in
            let ih = remove-via want hs (netlink.delete x k).1 (rw same at h) d in
            let step = table.deleted x p k to gone d in
            let there = wanted_same want p d in
            rw (same, leads_to-some d p x to)
              (elim (Bool-cases (p == d)) [
                | inl this ↦
                    let w = sym (there this) ∙ stale in
                    elim (Bool-cases (any (leads_to d) hs)) [
                      | inl more ↦ rw (ih, w, this, more) refl
                      | inr last ↦ rw (ih, w, step, this, last) refl
                    ]
                | inr other ↦ rw (ih, step, other) refl
              ])
        | inr (e, failed) ↦ absurd (
            let step = remove_failed netlink want x hs k to stale failed in
            let no = sym step ∙ h in ground arith)
      ]
    ]
  ]

  -- What the second loop leaves, when the first has put each wanted route.
  loops-via :
      (hs : List HeldRoute) (want : List Route) (k : K) (d : Prefix) (before : Option Addr)
      {k1 k2 : K}
      → (any (leads_to d) hs ≡ false → before ≡ none)
      → via k1 d ≡ wanted_via want d before
      → via k2 d
        ≡ (if is_wanted want d then via k1 d else if any (leads_to d) hs then none else via k1 d)
      → via k2 d ≡ wanted_via want d none
  loops-via hs want k d before unlisted put left = elim (Bool-cases (is_wanted want d)) [
    | inl w ↦ (let kept = rw w at left in kept ∙ put ∙ wanted_via_wanted want d before none w)
    | inr w ↦ elim (Bool-cases (any (leads_to d) hs)) [
      | inl l ↦
          (let cleared = rw (w, l) at left in cleared ∙ sym (wanted_via_unwanted want d none w))
      | inr l ↦
          (let kept = rw (w, l) at left in kept ∙ put ∙ ap (λ o. wanted_via want d o) (unlisted l))
    ]
  ]

  -- Over a netlink that answers for a routing table, if Apply reports no failure, then the kernel's routes of the protocol are the wanted ones: it
  -- holds the next hop of the last wanted route to a destination, and nothing for the other
  -- destinations, where each wanted destination is masked.
  pub apply-via :
      (want : List Route) (k : K) {installed : List Route} {k' : K}
      → All (λ (r : Route). masked r.dst ≡ r.dst) want
      → apply netlink want k ≡ (installed, [], k')
      → (d : Prefix) → via k' d ≡ wanted_via want d none
  apply-via want k {installed} {k'} ms h d = elim (Result-cases (netlink.list k)) [
    | inr (e, unlisted) ↦
        absurd (
          let no = ap (λ t. t.1) (sym (apply_unlisted netlink want k unlisted) ∙ h) in ground arith)
    | inl (hs, listed) ↦
        let whole = sym (apply_listed netlink hs want k listed) ∙ h in
        let k1 = (install netlink hs want k).2 in
        let (none_failed, none_stale) =
          no_failure (install netlink hs want k).1 (remove netlink want hs k1).0
            (ap (λ t. t.1) whole) in
        let put = install-via hs want k ms none_failed d in
        let left = remove-via want hs k1 none_stale d in
        subst (λ i. via i d ≡ wanted_via want d none) (ap (λ t. t.2) whole)
          (loops-via hs want k d (via k d) (table.listed k listed d) put left)
  ]
