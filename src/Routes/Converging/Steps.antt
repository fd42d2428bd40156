-- ===== src/Routes/Converging/Steps.antt =====
-- Steps of the two loops of `Kernel.Apply`, and its two ways to end.
use cnidaria_cni.Base.{
  ◌<>◌, ◌≡◌, refl, String, true, false, none, some, List, [], ◌∷◌, ◌++◌, ok, err, arith,
}
use cnidaria_cni.Netip.Prefix.{Prefix, prefix_eq, masked}
use cnidaria_cni.Routes.{Route}
use cnidaria_cni.Routes.Kernel.{
  HeldRoute, Netlink, install, remove, apply, is_wanted, install_error, remove_error,
}

pub no_failure : (xs ys : List String) → xs ++ ys ≡ [] → (xs ≡ []) × (ys ≡ [])
no_failure [] ys h = (refl, h)
no_failure (x ∷ xs) ys h = absurd (ground arith)

-- Steps of the two loops.
module _ {K : Type 0} (netlink : Netlink K) where
  pub install_failed :
      (hs : List HeldRoute) (r : Route) (rest : List Route) (k : K) {e : String}
      → (netlink.replace (masked r.dst) r.via k).0 ≡ some e
      → (install netlink hs (r ∷ rest) k).1
        ≡ install_error r e ∷ (install netlink hs rest (netlink.replace (masked r.dst) r.via k).1).1
  unfolding install
  install_failed hs r rest k failed = rw (failed, install) refl

  pub install_went :
      (hs : List HeldRoute) (r : Route) (rest : List Route) (k : K)
      → (netlink.replace (masked r.dst) r.via k).0 ≡ none
      → (install netlink hs (r ∷ rest) k).1
          ≡ (install netlink hs rest (netlink.replace (masked r.dst) r.via k).1).1
        × (install netlink hs (r ∷ rest) k).2
          ≡ (install netlink hs rest (netlink.replace (masked r.dst) r.via k).1).2
  unfolding install
  install_went hs r rest k went = rw (went, install) (refl, refl)

  pub remove_nothing : (want : List Route) (k : K) → remove netlink want [] k ≡ ([], k)
  unfolding remove
  remove_nothing want k = refl

  pub remove_nowhere :
      (want : List Route) (x : HeldRoute) (hs : List HeldRoute) (k : K)
      → x.dst ≡ none
      → remove netlink want (x ∷ hs) k ≡ remove netlink want hs k
  unfolding remove
  remove_nowhere want x hs k e = rw (e, remove) refl

  pub remove_kept :
      (want : List Route) (x : HeldRoute) (hs : List HeldRoute) (k : K) {p : Prefix}
      → x.dst ≡ some p
      → is_wanted want p ≡ true
      → remove netlink want (x ∷ hs) k ≡ remove netlink want hs k
  unfolding remove
  remove_kept want x hs k e w = rw (e, w, remove) refl

  pub remove_gone :
      (want : List Route) (x : HeldRoute) (hs : List HeldRoute) (k : K) {p : Prefix}
      → x.dst ≡ some p
      → is_wanted want p ≡ false
      → (netlink.delete x k).0 ≡ none
      → remove netlink want (x ∷ hs) k ≡ remove netlink want hs (netlink.delete x k).1
  unfolding remove
  remove_gone want x hs k e w gone = simp (e, w, gone, remove)

  pub remove_failed :
      (want : List Route) (x : HeldRoute) (hs : List HeldRoute) (k : K) {p : Prefix} {e : String}
      → x.dst ≡ some p
      → is_wanted want p ≡ false
      → (netlink.delete x k).0 ≡ some e
      → (remove netlink want (x ∷ hs) k).0
        ≡ remove_error p e ∷ (remove netlink want hs (netlink.delete x k).1).0
  unfolding remove
  remove_failed want x hs k e w failed = simp (e, w, failed, remove)

  abbrev pub after_loops : List HeldRoute → List Route → K → List Route × List String × K
  after_loops hs want k =
      let (installed, failed, k1) = install netlink hs want k in
      let (stale, k2) = remove netlink want hs k1 in (installed, failed ++ stale, k2)

  pub apply_listed :
      (hs : List HeldRoute) (want : List Route) (k : K)
      → netlink.list k ≡ ok hs
      → apply netlink want k ≡ after_loops hs want k
  unfolding apply
  apply_listed hs want k e = rw (e, apply) refl

  pub apply_unlisted :
      (want : List Route) (k : K) {e : String}
      → netlink.list k ≡ err e
      → apply netlink want k ≡ ([], ("routes: list: " <> e) ∷ [], k)
  unfolding apply
  apply_unlisted want k e = rw (e, apply) refl
