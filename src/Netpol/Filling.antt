-- ===== src/Netpol/Filling.antt =====
-- The isolated addresses reach the sets of the table.
pub mod Direction
use cnidaria_cni.Base.{
  String, ◌≡◌, ◌≢◌, refl, ◌∙◌, true, ◌||◌, ◌∷◌, ◌++◌, arith, if◌then◌else◌, ◌==◌, string_eq,
  Bool-cases, inl, inr, any, contains, sort_func, ok, >>=-eq-ok,
}
use cnidaria_cni.Netip.Addr.{Addr, addr_eq, is4}
use cnidaria_cni.Nftables.Ruleset.{Ruleset}
use cnidaria_cni.Netpol.Types.{Params}
use cnidaria_cni.Netpol.Sets.{ingress, egress, State, isolated}
use cnidaria_cni.Netpol.Add.{
  fill_direction, fill_isolated, add_policies, cluster, start, by_policy_name, add,
}
use cnidaria_cni.Kube.{External}
use mathlib.Core.Path.{subst}
use cnidaria_cni.Netpol.Isolating.{isolates, add_policies-isolates, IsWay}
use cnidaria_cni.Netpol.Filling.Direction.{
  Holds, set_for, fill_direction-Holds, any-sort_func, Holds-kept, ingress_apart, egress_apart,
}

-- Both directions of `fillIsolated`.
fill_isolated-Holds :
    (s : State) (a : Addr) {r : Ruleset}
    → fill_isolated s ≡ ok r
    → (contains (isolated s ingress.typ) a ≡ true → Holds (set_for ingress a) a r.sets)
      × (contains (isolated s egress.typ) a ≡ true → Holds (set_for egress a) a r.sets)
unfolding fill_isolated
fill_isolated-Holds s a {r} h =
    let (one, first, rest) =
      >>=-eq-ok (fill_direction ingress (isolated s ingress.typ) s.table.sets) _ h in
    let (two, second, whole) =
      >>=-eq-ok (fill_direction egress (isolated s egress.typ) one) _ rest in
    let same : two ≡ r.sets = ground arith in
    (
      λ m. subst (Holds (set_for ingress a) a) same (
          Holds-kept egress (isolated s egress.typ) one (set_for ingress a) a (apart4 a) (apart6 a)
            second
            (fill_direction-Holds ingress (isolated s ingress.typ) s.table.sets a ingress_apart m
              first)),
      λ m.
          subst (Holds (set_for egress a) a) same
            (fill_direction-Holds egress (isolated s egress.typ) one a egress_apart m second),
    )
  where
    apart4 : (a : Addr) → set_for ingress a ≢ egress.isolated_v4
    apart4 a = elim (Bool-cases (is4 a)) [
      | inl four ↦ rw four (λ e. cc)
      | inr six ↦ rw six (λ e. cc)
    ]

    apart6 : (a : Addr) → set_for ingress a ≢ egress.isolated_v6
    apart6 a = elim (Bool-cases (is4 a)) [
      | inl four ↦ rw four (λ e. cc)
      | inr six ↦ rw six (λ e. cc)
    ]

module _ (x : External) (r : Ruleset) (p : Params) (a : Addr) where
  isolated_of :
      (t : String) (s : State)
      → IsWay t
      → add_policies x (cluster p) (sort_func by_policy_name p.policies) (start r) ≡ ok s
      → any (isolates x (cluster p) t a) p.policies ≡ true
      → contains (isolated s t) a ≡ true
  isolated_of t s way done some_policy =
      add_policies-isolates x (cluster p) t a (sort_func by_policy_name p.policies) (start r) way
        done
      ∙ rw (any-sort_func (isolates x (cluster p) t a) by_policy_name p.policies)
          (rw some_policy refl)

  -- If `add` succeeds and one of the policies isolates an address for ingress - it governs ingress and selects a usable
  -- pod of this node that has the address - then the table's isolated ingress set of the address's family holds it.
  pub add-isolates_ingress :
      {next : Ruleset}
      → add x r p ≡ ok next
      → any (isolates x (cluster p) ingress.typ a) p.policies ≡ true
      → Holds (set_for ingress a) a next.sets
  unfolding add
  add-isolates_ingress h some_policy =
      let (s, done, rest) =
        >>=-eq-ok (add_policies x (cluster p) (sort_func by_policy_name p.policies) (start r)) _
          h in
      (fill_isolated-Holds s a rest).0 (isolated_of ingress.typ s (inl refl) done some_policy)

  -- If `add` succeeds and one of the policies isolates an address for egress - it governs egress and selects a usable
  -- pod of this node that has the address - then the table's isolated egress set of the address's family holds it.
  pub add-isolates_egress :
      {next : Ruleset}
      → add x r p ≡ ok next
      → any (isolates x (cluster p) egress.typ a) p.policies ≡ true
      → Holds (set_for egress a) a next.sets
  unfolding add
  add-isolates_egress h some_policy =
      let (s, done, rest) =
        >>=-eq-ok (add_policies x (cluster p) (sort_func by_policy_name p.policies) (start r)) _
          h in
      (fill_isolated-Holds s a rest).1 (isolated_of egress.typ s (inr refl) done some_policy)
