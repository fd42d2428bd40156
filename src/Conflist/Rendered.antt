-- ===== src/Conflist/Rendered.antt =====
-- Which nodes get a configuration list, and what ranges it has.
use cnidaria_cni.Base.{
  ◌≡◌, refl, Bool, true, false, List, [], ◌∷◌, map, arith, ok, >>=-eq-ok, not, guard, guard-eq-ok,
  Result-cases, inl, inr, ◌==◌, string_eq, ◌↔◌,
}
use cnidaria_cni.Netip.Prefix.{Prefix, masked, prefix_text}
use cnidaria_cni.Nftables.Validate.{check_pod_cidrs, is_empty}
use cnidaria_cni.Nftables.Validate.Renderable.{HasOnePerFamily, check_pod_cidrs_iff}
use cnidaria_cni.Conflist.{
  Params, HostLocalRange, Document, ranges_from, render, cni_version, plugins,
}

-- The range set of each CIDR.
abbrev pub range_of : Prefix → List HostLocalRange
range_of cidr = record { subnet = prefix_text (masked cidr) } ∷ []

-- The loop refuses what the loop of the table's renderer refuses, and gives one range set for each CIDR.
ranges_from-map :
    (saw_v4 saw_v6 : Bool) (cidrs : List Prefix)
    → check_pod_cidrs saw_v4 saw_v6 cidrs ≡ ok tt
    → ranges_from saw_v4 saw_v6 cidrs ≡ ok (map range_of cidrs)
unfolding ranges_from check_pod_cidrs
ranges_from-map saw_v4 saw_v6 [] h = refl
ranges_from-map saw_v4 saw_v6 (cidr ∷ rest) h =
    ground (arith, ranges_from-map true saw_v6 rest, ranges_from-map saw_v4 true rest)

ranges_from-checked :
    (saw_v4 saw_v6 : Bool) (cidrs : List Prefix) {rs : List (List HostLocalRange)}
    → ranges_from saw_v4 saw_v6 cidrs ≡ ok rs
    → check_pod_cidrs saw_v4 saw_v6 cidrs ≡ ok tt
unfolding ranges_from check_pod_cidrs
ranges_from-checked saw_v4 saw_v6 [] h = refl
ranges_from-checked saw_v4 saw_v6 (cidr ∷ rest) {rs} h =
    elim (Result-cases (ranges_from true saw_v6 rest)) [
      | inl (r4, ok4) ↦ elim (Result-cases (ranges_from saw_v4 true rest)) [
        | inl (r6, ok6) ↦ ground (
          arith,
          ranges_from-checked true saw_v6 rest ok4,
          ranges_from-checked saw_v4 true rest ok6,
        )
        | inr (e6, err6) ↦ ground (arith, ranges_from-checked true saw_v6 rest ok4)
      ]
      | inr (e4, err4) ↦ elim (Result-cases (ranges_from saw_v4 true rest)) [
        | inl (r6, ok6) ↦ ground (arith, ranges_from-checked saw_v4 true rest ok6)
        | inr (e6, err6) ↦ ground arith
      ]
    ]

-- What a configuration list needs.
pub record IsConfigurable (p : Params) : Type 0 where
  pub name : (p.name == "") ≡ false
  pub bridge : (p.bridge == "") ≡ false
  pub some_cidr : is_empty p.pod_cidrs ≡ false
  pub one_per_family : HasOnePerFamily p.pod_cidrs

-- The document with one range set for each CIDR, in the order of the CIDRs.
abbrev pub expected : Params → Document
expected p = record {
  cni_version = cni_version;
  name = p.name;
  plugins = plugins p (map range_of p.pod_cidrs);
}

configurable-render : (p : Params) → IsConfigurable p → render p ≡ ok (expected p)
unfolding render
configurable-render p c =
    let ranges : ranges_from false false p.pod_cidrs ≡ ok (map range_of p.pod_cidrs) =
      ranges_from-map false false p.pod_cidrs
        ((check_pod_cidrs_iff p.pod_cidrs).1 c.one_per_family) in
    rw (c.name, c.bridge, c.some_cidr, ranges) refl

render-IsConfigurable : (p : Params) {doc : Document} → render p ≡ ok doc → IsConfigurable p
unfolding render
render-IsConfigurable p {doc} h =
    let (u1, named, h1) =
      >>=-eq-ok (guard (not (p.name == "")) "conflist: network name is required") _ h in
    let (u2, bridged, h2) =
      >>=-eq-ok (guard (not (p.bridge == "")) "conflist: bridge name is required") _ h1 in
    let (u3, given, h3) =
      >>=-eq-ok (guard (not (is_empty p.pod_cidrs)) "conflist: at least one pod CIDR is required") _
        h2 in
    let (rs, ranged, whole) = >>=-eq-ok (ranges_from false false p.pod_cidrs) _ h3 in
    record {
      name = ground (arith, guard-eq-ok (not (p.name == "")) _ named);
      bridge = ground (arith, guard-eq-ok (not (p.bridge == "")) _ bridged);
      some_cidr = ground (arith, guard-eq-ok (not (is_empty p.pod_cidrs)) _ given);
      one_per_family =
          (check_pod_cidrs_iff p.pod_cidrs).0 (ranges_from-checked false false p.pod_cidrs ranged);
    }

-- The renderer gives a document exactly if the network and the bridge have names and there are pod CIDRs, all usable
-- and at most one of each family; the document is then the one with a range set for each CIDR, in their order.
pub render_iff :
    (p : Params) (doc : Document) → (render p ≡ ok doc) ↔ (IsConfigurable p × (doc ≡ expected p))
render_iff p doc = (
  λ h. (
    render-IsConfigurable p h,
    ground (arith, configurable-render p (render-IsConfigurable p h)),
  ),
  λ (c, e). rw e (configurable-render p c),
)
