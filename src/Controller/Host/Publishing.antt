-- ===== src/Controller/Host/Publishing.antt =====
-- What `publishIPv6` leaves of the annotation.
use mathlib.Core.Path.{subst}
use cnidaria_cni.Base.{
  String, ◌≡◌, refl, sym, ap, ◌∙◌, true, false, Option, none, some, ◌==◌, string_eq, arith,
  Bool-cases, inl, inr, ok, err, lookup, lookup-insert, lookup-erase, erase, erase-erase,
  erase-insert, any, find_first, ◌⊎◌, if◌then◌else◌, Result-cases,
}
use cnidaria_cni.Netip.Addr.{Addr, is4, is6}
use cnidaria_cni.Kube.{Labels}
use cnidaria_cni.Kube.Objects.{Node}
use cnidaria_cni.Routes
use cnidaria_cni.Controller.Nodes.{node_ipv6_annotation}
use cnidaria_cni.Controller.Host.{
  Host, annotated, says, with_annotations, wanted, publish_text, publish_ipv6, address_of,
}

annotated-own :
    (want : String) (m : Labels)
    → lookup node_ipv6_annotation (annotated want m) ≡ (if want == "" then none else some want)
unfolding annotated
annotated-own want m = elim (Bool-cases (want == "")) [
  | inl e ↦ rw e (lookup-erase node_ipv6_annotation node_ipv6_annotation m)
  | inr o ↦ rw o (lookup-insert node_ipv6_annotation node_ipv6_annotation want m)
]

erase-annotated :
    (want : String) (m : Labels)
    → erase node_ipv6_annotation (annotated want m) ≡ erase node_ipv6_annotation m
unfolding annotated
erase-annotated want m = elim (Bool-cases (want == "")) [
  | inl e ↦ rw e (erase-erase node_ipv6_annotation m)
  | inr o ↦ rw o (erase-insert node_ipv6_annotation want m)
]

says_found :
    (want : String) (m : Labels)
    → lookup node_ipv6_annotation m ≡ (if want == "" then none else some want)
    → says want m ≡ true
unfolding says
says_found want m h = elim (Bool-cases (want == "")) [
  | inl e ↦ (let gone = rw e at h in rw (gone, says) e)
  | inr o ↦
      (let found = rw o at h in
        rw (found, says) (rw ((string_eq.beq_iff want want).1 refl, o) refl))
]

module _ {S : Type 0} (host : Host S) where
  -- Patching a Node moves no address of the kernel.
  abbrev pub KeepsAddresses : Type 0
  KeepsAddresses =
      (n : Node) (a : Addr) (s : S) → host.global_ipv6 a (host.patch n s).1 ≡ host.global_ipv6 a s

  -- What publishing an address leaves: the object as it is now, which is the old one or the one that was
  -- patched; publishing once more does nothing, and every other annotation is the old one.
  pub record Published (n : Node) (self : Routes.Node) (s after : S) : Type 0 where
    pub now : Node
    pub patched : ((now ≡ n) × (after ≡ s)) ⊎ ((host.patch now s).1 ≡ after)
    pub settled : publish_ipv6 host now self after ≡ (none, after)
    pub kept :
        erase node_ipv6_annotation now.meta.annotations
        ≡ erase node_ipv6_annotation n.meta.annotations

  publish_again :
      (n : Node) (self : Routes.Node) (s : S) {want : String}
      → wanted host self s ≡ ok want
      → says want n.meta.annotations ≡ true
      → publish_ipv6 host n self s ≡ (none, s)
  unfolding publish_ipv6 publish_text
  publish_again n self s h k = rw (h, k) refl

  publish_patch :
      (n : Node) (self : Routes.Node) (s : S) {want : String}
      → wanted host self s ≡ ok want
      → says want n.meta.annotations ≡ false
      → publish_ipv6 host n self s
        ≡ host.patch (with_annotations n (annotated want n.meta.annotations)) s
  unfolding publish_ipv6 publish_text
  publish_patch n self s h k = rw (h, k) refl

  publish_error :
      (n : Node) (self : Routes.Node) (s : S) {e : String}
      → wanted host self s ≡ err e
      → (publish_ipv6 host n self s).0 ≡ some e
  unfolding publish_ipv6 publish_text
  publish_error n self s h = rw h refl

  address_of_kept :
      (on : Option Addr) (n : Node) (s : S)
      → KeepsAddresses
      → address_of host on (host.patch n s).1 ≡ address_of host on s
  unfolding address_of
  address_of_kept none n s k = refl
  address_of_kept (some on) n s k = rw (k n on s, address_of) refl

  wanted_kept :
      (self : Routes.Node) (n : Node) (s : S)
      → KeepsAddresses
      → wanted host self (host.patch n s).1 ≡ wanted host self s
  unfolding wanted
  wanted_kept self n s k =
      ap (λ r. if any is6 self.internal_ips then ok "" else r)
        (address_of_kept (find_first is4 self.internal_ips) n s k)

  -- Over a client whose patches leave the addresses of the host alone, if publishIPv6 succeeds, then the
  -- node is as it was or is patched, publishing the same once more does nothing, and no annotation but the
  -- node's own is touched.
  pub publish_ipv6-Published :
      (n : Node) (self : Routes.Node) (s : S)
      → KeepsAddresses
      → (publish_ipv6 host n self s).0 ≡ none
      → Published n self s (publish_ipv6 host n self s).1
  publish_ipv6-Published n self s k h = elim (Result-cases (wanted host self s)) [
    | inr (e, bad) ↦ absurd (let no = sym (publish_error n self s bad) ∙ h in ground arith)
    | inl (want, good) ↦ elim (Bool-cases (says want n.meta.annotations)) [
      | inl said ↦
          let same = publish_again n self s good said in
          subst (λ (r : Option String × S). Published n self s r.1) (sym same)
            (record { now = n; patched = inl (refl, refl); settled = same; kept = refl })
      | inr unsaid ↦
          let now = with_annotations n (annotated want n.meta.annotations) in
          let same = publish_patch n self s good unsaid in
          subst (λ (r : Option String × S). Published n self s r.1) (sym same)
            (record {
              now = now;
              patched = inr refl;
              settled =
                  publish_again now self (host.patch now s).1 (wanted_kept self now s k ∙ good)
                    (says_found want now.meta.annotations (annotated-own want n.meta.annotations));
              kept = erase-annotated want n.meta.annotations;
            })
    ]
  ]
