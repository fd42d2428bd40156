-- ===== src/Netpol/Standing/Jumping.antt =====
-- The jumps from the dispatch chain of a direction into the chain of a policy.
use text.Mathlib.TextLemmas.{cons-append, cons-ne-nil}
use mathlib.Core.Path.{subst}
use cnidaria_cni.Base.{
  String, ◌<>◌, ◌≡◌, refl, sym, ap, ◌∙◌, Bool, true, false, not, List, [], ◌∷◌, ◌++◌, arith, ◌==◌,
  string_eq, Bool-cases, inl, inr, if◌then◌else◌, ok, >>=-eq-ok, any, select, ok_inj, Memᴰ,
}
use cnidaria_cni.Netip.Addr.{Addr, is4}
use cnidaria_cni.Kube.{External}
use cnidaria_cni.Nftables.Ruleset.{Chain, Rule}
use cnidaria_cni.Nftables.Chains.{rule}
use cnidaria_cni.Nftables.Validate.{is_empty}
use cnidaria_cni.Nftables.Identifier.{identifier}
use cnidaria_cni.Nftables.Identifier.Begins.{identifier-begins}
use cnidaria_cni.Netpol.Types.{Pod, NetworkPolicy, policy_type_egress}
use cnidaria_cni.Netpol.Match.{PodAddrs, addr_matches}
use cnidaria_cni.Netpol.Sets.{Dir, State, add_set, pod_sets, pod_ips, full_name}
use cnidaria_cni.Netpol.Policy.{jumps_to}
use cnidaria_cni.Netpol.Standing.Finding.{FoundWith, FoundWith-member}

-- The end of a packet at the pods that a policy is about: where it goes to on ingress, where it comes
-- from on egress.
abbrev pub own_end : Dir → String
own_end d = if d.typ == policy_type_egress then "saddr" else "daddr"

-- The chain that the packets of the direction go through.
abbrev pub own_dispatch : Dir → String
own_dispatch d = if d.typ == policy_type_egress then "egress_dispatch" else "ingress_dispatch"

-- The fields of a direction are those.
abbrev pub IsDirected : Dir → Type 0
IsDirected d = (d.self_addr ≡ own_end d) × (d.dispatch ≡ own_dispatch d)

module _ (x : External) (p : NetworkPolicy) where
  -- The dispatch chain sends to the chain what has, at its own end, an address of the set that is named
  -- for the policy and the family.
  abbrev pub HasJump : Dir → String → String → String → List Chain → Type 0
  HasJump d chain family tag cs =
      (set : String) × (identifier x.sha256_hex "pods_" (p.namespace ∷ p.name ∷ tag ∷ []) ≡ ok set)
      × FoundWith (own_dispatch d)
          (record {
            match = family <> (" " <> (own_end d <> (" @" <> set)));
            verdict = "jump " <> chain;
            comment = p.namespace <> ("/" <> p.name);
          }
            ∷ [])
          cs

  -- There is a jump for each family that one of the pods has an address of.
  pub record HasJumps (d : Dir) (selected : List Pod) (chain : String) (cs : List Chain)
      : Type 0 where
    pub v4 : any is4 (pod_ips selected) ≡ true → HasJump d chain "ip" "v4" cs
    pub v6 : any (λ a. not (is4 a)) (pod_ips selected) ≡ true → HasJump d chain "ip6" "v6" cs

  pub HasJumps-moved :
      (d : Dir) (selected : List Pod) (chain : String) (cs ds : List Chain)
      → ((name : String) (rules : List Rule) → FoundWith name rules cs → FoundWith name rules ds)
      → HasJumps d selected chain cs
      → HasJumps d selected chain ds
  HasJumps-moved d selected chain cs ds found j = record {
    v4 = λ h. let (set, named, there) = j.v4 h in (set, named, found (own_dispatch d) _ there);
    v6 = λ h. let (set, named, there) = j.v6 h in (set, named, found (own_dispatch d) _ there);
  }

  any-select : (f : Addr → Bool) (l : List Addr) → any f l ≡ true → is_empty (select f l) ≡ false
  unfolding any select
  any-select f [] h = absurd (ground arith)
  any-select f (a ∷ l) h = elim (Bool-cases (f a)) [
    | inl takes ↦ rw takes refl
    | inr leaves ↦ rw leaves (any-select f l (ground arith))
  ]

  -- The name of a set that is added.
  add_set-named :
      (prefix : String) (parts : List String) (type tag : String) (addrs : List Addr) (s : State)
      {name : String} {s' : State}
      → is_empty addrs ≡ false
      → add_set x prefix parts type tag addrs s ≡ ok (name, s')
      → identifier x.sha256_hex prefix (parts ++ (tag ∷ [])) ≡ ok name
  unfolding add_set
  add_set-named prefix parts type tag [] s some_addr h = absurd (ground arith)
  add_set-named prefix parts type tag (a ∷ addrs) s some_addr h =
      let (n, named, whole) =
        >>=-eq-ok (identifier x.sha256_hex prefix (parts ++ (tag ∷ []))) _ h in
      named ∙ ap (λ q. ok q) (ap (λ (q : String × State). q.0) (ok_inj whole))

  named-full :
      (parts : List String) {name : String}
      → identifier x.sha256_hex "pods_" parts ≡ ok name
      → (name == "") ≡ false
  named-full parts {name} h = elim (Bool-cases (name == "")) [
    | inr full ↦ full
    | inl empty ↦
        let (rest, begins) = identifier-begins x.sha256_hex "pods_" parts h (ground arith) in
        absurd (
          cons-ne-nil _ _
            (sym (cons-append _ _ rest) ∙ sym begins ∙ (string_eq.beq_iff name "").0 empty))
  ]

  -- The jumps written for the names that the sets of the pods have.
  written :
      (d : Dir) (chain family set : String) (cs : List Chain)
      → IsDirected d
      → FoundWith d.dispatch
          (rule
              (family <> (" " <> (d.self_addr <> (" @" <> set))))
              ("jump " <> chain)
              (full_name p.namespace p.name)
            ∷ [])
          cs
      → FoundWith
          (own_dispatch d)
          (rule
              (family <> (" " <> (own_end d <> (" @" <> set))))
              ("jump " <> chain)
              (p.namespace <> ("/" <> p.name))
            ∷ [])
          cs
  unfolding full_name
  written d chain family set cs (ends, goes) found =
      subst
        (λ e.
          FoundWith (own_dispatch d)
            (rule (family <> (" " <> (e <> (" @" <> set)))) ("jump " <> chain)
                (p.namespace <> ("/" <> p.name))
              ∷ [])
            cs)
        ends
        (subst
          (λ n.
            FoundWith n
              (rule (family <> (" " <> (d.self_addr <> (" @" <> set)))) ("jump " <> chain)
                  (p.namespace <> ("/" <> p.name))
                ∷ [])
              cs)
          goes found)

  jump_v4 :
      (d : Dir) (addrs : PodAddrs) (chain comment : String)
      → (addrs.v4 == "") ≡ false
      → Memᴰ
          (rule ("ip" <> (" " <> (d.self_addr <> (" @" <> addrs.v4)))) ("jump " <> chain) comment)
          (jumps_to d addrs chain comment)
  unfolding jumps_to addr_matches
  jump_v4 d addrs chain comment h = rw h (Memᴰ.head refl)

  jump_v6 :
      (d : Dir) (addrs : PodAddrs) (chain comment : String)
      → (addrs.v6 == "") ≡ false
      → Memᴰ
          (rule ("ip6" <> (" " <> (d.self_addr <> (" @" <> addrs.v6)))) ("jump " <> chain) comment)
          (jumps_to d addrs chain comment)
  unfolding jumps_to addr_matches
  jump_v6 d addrs chain comment h = elim (Bool-cases (addrs.v4 == "")) [
    | inl only ↦ rw (h, only) (Memᴰ.head refl)
    | inr both ↦ rw (h, both) (Memᴰ.tail (Memᴰ.head refl))
  ]

  pub jumps_to-HasJumps :
      (d : Dir) (selected : List Pod) (addrs : PodAddrs) (chain : String) (cs : List Chain)
      (before : State) {filled : State}
      → IsDirected d
      → pod_sets x "pods_" (p.namespace ∷ p.name ∷ []) selected before ≡ ok (addrs, filled)
      → FoundWith d.dispatch (jumps_to d addrs chain (full_name p.namespace p.name)) cs
      → HasJumps d selected chain cs
  unfolding pod_sets
  jumps_to-HasJumps d selected addrs chain cs before {filled} ends sets found =
      let parts = p.namespace ∷ p.name ∷ [] in
      let comment = full_name p.namespace p.name in
      let ips = pod_ips selected in
      let ((v4, s1), one, rest) =
        >>=-eq-ok (add_set x "pods_" parts "ipv4_addr" "v4" (select is4 ips) before) _ sets in
      let ((v6, s2), two, whole) =
        >>=-eq-ok (add_set x "pods_" parts "ipv6_addr" "v6" (select (λ a. not (is4 a)) ips) s1) _
          rest in
      let is_v4 : v4 ≡ addrs.v4 = ap (λ (q : PodAddrs × State). q.0.v4) (ok_inj whole) in
      let is_v6 : v6 ≡ addrs.v6 = ap (λ (q : PodAddrs × State). q.0.v6) (ok_inj whole) in
      record {
        v4 = λ h.
            let named =
              add_set-named "pods_" parts "ipv4_addr" "v4" (select is4 ips) before
                (any-select is4 ips h) one
              ∙ ap (λ q. ok q) is_v4 in
            (
              addrs.v4,
              named,
              written d chain "ip" addrs.v4 cs ends (
                  FoundWith-member d.dispatch _ cs
                    (jump_v4 d addrs chain comment (named-full (parts ++ ("v4" ∷ [])) named))
                    found),
            );
        v6 = λ h.
            let named =
              add_set-named "pods_" parts "ipv6_addr" "v6" (select (λ a. not (is4 a)) ips) s1
                (any-select (λ a. not (is4 a)) ips h) two
              ∙ ap (λ q. ok q) is_v6 in
            (
              addrs.v6,
              named,
              written d chain "ip6" addrs.v6 cs ends (
                  FoundWith-member d.dispatch _ cs
                    (jump_v6 d addrs chain comment (named-full (parts ++ ("v6" ∷ [])) named))
                    found),
            );
      }
