-- ===== src/Netpol/Filling/Direction.antt =====
-- The isolated addresses of one direction reach its sets.
use cnidaria_cni.Base.{
  String, ◌≡◌, ◌≢◌, refl, sym, ap, ◌∙◌, Bool, true, false, ◌||◌, not, Option-cases, some, List, [],
  ◌∷◌, ◌++◌, map, arith, if◌then◌else◌, ◌==◌, string_eq, Bool-cases, inl, inr, text_differs, any,
  select, contains, contains-append, contains-sort_func, Ordering, insert_by, le_by, sort_func, ok,
  differs_text,
}
use cnidaria_cni.Netip.Addr.{Addr, addr_eq, is4, addr_compare, addr_text}
use cnidaria_cni.Nftables.Ruleset.{Set, set_named, write_set}
use cnidaria_cni.Netpol.Types.{NetworkPolicy}
use cnidaria_cni.Netpol.Sets.{Dir, ingress, egress}
use cnidaria_cni.Netpol.Add.{append_elements, is_missing, isolated_texts, fill_direction}
use cnidaria_cni.Kube.{}
use mathlib.Core.Path.{}
use cnidaria_cni.Netpol.Isolating.{}

write_set-other :
    (ss : List Set) (name another : String) (es : List String) {s : Set}
    → another ≢ name
    → set_named another ss ≡ some s
    → set_named another (write_set name (append_elements es) ss) ≡ some s
unfolding set_named write_set
write_set-other [] name another es differs h = cc
write_set-other (k ∷ ks) name another es {s} differs h = elim (Bool-cases (k.name == name)) [
  | inl same ↦
      let skipped : (k.name == another) ≡ false =
        text_differs k.name another (λ e. differs (sym e ∙ (string_eq.beq_iff _ _).0 same)) in
      rw same (rw skipped (rw skipped at h))
  | inr differing ↦ elim (Bool-cases (k.name == another)) [
    | inl found ↦ rw differing (rw found (rw found at h))
    | inr later ↦
        rw differing (rw later (write_set-other ks name another es {s = s} differs (rw later at h)))
  ]
]

write_set-same :
    (ss : List Set) (name : String) (es : List String) {s : Set}
    → set_named name ss ≡ some s
    → set_named name (write_set name (append_elements es) ss) ≡ some (append_elements es s)
unfolding set_named write_set
write_set-same [] name es h = cc
write_set-same (k ∷ ks) name es {s} h = elim (Bool-cases (k.name == name)) [
  | inl same ↦
      let it : k ≡ s = ground arith in rw same (rw same (ap (λ z. some (append_elements es z)) it))
  | inr another ↦ rw another (rw another (write_set-same ks name es {s = s} (rw another at h)))
]

contains-select :
    (p : Addr → Bool) (l : List Addr) (a : Addr)
    → contains l a ≡ true
    → p a ≡ true
    → contains (select p l) a ≡ true
unfolding contains select
contains-select p [] a h t = cc
contains-select p (b ∷ l) a h t = elim (Bool-cases (b == a)) [
  | inl same ↦
      let e : b ≡ a = (addr_eq.beq_iff b a).0 same in
      let tested : p b ≡ true = ap p e ∙ t in rw tested (rw same refl)
  | inr other ↦
      let ih = contains-select p l a (rw other at h) t in
      elim (Bool-cases (p b)) [ inl taken ↦ rw taken (rw other ih) | inr left ↦ rw left ih ]
]

contains-map :
    (l : List Addr) (a : Addr)
    → contains l a ≡ true
    → contains (map addr_text l) (addr_text a) ≡ true
unfolding contains
contains-map [] a h = cc
contains-map (b ∷ l) a h = elim (Bool-cases (b == a)) [
  | inl same ↦
      let e : (addr_text b == addr_text a) ≡ true =
        (string_eq.beq_iff _ _).1 (ap addr_text ((addr_eq.beq_iff b a).0 same)) in
      rw e refl
  | inr other ↦ let ih = contains-map l a (rw other at h) in ground arith
]

-- The set of a direction for an address's family.
abbrev pub set_for : Dir → Addr → String
set_for d a = if is4 a then d.isolated_v4 else d.isolated_v6

-- The set of this name holds the address's text.
pub record Holds (name : String) (a : Addr) (sets : List Set) : Type 0 where
  pub set : Set
  pub found : set_named name sets ≡ some set
  pub held : contains set.elements (addr_text a) ≡ true

in_right : (xs ys : List String) (t : String) → contains ys t ≡ true → contains (xs ++ ys) t ≡ true
in_right xs ys t h = contains-append xs ys t ∙ rw h (either (contains xs t))
  where
    either : (b : Bool) → (b || true) ≡ true
    either true = refl
    either false = refl

texts-contain :
    (family : Addr → Bool) (addrs : List Addr) (a : Addr)
    → contains addrs a ≡ true
    → family a ≡ true
    → contains (isolated_texts family addrs) (addr_text a) ≡ true
unfolding isolated_texts
texts-contain family addrs a h t = contains-map (select family (sort_func addr_compare addrs)) a (
    contains-select family (sort_func addr_compare addrs) a
      (contains-sort_func addr_compare addrs a ∙ h) t)

module _ (d : Dir) (addrs : List Addr) (sets : List Set) where
  -- What a successful call wrote.
  fill_direction-eq :
      {sets' : List Set}
      → fill_direction d addrs sets ≡ ok sets'
      → (is_missing (set_named d.isolated_v4 sets) ≡ false)
        × (is_missing (set_named d.isolated_v6 sets) ≡ false)
        × (write_set d.isolated_v6
              (append_elements (isolated_texts (λ a. not (is4 a)) addrs))
              (write_set d.isolated_v4 (append_elements (isolated_texts is4 addrs)) sets)
            ≡ sets')
  unfolding fill_direction
  fill_direction-eq {sets'} h =
      elim (Bool-cases
        (is_missing (set_named d.isolated_v4 sets) || is_missing (set_named d.isolated_v6 sets))) [
          | inl missing ↦ absurd (ground arith)
          | inr there ↦ (ground arith, ground arith, ground arith)
        ]

  present :
      (name : String)
      → is_missing (set_named name sets) ≡ false
      → (s : Set) × (set_named name sets ≡ some s)
  present name h = elim (Option-cases (set_named name sets)) [
    | inl missing ↦ absurd (ground arith)
    | inr found ↦ found
  ]

  pub fill_direction-Holds :
      (a : Addr) {sets' : List Set}
      → d.isolated_v4 ≢ d.isolated_v6
      → contains addrs a ≡ true
      → fill_direction d addrs sets ≡ ok sets'
      → Holds (set_for d a) a sets'
  fill_direction-Holds a {sets'} apart held h =
      let (has4, has6, written) = fill_direction-eq {sets' = sets'} h in
      let (s4, found4) = present d.isolated_v4 has4 in
      let (s6, found6) = present d.isolated_v6 has6 in
      let t4 = isolated_texts is4 addrs in
      let t6 = isolated_texts (λ b. not (is4 b)) addrs in
      elim (Bool-cases (is4 a)) [
        | inl four ↦ rw four (record {
          set = append_elements t4 s4;
          found = rw (← written) (
              write_set-other (write_set d.isolated_v4 (append_elements t4) sets) d.isolated_v6
                d.isolated_v4 t6 {s = append_elements t4 s4} apart
                (write_set-same sets d.isolated_v4 t4 {s = s4} found4));
          held = in_right s4.elements t4 (addr_text a) (texts-contain is4 addrs a held four);
        })
        | inr six ↦ rw six (record {
          set = append_elements t6 s6;
          found = rw (← written) (
              write_set-same (write_set d.isolated_v4 (append_elements t4) sets) d.isolated_v6 t6
                {s = s6}
                (write_set-other sets d.isolated_v4 d.isolated_v6 t4 {s = s6} (λ e. apart (sym e))
                  found6));
          held =
              in_right s6.elements t6 (addr_text a)
                (texts-contain (λ b. not (is4 b)) addrs a held (rw six refl));
        })
      ]

  fill_direction-other :
      (name : String) {s : Set} {sets' : List Set}
      → name ≢ d.isolated_v4
      → name ≢ d.isolated_v6
      → fill_direction d addrs sets ≡ ok sets'
      → set_named name sets ≡ some s
      → set_named name sets' ≡ some s
  fill_direction-other name {s} {sets'} other4 other6 h found =
      let (has4, has6, written) = fill_direction-eq {sets' = sets'} h in
      rw (← written) (
        write_set-other _ d.isolated_v6 name _ {s = s} other6
          (write_set-other sets d.isolated_v4 name _ {s = s} other4 found))

any-insert_by :
    (p : NetworkPolicy → Bool) (cmp : NetworkPolicy → NetworkPolicy → Ordering) (q : NetworkPolicy)
    (qs : List NetworkPolicy)
    → any p (insert_by cmp q qs) ≡ (p q || any p qs)
unfolding any insert_by
any-insert_by p cmp q [] = refl
any-insert_by p cmp q (r ∷ qs) = elim (Bool-cases (le_by cmp q r)) [
  | inl before ↦ rw before refl
  | inr after ↦
      rw after (ap (λ b. p r || b) (any-insert_by p cmp q qs) ∙ swap (p r) (p q) (any p qs))
]
  where
    swap : (b c e : Bool) → (b || (c || e)) ≡ (c || (b || e))
    swap b c e = ground arith

pub any-sort_func :
    (p : NetworkPolicy → Bool) (cmp : NetworkPolicy → NetworkPolicy → Ordering)
    (qs : List NetworkPolicy)
    → any p (sort_func cmp qs) ≡ any p qs
unfolding any sort_func
any-sort_func p cmp [] = refl
any-sort_func p cmp (q ∷ qs) =
    any-insert_by p cmp q (sort_func cmp qs) ∙ ap (λ b. p q || b) (any-sort_func p cmp qs)

pub Holds-kept :
    (d : Dir) (addrs : List Addr) (sets : List Set) (name : String) (a : Addr) {sets' : List Set}
    → name ≢ d.isolated_v4
    → name ≢ d.isolated_v6
    → fill_direction d addrs sets ≡ ok sets'
    → Holds name a sets
    → Holds name a sets'
Holds-kept d addrs sets name a other4 other6 h held = record {
  set = held.set;
  found = fill_direction-other d addrs sets name {s = held.set} other4 other6 h held.found;
  held = held.held;
}

pub ingress_apart : ingress.isolated_v4 ≢ ingress.isolated_v6
ingress_apart = differs_text ingress.isolated_v4 ingress.isolated_v6 refl

pub egress_apart : egress.isolated_v4 ≢ egress.isolated_v6
egress_apart = differs_text egress.isolated_v4 egress.isolated_v6 refl
