-- ===== src/Nftables/Ruleset/Finding.antt =====
-- Looking a chain up by its name in a table that grows, or one of whose chains is written.
use cnidaria_cni.Base.{
  String, ◌≡◌, ◌≢◌, refl, sym, ◌∙◌, some, List, [], ◌∷◌, ◌++◌, arith, ◌==◌, string_eq, Bool-cases,
  inl, inr, text_differs, ap, false, true,
}
use cnidaria_cni.Nftables.Ruleset.{
  Chain, Rule, chain_named, write_chain, insert_before_last, before_last,
}

pub chain_named-append :
    (cs ds : List Chain) (name : String) {c : Chain}
    → chain_named name cs ≡ some c
    → chain_named name (cs ++ ds) ≡ some c
unfolding chain_named
chain_named-append [] ds name h = cc
chain_named-append (k ∷ ks) ds name {c} h = elim (Bool-cases (k.name == name)) [
  | inl same ↦ ground arith
  | inr differs ↦ rw differs (chain_named-append ks ds name {c = c} (ground arith))
]

pub write_chain-other :
    (cs : List Chain) (name other : String) (f : Chain → Chain) {c : Chain}
    → ((k : Chain) → (f k).name ≡ k.name)
    → other ≢ name
    → chain_named other cs ≡ some c
    → chain_named other (write_chain name f cs) ≡ some c
unfolding chain_named write_chain
write_chain-other [] name other f keeps differs h = cc
write_chain-other (k ∷ ks) name other f {c} keeps differs h = elim (Bool-cases (k.name == name)) [
  | inl same ↦
      let skipped : (k.name == other) ≡ false =
        text_differs k.name other (λ e. differs (sym e ∙ (string_eq.beq_iff _ _).0 same)) in
      let written : ((f k).name == other) ≡ false = rw (keeps k) skipped in
      rw same (rw written (rw skipped at h))
  | inr another ↦ elim (Bool-cases (k.name == other)) [
    | inl found ↦ rw another (rw found (rw found at h))
    | inr later ↦
        rw another
          (rw later (write_chain-other ks name other f {c = c} keeps differs (rw later at h)))
  ]
]

pub write_chain-same :
    (cs : List Chain) (name : String) (f : Chain → Chain) {c : Chain}
    → ((k : Chain) → (f k).name ≡ k.name)
    → chain_named name cs ≡ some c
    → chain_named name (write_chain name f cs) ≡ some (f c)
unfolding chain_named write_chain
write_chain-same [] name f keeps h = cc
write_chain-same (k ∷ ks) name f {c} keeps h = elim (Bool-cases (k.name == name)) [
  | inl same ↦
      let written : ((f k).name == name) ≡ true = rw (keeps k) same in
      let it : k ≡ c = ground arith in rw same (rw written (ap (λ z. some (f z)) it))
  | inr another ↦
      rw another (rw another (write_chain-same ks name f {c = c} keeps (rw another at h)))
]

before_last-ends :
    (i : Rule) (init rules : List Rule) (last : Rule)
    → before_last i (init ++ (last ∷ [])) rules ≡ i ∷ (init ++ (rules ++ (last ∷ [])))
unfolding before_last
before_last-ends i [] rules last = refl
before_last-ends i (j ∷ init) rules last = ap (λ rs. i ∷ rs) (before_last-ends j init rules last)

-- Rules put before the last one of a chain that has one.
pub insert_before_last-ends :
    (rules init : List Rule) (last : Rule)
    → insert_before_last rules (init ++ (last ∷ [])) ≡ init ++ (rules ++ (last ∷ []))
unfolding insert_before_last before_last
insert_before_last-ends [] [] last = refl
insert_before_last-ends [] (i ∷ init) last = refl
insert_before_last-ends (j ∷ js) [] last = refl
insert_before_last-ends (j ∷ js) (i ∷ init) last = before_last-ends i init (j ∷ js) last
