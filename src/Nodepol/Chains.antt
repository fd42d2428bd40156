-- ===== src/Nodepol/Chains.antt =====
-- What the rendering of one direction adds to the chains of the table.
use mathlib.Core.Path.{subst}
use cnidaria_cni.Base.{
  String, ◌<>◌, ◌≡◌, refl, ◌∙◌, Bool, false, ◌||◌, List, [], ◌∷◌, ◌++◌, map, append-nil,
  append_assoc, arith, string_eq, All, All-append, any, any-append, ok, err, map_err, >>=-eq-ok,
  map_err-eq-ok,
}
use cnidaria_cni.Kube.{External}
use cnidaria_cni.Nftables.Ruleset.{Chain, Rule}
use cnidaria_cni.Nftables.Chains.{rule}
use cnidaria_cni.Nftables.Identifier.{identifier}
use cnidaria_cni.Nftables.Verdicts.{meets}
use cnidaria_cni.Nodepol.Types.{NodeNetworkPolicy}
use cnidaria_cni.Nodepol.Match.{Entry, comment, matches}
use cnidaria_cni.Nodepol.Add.{
  Direction, entries, entry_rules, chain_for, render_closing, jump, Modes, policy_error,
}

-- The chains that the policies' rendering gives, in order.
abbrev pub Renders : External → Direction → List NodeNetworkPolicy → List Chain → Type 0
Renders x d [] [] = Unit
Renders x d (p ∷ ps) (c ∷ cs) = (chain_for x d p ≡ ok c) × Renders x d ps cs
Renders x d _ _ = ⊥

-- One jump for each policy.
abbrev pub policy_jumps : List NodeNetworkPolicy → List Chain → List Rule
policy_jumps (p ∷ ps) (c ∷ cs) = jump c.name (comment p.name) ∷ policy_jumps ps cs
policy_jumps _ _ = []

pub record Added (x : External) (d : Direction) (ps : List NodeNetworkPolicy) (cs cs' : List Chain)
    (js js' : List Rule) : Type 0 where
  pub added : List Chain
  pub renders : Renders x d ps added
  pub chains : cs' ≡ cs ++ added
  pub jumps : js' ≡ js ++ policy_jumps ps added

pub render_closing-Added :
    (x : External) (d : Direction) (mode : String) (ps : List NodeNetworkPolicy) (cs : List Chain)
    (js : List Rule) (ms : Modes) {cs' : List Chain} {js' : List Rule} {ms' : Modes}
    → render_closing x d mode ps (cs, js, ms) ≡ ok (cs', js', ms')
    → Added x d ps cs cs' js js'
unfolding render_closing
render_closing-Added x d mode [] cs js ms h = record {
  added = [];
  renders = tt;
  chains = ground (arith, append-nil cs);
  jumps = ground (arith, append-nil js);
}
render_closing-Added x d mode (p ∷ ps) cs js ms h =
    let (c, made, rest) = >>=-eq-ok (chain_for x d p) _ h in
    let a =
      render_closing-Added x d mode ps (cs ++ (c ∷ [])) (js ++ (jump c.name (comment p.name) ∷ []))
        _ rest in
    record {
      added = c ∷ a.added;
      renders = (made, a.renders);
      chains = a.chains ∙ append_assoc cs (c ∷ []) a.added;
      jumps = a.jumps ∙ append_assoc js (jump c.name (comment p.name) ∷ []) _;
    }

-- A packet meets an entry if it meets one of the entry's match texts.
abbrev entry_allows : External → Direction → (String → Bool) → Entry → Bool
entry_allows x d holds e = elim (matches x d.addr e) [
  | ok ms ↦ any (meets holds) ms
  | err _ ↦ false
]

-- A policy allows a packet in a direction if the packet meets one of its entries.
unfoldable pub allows : External → Direction → (String → Bool) → NodeNetworkPolicy → Bool
unfolding any
allows x d holds p = any (entry_allows x d holds) (entries d p)

any-map-rule :
    (holds : String → Bool) (said : String) (ms : List String)
    → any (λ (r : Rule). meets holds r.match) (map (λ m. rule m "accept" said) ms)
      ≡ any (meets holds) ms
unfolding any
any-map-rule holds said [] = refl
any-map-rule holds said (m ∷ ms) = ground (arith, any-map-rule holds said ms)

accept-map-rule :
    (said : String) (ms : List String)
    → All (λ (r : Rule). r.verdict ≡ "accept") (map (λ m. rule m "accept" said) ms)
accept-map-rule said [] = tt
accept-map-rule said (m ∷ ms) = (refl, accept-map-rule said ms)

pub record Accepts (holds : String → Bool) (rules : List Rule) (allowed : Bool) : Type 0 where
  pub accepting : All (λ r. r.verdict ≡ "accept") rules
  pub meaning : any (λ r. meets holds r.match) rules ≡ allowed

-- The rules of one entry before those of the later ones.
entry-Accepts :
    (holds : String → Bool) (said : String) (ms : List String) (later : List Rule) (rest : Bool)
    → Accepts holds later rest
    → Accepts holds (map (λ m. rule m "accept" said) ms ++ later) (any (meets holds) ms || rest)
entry-Accepts holds said ms later rest a = record {
  accepting =
      All-append _ (map (λ m. rule m "accept" said) ms) later (accept-map-rule said ms) a.accepting;
  meaning =
      any-append _ (map (λ m. rule m "accept" said) ms) later
      ∙ rw (any-map-rule holds said ms) (rw a.meaning refl);
}

entry_allows_ok :
    (x : External) (d : Direction) (holds : String → Bool) (e : Entry) {ms : List String}
    → matches x d.addr e ≡ ok ms
    → entry_allows x d holds e ≡ any (meets holds) ms
entry_allows_ok x d holds e h = rw (h, entry_allows) refl

entry_rules-Accepts :
    (x : External) (d : Direction) (holds : String → Bool) (name : String) (es : List Entry)
    {rules : List Rule}
    → entry_rules x d name es ≡ ok rules
    → Accepts holds rules (any (entry_allows x d holds) es)
unfolding entry_rules any
entry_rules-Accepts x d holds name [] h = record {
  accepting = ground arith;
  meaning = ground arith;
}
entry_rules-Accepts x d holds name (e ∷ es) {rules} h =
    let (ms, matched, rest) =
      >>=-eq-ok (map_err (λ m. d.name <> (": " <> m)) (matches x d.addr e)) _ h in
    let (later, rendered, whole) = >>=-eq-ok (entry_rules x d name es) _ rest in
    let allowed : entry_allows x d holds e ≡ any (meets holds) ms =
      entry_allows_ok x d holds e (map_err-eq-ok _ (matches x d.addr e) matched) in
    let here =
      entry-Accepts holds (comment name) ms later _
        (entry_rules-Accepts x d holds name es rendered) in
    let same : map (λ m. rule m "accept" (comment name)) ms ++ later ≡ rules = ground arith in
    rw allowed (
      subst (λ rs. Accepts holds rs (any (meets holds) ms || any (entry_allows x d holds) es)) same
        here)

pub chain_for-Accepts :
    (x : External) (d : Direction) (holds : String → Bool) (p : NodeNetworkPolicy) {c : Chain}
    → chain_for x d p ≡ ok c
    → Accepts holds c.rules (allows x d holds p)
unfolding chain_for allows
chain_for-Accepts x d holds p {c} h =
    let (name, named, rest) =
      >>=-eq-ok (map_err (policy_error p.name) (identifier x.sha256_hex d.prefix (p.name ∷ []))) _
        h in
    let (rules, rendered, whole) =
      >>=-eq-ok (map_err (policy_error p.name) (entry_rules x d p.name (entries d p))) _ rest in
    let a =
      entry_rules-Accepts x d holds p.name (entries d p)
        (map_err-eq-ok _ (entry_rules x d p.name (entries d p)) rendered) in
    let same : rules ≡ c.rules = ground arith in
    subst (λ rs. Accepts holds rs (any (entry_allows x d holds) (entries d p))) same a
