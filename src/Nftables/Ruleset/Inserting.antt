-- ===== src/Nftables/Ruleset/Inserting.antt =====
-- What the writes to a table's chains keep of their rules.
use cnidaria_cni.Base.{
  String, ◌≡◌, List, [], ◌∷◌, ◌++◌, ◌==◌, string_eq, Bool-cases, inl, inr, All, All-imp, ◌⊎◌, Memᴰ,
  mem_left, mem_right,
}
use cnidaria_cni.Nftables.Ruleset.{Chain, Rule, before_last, insert_before_last, write_chain}

-- Every rule of the first list is one of the second.
abbrev pub AreAmong : List Rule → List Rule → Type 0
AreAmong rules all = All (λ r. Memᴰ r all) rules

before_last-kept :
    (i : Rule) (rest rules : List Rule) {r : Rule}
    → Memᴰ r (i ∷ rest)
    → Memᴰ r (before_last i rest rules)
unfolding before_last
before_last-kept i [] rules m = mem_right rules (i ∷ []) m
before_last-kept i (j ∷ rest) rules (Memᴰ.head e) = Memᴰ.head e
before_last-kept i (j ∷ rest) rules (Memᴰ.tail m) = Memᴰ.tail (before_last-kept j rest rules m)

before_last-new :
    (i : Rule) (rest rules : List Rule) {r : Rule}
    → Memᴰ r rules
    → Memᴰ r (before_last i rest rules)
unfolding before_last
before_last-new i [] rules m = mem_left rules (i ∷ []) m
before_last-new i (j ∷ rest) rules m = Memᴰ.tail (before_last-new j rest rules m)

-- Neither the rules that were there nor those put in are lost.
insert_before_last-kept :
    (rules old : List Rule) {r : Rule} → Memᴰ r old → Memᴰ r (insert_before_last rules old)
unfolding insert_before_last
insert_before_last-kept rules [] m = elim m [ ]
insert_before_last-kept [] (i ∷ rest) m = m
insert_before_last-kept (j ∷ js) (i ∷ rest) m = before_last-kept i rest (j ∷ js) m

insert_before_last-new :
    (rules old : List Rule) {r : Rule} → Memᴰ r rules → Memᴰ r (insert_before_last rules old)
unfolding insert_before_last
insert_before_last-new rules [] m = m
insert_before_last-new [] (i ∷ rest) m = elim m [ ]
insert_before_last-new (j ∷ js) (i ∷ rest) m = before_last-new i rest (j ∷ js) m

pub AreAmong-member :
    (rules all : List Rule) {r : Rule} → Memᴰ r rules → AreAmong rules all → Memᴰ r all
AreAmong-member [] all m h = elim m [ ]
AreAmong-member (i ∷ rules) all {r} (Memᴰ.head e) (here, rest) = rw e here
AreAmong-member (i ∷ rules) all {r} (Memᴰ.tail m) (here, rest) = AreAmong-member rules all m rest

pub AreAmong-kept :
    (rules jumps old : List Rule)
    → AreAmong rules old
    → AreAmong rules (insert_before_last jumps old)
AreAmong-kept rules jumps old h = All-imp _ (λ r m. insert_before_last-kept jumps old m) rules h

pub AreAmong-new :
    (rules jumps old : List Rule)
    → AreAmong rules jumps
    → AreAmong rules (insert_before_last jumps old)
AreAmong-new rules jumps old h = All-imp _ (λ r m. insert_before_last-new jumps old m) rules h

-- A chain of this name has the rules.
abbrev pub HasRules : String → List Rule → List Chain → Type 0
HasRules name rules [] = ⊥
HasRules name rules (c ∷ cs) = ((c.name ≡ name) × AreAmong rules c.rules) ⊎ HasRules name rules cs

pub HasRules-append :
    (name : String) (rules : List Rule) (cs ds : List Chain)
    → HasRules name rules cs
    → HasRules name rules (cs ++ ds)
HasRules-append name rules [] ds h = absurd h
HasRules-append name rules (c ∷ cs) ds (inl here) = inl here
HasRules-append name rules (c ∷ cs) ds (inr h) = inr (HasRules-append name rules cs ds h)

pub HasRules-last :
    (name : String) (rules : List Rule) (cs : List Chain) (c : Chain)
    → (c.name ≡ name) × AreAmong rules c.rules
    → HasRules name rules (cs ++ (c ∷ []))
HasRules-last name rules [] c h = inl h
HasRules-last name rules (k ∷ ks) c h = inr (HasRules-last name rules ks c h)

pub HasRules-write :
    (name target : String) (rules jumps : List Rule) (cs : List Chain)
    → HasRules name rules cs
    → HasRules name rules
        (write_chain target (λ c. record c { rules = insert_before_last jumps c.rules }) cs)
unfolding write_chain
HasRules-write name target rules jumps [] h = absurd h
HasRules-write name target rules jumps (c ∷ cs) h = elim (Bool-cases (c.name == target)) [
  | inl same ↦ rw same (elim h [
    | inl (named, among) ↦ inl (named, AreAmong-kept rules jumps c.rules among)
    | inr later ↦ inr later
  ])
  | inr other ↦ rw other (elim h [
    | inl here ↦ inl here
    | inr later ↦ inr (HasRules-write name target rules jumps cs later)
  ])
]
