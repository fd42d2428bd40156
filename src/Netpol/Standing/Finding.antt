-- ===== src/Netpol/Standing/Finding.antt =====
-- Rules in the chain that is found under a name.
use mathlib.Core.Path.{subst}
use cnidaria_cni.Base.{
  String, ◌≡◌, refl, some, List, [], ◌∷◌, ◌++◌, ◌==◌, string_eq, Bool-cases, inl, inr, differs_text,
  every_member, Memᴰ,
}
use cnidaria_cni.Nftables.Ruleset.{Chain, Rule, chain_named, write_chain, insert_before_last}
use cnidaria_cni.Nftables.Ruleset.Finding.{chain_named-append, write_chain-same, write_chain-other}
use cnidaria_cni.Nftables.Ruleset.Inserting.{AreAmong, AreAmong-member, AreAmong-kept, AreAmong-new}

-- The chain found under a name has the rules.
pub record FoundWith (name : String) (rules : List Rule) (cs : List Chain) : Type 0 where
  pub chain : Chain
  pub found : chain_named name cs ≡ some chain
  pub among : AreAmong rules chain.rules

pub FoundWith-write :
    (name target : String) (rules jumps : List Rule) (cs : List Chain)
    → FoundWith name rules cs
    → FoundWith name rules
        (write_chain target (λ c. record c { rules = insert_before_last jumps c.rules }) cs)
FoundWith-write name target rules jumps cs f = elim (Bool-cases (name == target)) [
  | inl same ↦
      subst
        (λ t.
          FoundWith name rules
            (write_chain t (λ c. record c { rules = insert_before_last jumps c.rules }) cs))
        ((string_eq.beq_iff name target).0 same)
        (record {
          chain = record (f.chain) { rules = insert_before_last jumps f.chain.rules };
          found = write_chain-same cs name _ {c = f.chain} (λ k. refl) f.found;
          among = AreAmong-kept rules jumps f.chain.rules f.among;
        })
  | inr other ↦ record {
    chain = f.chain;
    found =
        write_chain-other cs target name _ {c = f.chain} (λ k. refl)
          (differs_text name target other) f.found;
    among = f.among;
  }
]

pub FoundWith-jumps :
    (name : String) (jumps : List Rule) (cs : List Chain) {c : Chain}
    → chain_named name cs ≡ some c
    → FoundWith name jumps
        (write_chain name (λ c. record c { rules = insert_before_last jumps c.rules }) cs)
FoundWith-jumps name jumps cs {c} found = record {
  chain = record c { rules = insert_before_last jumps c.rules };
  found = write_chain-same cs name _ {c = c} (λ k. refl) found;
  among = AreAmong-new jumps jumps c.rules (every_member jumps);
}

pub FoundWith-append :
    (cs ds : List Chain) (name : String) (rules : List Rule)
    → FoundWith name rules cs
    → FoundWith name rules (cs ++ ds)
FoundWith-append cs ds name rules f = record {
  chain = f.chain;
  found = chain_named-append cs ds name {c = f.chain} f.found;
  among = f.among;
}

-- One of the rules.
pub FoundWith-member :
    (name : String) (rules : List Rule) (cs : List Chain) {r : Rule}
    → Memᴰ r rules
    → FoundWith name rules cs
    → FoundWith name (r ∷ []) cs
FoundWith-member name rules cs {r} m f = record {
  chain = f.chain;
  found = f.found;
  among = (AreAmong-member rules f.chain.rules m f.among, tt);
}
