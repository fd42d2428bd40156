-- ===== src/Netpol/Ending.antt =====
-- What `Add` leaves of the chains that are in the table before it: their last rules, and all of the chains that are
-- not dispatch chains.
use mathlib.Core.Path.{subst}
use cnidaria_cni.Base.{
  String, ◌≡◌, refl, sym, ap, ◌∙◌, ◌≢◌, some, List, [], ◌∷◌, ◌++◌, append_assoc, ◌==◌, string_eq,
  Bool-cases, inl, inr, ok, differs_text,
}
use cnidaria_cni.Kube.{External}
use cnidaria_cni.Nftables.Ruleset.{
  Chain, Rule, Ruleset, chain_named, write_chain, insert_before_last,
}
use cnidaria_cni.Nftables.Ruleset.Finding.{
  chain_named-append, write_chain-same, write_chain-other, insert_before_last-ends,
}
use cnidaria_cni.Netpol.Types.{Params}
use cnidaria_cni.Netpol.Sets.{ingress, egress}
use cnidaria_cni.Netpol.Add.{add}
use cnidaria_cni.Netpol.Dispatching.{IsStable, add-stable}

-- A chain of the table whose last rule is this one.
pub record EndsWith (last : Rule) (name : String) (cs : List Chain) : Type 0 where
  pub chain : Chain
  pub found : chain_named name cs ≡ some chain
  pub init : List Rule
  pub ends : chain.rules ≡ init ++ (last ∷ [])

EndsWith-write :
    (last : Rule) (name target : String) (cs : List Chain) (jumps : List Rule)
    → EndsWith last name cs
    → EndsWith last name
        (write_chain target (λ c. record c { rules = insert_before_last jumps c.rules }) cs)
EndsWith-write last name target cs jumps e = elim (Bool-cases (name == target)) [
  | inl same ↦
      let it : name ≡ target = (string_eq.beq_iff _ _).0 same in
      record {
        chain = record (e.chain) { rules = insert_before_last jumps e.chain.rules };
        found =
            subst
              (λ t.
                chain_named name
                  (write_chain t (λ c. record c { rules = insert_before_last jumps c.rules }) cs)
                ≡ some (record (e.chain) { rules = insert_before_last jumps e.chain.rules }))
              it (write_chain-same cs name _ {c = e.chain} (λ k. refl) e.found);
        init = e.init ++ jumps;
        ends =
            ap (insert_before_last jumps) e.ends
            ∙ insert_before_last-ends jumps e.init last
            ∙ sym (append_assoc e.init jumps (last ∷ []));
      }
  | inr other ↦ record {
    chain = e.chain;
    found =
        write_chain-other cs target name _ {c = e.chain} (λ k. refl)
          (differs_text name target other) e.found;
    init = e.init;
    ends = e.ends;
  }
]

EndsWith-stable : (last : Rule) (name : String) → IsStable (EndsWith last name)
EndsWith-stable last name = record {
  appending = λ cs c e. record {
    chain = e.chain;
    found = chain_named-append cs (c ∷ []) name {c = e.chain} e.found;
    init = e.init;
    ends = e.ends;
  };
  entering = EndsWith-write last name ingress.dispatch;
  leaving = EndsWith-write last name egress.dispatch;
}

-- If `add` succeeds, a chain that is found under its name and whose last rule is some rule still has it as its last
-- rule afterwards: no jump is put behind it.
pub add-EndsWith :
    (x : External) (r : Ruleset) (p : Params) (last : Rule) (name : String) {next : Ruleset}
    → add x r p ≡ ok next
    → EndsWith last name r.chains
    → EndsWith last name next.chains
add-EndsWith x r p last name h e =
    add-stable (EndsWith last name) x r p (EndsWith-stable last name) h e

found-stable :
    (name : String) (c : Chain)
    → name ≢ ingress.dispatch
    → name ≢ egress.dispatch
    → IsStable (λ cs. chain_named name cs ≡ some c)
found-stable name c other_in other_out = record {
  appending = λ cs k h. chain_named-append cs (k ∷ []) name {c = c} h;
  entering =
      λ cs jumps h. write_chain-other cs ingress.dispatch name _ {c = c} (λ k. refl) other_in h;
  leaving =
      λ cs jumps h. write_chain-other cs egress.dispatch name _ {c = c} (λ k. refl) other_out h;
}

-- If `add` succeeds, a chain found under a name that is not that of a dispatch chain is found unchanged afterwards.
pub add-found :
    (x : External) (r : Ruleset) (p : Params) (name : String) (c : Chain) {next : Ruleset}
    → add x r p ≡ ok next
    → name ≢ ingress.dispatch
    → name ≢ egress.dispatch
    → chain_named name r.chains ≡ some c
    → chain_named name next.chains ≡ some c
add-found x r p name c h other_in other_out found =
    add-stable (λ cs. chain_named name cs ≡ some c) x r p (found-stable name c other_in other_out) h
      found
