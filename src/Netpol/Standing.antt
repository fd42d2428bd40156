-- ===== src/Netpol/Standing.antt =====
-- How a policy stands in the table, and that later policies leave it there.
pub mod Finding
pub mod Jumping
pub mod Every
use cnidaria_cni.Base.{
  String, ◌<>◌, ◌≡◌, ◌∙◌, ◌≢◌, false, List, [], ◌∷◌, ◌++◌, ◌==◌, string_eq, inl, inr, ◌⊎◌, ok,
}
use cnidaria_cni.Kube.{External}
use cnidaria_cni.Nftables.Ruleset.{Chain, Rule}
use cnidaria_cni.Nftables.Ruleset.Inserting.{HasRules, HasRules-append, HasRules-write}
use cnidaria_cni.Nftables.Identifier.{identifier}
use cnidaria_cni.Netpol.Types.{Pod, NetworkPolicy, governs}
use cnidaria_cni.Netpol.Sets.{Dir, Cluster, State}
use cnidaria_cni.Netpol.Policy.{direction_rules}
use cnidaria_cni.Netpol.Dispatching.{IsStable}
use cnidaria_cni.Netpol.Standing.Finding.{FoundWith, FoundWith-write, FoundWith-append}
use cnidaria_cni.Netpol.Standing.Jumping.{HasJumps, HasJumps-moved}

module _ (x : External) (c : Cluster) (p : NetworkPolicy) where
  -- A direction of the policy as it stands in the table: a chain of its name has the rules of the direction, and the
  -- dispatch chain has a jump to it for each family that the selected pods have addresses of.
  pub record Rendered (d : Dir) (selected : List Pod) (cs : List Chain) : Type 0 where
    pub chain : String
    pub named : identifier x.sha256_hex d.chain_prefix (p.namespace ∷ p.name ∷ []) ≡ ok chain
    pub reached : State
    pub left : State
    pub rules : List Rule
    pub ruled : direction_rules x c p d selected reached ≡ ok (rules, left)
    pub holds : HasRules chain rules cs
    pub jumps : HasJumps x p d selected chain cs

  Rendered-moved :
      (d : Dir) (selected : List Pod) (cs ds : List Chain)
      → ((name : String) (rules : List Rule) → HasRules name rules cs → HasRules name rules ds)
      → ((name : String) (rules : List Rule) → FoundWith name rules cs → FoundWith name rules ds)
      → Rendered d selected cs
      → Rendered d selected ds
  Rendered-moved d selected cs ds has found r = record {
    chain = r.chain;
    named = r.named;
    reached = r.reached;
    left = r.left;
    rules = r.rules;
    ruled = r.ruled;
    holds = has r.chain r.rules r.holds;
    jumps = HasJumps-moved x p d selected r.chain cs ds found r.jumps;
  }

  -- The policy does not govern the direction, or it is rendered.
  abbrev pub InPlace : Dir → List Pod → List Chain → Type 0
  InPlace d selected cs = (governs p d.typ ≡ false) ⊎ Rendered d selected cs

  InPlace-moved :
      (d : Dir) (selected : List Pod) (cs ds : List Chain)
      → ((name : String) (rules : List Rule) → HasRules name rules cs → HasRules name rules ds)
      → ((name : String) (rules : List Rule) → FoundWith name rules cs → FoundWith name rules ds)
      → InPlace d selected cs
      → InPlace d selected ds
  InPlace-moved d selected cs ds has found (inl free) = inl free
  InPlace-moved d selected cs ds has found (inr r) =
      inr (Rendered-moved d selected cs ds has found r)

  pub InPlace-stable : (d : Dir) (selected : List Pod) → IsStable (InPlace d selected)
  InPlace-stable d selected = record {
    appending = λ cs k.
        InPlace-moved d selected cs (cs ++ (k ∷ []))
          (λ name rules. HasRules-append name rules cs (k ∷ [])) (FoundWith-append cs (k ∷ []));
    entering = λ cs jumps.
        InPlace-moved d selected cs _ (λ name rules. HasRules-write name _ rules jumps cs)
          (λ name rules. FoundWith-write name _ rules jumps cs);
    leaving = λ cs jumps.
        InPlace-moved d selected cs _ (λ name rules. HasRules-write name _ rules jumps cs)
          (λ name rules. FoundWith-write name _ rules jumps cs);
  }
