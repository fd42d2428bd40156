-- ===== src/Nodepol/Add.antt =====
-- internal/nodepol/nodepol.go: `Add` and what it is made of.
use Prim.Native.String
use cnidaria_cni.Base.{
  Ordering, String, ◌<>◌, Bool, ◌||◌, not, none, some, List, [], ◌∷◌, ◌++◌, map, if◌then◌else◌,
  ◌==◌, string_eq, contains, Result, ok, err, ◌>>=◌, map_err, sort_func, lookup, insert, quote,
}
use cnidaria_cni.Kube.{Labels, External}
use cnidaria_cni.Nftables.Ruleset.{Chain, Rule, Ruleset}
use cnidaria_cni.Nftables.Params.{chain_input, chain_output}
use cnidaria_cni.Nftables.Chains.{rule}
use cnidaria_cni.Nftables.Validate.{is_empty}
use cnidaria_cni.Nftables.Identifier.{identifier}
use cnidaria_cni.Nodepol.Types.{
  NodeNetworkPolicy, NodeNetworkPolicyIngressRule, NodeNetworkPolicyEgressRule, mode_permissive,
  mode_enforce, policy_type_ingress, policy_type_egress,
}
use cnidaria_cni.Nodepol.Match.{Entry, comment, matches}

-- `Node`
pub record Node : Type 0 where
  pub name : String
  pub labels : Labels

-- A `PolicyError` with its policy and what went wrong, or any other error.
pub data AddError : Type 0 where
  policy_error : String → String → AddError
  other_error : String → AddError

-- `direction`
pub record Direction : Type 0 where
  pub name : String
  pub policy_type : String
  pub chain : String
  pub dispatch : String
  pub prefix : String
  pub addr : String

abbrev pub ingress : Direction
ingress = record {
  name = "ingress";
  policy_type = policy_type_ingress;
  chain = chain_input;
  dispatch = "input_dispatch";
  prefix = "nodepol_in_";
  addr = "saddr";
}

abbrev pub egress : Direction
egress = record {
  name = "egress";
  policy_type = policy_type_egress;
  chain = chain_output;
  dispatch = "output_dispatch";
  prefix = "nodepol_out_";
  addr = "daddr";
}

abbrev pub Modes : Type 0
Modes = List (String × String)

-- Whether a policy closes the direction.
unfoldable pub closes : Direction → NodeNetworkPolicy → Bool
unfolding contains
closes d p =
    if is_empty p.spec.policy_types
    then d.policy_type == policy_type_ingress || not (is_empty p.spec.egress)
    else contains p.spec.policy_types d.policy_type

-- `direction.closedBy`
unfoldable pub closed_by : Direction → List NodeNetworkPolicy → List NodeNetworkPolicy
unfolding closes
closed_by d [] = []
closed_by d (p ∷ ps) = let rest = closed_by d ps in if closes d p then p ∷ rest else rest

abbrev ingress_entry : NodeNetworkPolicyIngressRule → Entry
ingress_entry r = record { peers = r.from; ports = r.ports }

abbrev egress_entry : NodeNetworkPolicyEgressRule → Entry
egress_entry r = record { peers = r.to; ports = r.ports }

-- `direction.entries`
unfoldable pub entries : Direction → NodeNetworkPolicy → List Entry
entries d p =
    if d.policy_type == policy_type_ingress
    then map ingress_entry p.spec.ingress
    else map egress_entry p.spec.egress

-- The accepting rules of a policy's entries, in order.
unfoldable pub entry_rules : External → Direction → String → List Entry → Result String (List Rule)
unfolding matches comment
entry_rules x d name [] = ok []
entry_rules x d name (e ∷ es) = do
  ms ← map_err (λ m. d.name <> (": " <> m)) (matches x d.addr e)
  rest ← entry_rules x d name es
  ok (map (λ m. rule m "accept" (comment name)) ms ++ rest)

-- `direction.chainFor`
unfoldable pub chain_for : External → Direction → NodeNetworkPolicy → Result AddError Chain
unfolding entry_rules identifier entries
chain_for x d p = do
  name ← map_err (policy_error p.name) (identifier x.sha256_hex d.prefix (p.name ∷ []))
  rules ← map_err (policy_error p.name) (entry_rules x d p.name (entries d p))
  ok (record {
    name = name;
    base = none;
    rules = rules;
    comment = "NodeNetworkPolicy " <> (p.name <> (", " <> d.name));
  })

-- `effectiveMode`
unfoldable pub effective_mode : List NodeNetworkPolicy → String
effective_mode [] = mode_enforce
effective_mode (p ∷ ps) =
    let rest = effective_mode ps in if p.spec.mode == mode_enforce then rest else mode_permissive

-- `verdict`
unfoldable pub verdict : String → List Rule
unfolding quote
verdict mode =
    if mode == mode_enforce
    then rule "" "drop" "nodenetworkpolicy: no rule accepted" ∷ []
    else rule "limit rate 10/second" ("log prefix " <> quote "cnidaria-nodenetworkpolicy ")
        "nodenetworkpolicy: permissive, logged"
      ∷ rule "" "continue" "nodenetworkpolicy: permissive, counted and accepted"
      ∷ []

selected_by : External → Node → List NodeNetworkPolicy → Result AddError (List NodeNetworkPolicy)
selected_by x node [] = ok []
selected_by x node (p ∷ ps) = do
  matches ←
      map_err (λ e. policy_error p.name ("nodeSelector: " <> e))
        (x.label_selector p.spec.node_selector)
  rest ← selected_by x node ps
  ok (if matches node.labels then p ∷ rest else rest)

abbrev pub by_name : NodeNetworkPolicy → NodeNetworkPolicy → Ordering
by_name a b = String.compare a.name b.name

-- `selects`
unfoldable pub selects :
    External → Node → List NodeNetworkPolicy → Result AddError (List NodeNetworkPolicy)
unfolding selected_by sort_func
selects x node policies = do selected ← selected_by x node policies; ok (sort_func by_name selected)

abbrev pub jump : String → String → Rule
jump chain said = rule "" ("jump " <> chain) said

abbrev pub dispatch_jump : String → Rule
dispatch_jump dispatch = jump dispatch "nodenetworkpolicy: everything the safe rules did not accept"

-- `jumpFrom`
unfoldable pub jump_from : List Chain → String → String → Result AddError (List Chain)
jump_from [] chain dispatch = err (
    other_error
      ("nodepol: the table has no chain " <> (chain <> " to put the NodeNetworkPolicy jump in")))
jump_from (c ∷ cs) chain dispatch =
    let later = (do rest ← jump_from cs chain dispatch; ok (c ∷ rest)) in
    if c.name == chain
    then ok (record c { rules = c.rules ++ (dispatch_jump dispatch ∷ []) } ∷ cs)
    else later

-- `if modes[p.Name] != ModePermissive { modes[p.Name] = mode }`
unfoldable pub note_mode : String → String → Modes → Modes
unfolding lookup insert
note_mode name mode modes = elim (lookup name modes) [
  | none ↦ insert name mode modes
  | some old ↦ if old == mode_permissive then modes else insert name mode modes
]

-- The loop over the policies that close a direction: the chains, the jumps and the modes.
unfoldable pub render_closing :
    External
    → Direction
    → String
    → List NodeNetworkPolicy
    → List Chain × List Rule × Modes
    → Result AddError (List Chain × List Rule × Modes)
unfolding chain_for note_mode comment
render_closing x d mode [] acc = ok acc
render_closing x d mode (p ∷ ps) (chains, jumps, modes) = do
  chain ← chain_for x d p
  render_closing x d mode ps (
    chains ++ (chain ∷ []),
    jumps ++ (jump chain.name (comment p.name) ∷ []),
    note_mode p.name mode modes,
  )

unfoldable pub dispatch_chain : Direction → String → List Rule → Chain
unfolding verdict
dispatch_chain d mode jumps = record {
  name = d.dispatch;
  base = none;
  rules = jumps ++ verdict mode;
  comment =
      "NodeNetworkPolicy "
      <> (d.name <> (": one jump per policy, then what " <> (mode <> " does with the rest")));
}

-- One direction of `Add`'s loop.
unfoldable pub add_direction :
    External
    → List NodeNetworkPolicy
    → Direction
    → List Chain × Modes
    → Result AddError (List Chain × Modes)
unfolding closed_by effective_mode render_closing dispatch_chain jump_from
add_direction x selected d (chains, modes) =
    let closing = closed_by d selected in
    let rendered = (do
      (cs, jumps, ms) ← render_closing x d (effective_mode closing) closing (chains, [], modes)
      cs' ←
          jump_from (cs ++ (dispatch_chain d (effective_mode closing) jumps ∷ [])) d.chain
            d.dispatch
      ok (cs', ms)) in
    if is_empty closing then ok (chains, modes) else rendered

-- The table and the modes, before the caller's table is overwritten.
unfoldable pub rendered :
    External → Ruleset → Node → List NodeNetworkPolicy → Result AddError (Ruleset × Modes)
unfolding selects add_direction
rendered x rs node policies = do
  selected ← selects x node policies
  in_done ← add_direction x selected ingress (rs.chains, [])
  (chains, modes) ← add_direction x selected egress in_done
  ok (record rs { chains = chains }, modes)

-- `Add`: the modes or an error, and what the caller's table is afterwards.
unfoldable pub add :
    External → Ruleset → Node → List NodeNetworkPolicy → Result AddError Modes × Ruleset
unfolding rendered
add x rs node policies = elim (rendered x rs node policies) [
  | err e ↦ (err e, rs)
  | ok (next, modes) ↦ (ok modes, next)
]
