-- ===== src/Nodepol/Placing.antt =====
-- One direction of `Add` puts its chains in the table, and leaves the other direction's there.
use mathlib.Core.List.{Memᴰ}
use Prim.Native.String.{len}
use cnidaria_cni.Base.{
  mem_left, mem_right, every_member, ◌≡◌, refl, ◌∙◌, ◌≢◌, false, some, List, [], ◌∷◌, ◌++◌, ◌≤◌,
  arith, string_eq, All, All-imp, ok, >>=-eq-ok,
}
use cnidaria_cni.Kube.{External}
use cnidaria_cni.Nftables.Ruleset.{Chain, chain_named}
use cnidaria_cni.Nftables.Validate.{is_empty}
use cnidaria_cni.Nodepol.Types.{NodeNetworkPolicy}
use cnidaria_cni.Nodepol.Add.{
  Direction, Modes, dispatch_chain, closed_by, effective_mode, render_closing, jump_from,
  add_direction,
}
use cnidaria_cni.Nodepol.Chains.{Renders, policy_jumps, render_closing-Added}
use cnidaria_cni.Nodepol.Jumping.{jump_from-member, jump_from-named, jump_from-other}
use cnidaria_cni.Nodepol.Placed.{IsApart, Placed, added-apart, members_kept}
use cnidaria_cni.Nftables.Ruleset.Finding.{chain_named-append}

-- What a successful run of one direction did.
pub record Ran (x : External) (d : Direction) (ps : List NodeNetworkPolicy) (cs cs' : List Chain)
    : Type 0 where
  pub added : List Chain
  pub renders : Renders x d ps added
  pub jumped :
      jump_from
        ((cs ++ added) ++ (dispatch_chain d (effective_mode ps) (policy_jumps ps added) ∷ []))
        d.chain
        d.dispatch
      ≡ ok cs'

pub add_direction-Ran :
    (x : External) (selected : List NodeNetworkPolicy) (d : Direction) (cs : List Chain)
    (ms : Modes) {cs' : List Chain} {ms' : Modes}
    → is_empty (closed_by d selected) ≡ false
    → add_direction x selected d (cs, ms) ≡ ok (cs', ms')
    → Ran x d (closed_by d selected) cs cs'
unfolding add_direction
add_direction-Ran x selected d cs ms {cs'} {ms'} closing h =
    let ps = closed_by d selected in
    let mode = effective_mode ps in
    let body = rw closing at h in
    let ((cs1, js, ms1), rendered, rest) =
      >>=-eq-ok (render_closing x d mode ps (cs, [], ms)) _ body in
    let (cs2, jumped, whole) =
      >>=-eq-ok (jump_from (cs1 ++ (dispatch_chain d mode js ∷ [])) d.chain d.dispatch) _ rest in
    let a = render_closing-Added x d mode ps cs [] ms rendered in
    let same : cs2 ≡ cs' = ground arith in
    record {
      added = a.added;
      renders = a.renders;
      jumped = rw (← a.chains) (rw (← a.jumps) (rw (← same) jumped));
    }

module _ (x : External) (d : Direction) (ps : List NodeNetworkPolicy) (base : Chain)
    (cs : List Chain) where
  pub Ran-Placed :
      {cs' : List Chain}
      → len d.prefix ≤ 200
      → IsApart d d.chain
      → chain_named d.chain cs ≡ some base
      → Ran x d ps cs cs'
      → Placed x d ps base cs'
  unfolding dispatch_chain
  Ran-Placed {cs'} short apart found ran =
      let last = dispatch_chain d (effective_mode ps) (policy_jumps ps ran.added) ∷ [] in
      let inside : All (λ c. Memᴰ c ((cs ++ ran.added) ++ last)) ran.added =
        All-imp _ (λ c m. mem_left (cs ++ ran.added) last (mem_right cs ran.added m)) ran.added
          (every_member ran.added) in
      record {
        added = ran.added;
        renders = ran.renders;
        members =
            members_kept _ d.chain d.dispatch ran.added ran.jumped
              (added-apart x d d.chain ps ran.added ran.renders short apart) inside;
        dispatch =
            jump_from-member _ d.chain d.dispatch ran.jumped apart.dispatch
              (mem_right (cs ++ ran.added) last (Memᴰ.head refl));
        jumping = jump_from-named ((cs ++ ran.added) ++ last) d.chain d.dispatch ran.jumped (
            chain_named-append (cs ++ ran.added) last d.chain
              (chain_named-append cs ran.added d.chain found));
      }

  -- A later direction keeps what is in place.
  pub Placed-kept :
      (e : Direction) (qs : List NodeNetworkPolicy) {cs' : List Chain}
      → len d.prefix ≤ 200
      → IsApart d e.chain
      → d.chain ≢ e.chain
      → Placed x d ps base cs
      → Ran x e qs cs cs'
      → Placed x d ps base cs'
  unfolding dispatch_chain
  Placed-kept e qs {cs'} short apart other placed ran =
      let more = ran.added in
      let last = dispatch_chain e (effective_mode qs) (policy_jumps qs ran.added) ∷ [] in
      record {
        added = placed.added;
        renders = placed.renders;
        members =
            members_kept _ e.chain e.dispatch placed.added ran.jumped
              (added-apart x d e.chain ps placed.added placed.renders short apart)
              (All-imp _ (λ c m. mem_left (cs ++ more) last (mem_left cs more m)) placed.added
                placed.members);
        dispatch =
            jump_from-member _ e.chain e.dispatch ran.jumped apart.dispatch
              (mem_left (cs ++ more) last (mem_left cs more placed.dispatch));
        jumping =
            jump_from-other ((cs ++ more) ++ last) e.chain e.dispatch d.chain ran.jumped other
            ∙ chain_named-append (cs ++ more) last d.chain
                (chain_named-append cs more d.chain placed.jumping);
      }
