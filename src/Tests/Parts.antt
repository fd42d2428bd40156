-- ===== src/Tests/Parts.antt =====
-- The parts of the table, the applier, and the parts around the table.
use Prim.Native.String.{len}
use text.Mathlib.TextBridge.{IsPrefix}
use cnidaria_cni.Base.{
  ◌≤◌, ◌<◌, String, ◌<>◌, ◌≡◌, ◌↔◌, refl, Bool, true, false, [], ◌∷◌, arith, ◌==◌, nat_eq,
  string_eq, All, contains, differs_text, Result, ok, err, ◌||◌, ◌+◌, List, some, ◌*◌, ◌^◌,
}
use cnidaria_cni.Netip.Addr.{v4, no_addr, v6}
use cnidaria_cni.Netip.Prefix.{prefix_eq, masked}
use cnidaria_cni.Nftables.Ruleset.{clip_comment}
use cnidaria_cni.Nftables.Ruleset.Comments.{clip_comment_bound}
use cnidaria_cni.Nftables.Validate.{validate}
use cnidaria_cni.Nftables.Validate.Renderable.{IsRenderable, validate_iff}
use cnidaria_cni.Nftables.Families.{split_families}
use cnidaria_cni.Nftables.Families.Order.{split_families_of_same}
use cnidaria_cni.Nftables.Identifier.{identifier}
use cnidaria_cni.Nftables.Identifier.Injective.{identifier_injective, identifier_bound}
use cnidaria_cni.Nftables.Applier.{new_applier, forget, apply}
use cnidaria_cni.Nftables.Applier.Remembering.{
  IsTransaction, started, applied, IsRemembered, Reach-IsRemembered, apply-forget,
}
use cnidaria_cni.Conflist
use cnidaria_cni.Conflist.Rendered.{IsConfigurable, expected, render_iff}
use cnidaria_cni.Routes.{Node, Route, Missing, compute, HeldAddr, pick_global_ipv6}
use cnidaria_cni.Routes.Sound.{Leads, compute-Leads}
use cnidaria_cni.Routes.Accounted.{Accounts, compute-Accounts}
use mathlib.Core.List.{Perm}
use cnidaria_cni.Tests.Data.{external, ten, pod_prefix, table_params}
use cnidaria_cni.Routes.Lowest.{Picked, pick_global_ipv6-Picked}

-- An nft whose kernel holds the last text.
abbrev nft : String → String → Result String (Unit {0}) × String
nft text k = (ok tt, text)

abbrev HoldsText : String → String → Type 0
HoldsText text k = text ≡ k

nft-IsTransaction : IsTransaction nft HoldsText
nft-IsTransaction = record { success = λ text k h. refl; failure = λ text k h. absurd (never h) }
  where
    never : {e : String} → ◌≡◌ {A = Result String (Unit {0})} (ok tt) (err e) → ⊥
    never h = cc

Reach-IsRemembered_example :
    IsRemembered nft HoldsText
      (apply nft "table" new_applier "").1
      (apply nft "table" new_applier "").2
Reach-IsRemembered_example =
    Reach-IsRemembered nft HoldsText nft-IsTransaction (applied "table" (started ""))

apply-forget_example :
    (apply nft "table" (forget new_applier) "" ≡ (ok true, record { applied = "table" }, "table"))
    × (apply nft "table" (record { applied = "table" }) "table"
        ≡ (ok false, record { applied = "table" }, "table"))
apply-forget_example =
    apply-forget nft HoldsText "table" new_applier "" "table" (differs_text "table" "" refl) refl

validate_iff_example : (validate table_params ≡ ok tt) ↔ IsRenderable table_params
validate_iff_example = validate_iff table_params

identifier_injective_example : ◌≡◌ {A = List String} ("web" ∷ []) ("web" ∷ [])
unfolding identifier
identifier_injective_example =
    identifier_injective external.sha256_hex "nodepol_in_" ("web" ∷ []) ("web" ∷ [])
      "nodepol_in_web" (omega arith) (omega arith) refl refl

identifier_bound_example : len "nodepol_in_web" ≤ 255
unfolding identifier
identifier_bound_example =
    identifier_bound external.sha256_hex "nodepol_in_" ("web" ∷ []) {id = "nodepol_in_web"} refl

split_families_of_same_example :
    split_families (ten ∷ pod_prefix ∷ []) ≡ split_families (pod_prefix ∷ ten ∷ ten ∷ [])
unfolding contains
split_families_of_same_example =
    split_families_of_same (ten ∷ pod_prefix ∷ []) (pod_prefix ∷ ten ∷ ten ∷ [])
      (λ p. same (masked ten == p) (masked pod_prefix == p))
  where
    same : (a b : Bool) → (a || (b || false)) ≡ (b || (a || (a || false)))
    same a b = ground arith

clip_comment_bound_example :
    (len (clip_comment "pods") ≤ 128)
    × ((len "pods" ≤ 128 → clip_comment "pods" ≡ "pods")
        × (128 < len "pods"
            → (t : String) × IsPrefix t "pods" × (clip_comment "pods" ≡ t <> "...")))
clip_comment_bound_example = clip_comment_bound "pods"

abbrev bridge : Conflist.Params
bridge = record { name = "cni"; bridge = "cni0"; mtu = 1500; pod_cidrs = pod_prefix ∷ [] }

render_iff_example :
    (Conflist.render bridge ≡ ok (expected bridge))
    ↔ (IsConfigurable bridge × (expected bridge ≡ expected bridge))
render_iff_example = render_iff bridge (expected bridge)

abbrev peer : Node
peer = record {
  name = "node-2";
  pod_cidrs = pod_prefix ∷ [];
  internal_ips = v4 0xc0a80002 ∷ [];
  annotated_ipv6 = no_addr;
}

compute-Leads_example : All (Leads "node-1" (peer ∷ [])) (compute "node-1" (peer ∷ [])).0
compute-Leads_example = compute-Leads "node-1" (peer ∷ [])

compute-Accounts_example :
    (rs : List Route) × (ms : List Missing) × Perm (compute "node-1" (peer ∷ [])).0 rs
    × Perm (compute "node-1" (peer ∷ [])).1 ms
    × Accounts ((peer, pod_prefix) ∷ []) rs ms
compute-Accounts_example = compute-Accounts "node-1" (peer ∷ [])

-- Two usable addresses, and one of a narrower scope.
abbrev held_addrs : List HeldAddr
held_addrs =
    record {
      ip = some (v6 (0x20010db8 * 2 ^ 96 + 7) "");
      is_universe = true;
      has_unusable_flag = false;
    }
    ∷ record { ip = some (v6 5 ""); is_universe = false; has_unusable_flag = false }
    ∷ record {
      ip = some (v6 (0x20010db8 * 2 ^ 96 + 3) "");
      is_universe = true;
      has_unusable_flag = false;
    }
    ∷ []

pick_global_ipv6-Picked_example : Picked held_addrs (pick_global_ipv6 held_addrs)
pick_global_ipv6-Picked_example = pick_global_ipv6-Picked held_addrs
