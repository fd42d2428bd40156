-- ===== src/Netpol/Peers.antt =====
-- internal/netpol/render.go: the pods that an entry names, and the matches that recognise them.
use cnidaria_cni.Base.{
  ℕ, String, ◌<>◌, Bool, true, false, ◌&&◌, Option, none, some, List, [], ◌∷◌, if◌then◌else◌,
  string_eq, contains, Result, ok, ◌>>=◌, select, itoa,
}
use cnidaria_cni.Kube.{External, Labels, LabelSelector}
use cnidaria_cni.Netpol.Types.{Pod, Namespace, NetworkPolicy, Peer}
use cnidaria_cni.Netpol.Match.{Match, match_all, addr_matches, ip_block_match}
use cnidaria_cni.Netpol.Sets.{Dir, Cluster, State, as_selector, pod_sets}

-- A selector that may be left out, `labels.Everything()` in its place.
unfoldable pub selector_or_all : External → Option LabelSelector → Result String (Labels → Bool)
unfolding as_selector
selector_or_all x none = ok (λ _. true)
selector_or_all x (some s) = as_selector x s

unfoldable pub selected_namespaces : (Labels → Bool) → List (String × Namespace) → List String
selected_namespaces f [] = []
selected_namespaces f ((name, ns) ∷ rest) =
    let later = selected_namespaces f rest in if f ns.labels then name ∷ later else later

-- The names of the namespaces that a peer covers.
unfoldable pub covered :
    External → Cluster → String → Option LabelSelector → Result String (List String)
unfolding as_selector selected_namespaces
covered x c policy_namespace none = ok (policy_namespace ∷ [])
covered x c policy_namespace (some s) = do
  f ← as_selector x s
  ok (selected_namespaces f c.namespaces)

-- `peerPods`
unfoldable pub peer_pods : External → Cluster → String → Peer → Result String (List Pod)
unfolding selector_or_all covered select contains
peer_pods x c policy_namespace peer = do
  pod_selector ← selector_or_all x peer.pod_selector
  names ← covered x c policy_namespace peer.namespace_selector
  ok (select (λ pod. contains names pod.namespace && pod_selector pod.labels) c.pods)

abbrev pub is_none {ℓ} : {A : Type ℓ} → Option A → Bool
is_none none = true
is_none (some a) = false

-- The part of a set name that says which entry it came from.
unfoldable pub entry_name : Dir → ℕ → ℕ → String
unfolding itoa
entry_name d i j = d.tag <> (itoa i <> ("." <> itoa j))

unfoldable pub selector_peer :
    External
    → Cluster
    → NetworkPolicy
    → Dir
    → ℕ
    → ℕ
    → Peer
    → State
    → Result String (List Match × List Pod × State)
unfolding peer_pods pod_sets addr_matches entry_name
selector_peer x c policy d i j peer s = do
  pods ← peer_pods x c policy.namespace peer
  (addrs, s) ← pod_sets x "peer_" (policy.namespace ∷ policy.name ∷ entry_name d i j ∷ []) pods s
  ok (addr_matches addrs (λ family set. family <> (" " <> (d.peer_addr <> (" @" <> set)))), pods, s)

-- `peer`
unfoldable pub peer_matches :
    External
    → Cluster
    → NetworkPolicy
    → Dir
    → ℕ
    → ℕ
    → Peer
    → State
    → Result String (List Match × List Pod × State)
unfolding ip_block_match selector_peer
peer_matches x c policy d i j peer s = elim peer.ip_block [
  | some block ↦ ok (ip_block_match d.peer_addr block ∷ [], [], s)
  | none ↦
      if is_none peer.pod_selector && is_none peer.namespace_selector
      then ok (match_all ∷ [], c.pods, s)
      else selector_peer x c policy d i j peer s
]
