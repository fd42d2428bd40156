-- ===== src/Nftables/Validate.antt =====
-- internal/nftables/render.go: which parameters `Render` refuses.
pub mod Renderable
use cnidaria_cni.Base.{
  ℕ, String, ◌<>◌, Bool, true, false, ◌&&◌, ◌||◌, not, List, [], ◌∷◌, if◌then◌else◌, ltb, ◌==◌,
  nat_eq, ◌≡◌, refl, Result, ok, err, ◌>>◌, guard, quote,
}
use cnidaria_cni.Netip.Addr.{is4, is6}
use cnidaria_cni.Netip.Prefix.{Prefix, prefix_eq, prefix_is_valid, prefix_text}
use cnidaria_cni.Nftables.Params.{PortRange, SafePorts, Params, port_range_text}

-- The loop over the pod CIDRs in `Params.validate`, with `sawV4` and `sawV6`.
unfoldable pub check_pod_cidrs : Bool → Bool → List Prefix → Result String (Unit {0})
unfolding prefix_text quote
check_pod_cidrs saw_v4 saw_v6 [] = ok tt
check_pod_cidrs saw_v4 saw_v6 (cidr ∷ rest) =
    let after_v4 = check_pod_cidrs true saw_v6 rest in
    let after_v6 = check_pod_cidrs saw_v4 true rest in
    if not (prefix_is_valid cidr)
    then err ("invalid pod CIDR " <> quote (prefix_text cidr))
    else if is4 cidr.addr && not saw_v4
    then after_v4
    else if is6 cidr.addr && not saw_v6
    then after_v6
    else err ("more than one pod CIDR for one address family: " <> prefix_text cidr)

unfoldable pub check_cluster_cidrs : List Prefix → Result String (Unit {0})
unfolding prefix_text quote
check_cluster_cidrs [] = ok tt
check_cluster_cidrs (cidr ∷ rest) =
    let later = check_cluster_cidrs rest in
    if not (prefix_is_valid cidr)
    then err ("invalid cluster pod CIDR " <> quote (prefix_text cidr))
    else later

abbrev check_port : String → ℕ → Result String (Unit {0})
check_port name port = guard (not (port == 0)) ("safe port " <> (name <> " is required"))

abbrev check_range : String → PortRange → Result String (Unit {0})
check_range name ports =
    guard (not (ports.from == 0 || ltb ports.to ports.from))
      ("safe port range " <> (name <> (" is empty: " <> port_range_text ports)))

-- The two loops over maps go in the order that the literals list.
unfoldable pub check_ports : SafePorts → Result String (Unit {0})
unfolding port_range_text
check_ports ports = do
  check_port "ssh" ports.ssh
  check_port "kubelet" ports.kubelet
  check_port "apiserver" ports.api_server
  check_port "dns" ports.dns
  check_range "etcd" ports.etcd
  check_range "nodeport" ports.node_port

abbrev pub is_empty {ℓ} : {A : Type ℓ} → List A → Bool
is_empty [] = true
is_empty (x ∷ xs) = false

pub is_empty-eq {ℓ} : {A : Type ℓ} (l : List A) → is_empty l ≡ true → l ≡ []
is_empty-eq [] h = refl
is_empty-eq (y ∷ l) h = cc

-- `Params.validate`
unfoldable pub validate : Params → Result String (Unit {0})
unfolding check_pod_cidrs check_cluster_cidrs check_ports
validate p = do
  guard (not (is_empty p.pod_cidrs)) "at least one pod CIDR is required"
  check_pod_cidrs false false p.pod_cidrs
  check_cluster_cidrs p.cluster_pod_cidrs
  check_ports p.safe_ports
