-- ===== src/Nftables/Validate/Renderable.antt =====
-- Exactly which parameters `Render` accepts.
use cnidaria_cni.Base.{
  ℕ, ◌+◌, ◌≤◌, ◌<◌, ◌≡◌, refl, ◌≢◌, ◌↔◌, ◌⊎◌, Bool, true, false, List, [], ◌∷◌, All, length, select,
  arith, ok,
}
use cnidaria_cni.Netip.Addr.{is4, is6}
use cnidaria_cni.Netip.Prefix.{Prefix, prefix_is_valid}
use cnidaria_cni.Nftables.Params.{SafePorts, Params}
use cnidaria_cni.Nftables.Validate.{check_pod_cidrs, check_cluster_cidrs, check_ports, validate}

abbrev of_v4 : Prefix → Bool
of_v4 p = is4 p.addr

abbrev of_v6 : Prefix → Bool
of_v6 p = is6 p.addr

abbrev count_of : Bool → ℕ
count_of true = 1
count_of false = 0

-- A prefix of one of the two families.
abbrev pub IsUsable : Prefix → Type 0
IsUsable p = (prefix_is_valid p ≡ true) × ((is4 p.addr ≡ true) ⊎ (is6 p.addr ≡ true))

-- Usable prefixes, of each family at most one.
pub record HasOnePerFamily (cidrs : List Prefix) : Type 0 where
  pub usable : All IsUsable cidrs
  pub one_v4 : length (select of_v4 cidrs) ≤ 1
  pub one_v6 : length (select of_v6 cidrs) ≤ 1

abbrev Fits : Bool → Bool → List Prefix → Type 0
Fits saw_v4 saw_v6 cidrs =
    All IsUsable cidrs
    × (count_of saw_v4 + length (select of_v4 cidrs) ≤ 1)
    × (count_of saw_v6 + length (select of_v6 cidrs) ≤ 1)

check_pod_cidrs-Fits :
    (saw_v4 saw_v6 : Bool) (cidrs : List Prefix)
    → check_pod_cidrs saw_v4 saw_v6 cidrs ≡ ok tt
    → Fits saw_v4 saw_v6 cidrs
unfolding check_pod_cidrs select
check_pod_cidrs-Fits true true [] h = omega arith
check_pod_cidrs-Fits true false [] h = omega arith
check_pod_cidrs-Fits false true [] h = omega arith
check_pod_cidrs-Fits false false [] h = omega arith
check_pod_cidrs-Fits saw_v4 saw_v6 (cidr ∷ rest) h =
    ground (arith, check_pod_cidrs-Fits true saw_v6 rest, check_pod_cidrs-Fits saw_v4 true rest)

Fits-check_pod_cidrs :
    (saw_v4 saw_v6 : Bool) (cidrs : List Prefix)
    → Fits saw_v4 saw_v6 cidrs
    → check_pod_cidrs saw_v4 saw_v6 cidrs ≡ ok tt
unfolding check_pod_cidrs select
Fits-check_pod_cidrs saw_v4 saw_v6 [] h = refl
Fits-check_pod_cidrs saw_v4 saw_v6 (cidr ∷ rest) h =
    ground (arith, Fits-check_pod_cidrs true saw_v6 rest, Fits-check_pod_cidrs saw_v4 true rest)

pub check_pod_cidrs_iff :
    (cidrs : List Prefix) → (check_pod_cidrs false false cidrs ≡ ok tt) ↔ HasOnePerFamily cidrs
check_pod_cidrs_iff cidrs = (
  λ h.
      (let f = check_pod_cidrs-Fits false false cidrs h in
        record { usable = f.0; one_v4 = omega arith; one_v6 = omega arith }),
  λ o. Fits-check_pod_cidrs false false cidrs (o.usable, omega arith, omega arith),
)

check_cluster_cidrs_iff :
    (cidrs : List Prefix)
    → (check_cluster_cidrs cidrs ≡ ok tt) ↔ All (λ p. prefix_is_valid p ≡ true) cidrs
unfolding check_cluster_cidrs
check_cluster_cidrs_iff [] = (λ h. tt, λ h. refl)
check_cluster_cidrs_iff (p ∷ ps) = ground (arith, check_cluster_cidrs_iff ps)

-- Every port is given and no range is empty.
pub record HasPorts (ports : SafePorts) : Type 0 where
  pub ssh : 0 < ports.ssh
  pub kubelet : 0 < ports.kubelet
  pub api_server : 0 < ports.api_server
  pub dns : 0 < ports.dns
  pub etcd : (0 < ports.etcd.from) × (ports.etcd.from ≤ ports.etcd.to)
  pub node_port : (0 < ports.node_port.from) × (ports.node_port.from ≤ ports.node_port.to)

check_ports_iff : (ports : SafePorts) → (check_ports ports ≡ ok tt) ↔ HasPorts ports
unfolding check_ports
check_ports_iff ports = (λ h. ground arith, λ h. ground arith)

pub record IsRenderable (p : Params) : Type 0 where
  pub some_pod_cidr : p.pod_cidrs ≢ []
  pub pod_cidrs : HasOnePerFamily p.pod_cidrs
  pub cluster_pod_cidrs : All (λ c. prefix_is_valid c ≡ true) p.cluster_pod_cidrs
  pub safe_ports : HasPorts p.safe_ports

-- `validate` accepts parameters exactly when there is a pod CIDR, every pod CIDR is valid and of a
-- family, no family has two, every cluster pod CIDR is valid, no safe port is 0, and each safe
-- range begins above 0 and does not end below its beginning.
pub validate_iff : (p : Params) → (validate p ≡ ok tt) ↔ IsRenderable p
unfolding validate
validate_iff p = ground (
  arith,
  check_pod_cidrs_iff p.pod_cidrs,
  check_cluster_cidrs_iff p.cluster_pod_cidrs,
  check_ports_iff p.safe_ports,
)
