-- ===== src/Controller/Pods/Stripping.antt =====
-- What the cache drops of a pod is nothing that the renderer reads.
use cnidaria_cni.Base.{◌≡◌, refl, ap, List, [], ◌∷◌, ◌++◌, map, string_eq, Bool-cases, inl, inr}
use cnidaria_cni.Kube.{External}
use cnidaria_cni.Kube.Objects.{Pod, Container}
use cnidaria_cni.Controller.Pods.{
  sidecars, keeps_running, named_ports, ports_of, containers_that_serve, from_pod, keep_ports,
  stripped, strip_pod, pod,
}

sidecars_kept : (cs : List Container) → sidecars (map keep_ports cs) ≡ map keep_ports (sidecars cs)
unfolding sidecars
sidecars_kept [] = refl
sidecars_kept (c ∷ cs) = elim (Bool-cases (keeps_running c)) [
  | inl always ↦ rw always (ap (λ rest. keep_ports c ∷ rest) (sidecars_kept cs))
  | inr stops ↦ rw stops (sidecars_kept cs)
]

ports_kept :
    (cs ds : List Container)
    → ports_of (map keep_ports cs ++ map keep_ports ds) ≡ ports_of (cs ++ ds)
unfolding ports_of
ports_kept [] [] = refl
ports_kept [] (d ∷ ds) = ap (λ rest. named_ports d.ports ++ rest) (ports_kept [] ds)
ports_kept (c ∷ cs) ds = ap (λ rest. named_ports c.ports ++ rest) (ports_kept cs ds)

serving_kept :
    (p : Pod) → ports_of (containers_that_serve (stripped p)) ≡ ports_of (containers_that_serve p)
unfolding containers_that_serve stripped
serving_kept p =
    rw (sidecars_kept p.spec.init_containers)
      (ports_kept p.spec.containers (sidecars p.spec.init_containers))

kept_twice : (cs : List Container) → map keep_ports (map keep_ports cs) ≡ map keep_ports cs
kept_twice [] = refl
kept_twice (c ∷ cs) = ap (λ rest. keep_ports c ∷ rest) (kept_twice cs)

-- The renderer reads the same off what the cache keeps of a pod as off the pod itself, and what is
-- kept once is kept as it is.
pub from_pod-stripped :
    (x : External) (p : Pod)
    → (from_pod x (stripped p) ≡ from_pod x p) × (strip_pod (strip_pod (pod p)) ≡ strip_pod (pod p))
unfolding from_pod stripped strip_pod
from_pod-stripped x p = (
  rw (serving_kept p) refl,
  rw (kept_twice p.spec.containers, kept_twice p.spec.init_containers) refl,
)
