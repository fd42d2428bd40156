-- ===== src/Controller/Status/Settling.antt =====
-- After `writeStatus` there is nothing left to write.
use mathlib.Core.Path.{subst}
use cnidaria_cni.Base.{
  String, ◌<>◌, ◌≡◌, refl, sym, ap, ◌∙◌, true, false, Option, Option-cases, none, some, List, [],
  ◌∷◌, ◌==◌, string_eq, arith, Bool-cases, inl, inr, All,
}
use cnidaria_cni.Nodepol.Types.{NodeNetworkPolicyNodeStatus}
use cnidaria_cni.Controller.{PolicyStatus, with_entry}
use cnidaria_cni.Controller.Entries.{others, IsAbout, with_entry-settles}
use cnidaria_cni.Controller.Status.{Update, IsServer, write_status, with_nodes}

-- This node has nothing more to say in the new entries, and those of the other nodes are the old ones.
abbrev pub IsSettled :
    String
    → Option NodeNetworkPolicyNodeStatus
    → List NodeNetworkPolicyNodeStatus
    → List NodeNetworkPolicyNodeStatus
    → Type 0
IsSettled node entry old new =
    (others node new ≡ others node old) × ((with_entry new node entry).1 ≡ false)

-- No two of the statuses are for policies of one name.
abbrev pub AreDistinct : List PolicyStatus → Type 0
AreDistinct [] = Unit
AreDistinct (s ∷ rest) =
    All (λ (t : PolicyStatus). (s.policy.name == t.policy.name) ≡ false) rest × AreDistinct rest

module _ {A : Type 0} (update : Update A) (node : String) where
  abbrev entries_for : PolicyStatus → List NodeNetworkPolicyNodeStatus
  entries_for s = (with_entry s.policy.status.nodes node s.entry).0

  skip_lem :
      (s : PolicyStatus) (rest : List PolicyStatus) (a : A)
      → (with_entry s.policy.status.nodes node s.entry).1 ≡ false
      → write_status update node (s ∷ rest) a ≡ write_status update node rest a
  unfolding write_status
  skip_lem s rest a same = rw (same, write_status) refl

  write_lem :
      (s : PolicyStatus) (rest : List PolicyStatus) (a : A)
      → (with_entry s.policy.status.nodes node s.entry).1 ≡ true
      → (update (with_nodes s.policy (entries_for s)) a).0 ≡ none
      → write_status update node (s ∷ rest) a
        ≡ write_status update node rest (update (with_nodes s.policy (entries_for s)) a).1
  unfolding write_status
  write_lem s rest a changed went = rw (changed, went, write_status) refl

  fail_lem :
      (s : PolicyStatus) (rest : List PolicyStatus) (a : A) {e : String}
      → (with_entry s.policy.status.nodes node s.entry).1 ≡ true
      → (update (with_nodes s.policy (entries_for s)) a).0 ≡ some e
      → (write_status update node (s ∷ rest) a).0
        ≡ some ("status of NodeNetworkPolicy " <> (s.policy.name <> (": " <> e)))
  unfolding write_status
  fail_lem s rest a changed failed = rw (changed, failed, write_status) refl

  module _ (nodes_of : A → String → List NodeNetworkPolicyNodeStatus)
      (server : IsServer update nodes_of) where
    -- What the first status does, if nothing fails.
    data First (s : PolicyStatus) (rest : List PolicyStatus) (a : A) : Type 0 where
      first :
          (next : A)
          → write_status update node (s ∷ rest) a ≡ write_status update node rest next
          → ((name : String)
              → (s.policy.name == name) ≡ false
              → nodes_of next name ≡ nodes_of a name)
          → (IsAbout node s.entry
              → nodes_of a s.policy.name ≡ s.policy.status.nodes
              → IsSettled node s.entry s.policy.status.nodes (nodes_of next s.policy.name))
          → First s rest a

    first_lem :
        (s : PolicyStatus) (rest : List PolicyStatus) (a : A)
        → (write_status update node (s ∷ rest) a).0 ≡ none
        → First s rest a
    first_lem s rest a h = elim (Bool-cases (with_entry s.policy.status.nodes node s.entry).1) [
      | inr same ↦
          first a (skip_lem s rest a same) (λ name other. refl) (λ about now. rw now (refl, same))
      | inl changed ↦ elim (Option-cases (update (with_nodes s.policy (entries_for s)) a).0) [
        | inr (e, failed) ↦
            absurd (let no = sym (fail_lem s rest a changed failed) ∙ h in ground arith)
        | inl went ↦
            let next = (update (with_nodes s.policy (entries_for s)) a).1 in
            first next (write_lem s rest a changed went)
              (λ name other.
                server.updated (with_nodes s.policy (entries_for s)) a went name ∙ rw other refl)
              (λ about now.
                let held : nodes_of next s.policy.name ≡ entries_for s =
                  server.updated (with_nodes s.policy (entries_for s)) a went s.policy.name
                  ∙ rw ((string_eq.beq_iff s.policy.name s.policy.name).1 refl) refl in
                let (kept, quiet) =
                  with_entry-settles node s.entry s.policy.status.nodes about
                    (ap (λ b. (entries_for s, b)) changed) in
                rw held (kept, ap (λ r. r.1) quiet))
      ]
    ]

    write_status-elsewhere :
        (sts : List PolicyStatus) (a : A) (name : String)
        → All (λ (s : PolicyStatus). (s.policy.name == name) ≡ false) sts
        → (write_status update node sts a).0 ≡ none
        → nodes_of (write_status update node sts a).1 name ≡ nodes_of a name
    unfolding write_status
    write_status-elsewhere [] a name apart h = refl
    write_status-elsewhere (s ∷ rest) a name (other, apart) h = elim (first_lem s rest a h) [
      | first next same elsewhere own ↦
          ap (λ r. nodes_of r.1 name) same
          ∙ write_status-elsewhere rest next name apart (ap (λ r. r.0) (sym same) ∙ h)
          ∙ elsewhere name other
    ]

    -- Over a server that holds what an update gives it, if every status is written, where the cache is up to
    -- date with the server, each entry speaks of this node and no two policies have one name, then the server
    -- holds, for each policy, entries in which this node has nothing more to say and those of the other nodes
    -- are as they were.
    pub write_status-settles :
        (sts : List PolicyStatus) (a : A)
        → All (λ (s : PolicyStatus). IsAbout node s.entry) sts
        → All (λ (s : PolicyStatus). nodes_of a s.policy.name ≡ s.policy.status.nodes) sts
        → AreDistinct sts
        → (write_status update node sts a).0 ≡ none
        → All
            (λ (s : PolicyStatus).
              IsSettled node s.entry s.policy.status.nodes
                (nodes_of (write_status update node sts a).1 s.policy.name))
            sts
    write_status-settles [] a about now distinct h = tt
    write_status-settles (s ∷ rest) a (about, abouts) (now, nows) (apart, distinct) h =
        elim (first_lem s rest a h) [
          | first next same elsewhere own ↦
              let rest_done = ap (λ r. r.0) (sym same) ∙ h in
              let still = keep s rest a next apart elsewhere nows in
              let here =
                ap (λ r. nodes_of r.1 s.policy.name) same
                ∙ write_status-elsewhere rest next s.policy.name (flip s rest apart) rest_done in
              (
                subst (λ ns. IsSettled node s.entry s.policy.status.nodes ns) (sym here)
                    (own about now),
                subst
                    (λ (r : Option String × A).
                      All
                        (λ (t : PolicyStatus).
                          IsSettled node t.entry t.policy.status.nodes (nodes_of r.1 t.policy.name))
                        rest)
                    (sym same) (write_status-settles rest next abouts still distinct rest_done),
              )
        ]
      where
        flip :
            (s : PolicyStatus) (rest : List PolicyStatus)
            → All (λ (t : PolicyStatus). (s.policy.name == t.policy.name) ≡ false) rest
            → All (λ (t : PolicyStatus). (t.policy.name == s.policy.name) ≡ false) rest
        flip s [] h = tt
        flip s (t ∷ rest) (p, h) = (
          ground (
            arith,
            string_eq.beq_iff s.policy.name t.policy.name,
            string_eq.beq_iff t.policy.name s.policy.name,
          ),
          flip s rest h,
        )

        keep :
            (s : PolicyStatus) (rest : List PolicyStatus) (a next : A)
            → All (λ (t : PolicyStatus). (s.policy.name == t.policy.name) ≡ false) rest
            → ((name : String)
                → (s.policy.name == name) ≡ false
                → nodes_of next name ≡ nodes_of a name)
            → All (λ (t : PolicyStatus). nodes_of a t.policy.name ≡ t.policy.status.nodes) rest
            → All (λ (t : PolicyStatus). nodes_of next t.policy.name ≡ t.policy.status.nodes) rest
        keep s [] a next apart elsewhere now = tt
        keep s (t ∷ rest) a next (p, apart) elsewhere (n, now) =
            (elsewhere t.policy.name p ∙ n, keep s rest a next apart elsewhere now)
