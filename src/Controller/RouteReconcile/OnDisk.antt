-- ===== src/Controller/RouteReconcile/OnDisk.antt =====
-- What the CNI configuration file holds after `writeConflist`.
use cnidaria_cni.Base.{
  ℕ, String, ◌<>◌, ◌≡◌, refl, sym, ap, ◌∙◌, false, Option, none, Bool, arith, inl, inr, Result, ok,
  err, ◌>>=◌, >>=-eq-ok, ok_inj, List, ◌≢◌, ◌⊎◌, ◌==◌, nat_eq, Bool-cases, map_err-eq-ok,
}
use cnidaria_cni.Kube.{External}
use cnidaria_cni.Nftables.Validate.{is_empty}
use cnidaria_cni.Routes
use cnidaria_cni.Conflist
use cnidaria_cni.Conflist.Rendered.{IsConfigurable, expected, render_iff}
use cnidaria_cni.Conflist.Printing.{document_text, render_text}
use cnidaria_cni.Conflist.Writing.{write_file}
use cnidaria_cni.Conflist.Writing.Whole.{KeepsContents, write_file-IsWhole}
use cnidaria_cni.Controller.Host.{Host, Interface, uplink_mtu}
use cnidaria_cni.Controller.Host.Uplink.{IsUplink, uplink_mtu-IsUplink}
use cnidaria_cni.Controller.RouteReconcile.{
  Reconciler, conflist_text, chosen_mtu, after_file, put_conflist, write_conflist,
}

module _ {S : Type 0} (x : External) (host : Host S) (r : Reconciler) where
  -- What the configuration is rendered from.
  abbrev pub params_of : Routes.Node → ℕ → Conflist.Params
  params_of self mtu = record {
    name = r.conflist.name;
    bridge = r.conflist.bridge;
    mtu = mtu;
    pod_cidrs = self.pod_cidrs;
  }

  -- The MTU is the one given; where that is 0, it is that of the first interface that holds one of the
  -- node's InternalIPs.
  abbrev pub IsChosen : Routes.Node → S → ℕ → Type 0
  IsChosen self s mtu =
      ((r.conflist.mtu ≢ 0) × (mtu ≡ r.conflist.mtu))
      ⊎ ((r.conflist.mtu ≡ 0)
          × ((listed : List Interface) × (host.interfaces s ≡ ok listed)
              × IsUplink self.internal_ips listed mtu))

  chosen_mtu-IsChosen :
      (self : Routes.Node) (s : S) {mtu : ℕ}
      → chosen_mtu x host r self s ≡ ok mtu
      → IsChosen self s mtu
  unfolding chosen_mtu
  chosen_mtu-IsChosen self s {mtu} h = elim (Bool-cases (r.conflist.mtu == 0)) [
    | inl zero ↦
        let read =
          map_err-eq-ok _ (uplink_mtu self.internal_ips (host.interfaces s)) (rw zero at h) in
        inr (
          (nat_eq.beq_iff r.conflist.mtu 0).0 zero,
          uplink_mtu-IsUplink self.internal_ips (host.interfaces s) read,
        )
    | inr given ↦ inl (
      λ e. absurd (let no = (nat_eq.beq_iff r.conflist.mtu 0).1 e in ground arith),
      sym (ok_inj (rw given at h)),
    )
  ]

  -- The file has the configuration of the node, with the MTU given or that of the uplink.
  pub record OnDisk (self : Routes.Node) (s after : S) : Type 0 where
    pub mtu : ℕ
    pub chosen : IsChosen self s mtu
    pub configurable : IsConfigurable (params_of self mtu)
    pub reads :
        host.files.read_file r.conflist.path after
        ≡ ok (document_text (expected (params_of self mtu)) <> "\n")

  conflist_text-expected :
      (self : Routes.Node) (mtu : ℕ) {text : String}
      → conflist_text x host r self mtu ≡ ok text
      → IsConfigurable (params_of self mtu)
        × (text ≡ document_text (expected (params_of self mtu)) <> "\n")
  unfolding conflist_text render_text
  conflist_text-expected self mtu h =
      let (doc, rendered, printed) = >>=-eq-ok (Conflist.render (params_of self mtu)) _ h in
      let (configurable, same) = (render_iff (params_of self mtu) doc).0 rendered in
      (configurable, sym (ok_inj printed) ∙ ap (λ d. document_text d <> "\n") same)

  after_file-eq-none :
      (p : Result String Bool × S) {e : String} → p.0 ≡ err e → (after_file x host r p).0 ≡ none → ⊥
  unfolding after_file
  after_file-eq-none (ok changed, s) h k = ground arith
  after_file-eq-none (err e, s) h k = ground arith

  after_file-state : (p : Result String Bool × S) → (after_file x host r p).1 ≡ p.1
  unfolding after_file
  after_file-state (ok changed, s) = refl
  after_file-state (err e, s) = refl

  module _ (content : S → String → Option String) (keeps : KeepsContents host.files content) where
    put_conflist-reads :
        (p : Result String String) (s : S)
        → (put_conflist x host r p s).0 ≡ none
        → (text : String) × (p ≡ ok text)
          × (host.files.read_file r.conflist.path (put_conflist x host r p s).1 ≡ ok text)
    unfolding put_conflist
    put_conflist-reads (err e) s h = absurd (ground arith)
    put_conflist-reads (ok text) s h =
        let p = write_file host.files r.conflist.path text s in
        elim (write_file-IsWhole host.files content keeps r.conflist.path text s) [
          | inl (changed, went, read, again) ↦
              (text, refl, ap (host.files.read_file r.conflist.path) (after_file-state p) ∙ read)
          | inr (e, failed, kept) ↦ absurd (after_file-eq-none p failed h)
        ]

    -- Over a file system that does what it documents, if writeConflist reports no failure for a node that
    -- has a pod CIDR, then the parameters are such that a document is rendered, and the file at the path
    -- reads as the print of the document with one range set for each CIDR, in their order, and the MTU
    -- given or, where that is 0, that of the first interface that holds one of the node's InternalIPs.
    pub write_conflist-OnDisk :
        (self : Routes.Node) (s : S)
        → is_empty self.pod_cidrs ≡ false
        → (write_conflist x host r self s).0 ≡ none
        → OnDisk self s (write_conflist x host r self s).1
    unfolding write_conflist
    write_conflist-OnDisk self s given h =
        let asked : Result String String =
          chosen_mtu x host r self s >>= conflist_text x host r self in
        let (text, made, read) = put_conflist-reads asked s (rw given at h) in
        let (mtu, chosen, printed) = >>=-eq-ok (chosen_mtu x host r self s) _ made in
        let (configurable, same) = conflist_text-expected self mtu printed in
        rw given (record {
          mtu = mtu;
          chosen = chosen_mtu-IsChosen self s chosen;
          configurable = configurable;
          reads = read ∙ ap ok same;
        })
