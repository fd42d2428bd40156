-- ===== src/Daemon/Guarding.antt =====
-- What holds once the manager of the daemon has been started.
use cnidaria_cni.Base.{
  ℕ, ◌+◌, String, ◌<>◌, ◌≡◌, ◌≢◌, refl, sym, ap, ◌∙◌, Bool-cases, Option, none, some, List, [], ◌∷◌,
  inl, inr, arith, All, ◌==◌, string_eq, Result, ok, err, ◌⊎◌,
}
use cnidaria_cni.Sysctl.{read, check, bridge_settings, ensure_forwarding}
use cnidaria_cni.Sysctl.Settled.{KeepsFiles, check_iff, ensure_forwarding-settles}
use cnidaria_cni.Sysctl.Keeping.{ensure_forwarding-keeps}
use cnidaria_cni.Iptables.{Command}
use cnidaria_cni.Iptables.Detecting.{Forward, detect, detect-keeps}
use cnidaria_cni.Controller.Reconcile.{Ruleset}
use cnidaria_cni.Controller.RouteReconcile.{Reconciler}
use cnidaria_cni.Daemon.{
  Flags, Options, Outside, about, and_then, in_turn, set_up, start_all, close_after, after_kernel,
  after_detect, make_manager, after_forwarding, after_check, run_daemon,
}

module _ {W : Type 0} (outside : Outside W) (flags : Flags) (starts : W → ℕ) where
  -- How often the manager has been started: `start` counts, and nothing else does.
  pub record CountsStarts : Type 0 where
    pub writing :
        (w after : W) (name text : String)
        → outside.files.write_file w name text ≡ ok after
        → starts after ≡ starts w
    pub running : (w : W) (c : Command) → starts (outside.run w c).1 ≡ starts w
    pub configuring : (w : W) → starts (outside.get_config w).1 ≡ starts w
    pub client_scheme : (w : W) → starts (outside.add_client_scheme w).1 ≡ starts w
    pub own_scheme : (w : W) → starts (outside.add_own_scheme w).1 ≡ starts w
    pub making : (o : Options) (w : W) → starts (outside.new_manager o w).1 ≡ starts w
    pub healthz : (w : W) → starts (outside.add_healthz_check w).1 ≡ starts w
    pub readyz : (w : W) → starts (outside.add_readyz_check w).1 ≡ starts w
    pub opening : (w : W) → starts (outside.new_kernel w).1 ≡ starts w
    pub closing : (w : W) → starts (outside.close_kernel w) ≡ starts w
    pub routes :
        (r : Reconciler) (f : Forward) (w : W) → starts (outside.setup_routes r f w).1 ≡ starts w
    pub policies : (r : Ruleset) (w : W) → starts (outside.setup_ruleset r w).1 ≡ starts w
    pub starting : (w : W) → starts (outside.start w).1 ≡ starts w + 1

  -- What the daemon has seen to before it starts: a node name; the bridge settings as they have to be; the
  -- forwarding settings turned on, with the bridge settings still so; and the iptables backends that were found.
  pub record Ready (w : W) : Type 0 where
    pub named : flags.node_name ≢ ""
    pub bridged : All (λ n. read outside.files w n ≡ ok "1") bridge_settings
    pub forwarding : W
    pub forwards :
        All
          (λ n. read outside.files forwarding n ≡ ok "1")
          ("net.ipv4.ip_forward" ∷ "net.ipv6.conf.all.forwarding" ∷ [])
    pub bridged_still : All (λ n. read outside.files forwarding n ≡ ok "1") bridge_settings
    pub made : W
    pub managed : in_turn (make_manager outside flags) forwarding ≡ (none, made)
    pub forward : Forward
    pub found : (detect outside.run made).0 ≡ ok forward

  -- A result that is an error, or follows one start.
  abbrev pub StartsOnce : ℕ → Option String × W → Type 0
  StartsOnce n p = ((e : String) × (p.0 ≡ some e)) ⊎ (starts p.1 ≡ n + 1)

  -- The daemon refuses, with an error and nothing started; or it is ready, and it ends without an error
  -- only if the manager has been started, once.
  abbrev pub Guarded : W → Option String × W → Type 0
  Guarded w p =
      ((e : String) × (p.0 ≡ some e) × (starts p.1 ≡ starts w))
      ⊎ (Ready w × StartsOnce (starts w) p)

  module _ (k : CountsStarts) where
    -- A step that starts nothing.
    abbrev Quiet : (W → Option String × W) → Type 0
    Quiet f = (w : W) → starts (f w).1 ≡ starts w

    about_same : (what : String) (p : Option String × W) → starts (about what p).1 ≡ starts p.1
    unfolding about
    about_same what (none, w) = refl
    about_same what (some e, w) = refl

    and_then_same :
        (n : ℕ) (p : Option String × W) (next : W → Option String × W)
        → starts p.1 ≡ n
        → Quiet next
        → starts (and_then p next).1 ≡ n
    unfolding and_then
    and_then_same n (none, w) next h quiet = quiet w ∙ h
    and_then_same n (some e, w) next h quiet = h

    in_turn-Quiet : (fs : List (W → Option String × W)) → All Quiet fs → Quiet (in_turn fs)
    unfolding in_turn
    in_turn-Quiet [] h w = refl
    in_turn-Quiet (f ∷ fs) (first, h) w =
        and_then_same (starts w) (f w) (in_turn fs) (first w) (in_turn-Quiet fs h)

    make_manager-Quiet : Quiet (in_turn (make_manager outside flags))
    unfolding make_manager
    make_manager-Quiet = in_turn-Quiet (make_manager outside flags) (
      λ w. about_same "kubeconfig: " (outside.get_config w) ∙ k.configuring w,
      (
        λ w. about_same "scheme: " (outside.add_client_scheme w) ∙ k.client_scheme w,
        (
          λ w. about_same "scheme: " (outside.add_own_scheme w) ∙ k.own_scheme w,
          (
            λ w. about_same "manager: " (outside.new_manager _ w) ∙ k.making _ w,
            (k.healthz, (k.readyz, tt)),
          ),
        ),
      ),
    )

    set_up-Quiet : (forward : Forward) → Quiet (in_turn (set_up outside flags forward))
    unfolding set_up
    set_up-Quiet forward = in_turn-Quiet (set_up outside flags forward) (
      λ w.
          about_same "routes reconciler: " (outside.setup_routes _ forward w)
          ∙ k.routes _ forward w,
      (λ w. about_same "ruleset reconciler: " (outside.setup_ruleset _ w) ∙ k.policies _ w, tt),
    )

    and_then_start :
        (n : ℕ) (p : Option String × W) → starts p.1 ≡ n → StartsOnce n (and_then p outside.start)
    unfolding and_then
    and_then_start n (none, w) same = inr (k.starting w ∙ ap (λ m. m + 1) same)
    and_then_start n (some e, w) same = inl (e, refl)

    close_after-StartsOnce :
        (n : ℕ) (p : Option String × W)
        → StartsOnce n p
        → StartsOnce n (close_after outside flags p)
    unfolding close_after
    close_after-StartsOnce n (e, w) (inl failed) = inl failed
    close_after-StartsOnce n (e, w) (inr once) = inr (k.closing w ∙ once)

    after_kernel-StartsOnce :
        (n : ℕ) (forward : Forward) (p : Option String × W)
        → starts p.1 ≡ n
        → StartsOnce n (after_kernel outside flags forward p)
    unfolding after_kernel start_all
    after_kernel-StartsOnce n forward (some e, w) same = inl (e, refl)
    after_kernel-StartsOnce n forward (none, w) same =
        close_after-StartsOnce n (start_all outside flags forward w) (
          and_then_start n (in_turn (set_up outside flags forward) w)
            (set_up-Quiet forward w ∙ same))

    after_detect-Guarded :
        (w : W) (p : Result String Forward × W)
        → starts p.1 ≡ starts w
        → ((forward : Forward) → p.0 ≡ ok forward → Ready w)
        → Guarded w (after_detect outside flags p)
    unfolding after_detect
    after_detect-Guarded w (err e, now) same ready = inl (e, refl, same)
    after_detect-Guarded w (ok forward, now) same ready = inr (
      ready forward refl,
      after_kernel-StartsOnce (starts w) forward (outside.new_kernel now) (k.opening now ∙ same),
    )

    -- The part after the manager is made, or has failed.
    after_manager-Guarded :
        (w : W) (p : Option String × W)
        → starts p.1 ≡ starts w
        → ((made : W) (forward : Forward)
            → p ≡ (none, made)
            → (detect outside.run made).0 ≡ ok forward
            → Ready w)
        → Guarded w (and_then p (λ w1. after_detect outside flags (detect outside.run w1)))
    unfolding and_then
    after_manager-Guarded w (some e, now) same ready = inl (e, refl, same)
    after_manager-Guarded w (none, now) same ready =
        after_detect-Guarded w (detect outside.run now)
          (detect-keeps outside.run starts now k.running ∙ same)
          (λ forward found. ready now forward refl found)

    module _ (keeps : KeepsFiles outside.files) where
      after_forwarding-Guarded :
          (w : W) (p : List String × Option String × W)
          → flags.node_name ≢ ""
          → All (λ n. read outside.files w n ≡ ok "1") bridge_settings
          → ensure_forwarding outside.files w ≡ p
          → Guarded w (after_forwarding outside flags p)
      unfolding after_forwarding
      after_forwarding-Guarded w (changed, some e, now) named bridged h = inl (
        "could not turn on forwarding:\n" <> e,
        refl,
        sym (ap (λ q. starts q.2) h) ∙ ensure_forwarding-keeps outside.files starts w k.writing,
      )
      after_forwarding-Guarded w (changed, none, now) named bridged h =
          let same =
            sym (ap (λ q. starts q.2) h)
            ∙ ensure_forwarding-keeps outside.files starts w k.writing in
          let (ones, (b4, (b6, end))) = ensure_forwarding-settles outside.files keeps w h in
          after_manager-Guarded w (in_turn (make_manager outside flags) now)
            (make_manager-Quiet now ∙ same)
            (λ made forward managed found. record {
              named = named;
              bridged = bridged;
              forwarding = now;
              forwards = ones;
              bridged_still = (b4 ∙ bridged.0, (b6 ∙ bridged.1.0, tt));
              made = made;
              managed = managed;
              forward = forward;
              found = found;
            })

      after_check-Guarded :
          (w : W) (complaints : List String)
          → flags.node_name ≢ ""
          → check outside.files w ≡ complaints
          → Guarded w (after_check outside flags complaints w)
      unfolding after_check
      after_check-Guarded w [] named h =
          after_forwarding-Guarded w (ensure_forwarding outside.files w) named
            ((check_iff outside.files w).0 h) refl
      after_check-Guarded w (c ∷ cs) named h = inl (_, refl, refl)

      -- If only start counts as a start and the settings do what the kernel documents, then the daemon
      -- either ends with an error before it starts the manager, or it has a node name, both bridge settings
      -- read as 1 at first and both they and the forwarding settings read as 1 once it has turned those on,
      -- and the iptables backends are chosen; and it then ends without an error only after exactly one
      -- start.
      pub run_daemon-Guarded : (w : W) → Guarded w (run_daemon outside flags w)
      unfolding run_daemon
      run_daemon-Guarded w = elim (Bool-cases (flags.node_name == "")) [
        | inl nameless ↦ rw nameless (inl ("--node-name or NODE_NAME is required", refl, refl))
        | inr named ↦ rw named (
            after_check-Guarded w (check outside.files w)
              (λ empty.
                absurd (let same = (string_eq.beq_iff flags.node_name "").1 empty in ground arith))
              refl)
      ]
