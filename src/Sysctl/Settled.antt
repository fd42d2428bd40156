-- ===== src/Sysctl/Settled.antt =====
-- When `Check` has nothing to say, and what `EnsureForwarding` leaves behind.
use cnidaria_cni.Base.{
  String, ◌≡◌, refl, ap, ◌↔◌, true, Option-cases, none, some, List, [], ◌∷◌, arith, All, ◌==◌,
  string_eq, Bool-cases, inl, inr, Result, ok, err, trim_space, ◌≢◌, ◌++◌, Result-cases, sym, ◌∙◌,
  Option, false, contains,
}
use cnidaria_cni.Sysctl.{
  Files, ReadError, not_exist, other, read, complaint, complaints, complaint_of, check,
  bridge_settings, ensure, forwarding_settings, ensure_forwarding,
}

ok_same : {v w : String} → ◌≡◌ {A = Result ReadError String} (ok v) (ok w) → v ≡ w
ok_same e = cc

complaint_of-none :
    (name : String) (r : Result ReadError String) → (complaint_of name r ≡ none) ↔ (r ≡ ok "1")
complaint_of-none name (err not_exist) = (λ h. cc, λ h. cc)
complaint_of-none name (err (other e)) = (λ h. cc, λ h. cc)
complaint_of-none name (ok v) = (
  λ h. ap ok (
      (string_eq.beq_iff v "1").0
        (elim (Bool-cases (v == "1")) [ inl one ↦ one | inr differs ↦ absurd (ground arith) ])),
  λ h. let one : (v == "1") ≡ true = (string_eq.beq_iff v "1").1 (ok_same h) in rw one refl,
)

module _ {S : Type 0} (files : Files S) where
  complaints_none :
      (s : S) (names : List String)
      → (complaints files s names ≡ []) ↔ All (λ n. read files s n ≡ ok "1") names
  unfolding complaints complaint
  complaints_none s [] = (λ h. tt, λ h. refl)
  complaints_none s (n ∷ ns) = elim (Option-cases (complaint_of n (read files s n))) [
    | inl silent ↦
        let fine = (complaint_of-none n (read files s n)).0 silent in
        rw (silent, complaints)
          (λ h. (fine, (complaints_none s ns).0 h), λ (one, rest). (complaints_none s ns).1 rest)
    | inr (e, loud) ↦
        rw (loud, complaints)
          (λ h. absurd (cons_not_nil h), λ (one, rest). absurd (loud_not_fine n s e loud one))
  ]
    where
      cons_not_nil : {e : String} {es : List String} → e ∷ es ≡ [] → ⊥
      cons_not_nil h = cc

      loud_not_fine :
          (n : String) (s : S) (e : String)
          → complaint_of n (read files s n) ≡ some e
          → read files s n ≡ ok "1"
          → ⊥
      loud_not_fine n s e loud one = let silent = (complaint_of-none n (read files s n)).1 one in cc

  -- `check` has no complaint exactly if each of the two bridge settings reads as 1.
  pub check_iff :
      (s : S) → (check files s ≡ []) ↔ All (λ n. read files s n ≡ ok "1") bridge_settings
  unfolding check
  check_iff s = complaints_none s bridge_settings

-- The forwarding settings, and with them the bridge settings.
abbrev pub IsForwarding : String → Type 0
IsForwarding name = contains forwarding_settings name ≡ true

abbrev pub IsKnown : String → Type 0
IsKnown name = contains (forwarding_settings ++ bridge_settings) name ≡ true

-- What the kernel documents of turning on one of the two forwarding settings: it then reads as what was
-- written, and the other of the two and the bridge settings stay as they are. Nothing is said of further
-- settings, of which the kernel changes some: those of the single interfaces, for one.
pub record KeepsFiles {S : Type 0} (files : Files S) : Type 0 where
  pub written :
      (s : S) (name : String) {after : S}
      → IsForwarding name
      → files.write_file s name "1\n" ≡ ok after
      → files.read_file after name ≡ ok "1\n"
  pub others :
      (s : S) (name another : String) {after : S}
      → IsForwarding name
      → IsKnown another
      → files.write_file s name "1\n" ≡ ok after
      → another ≢ name
      → files.read_file after another ≡ files.read_file s another

-- No setting twice.
abbrev pub IsApart : List String → Type 0
IsApart [] = Unit
IsApart (n ∷ ns) = All (λ m. n ≢ m) ns × IsApart ns

module _ {S : Type 0} (files : Files S) (keeps : KeepsFiles files) where
  abbrev IsOne : S → String → Type 0
  IsOne s n = read files s n ≡ ok "1"

  read-written :
      (s : S) (name : String) {after : S}
      → IsForwarding name
      → files.write_file s name "1\n" ≡ ok after
      → IsOne after name
  unfolding read trim_space
  read-written s name {after} f h = rw (keeps.written s name {after = after} f h, read) refl

  read-others :
      (s : S) (name another : String) {after : S}
      → IsForwarding name
      → IsKnown another
      → files.write_file s name "1\n" ≡ ok after
      → another ≢ name
      → read files after another ≡ read files s another
  unfolding read
  read-others s name another {after} f known h differs =
      rw (keeps.others s name another {after = after} f known h differs, read) refl

  -- What a successful run of the loop leaves.
  record Settles (names : List String) (s s' : S) : Type 0 where
    ones : All (IsOne s') names
    others :
        (another : String)
        → IsKnown another
        → All (λ n. another ≢ n) names
        → read files s' another ≡ read files s another

  settled_here :
      (n : String) (ns : List String) (s next after : S)
      → All (λ m. n ≢ m) ns
      → IsKnown n
      → IsOne next n
      → ((another : String)
          → IsKnown another
          → another ≢ n
          → read files next another ≡ read files s another)
      → Settles ns next after
      → Settles (n ∷ ns) s after
  settled_here n ns s next after fresh is_known one kept later = record {
    ones = (later.others n is_known fresh ∙ one, later.ones);
    others =
        λ another known (first, rest). later.others another known rest ∙ kept another known first;
  }

  ensure_skipped :
      (n : String) (ns : List String) (s : S) (changed : List String)
      → IsOne s n
      → ensure files (n ∷ ns) s changed ≡ ensure files ns s changed
  unfolding ensure
  ensure_skipped n ns s changed h = rw (h, ensure) refl

  ensure_written :
      (n : String) (ns : List String) (s : S) (changed : List String) {v : String} {after : S}
      → read files s n ≡ ok v
      → (v == "1") ≡ false
      → files.write_file s n "1\n" ≡ ok after
      → ensure files (n ∷ ns) s changed ≡ ensure files ns after (changed ++ (n ∷ []))
  unfolding ensure
  ensure_written n ns s changed h differs w = rw (h, ensure) (rw differs (rw w refl))

  ensure_unread :
      (n : String) (ns : List String) (s : S) (changed : List String) {e : ReadError}
      → read files s n ≡ err e
      → (ensure files (n ∷ ns) s changed).1 ≢ none
  unfolding ensure
  ensure_unread n ns s changed h = rw (h, ensure) (λ q. cc)

  ensure_unwritten :
      (n : String) (ns : List String) (s : S) (changed : List String) {v e : String}
      → read files s n ≡ ok v
      → (v == "1") ≡ false
      → files.write_file s n "1\n" ≡ err e
      → (ensure files (n ∷ ns) s changed).1 ≢ none
  unfolding ensure
  ensure_unwritten n ns s changed h differs w = rw (h, ensure) (rw differs (rw w (λ q. cc)))

  IsForwarding-IsKnown : (n : String) → IsForwarding n → IsKnown n
  unfolding contains
  IsForwarding-IsKnown n f = ground arith

  -- The loop over different forwarding settings, if it reports no error.
  ensure-Settles :
      (names : List String) (s : S) (changed : List String) {done : List String} {after : S}
      → All IsForwarding names
      → IsApart names
      → ensure files names s changed ≡ (done, none, after)
      → Settles names s after
  unfolding ensure contains
  ensure-Settles [] s changed forwards apart h = record {
    ones = tt;
    others = λ another known differs. ap (λ z. read files z another) (sym (last h));
  }
    where
      last :
          {done : List String} {after : S}
          → ◌≡◌ {A = List String × Option String × S} (changed, none, s) (done, none, after)
          → s ≡ after
      last e = ap (λ (q : List String × Option String × S). q.2) e
  ensure-Settles (n ∷ ns) s changed {done} {after} (f, fs) (fresh, apart) h =
      elim (Result-cases (read files s n)) [
        | inr (e, unread) ↦ absurd (
            ensure_unread n ns s changed unread
              (ap (λ (q : List String × Option String × S). q.1) h))
        | inl (v, got) ↦ elim (Bool-cases (v == "1")) [
          | inl one ↦
              let is_one : IsOne s n = got ∙ ap ok ((string_eq.beq_iff _ _).0 one) in
              settled_here n ns s s after fresh (IsForwarding-IsKnown n f) is_one
                (λ another known differs. refl)
                (ensure-Settles ns s changed fs apart
                  (sym (ensure_skipped n ns s changed is_one) ∙ h))
          | inr differs ↦ elim (Result-cases (files.write_file s n "1\n")) [
            | inr (e, unwritten) ↦ absurd (
                ensure_unwritten n ns s changed got differs unwritten
                  (ap (λ (q : List String × Option String × S). q.1) h))
            | inl (next, written) ↦
                settled_here n ns s next after fresh (IsForwarding-IsKnown n f)
                  (read-written s n {after = next} f written)
                  (λ another known apart_n.
                    read-others s n another {after = next} f known written apart_n)
                  (ensure-Settles ns next (changed ++ (n ∷ [])) fs apart
                    (sym (ensure_written n ns s changed got differs written) ∙ h))
          ]
        ]
      ]

  -- Over settings that do what the kernel documents, if `ensure_forwarding` reports no error, both
  -- forwarding settings read as 1 afterwards, and the bridge settings read as before.
  pub ensure_forwarding-settles :
      (s : S) {done : List String} {after : S}
      → ensure_forwarding files s ≡ (done, none, after)
      → All
          (λ n. read files after n ≡ ok "1")
          ("net.ipv4.ip_forward" ∷ "net.ipv6.conf.all.forwarding" ∷ [])
        × All (λ n. read files after n ≡ read files s n) bridge_settings
  unfolding ensure_forwarding contains
  ensure_forwarding-settles s {done} {after} h =
      let settled =
        ensure-Settles forwarding_settings s [] (refl, (refl, tt)) ((λ e. cc, tt), (tt, tt)) h in
      (
        settled.ones,
        (
          settled.others "net.bridge.bridge-nf-call-iptables" refl (λ e. cc, (λ e. cc, tt)),
          (settled.others "net.bridge.bridge-nf-call-ip6tables" refl (λ e. cc, (λ e. cc, tt)), tt),
        ),
      )
