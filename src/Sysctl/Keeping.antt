-- ===== src/Sysctl/Keeping.antt =====
-- What turning on forwarding leaves alone.
use cnidaria_cni.Base.{
  String, ◌≡◌, refl, ◌∙◌, Bool-cases, inl, inr, List, [], ◌∷◌, ◌++◌, ◌==◌, string_eq, Result-cases,
  ok,
}
use cnidaria_cni.Sysctl.{Files, read, ensure, ensure_forwarding, forwarding_settings}

module _ {S A : Type 0} (files : Files S) (view : S → A) where
  -- A view of the state that no write changes.
  abbrev pub IsUnwritten : Type 0
  IsUnwritten =
      (s after : S) (name text : String)
      → files.write_file s name text ≡ ok after
      → view after ≡ view s

  ensure-keeps :
      (names : List String) (s : S) (changed : List String)
      → IsUnwritten
      → view (ensure files names s changed).2 ≡ view s
  unfolding ensure
  ensure-keeps [] s changed same = refl
  ensure-keeps (n ∷ ns) s changed same = elim (Result-cases (read files s n)) [
    | inr (e, unread) ↦ rw (unread, ensure) refl
    | inl (v, got) ↦ elim (Bool-cases (v == "1")) [
      | inl one ↦ rw (got, ensure) (rw one (ensure-keeps ns s changed same))
      | inr differs ↦ elim (Result-cases (files.write_file s n "1\n")) [
        | inr (e, unwritten) ↦ rw (got, ensure) (rw differs (rw unwritten refl))
        | inl (next, written) ↦
            rw (got, ensure)
              (rw differs (
                rw written
                  (ensure-keeps ns next (changed ++ (n ∷ [])) same ∙ same s next n "1\n" written)))
      ]
    ]
  ]

  pub ensure_forwarding-keeps : (s : S) → IsUnwritten → view (ensure_forwarding files s).2 ≡ view s
  unfolding ensure_forwarding
  ensure_forwarding-keeps s same = ensure-keeps forwarding_settings s [] same
