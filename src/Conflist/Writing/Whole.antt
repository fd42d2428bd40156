-- ===== src/Conflist/Writing/Whole.antt =====
-- A reader of the file sees the whole old content or the whole new one.
use cnidaria_cni.Base.{
  ◌⊎◌, String, ◌≡◌, ◌≢◌, refl, sym, ◌∙◌, Bool, true, false, Option, none, some, ◌==◌, string_eq,
  Result, ok, err, arith, join_errors, ap, [], ◌∷◌, Bool-cases, Result-cases, inl, inr, ◌<>◌,
}
use cnidaria_cni.Conflist.Writing.{
  FileSystem, fill, give_up, after_write, after_rename, after_fill, after_create, holds_already,
  write_file,
}

no_first : (e f : Option String) → join_errors (e ∷ f ∷ []) ≡ none → e ≡ none
unfolding join_errors
no_first none f h = refl
no_first (some e) none h = absurd (ground arith)
no_first (some e) (some f) h = absurd (ground arith)

module _ {S : Type 0} (fs : FileSystem S) (content : S → String → Option String) where
  -- What the operations do to the contents of the files, as they document it: each writes at most the
  -- file it is about, and a rename that fails leaves its target.
  pub record KeepsContents : Type 0 where
    pub reading :
        (path : String) (s : S) {text : String}
        → fs.read_file path s ≡ ok text
        → content s path ≡ some text
    pub readable :
        (path : String) (s : S) {text : String}
        → content s path ≡ some text
        → fs.read_file path s ≡ ok text
    pub uncreated :
        (path : String) (s : S) {e : String}
        → (fs.create_temp path s).0 ≡ err e
        → content (fs.create_temp path s).1 path ≡ content s path
    pub created :
        (path : String) (s : S) {tmp : String}
        → (fs.create_temp path s).0 ≡ ok tmp
        → (tmp ≢ path)
          × (content (fs.create_temp path s).1 path ≡ content s path)
          × (content (fs.create_temp path s).1 tmp ≡ some "")
    pub written :
        (tmp text : String) (s : S)
        → content s tmp ≡ some ""
        → (fs.write tmp text s).0 ≡ none
        → content (fs.write tmp text s).1 tmp ≡ some text
    pub write_elsewhere :
        (tmp text path : String) (s : S)
        → tmp ≢ path
        → content (fs.write tmp text s).1 path ≡ content s path
    pub chmod_nowhere :
        (tmp path : String) (s : S) → content (fs.chmod tmp 420 s).1 path ≡ content s path
    pub close_nowhere :
        (tmp path : String) (s : S) → content (fs.close tmp s).1 path ≡ content s path
    pub renamed :
        (tmp path : String) (s : S)
        → (fs.rename tmp path s).0 ≡ none
        → content (fs.rename tmp path s).1 path ≡ content s tmp
    pub unrenamed :
        (tmp path : String) (s : S) {e : String}
        → (fs.rename tmp path s).0 ≡ some e
        → content (fs.rename tmp path s).1 path ≡ content s path
    pub removed_elsewhere :
        (tmp path : String) (s : S) → tmp ≢ path → content (fs.remove tmp s).1 path ≡ content s path

  -- What `WriteFile` leaves: after a success the new content, which reading gives back and writing
  -- leaves alone; after a failure the old content.
  abbrev pub IsWhole : String → String → S → Result String Bool × S → Type 0
  IsWhole path text s r =
      ((changed : Bool) × (r.0 ≡ ok changed)
        × (fs.read_file path r.1 ≡ ok text)
        × (write_file fs path text r.1 ≡ (ok false, r.1)))
      ⊎ ((e : String) × (r.0 ≡ err e) × (content r.1 path ≡ content s path))

  module _ (k : KeepsContents) where
    after_write-elsewhere :
        (tmp path : String) (p : Option String × S)
        → content (after_write fs tmp p).1 path ≡ content p.1 path
    unfolding after_write
    after_write-elsewhere tmp path (none, s) = k.chmod_nowhere tmp path s
    after_write-elsewhere tmp path (some e, s) = refl

    after_write-eq-none :
        (tmp : String) (p : Option String × S) → (after_write fs tmp p).0 ≡ none → p.0 ≡ none
    unfolding after_write
    after_write-eq-none tmp (none, s) h = refl
    after_write-eq-none tmp (some e, s) h = h

    fill-elsewhere :
        (tmp text path : String) (s : S)
        → tmp ≢ path
        → content (fill fs tmp text s).1 path ≡ content s path
    unfolding fill
    fill-elsewhere tmp text path s apart =
        k.close_nowhere tmp path (after_write fs tmp (fs.write tmp text s)).1
        ∙ after_write-elsewhere tmp path (fs.write tmp text s)
        ∙ k.write_elsewhere tmp text path s apart

    fill-content :
        (tmp text : String) (s : S)
        → content s tmp ≡ some ""
        → (fill fs tmp text s).0 ≡ none
        → content (fill fs tmp text s).1 tmp ≡ some text
    unfolding fill
    fill-content tmp text s fresh h =
        let first = no_first (after_write fs tmp (fs.write tmp text s)).0 _ h in
        k.close_nowhere tmp tmp (after_write fs tmp (fs.write tmp text s)).1
        ∙ after_write-elsewhere tmp tmp (fs.write tmp text s)
        ∙ k.written tmp text s fresh (after_write-eq-none tmp (fs.write tmp text s) first)

    already_read :
        (path text : String) (s : S) {old : String}
        → fs.read_file path s ≡ ok old
        → holds_already fs path text s ≡ (old == text)
    unfolding holds_already
    already_read path text s read = rw (read, holds_already) refl

    already_unread :
        (path text : String) (s : S) {e : String}
        → fs.read_file path s ≡ err e
        → holds_already fs path text s ≡ false
    unfolding holds_already
    already_unread path text s unread = rw (unread, holds_already) refl

    held_already :
        (path text : String) (s : S)
        → holds_already fs path text s ≡ true
        → fs.read_file path s ≡ ok text
    held_already path text s h = elim (Result-cases (fs.read_file path s)) [
      | inr (e, missing) ↦
          absurd (let no = sym (already_unread path text s missing) ∙ h in ground arith)
      | inl (old, read) ↦
          let same = (string_eq.beq_iff old text).0 (sym (already_read path text s read) ∙ h) in
          read ∙ ap (λ t. ok t) same
    ]

    held_twice :
        (path text : String) (s : S)
        → fs.read_file path s ≡ ok text
        → write_file fs path text s ≡ (ok false, s)
    unfolding write_file
    held_twice path text s h =
        let held = already_read path text s h ∙ (string_eq.beq_iff text text).1 refl in rw held refl

    -- A content that is in place.
    done-IsWhole :
        (path text : String) (s after : S) (changed : Bool)
        → content after path ≡ some text
        → IsWhole path text s (ok changed, after)
    done-IsWhole path text s after changed h =
        let read = k.readable path after h in
        inl (changed, refl, read, held_twice path text after read)

    failed-IsWhole :
        (path text e : String) (s after : S) (failed : Option String)
        → content after path ≡ content s path
        → IsWhole path text s (
          elim (join_errors (some e ∷ failed ∷ [])) [ some both ↦ err both | none ↦ err e ],
          after,
        )
    unfolding join_errors
    failed-IsWhole path text e s after none h = inr (e, refl, h)
    failed-IsWhole path text e s after (some f) h = inr (_, refl, h)

    give_up-IsWhole :
        (path text tmp e : String) (s now : S)
        → tmp ≢ path
        → content now path ≡ content s path
        → IsWhole path text s (give_up fs tmp e now)
    unfolding give_up
    give_up-IsWhole path text tmp e s now apart h =
        failed-IsWhole path text e s (fs.remove tmp now).1 (fs.remove tmp now).0
          (k.removed_elsewhere tmp path now apart ∙ h)

    after_rename-IsWhole :
        (path text tmp : String) (s now : S) (p : Option String × S)
        → fs.rename tmp path now ≡ p
        → tmp ≢ path
        → content now path ≡ content s path
        → content now tmp ≡ some text
        → IsWhole path text s (after_rename fs tmp p)
    unfolding after_rename
    after_rename-IsWhole path text tmp s now (none, after) e apart old new =
        done-IsWhole path text s after true
          (ap (λ r. content r.1 path) (sym e) ∙ k.renamed tmp path now (ap (λ r. r.0) e) ∙ new)
    after_rename-IsWhole path text tmp s now (some f, after) e apart old new =
        give_up-IsWhole path text tmp ("conflist: " <> f) s after apart
          (ap (λ r. content r.1 path) (sym e) ∙ k.unrenamed tmp path now (ap (λ r. r.0) e) ∙ old)

    after_fill-IsWhole :
        (path text tmp : String) (s now : S) (p : Option String × S)
        → fill fs tmp text now ≡ p
        → tmp ≢ path
        → content now path ≡ content s path
        → content now tmp ≡ some ""
        → IsWhole path text s (after_fill fs path tmp p)
    unfolding after_fill
    after_fill-IsWhole path text tmp s now (none, after) e apart old fresh =
        after_rename-IsWhole path text tmp s after (fs.rename tmp path after) refl apart
          (ap (λ r. content r.1 path) (sym e) ∙ fill-elsewhere tmp text path now apart ∙ old)
          (ap (λ r. content r.1 tmp) (sym e) ∙ fill-content tmp text now fresh (ap (λ r. r.0) e))
    after_fill-IsWhole path text tmp s now (some f, after) e apart old fresh =
        give_up-IsWhole path text tmp ("conflist: write " <> (tmp <> (": " <> f))) s after apart
          (ap (λ r. content r.1 path) (sym e) ∙ fill-elsewhere tmp text path now apart ∙ old)

    after_create-IsWhole :
        (path text : String) (s : S) (p : Result String String × S)
        → fs.create_temp path s ≡ p
        → IsWhole path text s (after_create fs path text p)
    unfolding after_create
    after_create-IsWhole path text s (err f, now) e = inr (
      "conflist: " <> f,
      refl,
      ap (λ r. content r.1 path) (sym e) ∙ k.uncreated path s (ap (λ r. r.0) e),
    )
    after_create-IsWhole path text s (ok tmp, now) e =
        let (apart, old, fresh) = k.created path s (ap (λ r. r.0) e) in
        after_fill-IsWhole path text tmp s now (fill fs tmp text now) refl apart
          (ap (λ r. content r.1 path) (sym e) ∙ old) (ap (λ r. content r.1 tmp) (sym e) ∙ fresh)

    -- Over a file system that does what it documents, after WriteFile succeeds reading the file gives the
    -- content written, and writing it again changes nothing; after WriteFile fails, at whichever step, the
    -- file at the path holds what it held before.
    pub write_file-IsWhole :
        (path text : String) (s : S) → IsWhole path text s (write_file fs path text s)
    unfolding write_file
    write_file-IsWhole path text s = elim (Bool-cases (holds_already fs path text s)) [
      | inl held ↦
          rw held
            (done-IsWhole path text s s false (k.reading path s (held_already path text s held)))
      | inr other ↦ rw other (after_create-IsWhole path text s (fs.create_temp path s) refl)
    ]
