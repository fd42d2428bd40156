-- ===== src/Conflist/Writing.antt =====
-- internal/conflist/write.go: `WriteFile`, over the operations of a file system.
pub mod Whole
use cnidaria_cni.Base.{
  ℕ, String, ◌<>◌, Bool, true, false, Option, none, some, List, [], ◌∷◌, if◌then◌else◌, ◌==◌,
  string_eq, Result, ok, err, join_errors,
}

-- The operations of `os` that are called, on a state of the files. `create_temp` makes an empty file
-- beside a path, under a name made from its last part.
pub record FileSystem (S : Type 0) : Type 0 where
  pub read_file : String → S → Result String String
  pub create_temp : String → S → Result String String × S
  pub write : String → String → S → Option String × S
  pub chmod : String → ℕ → S → Option String × S
  pub close : String → S → Option String × S
  pub rename : String → String → S → Option String × S
  pub remove : String → S → Option String × S

module _ {S : Type 0} (fs : FileSystem S) where
  -- The mode is set only if the data went in.
  after_write : String → Option String × S → Option String × S
  after_write tmp (none, s) = fs.chmod tmp 420 s
  after_write tmp (some e, s) = (some e, s)

  -- `fill`; 420 is 0o644.
  unfoldable pub fill : String → String → S → Option String × S
  unfolding join_errors after_write
  fill tmp content s =
      let (first, s1) = after_write tmp (fs.write tmp content s) in
      let (last, s2) = fs.close tmp s1 in (join_errors (first ∷ last ∷ []), s2)

  -- A failure, with that of removing the temporary file.
  give_up : String → String → S → Result String Bool × S
  unfolding join_errors
  give_up tmp e s =
      let (failed, s1) = fs.remove tmp s in
      (elim (join_errors (some e ∷ failed ∷ [])) [ some both ↦ err both | none ↦ err e ], s1)

  after_rename : String → Option String × S → Result String Bool × S
  unfolding give_up
  after_rename tmp (none, s) = (ok true, s)
  after_rename tmp (some e, s) = give_up tmp ("conflist: " <> e) s

  after_fill : String → String → Option String × S → Result String Bool × S
  unfolding give_up after_rename
  after_fill path tmp (none, s) = after_rename tmp (fs.rename tmp path s)
  after_fill path tmp (some e, s) = give_up tmp ("conflist: write " <> (tmp <> (": " <> e))) s

  after_create : String → String → Result String String × S → Result String Bool × S
  unfolding fill after_fill
  after_create path content (err e, s) = (err ("conflist: " <> e), s)
  after_create path content (ok tmp, s) = after_fill path tmp (fill tmp content s)

  -- Whether the file at the path has the content already.
  unfoldable pub holds_already : String → String → S → Bool
  holds_already path content s = elim (fs.read_file path s) [
    | ok old ↦ old == content
    | err e ↦ false
  ]

  -- `WriteFile`
  unfoldable pub write_file : String → String → S → Result String Bool × S
  unfolding holds_already after_create
  write_file path content s =
      if holds_already path content s
      then (ok false, s)
      else after_create path content (fs.create_temp path s)
