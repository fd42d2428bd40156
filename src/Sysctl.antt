-- ===== src/Sysctl.antt =====
-- internal/sysctl/sysctl.go. Reading and writing files are parameters; the file's path is made from the
-- root and the setting's name.
pub mod Settled
pub mod Keeping
use cnidaria_cni.Base.{
  String, ◌<>◌, Bool, true, false, not, Option, none, some, List, [], ◌∷◌, ◌++◌, if◌then◌else◌,
  ◌==◌, string_eq, Result, ok, err, trim_space,
}

abbrev pub bridge_settings : List String
bridge_settings = "net.bridge.bridge-nf-call-iptables" ∷ "net.bridge.bridge-nf-call-ip6tables" ∷ []

abbrev pub forwarding_settings : List String
forwarding_settings = "net.ipv4.ip_forward" ∷ "net.ipv6.conf.all.forwarding" ∷ []

-- What reading a file can fail with: it is not there, or another error.
pub data ReadError : Type 0 where
  not_exist : ReadError
  other : String → ReadError

-- The files under one root, by the setting's name: what a state of them reads, and what writing does.
pub record Files (S : Type 0) : Type 0 where
  pub read_file : S → String → Result ReadError String
  pub write_file : S → String → String → Result String S

-- The cases of `Check`'s switch.
abbrev pub complaint_of : String → Result ReadError String → Option String
complaint_of name (err not_exist) =
    some (name <> " is absent (is the br_netfilter module loaded?), must be 1")
complaint_of name (err (other e)) = some (name <> (": " <> (e <> ", must be 1")))
complaint_of name (ok value) =
    if not (value == "1") then some (name <> (" is " <> (value <> ", must be 1"))) else none

module _ {S : Type 0} (files : Files S) where
  -- `read`
  unfoldable pub read : S → String → Result ReadError String
  unfolding trim_space
  read s name = elim (files.read_file s name) [ ok raw ↦ ok (trim_space raw) | err e ↦ err e ]

  -- One setting of `Check`: its complaint, if any.
  unfoldable pub complaint : S → String → Option String
  unfolding read
  complaint s name = complaint_of name (read s name)

  unfoldable pub complaints : S → List String → List String
  unfolding complaint
  complaints s [] = []
  complaints s (name ∷ names) = elim (complaint s name) [
    | none ↦ complaints s names
    | some e ↦ e ∷ complaints s names
  ]

  -- `Check`; no complaints are the nil error.
  unfoldable pub check : S → List String
  unfolding complaints
  check s = complaints s bridge_settings

  abbrev read_error_text : ReadError → String
  read_error_text not_exist = "file does not exist"
  read_error_text (other e) = e

  -- The loop of `EnsureForwarding`, over the settings that are left.
  unfoldable pub ensure : List String → S → List String → List String × Option String × S
  unfolding read
  ensure [] s changed = (changed, none, s)
  ensure (name ∷ names) s changed = elim (read s name) [
    | err e ↦ (changed, some (name <> (": " <> read_error_text e)), s)
    | ok value ↦
        let skipped = ensure names s changed in
        let written : List String × Option String × S = elim (files.write_file s name "1\n") [
          | err e ↦ (
            changed,
            some (name <> (" is " <> (value <> (" and could not be set to 1: " <> e)))),
            s,
          )
          | ok after ↦ ensure names after (changed ++ (name ∷ []))
        ] in
        if value == "1" then skipped else written
  ]

  -- `EnsureForwarding`: the names changed, the error if any, and the files afterwards.
  unfoldable pub ensure_forwarding : S → List String × Option String × S
  unfolding ensure
  ensure_forwarding s = ensure forwarding_settings s []
