-- ===== src/Tests/Outside.antt =====
-- The file of the CNI configuration, the kernel's events and the iptables of a host.
use cnidaria_cni.Base.{
  ℕ, ◌+◌, String, ◌≡◌, ◌≢◌, refl, sym, ap, ◌∙◌, true, false, Option, none, some, List, [], ◌∷◌,
  ◌++◌, arith, if◌then◌else◌, ◌==◌, string_eq, Bool-cases, inl, inr, lookup, insert, erase,
  lookup-insert, lookup-erase, differs_text, Result, ok, err, contains, ok_inj,
}
use mathlib.Core.Path.{subst}
use cnidaria_cni.Conflist.Writing.{FileSystem, write_file}
use cnidaria_cni.Conflist.Writing.Whole.{KeepsContents, IsWhole, write_file-IsWhole}
use cnidaria_cni.Routes.Watching.{
  Event, done, trouble, route, link, closed, watch, watching, stopped,
}
use cnidaria_cni.Routes.Watching.Calls.{count, lost, watch-calls}
use cnidaria_cni.Iptables.{
  Runner, Family, choose, probe, kube_chains, count_kube, lines, has_prefix, by_kube_proxy,
  not_found,
}
use cnidaria_cni.Iptables.Detecting.{chosen, detect}
use cnidaria_cni.Iptables.Fitting.{FitsSaved, saved, detect-Fits}

-- Files as a dictionary of their contents.
abbrev Contents : Type 0
Contents = List (String × String)

abbrev read_from : Option String → Result String String
read_from none = err "no such file or directory"
read_from (some text) = ok text

abbrev temporary : String → String
temporary path = if path == ".a" then ".b" else ".a"

abbrev move : String → Option String → String → Contents → Option String × Contents
move tmp none path s = (some "no such file or directory", s)
move tmp (some text) path s = (none, insert path text (erase tmp s))

abbrev pub disk : FileSystem Contents
disk = record {
  read_file = λ path s. read_from (lookup path s);
  create_temp = λ path s. (ok (temporary path), insert (temporary path) "" s);
  write = λ tmp text s. (none, insert tmp text s);
  chmod = λ tmp mode s. (none, s);
  close = λ tmp s. (none, s);
  rename = λ tmp path s. move tmp (lookup tmp s) path s;
  remove = λ tmp s. (none, erase tmp s);
}

abbrev pub content_of : Contents → String → Option String
content_of s path = lookup path s

temporary-ne : (path : String) → temporary path ≢ path
temporary-ne path h = elim (Bool-cases (path == ".a")) [
  | inl same ↦
      let at_a = (string_eq.beq_iff path ".a").0 same in
      let b : ".b" ≡ path = rw same at h in differs_text ".b" ".a" refl (b ∙ at_a)
  | inr other ↦
      let a : ".a" ≡ path = rw other at h in
      let self = (string_eq.beq_iff path ".a").1 (sym a) in absurd (ground arith)
]

apart : (tmp path : String) → tmp ≢ path → (tmp == path) ≡ false
apart tmp path h = elim (Bool-cases (tmp == path)) [
  | inl same ↦ absurd (h ((string_eq.beq_iff tmp path).0 same))
  | inr other ↦ other
]

inserted_elsewhere :
    (tmp text path : String) (s : Contents)
    → tmp ≢ path
    → lookup path (insert tmp text s) ≡ lookup path s
inserted_elsewhere tmp text path s h = lookup-insert tmp path text s ∙ rw (apart tmp path h) refl

inserted_there : (path text : String) (s : Contents) → lookup path (insert path text s) ≡ some text
inserted_there path text s =
    lookup-insert path path text s ∙ rw ((string_eq.beq_iff path path).1 refl) refl

created_beside :
    (path tmp : String) (s : Contents)
    → temporary path ≡ tmp
    → (tmp ≢ path)
      × (lookup path (insert (temporary path) "" s) ≡ lookup path s)
      × (lookup tmp (insert (temporary path) "" s) ≡ some "")
created_beside path tmp s h =
    let beside : temporary path ≢ path = temporary-ne path in
    (
      subst (λ t. t ≢ path) h beside,
      inserted_elsewhere (temporary path) "" path s beside,
      subst (λ t. lookup t (insert (temporary path) "" s) ≡ some "") h
          (inserted_there (temporary path) "" s),
    )

read_from-eq-ok : (o : Option String) (text : String) → read_from o ≡ ok text → o ≡ some text
read_from-eq-ok none text h = absurd (ground arith)
read_from-eq-ok (some t) text h = ground arith

moved :
    (tmp path : String) (o : Option String) (s : Contents)
    → (move tmp o path s).0 ≡ none
    → lookup path (move tmp o path s).1 ≡ o
moved tmp path none s h = absurd (ground arith)
moved tmp path (some text) s h = inserted_there path text (erase tmp s)

unmoved :
    (tmp path : String) (o : Option String) (s : Contents) {e : String}
    → (move tmp o path s).0 ≡ some e
    → lookup path (move tmp o path s).1 ≡ lookup path s
unmoved tmp path none s h = refl
unmoved tmp path (some text) s h = absurd (ground arith)

pub disk-KeepsContents : KeepsContents disk content_of
disk-KeepsContents = record {
  reading = λ path s h. read_from-eq-ok (lookup path s) _ h;
  readable = λ path s h. rw h refl;
  uncreated = λ path s h. absurd (ground arith);
  created = λ path s h. created_beside path _ s (ok_inj h);
  written = λ tmp text s fresh h. inserted_there tmp text s;
  write_elsewhere = λ tmp text path s h. inserted_elsewhere tmp text path s h;
  chmod_nowhere = λ tmp path s. refl;
  close_nowhere = λ tmp path s. refl;
  renamed = λ tmp path s h. moved tmp path (lookup tmp s) s h;
  unrenamed = λ tmp path s h. unmoved tmp path (lookup tmp s) s h;
  removed_elsewhere = λ tmp path s h. lookup-erase tmp path s ∙ rw (apart tmp path h) refl;
}

write_file-IsWhole_example : IsWhole disk content_of ".b" "{}" [] (write_file disk ".b" "{}" [])
write_file-IsWhole_example = write_file-IsWhole disk content_of disk-KeepsContents ".b" "{}" []

-- An error, the removal of a route of the protocol, and a link without carrier.
abbrev reports : List Event
reports =
    trouble "no buffer space available"
    ∷ route (record { type = 25; protocol = 200 })
    ∷ link (record { type = 16; flags = 1 })
    ∷ []

watch-calls_example :
    (watch none none none reports ≡ (1 + count reports, watching))
    × (watch none none none (reports ++ (done ∷ [])) ≡ (1 + count reports, stopped))
    × (watch none none none (reports ++ (closed true none ∷ [])) ≡ (1 + count reports, stopped))
    × (watch none none none (reports ++ (closed false none ∷ []))
        ≡ (1 + count reports, lost reports none))
watch-calls_example = watch-calls reports [] none (tt, (tt, (tt, tt)))

-- A host whose nft backends hold a chain of kube-proxy.
abbrev host : Runner ℕ
host k command =
    if contains ("iptables-nft-save" ∷ "ip6tables-nft-save" ∷ []) command.name
    then (ok ":KUBE-SERVICES - [0:0]", k)
    else (err not_found, k)

abbrev probed : String → Family
probed prog = record { prog = prog; nft_kube = 1; legacy_kube = 0; nft_installed = true }

detected : detect host 0 ≡ (ok (chosen (probed "iptables") (probed "ip6tables")), 0)
unfolding detect chosen contains choose probe kube_chains count_kube lines has_prefix by_kube_proxy
detected = refl

detect-Fits_example :
    FitsSaved host
      (saved host "iptables" 0)
      (saved host "ip6tables" 0)
      (chosen (probed "iptables") (probed "ip6tables"))
unfolding contains
detect-Fits_example =
    detect-Fits host 0 (chosen (probed "iptables") (probed "ip6tables")) (ap (λ r. r.0) detected)
