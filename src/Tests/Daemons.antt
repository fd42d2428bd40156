-- ===== src/Tests/Daemons.antt =====
-- The daemon of cmd/cnidaria, over a host that counts the starts of the manager.
use cnidaria_cni.Base.{
  ℕ, ◌+◌, String, refl, sym, ap, ◌∙◌, Option, none, some, List, [], ◌∷◌, string_eq, Result, ok, err,
  if◌then◌else◌, contains, lookup, insert, lookup-insert, text_differs, ok_inj,
}
use cnidaria_cni.Sysctl.{Files, ReadError, not_exist}
use cnidaria_cni.Sysctl.Settled.{KeepsFiles}
use cnidaria_cni.Iptables.{Failure, not_found}
use cnidaria_cni.Daemon.{Flags, Outside, run_daemon}
use cnidaria_cni.Daemon.Guarding.{CountsStarts, Guarded, run_daemon-Guarded}

-- The settings, and how often the manager has been started.
abbrev World : Type 0
World = List (String × String) × ℕ

abbrev read_text : Option String → Result ReadError String
read_text none = err not_exist
read_text (some text) = ok text

abbrev settings : Files World
settings = record {
  read_file = λ w name. read_text (lookup name w.0);
  write_file = λ w name text. ok (insert name text w.0, w.1);
}

abbrev saved : String → Result Failure String
saved name =
    if contains ("iptables-nft-save" ∷ "ip6tables-nft-save" ∷ []) name
    then ok ":KUBE-SERVICES - [0:0]"
    else err not_found

abbrev fine : World → Option String × World
fine w = (none, w)

abbrev outside : Outside World
outside = record {
  files = settings;
  run = λ w command. (saved command.name, w);
  get_config = fine;
  add_client_scheme = fine;
  add_own_scheme = fine;
  new_manager = λ options w. fine w;
  add_healthz_check = fine;
  add_readyz_check = fine;
  new_kernel = fine;
  close_kernel = λ w. w;
  setup_routes = λ r forward w. fine w;
  setup_ruleset = λ r w. fine w;
  start = λ w. (none, (w.0, w.1 + 1));
}

abbrev flags : Flags
flags = record {
  node_name = "node-1";
  conflist_path = "/etc/cni/net.d/10-cnidaria.conflist";
  mtu = 0;
  network_name = "cnidaria";
  health_addr = "127.0.0.1:19080";
  metrics_addr = "0";
}

abbrev starts : World → ℕ
starts w = w.1

outside-CountsStarts : CountsStarts outside flags starts
outside-CountsStarts = record {
  writing = λ w after name text h. sym (ap (λ v. v.1) (ok_inj h));
  running = λ w c. refl;
  configuring = λ w. refl;
  client_scheme = λ w. refl;
  own_scheme = λ w. refl;
  making = λ o w. refl;
  healthz = λ w. refl;
  readyz = λ w. refl;
  opening = λ w. refl;
  closing = λ w. refl;
  routes = λ r f w. refl;
  policies = λ r w. refl;
  starting = λ w. refl;
}

settings-KeepsFiles : KeepsFiles settings
settings-KeepsFiles = record {
  written = λ w name f h.
      ap (λ v. read_text (lookup name v.0)) (sym (ok_inj h))
      ∙ ap read_text (lookup-insert name name "1\n" w.0)
      ∙ rw ((string_eq.beq_iff name name).1 refl) refl;
  others = λ w name another f known h differs.
      ap (λ v. read_text (lookup another v.0)) (sym (ok_inj h))
      ∙ ap read_text (lookup-insert name another "1\n" w.0)
      ∙ rw (text_differs name another (λ e. differs (sym e))) refl;
}

abbrev booted : World
booted = (
  ("net.bridge.bridge-nf-call-iptables", "1\n")
      ∷ ("net.bridge.bridge-nf-call-ip6tables", "1\n")
      ∷ ("net.ipv4.ip_forward", "0\n")
      ∷ ("net.ipv6.conf.all.forwarding", "1\n")
      ∷ [],
  0,
)

run_daemon-Guarded_example : Guarded outside flags starts booted (run_daemon outside flags booted)
run_daemon-Guarded_example =
    run_daemon-Guarded outside flags starts outside-CountsStarts settings-KeepsFiles booted
