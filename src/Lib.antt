-- ===== src/Lib.antt =====
-- cnidaria-cni: the daemon that keeps a node's nftables table, routes, iptables chain, kernel settings and
-- CNI configuration in step with the cluster.
--
-- The parts, and the files that model them:
-- - internal/nftables/ruleset.go and model.go, the table and its printed form: Nftables/Ruleset. A write through
--   the pointer that `Ruleset.Set` or `Ruleset.Chain` returns is `write_set` or `write_chain`.
-- - internal/nftables/render.go: Nftables/Params (the parameters and the names), Nftables/Validate (`validate`),
--   Nftables/Families (`splitFamilies`), Nftables/Chains, Nftables/Render (`Render`, whose table is `skeleton`),
--   Nftables/Identifier (`Identifier`, `fold`).
-- - internal/nftables/apply.go: Nftables/Applier, over a function that runs nft on a text in a state of the kernel.
-- - internal/apis/v1alpha1/nodenetworkpolicy_types.go, and internal/nodepol: Nodepol/Types, Nodepol/Match
--   (match.go), Nodepol/Add (nodepol.go). `rendered` is what `Add` makes before it overwrites the caller's table.
-- - internal/netpol: Netpol/Types (netpol.go), and for render.go Netpol/Match, Netpol/Sets, Netpol/Peers, Netpol/Ports,
--   Netpol/Policy and Netpol/Add. The `builder` is the pair of `Cluster`, which is read, and `State`, which is
--   handed from step to step. The table that a failing `Add` leaves behind is not kept, since the caller drops it.
-- - internal/conflist/conflist.go: Conflist, and Conflist/Printing for the print as JSON; write.go: Conflist/Writing, over a
--   file system.
-- - internal/routes/routes.go and the choice of an address in kernel.go: Routes; of kernel.go, Kernel.Apply:
--   Routes/Kernel, Kernel.Watch: Routes/Watching, Kernel.GlobalIPv6: Routes/OwnAddress.
-- - internal/iptables/forward.go: Iptables, over a function that runs a command, and Iptables/Detecting (`Detect`).
-- - internal/sysctl/sysctl.go: Sysctl, over files by the name of the setting.
-- - internal/controller/ruleset.go: Controller has the statuses of the policies and `withEntry`, Controller/Status
--   `writeStatus`, Controller/Pods `fromPod` and `StripPod`, Controller/Policies `fromNetworkPolicy`, Controller/Render
--   `render`, and Controller/Reconcile `Reconcile`; Pipeline has the three renderers in the order of `render`.
-- - internal/controller/routes.go: Controller/Nodes has `fromNode`, Controller/Host the MTU of the uplink and
--   `publishIPv6`, Controller/RouteReconcile `writeConflist` and `Reconcile`; its child Wired puts the kernel of
--   internal/routes under it.
-- - cmd/cnidaria/main.go: Daemon, `run` from the parsed flags on.
-- Netip models the values of net/netip that the program uses, Kube the values of the Kubernetes API, and Base has
-- the shared lists, results, texts and orders.
--
-- How to read the models: Go's errors are `Result`, with the wrapped text. Maps are association lists, and the two
-- loops over literal maps in `validate` go in the order of the literals. `slices.SortFunc` is a stable insertion
-- sort. `%q` takes every character above 127 as printable, and lower case and white space are those of ASCII and
-- Latin-1, and a comment is clipped at a character where the source clips at a byte, which is the same for ASCII. MTUs are
-- not negative. All loops are structural, so there is no fuel, but for `walk` of Nftables/Verdicts: it reads a chain the way
-- the nft manual says, with a bound on jumps inside one another; two are enough for the chains of NodeNetworkPolicies,
-- which the results hold for with any number of more. Whether a packet meets a match text is a parameter of it.
--
-- Code outside the repository is a parameter: label selectors, `netip.ParsePrefix`, `netip.ParseAddr` and SHA-256 (`Kube.External`), the
-- runs of nft, iptables commands, netlink, files, the clock, the client of the API server and the manager. Each operation takes the state of what it works on and gives the new one. The laws that a result needs of them are records: `IsTransaction`
-- (nft -f is one transaction), `CountsJumps` (what -C, -I and iptables-restore --noflush do to the jumps), `KeepsFiles` (what turning on a forwarding setting does to the four settings that are read),
-- `IsRoutingTable` (what listing, replacing and deleting a route do to the routes of the protocol, one for a destination),
-- `ReadsPair` (how nft reads one match that is made of two), `KeepsContents` (what the calls of `os` do to the contents of files), `IsServer` (an update of a status is what the server
-- holds), `KeepsAddresses` (a patch of a node leaves the host's addresses), `CountsStarts` (only `start` starts the manager).
--
-- Not modelled: log lines, the parsing of flags, the registration of the reconcilers with the manager and their queue, the
-- processes that nft and iptables run in, the generated copies of the API types and their registration, and
-- the network namespace test bed.
pub mod Base
pub mod Netip
pub mod Kube
pub mod Nftables
pub mod Nodepol
pub mod Netpol
pub mod Conflist
pub mod Routes
pub mod Sysctl
pub mod Iptables
pub mod Controller
pub mod Pipeline
pub mod Daemon
pub mod Tests
