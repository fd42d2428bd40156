-- ===== src/Tests/Hosts.antt =====
-- The route reconciler of internal/controller, over a host that is given here.
use cnidaria_cni.Base.{String, ◌≡◌, ◌↔◌, refl, none, some, List, [], ◌∷◌, insert, ok, join, ◌<>◌}
use cnidaria_cni.Netip.Addr.{v4, v6}
use cnidaria_cni.Kube.Objects.{Node}
use cnidaria_cni.Routes
use cnidaria_cni.Conflist
use cnidaria_cni.Conflist.Printing.{render_text}
use cnidaria_cni.Controller.Nodes.{from_node}
use cnidaria_cni.Controller.Host.{Host, publish_ipv6}
use cnidaria_cni.Controller.Host.Publishing.{KeepsAddresses, Published, publish_ipv6-Published}
use cnidaria_cni.Controller.Reconcile.{resync}
use cnidaria_cni.Controller.RouteReconcile.{Reconciler, reconcile, write_conflist}
use cnidaria_cni.Controller.RouteReconcile.EveryStep.{
  after_routes, after_forward, after_conflist, after_address, reconcile_iff,
}
use cnidaria_cni.Controller.RouteReconcile.OnDisk.{OnDisk, write_conflist-OnDisk}
use cnidaria_cni.Tests.Data.{external}
use cnidaria_cni.Tests.Outside.{disk, content_of, disk-KeepsContents}

abbrev node : Node
node = record {
  meta = record {
    namespace = "";
    name = "node-1";
    uid = "7";
    resource_version = "42";
    labels = [];
    annotations = [];
    finalizers = [];
  };
  pod_cidrs = "10.0.0.0/8" ∷ [];
  addresses = record { type = "InternalIP"; address = "10.244.1.5" } ∷ [];
}

abbrev self : Routes.Node
unfolding from_node
self = from_node external node

-- One node and one interface, which hold the address that is parsed; a patch is kept with the files.
abbrev host : Host (List (String × String))
host = record {
  list_nodes = λ s. ok (node ∷ []);
  patch = λ n s. (none, insert "patched" n.meta.name s);
  apply_routes = λ routes s. (routes, none, s);
  global_ipv6 = λ on s. ok (some (v6 0x20010db8000000000000000000000001 ""));
  apply_forward = λ cidrs s. (none, s);
  interfaces = λ s. ok (record { mtu = 1500; addrs = some (some (v4 0x0af40105) ∷ []) } ∷ []);
  files = disk;
}

host-KeepsAddresses : KeepsAddresses host
host-KeepsAddresses n on s = refl

publish_ipv6-Published_example : Published host node self [] (publish_ipv6 host node self []).1
unfolding publish_ipv6 self
publish_ipv6-Published_example = publish_ipv6-Published host node self [] host-KeepsAddresses refl

abbrev reconciler : Reconciler
reconciler = record {
  node_name = "node-1";
  conflist = record {
    path = "/etc/cni/net.d/10-cnidaria.conflist";
    name = "cnidaria";
    bridge = "cni0";
    mtu = 0;
  };
}

reconcile_iff_example :
    ((reconcile external host reconciler []).1
      ≡ (after_address external host reconciler (node ∷ []) []).1)
    × (((reconcile external host reconciler []).0 ≡ ok resync) ↔ (
        ((after_routes external host reconciler (node ∷ []) []).0 ≡ none)
        × ((after_forward external host reconciler (node ∷ []) []).0 ≡ none)
        × ((after_conflist external host reconciler (node ∷ []) []).0 ≡ none)
        × ((after_address external host reconciler (node ∷ []) []).0 ≡ none)))
reconcile_iff_example = reconcile_iff external host reconciler [] refl

write_conflist-OnDisk_example :
    OnDisk external host reconciler self [] (write_conflist external host reconciler self []).1
unfolding self write_conflist insert
write_conflist-OnDisk_example =
    write_conflist-OnDisk external host reconciler content_of disk-KeepsContents self [] refl refl

-- The file internal/conflist/testdata/dual-stack.conflist.
abbrev golden : List String
golden =
    "{" ∷ "  \"cniVersion\": \"1.0.0\"," ∷ "  \"name\": \"cnidaria\"," ∷ "  \"plugins\": ["
    ∷ "    {" ∷ "      \"type\": \"bridge\"," ∷ "      \"bridge\": \"cni0\","
    ∷ "      \"isDefaultGateway\": true," ∷ "      \"hairpinMode\": true," ∷ "      \"mtu\": 1500,"
    ∷ "      \"ipam\": {" ∷ "        \"type\": \"host-local\"," ∷ "        \"ranges\": ["
    ∷ "          [" ∷ "            {" ∷ "              \"subnet\": \"192.0.2.0/24\""
    ∷ "            }" ∷ "          ]," ∷ "          [" ∷ "            {"
    ∷ "              \"subnet\": \"2001:db8:1::/64\"" ∷ "            }" ∷ "          ]"
    ∷ "        ]" ∷ "      }" ∷ "    }," ∷ "    {" ∷ "      \"type\": \"portmap\","
    ∷ "      \"capabilities\": {" ∷ "        \"portMappings\": true" ∷ "      }" ∷ "    }" ∷ "  ]"
    ∷ "}" ∷ []

abbrev dual_stack : Conflist.Params
dual_stack = record {
  name = "cnidaria";
  bridge = "cni0";
  mtu = 1500;
  pod_cidrs =
      record { addr = v4 0xc0000200; bits_plus_one = 25 }
      ∷ record { addr = v6 0x20010db8000100000000000000000000 ""; bits_plus_one = 65 }
      ∷ [];
}

prints_golden : render_text dual_stack ≡ ok (join golden "\n" <> "\n")
unfolding render_text join
prints_golden = refl
