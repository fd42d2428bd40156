-- ===== src/Controller/Host.antt =====
-- internal/controller/routes.go: what the route reconciler reads and writes around it, and the parts of
-- it that deal with one of these each (`uplinkMTU`, `publishIPv6`).
pub mod Publishing
pub mod Uplink
use cnidaria_cni.Base.{
  ℕ, String, ◌<>◌, Bool, true, false, ◌&&◌, not, Option, none, some, List, [], ◌∷◌, map,
  if◌then◌else◌, ◌==◌, string_eq, Result, ok, err, any, find_first, join, lookup, insert, erase,
}
use cnidaria_cni.Netip.Addr.{Addr, addr_eq, addr_text, is4, is6, unmap}
use cnidaria_cni.Netip.Prefix.{Prefix}
use cnidaria_cni.Kube.{Labels}
use cnidaria_cni.Kube.Objects.{Node}
use cnidaria_cni.Routes
use cnidaria_cni.Routes.{Route}
use cnidaria_cni.Conflist.{Document}
use cnidaria_cni.Conflist.Writing.{FileSystem}
use cnidaria_cni.Controller.Nodes.{node_ipv6_annotation}

-- An interface of the host: its addresses, if they can be listed, each if it is one.
pub record Interface : Type 0 where
  pub mtu : ℕ
  pub addrs : Option (List (Option Addr))

-- The client, the interfaces `Kernel` and `Forward`, the interfaces of the host and the files, on one
-- state of all that is outside the reconciler.
pub record Host (S : Type 0) : Type 0 where
  pub list_nodes : S → Result String (List Node)
  pub patch : Node → S → Option String × S
  pub apply_routes : List Route → S → List Route × Option String × S
  pub global_ipv6 : Addr → S → Result String (Option Addr)
  pub apply_forward : List Prefix → S → Option String × S
  pub interfaces : S → Result String (List Interface)
  pub files : FileSystem S

-- Whether one of the addresses is held under this address of an interface.
abbrev pub is_one_of : List Addr → Option Addr → Bool
unfolding any
is_one_of addrs none = false
is_one_of addrs (some held) = any (λ a. unmap held == unmap a) addrs

abbrev pub has_one_of : List Addr → Interface → Bool
unfolding any is_one_of
has_one_of addrs i = elim i.addrs [ none ↦ false | some held ↦ any (is_one_of addrs) held ]

abbrev mtu_of : List Addr → Option Interface → Result String ℕ
unfolding join addr_text
mtu_of addrs (some i) = ok i.mtu
mtu_of addrs none = err (
    "no interface holds any of this node's InternalIPs ["
    <> (join (map addr_text addrs) " " <> "]; set --mtu explicitly"))

-- `uplinkMTU`
unfoldable pub uplink_mtu : List Addr → Result String (List Interface) → Result String ℕ
unfolding mtu_of has_one_of find_first is_one_of any join addr_text
uplink_mtu addrs (err e) = err e
uplink_mtu addrs (ok interfaces) = mtu_of addrs (find_first (has_one_of addrs) interfaces)

-- The annotations with the address wanted, which is empty for none.
unfoldable pub annotated : String → Labels → Labels
unfolding insert erase
annotated want annotations =
    if want == ""
    then erase node_ipv6_annotation annotations
    else insert node_ipv6_annotation want annotations

-- Whether the annotation says already what is wanted.
unfoldable pub says : String → Labels → Bool
unfolding lookup
says want annotations = elim (lookup node_ipv6_annotation annotations) [
  | none ↦ want == ""
  | some got ↦ got == want && not (want == "")
]

abbrev pub with_annotations : Node → Labels → Node
with_annotations n annotations = record n { meta = record n.meta { annotations = annotations } }

unfoldable pub text_of : Option Addr → String
unfolding addr_text
text_of none = ""
text_of (some a) = addr_text a

module _ {S : Type 0} (host : Host S) where
  unfoldable pub address_of : Option Addr → S → Result String String
  unfolding text_of addr_text
  address_of none s = ok ""
  address_of (some on) s = elim (host.global_ipv6 on s) [
    | err e ↦ err e
    | ok found ↦ ok (text_of found)
  ]

  -- The address to publish, or the empty text.
  unfoldable pub wanted : Routes.Node → S → Result String String
  unfolding address_of text_of addr_text any find_first
  wanted self s =
      if any is6 self.internal_ips then ok "" else address_of (find_first is4 self.internal_ips) s

  -- The part of `publishIPv6` after the address is found.
  unfoldable pub publish_text : Node → Result String String → S → Option String × S
  unfolding says annotated
  publish_text n (err e) s = (some e, s)
  publish_text n (ok want) s =
      if says want n.meta.annotations
      then (none, s)
      else host.patch (with_annotations n (annotated want n.meta.annotations)) s

  -- `publishIPv6`
  unfoldable pub publish_ipv6 : Node → Routes.Node → S → Option String × S
  unfolding publish_text wanted
  publish_ipv6 n self s = publish_text n (wanted self s) s
