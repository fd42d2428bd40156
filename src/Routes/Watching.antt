-- ===== src/Routes/Watching.antt =====
-- internal/routes/kernel.go: `Kernel.Watch`, over the events in the order in which its `select` takes them.
pub mod Calls
use cnidaria_cni.Base.{
  ℕ, ◌+◌, ◌/◌, ◌%◌, ◌^◌, String, ◌<>◌, Bool, true, ◌&&◌, Option, none, some, List, [], ◌∷◌,
  if◌then◌else◌, ◌==◌, nat_eq,
}

-- `Protocol`
abbrev pub protocol : ℕ
protocol = 200

-- Of a `netlink.RouteUpdate`, a `LinkUpdate` and an `AddrUpdate`, what is read.
pub record RouteUpdate : Type 0 where
  pub type : ℕ
  pub protocol : ℕ

pub record LinkUpdate : Type 0 where
  pub type : ℕ
  pub flags : ℕ

pub record AddrUpdate : Type 0 where
  pub new_addr : Bool
  pub scope : ℕ

-- `reapplyAfterRoute`; 25 is RTM_DELROUTE.
unfoldable pub reapply_after_route : RouteUpdate → Bool
reapply_after_route u = u.type == 25 && u.protocol == protocol

-- `reapplyAfterLink`; 16 is RTM_NEWLINK, and the bits 0 and 16 are IFF_UP and IFF_LOWER_UP.
unfoldable pub reapply_after_link : LinkUpdate → Bool
reapply_after_link u = u.type == 16 && (u.flags % 2 == 1 && u.flags / 2 ^ 16 % 2 == 1)

-- `reapplyAfterAddr`; 0 is RT_SCOPE_UNIVERSE.
unfoldable pub reapply_after_addr : AddrUpdate → Bool
reapply_after_addr u = u.new_addr && u.scope == 0

-- What the `select` takes: the end of the context, an error reported, an update, or a channel that is
-- closed, with whether the context is done by then and an error that waits.
pub data Event : Type 0 where
  done : Event
  trouble : String → Event
  route : RouteUpdate → Event
  link : LinkUpdate → Event
  addr : AddrUpdate → Event
  closed : Bool → Option String → Event

-- How `Watch` stands: it goes on, it has returned nil, or it has returned an error.
pub data Outcome : Type 0 where
  watching stopped : Outcome
  failed : String → Outcome

-- `%v` of an error that may be nil.
abbrev error_text : Option String → String
error_text none = "<nil>"
error_text (some e) = e

abbrev latest : Option String → Option String → Option String
latest last none = last
latest last (some e) = some e

-- A turn of the loop that calls `changed` or does not.
abbrev after_turn : Bool → ℕ × Outcome → ℕ × Outcome
after_turn reapply (calls, outcome) = (if reapply then calls + 1 else calls, outcome)

-- The loop, with `lastErr`: how often it calls `changed`, and how it stands after the events.
unfoldable pub watch_from : Option String → List Event → ℕ × Outcome
unfolding reapply_after_route reapply_after_link reapply_after_addr
watch_from last [] = (0, watching)
watch_from last (done ∷ es) = (0, stopped)
watch_from last (trouble e ∷ es) = after_turn true (watch_from (some e) es)
watch_from last (route u ∷ es) = after_turn (reapply_after_route u) (watch_from last es)
watch_from last (link u ∷ es) = after_turn (reapply_after_link u) (watch_from last es)
watch_from last (addr u ∷ es) = after_turn (reapply_after_addr u) (watch_from last es)
watch_from last (closed cancelled pending ∷ es) =
    if cancelled
    then (0, stopped)
    else (0, failed ("routes: kernel events stopped: " <> error_text (latest last pending)))

-- `Watch`, from what the three subscriptions gave.
unfoldable pub watch : Option String → Option String → Option String → List Event → ℕ × Outcome
unfolding watch_from
watch (some e) links addrs es = (0, failed ("routes: subscribe to route events: " <> e))
watch none (some e) addrs es = (0, failed ("routes: subscribe to link events: " <> e))
watch none none (some e) es = (0, failed ("routes: subscribe to address events: " <> e))
watch none none none es = after_turn true (watch_from none es)
