-- ===== src/Websocket/Linux/Balance/Closing.antt =====
-- linux_websocket.c: what is registered when a stream is closed.
use artik_sdk.Prelude.{
  length, ◌∷◌, Option, ℕ, ◌+◌, ◌-◌, ◌≤◌, ◌≡◌, refl, true, false, some, ◌∷◌, ltb, arith,
}
use artik_sdk.Prelude.Counting.{count}
use artik_sdk.Error.{s_ok}
use artik_sdk.ArtikList.{ArtikList, add}
use artik_sdk.Websocket.{Config}
use artik_sdk.Websocket.Linux.{Interface, World}
use artik_sdk.Websocket.Linux.Opening.{
  System, Answers, os_websocket_open_stream, new_interface, sizeof_node,
}
use artik_sdk.Websocket.Linux.Balance.{IsHeld}

-- As often as before in each of the lists of the loop, and as many references to it.
pub record IsReturned (base t : World) : Type 0 where
  pub watches : (x : ℕ) → count x t.watches ≡ count x base.watches
  pub timeouts : (x : ℕ) → count x t.timeouts ≡ count x base.timeouts
  pub periodics : (x : ℕ) → count x t.periodics ≡ count x base.periodics
  pub idles : (x : ℕ) → count x t.idles ≡ count x base.idles
  pub loops : t.loops ≡ base.loops
  pub nodes : length t.requested_node ≡ length base.requested_node

-- All that is asked for is granted.
abbrev pub granted : ℕ → ℕ → ℕ → Answers
granted id wsi p = record {
  interface = true;
  protocols = true;
  ssl = s_ok;
  proxy = true;
  context = true;
  fds = true;
  idle = (s_ok, id);
  wsi = some wsi;
  node = some p;
}

abbrev pub opened : Config → ℕ → ℕ → Interface
opened config id wsi = record (new_interface config) { wsi = wsi; loop_process_id = id }

abbrev pub opened_system : ℕ → ℕ → ℕ → System → System
opened_system id wsi p s = record s {
  world = record s.world {
    loops = s.world.loops + 1;
    idles = id ∷ s.world.idles;
    requested_node = (add s.world.requested_node wsi sizeof_node (some p) false).1;
  };
  utils = s.utils + 1 - 1;
  interfaces = s.interfaces + 1;
  contexts = s.contexts + 1;
  ssls = s.ssls + 1;
  fds = s.fds + 1;
}

pub ltb-le : (a b : ℕ) → a ≤ b → ltb b a ≡ false
ltb-le a b h = ground arith

pub os_websocket_open_stream-granted :
    (config : Config) (old : Option Interface) (id wsi p : ℕ) (s : System)
    → config.pong_timeout ≤ config.ping_period
    → os_websocket_open_stream config old (granted id wsi p) s
      ≡ (s_ok, some (opened config id wsi), opened_system id wsi p s)
unfolding os_websocket_open_stream
os_websocket_open_stream-granted config old id wsi p s h =
    rw (ltb-le config.pong_timeout config.ping_period h) refl

-- The reference to the loop module and the node, which are not given back.
abbrev pub left_behind : ℕ → ℕ → World → World
left_behind wsi p w = record w {
  loops = w.loops + 1;
  requested_node = (add w.requested_node wsi sizeof_node (some p) false).1;
}

pub opened-IsHeld :
    (config : Config) (id wsi p : ℕ) (s : System)
    → IsHeld (left_behind wsi p s.world) (opened config id wsi, (opened_system id wsi p s).world)
opened-IsHeld config id wsi p s = record {
  watching = record {
    watches = λ x. omega arith;
    unset_close = λ k. refl;
    unset_connect = λ k. refl;
    unset_receive = λ k. refl;
    unset_error = λ k. refl;
    unset_connection_error = λ k. refl;
    same_connect = refl;
    same_error = refl;
    same_connection_error = refl;
  };
  timeouts = λ x. omega arith;
  periodics = λ x. omega arith;
  idles = λ x. omega arith;
  loops = refl;
  nodes = refl;
  no_pings = λ k. refl;
  no_pongs = λ k. refl;
}

-- What is allocated beside the loop.
pub record IsFreed (s t : System) : Type 0 where
  pub utils : t.utils ≡ s.utils
  pub interfaces : t.interfaces ≡ s.interfaces
  pub contexts : t.contexts ≡ s.contexts
  pub ssls : t.ssls ≡ s.ssls
  pub fds : t.fds ≡ s.fds
