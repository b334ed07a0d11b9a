-- ===== src/Websocket/Linux/Balance.antt =====
-- linux_websocket.c: what a stream has registered with the loop module, from its opening to its close.
pub mod Callbacks
pub mod Timers
pub mod Steps
pub mod Removal
pub mod Closing
use artik_sdk.Prelude.{
  length, ℕ, ◌+◌, ◌≡◌, ◌≢◌, Bool, true, false, none, some, List, ◌==◌, if◌then◌else◌,
}
use artik_sdk.Prelude.Int.{ℤ, pos, negsuc}
use artik_sdk.Prelude.Counting.{count, remove_one}
use artik_sdk.Prelude.Text.{Bytes}
use artik_sdk.Error.{s_ok}
use artik_sdk.Websocket.Linux.{
  FdEvent, Data, Interface, World, Stream, Reason, client_established, lws_callback,
  os_websocket_write_stream, minus_one,
}
use artik_sdk.Websocket.Linux.Watches.{
  os_websocket_set_connection_callback, os_websocket_set_receive_callback, watch_callback,
  ping_periodic_callback, pong_timeout_callback,
}

-- How often `x` is the watch of `d`, if there is one.
abbrev pub watched : ℕ → Data → ℕ
watched x d = if d.callback == 0 then 0 else if x == d.watch_id then 1 else 0

-- How often `x` is the timer `t`.
abbrev pub timed : ℕ → ℤ → ℕ
timed x (pos n) = if x == n then 1 else 0
timed x (negsuc n) = 0

-- The watch that is not set is 0.
abbrev pub IsUnset : Data → Type 0
IsUnset d = d.callback ≡ 0 → d.watch_id ≡ 0

-- The elements of `data`.
pub record Fds : Type 0 where
  pub close : Data
  pub connect : Data
  pub receive : Data
  pub error : Data
  pub connection_error : Data

abbrev pub fds_of : Interface → Fds
fds_of i = record {
  close = i.on_close;
  connect = i.on_connect;
  receive = i.on_receive;
  error = i.on_error;
  connection_error = i.on_connection_error;
}

abbrev pub total_watched : ℕ → Fds → ℕ
total_watched x d =
    watched x d.close
    + watched x d.connect
    + watched x d.receive
    + watched x d.error
    + watched x d.connection_error

-- What a stream and the loop say of what is registered.
pub record Registered : Type 0 where
  pub interface : Interface
  pub watches : List ℕ
  pub timeouts : List ℕ
  pub periodics : List ℕ
  pub idles : List ℕ
  pub loops : ℕ
  pub nodes : ℕ

-- Without what is sent and received.
abbrev bare : Interface → Interface
bare i = record i { send_message = none; receive_message = none }

abbrev pub registered_of : Stream → Registered
registered_of (i, w) = record {
  interface = bare i;
  watches = w.watches;
  timeouts = w.timeouts;
  periodics = w.periodics;
  idles = w.idles;
  loops = w.loops;
  nodes = length w.requested_node;
}

-- The watches at `base`, and those of the elements `d`.
pub record Watches (base : World) (l : List ℕ) (d : Fds) : Type 0 where
  pub watches : (x : ℕ) → count x l ≡ count x base.watches + total_watched x d
  pub unset_close : IsUnset d.close
  pub unset_connect : IsUnset d.connect
  pub unset_receive : IsUnset d.receive
  pub unset_error : IsUnset d.error
  pub unset_connection_error : IsUnset d.connection_error
  pub same_connect : d.connect.callback ≡ d.close.callback
  pub same_error : d.error.callback ≡ d.close.callback
  pub same_connection_error : d.connection_error.callback ≡ d.close.callback

-- The loop holds what it held at `base`, and what the interface knows of.
pub record Holds (base : World) (r : Registered) : Type 0 where
  pub watching : Watches base r.watches (fds_of r.interface)
  pub timeouts :
      (x : ℕ) → count x r.timeouts ≡ count x base.timeouts + timed x r.interface.timeout_id
  pub periodics :
      (x : ℕ) → count x r.periodics ≡ count x base.periodics + timed x r.interface.periodic_id
  pub idles :
      (x : ℕ)
      → count x r.idles ≡ count x base.idles + (if x == r.interface.loop_process_id then 1 else 0)
  pub loops : r.loops ≡ base.loops
  pub nodes : r.nodes ≡ length base.requested_node
  pub no_pings : r.interface.ping_period ≡ 0 → r.interface.periodic_id ≡ minus_one
  pub no_pongs : r.interface.pong_timeout ≡ 0 → r.interface.timeout_id ≡ minus_one

abbrev pub IsHeld : World → Stream → Type 0
IsHeld base s = Holds base (registered_of s)

abbrev pub is_established : Reason → Bool
is_established (client_established a) = true
is_established r = false

-- What happens to a stream. The loop grants what it is asked for, the callbacks for the connection are
-- set once, and neither is set to NULL; a ping waits for the answer to the last.
pub data Step : Stream → Stream → Type 0 where
  lws : (r : Reason) (s : Stream) → is_established r ≡ false → Step s (lws_callback r s).1
  establishes :
      (id : ℕ) (s : Stream)
      → s.0.periodic_id ≡ minus_one
      → Step s (lws_callback (client_established (s_ok, id)) s).1
  writes :
      (bytes : Bytes) (len : ℕ) (block : Bool) (s : Stream)
      → Step s (os_websocket_write_stream bytes len block s).1
  sets_connection :
      (callback user_data a b c d : ℕ) (s : Stream)
      → callback ≢ 0
      → s.0.on_close.callback ≡ 0
      → Step s
          (os_websocket_set_connection_callback callback user_data
            (s_ok, a)
            (s_ok, b)
            (s_ok, c)
            (s_ok, d)
            s).1
  sets_receive :
      (callback user_data a : ℕ) (s : Stream)
      → callback ≢ 0
      → Step s (os_websocket_set_receive_callback callback user_data (s_ok, a) s).1
  watch_runs : (e : FdEvent) (s t : Stream) → watch_callback e true s ≡ some (1, t) → Step s t
  pings :
      (id : ℕ) (s : Stream)
      → s.0.timeout_id ≡ minus_one
      → s.0.pong_timeout ≢ 0
      → Step s (ping_periodic_callback true (s_ok, id) s).1
  times_out :
      (id : ℕ) (s : Stream)
      → s.0.timeout_id ≡ pos id
      → Step s (pong_timeout_callback (s.0, record s.1 { timeouts = remove_one id s.1.timeouts }))

pub data Reach (s : Stream) : Stream → Type 0 where
  start : Reach s s
  next : {t u : Stream} → Reach s t → Step t u → Reach s u
