-- ===== src/Websocket/Linux/Tests.antt =====
-- linux_websocket.c: a stream that pings every 30 ms, in a loop with a watch 5 of another module.
use mathlib.Core.List.{Sublist}
use artik_sdk.Prelude.{
  ◌+◌, ◌==◌, if◌then◌else◌, ℕ, ◌≡◌, refl, Bool, true, false, none, some, List, [], ◌∷◌, ◌++◌, arith,
}
use artik_sdk.Prelude.Text.{Bytes}
use artik_sdk.Prelude.Counting.{count}
use artik_sdk.Error.{s_ok, e_websocket_error}
use artik_sdk.ArtikList.{Node, get_by_handle, find_first, add}
use artik_sdk.Websocket.{Config}
use artik_sdk.Websocket.Linux.{
  World, Stream, fd_connection_error, Frame, text, client_established, client_receive_pong,
  client_writeable, client_receive, wsi_destroy, c_string, os_websocket_write_stream, lws_callback,
  minus_one,
}
use artik_sdk.Websocket.Linux.Watches.{
  os_websocket_set_connection_callback, watch_callback, ping_periodic_callback, pingbuf,
}
use artik_sdk.Websocket.Linux.Opening.{
  System, os_websocket_open_stream, os_websocket_close_stream, sizeof_node,
}
use artik_sdk.Websocket.Linux.Balance.{watched, Reach, Step, start, next, IsHeld}
use artik_sdk.Websocket.Linux.Balance.Closing.{
  granted, opened, opened_system, left_behind, opened-IsHeld,
}
use artik_sdk.Websocket.Linux.Balance.Steps.{Reach-IsHeld}
use artik_sdk.Websocket.Linux.Sending.{Event, run, all_taken, line, on_line}
use artik_sdk.Websocket.Linux.Sending.Order.{run-sublist}
use artik_sdk.Websocket.Linux.Sending.Delivery.{in_turn, run-in_turn}
use artik_sdk.Websocket.Linux.Pings.{pong-ping}
use artik_sdk.Websocket.Linux.Reopening.{os_websocket_write_stream_reopened}
use artik_sdk.Websocket.Linux.Leaks.{os_websocket_set_connection_callback_null}

abbrev config : Config
config = record { uri = none; rest = 0; private_data = 0; ping_period = 30; pong_timeout = 10 }

abbrev quiet_world : World
quiet_world = record {
  requested_node = [];
  loops = 1;
  watches = 5 ∷ [];
  timeouts = [];
  periodics = [];
  idles = [];
  buffers = 0;
  wanted = [];
  raised = [];
  frames = [];
  calls = [];
}

abbrev quiet : System
quiet = record { world = quiet_world; utils = 0; interfaces = 0; contexts = 0; ssls = 0; fds = 0 }

abbrev fresh : Stream
fresh = (opened config 6 64, (opened_system 6 64 160 quiet).world)

abbrev with_callbacks : Stream
with_callbacks =
    (os_websocket_set_connection_callback 7 8 (s_ok, 11) (s_ok, 12) (s_ok, 13) (s_ok, 14) fresh).1

abbrev established_stream : Stream
established_stream = (lws_callback (client_established (s_ok, 21)) with_callbacks).1

abbrev hello : Bytes
hello = 104 ∷ 105 ∷ []

answered_calls : Reach fresh established_stream
unfolding os_websocket_set_connection_callback
answered_calls =
    next (next start (Step.sets_connection 7 8 11 12 13 14 fresh (λ e. absurd (omega arith)) refl))
      (Step.establishes 21 with_callbacks refl)

write_then_ping :
    (run
      (Event.writes hello 2 true
        ∷ Event.pings true (s_ok, 31)
        ∷ Event.lws client_writeable
        ∷ Event.lws client_receive_pong
        ∷ [])
      fresh).1.frames
    ≡ Frame.ping pingbuf ∷ text hello ∷ []
unfolding run get_by_handle find_first add
write_then_ping = refl

message_received :
    (lws_callback (client_receive (104 ∷ 0 ∷ 105 ∷ []) true) fresh).1.0.receive_message
    ≡ some (104 ∷ [])
unfolding lws_callback c_string
message_received = refl

abbrev calls : List Event
calls = Event.writes hello 2 true ∷ Event.writes pingbuf 11 true ∷ Event.lws client_writeable ∷ []

run-sublist_example :
    Sublist (on_line (line (run calls fresh))) (on_line (line fresh) ++ all_taken calls fresh)
run-sublist_example = run-sublist calls fresh

abbrev messages : List Bytes
messages = hello ∷ pingbuf ∷ []

abbrev connected_node : Node Bool
connected_node = record {
  addr = 160;
  handle = 64;
  size_data = sizeof_node;
  clear = false;
  copy = none;
  payload = false;
}

run-in_turn_example :
    let t = run (in_turn messages) fresh in
    (t.1.frames ≡ text hello ∷ text pingbuf ∷ []) × (t.0.send_message ≡ none) × (t.1.buffers ≡ 0)
unfolding get_by_handle find_first add
run-in_turn_example = run-in_turn messages connected_node fresh (refl, refl) refl

os_websocket_write_stream_reopened_example :
    let o = os_websocket_open_stream config none (granted 6 64 160) quiet in
    let t = (lws_callback wsi_destroy (opened config 6 64, o.2.world)).1 in
    let c = os_websocket_close_stream (some t.0) (record o.2 { world = t.1 }) in
    let o' = os_websocket_open_stream config c.1 (granted 9 64 320) c.2 in
    (o'.0 ≡ s_ok)
    × ((bytes : Bytes) (len : ℕ) (block : Bool)
        → (os_websocket_write_stream bytes len block (opened config 9 64, o'.2.world)).0
          ≡ e_websocket_error)
os_websocket_write_stream_reopened_example =
    os_websocket_write_stream_reopened config none 6 64 160 9 320 quiet (omega arith)
      (λ e. absurd (omega arith)) tt tt

pong-ping_example :
    let t = (lws_callback client_receive_pong (ping_periodic_callback true (s_ok, 31) fresh).1).1 in
    (t.1.timeouts ≡ fresh.1.timeouts)
    × (t.0.timeout_id ≡ minus_one)
    × (t.1.frames ≡ fresh.1.frames ++ Frame.ping pingbuf ∷ [])
    × (t.1.loops ≡ fresh.1.loops)
pong-ping_example = pong-ping 31 fresh (λ e. absurd (omega arith))

registered_once : IsHeld (left_behind 64 160 quiet.world) established_stream
registered_once = Reach-IsHeld answered_calls (opened-IsHeld config 6 64 160 quiet)

os_websocket_set_connection_callback_null_example :
    let t =
      (os_websocket_set_connection_callback 0 8
        (s_ok, 0)
        (s_ok, 0)
        (s_ok, 0)
        (s_ok, 0)
        established_stream).1 in
    ((x : ℕ)
      → count x t.1.watches
        ≡ count x (left_behind 64 160 quiet.world).watches
          + watched x established_stream.0.on_receive
          + (if x == established_stream.0.on_connection_error.watch_id then 1 else 0))
    × (watch_callback fd_connection_error true t ≡ none)
    × (t.1.loops ≡ (left_behind 64 160 quiet.world).loops + 1)
unfolding os_websocket_set_connection_callback lws_callback
os_websocket_set_connection_callback_null_example =
    os_websocket_set_connection_callback_null 8 (s_ok, 0) (s_ok, 0) (s_ok, 0) (s_ok, 0)
      (left_behind 64 160 quiet.world) established_stream registered_once
      (λ e. absurd (omega arith))
