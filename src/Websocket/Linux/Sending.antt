-- ===== src/Websocket/Linux/Sending.antt =====
-- linux_websocket.c: the messages that are sent.
pub mod Line
pub mod Order
pub mod Delivery
use mathlib.Core.List.Sublist
use artik_sdk.Prelude.{ℕ, Bool, Option, none, some, List, [], ◌∷◌, ◌++◌, take, if◌then◌else◌}
use artik_sdk.Prelude.Text.{Bytes}
use artik_sdk.Error.{is_ok}
use artik_sdk.Websocket.Linux.{
  FdEvent, Frame, text, ping, Stream, Added, Reason, lws_callback, os_websocket_write_stream,
}
use artik_sdk.Websocket.Linux.Watches.{
  os_websocket_set_connection_callback, os_websocket_set_receive_callback, watch_callback,
  ping_periodic_callback, pong_timeout_callback,
}

-- A call, with what is answered on the way.
pub data Event : Type 0 where
  writes : Bytes → ℕ → Bool → Event
  lws : Reason → Event
  sets_connection : ℕ → ℕ → Added → Added → Added → Added → Event
  sets_receive : ℕ → ℕ → Added → Event
  watch_runs : FdEvent → Bool → Event
  pings : Bool → Added → Event
  times_out : Event

-- A call of NULL leaves the stream as it is.
abbrev pub reached : Option (ℕ × Stream) → Stream → Stream
reached none s = s
reached (some (n, t)) s = t

unfoldable pub step : Event → Stream → Stream
unfolding os_websocket_write_stream lws_callback os_websocket_set_connection_callback
    os_websocket_set_receive_callback watch_callback ping_periodic_callback pong_timeout_callback
step (writes bytes len block) s = (os_websocket_write_stream bytes len block s).1
step (lws r) s = (lws_callback r s).1
step (sets_connection callback user_data a b c d) s =
    (os_websocket_set_connection_callback callback user_data a b c d s).1
step (sets_receive callback user_data a) s =
    (os_websocket_set_receive_callback callback user_data a s).1
step (watch_runs e ok) s = reached (watch_callback e ok s) s
step (pings block a) s = (ping_periodic_callback block a s).1
step times_out s = pong_timeout_callback s

unfoldable pub run : List Event → Stream → Stream
unfolding step
run [] s = s
run (e ∷ es) s = run es (step e s)

-- The message that a call of `os_websocket_write_stream` takes, if it takes it.
abbrev pub taken : Event → Stream → List Bytes
taken (writes bytes len block) s =
    if is_ok (os_websocket_write_stream bytes len block s).0 then take len bytes ∷ [] else []
taken e s = []

-- The messages that are taken in a run, in their order.
unfoldable pub all_taken : List Event → Stream → List Bytes
unfolding step os_websocket_write_stream is_ok
all_taken [] s = []
all_taken (e ∷ es) s = taken e s ++ all_taken es (step e s)

abbrev pub texts : List Frame → List Bytes
texts [] = []
texts (text m ∷ l) = m ∷ texts l
texts (ping m ∷ l) = texts l

abbrev pub to_list : Option Bytes → List Bytes
to_list none = []
to_list (some m) = m ∷ []

-- What is sent, and the message that waits.
pub record Sendings : Type 0 where
  pub waits : Option Bytes
  pub frames : List Frame

abbrev pub line : Stream → Sendings
line (i, w) = record { waits = i.send_message; frames = w.frames }

abbrev pub on_line : Sendings → List Bytes
on_line l = texts l.frames ++ to_list l.waits
