-- ===== src/Websocket/Linux.antt =====
-- src/modules/connectivity/websocket/linux_websocket.c: the state of a stream, the callback that
-- libwebsockets calls, and sending. libwebsockets, the eventfds and the loop module are outside: what
-- they answer are arguments, and what they are told is recorded in the world.
pub mod Watches
pub mod Opening
pub mod Sending
pub mod Balance
pub mod Pings
pub mod Reopening
pub mod Leaks
mod Tests
use artik_sdk.Prelude.{
  ℕ, ◌+◌, ◌-◌, Bool, true, false, Option, none, some, List, [], ◌∷◌, ◌++◌, ◌==◌, take,
  if◌then◌else◌,
}
use artik_sdk.Prelude.Int.{ℤ, pos, negsuc}
use artik_sdk.Prelude.Counting.{remove_one}
use artik_sdk.Prelude.Text.{Bytes}
use artik_sdk.Error.{ArtikError, s_ok, e_no_mem, e_websocket_error, is_ok}
use artik_sdk.ArtikList.{ArtikList, Node, get_by_handle}
use artik_sdk.ArtikList.Store.{store}

pub data FdEvent : Type 0 where
  fd_close fd_connect fd_receive fd_error fd_connection_error : FdEvent

-- `os_websocket_data`, whose callback is 0 for NULL.
pub record Data : Type 0 where
  pub watch_id : ℕ
  pub callback : ℕ
  pub user_data : ℕ

-- `os_websocket_interface` with its container; the element of `data` at each event is a field. A message
-- to send is the bytes behind the padding of its buffer.
pub record Interface : Type 0 where
  pub wsi : ℕ
  pub loop_process_id : ℕ
  pub send_message : Option Bytes
  pub receive_message : Option Bytes
  pub timeout_id : ℤ
  pub periodic_id : ℤ
  pub ping_period : ℕ
  pub pong_timeout : ℕ
  pub on_close : Data
  pub on_connect : Data
  pub on_receive : Data
  pub on_error : Data
  pub on_connection_error : Data

-- What `lws_write` is given.
pub data Frame : Type 0 where
  text ping : Bytes → Frame

-- What the callbacks of the application are given: a connection state, or a message.
pub data Told : Type 0 where
  closed connected handshake_error connection_error : Told
  message : Bytes → Told

pub record Call : Type 0 where
  pub callback : ℕ
  pub user_data : ℕ
  pub told : Told

-- `requested_node` holds a copy of each interface, of which only `error_connect` is read. Then the
-- references to the loop module, what is registered with it, the buffers of messages to send, the
-- streams that ask to be told when they are writeable, the eventfds that were written to, and what was
-- sent and told.
pub record World : Type 0 where
  pub requested_node : ArtikList Bool
  pub loops : ℕ
  pub watches : List ℕ
  pub timeouts : List ℕ
  pub periodics : List ℕ
  pub idles : List ℕ
  pub buffers : ℕ
  pub wanted : List ℕ
  pub raised : List FdEvent
  pub frames : List Frame
  pub calls : List Call

abbrev pub Stream : Type 0
Stream = Interface × World

-- What the loop module answers: its error, and the identifier that it stores.
abbrev pub Added : Type 0
Added = ArtikError × ℕ

abbrev pub request_loop : Stream → Stream
request_loop (i, w) = (i, record w { loops = w.loops + 1 })

abbrev pub release_loop : Stream → Stream
release_loop (i, w) = (i, record w { loops = w.loops - 1 })

-- A write of `FLAG_EVENT` to an eventfd.
abbrev pub raise : FdEvent → Stream → Stream
raise e (i, w) = (i, record w { raised = w.raised ++ e ∷ [] })

-- `lws_write`
abbrev pub send : Frame → World → World
send f w = record w { frames = w.frames ++ f ∷ [] }

-- The bytes before the first zero: `strndup(in, strlen(in) + 1)`.
unfoldable pub c_string : Bytes → Bytes
c_string [] = []
c_string (b ∷ rest) = if b == 0 then [] else b ∷ c_string rest

-- `enum lws_callback_reasons`, with the bytes that `in` points to and what is answered on the way: by
-- the loop module, and whether memory suffices. The reasons that are only logged are one.
pub data Reason : Type 0 where
  client_established : Added → Reason
  client_writeable : Reason
  client_receive : Bytes → Bool → Reason
  client_connection_error : Reason
  lws_closed : Reason
  wsi_destroy : Reason
  client_receive_pong : Reason
  logged : ℕ → Reason

abbrev pub minus_one : ℤ
minus_one = negsuc 0

-- `loop->remove_timeout_callback` and `loop->remove_periodic_callback` behind the test `id != -1`, on
-- the list of such timers; no other negative number is stored.
abbrev pub removed : ℤ → List ℕ → List ℕ
removed (negsuc n) l = l
removed (pos id) l = remove_one id l

abbrev start_pings : Added → Stream → ℤ × Stream
start_pings (e, id) (i, w) =
    if is_ok e
    then (pos 0, (record i { periodic_id = pos id }, record w { periodics = id ∷ w.periodics }))
    else (minus_one, (i, w))

abbrev pub established : Added → Stream → ℤ × Stream
established a (i, w) = if i.ping_period == 0 then (pos 0, (i, w)) else start_pings a (i, w)

abbrev writeable : Option Bytes → Stream → Stream
writeable none s = s
writeable (some m) (i, w) =
    (record i { send_message = none }, record (send (text m) w) { buffers = w.buffers - 1 })

abbrev received : Bytes → Bool → Stream → Stream
received in_ false s = s
received in_ true (i, w) = raise fd_receive (record i { receive_message = some (c_string in_) }, w)

abbrev destroyed : Option (Node Bool) → Stream → ℤ × Stream
destroyed none s = (minus_one, s)
destroyed (some n) (i, w) = (
  pos 0,
  raise fd_close (
    i,
    record w { requested_node = store n.addr (λ m. record m { payload = true }) w.requested_node },
  ),
)

abbrev pub pong_at : ℤ → Stream → Stream
pong_at (negsuc n) s = s
pong_at (pos id) (i, w) =
    (record i { timeout_id = minus_one }, record w { timeouts = removed (pos id) w.timeouts })

abbrev pub pong : Stream → Stream
pong (i, w) = if i.pong_timeout == 0 then (i, w) else pong_at i.timeout_id (i, w)

-- The cases of the `switch`.
unfoldable pub handle_reason : Reason → Stream → ℤ × Stream
unfolding is_ok c_string get_by_handle remove_one
handle_reason (client_established a) s = established a (raise fd_connect s)
handle_reason client_writeable (i, w) = (pos 0, writeable i.send_message (i, w))
handle_reason (client_receive in_ mem) s = (pos 0, received in_ mem s)
handle_reason client_connection_error s = (pos 0, raise fd_connection_error s)
handle_reason lws_closed s = (pos 0, raise fd_close s)
handle_reason wsi_destroy (i, w) = destroyed (get_by_handle w.requested_node i.wsi) (i, w)
handle_reason client_receive_pong s = (pos 0, pong s)
handle_reason (logged reason) s = (pos 0, s)

abbrev releasing : ℤ × Stream → ℤ × Stream
releasing (r, s) = (r, release_loop s)

-- The stream is the one whose container the protocol of `wsi` carries.
unfoldable pub lws_callback : Reason → Stream → ℤ × Stream
unfolding handle_reason
lws_callback reason s = releasing (handle_reason reason (request_loop s))

-- From `malloc` on.
abbrev pub put_message : Bool → Bytes → ℕ → Stream → ArtikError × Stream
put_message false bytes len s = (e_no_mem, s)
put_message true bytes len (i, w) = (
  s_ok,
  (
    record i { send_message = some (take len bytes) },
    record w { buffers = w.buffers + 1; wanted = i.wsi ∷ w.wanted },
  ),
)

abbrev pub write_to : Option (Node Bool) → Bytes → ℕ → Bool → Stream → ArtikError × Stream
write_to none bytes len block s = (e_websocket_error, s)
write_to (some n) bytes len block s =
    if n.payload then (e_websocket_error, s) else put_message block bytes len s

-- `block` is whether memory suffices for the buffer.
unfoldable pub os_websocket_write_stream : Bytes → ℕ → Bool → Stream → ArtikError × Stream
unfolding get_by_handle
os_websocket_write_stream bytes len block (i, w) =
    write_to (get_by_handle w.requested_node i.wsi) bytes len block (i, w)
