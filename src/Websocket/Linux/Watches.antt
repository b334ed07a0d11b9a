-- ===== src/Websocket/Linux/Watches.antt =====
-- linux_websocket.c: the callbacks of the application, what the loop calls when an eventfd is written
-- to, and the timers of the pings.
use artik_sdk.Prelude.{ℕ, Bool, Option, none, some, [], ◌∷◌, ◌++◌, ◌==◌, if◌then◌else◌}
use artik_sdk.Prelude.Int.{pos}
use artik_sdk.Prelude.Counting.{remove_one}
use artik_sdk.Prelude.Text.{Bytes}
use artik_sdk.Error.{ArtikError, s_ok, is_ok}
use artik_sdk.Websocket.Linux.{
  FdEvent, fd_close, fd_connect, fd_receive, fd_error, fd_connection_error, Data, Interface, Told,
  closed, connected, handshake_error, connection_error, message, Stream, Added, request_loop,
  release_loop, raise, send, ping, minus_one,
}

-- `loop->remove_fd_watch`
abbrev pub remove_fd_watch : ℕ → Stream → Stream
remove_fd_watch id (i, w) = (i, record w { watches = remove_one id w.watches })

-- The test `if (data[...].callback)` and the removal behind it.
abbrev pub remove_old : Data → Stream → Stream
remove_old d s = if d.callback == 0 then s else remove_fd_watch d.watch_id s

-- `callback` and `user_data` in an element of `data`.
abbrev pub set_data : ℕ → ℕ → Data → Data
set_data callback user_data d = record d { callback = callback; user_data = user_data }

-- `loop->add_fd_watch` with the identifier stored by `put`; what follows is done if it succeeds.
abbrev pub add_fd_watch :
    (ℕ → Interface → Interface)
    → Added
    → (Stream → ArtikError × Stream)
    → Stream
    → ArtikError × Stream
add_fd_watch put (e, id) follow (i, w) =
    if is_ok e then follow (put id i, record w { watches = id ∷ w.watches }) else (e, (i, w))

abbrev pub watch_close : ℕ → Interface → Interface
watch_close id i = record i { on_close = record i.on_close { watch_id = id } }

abbrev pub watch_connect : ℕ → Interface → Interface
watch_connect id i = record i { on_connect = record i.on_connect { watch_id = id } }

abbrev pub watch_receive : ℕ → Interface → Interface
watch_receive id i = record i { on_receive = record i.on_receive { watch_id = id } }

abbrev pub watch_error : ℕ → Interface → Interface
watch_error id i = record i { on_error = record i.on_error { watch_id = id } }

abbrev pub watch_connection_error : ℕ → Interface → Interface
watch_connection_error id i = record i {
  on_connection_error = record i.on_connection_error { watch_id = id };
}

abbrev pub leave : ArtikError × Stream → ArtikError × Stream
leave (e, s) = (e, release_loop s)

abbrev pub remove_all_old : Stream → Stream
remove_all_old (i, w) =
    remove_old i.on_error (remove_old i.on_connect (remove_old i.on_close (i, w)))

abbrev pub set_all_data : ℕ → ℕ → Stream → Stream
set_all_data callback user_data (i, w) = (
  record i {
    on_close = set_data callback user_data i.on_close;
    on_connect = set_data callback user_data i.on_connect;
    on_error = set_data callback user_data i.on_error;
    on_connection_error = set_data callback user_data i.on_connection_error;
  },
  w,
)

abbrev pub add_all : Added → Added → Added → Added → Stream → ArtikError × Stream
add_all a b c d = add_fd_watch watch_close a (
    add_fd_watch watch_connect b
      (add_fd_watch watch_error c (add_fd_watch watch_connection_error d (λ s. (s_ok, s)))))

-- The answers are those for the four watches, in their order.
unfoldable pub os_websocket_set_connection_callback :
    ℕ → ℕ → Added → Added → Added → Added → Stream → ArtikError × Stream
unfolding is_ok remove_one
os_websocket_set_connection_callback callback user_data a b c d s =
    let set = set_all_data callback user_data (remove_all_old (request_loop s)) in
    if callback == 0 then (s_ok, set) else leave (add_all a b c d set)

abbrev pub set_receive : ℕ → ℕ → Stream → Stream
set_receive callback user_data (i, w) =
    (record i { on_receive = set_data callback user_data i.on_receive }, w)

abbrev pub remove_old_receive : Stream → Stream
remove_old_receive (i, w) = remove_old i.on_receive (i, w)

unfoldable pub os_websocket_set_receive_callback : ℕ → ℕ → Added → Stream → ArtikError × Stream
unfolding is_ok remove_one
os_websocket_set_receive_callback callback user_data a s =
    let set = set_receive callback user_data (remove_old_receive (request_loop s)) in
    if callback == 0 then (s_ok, set) else leave (add_fd_watch watch_receive a (λ s. (s_ok, s)) set)

-- A call of the callback in `d` with the user data `u`; `none` is a call of NULL.
abbrev pub tell : Data → ℕ → Told → Stream → Option (ℕ × Stream)
tell d u t (i, w) =
    if d.callback == 0
    then none
    else some (
      1,
      (
        i,
        record w {
          calls = w.calls ++ (record { callback = d.callback; user_data = u; told = t }) ∷ [];
        },
      ),
    )

-- What the loop calls. `ok` is whether the eventfd can be read; the result is whether the watch stays.
-- The user data is that of the first element, `data->user_data`.
unfoldable pub os_websocket_close_callback : Bool → Stream → Option (ℕ × Stream)
os_websocket_close_callback ok (i, w) =
    if ok then tell i.on_close i.on_close.user_data closed (i, w) else some (0, (i, w))

unfoldable pub os_websocket_connection_callback : Bool → Stream → Option (ℕ × Stream)
os_websocket_connection_callback ok (i, w) =
    if ok then tell i.on_connect i.on_close.user_data connected (i, w) else some (0, (i, w))

unfoldable pub os_websocket_error_callback : Bool → Stream → Option (ℕ × Stream)
os_websocket_error_callback ok (i, w) =
    if ok then tell i.on_error i.on_close.user_data handshake_error (i, w) else some (0, (i, w))

unfoldable pub os_websocket_connection_error_callback : Bool → Stream → Option (ℕ × Stream)
os_websocket_connection_error_callback ok (i, w) =
    if ok
    then tell i.on_connection_error i.on_close.user_data connection_error (i, w)
    else some (0, (i, w))

abbrev pub tell_message : Option Bytes → Stream → Option (ℕ × Stream)
tell_message none s = some (0, s)
tell_message (some m) (i, w) = tell i.on_receive i.on_receive.user_data (message m) (i, w)

unfoldable pub os_websocket_receive_callback : Bool → Stream → Option (ℕ × Stream)
os_websocket_receive_callback ok (i, w) =
    if ok then tell_message i.receive_message (i, w) else some (0, (i, w))

-- The function that the watch of an eventfd calls.
unfoldable pub watch_callback : FdEvent → Bool → Stream → Option (ℕ × Stream)
unfolding os_websocket_close_callback os_websocket_connection_callback os_websocket_receive_callback
    os_websocket_error_callback os_websocket_connection_error_callback
watch_callback fd_close = os_websocket_close_callback
watch_callback fd_connect = os_websocket_connection_callback
watch_callback fd_receive = os_websocket_receive_callback
watch_callback fd_error = os_websocket_error_callback
watch_callback fd_connection_error = os_websocket_connection_error_callback

-- `pingbuf`
abbrev pub pingbuf : Bytes
pingbuf = 0x81 ∷ 0x85 ∷ 0x37 ∷ 0xFA ∷ 0x21 ∷ 0x3d ∷ 0x7F ∷ 0x9F ∷ 0x4D ∷ 0x51 ∷ 0x58 ∷ []

abbrev pub wait_pong : Added → Stream → ℕ × Stream
wait_pong (e, id) (i, w) =
    if is_ok e
    then (
      1,
      release_loop (record i { timeout_id = pos id }, record w { timeouts = id ∷ w.timeouts }),
    )
    else (0, (i, w))

abbrev pub sent_ping : Stream → Stream
sent_ping (i, w) = (i, send (ping pingbuf) w)

-- `block` is whether memory suffices, and the answer is that for the timeout. The result is whether
-- the timer stays.
unfoldable pub ping_periodic_callback : Bool → Added → Stream → ℕ × Stream
unfolding is_ok
ping_periodic_callback block a s =
    if block then wait_pong a (sent_ping (request_loop s)) else (0, request_loop s)

abbrev forget_timeout : Stream → Stream
forget_timeout (i, w) = (record i { timeout_id = minus_one }, w)

unfoldable pub pong_timeout_callback : Stream → Stream
pong_timeout_callback s = forget_timeout (raise fd_connection_error s)
