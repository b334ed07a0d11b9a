-- ===== src/Websocket/Linux/Leaks.antt =====
-- linux_websocket.c: what is left over where a call is repeated or fails.
use artik_sdk.Prelude.{
  Option, ℕ, ◌+◌, ◌≤◌, ◌≡◌, ◌≢◌, refl, sym, ap, ◌∙◌, Bool, true, false, none, some, List, [], ◌∷◌,
  ◌++◌, ◌==◌, take-all, length, if◌then◌else◌, arith,
}
use artik_sdk.Prelude.Counting.{count, remove_one, count-remove_one}
use artik_sdk.Prelude.Text.{Bytes}
use artik_sdk.Error.{s_ok, e_websocket_error}
use artik_sdk.ArtikList.{Node, get_by_handle}
use artik_sdk.Websocket.{Config}
use artik_sdk.Websocket.Linux.{
  fd_connection_error, Data, Interface, text, World, Stream, Added, client_writeable, lws_callback,
  os_websocket_write_stream,
}
use artik_sdk.Websocket.Linux.Watches.{os_websocket_set_connection_callback, watch_callback}
use artik_sdk.Websocket.Linux.Opening.{System, Answers, os_websocket_open_stream}
use artik_sdk.Websocket.Linux.Balance.{watched, IsHeld, total_watched, fds_of}
use artik_sdk.Websocket.Linux.Balance.Closing.{granted, ltb-le}
use artik_sdk.Websocket.Linux.Pings.{==-zero-ne}

-- A message that is taken while `m` waits takes its place: where the stream is then writeable, only the
-- new one is sent, none waits any more, and as many buffers are allocated as while `m` waited.
pub os_websocket_write_stream_overwrites :
    (m bytes : Bytes) (n : Node Bool) (s : Stream)
    → s.0.send_message ≡ some m
    → get_by_handle s.1.requested_node s.0.wsi ≡ some n
    → n.payload ≡ false
    → let r = os_websocket_write_stream bytes (length bytes) true s in
      let t = (lws_callback client_writeable r.1).1 in
      (r.0 ≡ s_ok)
      × (t.1.frames ≡ s.1.frames ++ text bytes ∷ [])
      × (t.0.send_message ≡ none)
      × (t.1.buffers ≡ s.1.buffers)
unfolding os_websocket_write_stream lws_callback
os_websocket_write_stream_overwrites m bytes n s e g p =
    rw (g, p, take-all (length bytes) bytes (omega arith)) (refl, refl, refl, omega arith)

-- The connection is refused, and all that is asked for before is granted.
abbrev pub refused : ℕ → Answers
refused id = record (granted id 0 0) { wsi = none }

-- Where libwebsockets refuses the connection and all before it succeeds, the call fails with
-- `E_WEBSOCKET_ERROR`: the interface is freed, and the idle callback that is given it stays in the loop,
-- with one more context, one more context of OpenSSL, and one more block of eventfds.
pub os_websocket_open_stream-refused :
    (config : Config) (old : Option Interface) (id : ℕ) (s : System)
    → config.pong_timeout ≤ config.ping_period
    → let o = os_websocket_open_stream config old (refused id) s in
      (o.0 ≡ e_websocket_error)
      × (o.1 ≡ none)
      × (o.2.world.idles ≡ id ∷ s.world.idles)
      × (o.2.interfaces ≡ s.interfaces)
      × (o.2.contexts ≡ s.contexts + 1)
      × (o.2.ssls ≡ s.ssls + 1)
      × (o.2.fds ≡ s.fds + 1)
unfolding os_websocket_open_stream
os_websocket_open_stream-refused config old id s h =
    rw (ltb-le config.pong_timeout config.ping_period h)
      (refl, refl, refl, omega arith, refl, refl, refl)

-- The callbacks for the connection are all set.
abbrev AllSet : Interface → Type 0
AllSet i = (i.on_close.callback ≢ 0) × (i.on_connect.callback ≢ 0) × (i.on_error.callback ≢ 0)

abbrev three_removed : Interface → List ℕ → List ℕ
three_removed i l =
    remove_one i.on_error.watch_id
      (remove_one i.on_connect.watch_id (remove_one i.on_close.watch_id l))

os_websocket_set_connection_callback_removes :
    (user_data : ℕ) (a b c d : Added) (s : Stream)
    → AllSet s.0
    → let t = (os_websocket_set_connection_callback 0 user_data a b c d s).1 in
      (t.1.watches ≡ three_removed s.0 s.1.watches)
      × (t.0.on_connection_error.callback ≡ 0)
      × (t.1.loops ≡ s.1.loops + 1)
unfolding os_websocket_set_connection_callback
os_websocket_set_connection_callback_removes user_data a b c d s h =
    rw
      (
        ==-zero-ne s.0.on_close.callback h.0,
        ==-zero-ne s.0.on_connect.callback h.1,
        ==-zero-ne s.0.on_error.callback h.2,
      )
      (refl, refl, refl)

watched_set : (x : ℕ) (d : Data) → d.callback ≢ 0 → watched x d ≡ (if x == d.watch_id then 1 else 0)
watched_set x d z = rw (==-zero-ne d.callback z) refl

count-three_removed :
    (x : ℕ) (i : Interface) (l m : List ℕ)
    → AllSet i
    → i.on_connection_error.callback ≢ 0
    → count x l ≡ count x m + total_watched x (fds_of i)
    → count x (three_removed i l)
      ≡ count x m + watched x i.on_receive + (if x == i.on_connection_error.watch_id then 1 else 0)
count-three_removed x i l m h z e =
    let l1 = remove_one i.on_close.watch_id l in
    let l2 = remove_one i.on_connect.watch_id l1 in
    omega (
      arith,
      e,
      watched_set x i.on_close h.0,
      watched_set x i.on_connect h.1,
      watched_set x i.on_error h.2,
      watched_set x i.on_connection_error z,
      count-remove_one x i.on_close.watch_id l,
      count-remove_one x i.on_connect.watch_id l1,
      count-remove_one x i.on_error.watch_id l2,
    )

-- For a stream whose registrations with the loop are held over `base` and whose callback for the close
-- is set: setting the callbacks for the connection to NULL leaves in the loop, beside what `base` has,
-- the watch of the receipts, if there is one, and that of the connection errors; run, that watch calls
-- NULL; and one reference to the loop module is held more than at `base`.
pub os_websocket_set_connection_callback_null :
    (user_data : ℕ) (a b c d : Added) (base : World) (s : Stream)
    → IsHeld base s
    → s.0.on_close.callback ≢ 0
    → let t = (os_websocket_set_connection_callback 0 user_data a b c d s).1 in
      ((x : ℕ)
        → count x t.1.watches
          ≡ count x base.watches
            + watched x s.0.on_receive
            + (if x == s.0.on_connection_error.watch_id then 1 else 0))
      × (watch_callback fd_connection_error true t ≡ none)
      × (t.1.loops ≡ base.loops + 1)
unfolding watch_callback
os_websocket_set_connection_callback_null user_data a b c d base s h z =
    let r =
      os_websocket_set_connection_callback_removes user_data a b c d s
        (z, λ e. z (sym h.watching.same_connect ∙ e), λ e. z (sym h.watching.same_error ∙ e)) in
    (
      λ x. rw r.0 (
          count-three_removed x s.0 s.1.watches base.watches
            (z, λ e. z (sym h.watching.same_connect ∙ e), λ e. z (sym h.watching.same_error ∙ e))
            (λ e. z (sym h.watching.same_connection_error ∙ e)) (h.watching.watches x)),
      rw r.1 refl,
      r.2 ∙ ap (λ n. n + 1) h.loops,
    )
