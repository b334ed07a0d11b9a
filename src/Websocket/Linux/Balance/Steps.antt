-- ===== src/Websocket/Linux/Balance/Steps.antt =====
-- linux_websocket.c: what is registered while a stream lives.
use artik_sdk.Prelude.{
  ℕ, ◌≡◌, ◌∙◌, refl, inl, inr, Bool-cases, Bool, true, false, Option, none, some, ◌==◌, arith,
}
use artik_sdk.Prelude.Text.{Bytes}
use artik_sdk.ArtikList.{Node, get_by_handle}
use artik_sdk.Websocket.Linux.{
  FdEvent, fd_close, fd_connect, fd_receive, fd_error, fd_connection_error, Data, World, Stream,
  Reason, client_established, client_receive_pong, handle_reason, lws_callback,
  os_websocket_write_stream, request_loop, release_loop, write_to,
}
use artik_sdk.Websocket.Linux.Watches.{watch_callback}
use artik_sdk.Websocket.Linux.Balance.{
  registered_of, IsHeld, is_established, Step, Reach, start, next, lws, establishes, writes,
  sets_connection, sets_receive, watch_runs, pings, times_out,
}
use artik_sdk.Websocket.Linux.Balance.Timers.{
  is_plain, handle_reason-registered, loop-registered, IsHeld-registered_of, pong_at-IsHeld,
  established-IsHeld, ping-IsHeld, timeout-IsHeld,
}
use artik_sdk.Websocket.Linux.Balance.Callbacks.{
  os_websocket_set_connection_callback-registered, os_websocket_set_receive_callback-received_by,
  registered-IsHeld, received_by-IsHeld,
}
use artik_sdk.Websocket.Linux.Watches.{tell, tell_message}
use artik_sdk.Websocket.Linux.{Told}

write_to-registered :
    (n : Option (Node Bool)) (bytes : Bytes) (len : ℕ) (block : Bool) (s : Stream)
    → registered_of (write_to n bytes len block s).1 ≡ registered_of s
write_to-registered none bytes len block s = refl
write_to-registered (some n) bytes len block s = ground arith

os_websocket_write_stream-registered :
    (bytes : Bytes) (len : ℕ) (block : Bool) (s : Stream)
    → registered_of (os_websocket_write_stream bytes len block s).1 ≡ registered_of s
unfolding os_websocket_write_stream
os_websocket_write_stream-registered bytes len block s =
    write_to-registered (get_by_handle s.1.requested_node s.0.wsi) bytes len block s

tell-registered :
    (d : Data) (u : ℕ) (m : Told) (s t : Stream)
    → tell d u m s ≡ some (1, t)
    → registered_of t ≡ registered_of s
tell-registered d u m s t e = ground arith

tell_message-registered :
    (m : Option Bytes) (s t : Stream)
    → tell_message m s ≡ some (1, t)
    → registered_of t ≡ registered_of s
tell_message-registered none s t e = absurd (ground arith)
tell_message-registered (some m) s t e =
    tell-registered s.0.on_receive s.0.on_receive.user_data (Told.message m) s t e

watch_callback-registered :
    (e : FdEvent) (s t : Stream)
    → watch_callback e true s ≡ some (1, t)
    → registered_of t ≡ registered_of s
unfolding watch_callback
watch_callback-registered fd_close s t h =
    tell-registered s.0.on_close s.0.on_close.user_data Told.closed s t h
watch_callback-registered fd_connect s t h =
    tell-registered s.0.on_connect s.0.on_close.user_data Told.connected s t h
watch_callback-registered fd_receive s t h = tell_message-registered s.0.receive_message s t h
watch_callback-registered fd_error s t h =
    tell-registered s.0.on_error s.0.on_close.user_data Told.handshake_error s t h
watch_callback-registered fd_connection_error s t h =
    tell-registered s.0.on_connection_error s.0.on_close.user_data Told.connection_error s t h

module _ {base : World} where
  pong-IsHeld : (s : Stream) → IsHeld base s → IsHeld base (lws_callback client_receive_pong s).1
  unfolding lws_callback
  pong-IsHeld s h = elim (Bool-cases (s.0.pong_timeout == 0)) [
    | inl z ↦ rw z (IsHeld-registered_of s (release_loop (request_loop s)) (ground arith) h)
    | inr z ↦ rw z (pong_at-IsHeld s.0.timeout_id s refl h)
  ]

  plain-IsHeld :
      (r : Reason) (s : Stream)
      → is_plain r ≡ true
      → IsHeld base s
      → IsHeld base (lws_callback r s).1
  unfolding lws_callback
  plain-IsHeld r s e h =
      IsHeld-registered_of s (lws_callback r s).1
        (loop-registered s (handle_reason r (request_loop s)).1
          (handle_reason-registered r (request_loop s) e))
        h

  lws_callback-IsHeld :
      (r : Reason) (s : Stream)
      → is_established r ≡ false
      → IsHeld base s
      → IsHeld base (lws_callback r s).1
  lws_callback-IsHeld client_receive_pong s e h = pong-IsHeld s h
  lws_callback-IsHeld (client_established a) s e h = cc
  lws_callback-IsHeld r s e h = plain-IsHeld r s refl h

  Step-IsHeld : {s t : Stream} → Step s t → IsHeld base s → IsHeld base t
  Step-IsHeld (lws r s e) h = lws_callback-IsHeld r s e h
  Step-IsHeld (establishes id s e) h = established-IsHeld id s e h
  Step-IsHeld (writes bytes len block s) h =
      IsHeld-registered_of s (os_websocket_write_stream bytes len block s).1
        (os_websocket_write_stream-registered bytes len block s) h
  Step-IsHeld (sets_connection callback user_data a b c d s z e) h =
      rw
        (os_websocket_set_connection_callback-registered callback user_data a b c d s z e
          (h.watching.same_connect ∙ e) (h.watching.same_error ∙ e))
        (registered-IsHeld callback user_data a b c d s z e h)
  Step-IsHeld (sets_receive callback user_data a s z) h =
      rw (os_websocket_set_receive_callback-received_by callback user_data a s z)
        (received_by-IsHeld callback user_data a s z h)
  Step-IsHeld (watch_runs e s t r) h =
      IsHeld-registered_of s t (watch_callback-registered e s t r) h
  Step-IsHeld (pings id s e z) h = ping-IsHeld id s e z h
  Step-IsHeld (times_out id s e) h = timeout-IsHeld id s e h

  pub Reach-IsHeld : {s t : Stream} → Reach s t → IsHeld base s → IsHeld base t
  Reach-IsHeld start h = h
  Reach-IsHeld (next r st) h = Step-IsHeld st (Reach-IsHeld r h)
