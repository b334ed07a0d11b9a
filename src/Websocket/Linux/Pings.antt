-- ===== src/Websocket/Linux/Pings.antt =====
-- linux_websocket.c: a ping, and the answer to it.
use artik_sdk.Prelude.{ℕ, ◌≡◌, ◌≢◌, refl, true, false, List, [], ◌∷◌, ◌++◌, ◌==◌, arith}
use artik_sdk.Prelude.Counting.{remove_one}
use artik_sdk.Error.{s_ok}
use artik_sdk.Websocket.Linux.{
  fd_connection_error, ping, Stream, client_receive_pong, lws_callback, minus_one,
}
use artik_sdk.Websocket.Linux.Watches.{ping_periodic_callback, pong_timeout_callback, pingbuf}

pub ==-zero-ne : (a : ℕ) → a ≢ 0 → (a == 0) ≡ false
==-zero-ne a h = ground arith

remove_one_head : (x : ℕ) (l : List ℕ) → remove_one x (x ∷ l) ≡ l
unfolding remove_one
remove_one_head x l = ground arith

abbrev ping_then_pong : ℕ → Stream → Stream
ping_then_pong id s =
    (lws_callback client_receive_pong (ping_periodic_callback true (s_ok, id) s).1).1

-- With `pong_timeout` set, a ping whose timeout the loop grants and the pong that follows leave the
-- timeouts and the references to the loop as they were and no timeout in the container, and one ping is
-- sent.
pub pong-ping :
    (id : ℕ) (s : Stream)
    → s.0.pong_timeout ≢ 0
    → let t = ping_then_pong id s in
      (t.1.timeouts ≡ s.1.timeouts)
      × (t.0.timeout_id ≡ minus_one)
      × (t.1.frames ≡ s.1.frames ++ ping pingbuf ∷ [])
      × (t.1.loops ≡ s.1.loops)
unfolding lws_callback ping_periodic_callback
pong-ping id s h =
    rw (==-zero-ne s.0.pong_timeout h) (remove_one_head id s.1.timeouts, refl, refl, omega arith)

-- With `pong_timeout` 0, the timeout of a ping is still in the loop after the pong, and when it runs it
-- raises a connection error.
pub pong-ping-zero :
    (id : ℕ) (s : Stream)
    → s.0.pong_timeout ≡ 0
    → let t = ping_then_pong id s in
      (t.1.timeouts ≡ id ∷ s.1.timeouts)
      × ((pong_timeout_callback t).1.raised ≡ s.1.raised ++ fd_connection_error ∷ [])
unfolding lws_callback ping_periodic_callback pong_timeout_callback
pong-ping-zero id s h = rw h (refl, refl)
