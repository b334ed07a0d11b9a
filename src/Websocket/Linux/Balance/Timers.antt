-- ===== src/Websocket/Linux/Balance/Timers.antt =====
-- linux_websocket.c: what is registered, where libwebsockets or a timer calls.
use artik_sdk.ArtikList.Store.{store}
use artik_sdk.Prelude.{
  [], ◌∷◌, ap, length, ℕ, ◌≡◌, ◌≢◌, refl, inl, inr, Bool-cases, sym, subst, Bool, true, false,
  Option, none, some, ◌==◌, arith,
}
use artik_sdk.Prelude.Int.{ℤ, pos, negsuc}
use artik_sdk.Prelude.Counting.{remove_one, count-remove_one}
use artik_sdk.Prelude.Text.{Bytes}
use artik_sdk.Error.{s_ok}
use artik_sdk.ArtikList.{ArtikList, Node, get_by_handle}
use artik_sdk.Websocket.Linux.{
  fd_connect, World, Stream, raise, Reason, client_established, client_writeable, client_receive,
  client_connection_error, lws_closed, wsi_destroy, client_receive_pong, logged, handle_reason,
  lws_callback, request_loop, release_loop, minus_one, destroyed, pong_at, writeable,
}
use artik_sdk.Websocket.Linux.Watches.{ping_periodic_callback, pong_timeout_callback}
use artik_sdk.Websocket.Linux.Balance.{registered_of, Holds, IsHeld}

writeable-registered :
    (m : Option Bytes) (s : Stream) → registered_of (writeable m s) ≡ registered_of s
writeable-registered none s = refl
writeable-registered (some m) s = refl

length-store :
    {C : Type 0} (p : ℕ) (f : Node C → Node C) (l : ArtikList C) → length (store p f l) ≡ length l
length-store p f [] = refl
length-store p f (n ∷ l) = ground (arith, length-store p f l)

destroyed-registered :
    (n : Option (Node Bool)) (s : Stream) → registered_of (destroyed n s).1 ≡ registered_of s
destroyed-registered none s = refl
destroyed-registered (some n) s =
    ap (λ k. record (registered_of s) { nodes = k })
      (length-store n.addr (λ m. record m { payload = true }) s.1.requested_node)

pub loop-registered :
    (s t : Stream)
    → registered_of t ≡ registered_of (request_loop s)
    → registered_of (release_loop t) ≡ registered_of s
loop-registered s t e = ground arith

-- All but the establishment and a pong.
abbrev pub is_plain : Reason → Bool
is_plain (client_established a) = false
is_plain client_receive_pong = false
is_plain r = true

pub handle_reason-registered :
    (r : Reason) (s : Stream)
    → is_plain r ≡ true
    → registered_of (handle_reason r s).1 ≡ registered_of s
unfolding handle_reason
handle_reason-registered (client_established a) s e = cc
handle_reason-registered client_writeable s e = writeable-registered s.0.send_message s
handle_reason-registered (client_receive in_ true) s e = refl
handle_reason-registered (client_receive in_ false) s e = refl
handle_reason-registered client_connection_error s e = refl
handle_reason-registered lws_closed s e = refl
handle_reason-registered wsi_destroy s e =
    destroyed-registered (get_by_handle s.1.requested_node s.0.wsi) s
handle_reason-registered client_receive_pong s e = cc
handle_reason-registered (logged reason) s e = refl

module _ {base : World} where
  pub IsHeld-registered_of :
      (s t : Stream) → registered_of t ≡ registered_of s → IsHeld base s → IsHeld base t
  IsHeld-registered_of s t e h = subst (Holds base) (sym e) h

  -- The timers are other ones, at the same watches.
  pub pong_at-IsHeld :
      (t : ℤ) (s : Stream)
      → s.0.timeout_id ≡ t
      → IsHeld base s
      → IsHeld base (release_loop (pong_at t (request_loop s)))
  pong_at-IsHeld (pos n) s e h = record {
    watching = h.watching;
    timeouts = λ x. ground (arith, h.timeouts x, count-remove_one x n s.1.timeouts);
    periodics = h.periodics;
    idles = h.idles;
    loops = omega (arith, h.loops);
    nodes = h.nodes;
    no_pings = h.no_pings;
    no_pongs = λ k. refl;
  }
  pong_at-IsHeld (negsuc n) s e h =
      IsHeld-registered_of s (release_loop (request_loop s)) (ground arith) h

  pub established-IsHeld :
      (id : ℕ) (s : Stream)
      → s.0.periodic_id ≡ minus_one
      → IsHeld base s
      → IsHeld base (lws_callback (client_established (s_ok, id)) s).1
  unfolding lws_callback
  established-IsHeld id s e h = elim (Bool-cases (s.0.ping_period == 0)) [
    | inl z ↦
        rw z (
          IsHeld-registered_of s (release_loop (raise fd_connect (request_loop s))) (ground arith)
            h)
    | inr z ↦ rw z (record {
      watching = h.watching;
      timeouts = h.timeouts;
      periodics = λ x. ground (arith, h.periodics x);
      idles = h.idles;
      loops = omega (arith, h.loops);
      nodes = h.nodes;
      no_pings = λ k. ground arith;
      no_pongs = h.no_pongs;
    })
  ]

  pub ping-IsHeld :
      (id : ℕ) (s : Stream)
      → s.0.timeout_id ≡ minus_one
      → s.0.pong_timeout ≢ 0
      → IsHeld base s
      → IsHeld base (ping_periodic_callback true (s_ok, id) s).1
  unfolding ping_periodic_callback
  ping-IsHeld id s e z h = record {
    watching = h.watching;
    timeouts = λ x. ground (arith, h.timeouts x);
    periodics = h.periodics;
    idles = h.idles;
    loops = omega (arith, h.loops);
    nodes = h.nodes;
    no_pings = h.no_pings;
    no_pongs = λ k. absurd (z k);
  }

  pub timeout-IsHeld :
      (id : ℕ) (s : Stream)
      → s.0.timeout_id ≡ pos id
      → IsHeld base s
      → IsHeld base
          (pong_timeout_callback (s.0, record s.1 { timeouts = remove_one id s.1.timeouts }))
  unfolding pong_timeout_callback
  timeout-IsHeld id s e h = record {
    watching = h.watching;
    timeouts = λ x. ground (arith, h.timeouts x, count-remove_one x id s.1.timeouts);
    periodics = h.periodics;
    idles = h.idles;
    loops = h.loops;
    nodes = h.nodes;
    no_pings = h.no_pings;
    no_pongs = λ k. refl;
  }
