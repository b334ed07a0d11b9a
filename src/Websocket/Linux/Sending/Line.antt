-- ===== src/Websocket/Linux/Sending/Line.antt =====
-- linux_websocket.c: the calls that neither take a message nor send one.

use artik_sdk.Prelude.{
  ℕ, ◌≡◌, refl, ap, ◌∙◌, inl, inr, Bool-cases, Bool, true, false, Option, none, some, List, [], ◌∷◌,
  ◌++◌, ◌==◌, if◌then◌else◌, arith,
}
use artik_sdk.Prelude.Text.{Bytes}
use artik_sdk.Error.{ArtikError, s_ok, is_ok}
use artik_sdk.Websocket.Linux.{
  FdEvent, fd_close, fd_connect, fd_receive, fd_error, fd_connection_error, Data, Interface, Frame,
  text, ping, Told, Stream, Added, request_loop,
}
use artik_sdk.Websocket.Linux.Watches.{
  os_websocket_set_connection_callback, os_websocket_set_receive_callback, watch_callback,
  add_fd_watch, remove_old, remove_all_old, remove_old_receive, set_receive, set_all_data, tell,
  tell_message, watch_close, watch_connect, watch_receive, watch_error, watch_connection_error,
  add_all, leave,
}
use artik_sdk.Websocket.Linux.Sending.{reached, texts, line}

pub texts-append : (l m : List Frame) → texts (l ++ m) ≡ texts l ++ texts m
texts-append [] m = refl
texts-append (text x ∷ l) m = ap (◌∷◌ x) (texts-append l m)
texts-append (ping x ∷ l) m = texts-append l m

remove_old-line : (d : Data) (s : Stream) → line (remove_old d s) ≡ line s
remove_old-line d s = ground arith

add_fd_watch-line :
    (put : ℕ → Interface → Interface) (e : ArtikError) (id : ℕ)
    (follow : Stream → ArtikError × Stream) (s : Stream)
    → (put id s.0).send_message ≡ s.0.send_message
    → ((t : Stream) → line (follow t).1 ≡ line t)
    → line (add_fd_watch put (e, id) follow s).1 ≡ line s
add_fd_watch-line put e id follow s p h = elim (Bool-cases (is_ok e)) [
  | inl ok ↦ rw ok (
      h (put id s.0, record s.1 { watches = id ∷ s.1.watches })
      ∙ ap (λ m. record { waits = m; frames = s.1.frames }) p)
  | inr bad ↦ rw bad refl
]

tell-line :
    (d : Data) (u : ℕ) (m : Told) (s t : Stream)
    → line t ≡ line s
    → line (reached (tell d u m s) t) ≡ line s
tell-line d u m s t e = ground arith

tell_message-line : (m : Option Bytes) (s : Stream) → line (reached (tell_message m s) s) ≡ line s
tell_message-line none s = refl
tell_message-line (some m) s =
    tell-line s.0.on_receive s.0.on_receive.user_data (Told.message m) s s refl

reached-line :
    (ok : Bool) (r : Option (ℕ × Stream)) (s : Stream)
    → line (reached r s) ≡ line s
    → line (reached (if ok then r else some (0, s)) s) ≡ line s
reached-line true r s h = h
reached-line false r s h = refl

pub watch_callback-line :
    (e : FdEvent) (ok : Bool) (s : Stream) → line (reached (watch_callback e ok s) s) ≡ line s
unfolding watch_callback
watch_callback-line fd_close ok s =
    reached-line ok (tell s.0.on_close s.0.on_close.user_data Told.closed s) s
      (tell-line s.0.on_close s.0.on_close.user_data Told.closed s s refl)
watch_callback-line fd_connect ok s =
    reached-line ok (tell s.0.on_connect s.0.on_close.user_data Told.connected s) s
      (tell-line s.0.on_connect s.0.on_close.user_data Told.connected s s refl)
watch_callback-line fd_receive ok s =
    reached-line ok (tell_message s.0.receive_message s) s (tell_message-line s.0.receive_message s)
watch_callback-line fd_error ok s =
    reached-line ok (tell s.0.on_error s.0.on_close.user_data Told.handshake_error s) s
      (tell-line s.0.on_error s.0.on_close.user_data Told.handshake_error s s refl)
watch_callback-line fd_connection_error ok s =
    reached-line ok (tell s.0.on_connection_error s.0.on_close.user_data Told.connection_error s) s
      (tell-line s.0.on_connection_error s.0.on_close.user_data Told.connection_error s s refl)

remove_all_old-line : (s : Stream) → line (remove_all_old s) ≡ line s
remove_all_old-line s =
    remove_old-line s.0.on_error (remove_old s.0.on_connect (remove_old s.0.on_close s))
    ∙ remove_old-line s.0.on_connect (remove_old s.0.on_close s)
    ∙ remove_old-line s.0.on_close s

add_all-line : (a b c d : Added) (s : Stream) → line (add_all a b c d s).1 ≡ line s
add_all-line a b c d s =
    add_fd_watch-line watch_close a.0 a.1
      (add_fd_watch watch_connect b
        (add_fd_watch watch_error c (add_fd_watch watch_connection_error d (λ s. (s_ok, s)))))
      s refl
      (λ t.
        add_fd_watch-line watch_connect b.0 b.1
          (add_fd_watch watch_error c (add_fd_watch watch_connection_error d (λ s. (s_ok, s)))) t
          refl
          (λ u.
            add_fd_watch-line watch_error c.0 c.1
              (add_fd_watch watch_connection_error d (λ s. (s_ok, s))) u refl
              (λ v.
                add_fd_watch-line watch_connection_error d.0 d.1 (λ s. (s_ok, s)) v refl
                  (λ x. refl))))

if-line :
    (b : Bool) (r q : ArtikError × Stream) (s : Stream)
    → line r.1 ≡ line s
    → line q.1 ≡ line s
    → line (if b then r else q).1 ≡ line s
if-line true r q s h k = h
if-line false r q s h k = k

pub os_websocket_set_connection_callback-line :
    (callback user_data : ℕ) (a b c d : Added) (s : Stream)
    → line (os_websocket_set_connection_callback callback user_data a b c d s).1 ≡ line s
unfolding os_websocket_set_connection_callback
os_websocket_set_connection_callback-line callback user_data a b c d s =
    let set = set_all_data callback user_data (remove_all_old (request_loop s)) in
    let kept : line set ≡ line s = remove_all_old-line (request_loop s) in
    if-line (callback == 0) (s_ok, set) (leave (add_all a b c d set)) s kept
      (add_all-line a b c d set ∙ kept)

pub os_websocket_set_receive_callback-line :
    (callback user_data : ℕ) (a : Added) (s : Stream)
    → line (os_websocket_set_receive_callback callback user_data a s).1 ≡ line s
unfolding os_websocket_set_receive_callback
os_websocket_set_receive_callback-line callback user_data a s =
    let set = set_receive callback user_data (remove_old_receive (request_loop s)) in
    let kept : line set ≡ line s = remove_old-line s.0.on_receive (request_loop s) in
    if-line (callback == 0) (s_ok, set) (leave (add_fd_watch watch_receive a (λ s. (s_ok, s)) set))
      s kept (add_fd_watch-line watch_receive a.0 a.1 (λ s. (s_ok, s)) set refl (λ x. refl) ∙ kept)
