-- ===== src/Websocket/Linux/Sending/Order.antt =====
-- linux_websocket.c: the order of the messages that are sent.
use mathlib.Core.List.{Sublist, sublist-append_left}
use mathlib.Core.List.Sublist
use artik_sdk.Prelude.{
  ℕ, ◌≡◌, refl, sym, ap, subst, ◌∙◌, inl, inr, Bool-cases, Bool, true, false, Option, none, some,
  List, [], ◌∷◌, ◌++◌, append-nil, append_assoc, ◌==◌, take, if◌then◌else◌, arith,
}
use artik_sdk.Prelude.Text.{Bytes}
use artik_sdk.Prelude.Int.{ℤ, pos, negsuc}
use artik_sdk.Error.{is_ok}
use artik_sdk.ArtikList.{Node, get_by_handle}
use artik_sdk.Websocket.Linux.{
  fd_connect, text, ping, Stream, Added, Reason, client_established, client_writeable,
  client_receive, client_connection_error, lws_closed, wsi_destroy, client_receive_pong, logged,
  lws_callback, os_websocket_write_stream, request_loop, release_loop, destroyed, writeable,
  write_to, put_message, established, pong, pong_at, raise,
}
use artik_sdk.Websocket.Linux.Watches.{
  pingbuf, ping_periodic_callback, pong_timeout_callback, wait_pong, sent_ping,
}
use artik_sdk.Websocket.Linux.Sending.{
  Event, writes, lws, sets_connection, sets_receive, watch_runs, pings, times_out, step, run, taken,
  all_taken, texts, to_list, line, on_line,
}
use artik_sdk.Websocket.Linux.Sending.Line.{
  texts-append, watch_callback-line, os_websocket_set_connection_callback-line,
  os_websocket_set_receive_callback-line,
}

abbrev Follows : Stream → Stream → List Bytes → Type 0
Follows t s l = Sublist (on_line (line t)) (on_line (line s) ++ l)

same-Follows : (s t : Stream) → line t ≡ line s → Follows t s []
same-Follows s t e =
    rw append-nil (subst (λ l. Sublist (on_line l) (on_line (line s))) (sym e) (Sublist.refl _))

eq-Follows : (s t : Stream) → on_line (line t) ≡ on_line (line s) → Follows t s []
eq-Follows s t e =
    rw append-nil (subst (λ l. Sublist l (on_line (line s))) (sym e) (Sublist.refl _))

put_message-Follows :
    (block : Bool) (bytes : Bytes) (len : ℕ) (s : Stream)
    → let r = put_message block bytes len s in
      Follows r.1 s (if is_ok r.0 then take len bytes ∷ [] else [])
unfolding is_ok
put_message-Follows false bytes len s = same-Follows s s refl
put_message-Follows true bytes len s =
    Sublist.append (sublist-append_left (texts s.1.frames) (to_list s.0.send_message))
      (Sublist.refl _)

write_to-Follows :
    (n : Option (Node Bool)) (bytes : Bytes) (len : ℕ) (block : Bool) (s : Stream)
    → let r = write_to n bytes len block s in
      Follows r.1 s (if is_ok r.0 then take len bytes ∷ [] else [])
unfolding is_ok
write_to-Follows none bytes len block s = same-Follows s s refl
write_to-Follows (some n) bytes len block s = elim (Bool-cases n.payload) [
  | inl bad ↦ rw bad (same-Follows s s refl)
  | inr good ↦ rw good (put_message-Follows block bytes len s)
]

writeable-Follows :
    (m : Option Bytes) (s : Stream)
    → s.0.send_message ≡ m
    → Follows (release_loop (writeable m (request_loop s))) s []
writeable-Follows none s e = same-Follows s s refl
writeable-Follows (some m) s e = eq-Follows s (release_loop (writeable (some m) (request_loop s))) (
    append-nil (texts (s.1.frames ++ text m ∷ []))
    ∙ texts-append s.1.frames (text m ∷ [])
    ∙ rw e refl)

established-line : (a : Added) (s : Stream) → line (established a s).1 ≡ line s
established-line (e, id) s = ground arith

pong_at-line : (t : ℤ) (s : Stream) → line (pong_at t s) ≡ line s
pong_at-line (pos n) s = refl
pong_at-line (negsuc n) s = refl

pong-line : (s : Stream) → line (pong s) ≡ line s
pong-line s = elim (Bool-cases (s.0.pong_timeout == 0)) [
  | inl none_set ↦ rw none_set refl
  | inr is_set ↦ rw is_set (pong_at-line s.0.timeout_id s)
]

destroyed-line : (n : Option (Node Bool)) (s : Stream) → line (destroyed n s).1 ≡ line s
destroyed-line none s = refl
destroyed-line (some n) s = refl

lws_callback-Follows : (r : Reason) (s : Stream) → Follows (lws_callback r s).1 s []
unfolding lws_callback
lws_callback-Follows (client_established a) s =
    same-Follows s (lws_callback (client_established a) s).1
      (established-line a (raise fd_connect (request_loop s)))
lws_callback-Follows client_writeable s = writeable-Follows s.0.send_message s refl
lws_callback-Follows (client_receive in_ true) s =
    same-Follows s (lws_callback (client_receive in_ true) s).1 refl
lws_callback-Follows (client_receive in_ false) s =
    same-Follows s (lws_callback (client_receive in_ false) s).1 refl
lws_callback-Follows client_connection_error s =
    same-Follows s (lws_callback client_connection_error s).1 refl
lws_callback-Follows lws_closed s = same-Follows s (lws_callback lws_closed s).1 refl
lws_callback-Follows wsi_destroy s =
    same-Follows s (lws_callback wsi_destroy s).1
      (destroyed-line (get_by_handle s.1.requested_node s.0.wsi) (request_loop s))
lws_callback-Follows client_receive_pong s =
    same-Follows s (lws_callback client_receive_pong s).1 (pong-line (request_loop s))
lws_callback-Follows (logged reason) s = same-Follows s (lws_callback (logged reason) s).1 refl

wait_pong-line : (a : Added) (s : Stream) → line (wait_pong a s).1 ≡ line s
wait_pong-line (e, id) s = ground arith

ping-Follows :
    (block : Bool) (a : Added) (s : Stream) → Follows (ping_periodic_callback block a s).1 s []
unfolding ping_periodic_callback
ping-Follows true a s = eq-Follows s (ping_periodic_callback true a s).1 (
    ap on_line (wait_pong-line a (sent_ping (request_loop s)))
    ∙ ap (λ l. l ++ to_list s.0.send_message)
        (texts-append s.1.frames (ping pingbuf ∷ []) ∙ append-nil (texts s.1.frames)))
ping-Follows false a s = same-Follows s (ping_periodic_callback false a s).1 refl

step-Follows : (e : Event) (s : Stream) → Follows (step e s) s (taken e s)
unfolding step os_websocket_write_stream
step-Follows (writes bytes len block) s =
    write_to-Follows (get_by_handle s.1.requested_node s.0.wsi) bytes len block s
step-Follows (lws r) s = lws_callback-Follows r s
step-Follows (sets_connection callback user_data a b c d) s =
    same-Follows s (step (sets_connection callback user_data a b c d) s)
      (os_websocket_set_connection_callback-line callback user_data a b c d s)
step-Follows (sets_receive callback user_data a) s =
    same-Follows s (step (sets_receive callback user_data a) s)
      (os_websocket_set_receive_callback-line callback user_data a s)
step-Follows (watch_runs e ok) s =
    same-Follows s (step (watch_runs e ok) s) (watch_callback-line e ok s)
step-Follows (pings block a) s = ping-Follows block a s
step-Follows times_out s = same-Follows s (pong_timeout_callback s) refl

-- After any sequence of calls, whatever is answered, the texts that are sent, followed by the message
-- that waits, are a sublist of those sent and waiting at first, followed by the messages taken, in their
-- order.
pub run-sublist :
    (es : List Event) (s : Stream)
    → Sublist (on_line (line (run es s))) (on_line (line s) ++ all_taken es s)
unfolding run all_taken
run-sublist [] s = same-Follows s s refl
run-sublist (e ∷ es) s =
    subst (Sublist (on_line (line (run es (step e s)))))
      (append_assoc (on_line (line s)) (taken e s) (all_taken es (step e s)))
      (Sublist.trans (run-sublist es (step e s))
        (Sublist.append (step-Follows e s) (Sublist.refl _)))
