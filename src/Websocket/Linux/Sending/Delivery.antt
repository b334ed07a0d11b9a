-- ===== src/Websocket/Linux/Sending/Delivery.antt =====
-- linux_websocket.c: messages that are written in turn, with the stream writeable after each.

use artik_sdk.Prelude.{
  ◌+◌, ◌-◌, ◌≡◌, refl, sym, ap, subst, ◌∙◌, Bool, true, false, none, some, List, [], ◌∷◌, ◌++◌,
  append-nil, append_assoc, arith,
}
use artik_sdk.Prelude.Text.{Bytes}
use artik_sdk.ArtikList.{Node, get_by_handle}
use artik_sdk.Websocket.Linux.{
  Frame, text, Stream, client_writeable, lws_callback, os_websocket_write_stream, write_to,
}
use artik_sdk.Websocket.Linux.Sending.{Event, writes, lws, step, run}
use artik_sdk.Prelude.{length, take-all}

-- Each message is written, and then the stream is writeable.
abbrev pub in_turn : List Bytes → List Event
in_turn [] = []
in_turn (m ∷ ms) = writes m (length m) true ∷ lws client_writeable ∷ in_turn ms

abbrev pub all_text : List Bytes → List Frame
all_text [] = []
all_text (m ∷ ms) = text m ∷ all_text ms

-- What a message written and sent changes.
abbrev after : Bytes → Stream → Stream
after m (i, w) = (
  record i { send_message = none },
  record w {
    loops = w.loops + 1 - 1;
    buffers = w.buffers + 1 - 1;
    wanted = i.wsi ∷ w.wanted;
    frames = w.frames ++ text m ∷ [];
  },
)

-- The node of the stream is in the list, and its connection stands.
abbrev pub IsConnected : Node Bool → Stream → Type 0
IsConnected n s = (get_by_handle s.1.requested_node s.0.wsi ≡ some n) × (n.payload ≡ false)

written : Bytes → Stream → Stream
written m (i, w) = (
  record i { send_message = some m },
  record w { buffers = w.buffers + 1; wanted = i.wsi ∷ w.wanted },
)

takes :
    (m : Bytes) (n : Node Bool) (s : Stream)
    → IsConnected n s
    → step (writes m (length m) true) s ≡ written m s
unfolding step os_websocket_write_stream written
takes m n s c =
    ap (λ o. (write_to o m (length m) true s).1) c.0
    ∙ rw c.1 (ap (λ x. written x s) (take-all (length m) m (omega arith)))

sends :
    (m : Bytes) (n : Node Bool) (s : Stream)
    → IsConnected n s
    → step (lws client_writeable) (step (writes m (length m) true) s) ≡ after m s
unfolding step written lws_callback
sends m n s c = ap (step (lws client_writeable)) (takes m n s c)

-- With the connection standing and no message waiting, any number of messages are written, and the
-- stream is writeable after each of them, before the next is written. All are sent, in their order; then
-- none waits, and as many buffers are allocated as before.
pub run-in_turn :
    (ms : List Bytes) (n : Node Bool) (s : Stream)
    → IsConnected n s
    → s.0.send_message ≡ none
    → let t = run (in_turn ms) s in
      (t.1.frames ≡ s.1.frames ++ all_text ms)
      × (t.0.send_message ≡ none)
      × (t.1.buffers ≡ s.1.buffers)
unfolding run
run-in_turn [] n s c e = (sym (append-nil s.1.frames), e, refl)
run-in_turn (m ∷ ms) n s c e =
    let r = run-in_turn ms n (after m s) c refl in
    subst
      (λ t.
        ((run (in_turn ms) t).1.frames ≡ s.1.frames ++ all_text (m ∷ ms))
        × ((run (in_turn ms) t).0.send_message ≡ none)
        × ((run (in_turn ms) t).1.buffers ≡ s.1.buffers))
      (sym (sends m n s c))
      (r.0 ∙ append_assoc s.1.frames (text m ∷ []) (all_text ms), r.1, omega (arith, r.2))
