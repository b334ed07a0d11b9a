-- ===== src/Websocket/Linux/Balance/Callbacks.antt =====
-- linux_websocket.c: what is registered, where the callbacks of the application are set.
use artik_sdk.Prelude.{
  ℕ, ◌+◌, ◌-◌, ◌≡◌, ◌≢◌, refl, inl, inr, Bool-cases, false, ◌∷◌, ◌==◌, if◌then◌else◌, arith,
}
use artik_sdk.Prelude.Counting.{remove_one, count-remove_one}
use artik_sdk.Error.{s_ok}
use artik_sdk.Websocket.Linux.{Data, World, Stream}
use artik_sdk.Websocket.Linux.Watches.{
  os_websocket_set_connection_callback, os_websocket_set_receive_callback,
}
use artik_sdk.Websocket.Linux.Balance.{Watches, IsHeld, fds_of}

abbrev watch_data : ℕ → ℕ → ℕ → Data
watch_data callback user_data id = record {
  watch_id = id;
  callback = callback;
  user_data = user_data;
}

-- The stream after its callbacks for the connection are set for the first time.
abbrev pub registered : ℕ → ℕ → ℕ → ℕ → ℕ → ℕ → Stream → Stream
registered callback user_data a b c d (i, w) = (
  record i {
    on_close = watch_data callback user_data a;
    on_connect = watch_data callback user_data b;
    on_error = watch_data callback user_data c;
    on_connection_error = watch_data callback user_data d;
  },
  record w { watches = d ∷ c ∷ b ∷ a ∷ w.watches; loops = w.loops + 1 - 1 },
)

==-ne : (a b : ℕ) → a ≢ b → (a == b) ≡ false
==-ne a b h = ground arith

pub os_websocket_set_connection_callback-registered :
    (callback user_data a b c d : ℕ) (s : Stream)
    → callback ≢ 0
    → s.0.on_close.callback ≡ 0
    → s.0.on_connect.callback ≡ 0
    → s.0.on_error.callback ≡ 0
    → os_websocket_set_connection_callback callback user_data
        (s_ok, a)
        (s_ok, b)
        (s_ok, c)
        (s_ok, d)
        s
      ≡ (s_ok, registered callback user_data a b c d s)
unfolding os_websocket_set_connection_callback
os_websocket_set_connection_callback-registered callback user_data a b c d s z e f g =
    rw (==-ne callback 0 z, e, f, g) refl

abbrev pub received_by : ℕ → ℕ → ℕ → Stream → Stream
received_by callback user_data a (i, w) = (
  record i { on_receive = watch_data callback user_data a },
  record w {
    watches =
        a
        ∷ (if i.on_receive.callback == 0
            then w.watches
            else remove_one i.on_receive.watch_id w.watches);
    loops = w.loops + 1 - 1;
  },
)

pub os_websocket_set_receive_callback-received_by :
    (callback user_data a : ℕ) (s : Stream)
    → callback ≢ 0
    → os_websocket_set_receive_callback callback user_data (s_ok, a) s
      ≡ (s_ok, received_by callback user_data a s)
unfolding os_websocket_set_receive_callback
os_websocket_set_receive_callback-received_by callback user_data a s z =
    elim (Bool-cases (s.0.on_receive.callback == 0)) [
      | inl e ↦ rw (==-ne callback 0 z, e) refl
      | inr e ↦ rw (==-ne callback 0 z, e) refl
    ]

module _ {base : World} where
  registered-Watches :
      (callback user_data a b c d : ℕ) (s : Stream)
      → callback ≢ 0
      → s.0.on_close.callback ≡ 0
      → Watches base s.1.watches (fds_of s.0)
      → Watches base
          (registered callback user_data a b c d s).1.watches
          (fds_of (registered callback user_data a b c d s).0)
  registered-Watches callback user_data a b c d s z e h = record {
    watches = λ x. ground (arith, h.watches x, h.unset_close e);
    unset_close = λ k. absurd (z k);
    unset_connect = λ k. absurd (z k);
    unset_receive = h.unset_receive;
    unset_error = λ k. absurd (z k);
    unset_connection_error = λ k. absurd (z k);
    same_connect = refl;
    same_error = refl;
    same_connection_error = refl;
  }

  pub registered-IsHeld :
      (callback user_data a b c d : ℕ) (s : Stream)
      → callback ≢ 0
      → s.0.on_close.callback ≡ 0
      → IsHeld base s
      → IsHeld base (registered callback user_data a b c d s)
  registered-IsHeld callback user_data a b c d s z e h = record {
    watching = registered-Watches callback user_data a b c d s z e h.watching;
    timeouts = h.timeouts;
    periodics = h.periodics;
    idles = h.idles;
    loops = omega (arith, h.loops);
    nodes = h.nodes;
    no_pings = h.no_pings;
    no_pongs = h.no_pongs;
  }

  received_by-Watches :
      (callback user_data a : ℕ) (s : Stream)
      → callback ≢ 0
      → Watches base s.1.watches (fds_of s.0)
      → Watches base
          (received_by callback user_data a s).1.watches
          (fds_of (received_by callback user_data a s).0)
  received_by-Watches callback user_data a s z h = record {
    watches =
        λ x. ground (arith, h.watches x, count-remove_one x s.0.on_receive.watch_id s.1.watches);
    unset_close = h.unset_close;
    unset_connect = h.unset_connect;
    unset_receive = λ k. absurd (z k);
    unset_error = h.unset_error;
    unset_connection_error = h.unset_connection_error;
    same_connect = h.same_connect;
    same_error = h.same_error;
    same_connection_error = h.same_connection_error;
  }

  pub received_by-IsHeld :
      (callback user_data a : ℕ) (s : Stream)
      → callback ≢ 0
      → IsHeld base s
      → IsHeld base (received_by callback user_data a s)
  received_by-IsHeld callback user_data a s z h = record {
    watching = received_by-Watches callback user_data a s z h.watching;
    timeouts = h.timeouts;
    periodics = h.periodics;
    idles = h.idles;
    loops = omega (arith, h.loops);
    nodes = h.nodes;
    no_pings = h.no_pings;
    no_pongs = h.no_pongs;
  }
