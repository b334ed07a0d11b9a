-- ===== src/Websocket/Linux/Reopening.antt =====
-- linux_websocket.c: a stream at the address of a stream that is closed.
use artik_sdk.Prelude.{
  Option, ℕ, ◌≤◌, ◌≡◌, ◌≢◌, refl, ap, append_assoc, ◌∙◌, Bool, true, false, none, some, [], ◌∷◌,
  ◌++◌, ◌==◌, All, arith,
}
use artik_sdk.Prelude.Text.{Bytes}
use artik_sdk.Error.{s_ok, e_websocket_error}
use artik_sdk.ArtikList.{ArtikList, Node, get_by_handle, add, find_first, new_node}
use artik_sdk.ArtikList.Lookup.{add_lem}
use artik_sdk.ArtikList.Store.{IsFresh, store-append}
use artik_sdk.Websocket.{Config}
use artik_sdk.Websocket.Linux.{
  Interface, Stream, wsi_destroy, lws_callback, os_websocket_write_stream,
}
use artik_sdk.Websocket.Linux.Opening.{
  System, os_websocket_open_stream, os_websocket_close_stream, sizeof_node,
}
use artik_sdk.Websocket.Linux.Balance.Closing.{
  granted, opened, opened_system, os_websocket_open_stream-granted,
}
use artik_sdk.Websocket.Linux.Pings.{==-zero-ne}

find_first_middle :
    (h : ℕ) (l r : ArtikList Bool) (n : Node Bool)
    → n.handle ≡ h
    → All (λ m. m.handle ≢ h) l
    → find_first (λ m. m.handle == h) (l ++ n ∷ r) ≡ some n
unfolding find_first
find_first_middle h [] r n e f = ground arith
find_first_middle h (x ∷ l) r n e f = ground (arith, find_first_middle h l r n e f.1)

get_by_handle_middle :
    (h : ℕ) (l r : ArtikList Bool) (n : Node Bool)
    → h ≢ 0
    → n.handle ≡ h
    → All (λ m. m.handle ≢ h) l
    → get_by_handle (l ++ n ∷ r) h ≡ some n
unfolding get_by_handle
get_by_handle_middle h l r n z e f = rw (==-zero-ne h z) (find_first_middle h l r n e f)

-- The node of a stream that is open.
abbrev entry : ℕ → ℕ → Bool → Node Bool
entry wsi p broken = record {
  addr = p;
  handle = wsi;
  size_data = sizeof_node;
  clear = false;
  copy = none;
  payload = broken;
}

add-entry :
    (l : ArtikList Bool) (wsi p : ℕ)
    → wsi ≢ 0
    → (add l wsi sizeof_node (some p) false).1 ≡ l ++ entry wsi p false ∷ []
unfolding new_node
add-entry l wsi p z =
    ap (λ r. r.1) (add_lem l wsi sizeof_node p false (omega arith)) ∙ rw (==-zero-ne wsi z) refl

-- What `wsi_destroy` leaves in the list.
destroyed-entry :
    (l : ArtikList Bool) (p : ℕ) (s : Stream)
    → s.0.wsi ≢ 0
    → s.1.requested_node ≡ l ++ entry s.0.wsi p false ∷ []
    → All (λ m. m.handle ≢ s.0.wsi) l
    → IsFresh p l
    → (lws_callback wsi_destroy s).1.1.requested_node ≡ l ++ entry s.0.wsi p true ∷ []
unfolding lws_callback
destroyed-entry l p s z e f k =
    rw (e, get_by_handle_middle s.0.wsi l [] (entry s.0.wsi p false) z refl f)
      (store-append p (λ m. record m { payload = true }) l (entry s.0.wsi p false) refl k)

os_websocket_write_stream_broken :
    (l r : ArtikList Bool) (p len : ℕ) (bytes : Bytes) (block : Bool) (s : Stream)
    → s.0.wsi ≢ 0
    → s.1.requested_node ≡ l ++ entry s.0.wsi p true ∷ r
    → All (λ m. m.handle ≢ s.0.wsi) l
    → (os_websocket_write_stream bytes len block s).0 ≡ e_websocket_error
unfolding os_websocket_write_stream
os_websocket_write_stream_broken l r p len bytes block s z e f =
    rw (e, get_by_handle_middle s.0.wsi l r (entry s.0.wsi p true) z refl f) refl

-- A stream that is opened where the list ends with a broken one of its address.
opened_broken :
    (config : Config) (l : ArtikList Bool) (id wsi p p' : ℕ) (s : System)
    → config.pong_timeout ≤ config.ping_period
    → wsi ≢ 0
    → All (λ m. m.handle ≢ wsi) l
    → s.world.requested_node ≡ l ++ entry wsi p true ∷ []
    → let o = os_websocket_open_stream config none (granted id wsi p') s in
      (o.0 ≡ s_ok)
      × ((bytes : Bytes) (len : ℕ) (block : Bool)
          → (os_websocket_write_stream bytes len block (opened config id wsi, o.2.world)).0
            ≡ e_websocket_error)
opened_broken config l id wsi p p' s h z f e =
    rw (os_websocket_open_stream-granted config none id wsi p' s h) (
      refl,
      λ bytes len block.
          os_websocket_write_stream_broken l (entry wsi p' false ∷ []) p len bytes block
            (opened config id wsi, (opened_system id wsi p' s).world) z
            (add-entry s.world.requested_node wsi p' z
              ∙ rw e (append_assoc l (entry wsi p true ∷ []) (entry wsi p' false ∷ [])))
            f,
    )

-- A stream is opened at `wsi`, destroyed by libwebsockets and closed, and another one of the same
-- configuration is opened, to which libwebsockets gives the same address; both are granted all that
-- they ask for. With `pong_timeout` not above `ping_period`, an address that is not NULL and not in the
-- list, and a new block for the first node, the second opening succeeds, and every write to the second
-- stream fails with `E_WEBSOCKET_ERROR`.
pub os_websocket_write_stream_reopened :
    (config : Config) (old : Option Interface) (id wsi p id' p' : ℕ) (s : System)
    → config.pong_timeout ≤ config.ping_period
    → wsi ≢ 0
    → All (λ m. m.handle ≢ wsi) s.world.requested_node
    → IsFresh p s.world.requested_node
    → let o = os_websocket_open_stream config old (granted id wsi p) s in
      let t = (lws_callback wsi_destroy (opened config id wsi, o.2.world)).1 in
      let c = os_websocket_close_stream (some t.0) (record o.2 { world = t.1 }) in
      let o' = os_websocket_open_stream config c.1 (granted id' wsi p') c.2 in
      (o'.0 ≡ s_ok)
      × ((bytes : Bytes) (len : ℕ) (block : Bool)
          → (os_websocket_write_stream bytes len block (opened config id' wsi, o'.2.world)).0
            ≡ e_websocket_error)
unfolding os_websocket_close_stream
os_websocket_write_stream_reopened config old id wsi p id' p' s h z f k =
    rw (os_websocket_open_stream-granted config old id wsi p s h) (
      let t =
        (lws_callback wsi_destroy (opened config id wsi, (opened_system id wsi p s).world)).1 in
      opened_broken config s.world.requested_node id' wsi p p'
        (os_websocket_close_stream (some t.0) (record (opened_system id wsi p s) { world = t.1 })).2
        h z f
        (destroyed-entry s.world.requested_node p
          (opened config id wsi, (opened_system id wsi p s).world) z
          (add-entry s.world.requested_node wsi p z) f k))
