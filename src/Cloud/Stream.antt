-- ===== src/Cloud/Stream.antt =====
-- artik_cloud.c: the stream of messages over the websocket module, which is a parameter.
pub mod Balance
mod Tests
use artik_sdk.Prelude.{
  ℕ, ◌+◌, ◌-◌, Bool, not, ◌&&◌, Option, none, some, List, [], ◌∷◌, ◌++◌, ◌==◌, if◌then◌else◌,
}
use mathlib.Core.Option
use artik_sdk.Prelude.Text.{Bytes, codes, snprintf}
use artik_sdk.Error.{ArtikError, s_ok, e_bad_args, e_no_mem, e_not_supported, is_ok}
use artik_sdk.ArtikList.{ArtikList, Node, add, get_by_handle, delete_handle}
use artik_sdk.ArtikList.Store.{store}
use artik_sdk.Cloud.Http.{Ssl}

abbrev pub artik_cloud_websocket_str_max : ℕ
artik_cloud_websocket_str_max = 1024

-- `artik_cloud_reg_data`; a function is a number, and 0 is NULL.
pub record Registration : Type 0 where
  pub handle : ℕ
  pub registration_message : Bytes
  pub access_token : Option Bytes
  pub device_id : Option Bytes
  pub callback : ℕ
  pub callback_data : ℕ

abbrev pub blank : Registration
blank = record {
  handle = 0;
  registration_message = [];
  access_token = none;
  device_id = none;
  callback = 0;
  callback_data = 0;
}

-- `sizeof(cloud_node)`
abbrev pub sizeof_node : ℕ
sizeof_node = 1112

-- `artik_websocket_module` over a world `W`; a request answers with the handle that it stores, if it
-- stores one.
pub record WebsocketModule (W : Type 0) : Type 0 where
  pub request : Bytes → Option Ssl → ℕ → ℕ → W → ArtikError × Option ℕ × W
  pub open_stream : ℕ → W → ArtikError × W
  pub write_stream : ℕ → Bytes → W → ArtikError × W
  pub set_connection_callback : ℕ → ℕ → W → ArtikError × W
  pub set_receive_callback : ℕ → ℕ → ℕ → W → ArtikError × W
  pub close_stream : ℕ → W → ArtikError × W
  pub release : ℕ → W → ArtikError × W

-- `refs` is how often the process has requested the module and not released it: at 0 the library is
-- closed, so a call through it is a fault. `texts` is how many texts are allocated, and `calls` has the
-- calls of the application with their data and the state of the connection, the latest first.
pub record Stream (W : Type 0) : Type 0 where
  pub requested_node : ArtikList Registration
  pub refs : ℕ
  pub texts : ℕ
  pub calls : List (ℕ × ℕ × ℕ)
  pub world : W

-- Whether the module is not NULL, as the source tests it, whether the text of the URI and the two
-- copies can be had, and the block of the node. The (void *)-1 of a request for the module that fails
-- passes that test, and is left out: the module can be requested.
pub record Memory : Type 0 where
  pub websocket : Bool
  pub uri : Bool
  pub token : Bool
  pub device : Bool
  pub node : Option ℕ

-- The format of the URI, with the port and the path, by `se_config`.
unfoldable pub stream_uri : Option Ssl → Bytes
unfolding codes
stream_uri none = codes "wss://api.artik.cloud:443/v1.1/websocket?ack=true"
stream_uri (some ssl) =
    if ssl.se_config
    then codes "wss://s-api.artik.cloud:443/v1.1/websocket?ack=true"
    else codes "wss://api.artik.cloud:443/v1.1/websocket?ack=true"

unfoldable pub registration : Bytes → Bytes → Bytes
unfolding codes
registration device token = snprintf artik_cloud_websocket_str_max (
    codes "{\"sdid\":\""
    ++ (device
        ++ (codes "\",\"Authorization\":\"bearer "
            ++ (token ++ codes "\",\"type\":\"register\"}"))))

unfoldable pub message_text : Bytes → Bytes → Bytes
unfolding codes
message_text device message = snprintf artik_cloud_websocket_str_max (
    codes "{\"sdid\":\""
    ++ (device ++ (codes "\",\"type\":\"message\",\"data\":" ++ (message ++ codes "}"))))

abbrev pub text_count : Option Bytes → ℕ
text_count none = 0
text_count (some t) = 1

abbrev pub text_or : Option Bytes → Bytes
text_or none = []
text_or (some t) = t

abbrev pub copy_of : Bool → Bytes → Option Bytes
copy_of ok text = if ok then some text else none

abbrev pub stored_or : ℕ → Option ℕ → ℕ
stored_or before none = before
stored_or before (some handle) = handle

module _ {W : Type 0} where
  -- A call through the module, which is loaded.
  abbrev pub through : (W → ArtikError × W) → Stream W → ArtikError × Stream W
  through f s = let r = f s.world in (r.0, record s { world = r.1 })

  abbrev pub request_module : Stream W → Stream W
  request_module s = record s { refs = s.refs + 1 }

  abbrev pub release_module : Stream W → Stream W
  release_module s = record s { refs = s.refs - 1 }

  abbrev pub free_texts : ℕ → Stream W → Stream W
  free_texts n s = record s { texts = s.texts - n }

  -- The stream is closed and released through the module, which may have been closed itself.
  unfoldable pub give_up : WebsocketModule W → ℕ → Stream W → Option (Stream W)
  give_up ws handle s =
      if s.refs == 0
      then none
      else some (through (ws.release handle) (through (ws.close_stream handle) s).1).1

  -- `goto exit`: the error, the handle that is stored, and the state; `none` is a fault.
  unfoldable pub exit :
      WebsocketModule W → ArtikError → ℕ → Stream W → Option (ArtikError × ℕ × Stream W)
  unfolding is_ok give_up
  exit ws ret handle s =
      let released = release_module s in
      if not (is_ok ret) && not (handle == 0)
      then Option.map (λ t. (ret, 0, free_texts 1 t)) (give_up ws handle released)
      else some (ret, handle, free_texts 1 released)

  -- After the callback of the connection has been set, or not.
  unfoldable pub callback_set :
      WebsocketModule W → ℕ → ArtikError × Stream W → Option (ArtikError × ℕ × Stream W)
  unfolding exit
  callback_set ws handle (ret, s) =
      if is_ok ret
      then exit ws s_ok handle s
      else exit ws ret handle
          (record s { requested_node = (delete_handle s.requested_node handle).1 })

  -- The node is there; `data` is filled in, and the callback is set.
  unfoldable pub fill_node :
      WebsocketModule W
      → Memory
      → Bytes
      → Bytes
      → ℕ
      → Option (Node Registration) × ArtikList Registration
      → Stream W
      → Option (ArtikError × ℕ × Stream W)
  unfolding exit registration callback_set
  fill_node ws m token device handle (none, l) s = exit ws e_no_mem handle s
  fill_node ws m token device handle (some n, l) s =
      let filled = record s {
        requested_node =
            store n.addr
              (λ x. record x {
                payload = record {
                  handle = handle;
                  registration_message = registration device token;
                  access_token = copy_of m.token token;
                  device_id = copy_of m.device device;
                  callback = 0;
                  callback_data = 0;
                };
              })
              l;
        texts = s.texts + text_count (copy_of m.token token) + text_count (copy_of m.device device);
      } in
      callback_set ws handle (through (ws.set_connection_callback handle n.addr) filled)

  -- `stored` is the handle after the request.
  unfoldable pub open_handle :
      WebsocketModule W
      → Memory
      → Bytes
      → Bytes
      → ArtikError
      → ℕ
      → Stream W
      → Option (ArtikError × ℕ × Stream W)
  unfolding exit fill_node
  open_handle ws m token device ret stored s =
      let r = through (ws.open_stream stored) s in
      if not (is_ok ret)
      then exit ws ret stored s
      else if is_ok r.0
      then fill_node ws m token device stored
          (add r.1.requested_node stored sizeof_node m.node blank) r.1
      else exit ws r.0 stored r.1

  -- `before` is what `*handle` holds at the call. The texts and the pointer for the handle are set.
  unfoldable pub websocket_open_stream :
      WebsocketModule W
      → Memory
      → ℕ
      → Option Bytes
      → Option Bytes
      → ℕ
      → ℕ
      → Option Ssl
      → Stream W
      → Option (ArtikError × ℕ × Stream W)
  unfolding open_handle stream_uri
  websocket_open_stream ws m before none device ping pong ssl s = some (e_bad_args, before, s)
  websocket_open_stream ws m before (some token) none ping pong ssl s = some (e_bad_args, before, s)
  websocket_open_stream ws m before (some token) (some device) ping pong ssl s =
      let s' = record (request_module s) { texts = s.texts + 1 } in
      let r = ws.request (stream_uri ssl) ssl ping pong s'.world in
      if not m.websocket
      then some (e_not_supported, before, s)
      else if not m.uri
      then some (e_no_mem, before, s)
      else open_handle ws m token device r.0 (stored_or before r.1) (record s' { world = r.2 })

  abbrev pub sent :
      WebsocketModule W
      → ℕ
      → Option (Node Registration)
      → Option Bytes
      → Stream W
      → ArtikError × Stream W
  sent ws handle none message s = (e_bad_args, s)
  sent ws handle (some n) none s = (e_bad_args, s)
  sent ws handle (some n) (some message) s =
      let r =
        through (ws.write_stream handle (message_text (text_or n.payload.device_id) message)) s in
      (r.0, release_module r.1)

  -- The module can be had.
  unfoldable pub websocket_send_message :
      WebsocketModule W → ℕ → Option Bytes → Stream W → ArtikError × Stream W
  unfolding message_text
  websocket_send_message ws handle message s =
      sent ws handle (get_by_handle s.requested_node handle) message (request_module s)

  abbrev pub with_callback : ℕ → ℕ → Option (Node Registration) → Stream W → ArtikError × Stream W
  with_callback callback user_data none s = (e_bad_args, s)
  with_callback callback user_data (some n) s = (
    s_ok,
    record s {
      requested_node =
          store n.addr
            (λ x. record x {
              payload = record x.payload { callback = callback; callback_data = user_data };
            })
            s.requested_node;
    },
  )

  unfoldable pub websocket_set_connection_callback : ℕ → ℕ → ℕ → Stream W → ArtikError × Stream W
  websocket_set_connection_callback handle callback user_data s =
      with_callback callback user_data (get_by_handle s.requested_node handle) s

  unfoldable pub websocket_set_receive_callback :
      WebsocketModule W → ℕ → ℕ → ℕ → Stream W → ArtikError × Stream W
  websocket_set_receive_callback ws handle callback user_data s =
      let r = through (ws.set_receive_callback handle callback user_data) (request_module s) in
      (r.0, release_module r.1)

  -- After the node has left the list with the result `ret`.
  abbrev pub closed : WebsocketModule W → ℕ → ArtikError → Stream W → ArtikError × Stream W
  closed ws handle ret s =
      let r = through (ws.close_stream handle) s in
      let q = through (ws.release handle) r.1 in
      if not (is_ok ret)
      then (ret, release_module s)
      else if is_ok r.0
      then (q.0, release_module q.1)
      else (r.0, release_module r.1)

  abbrev pub close_node :
      WebsocketModule W → ℕ → Option (Node Registration) → Stream W → ArtikError × Stream W
  close_node ws handle none s = (e_bad_args, s)
  close_node ws handle (some n) s =
      let d = delete_handle s.requested_node handle in
      closed ws handle d.0 (record s {
        requested_node = d.1;
        texts = s.texts - (text_count n.payload.access_token + text_count n.payload.device_id);
      })

  -- The module can be had.
  unfoldable pub websocket_close_stream : WebsocketModule W → ℕ → Stream W → ArtikError × Stream W
  unfolding is_ok
  websocket_close_stream ws handle s =
      close_node ws handle (get_by_handle s.requested_node handle) (request_module s)

  -- `data` is the payload of a node; the states that are told apart.
  unfoldable pub websocket_connection_callback :
      WebsocketModule W → Registration → ℕ → Stream W → Stream W
  websocket_connection_callback ws r result s =
      let told = λ (t : Stream W).
        if r.callback == 0
        then t
        else record t { calls = (r.callback, r.callback_data, result) ∷ t.calls } in
      release_module (
        if result == 2
        then told (through (ws.write_stream r.handle r.registration_message) (request_module s)).1
        else if result == 1
        then told (request_module s)
        else if result == 4
        then told (request_module s)
        else request_module s)
