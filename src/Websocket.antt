-- ===== src/Websocket.antt =====
-- src/modules/connectivity/websocket/artik_websocket.c: the handles of the websocket module. The
-- layer below it and the URI parser of the build are parameters.
pub mod Request
pub mod Release
pub mod Linux
mod Tests
use artik_sdk.Prelude.{
  ℕ, zero, suc, ◌+◌, ◌-◌, Bool, true, false, not, Option, none, some, [], if◌then◌else◌, length,
}
use artik_sdk.Prelude.Int.{ℤ, pos, negsuc}
use artik_sdk.Prelude.Text.{Bytes, codes}
use artik_sdk.Error.{ArtikError, s_ok, e_bad_args, e_no_mem, e_websocket_error, is_ok}
use artik_sdk.ArtikList.{ArtikList, Node, add, get_by_handle, delete_node}
use artik_sdk.ArtikList.Store.{store}
use artik_sdk.Modules.{same_bytes}
use artik_sdk.Uri.{UriInfo, Result, ok, err}

-- `artik_websocket_config`: the texts and certificates but the URI are `rest`.
pub record Config : Type 0 where
  pub uri : Option Bytes
  pub rest : ℕ
  pub private_data : ℕ
  pub ping_period : ℕ
  pub pong_timeout : ℕ

-- `websocket_node`
pub record Handle : Type 0 where
  pub config : Config
  pub host : Option Bytes
  pub path : Option Bytes
  pub port : ℤ
  pub use_tls : Bool

abbrev pub sizeof_node : ℕ
sizeof_node = 160

-- A node that is zeroed.
abbrev pub blank : Handle
blank = record {
  config = record { uri = none; rest = 0; private_data = 0; ping_period = 0; pong_timeout = 0 };
  host = none;
  path = none;
  port = pos 0;
  use_tls = false;
}

-- The `os_` layer: it may write to the configuration.
pub record OsWebsocket (W : Type 0) : Type 0 where
  pub open_stream : Config → Bytes → Bytes → ℤ → Bool → W → ArtikError × Config × W
  pub write_stream : Config → Bytes → ℕ → W → ArtikError × Config × W
  pub set_connection_callback : Config → ℕ → ℕ → W → ArtikError × Config × W
  pub set_receive_callback : Config → ℕ → ℕ → W → ArtikError × Config × W
  pub close_stream : Config → W → ArtikError × Config × W

-- `texts` and `infos` count the copies of hosts and paths and the results of the parser that are
-- allocated, `utils` the references to the utils module.
pub record State (W : Type 0) : Type 0 where
  pub requested_node : ArtikList Handle
  pub texts : ℕ
  pub infos : ℕ
  pub utils : ℕ
  pub world : W

-- The default port and the use of TLS, by the scheme.
unfoldable pub scheme_of : Bytes → Option (ℤ × Bool)
unfolding codes
scheme_of scheme =
    if same_bytes scheme (codes "wss")
    then some (pos 443, true)
    else if same_bytes scheme (codes "ws")
    then some (pos 80, false)
    else none

abbrev pub port_or : ℤ → ℤ → ℤ
port_or default (pos n) = pos n
port_or default (negsuc zero) = default
port_or default (negsuc (suc n)) = negsuc (suc n)

-- Any error is E_WEBSOCKET_ERROR.
abbrev pub any_error : ArtikError → ArtikError
any_error e = if is_ok e then s_ok else e_websocket_error

abbrev pub text_of : Option Bytes → Bytes
text_of none = []
text_of (some t) = t

abbrev pub text_blocks : Option Bytes → ℕ
text_blocks none = 0
text_blocks (some t) = 1

module _ {W : Type 0} where
  -- The two copies; `host` and `path` are whether memory suffices.
  abbrev pub copies : Bool → Bool → UriInfo → Option (ℤ × Bool) → State W → Option Handle × State W
  copies host path info none s = (none, s)
  copies host path info (some (default, tls)) s =
      if not host then (none, s) else if not path then (none, s) else (
        some (record blank {
          host = some info.hostname;
          path = some info.path;
          port = port_or default info.port;
          use_tls = tls;
        }),
        record s { texts = s.texts + 2 },
      )

  -- `utils->free_uri_info` and the release of the module.
  abbrev pub let_go : Option Handle × State W → Option Handle × State W
  let_go (r, s) = (r, record s { infos = s.infos - 1; utils = s.utils - 1 })

  -- The host, the path, the port and the use of TLS, in the fields of a blank node; `none` is -1.
  unfoldable pub websocket_parse_uri : Bool → Bool → Result → State W → Option Handle × State W
  unfolding scheme_of
  websocket_parse_uri host path (err e) s = (none, s)
  websocket_parse_uri host path (ok info) s = let_go (
      copies host path info (scheme_of info.scheme)
        (record s { infos = s.infos + 1; utils = s.utils + 1 }))

  -- With the node in the list: its fields are set, or it is taken out again.
  abbrev pub enter :
      Config → Node Handle → Option Handle × State W → ArtikError × Option ℕ × State W
  enter config n (none, s) =
      (e_bad_args, none, record s { requested_node = (delete_node s.requested_node n.addr).1 })
  enter config n (some h, s) = (
    s_ok,
    some n.addr,
    record s {
      requested_node =
          store n.addr (λ m. record m { handle = n.addr; payload = record h { config = config } })
            s.requested_node;
    },
  )

  abbrev pub request_at :
      Config
      → Bool
      → Bool
      → Result
      → Option (Node Handle) × ArtikList Handle
      → State W
      → ArtikError × Option ℕ × State W
  request_at config host path r (none, l) s = (e_no_mem, none, s)
  request_at config host path r (some n, l) s =
      enter config n (websocket_parse_uri host path r (record s { requested_node = l }))

  abbrev pub request_uri :
      (Bytes → Result)
      → Bool
      → Config
      → Option Bytes
      → Option ℕ
      → Bool
      → Bool
      → State W
      → ArtikError × Option ℕ × State W
  request_uri get_uri_info place config none block host path s = (e_bad_args, none, s)
  request_uri get_uri_info place config (some uri) block host path s =
      if place
      then request_at config host path (get_uri_info uri)
          (add s.requested_node 0 sizeof_node block blank) s
      else (e_bad_args, none, s)

  -- `place` is whether the pointer for the handle is set, `block` what `malloc` gives for the node, and
  -- `get_uri_info` the parser. The error, the handle that is stored, and the state.
  unfoldable pub artik_websocket_request :
      (Bytes → Result)
      → Bool
      → Option Config
      → Option ℕ
      → Bool
      → Bool
      → State W
      → ArtikError × Option ℕ × State W
  unfolding websocket_parse_uri
  artik_websocket_request get_uri_info place none block host path s = (e_bad_args, none, s)
  artik_websocket_request get_uri_info place (some config) block host path s =
      request_uri get_uri_info place config config.uri block host path s

  -- A call of the layer below with the configuration in the node, which it may write to.
  abbrev pub with_config :
      State W
      → Option (Node Handle)
      → (Handle → W → ArtikError × Config × W)
      → (ArtikError → ArtikError)
      → ArtikError × State W
  with_config s none call answer = (e_bad_args, s)
  with_config s (some n) call answer =
      let r = call n.payload s.world in
      (
        answer r.0,
        record s {
          requested_node =
              store n.addr (λ m. record m { payload = record m.payload { config = r.1 } })
                s.requested_node;
          world = r.2;
        },
      )

  unfoldable pub artik_websocket_open_stream : OsWebsocket W → ℕ → State W → ArtikError × State W
  unfolding is_ok
  artik_websocket_open_stream os handle s =
      with_config s (get_by_handle s.requested_node handle)
        (λ h. os.open_stream h.config (text_of h.host) (text_of h.path) h.port h.use_tls) any_error

  unfoldable pub artik_websocket_write_stream :
      OsWebsocket W → ℕ → Option Bytes → State W → ArtikError × State W
  unfolding is_ok
  artik_websocket_write_stream os handle none s = (e_bad_args, s)
  artik_websocket_write_stream os handle (some message) s =
      with_config s (get_by_handle s.requested_node handle)
        (λ h. os.write_stream h.config message (length message)) any_error

  unfoldable pub artik_websocket_set_connection_callback :
      OsWebsocket W → ℕ → ℕ → ℕ → State W → ArtikError × State W
  artik_websocket_set_connection_callback os handle callback user_data s =
      with_config s (get_by_handle s.requested_node handle)
        (λ h. os.set_connection_callback h.config callback user_data) (λ e. e)

  unfoldable pub artik_websocket_set_receive_callback :
      OsWebsocket W → ℕ → ℕ → ℕ → State W → ArtikError × State W
  artik_websocket_set_receive_callback os handle callback user_data s =
      with_config s (get_by_handle s.requested_node handle)
        (λ h. os.set_receive_callback h.config callback user_data) (λ e. e)

  unfoldable pub artik_websocket_close_stream : OsWebsocket W → ℕ → State W → ArtikError × State W
  artik_websocket_close_stream os handle s =
      with_config s (get_by_handle s.requested_node handle) (λ h. os.close_stream h.config) (λ e. e)

  abbrev pub release_node : State W → Option (Node Handle) → ArtikError × State W
  release_node s none = (e_bad_args, s)
  release_node s (some n) = (
    s_ok,
    record s {
      requested_node = (delete_node s.requested_node n.addr).1;
      texts = s.texts - (text_blocks n.payload.host + text_blocks n.payload.path);
    },
  )

  unfoldable pub artik_websocket_release : ℕ → State W → ArtikError × State W
  artik_websocket_release handle s = release_node s (get_by_handle s.requested_node handle)
