-- ===== src/Websocket/Tests.antt =====
-- artik_websocket.c: a handle for wss://a.b/x, and one whose scheme is http.
use artik_sdk.Prelude.{ℕ, ◌≡◌, refl, true, false, none, some, [], ◌∷◌, ◌++◌, arith}
use artik_sdk.Prelude.Text.{Bytes}
use artik_sdk.Error.{s_ok, is_ok}
use artik_sdk.ArtikList.{add, new_node}
use artik_sdk.Uri.{get_uri_info, os_get_uri_info, is_host_char, is_path_char}
use artik_sdk.Uri.RoundTrip.{write_uri}
use artik_sdk.Websocket.{
  Config, State, sizeof_node, artik_websocket_request, artik_websocket_release,
}
use artik_sdk.Websocket.Request.{
  behind_w, handle_for, tizenrt_uri_info, artik_websocket_request-plain,
}
use artik_sdk.Websocket.Release.{artik_websocket_release-request}

abbrev host : Bytes
host = 46 ∷ 98 ∷ []

abbrev path : Bytes
path = 47 ∷ 120 ∷ []

abbrev config : Config
config = record {
  uri = some (write_uri 119 (behind_w true) (97 ∷ (host ++ path)));
  rest = 0;
  private_data = 0;
  ping_period = 0;
  pong_timeout = 0;
}

abbrev fresh : State ℕ
fresh = record { requested_node = []; texts = 0; infos = 0; utils = 0; world = 0 }

artik_websocket_request-plain_example :
    artik_websocket_request tizenrt_uri_info true (some config) (some 9) true true fresh ≡ (
      s_ok,
      some 9,
      record fresh {
        requested_node =
            (record {
              addr = 9;
              handle = 9;
              size_data = sizeof_node;
              clear = false;
              copy = none;
              payload = handle_for true config (97 ∷ host) path;
            })
            ∷ [];
        texts = 2;
      },
    )
unfolding is_host_char is_path_char
artik_websocket_request-plain_example =
    artik_websocket_request-plain true 97 9 host path config fresh (refl, (refl, (refl, tt)))
      (refl, (refl, tt)) refl tt

artik_websocket_release-request_example :
    artik_websocket_release 9
      (artik_websocket_request tizenrt_uri_info true (some config) (some 9) true true fresh).2
    ≡ (s_ok, fresh)
unfolding is_host_char is_path_char
artik_websocket_release-request_example =
    artik_websocket_release-request true 97 9 host path config fresh (refl, (refl, (refl, tt)))
      (refl, (refl, tt)) refl (omega arith) tt tt

-- The path cannot be copied.
short_of_memory :
    is_ok (artik_websocket_request tizenrt_uri_info true (some config) (some 9) true false fresh).0
    ≡ false
unfolding artik_websocket_request tizenrt_uri_info is_ok add new_node get_uri_info os_get_uri_info
short_of_memory = refl
