-- ===== src/Cloud/Stream/Tests.antt =====
-- artik_cloud.c: a stream whose request is refused.
use artik_sdk.Prelude.{ℕ, ◌+◌, ◌≡◌, refl, true, none, some, [], ◌∷◌}
use artik_sdk.Error.{s_ok, e_bad_args}
use artik_sdk.Cloud.Stream.{WebsocketModule, Stream, Memory, websocket_open_stream}

-- A module that refuses every request, and counts the handles that it closes and releases.
abbrev refusing : WebsocketModule ℕ
refusing = record {
  request = λ uri ssl ping pong w. (e_bad_args, none, w);
  open_stream = λ handle w. (s_ok, w);
  write_stream = λ handle text w. (s_ok, w);
  set_connection_callback = λ handle node w. (s_ok, w);
  set_receive_callback = λ handle callback user_data w. (s_ok, w);
  close_stream = λ handle w. (s_ok, w + handle);
  release = λ handle w. (s_ok, w + handle);
}

abbrev unused : Stream ℕ
unused = record { requested_node = []; refs = 0; texts = 0; calls = []; world = 0 }

abbrev memory : Memory
memory = record { websocket = true; uri = true; token = true; device = true; node = some 9 }

-- The handle 5 is still there from the application, and the process holds no reference.
refused :
    websocket_open_stream refusing memory 5 (some (116 ∷ [])) (some (100 ∷ [])) 0 0 none unused
    ≡ none
unfolding websocket_open_stream
refused = refl
