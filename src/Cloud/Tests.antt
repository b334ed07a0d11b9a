-- ===== src/Cloud/Tests.antt =====
-- Runs of the functions of artik_cloud.c over an HTTP module that counts its calls.
use artik_sdk.Prelude.{ℕ, zero, suc, ◌+◌, ◌≡◌, refl, true, false, none, some, [], ◌∷◌, ◌⊎◌}
use artik_sdk.Error.{s_ok, is_ok}
use artik_sdk.Prelude.Text.{Bytes, codes}
use artik_sdk.Cloud.Text.{get_device_path, artik_cloud_url}
use artik_sdk.Cloud.Http.{
  Ssl, get, Call, HttpModule, State, Resources, http_response_callback, artik_cloud_send,
}
use artik_sdk.Cloud.Requests.{get_device_, token_fields}
use artik_sdk.Cloud.Functions.{async}
use artik_sdk.Cloud.Api.{Command, get_device, run_command}
use artik_sdk.Cloud.Rules.{IsCallOf}
use artik_sdk.Cloud.Balance.{
  here, next, commanded, responded, IsBalanced, Reach-IsBalanced, run_command-sent,
}

-- An HTTP module that answers 200 with an empty object, and takes every call with a callback.
abbrev counting : HttpModule ℕ
counting = record {
  send = λ c w. (s_ok, 200, some (codes "{}"), w + 1);
  send_async = λ c w. (s_ok, w + 1);
}

abbrev plain : Ssl
plain = record { se_config = false; rest = 0 }

abbrev at_rest : State ℕ
at_rest = record { refs = 0; pending = []; sent = []; answers = []; world = 0 }

abbrev resources : Resources
resources = record { module_found = true; async = some 7; body = true; certificate = some 5 }

-- A request for the device "d" with the callback 1.
abbrev asked : Command
asked = get_device (async 1 2) (some plain) (some (codes "t")) (some (codes "d")) false

abbrev asked_call : Call
asked_call = record {
  method = get;
  url = codes "https://api.artik.cloud/v1.1/devices/d?properties=false";
  headers =
      (codes "Authorization", codes "Bearer t")
      ∷ (codes "Content-Type", codes "application/json")
      ∷ [];
  body = none;
  ssl = plain;
}

abbrev waiting : State ℕ
waiting = record at_rest {
  refs = 1;
  pending = (7, (record { callback = 1; user_data = 2 })) ∷ [];
  sent = asked_call ∷ [];
  world = 1;
}

asked_run : run_command counting resources asked at_rest ≡ some (s_ok, none, waiting)
unfolding run_command get_device_ artik_cloud_send is_ok codes artik_cloud_url token_fields
    get_device_path
asked_run = refl

-- The answer comes, and calls the callback.
abbrev served : State ℕ
served = record waiting {
  refs = 0;
  pending = [];
  answers = (record { callback = 1; ret = s_ok; response = none; user_data = 2 }) ∷ [];
}

served_run : http_response_callback s_ok 204 none 7 waiting ≡ some served
unfolding http_response_callback is_ok
served_run = refl

Reach-IsBalanced_example : IsBalanced served
Reach-IsBalanced_example = Reach-IsBalanced {s = at_rest} {t = served} refl (
    next (next here (commanded counting resources asked at_rest waiting s_ok none asked_run))
      (responded s_ok 204 none 7 waiting served served_run))

run_command-sent_example :
    ((waiting.sent ≡ at_rest.sent) × (is_ok s_ok ≡ false))
    ⊎ ((call : Call) × (waiting.sent ≡ call ∷ at_rest.sent) × IsCallOf resources asked call)
run_command-sent_example =
    run_command-sent counting resources asked at_rest waiting s_ok none asked_run

-- An identifier of 218 bytes, and more.
abbrev fill : ℕ → Bytes
fill zero = []
fill (suc n) = b'a' ∷ fill n
