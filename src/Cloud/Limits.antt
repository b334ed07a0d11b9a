-- ===== src/Cloud/Limits.antt =====
-- artik_cloud.c: long identifiers, statuses between 200 and 300, and a NULL SSL configuration.
use artik_sdk.Prelude.{
  ◌-◌, ℕ, ◌<◌, ◌≡◌, refl, sym, ap, ◌∙◌, false, Option, none, some, ◌∷◌, ◌++◌, arith, length, take,
  take-append, take-all, subst,
}
use artik_sdk.Error.{s_ok, e_http_error, is_ok}
use artik_sdk.Prelude.Text.{Bytes, codes}
use artik_sdk.Cloud.Text.{artik_cloud_url, delete_device_path}
use artik_sdk.Cloud.Http.{Ssl, Call, HttpModule, State, Resources, received, answered}
use artik_sdk.Cloud.Requests.{url_to, delete_device_}
use artik_sdk.Cloud.Functions.{Form, blocking, async}
use artik_sdk.Cloud.Api.{delete_device, run_command}

-- The URL of a device whose identifier fills the buffer.
cut-url :
    (id more : Bytes)
    → length id ≡ 218
    → url_to false (delete_device_path (id ++ more)) ≡ url_to false (delete_device_path id)
unfolding artik_cloud_url delete_device_path codes
cut-url id more h = ap (λ (q : Bytes). codes "https://api.artik.cloud/v1.1/devices/" ++ q) (cut h)
  where
    cut : length id ≡ 218 → take 218 (id ++ more) ≡ take 218 id
    cut e =
        subst (λ (n : ℕ). take n (id ++ more) ≡ take n id) e
          (take-append id more ∙ sym (take-all (length id) id (omega arith)))

-- Deleting the device of an identifier of more than 218 bytes is deleting the device of its first 218
-- bytes: the URL is cut to its buffer without a word.
pub delete_device-cut :
    {W : Type 0} (http : HttpModule W) (res : Resources) (f : Form) (ssl : Ssl)
    (token : Option Bytes) (id more : Bytes) (s : State W)
    → ssl.se_config ≡ false
    → length id ≡ 218
    → run_command http res (delete_device f (some ssl) token (some (id ++ more))) s
      ≡ run_command http res (delete_device f (some ssl) token (some id)) s
unfolding run_command delete_device_
delete_device-cut http res f ssl none id more s z h = refl
delete_device-cut http res (blocking b) ssl (some token) id more s z h =
    rw (z, cut-url id more h) refl
delete_device-cut http res (async c u) ssl (some token) id more s z h =
    rw (z, cut-url id more h) refl

-- A service that answers with a status from 201 to 299 has failed for a blocking call and succeeded
-- for one with a callback.
pub received-answered :
    {W : Type 0} (call : Call) (status : ℕ) (response : Option Bytes) (w : W) (s : State W)
    → 200 < status
    → status < 300
    → (received call (s_ok, status, response, w) s
        ≡ some (
          e_http_error,
          response,
          record s { refs = s.refs - 1; sent = call ∷ s.sent; world = w },
        ))
      × (answered s_ok status ≡ s_ok)
unfolding received answered is_ok
received-answered call status response w s l u = (ground arith, ground arith)
