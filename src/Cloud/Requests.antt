-- ===== src/Cloud/Requests.antt =====
-- artik_cloud.c: the functions with a leading underscore, which check their arguments, build the
-- header, the URL and the body, and send the request.
use artik_sdk.Prelude.{
  ℕ, suc, zero, Bool, true, false, Option, none, some, List, [], ◌∷◌, ◌++◌, if◌then◌else◌,
}
use artik_sdk.Prelude.Int.{ℤ, pos, negsuc}
use artik_sdk.Error.{e_no_mem, e_not_supported}
use artik_sdk.Prelude.Text.{Bytes, codes, snprintf}
use artik_sdk.Cloud.Text.{
  artik_cloud_url, artik_cloud_url_max, artik_cloud_token_max, user_devices_path,
  user_device_types_path, user_app_props_path, get_device_path, delete_device_path,
  device_token_path, device_props_path, device_serv_props_path, reg_id_path, reg_status_path,
  add_device_body, message_body, action_body, reg_device_body, reg_complete_body,
}
use artik_sdk.Cloud.Http.{
  Ssl, Method, del, put, post, get, Call, HttpModule, State, HttpRequest, Resources, Reply,
  bad_args, artik_cloud_send,
}

-- "Bearer %s"
unfoldable pub bearer : Bytes → Bytes
unfolding codes
bearer access_token = snprintf artik_cloud_token_max (codes "Bearer " ++ access_token)

-- The headers of a request with a token, and those of the registration.
unfoldable pub token_fields : Bytes → List (Bytes × Bytes)
unfolding codes bearer
token_fields access_token =
    (codes "Authorization", bearer access_token)
    ∷ (codes "Content-Type", codes "application/json")
    ∷ []

unfoldable pub accept_field : List (Bytes × Bytes)
unfolding codes
accept_field = (codes "Accept", codes "application/json") ∷ []

unfoldable pub sdr_fields : List (Bytes × Bytes)
unfolding codes
sdr_fields =
    (codes "Accept", codes "application/json")
    ∷ (codes "Content-Type", codes "application/json")
    ∷ (codes "charsets:", codes "utf-8")
    ∷ []

-- `snprintf` into the `url` of a function.
abbrev pub url_to : Bool → Bytes → Bytes
url_to se path = snprintf artik_cloud_url_max (artik_cloud_url se path)

-- The call with a token, and the one of the registration.
abbrev pub token_call : Method → Bytes → Bytes → Option Bytes → Ssl → Call
token_call method access_token url body ssl = record {
  method = method;
  url = url;
  headers = token_fields access_token;
  body = body;
  ssl = ssl;
}

-- `count <= 0 || offset < 0`
abbrev pub is_bad_page : ℤ → ℤ → Bool
is_bad_page (pos zero) offset = true
is_bad_page (negsuc n) offset = true
is_bad_page (pos (suc n)) (negsuc m) = true
is_bad_page (pos (suc n)) (pos m) = false

-- The value of an `int` that is not negative.
abbrev pub magnitude : ℤ → ℕ
magnitude (pos n) = n
magnitude (negsuc n) = 0

module _ {W : Type 0} where
  -- A text argument, which may be NULL.
  abbrev pub given : Option Bytes → State W → (Bytes → Reply W) → Reply W
  given none s k = bad_args s
  given (some text) s k = k text

  -- `ssl_config->se_config`, which faults for NULL.
  abbrev pub with_ssl : HttpRequest → (Ssl → Reply W) → Reply W
  with_ssl r k = elim r.ssl_config [ none ↦ none | some ssl ↦ k ssl ]

  -- A body that is allocated first; NULL is E_NO_MEM.
  abbrev pub with_body : Resources → State W → Reply W → Reply W
  with_body res s k = if res.body then k else some (e_no_mem, none, s)

module _ {W : Type 0} (http : HttpModule W) (res : Resources) (r : HttpRequest) where
  unfoldable pub get_current_user_profile_ : Option Bytes → State W → Reply W
  unfolding codes
  get_current_user_profile_ access_token s = given access_token s λ token. with_ssl r λ ssl.
      artik_cloud_send http res r
        (token_call get token (artik_cloud_url ssl.se_config (codes "users/self")) none ssl) s

  unfoldable pub get_user_devices_ : Option Bytes → ℤ → Bool → ℤ → Option Bytes → State W → Reply W
  get_user_devices_ access_token count properties offset user_id s = given access_token s λ token.
      given user_id s λ user.
        if is_bad_page count offset
        then bad_args s
        else with_ssl r λ ssl.
          artik_cloud_send http res r
            (token_call get token
              (url_to ssl.se_config
                (user_devices_path user (magnitude count) properties (magnitude offset)))
              none ssl)
            s

  unfoldable pub get_user_devices_types_ :
      Option Bytes → ℤ → Bool → ℤ → Option Bytes → State W → Reply W
  get_user_devices_types_ access_token count shared offset user_id s = given access_token s λ token.
      given user_id s λ user.
        if is_bad_page count offset
        then bad_args s
        else with_ssl r λ ssl.
          artik_cloud_send http res r
            (token_call get token
              (url_to ssl.se_config
                (user_device_types_path user (magnitude count) shared (magnitude offset)))
              none ssl)
            s

  unfoldable pub get_user_application_properties_ :
      Option Bytes → Option Bytes → Option Bytes → State W → Reply W
  get_user_application_properties_ access_token user_id app_id s = given access_token s λ token.
      given user_id s λ user. given app_id s λ app. with_ssl r λ ssl.
        artik_cloud_send http res r
          (token_call get token (url_to ssl.se_config (user_app_props_path user app)) none ssl) s

  unfoldable pub get_device_ : Option Bytes → Option Bytes → Bool → State W → Reply W
  get_device_ access_token device_id properties s = given access_token s λ token.
      given device_id s λ device. with_ssl r λ ssl.
        artik_cloud_send http res r
          (token_call get token (url_to ssl.se_config (get_device_path device properties)) none ssl)
          s

  unfoldable pub get_device_token_ : Option Bytes → Option Bytes → State W → Reply W
  get_device_token_ access_token device_id s = given access_token s λ token.
      given device_id s λ device. with_ssl r λ ssl.
        artik_cloud_send http res r
          (token_call get token (url_to ssl.se_config (device_token_path device)) none ssl) s

  unfoldable pub add_device_ :
      Option Bytes → Option Bytes → Option Bytes → Option Bytes → State W → Reply W
  unfolding codes
  add_device_ access_token user_id dt_id name s = given access_token s λ token.
      given user_id s λ user. given dt_id s λ dt. given name s λ n. with_body res s (
        with_ssl r λ ssl.
          artik_cloud_send http res r
            (token_call post token (artik_cloud_url ssl.se_config (codes "devices"))
              (some (add_device_body user dt n)) ssl)
            s)

  unfoldable pub send_message_ : Option Bytes → Option Bytes → Option Bytes → State W → Reply W
  unfolding codes
  send_message_ access_token device_id message s = given access_token s λ token.
      given device_id s λ device. given message s λ text. with_body res s (
        with_ssl r λ ssl.
          artik_cloud_send http res r
            (token_call post token (artik_cloud_url ssl.se_config (codes "messages"))
              (some (message_body device text)) ssl)
            s)

  unfoldable pub send_action_ : Option Bytes → Option Bytes → Option Bytes → State W → Reply W
  unfolding codes
  send_action_ access_token device_id action s = given access_token s λ token.
      given device_id s λ device. given action s λ text. with_body res s (
        with_ssl r λ ssl.
          artik_cloud_send http res r
            (token_call post token (artik_cloud_url ssl.se_config (codes "messages"))
              (some (action_body device text)) ssl)
            s)

  unfoldable pub update_device_token_ : Option Bytes → Option Bytes → State W → Reply W
  unfolding codes
  update_device_token_ access_token device_id s = given access_token s λ token.
      given device_id s λ device. with_ssl r λ ssl.
        artik_cloud_send http res r
          (token_call put token (url_to ssl.se_config (device_token_path device))
            (some (codes "{}")) ssl)
          s

  unfoldable pub delete_device_token_ : Option Bytes → Option Bytes → State W → Reply W
  delete_device_token_ access_token device_id s = given access_token s λ token.
      given device_id s λ device. with_ssl r λ ssl.
        artik_cloud_send http res r
          (token_call del token (url_to ssl.se_config (device_token_path device)) none ssl) s

  unfoldable pub delete_device_ : Option Bytes → Option Bytes → State W → Reply W
  delete_device_ access_token device_id s = given access_token s λ token.
      given device_id s λ device. with_ssl r λ ssl.
        artik_cloud_send http res r
          (token_call del token (url_to ssl.se_config (delete_device_path device)) none ssl) s

  unfoldable pub get_device_properties_ : Option Bytes → Option Bytes → Bool → State W → Reply W
  get_device_properties_ access_token device_id timestamp s = given access_token s λ token.
      given device_id s λ device. with_ssl r λ ssl.
        if ssl.se_config
        then some (e_not_supported, none, s)
        else artik_cloud_send http res r
            (token_call get token (url_to ssl.se_config (device_props_path device timestamp)) none
              ssl)
            s

  unfoldable pub set_device_server_properties_ :
      Option Bytes → Option Bytes → Option Bytes → State W → Reply W
  set_device_server_properties_ access_token device_id properties s = given access_token s λ token.
      given device_id s λ device. given properties s λ text. with_ssl r λ ssl. with_body res s (
        artik_cloud_send http res r
          (token_call post token (url_to ssl.se_config (device_serv_props_path device)) (some text)
            ssl)
          s)

  unfoldable pub sdr_start_registration_ : Option Bytes → Option Bytes → State W → Reply W
  unfolding codes sdr_fields
  sdr_start_registration_ device_type_id vendor_id s = given device_type_id s λ type.
      given vendor_id s λ vendor. with_body res s (
        with_ssl r λ ssl.
          artik_cloud_send http res r
            (record {
              method = post;
              url = artik_cloud_url true (codes "cert/devices/registrations");
              headers = sdr_fields;
              body = some (reg_device_body type vendor);
              ssl = ssl;
            })
            s)

  unfoldable pub sdr_registration_status_ : Option Bytes → State W → Reply W
  unfolding accept_field
  sdr_registration_status_ reg_id s = given reg_id s λ reg. with_ssl r λ ssl.
      artik_cloud_send http res r
        (record {
          method = get;
          url = url_to true (reg_status_path reg);
          headers = accept_field;
          body = none;
          ssl = ssl;
        })
        s

  unfoldable pub sdr_complete_registration_ : Option Bytes → Option Bytes → State W → Reply W
  unfolding sdr_fields
  sdr_complete_registration_ reg_id reg_nonce s = given reg_id s λ reg. given reg_nonce s λ nonce.
      with_body res s (
        with_ssl r λ ssl.
          artik_cloud_send http res r
            (record {
              method = put;
              url = url_to true (reg_id_path reg);
              headers = sdr_fields;
              body = some (reg_complete_body nonce);
              ssl = ssl;
            })
            s)
