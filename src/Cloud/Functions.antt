-- ===== src/Cloud/Functions.antt =====
-- artik_cloud.c: the functions of `cloud_module` over HTTP. Each has a blocking form, which takes the
-- place of the response, and an asynchronous one with `_async` in its name, which takes a callback.
use artik_sdk.Prelude.{ℕ, Bool, true, false, not, ◌||◌, Option, none, some, ◌==◌, if◌then◌else◌}
use artik_sdk.Prelude.Int.{ℤ}
use artik_sdk.Error.{ArtikError, s_ok, e_bad_args, e_security_error}
use artik_sdk.Prelude.Text.{Bytes}
use artik_sdk.Cloud.Http.{Ssl, HttpModule, State, HttpRequest, Resources, Reply, bad_args}
use artik_sdk.Cloud.Requests.{
  get_current_user_profile_, get_user_devices_, get_user_devices_types_,
  get_user_application_properties_, get_device_, get_device_token_, add_device_, send_message_,
  send_action_, update_device_token_, delete_device_token_, delete_device_, get_device_properties_,
  set_device_server_properties_, sdr_start_registration_, sdr_registration_status_,
  sdr_complete_registration_,
}

-- How a function is called: with the place of the response, or with a callback (0 is NULL).
pub data Form : Type 0 where
  blocking : Bool → Form
  async : ℕ → ℕ → Form

-- The `artik_cloud_http_request` that the function makes.
abbrev pub request_of : Form → Option Ssl → HttpRequest
request_of (blocking response) ssl = record {
  response = response;
  callback = 0;
  user_data = 0;
  ssl_config = ssl;
}
request_of (async callback user_data) ssl = record {
  response = false;
  callback = callback;
  user_data = user_data;
  ssl_config = ssl;
}

-- `!response`, or `!callback`.
abbrev pub is_unanswerable : Form → Bool
is_unanswerable (blocking response) = not response
is_unanswerable (async callback user_data) = callback == 0

abbrev pub is_null : Option Ssl → Bool
is_null none = true
is_null (some ssl) = false

-- `_sdr_fill_ssl_config`: the certificate comes from the security module, which is requested and
-- released here.
unfoldable pub sdr_fill_ssl_config : Option Bool → Option ℕ → ArtikError × Option Ssl
sdr_fill_ssl_config none certificate = (e_bad_args, none)
sdr_fill_ssl_config (some false) certificate = (e_bad_args, none)
sdr_fill_ssl_config (some true) none = (e_security_error, none)
sdr_fill_ssl_config (some true) (some c) = (s_ok, some (record { se_config = true; rest = c }))

module _ {W : Type 0} where
  -- `if (!response || !ssl) return E_BAD_ARGS`
  abbrev pub checked : Form → Option Ssl → State W → (HttpRequest → Reply W) → Reply W
  checked form ssl s k =
      if is_unanswerable form || is_null ssl then bad_args s else k (request_of form ssl)

  -- The functions that do not test `ssl`.
  abbrev pub half_checked : Form → Option Ssl → State W → (HttpRequest → Reply W) → Reply W
  half_checked form ssl s k = if is_unanswerable form then bad_args s else k (request_of form ssl)

  abbrev pub filled : Form → State W → (HttpRequest → Reply W) → ArtikError × Option Ssl → Reply W
  filled form s k (err, none) = some (err, none, s)
  filled form s k (err, some ssl) = k (request_of form (some ssl))

  -- The registration functions: the configuration is filled behind the test of the form.
  abbrev pub secured : Resources → Form → Option Bool → State W → (HttpRequest → Reply W) → Reply W
  secured res form se s k =
      if is_unanswerable form
      then bad_args s
      else filled form s k (sdr_fill_ssl_config se res.certificate)

  abbrev pub get_current_user_profile :
      HttpModule W → Resources → Form → Option Ssl → Option Bytes → State W → Reply W
  get_current_user_profile http res f ssl token s =
      checked f ssl s λ r. get_current_user_profile_ http res r token s

  abbrev pub get_user_devices :
      HttpModule W
      → Resources
      → Form
      → Option Ssl
      → Option Bytes
      → ℤ
      → Bool
      → ℤ
      → Option Bytes
      → State W
      → Reply W
  get_user_devices http res f ssl token count properties offset user s =
      checked f ssl s λ r. get_user_devices_ http res r token count properties offset user s

  abbrev pub get_user_device_types :
      HttpModule W
      → Resources
      → Form
      → Option Ssl
      → Option Bytes
      → ℤ
      → Bool
      → ℤ
      → Option Bytes
      → State W
      → Reply W
  get_user_device_types http res f ssl token count shared offset user s =
      checked f ssl s λ r. get_user_devices_types_ http res r token count shared offset user s

  abbrev pub get_user_application_properties :
      HttpModule W
      → Resources
      → Form
      → Option Ssl
      → Option Bytes
      → Option Bytes
      → Option Bytes
      → State W
      → Reply W
  get_user_application_properties http res f ssl token user app s =
      half_checked f ssl s λ r. get_user_application_properties_ http res r token user app s

  abbrev pub get_device :
      HttpModule W
      → Resources
      → Form
      → Option Ssl
      → Option Bytes
      → Option Bytes
      → Bool
      → State W
      → Reply W
  get_device http res f ssl token device properties s =
      checked f ssl s λ r. get_device_ http res r token device properties s

  abbrev pub get_device_properties :
      HttpModule W
      → Resources
      → Form
      → Option Ssl
      → Option Bytes
      → Option Bytes
      → Bool
      → State W
      → Reply W
  get_device_properties http res f ssl token device timestamp s =
      checked f ssl s λ r. get_device_properties_ http res r token device timestamp s

  abbrev pub get_device_token :
      HttpModule W → Resources → Form → Option Ssl → Option Bytes → Option Bytes → State W → Reply W
  get_device_token http res f ssl token device s =
      checked f ssl s λ r. get_device_token_ http res r token device s

  abbrev pub update_device_token :
      HttpModule W → Resources → Form → Option Ssl → Option Bytes → Option Bytes → State W → Reply W
  update_device_token http res f ssl token device s =
      checked f ssl s λ r. update_device_token_ http res r token device s

  abbrev pub delete_device_token :
      HttpModule W → Resources → Form → Option Ssl → Option Bytes → Option Bytes → State W → Reply W
  delete_device_token http res f ssl token device s =
      checked f ssl s λ r. delete_device_token_ http res r token device s

  abbrev pub delete_device :
      HttpModule W → Resources → Form → Option Ssl → Option Bytes → Option Bytes → State W → Reply W
  delete_device http res f ssl token device s =
      checked f ssl s λ r. delete_device_ http res r token device s

  abbrev pub add_device :
      HttpModule W
      → Resources
      → Form
      → Option Ssl
      → Option Bytes
      → Option Bytes
      → Option Bytes
      → Option Bytes
      → State W
      → Reply W
  add_device http res f ssl token user dt name s =
      checked f ssl s λ r. add_device_ http res r token user dt name s

  abbrev pub send_message :
      HttpModule W
      → Resources
      → Form
      → Option Ssl
      → Option Bytes
      → Option Bytes
      → Option Bytes
      → State W
      → Reply W
  send_message http res f ssl token device message s =
      checked f ssl s λ r. send_message_ http res r token device message s

  abbrev pub send_action :
      HttpModule W
      → Resources
      → Form
      → Option Ssl
      → Option Bytes
      → Option Bytes
      → Option Bytes
      → State W
      → Reply W
  send_action http res f ssl token device action s =
      checked f ssl s λ r. send_action_ http res r token device action s

  abbrev pub set_device_server_properties :
      HttpModule W
      → Resources
      → Form
      → Option Ssl
      → Option Bytes
      → Option Bytes
      → Option Bytes
      → State W
      → Reply W
  set_device_server_properties http res f ssl token device properties s =
      checked f ssl s λ r. set_device_server_properties_ http res r token device properties s

  abbrev pub sdr_start_registration :
      HttpModule W
      → Resources
      → Form
      → Option Bool
      → Option Bytes
      → Option Bytes
      → State W
      → Reply W
  sdr_start_registration http res f se type vendor s =
      secured res f se s λ r. sdr_start_registration_ http res r type vendor s

  abbrev pub sdr_complete_registration :
      HttpModule W
      → Resources
      → Form
      → Option Bool
      → Option Bytes
      → Option Bytes
      → State W
      → Reply W
  sdr_complete_registration http res f se reg reg_nonce s =
      secured res f se s λ r. sdr_complete_registration_ http res r reg reg_nonce s

  abbrev pub sdr_registration_status :
      HttpModule W → Resources → Form → Option Bool → Option Bytes → State W → Reply W
  sdr_registration_status http res f se reg s =
      secured res f se s λ r. sdr_registration_status_ http res r reg s
