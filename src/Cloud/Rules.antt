-- ===== src/Cloud/Rules.antt =====
-- artik_cloud.c: what every function of the module comes down to, as a rule to reason by.
use artik_sdk.Prelude.{
  ℕ, Bool, true, false, ◌||◌, ◌≡◌, refl, sym, ap, ◌∙◌, Option, none, some, List, [], ◌∷◌, ◌++◌,
  if◌then◌else◌, take,
}
use artik_sdk.Error.{ArtikError, e_bad_args, e_no_mem, e_not_supported, is_ok}
use artik_sdk.Prelude.Text.{Bytes, codes}
use artik_sdk.Cloud.Text.{artik_cloud_url}
use artik_sdk.Cloud.Http.{
  Ssl, Method, del, put, post, get, Call, HttpModule, State, HttpRequest, Resources, Reply,
  bad_args, artik_cloud_send,
}
use artik_sdk.Cloud.Requests.{
  token_fields, sdr_fields, accept_field, is_bad_page, url_to, given, with_ssl, with_body,
  token_call, get_current_user_profile_, get_user_devices_, get_user_devices_types_,
  get_user_application_properties_, get_device_, get_device_token_, add_device_, send_message_,
  send_action_, update_device_token_, delete_device_token_, delete_device_, get_device_properties_,
  set_device_server_properties_, sdr_start_registration_, sdr_registration_status_,
  sdr_complete_registration_,
}
use artik_sdk.Cloud.Functions.{
  blocking, async, Form, is_unanswerable, is_null, request_of, filled, sdr_fill_ssl_config,
}
use artik_sdk.Cloud.Api.{
  get_current_user_profile, get_user_devices, get_user_device_types,
  get_user_application_properties, get_device, get_device_properties, get_device_token,
  update_device_token, delete_device_token, delete_device, add_device, send_message, send_action,
  set_device_server_properties, sdr_start_registration, sdr_complete_registration,
  sdr_registration_status, Command, run_command,
}

-- The host of the cloud, and its secure host.
unfoldable pub host_of : Bool → Bytes
unfolding codes
host_of false = codes "https://api.artik.cloud/v1.1/"
host_of true = codes "https://s-api.artik.cloud/v1.1/"

-- A URL that begins with the host for this setting of `se_config`.
abbrev pub IsAt : Bool → Bytes → Type 0
IsAt se url = (path : Bytes) × (url ≡ host_of se ++ path)

-- The token as it is sent, in a text of 127 bytes at most.
unfoldable pub authorization : Bytes → Bytes
unfolding codes
authorization token = take 127 (codes "Bearer " ++ token)

-- The headers of a call with a token.
unfoldable pub headers_for : Bytes → List (Bytes × Bytes)
unfolding authorization codes
headers_for token =
    (codes "Authorization", authorization token)
    ∷ (codes "Content-Type", codes "application/json")
    ∷ []

url_to-IsAt : (se : Bool) (path : Bytes) → IsAt se (url_to se path)
unfolding artik_cloud_url host_of
url_to-IsAt true path = (take 224 path, refl)
url_to-IsAt false path = (take 226 path, refl)

-- What a call with a token carries: that token, the configuration that was given, and a URL on the
-- host that it asks for.
pub record IsFor (token : Option Bytes) (ssl : Option Ssl) (call : Call) : Type 0 where
  pub text : Bytes
  pub token_given : token ≡ some text
  pub headers : call.headers ≡ headers_for text
  pub configured : ssl ≡ some call.ssl
  pub host : IsAt call.ssl.se_config call.url

-- What a call of the registration carries: the configuration of the secure element, and a URL on the
-- secure host.
pub record IsSecured (se : Option Bool) (certificate : Option ℕ) (call : Call) : Type 0 where
  pub key_given : se ≡ some true
  pub certified : certificate ≡ some call.ssl.rest
  pub secured : call.ssl.se_config ≡ true
  pub host : IsAt true call.url

-- The call of a command.
abbrev pub IsCallOf : Resources → Command → Call → Type 0
IsCallOf res (get_current_user_profile f ssl token) = IsFor token ssl
IsCallOf res (get_user_devices f ssl token count properties offset user) = IsFor token ssl
IsCallOf res (get_user_device_types f ssl token count shared offset user) = IsFor token ssl
IsCallOf res (get_user_application_properties f ssl token user app) = IsFor token ssl
IsCallOf res (get_device f ssl token device properties) = IsFor token ssl
IsCallOf res (get_device_properties f ssl token device timestamp) = IsFor token ssl
IsCallOf res (get_device_token f ssl token device) = IsFor token ssl
IsCallOf res (update_device_token f ssl token device) = IsFor token ssl
IsCallOf res (delete_device_token f ssl token device) = IsFor token ssl
IsCallOf res (delete_device f ssl token device) = IsFor token ssl
IsCallOf res (add_device f ssl token user dt name) = IsFor token ssl
IsCallOf res (send_message f ssl token device message) = IsFor token ssl
IsCallOf res (send_action f ssl token device action) = IsFor token ssl
IsCallOf res (set_device_server_properties f ssl token device properties) = IsFor token ssl
IsCallOf res (sdr_start_registration f se type vendor) = IsSecured se res.certificate
IsCallOf res (sdr_complete_registration f se reg reg_nonce) = IsSecured se res.certificate
IsCallOf res (sdr_registration_status f se reg) = IsSecured se res.certificate

ssl_config-request_of : (f : Form) (ssl : Option Ssl) → (request_of f ssl).ssl_config ≡ ssl
ssl_config-request_of (blocking response) ssl = refl
ssl_config-request_of (async callback user_data) ssl = refl

token_fields_lem : (token : Bytes) → token_fields token ≡ headers_for token
unfolding token_fields headers_for
token_fields_lem token = refl

IsFor-call :
    (token : Option Bytes) (ssl : Option Ssl) (t : Bytes) (c : Ssl) (m : Method) (url : Bytes)
    (body : Option Bytes)
    → token ≡ some t
    → ssl ≡ some c
    → IsAt c.se_config url
    → IsFor token ssl (token_call m t url body c)
IsFor-call token ssl t c m url body e f h = record {
  text = t;
  token_given = e;
  headers = token_fields_lem t;
  configured = f;
  host = h;
}

url-IsAt : (se : Bool) (path : Bytes) → IsAt se (artik_cloud_url se path)
unfolding artik_cloud_url host_of
url-IsAt false path = (path, refl)
url-IsAt true path = (path, refl)

IsSecured-call :
    (se : Option Bool) (certificate : Option ℕ) (c : Ssl) (m : Method) (url : Bytes)
    (headers : List (Bytes × Bytes)) (body : Option Bytes)
    → (sdr_fill_ssl_config se certificate).1 ≡ some c
    → IsAt true url
    → IsSecured se certificate
        (record { method = m; url = url; headers = headers; body = body; ssl = c })
unfolding sdr_fill_ssl_config
IsSecured-call none certificate c m url headers body e h = cc
IsSecured-call (some false) certificate c m url headers body e h = cc
IsSecured-call (some true) none c m url headers body e h = cc
IsSecured-call (some true) (some k) c m url headers body e h = record {
  key_given = refl;
  certified = ap some (cc);
  secured = cc;
  host = h;
}

not_filled :
    (se : Option Bool) (certificate : Option ℕ)
    → (sdr_fill_ssl_config se certificate).1 ≡ none
    → is_ok (sdr_fill_ssl_config se certificate).0 ≡ false
unfolding sdr_fill_ssl_config is_ok
not_filled none certificate e = refl
not_filled (some false) certificate e = refl
not_filled (some true) none e = refl
not_filled (some true) (some k) e = cc

module _ {W : Type 0} (s : State W) (P : Reply W → Type 0)
    (failed : (err : ArtikError) → is_ok err ≡ false → P (some (err, none, s)))
    (faulted : P none) where
  bad-rule : P (bad_args s)
  unfolding bad_args is_ok
  bad-rule = failed e_bad_args refl

  if-rule : (b : Bool) (x y : Reply W) → P x → P y → P (if b then x else y)
  if-rule true x y p q = p
  if-rule false x y p q = q

  given-rule :
      (o : Option Bytes) (k : Bytes → Reply W)
      → ((t : Bytes) → o ≡ some t → P (k t))
      → P (given o s k)
  given-rule none k h = bad-rule
  given-rule (some t) k h = h t refl

  body-rule : (res : Resources) (x : Reply W) → P x → P (with_body res s x)
  unfolding is_ok
  body-rule res x h = if-rule res.body x (some (e_no_mem, none, s)) h (failed e_no_mem refl)

  unsupported : P (some (e_not_supported, none, s))
  unfolding is_ok
  unsupported = failed e_not_supported refl

  option-rule :
      (o : Option Ssl) (k : Ssl → Reply W)
      → ((c : Ssl) → o ≡ some c → P (k c))
      → P (elim o [ none ↦ none | some c ↦ k c ])
  option-rule none k h = faulted
  option-rule (some c) k h = h c refl

  ssl-rule :
      (f : Form) (ssl : Option Ssl) (k : Ssl → Reply W)
      → ((c : Ssl) → ssl ≡ some c → P (k c))
      → P (with_ssl (request_of f ssl) k)
  ssl-rule f ssl k h =
      option-rule (request_of f ssl).ssl_config k λ c e. h c (sym (ssl_config-request_of f ssl) ∙ e)

  filled-rule :
      (f : Form) (r : ArtikError × Option Ssl) (k : HttpRequest → Reply W)
      → (r.1 ≡ none → is_ok r.0 ≡ false)
      → ((c : Ssl) → r.1 ≡ some c → P (k (request_of f (some c))))
      → P (filled f s k r)
  filled-rule f (err, none) k bad h = failed err (bad refl)
  filled-rule f (err, some c) k bad h = h c refl

  -- A property of replies that holds of every failure without a call, of a fault, and of every call
  -- of the command that is sent, holds of what the command replies.
  pub run_command-rule :
      (http : HttpModule W) (res : Resources) (c : Command)
      → ((r : HttpRequest) (call : Call)
          → IsCallOf res c call
          → P (artik_cloud_send http res r call s))
      → P (run_command http res c s)
  unfolding run_command get_current_user_profile_ get_user_devices_ get_user_devices_types_
      get_user_application_properties_ get_device_ get_device_token_ add_device_ send_message_
      send_action_ update_device_token_ delete_device_token_ delete_device_ get_device_properties_
      set_device_server_properties_ sdr_start_registration_ sdr_registration_status_
      sdr_complete_registration_
  run_command-rule http res (get_current_user_profile f ssl token) sent =
      if-rule (is_unanswerable f || is_null ssl) _ _ bad-rule (
        given-rule token _ λ t e. ssl-rule f ssl _ λ c g.
          sent (request_of f ssl) _
            (IsFor-call token ssl t c get _ none e g (url-IsAt c.se_config _)))
  run_command-rule http res (get_user_devices f ssl token count properties offset user) sent =
      if-rule (is_unanswerable f || is_null ssl) _ _ bad-rule (
        given-rule token _ λ t e. given-rule user _ λ u1 _.
          if-rule (is_bad_page count offset) _ _ bad-rule (
            ssl-rule f ssl _ λ c g.
              sent (request_of f ssl) _
                (IsFor-call token ssl t c get _ none e g (url_to-IsAt c.se_config _))))
  run_command-rule http res (get_user_device_types f ssl token count shared offset user) sent =
      if-rule (is_unanswerable f || is_null ssl) _ _ bad-rule (
        given-rule token _ λ t e. given-rule user _ λ u1 _.
          if-rule (is_bad_page count offset) _ _ bad-rule (
            ssl-rule f ssl _ λ c g.
              sent (request_of f ssl) _
                (IsFor-call token ssl t c get _ none e g (url_to-IsAt c.se_config _))))
  run_command-rule http res (get_user_application_properties f ssl token user app) sent =
      if-rule (is_unanswerable f) _ _ bad-rule (
        given-rule token _ λ t e. given-rule user _ λ u1 _. given-rule app _ λ u2 _.
          ssl-rule f ssl _ λ c g.
            sent (request_of f ssl) _
              (IsFor-call token ssl t c get _ none e g (url_to-IsAt c.se_config _)))
  run_command-rule http res (get_device f ssl token device properties) sent =
      if-rule (is_unanswerable f || is_null ssl) _ _ bad-rule (
        given-rule token _ λ t e. given-rule device _ λ u1 _. ssl-rule f ssl _ λ c g.
          sent (request_of f ssl) _
            (IsFor-call token ssl t c get _ none e g (url_to-IsAt c.se_config _)))
  run_command-rule http res (get_device_properties f ssl token device timestamp) sent =
      if-rule (is_unanswerable f || is_null ssl) _ _ bad-rule (
        given-rule token _ λ t e. given-rule device _ λ u1 _. ssl-rule f ssl _ λ c g.
          if-rule c.se_config _ _ unsupported (
            sent (request_of f ssl) _
              (IsFor-call token ssl t c get _ none e g (url_to-IsAt c.se_config _))))
  run_command-rule http res (get_device_token f ssl token device) sent =
      if-rule (is_unanswerable f || is_null ssl) _ _ bad-rule (
        given-rule token _ λ t e. given-rule device _ λ u1 _. ssl-rule f ssl _ λ c g.
          sent (request_of f ssl) _
            (IsFor-call token ssl t c get _ none e g (url_to-IsAt c.se_config _)))
  run_command-rule http res (update_device_token f ssl token device) sent =
      if-rule (is_unanswerable f || is_null ssl) _ _ bad-rule (
        given-rule token _ λ t e. given-rule device _ λ u1 _. ssl-rule f ssl _ λ c g.
          sent (request_of f ssl) _
            (IsFor-call token ssl t c put _ _ e g (url_to-IsAt c.se_config _)))
  run_command-rule http res (delete_device_token f ssl token device) sent =
      if-rule (is_unanswerable f || is_null ssl) _ _ bad-rule (
        given-rule token _ λ t e. given-rule device _ λ u1 _. ssl-rule f ssl _ λ c g.
          sent (request_of f ssl) _
            (IsFor-call token ssl t c del _ none e g (url_to-IsAt c.se_config _)))
  run_command-rule http res (delete_device f ssl token device) sent =
      if-rule (is_unanswerable f || is_null ssl) _ _ bad-rule (
        given-rule token _ λ t e. given-rule device _ λ u1 _. ssl-rule f ssl _ λ c g.
          sent (request_of f ssl) _
            (IsFor-call token ssl t c del _ none e g (url_to-IsAt c.se_config _)))
  run_command-rule http res (add_device f ssl token user dt name) sent =
      if-rule (is_unanswerable f || is_null ssl) _ _ bad-rule (
        given-rule token _ λ t e. given-rule user _ λ u1 _. given-rule dt _ λ u2 _.
          given-rule name _ λ u3 _. body-rule res _ (
            ssl-rule f ssl _ λ c g.
              sent (request_of f ssl) _
                (IsFor-call token ssl t c post _ _ e g (url-IsAt c.se_config _))))
  run_command-rule http res (send_message f ssl token device message) sent =
      if-rule (is_unanswerable f || is_null ssl) _ _ bad-rule (
        given-rule token _ λ t e. given-rule device _ λ u1 _. given-rule message _ λ u2 _.
          body-rule res _ (
            ssl-rule f ssl _ λ c g.
              sent (request_of f ssl) _
                (IsFor-call token ssl t c post _ _ e g (url-IsAt c.se_config _))))
  run_command-rule http res (send_action f ssl token device action) sent =
      if-rule (is_unanswerable f || is_null ssl) _ _ bad-rule (
        given-rule token _ λ t e. given-rule device _ λ u1 _. given-rule action _ λ u2 _.
          body-rule res _ (
            ssl-rule f ssl _ λ c g.
              sent (request_of f ssl) _
                (IsFor-call token ssl t c post _ _ e g (url-IsAt c.se_config _))))
  run_command-rule http res (set_device_server_properties f ssl token device properties) sent =
      if-rule (is_unanswerable f || is_null ssl) _ _ bad-rule (
        given-rule token _ λ t e. given-rule device _ λ u1 _. given-rule properties _ λ u2 _.
          ssl-rule f ssl _ λ c g. body-rule res _ (
            sent (request_of f ssl) _
              (IsFor-call token ssl t c post _ _ e g (url_to-IsAt c.se_config _))))
  run_command-rule http res (sdr_start_registration f se type vendor) sent =
      if-rule (is_unanswerable f) _ _ bad-rule (
        filled-rule f (sdr_fill_ssl_config se res.certificate)
          (λ r. sdr_start_registration_ http res r type vendor s) (not_filled se res.certificate)
          λ c e. given-rule type _ λ u0 _. given-rule vendor _ λ u1 _. body-rule res _ (
            ssl-rule f (some c) _ λ d g.
              sent (request_of f (some c)) _ (
                IsSecured-call se res.certificate d post _ sdr_fields _ (e ∙ g) (url-IsAt true _))))
  run_command-rule http res (sdr_complete_registration f se reg reg_nonce) sent =
      if-rule (is_unanswerable f) _ _ bad-rule (
        filled-rule f (sdr_fill_ssl_config se res.certificate)
          (λ r. sdr_complete_registration_ http res r reg reg_nonce s)
          (not_filled se res.certificate)
          λ c e. given-rule reg _ λ u0 _. given-rule reg_nonce _ λ u1 _. body-rule res _ (
            ssl-rule f (some c) _ λ d g. sent (request_of f (some c)) _ (
              IsSecured-call se res.certificate d put _ sdr_fields _ (e ∙ g) (url_to-IsAt true _))))
  run_command-rule http res (sdr_registration_status f se reg) sent =
      if-rule (is_unanswerable f) _ _ bad-rule (
        filled-rule f (sdr_fill_ssl_config se res.certificate)
          (λ r. sdr_registration_status_ http res r reg s) (not_filled se res.certificate)
          λ c e. given-rule reg _ λ u0 _. ssl-rule f (some c) _ λ d g.
            sent (request_of f (some c)) _ (
              IsSecured-call se res.certificate d get _ accept_field _ (e ∙ g)
                (url_to-IsAt true _)))
