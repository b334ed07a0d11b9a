-- ===== src/Error.antt =====
-- inc/base/artik_error.h: the error codes of the SDK and the table of their messages.
mod Tests
use Prim.Native.String.{String}
use mathlib.Core.Option.{get_or}
use artik_sdk.Prelude.{
  ◌≡◌, refl, ◌≢◌, List, [], ◌∷◌, if◌then◌else◌, Option, none, some, Bool, true, false,
}
use artik_sdk.Prelude.Int.{ℤ, pos, negsuc, ◌==◌}

-- The `#define`s, in their order.
pub data ArtikError : Type 0 where
  s_ok e_bad_args e_busy e_not_initialized e_no_mem : ArtikError
  e_not_supported e_overflow e_access_denied e_interrupted e_try_again : ArtikError
  e_timeout e_coap_error e_invalid_value e_not_connected e_http_error : ArtikError
  e_bt_error e_zigbee_error e_zigbee_invalid_daemon e_zigbee_no_daemon e_zigbee_no_message :
      ArtikError
  e_zigbee_no_device e_zigbee_err_sock e_zigbee_msg_send_error e_zigbee_network_exist
        e_websocket_error :
      ArtikError
  e_wifi_error e_wifi_error_authentication e_wifi_error_association e_wifi_error_bad_params
        e_wifi_error_scan_busy :
      ArtikError
  e_lwm2m_error e_lwm2m_disconnection_error e_mqtt_error e_network_error e_security_error :
      ArtikError
  e_security_invalid_x509 e_security_invalid_pkcs7 e_security_ca_verif_failed
        e_security_digest_mismatch e_security_signature_mismatch :
      ArtikError
  e_security_signing_time_rollback e_in_progress : ArtikError

-- The value of each `#define`.
unfoldable pub code : ArtikError → ℤ
code s_ok = pos 0
code e_bad_args = negsuc 0
code e_busy = negsuc 1
code e_not_initialized = negsuc 2
code e_no_mem = negsuc 3
code e_not_supported = negsuc 4
code e_overflow = negsuc 5
code e_access_denied = negsuc 6
code e_interrupted = negsuc 7
code e_try_again = negsuc 8
code e_timeout = negsuc 9
code e_coap_error = negsuc 14
code e_invalid_value = negsuc 10
code e_not_connected = negsuc 12
code e_http_error = negsuc 999
code e_bt_error = negsuc 1999
code e_zigbee_error = negsuc 2999
code e_zigbee_invalid_daemon = negsuc 3000
code e_zigbee_no_daemon = negsuc 3001
code e_zigbee_no_message = negsuc 3002
code e_zigbee_no_device = negsuc 3003
code e_zigbee_err_sock = negsuc 3004
code e_zigbee_msg_send_error = negsuc 3005
code e_zigbee_network_exist = negsuc 3006
code e_websocket_error = negsuc 3999
code e_wifi_error = negsuc 4999
code e_wifi_error_authentication = negsuc 5000
code e_wifi_error_association = negsuc 5001
code e_wifi_error_bad_params = negsuc 5002
code e_wifi_error_scan_busy = negsuc 5003
code e_lwm2m_error = negsuc 5999
code e_lwm2m_disconnection_error = negsuc 6000
code e_mqtt_error = negsuc 17
code e_network_error = negsuc 6999
code e_security_error = negsuc 6999
code e_security_invalid_x509 = negsuc 7000
code e_security_invalid_pkcs7 = negsuc 7001
code e_security_ca_verif_failed = negsuc 7002
code e_security_digest_mismatch = negsuc 7003
code e_security_signature_mismatch = negsuc 7004
code e_security_signing_time_rollback = negsuc 7005
code e_in_progress = negsuc 15

-- `error_msg_strings`
abbrev error_msg_strings : List (ArtikError × String)
error_msg_strings =
    (s_ok, "OK")
    ∷ (e_bad_args, "Bad arguments")
    ∷ (e_busy, "Busy")
    ∷ (e_not_initialized, "Not initialized")
    ∷ (e_no_mem, "No memory")
    ∷ (e_not_supported, "Not supported")
    ∷ (e_overflow, "Overflow")
    ∷ (e_access_denied, "Access denied")
    ∷ (e_interrupted, "Interrupted")
    ∷ (e_http_error, "HTTP error")
    ∷ (e_try_again, "Try again")
    ∷ (e_timeout, "Timeout")
    ∷ (e_websocket_error, "Websocket error")
    ∷ (e_bt_error, "Bluetooth adapter error")
    ∷ (e_wifi_error, "Wi-Fi error")
    ∷ (e_coap_error, "CoAP error")
    ∷ (e_wifi_error_authentication, "Wi-Fi Authentication failed")
    ∷ (e_wifi_error_association, "Wi-Fi Association failed")
    ∷ (e_wifi_error_bad_params, "Wrong Wi-Fi parameters")
    ∷ (e_zigbee_error, "ZigBee error")
    ∷ (e_zigbee_invalid_daemon, "Invalid zigbee daemon")
    ∷ (e_zigbee_no_daemon, "No zigbee daemon")
    ∷ (e_zigbee_no_message, "No zigbee message")
    ∷ (e_zigbee_no_device, "No zigbee device")
    ∷ (e_zigbee_err_sock, "Socket error")
    ∷ (e_zigbee_msg_send_error, "Send message error")
    ∷ (e_zigbee_network_exist, "Network has existed")
    ∷ (e_invalid_value, "Invalid value")
    ∷ (e_lwm2m_error, "LWM2M error")
    ∷ (e_lwm2m_disconnection_error, "LWM2M disconnection")
    ∷ (e_mqtt_error, "MQTT error")
    ∷ (e_network_error, "Network error")
    ∷ (e_security_error, "Security error")
    ∷ (e_security_invalid_x509, "X509 data is not valid")
    ∷ (e_security_invalid_pkcs7, "PKCS7 data is not valid")
    ∷ (e_security_ca_verif_failed, "Certificate verification against CA failed")
    ∷ (e_security_digest_mismatch, "Computed digest mismatch")
    ∷ (e_security_signature_mismatch, "Signature mismatch")
    ∷ (e_security_signing_time_rollback, "Signing time rollback error")
    ∷ (e_in_progress, "Operation in progress")
    ∷ []

-- The loop of `error_msg`: the first entry with the code.
find_msg : ℤ → List (ArtikError × String) → String
unfolding code
find_msg err [] = "null"
find_msg err ((e, msg) ∷ rest) = if code e == err then msg else find_msg err rest

pub error_msg : ℤ → String
unfolding find_msg
error_msg err = find_msg err error_msg_strings

-- The message meant for each error, if it has one.
unfoldable pub message : ArtikError → Option String
message s_ok = some "OK"
message e_bad_args = some "Bad arguments"
message e_busy = some "Busy"
message e_not_initialized = some "Not initialized"
message e_no_mem = some "No memory"
message e_not_supported = some "Not supported"
message e_overflow = some "Overflow"
message e_access_denied = some "Access denied"
message e_interrupted = some "Interrupted"
message e_try_again = some "Try again"
message e_timeout = some "Timeout"
message e_coap_error = some "CoAP error"
message e_invalid_value = some "Invalid value"
message e_not_connected = none
message e_http_error = some "HTTP error"
message e_bt_error = some "Bluetooth adapter error"
message e_zigbee_error = some "ZigBee error"
message e_zigbee_invalid_daemon = some "Invalid zigbee daemon"
message e_zigbee_no_daemon = some "No zigbee daemon"
message e_zigbee_no_message = some "No zigbee message"
message e_zigbee_no_device = some "No zigbee device"
message e_zigbee_err_sock = some "Socket error"
message e_zigbee_msg_send_error = some "Send message error"
message e_zigbee_network_exist = some "Network has existed"
message e_websocket_error = some "Websocket error"
message e_wifi_error = some "Wi-Fi error"
message e_wifi_error_authentication = some "Wi-Fi Authentication failed"
message e_wifi_error_association = some "Wi-Fi Association failed"
message e_wifi_error_bad_params = some "Wrong Wi-Fi parameters"
message e_wifi_error_scan_busy = none
message e_lwm2m_error = some "LWM2M error"
message e_lwm2m_disconnection_error = some "LWM2M disconnection"
message e_mqtt_error = some "MQTT error"
message e_network_error = some "Network error"
message e_security_error = some "Security error"
message e_security_invalid_x509 = some "X509 data is not valid"
message e_security_invalid_pkcs7 = some "PKCS7 data is not valid"
message e_security_ca_verif_failed = some "Certificate verification against CA failed"
message e_security_digest_mismatch = some "Computed digest mismatch"
message e_security_signature_mismatch = some "Signature mismatch"
message e_security_signing_time_rollback = some "Signing time rollback error"
message e_in_progress = some "Operation in progress"

-- For every error but E_SECURITY_ERROR, `error_msg` of its code is the message meant for it, and
-- "null" where none is.
pub error_msg-code :
    (e : ArtikError) → e ≢ e_security_error → error_msg (code e) ≡ get_or (message e) "null"
unfolding error_msg code message
error_msg-code s_ok h = refl
error_msg-code e_bad_args h = refl
error_msg-code e_busy h = refl
error_msg-code e_not_initialized h = refl
error_msg-code e_no_mem h = refl
error_msg-code e_not_supported h = refl
error_msg-code e_overflow h = refl
error_msg-code e_access_denied h = refl
error_msg-code e_interrupted h = refl
error_msg-code e_try_again h = refl
error_msg-code e_timeout h = refl
error_msg-code e_coap_error h = refl
error_msg-code e_invalid_value h = refl
error_msg-code e_not_connected h = refl
error_msg-code e_http_error h = refl
error_msg-code e_bt_error h = refl
error_msg-code e_zigbee_error h = refl
error_msg-code e_zigbee_invalid_daemon h = refl
error_msg-code e_zigbee_no_daemon h = refl
error_msg-code e_zigbee_no_message h = refl
error_msg-code e_zigbee_no_device h = refl
error_msg-code e_zigbee_err_sock h = refl
error_msg-code e_zigbee_msg_send_error h = refl
error_msg-code e_zigbee_network_exist h = refl
error_msg-code e_websocket_error h = refl
error_msg-code e_wifi_error h = refl
error_msg-code e_wifi_error_authentication h = refl
error_msg-code e_wifi_error_association h = refl
error_msg-code e_wifi_error_bad_params h = refl
error_msg-code e_wifi_error_scan_busy h = refl
error_msg-code e_lwm2m_error h = refl
error_msg-code e_lwm2m_disconnection_error h = refl
error_msg-code e_mqtt_error h = refl
error_msg-code e_network_error h = refl
error_msg-code e_security_error h = absurd (h refl)
error_msg-code e_security_invalid_x509 h = refl
error_msg-code e_security_invalid_pkcs7 h = refl
error_msg-code e_security_ca_verif_failed h = refl
error_msg-code e_security_digest_mismatch h = refl
error_msg-code e_security_signature_mismatch h = refl
error_msg-code e_security_signing_time_rollback h = refl
error_msg-code e_in_progress h = refl

-- `err == S_OK`
unfoldable pub is_ok : ArtikError → Bool
is_ok s_ok = true
is_ok _ = false

pub is_ok-s_ok : is_ok s_ok ≡ true
unfolding is_ok
is_ok-s_ok = refl
