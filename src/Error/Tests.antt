-- ===== src/Error/Tests.antt =====
-- inc/base/artik_error.h: runs of `error_msg`.
use artik_sdk.Prelude.{◌≡◌, refl}
use artik_sdk.Error.{error_msg, code, e_security_error, e_not_connected}

-- E_SECURITY_ERROR has the code of E_NETWORK_ERROR, and gets its message.
error_msg-security : error_msg (code e_security_error) ≡ "Network error"
unfolding error_msg code
error_msg-security = refl

-- E_NOT_CONNECTED is not in the table.
error_msg-not_connected : error_msg (code e_not_connected) ≡ "null"
unfolding error_msg code
error_msg-not_connected = refl
