-- ===== src/Cloud/Text.antt =====
-- artik_cloud.c: the texts of its requests.
use artik_sdk.Prelude.Text.{Bytes, codes}
use artik_sdk.Prelude.{
  ℕ, zero, suc, ◌+◌, ◌/◌, ◌%◌, Bool, true, false, [], ◌∷◌, ◌++◌, ltb, if◌then◌else◌,
}

-- `%d` of a number that is not negative, in at most `fuel` digits in front of `rest`.
pub digits : ℕ → ℕ → Bytes → Bytes
digits zero n rest = rest
digits (suc fuel) n rest =
    let more = digits fuel (n / 10) ((b'0' + n % 10) ∷ rest) in
    if ltb n 10 then (b'0' + n % 10) ∷ rest else more

-- An `int` has ten digits at most.
unfoldable pub decimal : ℕ → Bytes
unfolding digits
decimal n = digits 10 n []

-- `properties ? "true" : "false"`
unfoldable pub boolean : Bool → Bytes
unfolding codes
boolean true = codes "true"
boolean false = codes "false"

abbrev pub artik_cloud_url_max : ℕ
artik_cloud_url_max = 256

abbrev pub artik_cloud_token_max : ℕ
artik_cloud_token_max = 128

-- `ARTIK_CLOUD_URL` and `ARTIK_CLOUD_SECURE_URL`, by `se_config ?`.
unfoldable pub artik_cloud_url : Bool → Bytes → Bytes
unfolding codes
artik_cloud_url false x = codes "https://api.artik.cloud/v1.1/" ++ x
artik_cloud_url true x = codes "https://s-api.artik.cloud/v1.1/" ++ x

-- The formats of the URLs behind that part, in the order of the `#define`s.
unfoldable pub user_devices_path : Bytes → ℕ → Bool → ℕ → Bytes
unfolding codes boolean decimal
user_devices_path user count properties offset =
    codes "users/"
    ++ (user
        ++ (codes "/devices?count="
            ++ (decimal count
                ++ (codes "&includeProperties="
                    ++ (boolean properties ++ (codes "&offset=" ++ decimal offset))))))

unfoldable pub user_device_types_path : Bytes → ℕ → Bool → ℕ → Bytes
unfolding codes boolean decimal
user_device_types_path user count shared offset =
    codes "users/"
    ++ (user
        ++ (codes "/devicetypes?count="
            ++ (decimal count
                ++ (codes "&includeShared="
                    ++ (boolean shared ++ (codes "&offset=" ++ decimal offset))))))

unfoldable pub user_app_props_path : Bytes → Bytes → Bytes
unfolding codes
user_app_props_path user app = codes "users/" ++ (user ++ (codes "/properties?aid=" ++ app))

unfoldable pub get_device_path : Bytes → Bool → Bytes
unfolding codes boolean
get_device_path device properties =
    codes "devices/" ++ (device ++ (codes "?properties=" ++ boolean properties))

unfoldable pub delete_device_path : Bytes → Bytes
unfolding codes
delete_device_path device = codes "devices/" ++ device

unfoldable pub device_token_path : Bytes → Bytes
unfolding codes
device_token_path device = codes "devices/" ++ (device ++ codes "/tokens")

unfoldable pub device_props_path : Bytes → Bool → Bytes
unfolding codes boolean
device_props_path device timestamp =
    codes "devicemgmt/devices/"
    ++ (device ++ (codes "/properties?includeTimestamp=" ++ boolean timestamp))

unfoldable pub device_serv_props_path : Bytes → Bytes
unfolding codes
device_serv_props_path device = codes "devicemgmt/devices/" ++ (device ++ codes "/serverproperties")

unfoldable pub reg_id_path : Bytes → Bytes
unfolding codes
reg_id_path reg = codes "cert/devices/registrations/" ++ reg

unfoldable pub reg_status_path : Bytes → Bytes
unfolding codes
reg_status_path reg = codes "cert/devices/registrations/" ++ (reg ++ codes "/status")

-- The bodies. The arguments are put in as they are.
unfoldable pub add_device_body : Bytes → Bytes → Bytes → Bytes
unfolding codes
add_device_body user dt name =
    codes "{\"uid\": \""
    ++ (user
        ++ (codes "\", \"dtid\": \""
            ++ (dt
                ++ (codes "\",\"name\": \""
                    ++ (name ++ codes "\", \"manifestVersionPolicy\": \"LATEST\"}")))))

unfoldable pub message_body : Bytes → Bytes → Bytes
unfolding codes
message_body device message =
    codes "{\"type\": \"message\",\"sdid\": \""
    ++ (device ++ (codes "\",\"data\": " ++ (message ++ codes "}")))

unfoldable pub action_body : Bytes → Bytes → Bytes
unfolding codes
action_body device action =
    codes "{\"type\": \"action\",\"ddid\": \""
    ++ (device ++ (codes "\",\"data\": " ++ (action ++ codes "}")))

unfoldable pub reg_device_body : Bytes → Bytes → Bytes
unfolding codes
reg_device_body type vendor =
    codes "{\"deviceTypeId\":\""
    ++ (type ++ (codes "\",\"vendorDeviceId\":\"" ++ (vendor ++ codes "\"}")))

unfoldable pub reg_complete_body : Bytes → Bytes
unfolding codes
reg_complete_body nonce = codes "{\"nonce\":\"" ++ (nonce ++ codes "\"}")
