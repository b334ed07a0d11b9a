-- ===== src/Modules/Platform.antt =====
-- linux_module.c: the platform that the process runs on, and the table of its modules.
use artik_sdk.Prelude.{
  ℕ, Bool, true, false, ◌||◌, Option, none, some, List, [], ◌∷◌, ◌==◌, if◌then◌else◌, length,
  get_elem?,
}
use artik_sdk.Prelude.Text.{Bytes, codes}
use artik_sdk.Error.{ArtikError, s_ok, e_bad_args, e_not_supported}
use artik_sdk.Modules.{ApiModule, begins_with}

-- The platforms, in the order of their ids.
abbrev pub generic : ℕ
generic = 0

abbrev pub artik520 : ℕ
artik520 = 1

abbrev pub artik1020 : ℕ
artik1020 = 2

abbrev pub artik710 : ℕ
artik710 = 3

abbrev pub artik530 : ℕ
artik530 = 4

abbrev pub artik305 : ℕ
artik305 = 6

abbrev pub eagleye530 : ℕ
eagleye530 = 7

unfoldable pub artik_platform_name : List Bytes
unfolding codes
artik_platform_name =
    codes "Generic"
    ∷ codes "ARTIK 520"
    ∷ codes "ARTIK 1020"
    ∷ codes "ARTIK 710"
    ∷ codes "ARTIK 530"
    ∷ codes "ARTIK 05x"
    ∷ codes "ARTIK 305"
    ∷ codes "Eagleye530"
    ∷ []

-- Whether `strstr(text, needle)` finds it.
unfoldable pub contains : Bytes → Bytes → Bool
contains [] needle = begins_with [] needle
contains (x ∷ text) needle = begins_with (x ∷ text) needle || contains text needle

-- The tests of the model's name, in their order.
unfoldable pub platform_of : Bytes → ℕ
unfolding codes contains
platform_of line =
    if contains line (codes "ARTIK5")
    then artik520
    else if contains line (codes "ARTIK10")
    then artik1020
    else if contains line (codes "artik710")
    then artik710
    else if contains line (codes "compy")
    then eagleye530
    else if contains line (codes "artik530")
    then artik530
    else if contains line (codes "artik305")
    then artik305
    else generic

-- `artik_platform_id` is `none` while it is -1. `model` is what opening /proc/device-tree/model gives:
-- no file, a file without a line, or its first line, of 255 bytes at most.
unfoldable pub os_get_platform : Option ℕ → Option (Option Bytes) → Option ℕ × Option ℕ
unfolding platform_of
os_get_platform (some id) model = (some id, some id)
os_get_platform none none = (none, none)
os_get_platform none (some none) = (none, none)
os_get_platform none (some (some line)) = (some (platform_of line), some (platform_of line))

-- `name` is whether that pointer is set; the text is what is written there.
pub os_get_platform_name : Option ℕ → Bool → ArtikError × Option Bytes
unfolding artik_platform_name
os_get_platform_name none name = (e_not_supported, none)
os_get_platform_name (some id) false = (e_bad_args, none)
os_get_platform_name (some id) true = (s_ok, get_elem? artik_platform_name id)

-- The table and how many rows it has; `places` is whether both pointers are set.
pub os_get_available_modules :
    Option (List ApiModule) → Bool → ArtikError × Option (List ApiModule × ℕ)
os_get_available_modules none places = (e_not_supported, none)
os_get_available_modules (some table) false = (e_bad_args, none)
os_get_available_modules (some table) true = (s_ok, some (table, length table))

pub find_id : ℕ → List ApiModule → Bool
find_id id [] = false
find_id id (row ∷ rows) = if row.id == id then true else find_id id rows

pub os_is_module_available : Option (List ApiModule) → ℕ → Bool
unfolding find_id
os_is_module_available none id = false
os_is_module_available (some table) id = find_id id table

abbrev row_of : ℕ → Bytes → Bytes → ApiModule
row_of id name object = record { id = id; name = name; object = object }

-- The modules of the generic platform, by the places of their ids in `artik_module_id_t`.
unfoldable pub artik_api_generic_modules : List ApiModule
unfolding codes
artik_api_generic_modules =
    row_of 0 (codes "log") (codes "base")
    ∷ row_of 1 (codes "loop") (codes "base")
    ∷ row_of 21 (codes "utils") (codes "base")
    ∷ row_of 2 (codes "gpio") (codes "systemio")
    ∷ row_of 3 (codes "i2c") (codes "systemio")
    ∷ row_of 4 (codes "serial") (codes "systemio")
    ∷ row_of 5 (codes "pwm") (codes "systemio")
    ∷ row_of 6 (codes "adc") (codes "systemio")
    ∷ row_of 7 (codes "http") (codes "connectivity")
    ∷ row_of 8 (codes "cloud") (codes "connectivity")
    ∷ row_of 9 (codes "wifi") (codes "wifi")
    ∷ row_of 10 (codes "media") (codes "media")
    ∷ row_of 11 (codes "time") (codes "base")
    ∷ row_of 12 (codes "security") (codes "base")
    ∷ row_of 13 (codes "spi") (codes "systemio")
    ∷ row_of 14 (codes "bluetooth") (codes "bluetooth")
    ∷ row_of 15 (codes "sensor") (codes "sensor")
    ∷ row_of 16 (codes "zigbee") (codes "zigbee")
    ∷ row_of 17 (codes "network") (codes "connectivity")
    ∷ row_of 18 (codes "websocket") (codes "connectivity")
    ∷ row_of 19 (codes "lwm2m") (codes "lwm2m")
    ∷ row_of 20 (codes "mqtt") (codes "mqtt")
    ∷ row_of 22 (codes "coap") (codes "coap")
    ∷ []
