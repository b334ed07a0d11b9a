-- ===== src/Modules/Tests.antt =====
-- Runs of requests and releases of the modules of the generic platform.
use artik_sdk.Prelude.{◌≡◌, refl, none, some, [], ◌∷◌}
use artik_sdk.Prelude.Text.{Bytes, codes}
use artik_sdk.Error.{s_ok, is_ok}
use artik_sdk.ArtikList.{add, delete_check, new_node}
use artik_sdk.Modules.{
  Loaded, System, find_module, find_name, os_request_api_module, os_release_api_module,
}
use artik_sdk.Modules.Platform.{artik_api_generic_modules, os_get_platform}
use artik_sdk.Modules.Entries.{Entry}
use artik_sdk.Modules.Sharing.{IsShared, IsHonest, node_of}
use artik_sdk.Modules.Counting.{requested, released, here, next, Reach-IsShared}
use artik_sdk.Modules.Faults.{os_request_api_module-broken}

abbrev nothing : Loaded
nothing = record { requested_node = []; names = []; opened = [] }

-- The node at 100 and the name at 200; each library is at 7, and each symbol at 50.
abbrev sys : System
sys = record {
  node = some 100;
  name = some 200;
  dlopen = λ path. some 7;
  dlsym = λ h symbol. some 50;
  version = codes "1.6.0";
}

-- No library can be opened.
abbrev no_file : System
no_file = record sys { dlopen = λ path. none }

abbrev gpio : Bytes
unfolding codes
gpio = codes "gpio"

abbrev gpio_entry : Entry
unfolding codes
gpio_entry = record { name = 200; text = codes "gpio"; handle = 7; symbol = 50 }

abbrev with_gpio : Loaded
with_gpio = record {
  requested_node = node_of 100 gpio_entry ∷ [];
  names = 200 ∷ [];
  opened = 7 ∷ [];
}

gpio_request :
    os_request_api_module sys (some artik_api_generic_modules) (some gpio) nothing
    ≡ some (some 50, with_gpio)
unfolding os_request_api_module artik_api_generic_modules codes find_module find_name add new_node
gpio_request = refl

gpio_release : os_release_api_module (λ a. a) (some 50) with_gpio ≡ some (s_ok, nothing)
unfolding os_release_api_module delete_check is_ok new_node gpio_entry
gpio_release = refl

nothing-IsShared : IsShared (λ a. a) nothing
nothing-IsShared = record {
  entries = [];
  holds = tt;
  alike = λ a b i j. absurd i;
  opened = λ h. refl;
  names = λ p. refl;
}

gpio-IsHonest : IsHonest (λ a. a) sys gpio nothing 50
gpio-IsHonest = record { node = λ p h. tt; block = λ q h. refl; symbol = λ h. tt }

Reach-IsShared_example : IsShared (λ a. a) nothing
Reach-IsShared_example =
    Reach-IsShared (λ a. a) {s = nothing} {t = nothing} nothing-IsShared
      (next
        (next here (
          requested sys artik_api_generic_modules gpio 50 nothing with_gpio gpio-IsHonest
            gpio_request))
        (released (some 50) s_ok with_gpio nothing gpio_release))

gpio_known :
    find_module gpio artik_api_generic_modules
    ≡ some (record { id = 2; name = codes "gpio"; object = codes "systemio" })
unfolding find_module artik_api_generic_modules codes
gpio_known = refl

absent : (name : Bytes) → find_name name [] ≡ some none
unfolding find_name
absent name = refl

os_request_api_module-broken_example :
    (t : Loaded) × (os_request_api_module no_file
        (some artik_api_generic_modules)
        (some gpio)
        nothing
      ≡ some (none, t))
    × (os_request_api_module sys (some artik_api_generic_modules) (some gpio) t ≡ none)
os_request_api_module-broken_example =
    os_request_api_module-broken no_file sys artik_api_generic_modules
      (record { id = 2; name = codes "gpio"; object = codes "systemio" })
      (record { id = 2; name = codes "gpio"; object = codes "systemio" }) gpio gpio nothing 100
      gpio_known gpio_known (absent gpio) (absent gpio) refl refl

-- The model's name of a board.
artik710_platform :
    os_get_platform none (some (some (codes "Samsung artik710 raptor board"))) ≡ (some 3, some 3)
unfolding os_get_platform codes
artik710_platform = refl
