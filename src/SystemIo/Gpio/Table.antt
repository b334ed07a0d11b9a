-- ===== src/SystemIo/Gpio/Table.antt =====
-- src/modules/systemio/gpio/artik_gpio.c: the handles of the GPIO module, over linux_gpio.c.
use Prim.Native.String.{String}
use artik_sdk.Prelude.{ℕ, ◌-◌, ◌^◌, Bool, Option, none, some, ap, ◌==◌}
use artik_sdk.Prelude.Int.{ℤ, pos}
use artik_sdk.Error.{ArtikError, e_bad_args, code}
use artik_sdk.ArtikList.{get_by_handle}
use artik_sdk.SystemIo.Handles
use artik_sdk.SystemIo.Handles.{Frontend, State}
use artik_sdk.SystemIo.Handles.Exclusive.{KeepsKey, IsSound, Reach, Reach-IsSound}
use artik_sdk.SystemIo.Gpio.{
  Config, Direction, gpio_out, gpio_dir_invalid, edge_none, Sysfs, os_gpio_request, os_gpio_release,
  os_gpio_read, os_gpio_write,
}
use artik_sdk.SystemIo.Gpio.Writes.{id-request, id-release}

unfoldable pub check_exist : Config → ℕ → Bool
check_exist elem val_id = elem.id == val_id

abbrev blank_config : Config
blank_config = record {
  id = 0;
  name = none;
  dir = gpio_out;
  edge = edge_none;
  initial_value = pos 0;
  user_data = none;
}

-- A failed `os_gpio_request` is E_BAD_ARGS whatever its answer; the configuration takes 40 bytes.
abbrev pub gpio_frontend : Frontend Config Sysfs
gpio_frontend = record {
  check_exist = λ elem config. check_exist elem config.id;
  failed = λ _. e_bad_args;
  config_bytes = 40;
  blank = blank_config;
  driver = record { request = os_gpio_request; release = os_gpio_release };
}

unfoldable pub artik_gpio_request :
    State Config Sysfs → Config → Option ℕ → ArtikError × Option ℕ × State Config Sysfs
artik_gpio_request = Handles.request gpio_frontend

unfoldable pub artik_gpio_release : State Config Sysfs → ℕ → ArtikError × State Config Sysfs
artik_gpio_release = Handles.release gpio_frontend

pub artik_gpio_read : State Config Sysfs → ℕ → ℤ × State Config Sysfs
unfolding code
artik_gpio_read = Handles.with_node (code e_bad_args) (λ c w. (os_gpio_read c w, c, w))

pub artik_gpio_write : State Config Sysfs → ℕ → ℤ → ArtikError × State Config Sysfs
artik_gpio_write st handle v =
    Handles.with_node e_bad_args (λ c w. let (err, w') = os_gpio_write c v w in (err, c, w')) st
      handle

pub artik_gpio_get_name : State Config Sysfs → ℕ → Option String
artik_gpio_get_name st handle = elim (get_by_handle st.requested_node handle) [
  | none ↦ none
  | some n ↦ n.payload.name
]

pub artik_gpio_get_direction : State Config Sysfs → ℕ → Direction
artik_gpio_get_direction st handle = elim (get_by_handle st.requested_node handle) [
  | none ↦ gpio_dir_invalid
  | some n ↦ n.payload.dir
]

-- -1 as an unsigned id of 32 bits.
pub artik_gpio_get_id : State Config Sysfs → ℕ → ℕ
artik_gpio_get_id st handle = elim (get_by_handle st.requested_node handle) [
  | none ↦ 2 ^ 32 - 1
  | some n ↦ n.payload.id
]

-- The Linux layer leaves the pin number of a configuration alone.
pub gpio-KeepsKey : KeepsKey gpio_frontend
unfolding check_exist
gpio-KeepsKey = record {
  on_request = λ x c w. ap (◌==◌ x.id) (id-request c w);
  on_release_left = λ x c w. ap (◌==◌ x.id) (id-release c w);
  on_release_right = λ x c w. ap (λ (k : ℕ). k == x.id) (id-release c w);
}

-- After any calls of the GPIO module over the Linux layer, from a state in which no two open
-- handles have one pin and every handle is the address of its node, this is so again, whatever
-- the writes to the file system answer.
pub gpio_Reach-IsSound :
    {s t : State Config Sysfs}
    → IsSound gpio_frontend s
    → Reach gpio_frontend s t
    → IsSound gpio_frontend t
gpio_Reach-IsSound = Reach-IsSound gpio_frontend gpio-KeepsKey
