-- ===== src/SystemIo/Serial.antt =====
-- src/modules/systemio/serial/artik_serial.c: the handles of the serial module, over an `os_` layer that is a parameter.
use Prim.Native.String.{String}
use artik_sdk.Prelude.{ℕ, Bool, Option, none, List, [], ◌==◌}
use artik_sdk.Prelude.Int.{ℤ}
use artik_sdk.Error.{ArtikError, e_bad_args}
use artik_sdk.SystemIo.Handles
use artik_sdk.SystemIo.Handles.{Frontend, Driver, State}

pub record Config : Type 0 where
  pub port_num : ℕ
  pub name : Option String
  pub baudrate : ℕ
  pub parity : ℕ
  pub data_bits : ℕ
  pub stop_bits : ℕ
  pub flowctrl : ℕ
  pub data_user : Option ℕ

pub check_exist : Config → Config → Bool
check_exist elem config = elem.port_num == config.port_num

abbrev blank_config : Config
blank_config = record {
  port_num = 0;
  name = none;
  baudrate = 0;
  parity = 0;
  data_bits = 0;
  stop_bits = 0;
  flowctrl = 0;
  data_user = none;
}

-- The functions of os_serial.h over a world `W`.
pub record Os (W : Type 0) : Type 0 where
  pub driver : Driver Config W
  pub read : Config → ℤ → W → (ArtikError × List ℕ × ℤ) × Config × W
  pub write : Config → List ℕ → ℤ → W → (ArtikError × ℤ) × Config × W
  pub set_received_callback : Config → Option ℕ → ℕ → W → ArtikError × Config × W
  pub unset_received_callback : Config → W → ArtikError × Config × W

module _ {W : Type 0} (os : Os W) where
  -- The answer of the layer is handed on; the configuration takes 48 bytes.
  abbrev pub serial_frontend : Frontend Config W
  serial_frontend = record {
    check_exist = check_exist;
    failed = λ err. err;
    config_bytes = 48;
    blank = blank_config;
    driver = os.driver;
  }

  pub artik_serial_request :
      State Config W → Config → Option ℕ → ArtikError × Option ℕ × State Config W
  artik_serial_request = Handles.request serial_frontend

  pub artik_serial_release : State Config W → ℕ → ArtikError × State Config W
  artik_serial_release = Handles.release serial_frontend

  pub artik_serial_read : State Config W → ℕ → ℤ → (ArtikError × List ℕ × ℤ) × State Config W
  artik_serial_read st handle len =
      Handles.with_node (e_bad_args, [], len) (λ c w. os.read c len w) st handle

  pub artik_serial_write : State Config W → ℕ → List ℕ → ℤ → (ArtikError × ℤ) × State Config W
  artik_serial_write st handle buf len =
      Handles.with_node (e_bad_args, len) (λ c w. os.write c buf len w) st handle

  pub artik_serial_set_received_callback :
      State Config W → ℕ → Option ℕ → ℕ → ArtikError × State Config W
  artik_serial_set_received_callback st handle callback user_data =
      Handles.with_node e_bad_args (λ c w. os.set_received_callback c callback user_data w) st
        handle

  pub artik_serial_unset_received_callback : State Config W → ℕ → ArtikError × State Config W
  artik_serial_unset_received_callback st handle =
      Handles.with_node e_bad_args (λ c w. os.unset_received_callback c w) st handle
