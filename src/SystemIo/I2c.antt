-- ===== src/SystemIo/I2c.antt =====
-- src/modules/systemio/i2c/artik_i2c.c: the handles of the I2C module, over an `os_` layer that is a parameter.
use artik_sdk.Prelude.{ℕ, Bool, ◌&&◌, Option, List, [], ◌==◌}
use artik_sdk.Prelude.Int.{ℤ, pos}
use artik_sdk.Error.{ArtikError, e_bad_args}
use artik_sdk.SystemIo.Handles
use artik_sdk.SystemIo.Handles.{Frontend, Driver, State}

pub record Config : Type 0 where
  pub id : ℕ
  pub frequency : ℤ
  pub wordsize : ℕ
  pub address : ℕ

pub check_exist : Config → Config → Bool
check_exist elem config = elem.id == config.id && elem.address == config.address

abbrev blank_config : Config
blank_config = record { id = 0; frequency = pos 0; wordsize = 0; address = 0 }

-- The functions of os_i2c.h over a world `W`.
pub record Os (W : Type 0) : Type 0 where
  pub driver : Driver Config W
  pub read : Config → ℤ → W → (ArtikError × List ℕ) × Config × W
  pub write : Config → List ℕ → ℤ → W → ArtikError × Config × W
  pub read_register : Config → ℕ → ℤ → W → (ArtikError × List ℕ) × Config × W
  pub write_register : Config → ℕ → List ℕ → ℤ → W → ArtikError × Config × W

module _ {W : Type 0} (os : Os W) where
  -- The answer of the layer is handed on; the configuration takes 16 bytes.
  abbrev pub i2c_frontend : Frontend Config W
  i2c_frontend = record {
    check_exist = check_exist;
    failed = λ err. err;
    config_bytes = 16;
    blank = blank_config;
    driver = os.driver;
  }

  pub artik_i2c_request :
      State Config W → Config → Option ℕ → ArtikError × Option ℕ × State Config W
  artik_i2c_request = Handles.request i2c_frontend

  pub artik_i2c_release : State Config W → ℕ → ArtikError × State Config W
  artik_i2c_release = Handles.release i2c_frontend

  pub artik_i2c_read : State Config W → ℕ → ℤ → (ArtikError × List ℕ) × State Config W
  artik_i2c_read st handle len =
      Handles.with_node (e_bad_args, []) (λ c w. os.read c len w) st handle

  pub artik_i2c_write : State Config W → ℕ → List ℕ → ℤ → ArtikError × State Config W
  artik_i2c_write st handle buf len =
      Handles.with_node e_bad_args (λ c w. os.write c buf len w) st handle

  pub artik_i2c_read_register : State Config W → ℕ → ℕ → ℤ → (ArtikError × List ℕ) × State Config W
  artik_i2c_read_register st handle reg len =
      Handles.with_node (e_bad_args, []) (λ c w. os.read_register c reg len w) st handle

  pub artik_i2c_write_register : State Config W → ℕ → ℕ → List ℕ → ℤ → ArtikError × State Config W
  artik_i2c_write_register st handle reg buf len =
      Handles.with_node e_bad_args (λ c w. os.write_register c reg buf len w) st handle
