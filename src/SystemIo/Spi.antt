-- ===== src/SystemIo/Spi.antt =====
-- src/modules/systemio/spi/artik_spi.c: the handles of the SPI module, over an `os_` layer that is a parameter.
use artik_sdk.Prelude.{ℕ, Bool, Option, List, [], ◌==◌}
use artik_sdk.Prelude.Int.{ℤ}
use artik_sdk.Error.{ArtikError, e_bad_args}
use artik_sdk.SystemIo.Handles
use artik_sdk.SystemIo.Handles.{Frontend, Driver, State}

pub record Config : Type 0 where
  pub bus : ℕ
  pub cs : ℕ
  pub mode : ℕ
  pub bits_per_word : ℕ
  pub max_speed : ℕ

pub check_exist : Config → Config → Bool
check_exist elem config = elem.bus == config.bus

abbrev blank_config : Config
blank_config = record { bus = 0; cs = 0; mode = 0; bits_per_word = 0; max_speed = 0 }

-- The functions of os_spi.h over a world `W`.
pub record Os (W : Type 0) : Type 0 where
  pub driver : Driver Config W
  pub read : Config → ℤ → W → (ArtikError × List ℕ) × Config × W
  pub write : Config → List ℕ → ℤ → W → ArtikError × Config × W
  pub read_write : Config → List ℕ → ℤ → W → (ArtikError × List ℕ) × Config × W

module _ {W : Type 0} (os : Os W) where
  -- The answer of the layer is handed on; the configuration takes 20 bytes.
  abbrev pub spi_frontend : Frontend Config W
  spi_frontend = record {
    check_exist = check_exist;
    failed = λ err. err;
    config_bytes = 20;
    blank = blank_config;
    driver = os.driver;
  }

  pub artik_spi_request :
      State Config W → Config → Option ℕ → ArtikError × Option ℕ × State Config W
  artik_spi_request = Handles.request spi_frontend

  pub artik_spi_release : State Config W → ℕ → ArtikError × State Config W
  artik_spi_release = Handles.release spi_frontend

  pub artik_spi_read : State Config W → ℕ → ℤ → (ArtikError × List ℕ) × State Config W
  artik_spi_read st handle len =
      Handles.with_node (e_bad_args, []) (λ c w. os.read c len w) st handle

  pub artik_spi_write : State Config W → ℕ → List ℕ → ℤ → ArtikError × State Config W
  artik_spi_write st handle buf len =
      Handles.with_node e_bad_args (λ c w. os.write c buf len w) st handle

  pub artik_spi_read_write :
      State Config W → ℕ → List ℕ → ℤ → (ArtikError × List ℕ) × State Config W
  artik_spi_read_write st handle tx len =
      Handles.with_node (e_bad_args, []) (λ c w. os.read_write c tx len w) st handle
