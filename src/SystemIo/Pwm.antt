-- ===== src/SystemIo/Pwm.antt =====
-- src/modules/systemio/pwm/artik_pwm.c: the handles of the PWM module, over an `os_` layer that is a parameter.
pub mod Linux
use Prim.Native.String.{String}
use artik_sdk.Prelude.{ℕ, Bool, true, false, Option, none}
use artik_sdk.Prelude.Int.{ℤ, pos}
use artik_sdk.Prelude.Int
use artik_sdk.Error.{ArtikError, e_bad_args}
use artik_sdk.SystemIo.Handles
use artik_sdk.SystemIo.Handles.{Frontend, Driver, State}

-- `artik_pwm_user_data_t` of linux_pwm.c: the descriptors of four of the files, `none` for -1, and the
-- two parts of the pin.
pub record PwmData : Type 0 where
  pub enb : Option ℕ
  pub cycl : Option ℕ
  pub perd : Option ℕ
  pub polr : Option ℕ
  pub chip : ℕ
  pub port : ℕ

pub record Config : Type 0 where
  pub pin_num : ℤ
  pub name : Option String
  pub period : ℕ
  pub duty_cycle : ℕ
  pub polarity : ℕ
  pub user_data : Option PwmData

pub check_exist : Config → Config → Bool
check_exist elem config = Int.◌==◌ elem.pin_num config.pin_num

abbrev blank_config : Config
blank_config = record {
  pin_num = pos 0;
  name = none;
  period = 0;
  duty_cycle = 0;
  polarity = 0;
  user_data = none;
}

-- The functions of os_pwm.h over a world `W`.
pub record Os (W : Type 0) : Type 0 where
  pub driver : Driver Config W
  pub enable : Config → Bool → W → ArtikError × Config × W
  pub set_period : Config → ℕ → W → ArtikError × Config × W
  pub set_polarity : Config → ℕ → W → ArtikError × Config × W
  pub set_duty_cycle : Config → ℕ → W → ArtikError × Config × W

module _ {W : Type 0} (os : Os W) where
  -- The answer of the layer is handed on; the configuration takes 40 bytes.
  abbrev pub pwm_frontend : Frontend Config W
  pwm_frontend = record {
    check_exist = check_exist;
    failed = λ err. err;
    config_bytes = 40;
    blank = blank_config;
    driver = os.driver;
  }

  pub artik_pwm_request :
      State Config W → Config → Option ℕ → ArtikError × Option ℕ × State Config W
  artik_pwm_request = Handles.request pwm_frontend

  pub artik_pwm_release : State Config W → ℕ → ArtikError × State Config W
  artik_pwm_release = Handles.release pwm_frontend

  pub artik_pwm_enable : State Config W → ℕ → ArtikError × State Config W
  artik_pwm_enable st handle = Handles.with_node e_bad_args (λ c w. os.enable c true w) st handle

  pub artik_pwm_disable : State Config W → ℕ → ArtikError × State Config W
  artik_pwm_disable st handle = Handles.with_node e_bad_args (λ c w. os.enable c false w) st handle

  pub artik_pwm_set_period : State Config W → ℕ → ℕ → ArtikError × State Config W
  artik_pwm_set_period st handle v =
      Handles.with_node e_bad_args (λ c w. os.set_period c v w) st handle

  pub artik_pwm_set_polarity : State Config W → ℕ → ℕ → ArtikError × State Config W
  artik_pwm_set_polarity st handle v =
      Handles.with_node e_bad_args (λ c w. os.set_polarity c v w) st handle

  pub artik_pwm_set_duty_cycle : State Config W → ℕ → ℕ → ArtikError × State Config W
  artik_pwm_set_duty_cycle st handle v =
      Handles.with_node e_bad_args (λ c w. os.set_duty_cycle c v w) st handle
