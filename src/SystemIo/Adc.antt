-- ===== src/SystemIo/Adc.antt =====
-- src/modules/systemio/adc/artik_adc.c: the handles of the ADC module, over an `os_` layer that is
-- a parameter. Unlike the other modules it calls the layer before it allocates the node.
pub mod Laws
pub mod Linux
use Prim.Native.String.{String}
use artik_sdk.Prelude.{ℕ, ◌+◌, Bool, Option, none, some, if◌then◌else◌}
use artik_sdk.Prelude.Int.{ℤ, pos}
use artik_sdk.Prelude.Int
use artik_sdk.Error.{ArtikError, s_ok, e_bad_args, e_busy, e_no_mem, is_ok}
use artik_sdk.ArtikList.{ArtikList, Node, sizeof_artik_list, add, get_by_check}
use artik_sdk.SystemIo.Handles
use artik_sdk.ArtikList.Store.{store}
use artik_sdk.SystemIo.Handles.{Frontend, Driver, State, fill}

pub record Config : Type 0 where
  pub pin_num : ℤ
  pub name : Option String
  pub user_data : Option ℕ

pub check_exist : Config → Config → Bool
check_exist elem config = Int.◌==◌ elem.pin_num config.pin_num

abbrev blank_config : Config
blank_config = record { pin_num = pos 0; name = none; user_data = none }

-- The functions of os_adc.h over a world `W`.
pub record Os (W : Type 0) : Type 0 where
  pub driver : Driver Config W
  pub get_value : Config → W → (ArtikError × Option ℤ) × Config × W

module _ {W : Type 0} (os : Os W) where
  -- The configuration takes 24 bytes.
  abbrev pub adc_frontend : Frontend Config W
  adc_frontend = record {
    check_exist = check_exist;
    failed = λ err. err;
    config_bytes = 24;
    blank = blank_config;
    driver = os.driver;
  }

  unfoldable pub keep_node :
      Config → W → Option (Node Config) × ArtikList Config → ArtikError × Option ℕ × State Config W
  keep_node c w (none, l) = (e_no_mem, none, record { requested_node = l; world = w })
  keep_node c w (some n, l) =
      (s_ok, some n.addr, record { requested_node = store n.addr (fill c) l; world = w })

  unfoldable pub keep_open :
      State Config W → Option ℕ → ArtikError × Config × W → ArtikError × Option ℕ × State Config W
  unfolding keep_node
  keep_open st malloc (err, c, w) =
      if is_ok err
      then keep_node c w (add st.requested_node 0 (sizeof_artik_list + 24) malloc blank_config)
      else (err, none, record st { world = w })

  pub artik_adc_request :
      State Config W → Config → Option ℕ → ArtikError × Option ℕ × State Config W
  unfolding keep_open
  artik_adc_request st config malloc =
      elim (get_by_check st.requested_node (some (λ n. check_exist n.payload config))) [
        | some n ↦ (e_busy, none, st)
        | none ↦ keep_open st malloc (os.driver.request config st.world)
      ]

  pub artik_adc_release : State Config W → ℕ → ArtikError × State Config W
  artik_adc_release = Handles.release adc_frontend

  pub artik_adc_get_value : State Config W → ℕ → (ArtikError × Option ℤ) × State Config W
  artik_adc_get_value = Handles.with_node (e_bad_args, none) os.get_value
