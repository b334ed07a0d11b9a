-- ===== src/SystemIo/Adc/Linux.antt =====
-- src/modules/systemio/adc/linux_adc.c: a channel that is read from a file of the iio device.
pub mod Balance
mod Tests
use artik_sdk.Prelude.{
  ℕ, ◌+◌, ◌-◌, ◌^◌, ◌%◌, Bool, true, Option, none, some, List, [], ◌∷◌, ltb, ◌==◌, if◌then◌else◌,
}
use artik_sdk.Prelude.Int.{ℤ, pos, negsuc}
use artik_sdk.Prelude.Text.{Bytes}
use artik_sdk.Prelude.Counting.{remove_one}
use artik_sdk.Error.{ArtikError, s_ok, e_bad_args, e_busy, e_no_mem, is_ok}

-- `artik_adc_user_data_t`. The path is that of the pin, for which 128 bytes are enough.
pub record AdcData : Type 0 where
  pub pin : ℤ

-- The system: `opens` has the descriptors that `open` gives, by pin, and `input` what is read from a
-- descriptor, both `none` for a failure; `held` has the descriptors that are open, `blocks` is how
-- many blocks are allocated, and `mallocs` has whether the calls of `malloc` to come succeed, which
-- they do behind its end.
pub record Device : Type 0 where
  pub opens : ℤ → Option ℕ
  pub input : ℕ → Option Bytes
  pub held : List ℕ
  pub blocks : ℕ
  pub mallocs : List Bool

-- Whether the file is taken for open, and its descriptor. `open` may give 0, which is taken for a
-- failure.
unfoldable pub os_adc_open : AdcData → Device → ArtikError × ℕ × Device
os_adc_open d w = elim (w.opens d.pin) [
  | none ↦ (e_busy, 0, w)
  | some f ↦ (if f == 0 then e_busy else s_ok, f, record w { held = f ∷ w.held })
]

-- An `unsigned long` as an `int`.
abbrev pub int_value : ℕ → ℤ
int_value n =
    if ltb (n % 2 ^ 32) (2 ^ 31) then pos (n % 2 ^ 32) else negsuc (2 ^ 32 - 1 - n % 2 ^ 32)

-- What is done with the text: `strtoul` is a parameter, `none` where it reads no digit or ULONG_MAX.
unfoldable pub parsed : Option ℕ → ArtikError × Option ℤ
parsed none = (e_busy, none)
parsed (some n) = (s_ok, some (int_value n))

unfoldable pub next_malloc : List Bool → Bool × List Bool
next_malloc [] = (true, [])
next_malloc (b ∷ rest) = (b, rest)

module _ (strtoul : Bytes → Option ℕ) where
  unfoldable pub read_value : ArtikError × ℕ × Device → ArtikError × Option ℤ × Device
  unfolding parsed remove_one
  read_value (err, f, w) =
      if is_ok err
      then elim (w.input f) [
        | none ↦ (e_busy, none, w)
        | some text ↦
            let r = parsed (strtoul text) in (r.0, r.1, record w { held = remove_one f w.held })
      ]
      else (e_bad_args, none, w)

  -- The result, `*value` if it is written, and the state.
  unfoldable pub os_adc_get_value : AdcData → Device → ArtikError × Option ℤ × Device
  unfolding os_adc_open read_value
  os_adc_get_value d w = read_value (os_adc_open d w)

  -- The result, `config->user_data` if it is set, and the state. The value that is read first is
  -- dropped, and its failure leaves both blocks in the configuration.
  unfoldable pub os_adc_request : ℤ → Device → ArtikError × Option AdcData × Device
  unfolding next_malloc os_adc_get_value
  os_adc_request pin w =
      let a = next_malloc w.mallocs in
      let b = next_malloc a.1 in
      let d : AdcData = record { pin = pin } in
      let r = os_adc_get_value d (record w { blocks = w.blocks + 2; mallocs = b.1 }) in
      if a.0
      then (if b.0 then (r.0, some d, r.2) else (e_no_mem, none, record w { mallocs = b.1 }))
      else (e_no_mem, none, record w { mallocs = a.1 })

-- Both blocks are freed.
unfoldable pub os_adc_release : Option AdcData → Device → ArtikError × Device
os_adc_release none w = (s_ok, w)
os_adc_release (some d) w = (s_ok, record w { blocks = w.blocks - 2 })
