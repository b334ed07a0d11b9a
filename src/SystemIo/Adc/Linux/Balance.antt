-- ===== src/SystemIo/Adc/Linux/Balance.antt =====
-- linux_adc.c: the descriptors that reading a channel leaves open.
use artik_sdk.Prelude.{
  ℕ, ◌+◌, ◌≡◌, Bool, true, false, Option, none, some, arith, ◌==◌, if◌then◌else◌,
}
use artik_sdk.Prelude.Text.{Bytes}
use artik_sdk.Prelude.Counting.{count, remove_one}
use artik_sdk.Error.{is_ok}
use artik_sdk.SystemIo.Adc.Linux.{AdcData, Device, os_adc_get_value}

-- Whether reading the channel leaves its descriptor open: it is 0, or nothing can be read from it.
abbrev pub is_leaked : Device → ℕ → Bool
is_leaked w f = if f == 0 then true else elim (w.input f) [ none ↦ true | some text ↦ false ]

-- Reading a channel keeps the descriptors that were open. If its file can be opened, it leaves one
-- more of this descriptor exactly where this is 0 or cannot be read from, and it has failed then; if
-- the file cannot be opened, nothing changes and it fails.
pub os_adc_get_value_held :
    (strtoul : Bytes → Option ℕ) (d : AdcData) (w : Device)
    → ((f : ℕ)
        → w.opens d.pin ≡ some f
        → ((x : ℕ)
            → count x (os_adc_get_value strtoul d w).2.held
              ≡ count x w.held + (if is_leaked w f then (if x == f then 1 else 0) else 0))
          × (is_leaked w f ≡ true → is_ok (os_adc_get_value strtoul d w).0 ≡ false))
      × (w.opens d.pin ≡ none
          → (is_ok (os_adc_get_value strtoul d w).0 ≡ false)
            × ((os_adc_get_value strtoul d w).2 ≡ w))
unfolding os_adc_get_value remove_one is_ok
os_adc_get_value_held strtoul d w = (
  λ f o. (λ x. ground (arith, o), λ l. ground (arith, o, l)),
  λ o. (ground (arith, o), ground (arith, o)),
)
