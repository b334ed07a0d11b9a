-- ===== src/SystemIo/Gpio/Writes.antt =====
-- linux_gpio.c: what a request, a write and a read of a pin do to the file system.
use artik_sdk.Prelude.{◌≡◌, ◌≢◌, true, false, Option, none, some, List, [], ◌∷◌, ◌++◌, arith, ◌⊎◌}
use artik_sdk.Prelude.Int.{ℤ}
use artik_sdk.Error.{ArtikError, s_ok, e_bad_args, e_busy, e_access_denied}
use artik_sdk.SystemIo.Gpio.{
  Direction, gpio_out, gpio_in, gpio_dir_invalid, Config, Entry, export, unexport, direction, value,
  edge_of, Text, number, word, Sysfs, dir_text, value_text, edge_text, is_invalid, zero_data,
  os_gpio_request, os_gpio_release, os_gpio_write, take_answer,
}

-- What setting a pin up writes, the last write first.
abbrev pub mode_script : Config → Direction → List (Entry × Text)
mode_script c gpio_out = (value c.id, word (value_text c.initial_value)) ∷ []
mode_script c gpio_in = (edge_of c.id, word (edge_text c.edge)) ∷ []
mode_script c gpio_dir_invalid = []

abbrev pub script : Config → List (Entry × Text)
script c =
    mode_script c c.dir ++ (direction c.id, word (dir_text c.dir)) ∷ (export, number c.id) ∷ []

-- A request with bad parameters writes nothing.
pub os_gpio_request-invalid :
    (c : Config) (w : Sysfs) → is_invalid c ≡ true → os_gpio_request c w ≡ (e_bad_args, c, w)
unfolding os_gpio_request
os_gpio_request-invalid c w h = ground arith

-- A request that succeeds has written the whole script, and no more, and attaches zeroed data.
pub os_gpio_request-ok :
    (c c' : Config) (w w' : Sysfs)
    → os_gpio_request c w ≡ (s_ok, c', w')
    → (w'.log ≡ script c ++ w.log) × (c' ≡ record c { user_data = some zero_data })
unfolding os_gpio_request
os_gpio_request-ok c c' w w' h = ground arith

abbrev pub last_write : List (Entry × Text) → Option (Entry × Text)
last_write [] = none
last_write (x ∷ log) = some x

-- A request with good parameters that does not succeed ends by unexporting the pin, leaves the
-- configuration as it was, and answers E_ACCESS_DENIED or E_BUSY.
pub os_gpio_request-failed :
    (c : Config) (w : Sysfs)
    → is_invalid c ≡ false
    → let (err, c', w') = os_gpio_request c w in
      (err ≡ s_ok)
      ⊎ (((err ≡ e_access_denied) ⊎ (err ≡ e_busy))
          × (c' ≡ c)
          × (last_write w'.log ≡ some (unexport, number c.id)))
unfolding os_gpio_request
os_gpio_request-failed c w h = ground arith

-- Where no write fails and there is memory, a request with good parameters succeeds.
pub os_gpio_request-total :
    (c : Config) (w : Sysfs)
    → is_invalid c ≡ false
    → w.answers ≡ []
    → w.memory ≡ true
    → (os_gpio_request c w).0 ≡ s_ok
unfolding os_gpio_request take_answer
os_gpio_request-total c w h e m = ground arith

-- A write to an output is one write of the level to its value file, with the answer S_OK or
-- E_BUSY; a pin that is not an output is not written to, and the answer is E_ACCESS_DENIED.
pub os_gpio_write_lem :
    (c : Config) (v : ℤ) (w w' : Sysfs) (err : ArtikError)
    → os_gpio_write c v w ≡ (err, w')
    → ((c.dir ≡ gpio_out)
        × (w'.log ≡ (value c.id, word (value_text v)) ∷ w.log)
        × ((err ≡ s_ok) ⊎ (err ≡ e_busy)))
      ⊎ ((c.dir ≢ gpio_out) × (w' ≡ w) × (err ≡ e_access_denied))
unfolding os_gpio_write
os_gpio_write_lem c v w w' err h = ground arith

pub id-request : (c : Config) (w : Sysfs) → (os_gpio_request c w).1.id ≡ c.id
unfolding os_gpio_request
id-request c w = ground arith

pub id-release : (c : Config) (w : Sysfs) → (os_gpio_release c w).1.id ≡ c.id
unfolding os_gpio_release
id-release c w = ground arith
