-- ===== src/SystemIo/Gpio.antt =====
-- src/modules/systemio/gpio/linux_gpio.c: one pin driven through /sys/class/gpio.
pub mod Writes
pub mod Callback
pub mod Table
mod Tests
use Prim.Native.String.{String}
use artik_sdk.Prelude.{
  ℕ, zero, suc, ◌^◌, Bool, true, false, ◌||◌, Option, none, some, List, [], ◌∷◌, leb, ◌==◌,
  if◌then◌else◌,
}
use artik_sdk.Prelude.Int.{ℤ, pos, negsuc}
use artik_sdk.Prelude.Int
use artik_sdk.Error.{ArtikError, s_ok, e_bad_args, e_busy, e_access_denied, code}

-- `artik_gpio_dir_t` and `artik_gpio_edge_t`; a value above the last one reads as the invalid one.
pub data Direction : Type 0 where
  gpio_out gpio_in gpio_dir_invalid : Direction

pub data Edge : Type 0 where
  edge_none edge_rising edge_falling edge_both edge_invalid : Edge

-- `os_gpio_data`: `callback` and `loop` are whether those pointers are set.
pub record GpioData : Type 0 where
  pub watch_id : ℤ
  pub fd : ℤ
  pub callback : Bool
  pub loop : Bool

-- `artik_gpio_config`. `user_data` is NULL or the data that `os_gpio_request` allocates.
pub record Config : Type 0 where
  pub id : ℕ
  pub name : Option String
  pub dir : Direction
  pub edge : Edge
  pub initial_value : ℤ
  pub user_data : Option GpioData

-- The files below /sys/class/gpio, and what is written to them.
pub data Entry : Type 0 where
  export unexport : Entry
  direction value edge_of : ℕ → Entry

pub data Text : Type 0 where
  number : ℕ → Text
  word : String → Text

-- The file system: `answers` has, for each write to come, 0 or the `errno` with which it fails, and
-- the writes behind its end succeed; `log` has the writes that were tried, the latest first; `input`
-- is the first byte of a value file, if it can be read; `memory` is whether `malloc` succeeds.
pub record Sysfs : Type 0 where
  pub answers : List ℕ
  pub log : List (Entry × Text)
  pub input : Option ℕ
  pub memory : Bool

take_answer : List ℕ → ℕ × List ℕ
take_answer [] = (0, [])
take_answer (a ∷ rest) = (a, rest)

-- The result is the `errno` that the function returns negated, or 0.
pub write_sysfs_entry : Entry → Text → Sysfs → ℕ × Sysfs
unfolding take_answer
write_sysfs_entry entry text w =
    let (a, rest) = take_answer w.answers in
    (a, record w { answers = rest; log = (entry, text) ∷ w.log })

-- A write that the `goto cleanup` of an earlier failure passes over.
pub put : Entry → Text → ℕ × Sysfs → ℕ × Sysfs
put entry text (ret, w) = if ret == 0 then write_sysfs_entry entry text w else (ret, w)

abbrev pub dir_text : Direction → String
dir_text gpio_out = "out"
dir_text gpio_in = "in"
dir_text gpio_dir_invalid = "in"

abbrev pub value_text : ℤ → String
value_text (pos zero) = "0"
value_text (pos (suc n)) = "1"
value_text (negsuc n) = "1"

abbrev pub edge_text : Edge → String
edge_text edge_rising = "rising"
edge_text edge_falling = "falling"
edge_text edge_both = "both"
edge_text edge_none = "none"
edge_text edge_invalid = "none"

-- The value of an output, or the edge of an input.
abbrev pub put_mode : Config → Direction → ℕ × Sysfs → ℕ × Sysfs
put_mode c gpio_out s = put (value c.id) (word (value_text c.initial_value)) s
put_mode c gpio_in s = put (edge_of c.id) (word (edge_text c.edge)) s
put_mode c gpio_dir_invalid s = s

abbrev pub is_invalid : Config → Bool
is_invalid c =
    leb (2 ^ 31) c.id
    || elim c.dir [ gpio_dir_invalid ↦ true | _ ↦ false ]
    || elim c.edge [ edge_invalid ↦ true | _ ↦ false ]

abbrev pub zero_data : GpioData
zero_data = record { watch_id = pos 0; fd = pos 0; callback = false; loop = false }

-- `EACCES`
abbrev pub eacces : ℕ
eacces = 13

unfoldable pub cleanup : ℕ → Config → Sysfs → ArtikError × Config × Sysfs
unfolding write_sysfs_entry
cleanup ret c w =
    let (_, w') = write_sysfs_entry unexport (number c.id) w in
    (if ret == eacces then e_access_denied else e_busy, c, w')

-- A failed `malloc` leaves E_NO_MEM, which is -4, in `ret`.
unfoldable pub allocate : Config → ℕ × Sysfs → ArtikError × Config × Sysfs
unfolding cleanup
allocate c (ret, w) =
    if ret == 0
    then if w.memory then (s_ok, record c { user_data = some zero_data }, w) else cleanup 4 c w
    else cleanup ret c w

pub os_gpio_request : Config → Sysfs → ArtikError × Config × Sysfs
unfolding allocate put write_sysfs_entry
os_gpio_request c w =
    if is_invalid c
    then (e_bad_args, c, w)
    else allocate c (
        put_mode c c.dir
          (put (direction c.id) (word (dir_text c.dir)) (write_sysfs_entry export (number c.id) w)))

-- The pin is unexported twice; neither result is looked at.
pub os_gpio_release : Config → Sysfs → ArtikError × Config × Sysfs
unfolding write_sysfs_entry
os_gpio_release c w =
    let (_, w') = write_sysfs_entry unexport (number c.id) w in
    let (_, w'') = write_sysfs_entry unexport (number c.id) w' in
    (s_ok, record c { user_data = none }, w'')

abbrev level : ℕ → ℤ
level b = if b == b'0' then pos 0 else if b == b'1' then pos 1 else negsuc 0

pub os_gpio_read : Config → Sysfs → ℤ
unfolding code
os_gpio_read c w = elim c.dir [
  | gpio_in ↦ elim w.input [ none ↦ negsuc 0 | some b ↦ level b ]
  | _ ↦ code e_access_denied
]

abbrev written : ℕ × Sysfs → ArtikError × Sysfs
written (ret, w) = if ret == 0 then (s_ok, w) else (e_busy, w)

pub os_gpio_write : Config → ℤ → Sysfs → ArtikError × Sysfs
unfolding write_sysfs_entry
os_gpio_write c v w = elim c.dir [
  | gpio_out ↦ written (write_sysfs_entry (value c.id) (word (value_text v)) w)
  | _ ↦ (e_access_denied, w)
]
