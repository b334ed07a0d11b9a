-- ===== src/SystemIo/Pwm/Linux.antt =====
-- src/modules/systemio/pwm/linux_pwm.c: one channel driven through /sys/class/pwm.
pub mod Balance
mod Tests
use Prim.Native.String.{String}
use artik_sdk.Prelude.{
  ℕ, ◌+◌, ◌-◌, ◌/◌, ◌%◌, ◌^◌, Bool, true, false, Option, none, some, List, [], ◌∷◌, ltb, ◌==◌,
  if◌then◌else◌,
}
use artik_sdk.Prelude.Int.{ℤ, pos, negsuc}
use artik_sdk.Prelude.Counting.{remove_one}
use artik_sdk.Error.{
  ArtikError, s_ok, e_bad_args, e_busy, e_no_mem, e_invalid_value, e_not_initialized, e_try_again,
  e_overflow, e_interrupted, is_ok,
}
use artik_sdk.SystemIo.Pwm.{Config, PwmData}

-- `artik_pwm_path_index_t`
pub data Index : Type 0 where
  exp uexp enb cycl perd polr : Index

pub data Text : Type 0 where
  number : ℤ → Text
  word : String → Text

-- The file system: `opens` has the results of the calls of `open` to come, and those behind its end
-- fail; `answers` has 0 or the `errno` for each write to come, and those behind its end succeed.
-- `held` has the descriptors that are open, `log` the writes that were tried, the latest first, and
-- `blocks` is how many data blocks are allocated. `malloc` succeeds: its result is not tested.
pub record Files : Type 0 where
  pub opens : List (Option ℕ)
  pub answers : List ℕ
  pub held : List ℕ
  pub log : List (Index × Text)
  pub blocks : ℕ

-- `itoa` of an `unsigned int`, which is read as an `int`.
abbrev pub itoa : ℕ → Text
itoa n = number (if ltb n (2 ^ 31) then pos n else negsuc (2 ^ 32 - 1 - n))

abbrev pub tab_value_polarity : ℕ → Text
tab_value_polarity n = if n == 0 then word "normal" else word "inversed"

-- The `switch` on `errno`, by the numbers of Linux; 0 is no error.
abbrev pub error_of : ℕ → ArtikError
error_of a =
    if a == 0
    then s_ok
    else if a == 22
    then e_invalid_value
    else if a == 9
    then e_bad_args
    else if a == 89
    then e_not_initialized
    else if a == 11
    then e_try_again
    else if a == 27
    then e_overflow
    else if a == 4
    then e_interrupted
    else if a == 32
    then e_interrupted
    else if a == 5
    then e_busy
    else e_no_mem

unfoldable pub next_answer : List ℕ → ℕ × List ℕ
next_answer [] = (0, [])
next_answer (a ∷ rest) = (a, rest)

-- The write of `os_pwm_ioctl` to a file that is open.
unfoldable pub write_file : Index → Text → Files → ArtikError × Files
unfolding next_answer
write_file ifd value w =
    let r = next_answer w.answers in
    (error_of r.0, record w { answers = r.1; log = (ifd, value) ∷ w.log })

-- The entry of the table of descriptors. Those of the first two files are open for one write only.
abbrev pub fd_at : PwmData → Index → Option ℕ
fd_at d exp = none
fd_at d uexp = none
fd_at d enb = d.enb
fd_at d cycl = d.cycl
fd_at d perd = d.perd
fd_at d polr = d.polr

abbrev pub with_fd : PwmData → Index → Option ℕ → PwmData
with_fd d exp f = d
with_fd d uexp f = d
with_fd d enb f = record d { enb = f }
with_fd d cycl f = record d { cycl = f }
with_fd d perd f = record d { perd = f }
with_fd d polr f = record d { polr = f }

-- A write to -1 fails with EBADF.
unfoldable pub os_pwm_ioctl : PwmData → Index → Text → Files → ArtikError × Files
unfolding write_file
os_pwm_ioctl d ifd value w = elim (fd_at d ifd) [
  | none ↦ (e_bad_args, record w { log = (ifd, value) ∷ w.log })
  | some f ↦ write_file ifd value w
]

unfoldable pub os_pwm_open : Files → Option ℕ × Files
os_pwm_open w = elim w.opens [
  | [] ↦ (none, w)
  | ◌∷◌ r rest ↦ elim r [
    | none ↦ (none, record w { opens = rest })
    | some f ↦ (some f, record w { opens = rest; held = f ∷ w.held })
  ]
]

unfoldable pub close : ℕ → Files → Files
unfolding remove_one
close f w = record w { held = remove_one f w.held }

unfoldable pub os_pwm_uexport : PwmData → Index → Files → ArtikError × Files
unfolding os_pwm_open write_file close
os_pwm_uexport d ifd w =
    let r = os_pwm_open w in
    elim r.0 [
      | none ↦ (e_busy, r.1)
      | some f ↦ let s = write_file ifd (number (pos d.port)) r.1 in (s.0, close f s.1)
    ]

-- `while (i < len)` with `os_pwm_open`, over the indices that are left: whether it came to its end.
unfoldable pub open_files : List Index → PwmData → Files → Bool × PwmData × Files
unfolding os_pwm_open
open_files [] d w = (true, d, w)
open_files (i ∷ rest) d w =
    let r = os_pwm_open w in
    elim r.0 [
      | none ↦ (false, with_fd d i none, r.1)
      | some f ↦ open_files rest (with_fd d i (some f)) r.1
    ]

abbrev pub indices : List Index
indices = enb ∷ cycl ∷ perd ∷ polr ∷ []

-- `port & 0xff`, and `(port & 0xff00) >> 8`.
abbrev pub data_of : ℕ → PwmData
data_of pin = record {
  enb = none;
  cycl = none;
  perd = none;
  polr = none;
  chip = pin / 256 % 256;
  port = pin % 256;
}

-- A failure frees the two blocks; the files that are open stay so.
unfoldable pub gone : Config → ArtikError → Files → ArtikError × Config × Files
gone c err w = (err, record c { user_data = none }, record w { blocks = w.blocks - 2 })

unfoldable pub opened : Config → Bool × PwmData × Files → ArtikError × Config × Files
unfolding gone
opened c (true, d, w) = (s_ok, record c { user_data = some d }, w)
opened c (false, d, w) = gone c e_bad_args w

unfoldable pub init_files : Config → PwmData → ArtikError × Files → ArtikError × Config × Files
unfolding open_files opened gone
init_files c d (err, w) = if is_ok err then opened c (open_files indices d w) else gone c err w

unfoldable pub os_pwm_init : Config → Files → ArtikError × Config × Files
unfolding init_files os_pwm_uexport
os_pwm_init c w = elim c.pin_num [
  | negsuc n ↦ (e_bad_args, c, w)
  | pos pin ↦
      init_files c (data_of pin)
        (os_pwm_uexport (data_of pin) exp (record w { blocks = w.blocks + 2 }))
]

-- A step that `goto exit` passes over.
unfoldable pub then_ : ArtikError × Files → (Files → ArtikError × Files) → ArtikError × Files
then_ (err, w) k = if is_ok err then k w else (err, w)

abbrev pub enable_text : Bool → Text
enable_text true = word "1"
enable_text false = word "0"

unfoldable pub os_pwm_enable : PwmData → Bool → Files → ArtikError × Files
unfolding os_pwm_ioctl
os_pwm_enable d state w = os_pwm_ioctl d enb (enable_text state) w

-- A change: the channel is stopped, the file written, and the channel started again.
unfoldable pub changed : PwmData → Index → Text → Files → ArtikError × Files
unfolding os_pwm_enable then_
changed d ifd value w =
    then_ (then_ (os_pwm_enable d false w) (os_pwm_ioctl d ifd value)) (os_pwm_enable d true)

unfoldable pub os_pwm_set_period : PwmData → ℕ → Files → ArtikError × Files
unfolding changed
os_pwm_set_period d value w = changed d perd (itoa value) w

unfoldable pub os_pwm_set_duty_cycle : PwmData → ℕ → Files → ArtikError × Files
unfolding changed
os_pwm_set_duty_cycle d value w = changed d cycl (itoa value) w

unfoldable pub os_pwm_set_polarity : PwmData → ℕ → Files → ArtikError × Files
unfolding changed
os_pwm_set_polarity d value w =
    if ltb 1 value then (e_bad_args, w) else changed d polr (tab_value_polarity value) w

unfoldable pub close_fd : Option ℕ → Files → Files
unfolding close
close_fd none w = w
close_fd (some f) w = close f w

unfoldable pub os_pwm_clean : PwmData → Files → ArtikError × Files
unfolding close_fd
os_pwm_clean d w =
    let w' = close_fd d.polr (close_fd d.perd (close_fd d.cycl (close_fd d.enb w))) in
    (s_ok, record w' { blocks = w'.blocks - 2 })

unfoldable pub os_pwm_release : PwmData → Files → ArtikError × Files
unfolding os_pwm_set_duty_cycle os_pwm_enable os_pwm_uexport os_pwm_clean then_
os_pwm_release d w =
    then_
      (then_ (then_ (os_pwm_set_duty_cycle d 0 w) (os_pwm_enable d false)) (os_pwm_uexport d uexp))
      (os_pwm_clean d)

-- The writes of a request, behind the opening of the files.
unfoldable pub started : Config → PwmData → Files → ArtikError × Files
unfolding os_pwm_ioctl os_pwm_enable then_
started c d w =
    then_
      (then_
        (then_ (os_pwm_ioctl d perd (itoa c.period) w) (os_pwm_ioctl d cycl (itoa c.duty_cycle)))
        (os_pwm_ioctl d polr (tab_value_polarity c.polarity)))
      (os_pwm_enable d true)

-- A failure releases the channel, whatever that answers.
unfoldable pub kept : Config → PwmData → ArtikError × Files → ArtikError × Config × Files
unfolding os_pwm_release
kept c d (err, w) = if is_ok err then (s_ok, c, w) else (err, c, (os_pwm_release d w).1)

unfoldable pub configured : ArtikError × Config × Files → ArtikError × Config × Files
unfolding kept started
configured (err, c, w) =
    if is_ok err
    then elim c.user_data [ none ↦ (err, c, w) | some d ↦ kept c d (started c d w) ]
    else (err, c, w)

-- `if (config->duty_cycle == 0)`
abbrev pub with_duty : Config → Config
with_duty c = if c.duty_cycle == 0 then record c { duty_cycle = c.period / 2 } else c

unfoldable pub os_pwm_request : Config → Files → ArtikError × Config × Files
unfolding configured os_pwm_init
os_pwm_request c w =
    if ltb c.period c.duty_cycle
    then (e_bad_args, c, w)
    else if ltb 1 c.polarity
    then (e_bad_args, c, w)
    else configured (os_pwm_init (with_duty c) w)
