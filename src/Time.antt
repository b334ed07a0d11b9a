-- ===== src/Time.antt =====
-- src/modules/base/time: the dates of artik_time.c, and the clock and the alarms of linux_time.c.
-- libc's calendar and the loop module are parameters.
pub mod Order
pub mod Clock
pub mod Dates
mod Tests
use artik_sdk.Prelude.{
  ℕ, ◌+◌, ◌*◌, ◌-◌, ◌%◌, ◌^◌, Bool, ◌||◌, ◌&&◌, not, Option, none, some, List, [], ◌∷◌, ltb, leb,
  ◌==◌, if◌then◌else◌,
}
use artik_sdk.Prelude.Int.{ℤ, pos, negsuc, is_neg}
use artik_sdk.Error.{ArtikError, s_ok, e_bad_args, e_busy, is_ok}

-- `artik_time`: `unsigned int` fields.
pub record ArtikTime : Type 0 where
  pub second : ℕ
  pub minute : ℕ
  pub hour : ℕ
  pub day : ℕ
  pub month : ℕ
  pub year : ℕ
  pub day_of_week : ℕ
  pub msecond : ℕ

-- `if (a > b) return 1; else if (a < b) return -1;` in front of the rest.
unfoldable pub compare_field : ℕ → ℕ → ℤ → ℤ
compare_field a b rest = if ltb b a then pos 1 else if ltb a b then negsuc 0 else rest

-- The comparison of two dates that are there.
unfoldable pub compare_fields : ArtikTime → ArtikTime → ℤ
compare_fields a b = compare_field a.year b.year (
    compare_field a.month b.month (
      compare_field a.day b.day (
        compare_field a.hour b.hour (
          compare_field a.minute b.minute
            (compare_field a.second b.second (compare_field a.msecond b.msecond (pos 0)))))))

-- `none` is NULL.
pub artik_time_compare_dates : Option ArtikTime → Option ArtikTime → ℤ
unfolding compare_fields
artik_time_compare_dates (some a) (some b) = compare_fields a b
artik_time_compare_dates (some a) none = negsuc 1
artik_time_compare_dates none date2 = negsuc 1

-- `(int)x < n` and `(int)x > n` for an `unsigned int` and a bound that is not negative.
abbrev pub int_lt : ℕ → ℕ → Bool
int_lt x n = leb (2 ^ 31) x || ltb x n

abbrev pub int_gt : ℕ → ℕ → Bool
int_gt x n = not (leb (2 ^ 31) x) && ltb n x

abbrev pub epoch_def : ℕ
epoch_def = 1900

-- `ARTIK_TIME_GMT12`
abbrev pub gmt12 : ℕ
gmt12 = 12

-- The tests of a date in `os_time_set_time`.
unfoldable pub is_bad_date : ArtikTime → Bool
is_bad_date d =
    int_lt d.second 0
    || int_gt d.second 59
    || int_lt d.minute 0
    || int_gt d.minute 59
    || int_lt d.hour 0
    || int_gt d.hour 23
    || int_lt d.day 1
    || int_gt d.day 31
    || int_lt d.month 1
    || int_gt d.month 12
    || int_lt d.year epoch_def
    || int_lt d.day_of_week 0
    || int_gt d.day_of_week 6
    || int_lt d.msecond 0

-- `struct tm`
pub record Tm : Type 0 where
  pub tm_sec : ℕ
  pub tm_min : ℕ
  pub tm_hour : ℕ
  pub tm_mday : ℕ
  pub tm_mon : ℕ
  pub tm_year : ℕ
  pub tm_wday : ℕ

abbrev pub to_tm : ArtikTime → Tm
to_tm d = record {
  tm_sec = d.second;
  tm_min = d.minute;
  tm_hour = d.hour;
  tm_mday = d.day;
  tm_mon = d.month - 1;
  tm_year = d.year - epoch_def;
  tm_wday = d.day_of_week;
}

-- libc and the loop module: `mktime` in a time zone, whether `clock_settime` succeeds, the local
-- time as `os_time_get_sys` reads it, and what `add_timeout_callback` answers.
pub record Libc : Type 0 where
  pub mktime : ℕ → Tm → ℤ
  pub may_set : Bool
  pub get_sys : ℕ → ℤ → Tm
  pub add_timeout : ArtikError × ℕ

-- An alarm behind its handle.
pub record Alarm : Type 0 where
  pub gmt : ℕ
  pub date_alarm : ℤ
  pub alarm_id : ℕ

-- The time zone of the process, the clock in seconds, the alarms that are allocated with
-- their handles, the references
-- to the loop module and the timeouts that are registered with it, as their delays in milliseconds.
pub record System : Type 0 where
  pub zone : ℕ
  pub clock : ℤ
  pub alarms : List (ℕ × Alarm)
  pub loops : ℕ
  pub timeouts : List ℕ

unfoldable pub set_clock : Libc → ℤ → System → ArtikError × System
set_clock libc sec s =
    if is_neg sec
    then (e_bad_args, s)
    else if libc.may_set
    then (s_ok, record s { clock = sec })
    else (e_bad_args, s)

pub os_time_set_time : Libc → ArtikTime → ℕ → System → ArtikError × System
unfolding set_clock
os_time_set_time libc d gmt s =
    if ltb gmt12 gmt
    then (e_bad_args, s)
    else if is_bad_date d
    then (e_bad_args, s)
    else set_clock libc (libc.mktime gmt (to_tm d)) (record s { zone = gmt })

-- A sum of a time and a delay.
abbrev pub later : ℤ → ℕ → ℤ
later (pos n) k = pos (n + k)
later (negsuc n) k = if leb (n + 1) k then pos (k - (n + 1)) else negsuc (n - k)

-- The registration behind the alarm at handle `p`; a failed one leaves the alarm and the reference.
unfoldable pub add_alarm : Libc → ℕ → ℕ → ℤ → ℕ → System → ArtikError × Option ℕ × System
add_alarm libc gmt second now p s =
    let (err, id) = libc.add_timeout in
    (
      err,
      some p,
      record s {
        alarms = (p, record { gmt = gmt; date_alarm = later now second; alarm_id = id }) ∷ s.alarms;
        loops = s.loops + 1;
        timeouts = if is_ok err then second % 2 ^ 32 * 1000 % 2 ^ 32 ∷ s.timeouts else s.timeouts;
      },
    )

-- Behind the tests: `malloc` is what that call returns, whose NULL is written through, and `loop`
-- whether the loop module can be requested.
unfoldable pub make_alarm :
    Libc → ℕ → ℕ → Option ℕ → Bool → System → Option (ArtikError × Option ℕ × System)
unfolding add_alarm
make_alarm libc gmt second malloc loop s =
    let now : ℤ = libc.mktime gmt (libc.get_sys gmt s.clock) in
    if is_neg now then some (e_bad_args, none, s) else elim malloc [
      | none ↦ none
      | some p ↦ if loop then some (add_alarm libc gmt second now p s) else some (e_busy, none, s)
    ]

-- `func` is whether the callback is set; the second result is `*handle`, and `none` is a fault.
unfoldable pub os_time_create_alarm_second :
    Libc → ℕ → ℕ → Bool → Option ℕ → Bool → System → Option (ArtikError × Option ℕ × System)
unfolding make_alarm
os_time_create_alarm_second libc gmt second func malloc loop s =
    if ltb gmt12 gmt || leb (2 ^ 31) (second % 2 ^ 32) || not func
    then some (e_bad_args, none, s)
    else make_alarm libc gmt second malloc loop (record s { zone = gmt })

-- `handle` is the value behind that pointer, and `none` the NULL pointer; 0 is a NULL behind it.
pub artik_time_create_alarm_second :
    Libc
    → ℕ
    → ℕ
    → Option ℕ
    → Bool
    → Option ℕ
    → Bool
    → System
    → Option (ArtikError × Option ℕ × System)
unfolding os_time_create_alarm_second
artik_time_create_alarm_second libc gmt sec none func malloc loop s = some (e_bad_args, none, s)
artik_time_create_alarm_second libc gmt sec (some handle) func malloc loop s =
    if not (handle == 0) || sec == 0
    then some (e_bad_args, none, s)
    else os_time_create_alarm_second libc gmt sec func malloc loop s

-- `free`, which faults for a handle that is not allocated.
unfoldable pub free_alarm : ℕ → List (ℕ × Alarm) → Option (List (ℕ × Alarm))
free_alarm p [] = none
free_alarm p ((q, a) ∷ rest) =
    let found = free_alarm p rest in
    if q == p then some rest else elim found [ none ↦ none | some l ↦ some ((q, a) ∷ l) ]

unfoldable pub os_time_delete_alarm : ℕ → System → Option (ArtikError × System)
unfolding free_alarm
os_time_delete_alarm handle s =
    if handle == 0 then some (s_ok, s) else elim (free_alarm handle s.alarms) [
      | none ↦ none
      | some l ↦ some (s_ok, record s { alarms = l })
    ]

pub artik_time_delete_alarm : ℕ → System → Option (ArtikError × System)
unfolding os_time_delete_alarm
artik_time_delete_alarm handle s =
    if handle == 0 then some (e_bad_args, s) else os_time_delete_alarm handle s
