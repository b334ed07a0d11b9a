-- ===== src/Time/Dates.antt =====
-- linux_time.c: the time as a date, and dates and timestamps turned into each other. libc's calendar
-- in UTC is a parameter.
use artik_sdk.Prelude.{
  ℕ, ◌+◌, ◌-◌, ◌*◌, ◌%◌, ◌≡◌, ◌≤◌, ◌<◌, ◌∙◌, ap, ap₂, Bool, true, false, not, ◌||◌, Option, none,
  some, ◌∷◌, ltb, leb, ◌==◌, if◌then◌else◌, arith,
}
use artik_sdk.Prelude.Int.{ℤ, pos, negsuc, is_neg}
use artik_sdk.Error.{ArtikError, is_ok, s_ok, e_bad_args, e_invalid_value}
use artik_sdk.Time.Clock.{IsDate, IsDate-is_bad_date}
use artik_sdk.Time.{
  ArtikTime, Tm, Libc, System, os_time_create_alarm_second, to_tm, is_bad_date, epoch_def, gmt12,
}

-- `gmtime` of a `time_t` that is not negative, and `timegm`.
pub record Calendar : Type 0 where
  pub gmtime : ℕ → Option Tm
  pub timegm : Tm → ℤ

abbrev pub no_date : ArtikTime
no_date = record {
  second = 0;
  minute = 0;
  hour = 0;
  day = 0;
  month = 0;
  year = 0;
  day_of_week = 0;
  msecond = 0;
}

abbrev pub of_tm : Tm → ℕ → ArtikTime
of_tm t msecond = record {
  second = t.tm_sec;
  minute = t.tm_min;
  hour = t.tm_hour;
  day = t.tm_mday;
  month = t.tm_mon + 1;
  year = t.tm_year + epoch_def;
  day_of_week = t.tm_wday;
  msecond = msecond;
}

-- `timestamp & 0xFFFFFFFF` of an `int64_t`.
abbrev pub low_word : ℤ → ℕ
low_word (pos n) = n % 4294967296
low_word (negsuc n) = 4294967295 - n % 4294967296

abbrev pub dated : Option Tm → ArtikError × ArtikTime
dated none = (e_invalid_value, no_date)
dated (some t) = (s_ok, of_tm t 0)

unfoldable pub os_time_convert_timestamp_to_time : Calendar → ℤ → ArtikError × ArtikTime
os_time_convert_timestamp_to_time cal timestamp = dated (cal.gmtime (low_word timestamp))

-- The error, and the timestamp if one is stored.
abbrev pub stamped : ℤ → ArtikError × Option ℤ
stamped t = if is_neg t then (e_invalid_value, some t) else (s_ok, some t)

unfoldable pub os_time_convert_time_to_timestamp : Calendar → ArtikTime → ArtikError × Option ℤ
unfolding is_bad_date
os_time_convert_time_to_timestamp cal d =
    if is_bad_date d then (e_bad_args, none) else stamped (cal.timegm (to_tm d))

-- artik_time.c: the tests of the pointers in front of the two.
unfoldable pub artik_time_convert_timestamp_to_time :
    Calendar → ℤ → Bool → ArtikError × Option ArtikTime
unfolding os_time_convert_timestamp_to_time
artik_time_convert_timestamp_to_time cal timestamp place =
    let r = os_time_convert_timestamp_to_time cal timestamp in
    if place then (r.0, some r.1) else (e_bad_args, none)

unfoldable pub artik_time_convert_time_to_timestamp :
    Calendar → Option ArtikTime → Bool → ArtikError × Option ℤ
unfolding os_time_convert_time_to_timestamp
artik_time_convert_time_to_timestamp cal none place = (e_bad_args, none)
artik_time_convert_time_to_timestamp cal (some d) place =
    if place then os_time_convert_time_to_timestamp cal d else (e_bad_args, none)

abbrev pub read_date : Option Tm → ℕ → System → ArtikError × Option ArtikTime × System
read_date none tick s = (e_bad_args, none, s)
read_date (some t) tick s = (s_ok, some (of_tm t (tick % 1000)), s)

-- `os_time_get_time`: `clock` is whether `gettimeofday` answers, `local` the local time if there is one,
-- and `tick` the milliseconds of the clock. The time zone is set first, in `os_time_get_sys`.
unfoldable pub os_time_get_time :
    Bool → (ℕ → Option Tm) → ℕ → ℕ → Bool → System → ArtikError × Option ArtikTime × System
os_time_get_time clock local tick gmt place s =
    if not place || ltb gmt12 gmt
    then (e_bad_args, none, s)
    else if not clock
    then (e_bad_args, none, s)
    else read_date (local gmt) tick (record s { zone = gmt })

abbrev pub delay : ℤ → ℤ → ArtikError × Option ℕ
delay (negsuc n) date = (e_invalid_value, none)
delay (pos now) (negsuc n) = (e_invalid_value, none)
delay (pos now) (pos date) = (s_ok, if leb now date then some (date - now) else none)

-- `os_time_create_alarm_date` behind its tests: the delay to the date in the time zone, as seconds.
-- A date that has gone by is `none`, since a negative double has no value as an `artik_msecond`.
unfoldable pub alarm_delay : Libc → ℕ → ArtikTime → System → ArtikError × Option ℕ
alarm_delay libc gmt d s =
    delay (libc.mktime gmt (libc.get_sys gmt s.clock)) (libc.mktime gmt (to_tm d))

abbrev pub after :
    Option ℕ
    → (ℕ → Option (ArtikError × Option ℕ × System))
    → Option (ArtikError × Option ℕ × System)
after none call = none
after (some second) call = call second

abbrev pub alarm_after :
    ArtikError × Option ℕ
    → System
    → (ℕ → Option (ArtikError × Option ℕ × System))
    → Option (ArtikError × Option ℕ × System)
alarm_after (err, second) s call = if is_ok err then after second call else some (err, none, s)

-- The result is `none` for a conversion without a value, or a fault of the alarm. The clock is read
-- for the delay and again by `os_time_create_alarm_second`: `clock` is what it shows then.
unfoldable pub os_time_create_alarm_date :
    Libc
    → ℕ
    → ArtikTime
    → Bool
    → Option ℕ
    → Bool
    → ℤ
    → System
    → Option (ArtikError × Option ℕ × System)
unfolding alarm_delay is_ok
os_time_create_alarm_date libc gmt d func malloc loop clock s =
    if ltb gmt12 gmt || not func || is_bad_date d
    then some (e_bad_args, none, s)
    else alarm_after (alarm_delay libc gmt d s) (record s { zone = gmt })
        (λ second.
          os_time_create_alarm_second libc gmt second func malloc loop
            (record s { zone = gmt; clock = clock }))

-- `handle` is the value behind that pointer, and `none` the NULL pointer.
unfoldable pub artik_time_create_alarm_date :
    Libc
    → ℕ
    → ArtikTime
    → Option ℕ
    → Bool
    → Option ℕ
    → Bool
    → ℤ
    → System
    → Option (ArtikError × Option ℕ × System)
unfolding os_time_create_alarm_date
artik_time_create_alarm_date libc gmt d none func malloc loop clock s = some (e_bad_args, none, s)
artik_time_create_alarm_date libc gmt d (some handle) func malloc loop clock s =
    if handle == 0
    then os_time_create_alarm_date libc gmt d func malloc loop clock s
    else some (e_bad_args, none, s)

-- What POSIX says of the two functions, for a time of 32 bits.
pub record IsCalendar (cal : Calendar) (t : ℕ) (tm : Tm) : Type 0 where
  pub broken_down : cal.gmtime t ≡ some tm
  pub inverse : cal.timegm tm ≡ pos t
  pub seconds : tm.tm_sec ≤ 59
  pub minutes : tm.tm_min ≤ 59
  pub hours : tm.tm_hour ≤ 23
  pub days : (1 ≤ tm.tm_mday) × (tm.tm_mday ≤ 31)
  pub months : tm.tm_mon ≤ 11
  pub years : tm.tm_year < 2147480000
  pub weekdays : tm.tm_wday ≤ 6

good : (cal : Calendar) (t : ℕ) (tm : Tm) → IsCalendar cal t tm → is_bad_date (of_tm tm 0) ≡ false
good cal t tm c = IsDate-is_bad_date (of_tm tm 0) (record {
  second = c.seconds;
  minute = c.minutes;
  hour = c.hours;
  day = c.days;
  month = (omega arith, omega (arith, c.months));
  year = (omega arith, omega (arith, c.years));
  day_of_week = c.weekdays;
  msecond = omega arith;
})

back : (tm : Tm) → to_tm (of_tm tm 0) ≡ tm
back tm =
    ap₂ (λ m y. record tm { tm_mon = m; tm_year = y })
      (let e : tm.tm_mon + 1 - 1 ≡ tm.tm_mon = omega arith in e)
      (let e : tm.tm_year + epoch_def - epoch_def ≡ tm.tm_year = omega arith in e)

stamp :
    (cal : Calendar) (t : ℕ) (tm : Tm)
    → IsCalendar cal t tm
    → os_time_convert_time_to_timestamp cal (of_tm tm 0) ≡ (s_ok, some (pos t))
unfolding os_time_convert_time_to_timestamp
stamp cal t tm c =
    ap (λ b. if b then (e_bad_args, none) else stamped (cal.timegm (to_tm (of_tm tm 0))))
      (good cal t tm c)
    ∙ ap (λ x. stamped (cal.timegm x)) (back tm)
    ∙ ap stamped c.inverse

-- A timestamp is turned into a date, and the date back into a timestamp, where the calendar takes the
-- time of its low 32 bits apart and puts it together: both succeed, and the result is the low 32
-- bits, so the same timestamp if it was from 0 to 2^32 - 1.
pub os_time_convert_lem :
    (cal : Calendar) (timestamp : ℤ) (tm : Tm)
    → IsCalendar cal (low_word timestamp) tm
    → ((artik_time_convert_timestamp_to_time cal timestamp true).0 ≡ s_ok)
      × (artik_time_convert_time_to_timestamp cal
            (artik_time_convert_timestamp_to_time cal timestamp true).1
            true
          ≡ (s_ok, some (pos (low_word timestamp))))
unfolding artik_time_convert_timestamp_to_time artik_time_convert_time_to_timestamp
    os_time_convert_timestamp_to_time
os_time_convert_lem cal timestamp tm c = (
  ap (λ o. (dated o).0) c.broken_down,
  ap (λ o. os_time_convert_time_to_timestamp cal (dated o).1) c.broken_down
      ∙ stamp cal (low_word timestamp) tm c,
)

tests :
    (gmt : ℕ) (d : ArtikTime)
    → gmt ≤ 12
    → IsDate d
    → (ltb gmt12 gmt || not true || is_bad_date d) ≡ false
tests gmt d g k = ground (arith, IsDate-is_bad_date d k)

delayed :
    (libc : Libc) (gmt : ℕ) (d : ArtikTime) (now date : ℕ) (s : System)
    → libc.mktime gmt (libc.get_sys gmt s.clock) ≡ pos now
    → libc.mktime gmt (to_tm d) ≡ pos date
    → now ≤ date
    → alarm_delay libc gmt d s ≡ (s_ok, some (date - now))
unfolding alarm_delay
delayed libc gmt d now date s n t l = ap₂ delay n t ∙ ground arith

alarm_set :
    (libc : Libc) (gmt p now seconds : ℕ) (s : System)
    → libc.mktime gmt (libc.get_sys gmt s.clock) ≡ pos now
    → gmt ≤ 12
    → seconds < 2147483648
    → os_time_create_alarm_second libc gmt seconds true (some p) true s
      ≡ some (
        libc.add_timeout.0,
        some p,
        record s {
          zone = gmt;
          alarms =
              (
                p,
                record {
                  gmt = gmt;
                  date_alarm = pos (now + seconds);
                  alarm_id = libc.add_timeout.1;
                },
              )
              ∷ s.alarms;
          loops = s.loops + 1;
          timeouts =
              if is_ok libc.add_timeout.0
              then seconds * 1000 % 4294967296 ∷ s.timeouts
              else s.timeouts;
        },
      )
unfolding os_time_create_alarm_second
alarm_set libc gmt p now seconds s n g m = ground arith

-- An alarm at a date from now on that is less than 2^31 seconds ahead, in a known time zone, with a
-- callback, memory and the loop module: its timeout is the seconds to the date at the first reading of
-- the clock, taken as 32 bits of milliseconds, and its time is that many seconds behind the second.
pub artik_time_create_alarm_date_lem :
    (libc : Libc) (gmt : ℕ) (d : ArtikTime) (p now then_ date : ℕ) (clock : ℤ) (s : System)
    → gmt ≤ 12
    → IsDate d
    → libc.mktime gmt (libc.get_sys gmt s.clock) ≡ pos now
    → libc.mktime gmt (libc.get_sys gmt clock) ≡ pos then_
    → libc.mktime gmt (to_tm d) ≡ pos date
    → now ≤ date
    → date - now < 2147483648
    → artik_time_create_alarm_date libc gmt d (some 0) true (some p) true clock s
      ≡ some (
        libc.add_timeout.0,
        some p,
        record s {
          zone = gmt;
          clock = clock;
          alarms =
              (
                p,
                record {
                  gmt = gmt;
                  date_alarm = pos (then_ + (date - now));
                  alarm_id = libc.add_timeout.1;
                },
              )
              ∷ s.alarms;
          loops = s.loops + 1;
          timeouts =
              if is_ok libc.add_timeout.0
              then (date - now) * 1000 % 4294967296 ∷ s.timeouts
              else s.timeouts;
        },
      )
unfolding artik_time_create_alarm_date
artik_time_create_alarm_date_lem libc gmt d p now then_ date clock s g k n o t l m =
    let s' : System = record s { zone = gmt } in
    let s2 : System = record s { zone = gmt; clock = clock } in
    let call : ℕ → Option (ArtikError × Option ℕ × System) =
      λ second. os_time_create_alarm_second libc gmt second true (some p) true s2 in
    ap
      (λ (b : Bool).
        if b then some (e_bad_args, none, s) else alarm_after (alarm_delay libc gmt d s) s' call)
      (tests gmt d g k)
    ∙ ap (λ x. alarm_after x s' call) (delayed libc gmt d now date s n t l)
    ∙ alarm_set libc gmt p then_ (date - now) s2 o g m
