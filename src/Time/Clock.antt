-- ===== src/Time/Clock.antt =====
-- linux_time.c: setting the clock, and the life of an alarm.
use artik_sdk.Prelude.{
  ℕ, ◌+◌, ◌*◌, ◌%◌, ◌^◌, ◌≤◌, ◌<◌, ◌≡◌, ◌≢◌, refl, Bool, true, false, some, ◌∷◌, arith, ltb,
  Bool-cases, inl, inr, ◌⊎◌,
}
use artik_sdk.Prelude.Int.{is_neg}
use artik_sdk.Error.{s_ok, is_ok-s_ok}
use artik_sdk.Time.{
  ArtikTime, Libc, System, to_tm, gmt12, is_bad_date, os_time_set_time,
  artik_time_create_alarm_second, artik_time_delete_alarm,
}

-- A date whose fields are in their ranges.
pub record IsDate (d : ArtikTime) : Type 0 where
  pub second : d.second ≤ 59
  pub minute : d.minute ≤ 59
  pub hour : d.hour ≤ 23
  pub day : (1 ≤ d.day) × (d.day ≤ 31)
  pub month : (1 ≤ d.month) × (d.month ≤ 12)
  pub year : (1900 ≤ d.year) × (d.year < 2 ^ 31)
  pub day_of_week : d.day_of_week ≤ 6
  pub msecond : d.msecond < 2 ^ 31

is_bad_date-IsDate : (d : ArtikTime) → is_bad_date d ≡ false → IsDate d
unfolding is_bad_date
is_bad_date-IsDate d h = record {
  second = ground arith;
  minute = ground arith;
  hour = ground arith;
  day = (ground arith, ground arith);
  month = (ground arith, ground arith);
  year = (ground arith, ground arith);
  day_of_week = ground arith;
  msecond = ground arith;
}

pub IsDate-is_bad_date : (d : ArtikTime) → IsDate d → is_bad_date d ≡ false
unfolding is_bad_date
IsDate-is_bad_date d h =
    ground (arith, h.second, h.minute, h.hour, h.day, h.month, h.year, h.day_of_week, h.msecond)

-- The clock is set only in a known time zone and for a date whose fields are in their ranges, and
-- then to what `mktime` makes of it; otherwise it stays.
pub os_time_set_time_lem :
    (libc : Libc) (d : ArtikTime) (gmt : ℕ) (s : System)
    → let (err, s') = os_time_set_time libc d gmt s in
      ((err ≡ s_ok) × IsDate d × (gmt ≤ 12) × (s'.clock ≡ libc.mktime gmt (to_tm d)))
      ⊎ ((err ≢ s_ok) × (s'.clock ≡ s.clock))
unfolding os_time_set_time
os_time_set_time_lem libc d gmt s = elim (Bool-cases (is_bad_date d)) [
  | inl e ↦ inr (ground arith)
  | inr e ↦ elim (Bool-cases (ltb gmt12 gmt)) [
    | inl g ↦ inr (ground arith)
    | inr g ↦ elim (Bool-cases (is_neg (libc.mktime gmt (to_tm d)))) [
      | inl n ↦ inr (ground arith)
      | inr n ↦ elim (Bool-cases libc.may_set) [
        | inl m ↦ inl (ground arith, is_bad_date-IsDate d e, ground arith, ground arith)
        | inr m ↦ inr (ground arith)
      ]
    ]
  ]
]

-- In a known time zone, for a date whose fields are in their ranges and that `mktime` does not put
-- before 1970, a process that may set the clock sets it.
pub os_time_set_time-ok :
    (libc : Libc) (d : ArtikTime) (gmt : ℕ) (s : System)
    → IsDate d
    → gmt ≤ 12
    → is_neg (libc.mktime gmt (to_tm d)) ≡ false
    → libc.may_set ≡ true
    → os_time_set_time libc d gmt s
      ≡ (s_ok, record s { zone = gmt; clock = libc.mktime gmt (to_tm d) })
unfolding os_time_set_time
os_time_set_time-ok libc d gmt s v g n m =
    let e : is_bad_date d ≡ false = IsDate-is_bad_date d v in ground arith

-- An alarm that is set and deleted leaves its timeout registered, which fires after the delay
-- reduced to 32 bits of milliseconds, and one reference to the loop module more than before.
pub artik_time_delete_alarm-leak :
    (libc : Libc) (gmt sec p : ℕ) (func loop : Bool) (s s' : System)
    → p ≢ 0
    → artik_time_create_alarm_second libc gmt sec (some 0) func (some p) loop s
      ≡ some (s_ok, some p, s')
    → (s'' : System) × (artik_time_delete_alarm p s' ≡ some (s_ok, s''))
      × (s''.alarms ≡ s.alarms)
      × (s''.loops ≡ s.loops + 1)
      × (s''.timeouts ≡ sec % 2 ^ 32 * 1000 % 2 ^ 32 ∷ s.timeouts)
unfolding artik_time_create_alarm_second artik_time_delete_alarm
artik_time_delete_alarm-leak libc gmt sec p func loop s s' z h = (
  record s' { alarms = s.alarms },
  ground arith,
  refl,
  ground (arith, is_ok-s_ok),
  ground (arith, is_ok-s_ok),
)
