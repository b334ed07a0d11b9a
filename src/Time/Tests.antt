-- ===== src/Time/Tests.antt =====
-- src/modules/base/time: runs on two dates and one alarm.
use artik_sdk.Prelude.{◌↔◌, ◌+◌, ◌*◌, ◌/◌, ◌%◌, ◌^◌, ◌≡◌, ◌≢◌, refl, true, some, [], ◌∷◌, arith}
use artik_sdk.Prelude.Int.{pos, negsuc}
use artik_sdk.Error.{s_ok}
use artik_sdk.Time.{ArtikTime, Tm, Libc, System, to_tm, artik_time_compare_dates}
use artik_sdk.Time.Dates.{
  Calendar, artik_time_convert_timestamp_to_time, artik_time_convert_time_to_timestamp,
  os_time_convert_lem,
}
use artik_sdk.Time.Order.{IsBefore, opposite, artik_time_compare_dates_lem}
use artik_sdk.Time.Clock.{IsDate}

abbrev noon : ArtikTime
noon = record {
  second = 0;
  minute = 0;
  hour = 12;
  day = 1;
  month = 3;
  year = 2017;
  day_of_week = 3;
  msecond = 0;
}

abbrev later_noon : ArtikTime
later_noon = record noon { minute = 5 }

artik_time_compare_dates_lem_example :
    ((artik_time_compare_dates (some noon) (some later_noon) ≡ negsuc 0) ↔ IsBefore noon later_noon)
    × ((artik_time_compare_dates (some noon) (some later_noon) ≡ pos 1) ↔ IsBefore later_noon noon)
    × (artik_time_compare_dates (some later_noon) (some noon)
        ≡ opposite (artik_time_compare_dates (some noon) (some later_noon)))
    × (artik_time_compare_dates (some noon) (some later_noon) ≢ negsuc 0
        → artik_time_compare_dates (some later_noon) (some noon) ≢ negsuc 0
        → artik_time_compare_dates (some noon) (some noon) ≢ negsuc 0)
    × (artik_time_compare_dates (some noon) (some later_noon) ≡ pos 0
        → noon ≡ record later_noon { day_of_week = 3 })
artik_time_compare_dates_lem_example = artik_time_compare_dates_lem noon later_noon noon

-- A calendar of one day, on a clock that may be set.
abbrev libc : Libc
libc = record {
  mktime = λ zone t. pos (t.tm_hour * 3600 + t.tm_min * 60 + t.tm_sec);
  may_set = true;
  get_sys = λ zone now. to_tm noon;
  add_timeout = (s_ok, 7);
}

abbrev fresh : System
fresh = record { zone = 0; clock = pos 0; alarms = []; loops = 0; timeouts = [] }

noon-IsDate : IsDate noon
noon-IsDate = record {
  second = omega arith;
  minute = omega arith;
  hour = omega arith;
  day = (omega arith, omega arith);
  month = (omega arith, omega arith);
  year = (omega arith, omega arith);
  day_of_week = omega arith;
  msecond = omega arith;
}

abbrev waiting : System
waiting = record fresh {
  zone = 2;
  alarms = (64, record { gmt = 2; date_alarm = pos 43205; alarm_id = 7 }) ∷ [];
  loops = 1;
  timeouts = 5000 ∷ [];
}

-- A calendar of the first of January 1970.
abbrev first_day : Calendar
first_day = record {
  gmtime = λ t. some (record {
    tm_sec = t % 60;
    tm_min = t / 60 % 60;
    tm_hour = t / 3600 % 24;
    tm_mday = 1;
    tm_mon = 0;
    tm_year = 70;
    tm_wday = 4;
  });
  timegm = λ t. pos (t.tm_hour * 3600 + t.tm_min * 60 + t.tm_sec);
}

abbrev last_second : Tm
last_second = record {
  tm_sec = 59;
  tm_min = 59;
  tm_hour = 23;
  tm_mday = 1;
  tm_mon = 0;
  tm_year = 70;
  tm_wday = 4;
}

-- With a bit behind the 32 that are kept.
os_time_convert_lem_example :
    ((artik_time_convert_timestamp_to_time first_day (pos (2 ^ 32 + 86399)) true).0 ≡ s_ok)
    × (artik_time_convert_time_to_timestamp first_day
          (artik_time_convert_timestamp_to_time first_day (pos (2 ^ 32 + 86399)) true).1
          true
        ≡ (s_ok, some (pos 86399)))
os_time_convert_lem_example =
    os_time_convert_lem first_day (pos (2 ^ 32 + 86399)) last_second (record {
      broken_down = refl;
      inverse = refl;
      seconds = omega arith;
      minutes = omega arith;
      hours = omega arith;
      days = (omega arith, omega arith);
      months = omega arith;
      years = omega arith;
      weekdays = omega arith;
    })

later_noon-IsDate : IsDate later_noon
later_noon-IsDate = record {
  second = omega arith;
  minute = omega arith;
  hour = omega arith;
  day = (omega arith, omega arith);
  month = (omega arith, omega arith);
  year = (omega arith, omega arith);
  day_of_week = omega arith;
  msecond = omega arith;
}
