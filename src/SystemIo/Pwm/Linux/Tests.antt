-- ===== src/SystemIo/Pwm/Linux/Tests.antt =====
-- Runs of linux_pwm.c on channel 1 of chip 2.
use artik_sdk.Prelude.{◌≡◌, refl, none, some, [], ◌∷◌}
use artik_sdk.Prelude.Int.{pos}
use artik_sdk.Prelude.Counting.{remove_one}
use artik_sdk.Error.{s_ok, is_ok}
use artik_sdk.SystemIo.Pwm.{Config, PwmData}
use artik_sdk.SystemIo.Pwm.Linux.{
  number, word, exp, uexp, enb, cycl, perd, polr, Files, os_pwm_request, os_pwm_release,
}
use artik_sdk.SystemIo.Pwm.Linux.Balance.{SameHeld, os_pwm_release-request}

abbrev config : Config
config = record {
  pin_num = pos 513;
  name = none;
  period = 1000;
  duty_cycle = 0;
  polarity = 0;
  user_data = none;
}

abbrev files : Files
files = record {
  opens = some 10 ∷ some 11 ∷ some 12 ∷ some 13 ∷ some 14 ∷ some 15 ∷ [];
  answers = [];
  held = [];
  log = [];
  blocks = 0;
}

abbrev channel : PwmData
channel = record {
  enb = some 11;
  cycl = some 12;
  perd = some 13;
  polr = some 14;
  chip = 2;
  port = 1;
}

abbrev running : Files
running = record {
  opens = some 15 ∷ [];
  answers = [];
  held = 14 ∷ 13 ∷ 12 ∷ 11 ∷ [];
  log =
      (enb, word "1")
      ∷ (polr, word "normal")
      ∷ (cycl, number (pos 500))
      ∷ (perd, number (pos 1000))
      ∷ (exp, number (pos 1))
      ∷ [];
  blocks = 2;
}

abbrev stopped : Files
stopped = record {
  opens = [];
  answers = [];
  held = [];
  log =
      (uexp, number (pos 1))
      ∷ (enb, word "0")
      ∷ (enb, word "1")
      ∷ (cycl, number (pos 0))
      ∷ (enb, word "0")
      ∷ running.log;
  blocks = 0;
}

request_run :
    os_pwm_request config files
    ≡ (s_ok, record config { duty_cycle = 500; user_data = some channel }, running)
unfolding os_pwm_request is_ok remove_one
request_run = refl

release_run : os_pwm_release channel running ≡ (s_ok, stopped)
unfolding os_pwm_release is_ok remove_one
release_run = refl

os_pwm_release-request_example : SameHeld stopped files
os_pwm_release-request_example =
    os_pwm_release-request config (record config { duty_cycle = 500; user_data = some channel })
      channel files running stopped request_run refl release_run

-- The second of the four files is not there.
abbrev broken : Files
broken = record files { opens = some 10 ∷ some 11 ∷ none ∷ []; answers = 0 ∷ [] }
