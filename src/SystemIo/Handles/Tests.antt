-- ===== src/SystemIo/Handles/Tests.antt =====
-- The handle tables: runs of the PWM module over a layer that counts its open channels.
use artik_sdk.Prelude.{ℕ, ◌+◌, ◌-◌, ◌≡◌, refl, false, none, some, [], ◌∷◌, arith}
use artik_sdk.Prelude.Int.{pos}
use artik_sdk.Error.{s_ok}
use artik_sdk.ArtikList.{Node}
use artik_sdk.SystemIo.Handles.{State, Driver, request, release}
use artik_sdk.SystemIo.Handles.Spec.{request_spec, release_spec}
use artik_sdk.SystemIo.Handles.Invariant.{IsTable}
use artik_sdk.SystemIo.Handles.Refine.{shown, shown_release, request_refines, release_refines}
use artik_sdk.SystemIo.Handles.Exclusive.{
  KeepsKey, IsSound, here, next, requested, released, Reach-IsSound,
}
use artik_sdk.SystemIo.Pwm
use artik_sdk.SystemIo.Adc

abbrev counting : {C : Type 0} → Driver C ℕ
counting = record { request = λ c w. (s_ok, c, w + 1); release = λ c w. (s_ok, c, w - 1) }

abbrev pwm : Pwm.Os ℕ
pwm = record {
  driver = counting;
  enable = λ c on w. (s_ok, c, w);
  set_period = λ c v w. (s_ok, c, w);
  set_polarity = λ c v w. (s_ok, c, w);
  set_duty_cycle = λ c v w. (s_ok, c, w);
}

abbrev channel : Pwm.Config
channel = record {
  pin_num = pos 2;
  name = none;
  period = 100;
  duty_cycle = 50;
  polarity = 0;
  user_data = none;
}

abbrev node : Node Pwm.Config
node = record {
  addr = 64;
  handle = 64;
  size_data = 88;
  clear = false;
  copy = none;
  payload = channel;
}

abbrev one_open : State Pwm.Config ℕ
one_open = record { requested_node = node ∷ []; world = 1 }

abbrev other : Pwm.Config
other = record channel { pin_num = pos 3 }

request_refines_example :
    shown (Pwm.pwm_frontend pwm) (request (Pwm.pwm_frontend pwm) one_open other (some 128))
    ≡ request_spec (Pwm.pwm_frontend pwm) ((64, channel) ∷ []) 1 other 128
request_refines_example =
    request_refines (Pwm.pwm_frontend pwm) one_open other 128 (λ e. absurd (omega arith))
      ((λ e. absurd (omega arith)), tt)

one_open-IsTable : IsTable one_open.requested_node
one_open-IsTable = ((refl, λ e. absurd (omega arith)), tt, tt)

release_refines_example :
    shown_release (Pwm.pwm_frontend pwm) (release (Pwm.pwm_frontend pwm) one_open 64)
    ≡ release_spec (Pwm.pwm_frontend pwm) ((64, channel) ∷ []) 1 64
release_refines_example = release_refines (Pwm.pwm_frontend pwm) one_open 64 one_open-IsTable

pwm-KeepsKey : KeepsKey (Pwm.pwm_frontend pwm)
pwm-KeepsKey = record {
  on_request = λ x c w. refl;
  on_release_left = λ x c w. refl;
  on_release_right = λ x c w. refl;
}

abbrev two_open : State Pwm.Config ℕ
two_open = (request (Pwm.pwm_frontend pwm) one_open other (some 128)).2

-- A second channel is opened and the first closed.
Reach-IsSound_example :
    IsSound (Pwm.pwm_frontend pwm) (release (Pwm.pwm_frontend pwm) two_open 64).1
Reach-IsSound_example =
    Reach-IsSound (Pwm.pwm_frontend pwm) pwm-KeepsKey
      (record { table = one_open-IsTable; apart = (tt, tt) })
      (next
        (next here (
          requested one_open other 128 (λ e. absurd (omega arith))
            ((λ e. absurd (omega arith)), tt)))
        (released two_open 64))

abbrev adc : Adc.Os ℕ
adc = record { driver = counting; get_value = λ c w. ((s_ok, some (pos 7)), c, w) }

abbrev unopened : State Adc.Config ℕ
unopened = record { requested_node = []; world = 0 }

abbrev input : Adc.Config
input = record { pin_num = pos 0; name = none; user_data = none }
