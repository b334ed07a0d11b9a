-- ===== src/SystemIo/Gpio/Tests.antt =====
-- linux_gpio.c: runs on one pin.
use artik_sdk.Prelude.{true, none, some, [], ◌∷◌}
use artik_sdk.Prelude.Int.{pos}
use artik_sdk.Error.{s_ok, e_busy}
use artik_sdk.SystemIo.Handles.{State}
use artik_sdk.SystemIo.Gpio.{
  Config, Sysfs, gpio_out, gpio_in, edge_none, edge_both, value, word, zero_data,
}
use artik_sdk.SystemIo.Gpio.Writes.{script}
use artik_sdk.SystemIo.Gpio.Callback.{Answers, Held}
use artik_sdk.SystemIo.Gpio.Table.{artik_gpio_request}

abbrev led : Config
led = record {
  id = 24;
  name = none;
  dir = gpio_out;
  edge = edge_none;
  initial_value = pos 1;
  user_data = none;
}

abbrev quiet : Sysfs
quiet = record { answers = []; log = []; input = none; memory = true }

-- The direction cannot be written.
abbrev refusing : Sysfs
refusing = record { answers = 0 ∷ 13 ∷ []; log = []; input = none; memory = true }

abbrev set_up : Sysfs
set_up = record quiet { log = script led }

abbrev lit : Sysfs
lit = record quiet { log = (value 24, word "1") ∷ [] }

abbrev button : Config
button = record {
  id = 25;
  name = none;
  dir = gpio_in;
  edge = edge_both;
  initial_value = pos 0;
  user_data = some zero_data;
}

abbrev nothing : Held
nothing = record { loops = 0; files = 0; watches = 0 }

abbrev agreeing : Answers
agreeing = record {
  fd = pos 5;
  lseek = true;
  read = true;
  loop = true;
  add_fd_watch = s_ok;
  watch_id = pos 3;
}

-- The watch is refused, after the file has been opened and the loop module requested.
abbrev no_watch : Answers
no_watch = record agreeing { add_fd_watch = e_busy }

abbrev watching : Config
watching = record button {
  user_data = some (record { watch_id = pos 3; fd = pos 5; callback = true; loop = true });
}

abbrev one : Held
one = record { loops = 1; files = 1; watches = 1 }

abbrev idle : State Config Sysfs
idle = record { requested_node = []; world = quiet }

abbrev opened_led : State Config Sysfs
opened_led = (artik_gpio_request idle led (some 64)).2
