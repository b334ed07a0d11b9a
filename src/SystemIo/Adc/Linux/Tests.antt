-- ===== src/SystemIo/Adc/Linux/Tests.antt =====
-- Runs of linux_adc.c on a channel whose file cannot be read.
use artik_sdk.Prelude.{ℕ, Option, none, some, []}
use artik_sdk.Prelude.Int.{pos}
use artik_sdk.Prelude.Text.{Bytes}
use artik_sdk.SystemIo.Adc.Linux.{AdcData, Device}

abbrev unreadable : Device
unreadable = record {
  opens = λ pin. some 5;
  input = λ f. none;
  held = [];
  blocks = 2;
  mallocs = [];
}

abbrev channel : AdcData
channel = record { pin = pos 3 }

-- No text is a number.
abbrev no_number : Bytes → Option ℕ
no_number text = none
