-- ===== src/Prelude/Text.antt =====
-- Texts as lists of bytes, and `snprintf`.
use Prim.Native.Char
use Prim.Native.String.{String}
use Prim.Native.Nat.{ℕ, ◌-◌}
use mathlib.Core.List.{List, [], ◌∷◌}
use artik_sdk.Prelude.Lists.{take}

abbrev pub Bytes : Type 0
Bytes = List ℕ

-- The bytes of a literal.
unfoldable pub codes : String → Bytes
codes String.[] = []
codes (String.◌∷◌ c s) = Char.code c ∷ codes s

-- `snprintf` into a buffer of `size` bytes, the NUL left out.
abbrev pub snprintf : ℕ → Bytes → Bytes
snprintf size text = take (size - 1) text
