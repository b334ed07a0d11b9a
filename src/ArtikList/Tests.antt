-- ===== src/ArtikList/Tests.antt =====
-- inc/base/artik_list.h: runs of the theorems on a list of two nodes.
use artik_sdk.Prelude.{ℕ, ◌+◌, none, some, [], ◌∷◌, arith, true, false}
use artik_sdk.ArtikList.{ArtikList, Node}
use artik_sdk.ArtikList.Deletion.{IsDistinct}

-- A node whose payload is a number and that has a `clear` callback.
abbrev first : Node ℕ
first = record {
  addr = 64;
  handle = 64;
  size_data = 56;
  clear = true;
  copy = some (λ dest src. src + 1);
  payload = 5;
}

abbrev second : Node ℕ
second = record { addr = 128; handle = 7; size_data = 56; clear = false; copy = none; payload = 9 }

abbrev two : ArtikList ℕ
two = first ∷ second ∷ []

abbrev third : Node ℕ
third = record { addr = 192; handle = 192; size_data = 56; clear = false; copy = none; payload = 0 }

two-IsDistinct : IsDistinct two
two-IsDistinct = (((λ e. absurd (omega arith)), tt), (tt, tt))
