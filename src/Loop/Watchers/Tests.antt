-- ===== src/Loop/Watchers/Tests.antt =====
-- tizenrt_loop.c: runs with one timeout.
use artik_sdk.Prelude.{ℕ, ◌≡◌, refl, true, false, none, some, [], ◌∷◌, arith, ◌==◌, if◌then◌else◌}
use artik_sdk.Error.{s_ok}
use artik_sdk.Loop.Vector.{align_power2_short_uint}
use artik_sdk.Loop.Vector.Refine.{items}
use artik_sdk.Loop.Watchers.{Entry, Watchers, Blocks, os_remove}
use artik_sdk.Loop.Watchers.Entries.{IsSound, has_id, keep}
use artik_sdk.Loop.Watchers.Removal.{os_remove_lem}

abbrev third : Entry
third = record { func = true; user_data = 9; handle = 128; fd = 0; id = 3 }

abbrev one : Watchers
one = record {
  vector = record { block = 64 ∷ []; len = 1 };
  heap = λ p. if p == 64 then some third else none;
  handles = λ h. if h == 128 then some 64 else none;
  started = λ h. h == 128;
  next_id = 4;
}

one-IsSound : IsSound one
unfolding align_power2_short_uint
one-IsSound = record {
  valid = record { fits = omega arith; small = omega arith };
  distinct = (tt, tt);
  live = ((third, refl, λ e. absurd (omega arith)), tt);
}

os_remove_lem_example :
    (s' : Watchers) × (os_remove 3 (λ i. true) one ≡ some (s_ok, s'))
    × IsSound s'
    × (items s'.vector ≡ keep one.heap 3 (items one.vector))
    × ((x : ℕ) → has_id one.heap 3 x ≡ false → s'.heap x ≡ one.heap x)
os_remove_lem_example = os_remove_lem 3 (λ i. true) one one-IsSound

abbrev blocks : Blocks
blocks = record { entry = 256; handle = 320; junk = third; realloc = true }
