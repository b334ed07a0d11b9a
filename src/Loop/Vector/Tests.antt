-- ===== src/Loop/Vector/Tests.antt =====
-- tizenrt_loop.c: runs of the vector.
use artik_sdk.Prelude.{◌≡◌, [], ◌∷◌, ◌++◌, arith, take, drop, true}
use artik_sdk.Error.{s_ok}
use artik_sdk.Loop.Vector.{Vector, ptr_vector_del, align_power2_short_uint}
use artik_sdk.Loop.Vector.Refine.{items, IsValid, ptr_vector_del-items}

abbrev three : Vector
three = record { block = 10 ∷ 20 ∷ 30 ∷ 0 ∷ []; len = 3 }

three-IsValid : IsValid three
unfolding align_power2_short_uint
three-IsValid = record { fits = omega arith; small = omega arith }

ptr_vector_del-items_example :
    let (err, v') = ptr_vector_del three 1 true in
    (err ≡ s_ok) × IsValid v' × (items v' ≡ take 1 (items three) ++ drop 2 (items three))
ptr_vector_del-items_example = ptr_vector_del-items three 1 true three-IsValid (omega arith)

abbrev full : Vector
full = record { block = []; len = 65535 }
