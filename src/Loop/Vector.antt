-- ===== src/Loop/Vector.antt =====
-- tizenrt_loop.c: the growing vector of pointers behind the timers and watches. The block that
-- `data` points to is the list of its slots, and NULL is the empty block; a fault is `none`.
pub mod Align
pub mod Refine
mod Tests
use artik_sdk.Prelude.{
  ℕ, zero, suc, ◌+◌, ◌-◌, ◌/◌, ◌%◌, ◌^◌, Bool, Option, none, some, List, [], ◌∷◌, ◌++◌, leb, ◌==◌,
  if◌then◌else◌, take, drop,
}
use artik_sdk.Error.{ArtikError, s_ok, e_invalid_value}

-- How many bits a number below 2 ^ fuel has: `32 - __builtin_clz(n)`.
unfoldable pub bit_length : ℕ → ℕ → ℕ
bit_length zero n = 0
bit_length (suc fuel) n = let rest = bit_length fuel (n / 2) in if n == 0 then 0 else suc rest

unfoldable pub clz32 : ℕ → ℕ
unfolding bit_length
clz32 n = 32 - bit_length 32 n

unfoldable pub align_power2_uint : ℕ → ℕ
unfolding clz32
align_power2_uint u =
    if leb u 1 then u else if leb (clz32 (u - 1)) 1 then 2 ^ 32 - 1 else 2 ^ (32 - clz32 (u - 1))

unfoldable pub align_power2_short_uint : ℕ → ℕ
unfolding align_power2_uint
align_power2_short_uint u = if leb (align_power2_uint u) 65535 then align_power2_uint u else 65535

-- `struct _vector` with elements of one pointer each.
pub record Vector : Type 0 where
  pub block : List ℕ
  pub len : ℕ

-- `realloc` keeps the slots that fit; what a new slot holds is not defined, and is 0 here.
pub resize : ℕ → List ℕ → List ℕ
resize zero block = []
resize (suc n) [] = 0 ∷ resize n []
resize (suc n) (x ∷ block) = x ∷ resize n block

-- A store to slot `i`, which faults outside the block.
pub store : List ℕ → ℕ → ℕ → Option (List ℕ)
store [] i x = none
store (y ∷ block) zero x = some (x ∷ block)
store (y ∷ block) (suc i) x = elim (store block i x) [ none ↦ none | some b ↦ some (y ∷ b) ]

abbrev pub uint16_mod : ℕ
uint16_mod = 2 ^ 16

-- `_vector_grow` by one; `realloc` is whether that call succeeds. Its NULL is stored unseen.
unfoldable pub vector_grow : Vector → Bool → Vector
unfolding resize
vector_grow v realloc =
    let new_len : ℕ = (v.len + 1) % uint16_mod in
    let new_cap : ℕ = align_power2_short_uint new_len in
    record {
      block =
          if new_cap == align_power2_short_uint v.len
          then v.block
          else if realloc
          then resize new_cap v.block
          else [];
      len = new_len;
    }

-- The slot of the last element: where the length has wrapped to 0 it lies in front of the block.
unfoldable pub put_last : Vector → ℕ → Option Vector
unfolding store
put_last v ptr = if v.len == 0 then none else elim (store v.block (v.len - 1) ptr) [
  | none ↦ none
  | some b ↦ some (record v { block = b })
]

unfoldable pub ptr_vector_append : Vector → ℕ → Bool → Option Vector
ptr_vector_append v ptr realloc = put_last (vector_grow v realloc) ptr

-- Where `realloc` fails to shrink, the old block stays.
unfoldable pub vector_shrink : Vector → Bool → Vector
unfolding resize
vector_shrink v realloc =
    if v.len == 0
    then record v { block = [] }
    else if align_power2_short_uint v.len == align_power2_uint (v.len + 1)
    then v
    else if realloc
    then record v { block = resize (align_power2_short_uint v.len) v.block }
    else v

-- `memmove` of the elements behind slot `i` onto it; the last slot keeps its element.
unfoldable pub move_down : ℕ → ℕ → List ℕ → List ℕ
move_down i tail_len block =
    take i block ++ (take tail_len (drop (suc i) block) ++ drop (i + tail_len) block)

unfoldable pub ptr_vector_del : Vector → ℕ → Bool → ArtikError × Vector
ptr_vector_del v i realloc = if leb v.len i then (e_invalid_value, v) else (
  s_ok,
  vector_shrink (record { block = move_down i (v.len - 1 - i) v.block; len = v.len - 1 }) realloc,
)
