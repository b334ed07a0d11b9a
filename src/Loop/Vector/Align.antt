-- ===== src/Loop/Vector/Align.antt =====
-- tizenrt_loop.c: the capacities that `align_power2` asks for.
use native.Mathlib.Nat.{pow-suc, le_trans}
use artik_sdk.Prelude.{
  ℕ, zero, suc, ◌-◌, ◌/◌, ◌^◌, ◌≤◌, ◌<◌, ◌≡◌, true, false, arith, leb, ◌==◌, Bool-cases, inl, inr,
  if◌then◌else◌,
}
use artik_sdk.Loop.Vector.{bit_length, clz32, align_power2_uint, align_power2_short_uint}

lt-pow-bit_length : (fuel n : ℕ) → n < 2 ^ fuel → n < 2 ^ bit_length fuel n
unfolding bit_length
lt-pow-bit_length zero n h = h
lt-pow-bit_length (suc fuel) n h = elim (Bool-cases (n == 0)) [
  | inl e ↦ rw e (ground arith)
  | inr e ↦
      rw (e, pow-suc)
        (omega (arith, lt-pow-bit_length fuel (n / 2) (omega (arith, pow-suc 2 fuel))))
]

bit_length-le : (fuel n : ℕ) → bit_length fuel n ≤ fuel
unfolding bit_length
bit_length-le zero n = omega arith
bit_length-le (suc fuel) n = ground (arith, bit_length-le fuel (n / 2))

-- Of every 32 bit number: the capacity that is asked for holds that many elements.
pub le-align_power2_uint : (u : ℕ) → u < 2 ^ 32 → u ≤ align_power2_uint u
unfolding align_power2_uint
le-align_power2_uint u h = elim (Bool-cases (leb u 1)) [
  | inl e ↦ rw e (omega arith)
  | inr e ↦ elim (Bool-cases (leb (clz32 (u - 1)) 1)) [
    | inl f ↦ rw (e, f) (omega arith)
    | inr f ↦ rw (e, f, clz32, cancel) (ground (arith, lt-pow-bit_length 32 (u - 1) (omega arith)))
  ]
]
  where
    cancel : 32 - (32 - bit_length 32 (u - 1)) ≡ bit_length 32 (u - 1)
    cancel = omega (arith, bit_length-le 32 (u - 1))

pub le-align_power2_short_uint : (u : ℕ) → u ≤ 65535 → u ≤ align_power2_short_uint u
unfolding align_power2_short_uint
le-align_power2_short_uint u h = ground (arith, le-align_power2_uint u (omega arith))

pow_mono : (a b : ℕ) → a ≤ b → 2 ^ a ≤ 2 ^ b
pow_mono zero zero h = omega arith
pow_mono (suc a) zero h = absurd (omega arith)
pow_mono zero (suc b) h = rw pow-suc (omega (arith, pow_mono zero b (omega arith)))
pow_mono (suc a) (suc b) h = rw (pow-suc, pow-suc) (omega (arith, pow_mono a b (omega arith)))

bit_length_mono : (fuel a b : ℕ) → a ≤ b → bit_length fuel a ≤ bit_length fuel b
unfolding bit_length
bit_length_mono zero a b h = omega arith
bit_length_mono (suc fuel) a b h = ground (arith, bit_length_mono fuel (a / 2) (b / 2))

-- The power of two for a number of `b` bits.
abbrev roof : ℕ → ℕ
roof b = if leb (32 - b) 1 then 2 ^ 32 - 1 else 2 ^ (32 - (32 - b))

roof-top : (a : ℕ) → leb (32 - a) 1 ≡ false → 2 ^ (32 - (32 - a)) ≤ 2 ^ 30
roof-top a f = pow_mono (32 - (32 - a)) 30 (ground arith)

leb→le : (u v : ℕ) → leb u v ≡ true → u ≤ v
leb→le u v h = ground arith

roof_mono : (a b : ℕ) → a ≤ b → b ≤ 32 → roof a ≤ roof b
roof_mono a b h l = elim (Bool-cases (leb (32 - a) 1)) [
  | inl e ↦ let f : leb (32 - b) 1 ≡ true = ground arith in rw (e, f) (omega arith)
  | inr e ↦ elim (Bool-cases (leb (32 - b) 1)) [
    | inl f ↦ rw (e, f) (omega (arith, roof-top a e))
    | inr f ↦ rw (e, f) (pow_mono (32 - (32 - a)) (32 - (32 - b)) (omega arith))
  ]
]

one-roof : (b : ℕ) → 1 ≤ roof b
one-roof b = elim (Bool-cases (leb (32 - b) 1)) [
  | inl f ↦ rw f (omega arith)
  | inr f ↦ rw f (pow_mono 0 (32 - (32 - b)) (omega arith))
]

align_power2_uint_mono : (u v : ℕ) → u ≤ v → v < 2 ^ 32 → align_power2_uint u ≤ align_power2_uint v
unfolding align_power2_uint clz32
align_power2_uint_mono u v h l = elim (Bool-cases (leb v 1)) [
  | inl e ↦ let f : leb u 1 ≡ true = ground arith in rw (e, f) h
  | inr e ↦ elim (Bool-cases (leb u 1)) [
    | inl f ↦ rw (e, f) (le_trans (leb→le u 1 f) (one-roof (bit_length 32 (v - 1))))
    | inr f ↦
        rw (e, f)
          (roof_mono (bit_length 32 (u - 1)) (bit_length 32 (v - 1))
            (bit_length_mono 32 (u - 1) (v - 1) (omega arith)) (bit_length-le 32 (v - 1)))
  ]
]

capped_mono :
    (a b : ℕ) → a ≤ b → (if leb a 65535 then a else 65535) ≤ (if leb b 65535 then b else 65535)
capped_mono a b h = ground arith

pub align_power2_short_uint_mono :
    (u v : ℕ) → u ≤ v → v ≤ 65535 → align_power2_short_uint u ≤ align_power2_short_uint v
unfolding align_power2_short_uint
align_power2_short_uint_mono u v h l =
    capped_mono (align_power2_uint u) (align_power2_uint v)
      (align_power2_uint_mono u v h (omega arith))
