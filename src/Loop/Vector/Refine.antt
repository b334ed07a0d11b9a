-- ===== src/Loop/Vector/Refine.antt =====
-- tizenrt_loop.c: the vector as the list of its elements.
use Prim.Native.Nat.add
use native.Mathlib.Nat.{le_trans, le_of_eq}
use artik_sdk.Prelude.{
  length-take, length-drop, take-append, subst, ℕ, zero, suc, ◌+◌, ◌-◌, ◌%◌, ◌^◌, ◌≤◌, ◌<◌, ◌≡◌,
  refl, Bool, true, false, none, some, List, [], ◌∷◌, ◌++◌, arith, leb, ◌==◌, Bool-cases, inl, inr,
  if◌then◌else◌, length, take, drop, ap, ◌∙◌, sym, length-append,
}
use artik_sdk.Error.{s_ok}
use artik_sdk.Loop.Vector.{
  Vector, resize, store, vector_grow, put_last, ptr_vector_append, vector_shrink, move_down,
  ptr_vector_del, align_power2_uint, align_power2_short_uint,
}
use artik_sdk.Loop.Vector.Align.{le-align_power2_short_uint, align_power2_short_uint_mono}

abbrev pub items : Vector → List ℕ
items v = take v.len v.block

-- The block has at least the slots that were asked for at this length.
pub record IsValid (v : Vector) : Type 0 where
  pub fits : align_power2_short_uint v.len ≤ length v.block
  pub small : v.len ≤ 65535

pub length-items : (v : Vector) → IsValid v → length (items v) ≡ v.len
length-items v h =
    omega (arith, length-take v.len v.block, h.fits, le-align_power2_short_uint v.len h.small)

length-resize : (n : ℕ) (b : List ℕ) → length (resize n b) ≡ n
unfolding resize
length-resize zero b = refl
length-resize (suc n) [] = ap suc (length-resize n [])
length-resize (suc n) (x ∷ b) = ap suc (length-resize n b)

take-resize : (k n : ℕ) (b : List ℕ) → k ≤ n → k ≤ length b → take k (resize n b) ≡ take k b
unfolding resize
take-resize zero n b h l = refl
take-resize (suc k) n [] h l = absurd (omega arith)
take-resize (suc k) zero (x ∷ b) h l = absurd (omega arith)
take-resize (suc k) (suc n) (x ∷ b) h l = ap (◌∷◌ x) (take-resize k n b (omega arith) (omega arith))

store-in :
    (b : List ℕ) (i x : ℕ)
    → i < length b
    → (b' : List ℕ) × (store b i x ≡ some b')
      × (length b' ≡ length b)
      × (take (suc i) b' ≡ take i b ++ x ∷ [])
unfolding store
store-in [] i x h = absurd (omega arith)
store-in (y ∷ b) zero x h = (x ∷ b, refl, refl, refl)
store-in (y ∷ b) (suc i) x h =
    let r = store-in b i x (omega arith) in (y ∷ r.0, rw (r.1) refl, ap suc r.2, ap (◌∷◌ y) r.3)

length-move_down :
    (i t : ℕ) (b : List ℕ) → i + suc t ≤ length b → length (move_down i t b) ≡ length b
unfolding move_down
length-move_down i t b h = omega (
  arith,
  length-append (take i b) (take t (drop (suc i) b) ++ drop (i + t) b),
  length-append (take t (drop (suc i) b)) (drop (i + t) b),
  length-take i b,
  length-take t (drop (suc i) b),
  length-drop (suc i) b,
  length-drop (i + t) b,
)

take-append_left : (n : ℕ) (xs ys : List ℕ) → length xs ≡ n → take n (xs ++ ys) ≡ xs
take-append_left n xs ys h = rw (← h) (take-append xs ys)

take-move_down :
    (i t : ℕ) (b : List ℕ)
    → i + suc t ≤ length b
    → take (i + t) (move_down i t b)
      ≡ take i (take (i + suc t) b) ++ drop (suc i) (take (i + suc t) b)
unfolding move_down
take-move_down zero t [] h = absurd (omega arith)
take-move_down zero t (x ∷ b) h =
    rw (add.zero t, add.zero (suc t))
      (take-append_left t (take t b) (drop t (x ∷ b)) (omega (arith, length-take t b)))
take-move_down (suc i) t [] h = absurd (omega arith)
take-move_down (suc i) t (x ∷ b) h =
    rw (add.suc i t, add.suc i (suc t)) (ap (◌∷◌ x) (take-move_down i t b (omega arith)))

-- The block as a change of the capacity with memory leaves it.
abbrev regrow : ℕ → ℕ → List ℕ → List ℕ
regrow new old b = if new == old then b else resize new b

le-length-regrow : (new old : ℕ) (b : List ℕ) → old ≤ length b → new ≤ length (regrow new old b)
le-length-regrow new old b h = ground (arith, length-resize new b)

take-regrow :
    (k new old : ℕ) (b : List ℕ) → k ≤ new → k ≤ length b → take k (regrow new old b) ≡ take k b
take-regrow k new old b h l = elim (Bool-cases (new == old)) [
  | inl e ↦ rw e refl
  | inr e ↦ rw e (take-resize k new b h l)
]

vector_grow_lem :
    (v : Vector)
    → v.len < 65535
    → vector_grow v true ≡ record {
      block = regrow (align_power2_short_uint (suc v.len)) (align_power2_short_uint v.len) v.block;
      len = suc v.len;
    }
unfolding vector_grow
vector_grow_lem v h = let n : (v.len + 1) % 2 ^ 16 ≡ suc v.len = omega arith in rw n refl

put_last_lem :
    (b b' : List ℕ) (n ptr : ℕ)
    → store b n ptr ≡ some b'
    → put_last (record { block = b; len = suc n }) ptr ≡ some (record { block = b'; len = suc n })
unfolding put_last
put_last_lem b b' n ptr e = ground (arith, e)

-- An append with memory, to a vector of fewer than 65535 elements whose block has the capacity
-- for its length, does not fault, adds the pointer behind the elements and leaves such a vector.
pub ptr_vector_append-items :
    (v : Vector) (ptr : ℕ)
    → IsValid v
    → v.len < 65535
    → (v' : Vector) × (ptr_vector_append v ptr true ≡ some v')
      × IsValid v'
      × (items v' ≡ items v ++ ptr ∷ [])
unfolding ptr_vector_append
ptr_vector_append-items v ptr h l =
    let c : ℕ = align_power2_short_uint (suc v.len) in
    let b : List ℕ = regrow c (align_power2_short_uint v.len) v.block in
    let k : c ≤ length b = le-length-regrow c (align_power2_short_uint v.len) v.block h.fits in
    let a : suc v.len ≤ c = le-align_power2_short_uint (suc v.len) (omega arith) in
    let a' : v.len ≤ align_power2_short_uint v.len =
      le-align_power2_short_uint v.len (omega arith) in
    let fit : v.len ≤ length v.block = le_trans a' h.fits in
    let r = store-in b v.len ptr (le_trans a k) in
    (
      record { block = r.0; len = suc v.len },
      rw (vector_grow_lem v l) (put_last_lem b r.0 v.len ptr r.1),
      record { fits = rw r.2 k; small = l },
      r.3
          ∙ ap (λ (q : List ℕ). q ++ ptr ∷ [])
              (take-regrow v.len c (align_power2_short_uint v.len) v.block (omega arith) fit),
    )

-- An append to a vector of 65535 elements writes in front of its block.
pub ptr_vector_append-full :
    (v : Vector) (ptr : ℕ) (realloc : Bool) → v.len ≡ 65535 → ptr_vector_append v ptr realloc ≡ none
unfolding ptr_vector_append vector_grow put_last
ptr_vector_append-full v ptr realloc h = let n : (v.len + 1) % 2 ^ 16 ≡ 0 = omega arith in rw n refl

align-zero : align_power2_short_uint 0 ≡ 0
unfolding align_power2_short_uint
align-zero = refl

vector_shrink_lem :
    (b : List ℕ) (n : ℕ) (realloc : Bool)
    → align_power2_short_uint n ≤ length b
    → n < 65535
    → IsValid (vector_shrink (record { block = b; len = n }) realloc)
      × (items (vector_shrink (record { block = b; len = n }) realloc) ≡ take n b)
unfolding vector_shrink
vector_shrink_lem b n realloc h l = elim (Bool-cases (n == 0)) [
  | inl z ↦
      let e : n ≡ 0 = ground arith in
      rw e (record { fits = le_of_eq (ap (λ (k : ℕ). k) align-zero); small = omega arith }, refl)
  | inr nz ↦ elim (Bool-cases (align_power2_short_uint n == align_power2_uint (n + 1))) [
    | inl s ↦ rw (nz, s) (record { fits = h; small = omega arith }, refl)
    | inr s ↦ rw (nz, s) (shrunk realloc)
  ]
]
  where
    c : ℕ
    c = align_power2_short_uint n

    le-c : n ≤ c
    le-c = le-align_power2_short_uint n (omega arith)

    shrunk :
        (r : Bool)
        → IsValid
            (if r then record { block = resize c b; len = n } else record { block = b; len = n })
          × (items (
                if r then record { block = resize c b; len = n } else record { block = b; len = n })
              ≡ take n b)
    shrunk true = (
      record { fits = le_of_eq (sym (length-resize c b)); small = omega arith },
      take-resize n c b le-c (le_trans le-c h),
    )
    shrunk false = (record { fits = h; small = omega arith }, refl)

-- Deleting an element that is there, from a vector whose block has the capacity for its length,
-- takes out exactly that one and leaves such a vector, whether or not the block can be shrunk.
pub ptr_vector_del-items :
    (v : Vector) (i : ℕ) (realloc : Bool)
    → IsValid v
    → i < v.len
    → let (err, v') = ptr_vector_del v i realloc in
      (err ≡ s_ok) × IsValid v' × (items v' ≡ take i (items v) ++ drop (suc i) (items v))
unfolding ptr_vector_del
ptr_vector_del-items v i realloc h l =
    let t : ℕ = v.len - 1 - i in
    let z : leb v.len i ≡ false = ground arith in
    let k : v.len - 1 ≡ i + t = omega arith in
    let k' : i + suc t ≡ v.len = omega arith in
    let fit : i + suc t ≤ length v.block =
      le_trans (le_of_eq k') (le_trans (le-align_power2_short_uint v.len h.small) h.fits) in
    let m : align_power2_short_uint (v.len - 1) ≤ length (move_down i t v.block) =
      le_trans
        (le_trans
          (align_power2_short_uint_mono (v.len - 1) v.len (omega arith) (omega (arith, h.small)))
          h.fits)
        (le_of_eq (sym (length-move_down i t v.block fit))) in
    let r =
      vector_shrink_lem (move_down i t v.block) (v.len - 1) realloc m (omega (arith, h.small)) in
    let tm : take (i + t) (move_down i t v.block) ≡ take i (items v) ++ drop (suc i) (items v) =
      subst
        (λ (q : ℕ).
          take (i + t) (move_down i t v.block)
          ≡ take i (take q v.block) ++ drop (suc i) (take q v.block))
        k' (take-move_down i t v.block fit) in
    rw z (refl, r.0, r.1 ∙ ap (λ (q : ℕ). take q (move_down i t v.block)) k ∙ tm)
