-- ===== src/Network/Checksum.antt =====
-- common_network.c: `chksum`, the Internet checksum.
use artik_sdk.Prelude.{
  ℕ, ◌+◌, ◌*◌, ◌-◌, ◌/◌, ◌%◌, ◌^◌, ◌≤◌, ◌<◌, ◌≡◌, refl, ◌∙◌, List, [], ◌∷◌, arith, All, length, leb,
  if◌then◌else◌,
}

-- `htons` on a host that has the low byte first.
abbrev pub htons : ℕ → ℕ
htons n = n % 256 * 256 + n / 256

-- The `while` loop over pairs of bytes and the byte that may be left, with its accumulator of 32 bits.
unfoldable pub accumulate : ℕ → List ℕ → ℕ
accumulate acc [] = acc
accumulate acc (a ∷ []) = (acc + a * 256) % 2 ^ 32
accumulate acc (a ∷ b ∷ rest) = accumulate ((acc + (a * 256 + b)) % 2 ^ 32) rest

-- `(acc >> 16) + (acc & 0xffff)`
abbrev pub fold_carry : ℕ → ℕ
fold_carry acc = acc / 65536 + acc % 65536

unfoldable pub chksum : List ℕ → ℕ
unfolding accumulate
chksum dataptr =
    let acc = fold_carry (accumulate 0 dataptr) in
    htons ((if leb 65536 acc then fold_carry acc else acc) % 65536)

-- The bytes as numbers of 16 bits, high byte first, and their sum; a last single byte is a high one.
unfoldable pub word_sum : List ℕ → ℕ
word_sum [] = 0
word_sum (a ∷ []) = a * 256
word_sum (a ∷ b ∷ rest) = a * 256 + b + word_sum rest

abbrev pub AreBytes : List ℕ → Type 0
AreBytes = All (λ b. b < 256)

word_sum-le : (l : List ℕ) → AreBytes l → word_sum l ≤ 65535 * length l
unfolding word_sum
word_sum-le [] h = omega arith
word_sum-le (a ∷ []) h = omega (arith, h)
word_sum-le (a ∷ b ∷ l) h = omega (arith, h.0, h.1.0, word_sum-le l h.1.1)

accumulate_lem :
    (acc : ℕ) (l : List ℕ) → acc + word_sum l < 4294967296 → accumulate acc l ≡ acc + word_sum l
unfolding accumulate word_sum
accumulate_lem acc [] h = omega arith
accumulate_lem acc (a ∷ []) h = omega arith
accumulate_lem acc (a ∷ b ∷ l) h =
    accumulate_lem ((acc + (a * 256 + b)) % 2 ^ 32) l (omega arith) ∙ omega arith

-- The two folds, and the exchange of the bytes.
folded : ℕ → ℕ
folded s = let acc = fold_carry s in (if leb 65536 acc then fold_carry acc else acc) % 65536

folded_lem :
    (s : ℕ)
    → s < 4294967296
    → (folded s < 65536) × (folded s % 65535 ≡ s % 65535) × (folded s ≡ 0 → s ≡ 0)
unfolding folded
folded_lem s h = (ground arith, ground arith, λ z. ground arith)

htons-htons : (n : ℕ) → n < 65536 → (htons n < 65536) × (htons (htons n) ≡ n)
htons-htons n h = omega arith

accumulate_zero : (l : List ℕ) → AreBytes l → length l ≤ 65535 → accumulate 0 l ≡ word_sum l
accumulate_zero l b h = accumulate_lem 0 l (omega (arith, word_sum-le l b)) ∙ omega arith

chksum-folded :
    (l : List ℕ) → AreBytes l → length l ≤ 65535 → chksum l ≡ htons (folded (word_sum l))
unfolding chksum folded
chksum-folded l b h = rw (accumulate_zero l b h) (refl)

-- The checksum of at most 65535 bytes is a number of 16 bits. In network order it is the sum of the
-- 16 bit numbers modulo 65535, and 0 only for a sum of 0.
pub chksum_lem :
    (l : List ℕ)
    → AreBytes l
    → length l ≤ 65535
    → (chksum l < 65536)
      × (htons (chksum l) % 65535 ≡ word_sum l % 65535)
      × (htons (chksum l) ≡ 0 → word_sum l ≡ 0)
chksum_lem l b h =
    let f = folded_lem (word_sum l) (omega (arith, word_sum-le l b)) in
    let s = htons-htons (folded (word_sum l)) f.0 in rw (chksum-folded l b h, s.1) (s.0, f.1, f.2)

-- Where the sum grows by the complement of the checksum, the checksum is 0xffff.
pub chksum-complement :
    (l m : List ℕ)
    → AreBytes l
    → AreBytes m
    → length l ≤ 65535
    → length m ≤ 65535
    → 0 < word_sum l
    → word_sum m ≡ word_sum l + htons (65535 - chksum l)
    → chksum m ≡ 65535
chksum-complement l m bl bm hl hm p e =
    let f = folded_lem (word_sum l) (omega (arith, word_sum-le l bl)) in
    let g = folded_lem (word_sum m) (omega (arith, word_sum-le m bm)) in
    let d : folded (word_sum m) ≡ 65535 = ground (arith, chksum-folded l bl hl) in
    rw (chksum-folded m bm hm, d) (refl)
