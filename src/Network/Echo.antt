-- ===== src/Network/Echo.antt =====
-- linux_network.c: the echo request that is sent, and the test of a response.
use artik_sdk.Prelude.{
  ℕ, ◌+◌, ◌*◌, ◌-◌, ◌/◌, ◌%◌, ◌^◌, ◌<◌, ◌≤◌, ◌≡◌, refl, ap, ◌∙◌, Bool, false, ◌&&◌, Option, none,
  some, List, [], ◌∷◌, ◌++◌, arith, leb, ltb, ◌==◌, drop, length, length-drop, drop-append, ◌↔◌,
  if◌then◌else◌,
}
use artik_sdk.Prelude.Int.{ℤ, pos, negsuc}
use artik_sdk.Network.Checksum.{htons, chksum, AreBytes, word_sum, chksum-complement}

-- `struct icmphdr` of an echo in memory: type, code, checksum, id and sequence. The last three are
-- numbers of 16 bits with the low byte first.
abbrev pub icmphdr : ℕ → ℕ → ℕ → ℕ → List ℕ
icmphdr type checksum id sequence =
    type
    ∷ 0
    ∷ checksum % 256
    ∷ checksum / 256 % 256
    ∷ id % 256
    ∷ id / 256 % 256
    ∷ sequence % 256
    ∷ sequence / 256 % 256
    ∷ []

-- The eight bytes that `os_send_echo` sends; `id` is the process id, of which the field keeps 16 bits.
unfoldable pub echo_request : ℕ → ℕ → List ℕ
unfolding chksum
echo_request id seqno = icmphdr 8 (65535 - chksum (icmphdr 8 0 id (htons seqno))) id (htons seqno)

abbrev pub icmp_hdr_size : ℕ
icmp_hdr_size = 28

-- The type, the id and the sequence behind a header of `ihl` words; `none` where the read leaves the
-- buffer.
unfoldable pub matches : ℕ → ℕ → List ℕ → Option Bool
matches id seqno (type ∷ code ∷ c ∷ d ∷ i ∷ j ∷ s ∷ t ∷ rest) =
    some (type == 0 && (s + t * 256 == htons seqno && i + j * 256 == id))
matches id seqno l = none

-- A `ssize_t` of 64 bits that is compared with a `size_t`.
abbrev pub as_size : ℤ → ℕ
as_size (pos n) = n
as_size (negsuc n) = 2 ^ 64 - 1 - n

-- `buf` is the whole buffer, `len` what `recvfrom` answers, -1 where it failed.
unfoldable pub os_check_echo_response : ℕ → List ℕ → ℤ → ℕ → Option Bool
unfolding matches
os_check_echo_response id [] len seqno = none
os_check_echo_response id (first ∷ buf) len seqno =
    if leb icmp_hdr_size (as_size len)
    then matches id seqno (drop (first % 16 * 4) (first ∷ buf))
    else some false

header-AreBytes : (type c i q : ℕ) → type < 256 → AreBytes (icmphdr type c i q)
header-AreBytes type c i q h = omega arith

sum-header :
    (c id q : ℕ) → word_sum (icmphdr 8 c id q) ≡ word_sum (icmphdr 8 0 id q) + htons (c % 65536)
unfolding word_sum
sum-header c id q = omega arith

header-positive : (id q : ℕ) → 0 < word_sum (icmphdr 8 0 id q)
unfolding word_sum
header-positive id q = omega arith

-- The checksum over a request with its checksum in it is 0xffff, as the receiver of ICMP tests it.
pub echo_request-chksum : (id seqno : ℕ) → seqno < 65536 → chksum (echo_request id seqno) ≡ 65535
unfolding echo_request
echo_request-chksum id seqno h =
    let q = htons seqno in
    let l = icmphdr 8 0 id q in
    let c = 65535 - chksum l in
    chksum-complement l (icmphdr 8 c id q) (header-AreBytes 8 0 id q (omega arith))
      (header-AreBytes 8 c id q (omega arith)) (omega arith) (omega arith) (header-positive id q)
      (sum-header c id q ∙ omega arith)

dropped :
    (first : ℕ) (header m : List ℕ)
    → first % 16 ≡ 5
    → length header ≡ 19
    → drop (first % 16 * 4) (first ∷ (header ++ m)) ≡ m
dropped first header m f h =
    ap (λ n. drop n (first ∷ (header ++ m)))
      (let e : first % 16 * 4 ≡ length (first ∷ header) = omega arith in e)
    ∙ drop-append (first ∷ header) m

-- The answer to a request comes back in a packet with a header of 20 bytes, with the id and the
-- sequence of the request. Where the length is at least 28 as a `size_t`, which -1 is too, it is
-- accepted exactly if the process id is below 65536: a larger one is cut to 16 bits in the request,
-- and compared whole with the response.
pub os_check_echo_response_lem :
    (id seqno first checksum : ℕ) (len : ℤ) (header rest : List ℕ)
    → first % 16 ≡ 5
    → length header ≡ 19
    → seqno < 65536
    → 28 ≤ as_size len
    → os_check_echo_response id
        (first ∷ header ++ (icmphdr 0 checksum id (htons seqno) ++ rest))
        len
        seqno
      ≡ some (ltb id 65536)
unfolding os_check_echo_response matches
os_check_echo_response_lem id seqno first checksum len header rest f h s l =
    ground (arith, dropped first header (icmphdr 0 checksum id (htons seqno) ++ rest) f h)

matches-none : (id seqno : ℕ) (l : List ℕ) → (matches id seqno l ≡ none) ↔ (length l < 8)
unfolding matches
matches-none id seqno [] = (λ _. omega arith, λ _. refl)
matches-none id seqno (a ∷ []) = (λ _. omega arith, λ _. refl)
matches-none id seqno (a ∷ b ∷ []) = (λ _. omega arith, λ _. refl)
matches-none id seqno (a ∷ b ∷ c ∷ []) = (λ _. omega arith, λ _. refl)
matches-none id seqno (a ∷ b ∷ c ∷ d ∷ []) = (λ _. omega arith, λ _. refl)
matches-none id seqno (a ∷ b ∷ c ∷ d ∷ e ∷ []) = (λ _. omega arith, λ _. refl)
matches-none id seqno (a ∷ b ∷ c ∷ d ∷ e ∷ f ∷ []) = (λ _. omega arith, λ _. refl)
matches-none id seqno (a ∷ b ∷ c ∷ d ∷ e ∷ f ∷ g ∷ []) = (λ _. omega arith, λ _. refl)
matches-none id seqno (a ∷ b ∷ c ∷ d ∷ e ∷ f ∷ g ∷ h ∷ l) = (λ e. cc, λ e. absurd (omega arith))

-- With the buffer of 64 bytes that `recvfrom` fills, the response is read outside the buffer exactly
-- if the length is at least 28 as a `size_t` and the header claims the largest size, 15 words.
pub os_check_echo_response-none :
    (id seqno first : ℕ) (len : ℤ) (buf : List ℕ)
    → length buf ≡ 63
    → (os_check_echo_response id (first ∷ buf) len seqno ≡ none)
      ↔ ((28 ≤ as_size len) × (first % 16 ≡ 15))
unfolding os_check_echo_response
os_check_echo_response-none id seqno first len buf h =
    let m = matches-none id seqno (drop (first % 16 * 4) (first ∷ buf)) in
    let k = length-drop (first % 16 * 4) (first ∷ buf) in (λ e. ground arith, λ e. ground arith)
