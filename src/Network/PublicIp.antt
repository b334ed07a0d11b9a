-- ===== src/Network/PublicIp.antt =====
-- artik_network.c: `artik_get_current_public_ip`, which reads the address out of the answer of a service.
use artik_sdk.Prelude.{
  ℕ, ◌≡◌, ◌≢◌, ◌≤◌, refl, ◌∙◌, ap, ◌&&◌, Option, none, some, [], ◌∷◌, ◌++◌, ◌==◌, ltb,
  if◌then◌else◌, arith, length, length-append, append_assoc, All,
}
use mathlib.Core.Option
use artik_sdk.Prelude.Text.{Bytes, codes}
use artik_sdk.Error.{ArtikError, s_ok, is_ok}

abbrev pub max_ip_address_len : ℕ
max_ip_address_len = 24

-- The text behind a prefix.
unfoldable pub behind : Bytes → Bytes → Option Bytes
behind [] text = some text
behind (c ∷ p) [] = none
behind (c ∷ p) (d ∷ text) = if c == d then behind p text else none

-- `strstr`: from the first occurrence on.
unfoldable pub strstr : Bytes → Bytes → Option Bytes
unfolding behind
strstr [] needle = elim (behind needle []) [ none ↦ none | some rest ↦ some [] ]
strstr (c ∷ text) needle =
    let found = strstr text needle in
    elim (behind needle (c ∷ text)) [ none ↦ found | some rest ↦ some (c ∷ text) ]

-- The delimiters at the start left out.
unfoldable pub skip : ℕ → Bytes → Bytes
skip d [] = []
skip d (c ∷ text) = if c == d then skip d text else c ∷ text

-- Up to the next delimiter, and what is behind it.
unfoldable pub split : ℕ → Bytes → Bytes × Bytes
split d [] = ([], [])
split d (c ∷ text) = if c == d then ([], text) else (c ∷ (split d text).0, (split d text).1)

abbrev pub token_of : ℕ → Bytes → Option (Bytes × Bytes)
token_of d [] = none
token_of d (c ∷ rest) = some (split d (c ∷ rest))

-- `strtok` with the one delimiter: the token, and the text that the next call reads.
unfoldable pub strtok : ℕ → Bytes → Option (Bytes × Bytes)
unfolding skip split
strtok d text = token_of d (skip d text)

-- `delimiter`
abbrev pub quote : ℕ
quote = 34

abbrev pub key : Bytes
key = codes "\"query\":"

-- The loop, whose two rounds take a token and its length. `none` is `strlen` of NULL; the inner `none`
-- leaves the address as it is.
abbrev pub third : Option (Bytes × Bytes) → Option (Option Bytes)
third none = none
third (some (token, rest)) =
    some
      (if ltb 0 (length token) && ltb (length token) max_ip_address_len then some token else none)

abbrev pub second : Option (Bytes × Bytes) → Option (Option Bytes)
second none = none
second (some (token, rest)) = third (strtok quote rest)

abbrev pub first : Option (Bytes × Bytes) → Option (Option Bytes)
first none = some none
first (some (token, rest)) = second (strtok quote rest)

abbrev pub from_point : Option Bytes → Option (Option Bytes)
from_point none = some none
from_point (some point) = first (strtok quote point)

-- `ret` and `response` are what the HTTP module gives.
unfoldable pub artik_get_current_public_ip : ArtikError → Bytes → Option (ArtikError × Option Bytes)
unfolding strstr strtok codes is_ok
artik_get_current_public_ip ret response =
    if is_ok ret
    then Option.map (λ ip. (ret, ip)) (from_point (strstr response key))
    else some (ret, none)

-- A prefix that is not there is not there with more behind it.
behind-append-none :
    (p t x : Bytes) → behind p t ≡ none → length p ≤ length t → behind p (t ++ x) ≡ none
unfolding behind
behind-append-none [] t x h l = cc
behind-append-none (c ∷ p) [] x h l = absurd (omega arith)
behind-append-none (c ∷ p) (d ∷ t) x h l = ground (arith, behind-append-none p t x)

behind-append : (p x : Bytes) → behind p (p ++ x) ≡ some x
unfolding behind
behind-append [] x = refl
behind-append (c ∷ p) x = ground (arith, behind-append p x)

strstr-front : (d : ℕ) (p x : Bytes) → strstr ((d ∷ p) ++ x) (d ∷ p) ≡ some ((d ∷ p) ++ x)
unfolding strstr
strstr-front d p x = ground (arith, behind-append (d ∷ p) x)

longer : (c : ℕ) (p n : Bytes) → c ∷ (p ++ n) ≡ n → ⊥
longer c p n h = absurd (omega (arith, ap length h, length-append p n))

strstr-step :
    (c d : ℕ) (p n x : Bytes) (o : Option Bytes)
    → behind (d ∷ n) (c ∷ (p ++ (d ∷ n))) ≡ o
    → strstr (c ∷ (p ++ (d ∷ n))) (d ∷ n) ≡ some (d ∷ n)
    → (strstr (p ++ (d ∷ n)) (d ∷ n) ≡ some (d ∷ n))
      × (strstr (c ∷ (p ++ ((d ∷ n) ++ x))) (d ∷ n) ≡ strstr (p ++ ((d ∷ n) ++ x)) (d ∷ n))
unfolding strstr
strstr-step c d p n x (some r) e h = absurd (longer c p (d ∷ n) (ground arith))
strstr-step c d p n x none e h =
    let b =
      behind-append-none (d ∷ n) (c ∷ (p ++ (d ∷ n))) x e
        (omega (arith, length-append p (d ∷ n))) in
    (ground arith, ground (arith, append_assoc p (d ∷ n) x))

-- What is found first in a text that ends with the needle is found first with more behind it.
strstr-append :
    (pre : Bytes) (d : ℕ) (n x : Bytes)
    → strstr (pre ++ (d ∷ n)) (d ∷ n) ≡ some (d ∷ n)
    → strstr (pre ++ ((d ∷ n) ++ x)) (d ∷ n) ≡ some ((d ∷ n) ++ x)
strstr-append [] d n x h = strstr-front d n x
strstr-append (c ∷ p) d n x h =
    let k = strstr-step c d p n x (behind (d ∷ n) (c ∷ (p ++ (d ∷ n)))) refl h in
    k.1 ∙ strstr-append p d n x k.0

skip-word : (d c : ℕ) (l : Bytes) → c ≢ d → skip d (c ∷ l) ≡ c ∷ l
unfolding skip
skip-word d c l h = ground arith

split-word : (d : ℕ) (w rest : Bytes) → All (λ c. c ≢ d) w → split d (w ++ d ∷ rest) ≡ (w, rest)
unfolding split
split-word d [] rest h = ground arith
split-word d (c ∷ w) rest h = ground (arith, split-word d w rest h.1)

split-last : (d : ℕ) (w : Bytes) → All (λ c. c ≢ d) w → split d w ≡ (w, [])
unfolding split
split-last d [] h = refl
split-last d (c ∷ w) h = ground (arith, split-last d w h.1)

strtok-word :
    (d c : ℕ) (w rest : Bytes)
    → All (λ e. e ≢ d) (c ∷ w)
    → strtok d ((c ∷ w) ++ d ∷ rest) ≡ some (c ∷ w, rest)
unfolding strtok
strtok-word d c w rest h =
    ap (token_of d) (skip-word d c (w ++ d ∷ rest) h.0) ∙ ap some (split-word d (c ∷ w) rest h)

strtok-last : (d c : ℕ) (w : Bytes) → All (λ e. e ≢ d) (c ∷ w) → strtok d (c ∷ w) ≡ some (c ∷ w, [])
unfolding strtok
strtok-last d c w h = ap (token_of d) (skip-word d c w h.0) ∙ ap some (split-last d (c ∷ w) h)

-- What is left of the run once the key is found, with a word in quotes behind it.
first-address :
    (c : ℕ) (w rest : Bytes)
    → All (λ e. e ≢ quote) (c ∷ w)
    → from_point (some (key ++ (quote ∷ (c ∷ w) ++ quote ∷ rest)))
      ≡ some (if ltb (length (c ∷ w)) max_ip_address_len then some (c ∷ w) else none)
unfolding strtok skip split codes
first-address c w rest h = rw (strtok-word quote c w rest h) (ground arith)

first-unquoted : (x : Bytes) → All (λ e. e ≢ quote) x → from_point (some (key ++ x)) ≡ none
unfolding strtok skip split codes
first-unquoted x h = rw (split-last quote x h) (refl)

-- The text up to the key ends with its first occurrence, and an address in quotes follows: the
-- address is stored if it has less than 24 bytes, and the address is left as it was if it is longer.
pub artik_get_current_public_ip_lem :
    (pre : Bytes) (c : ℕ) (w rest : Bytes)
    → strstr (pre ++ key) key ≡ some key
    → All (λ e. e ≢ quote) (c ∷ w)
    → artik_get_current_public_ip s_ok (pre ++ (key ++ (quote ∷ ((c ∷ w) ++ quote ∷ rest))))
      ≡ some (s_ok, if ltb (length (c ∷ w)) max_ip_address_len then some (c ∷ w) else none)
unfolding artik_get_current_public_ip
artik_get_current_public_ip_lem pre c w rest k h =
    ap (λ p. Option.map (λ ip. (s_ok, ip)) (from_point p))
      (strstr-append pre quote (codes "query\":") (quote ∷ ((c ∷ w) ++ quote ∷ rest)) k)
    ∙ ap (Option.map (λ ip. (s_ok, ip))) (first-address c w rest h)

-- No quote behind the first occurrence of the key, as of a value that is a number or null: `strlen`
-- is called with NULL.
pub artik_get_current_public_ip-unquoted :
    (pre x : Bytes)
    → strstr (pre ++ key) key ≡ some key
    → All (λ e. e ≢ quote) x
    → artik_get_current_public_ip s_ok (pre ++ (key ++ x)) ≡ none
unfolding artik_get_current_public_ip
artik_get_current_public_ip-unquoted pre x k h =
    ap (λ p. Option.map (λ ip. (s_ok, ip)) (from_point p))
      (strstr-append pre quote (codes "query\":") x k)
    ∙ ap (Option.map (λ ip. (s_ok, ip))) (first-unquoted x h)
