-- ===== src/Network/Online.antt =====
-- artik_network.c: `artik_get_online_status`. A round of its loop takes what the system answers in it;
-- the times are in milliseconds.
use artik_sdk.Prelude.{
  ℕ, ◌+◌, ◌-◌, ◌%◌, ◌≡◌, ◌≢◌, ◌≤◌, ◌<◌, refl, subst, Bool, true, false, not, ◌&&◌, Option, none,
  some, List, [], ◌∷◌, ltb, if◌then◌else◌,
}
use artik_sdk.Prelude.Cases.{if_rule}
use artik_sdk.Prelude.Int.{pos}
use artik_sdk.Error.{ArtikError, is_ok, s_ok, e_bad_args, e_network_error, e_timeout}
use artik_sdk.Network.Echo.{os_check_echo_response}

-- A packet in the buffer with its length, EAGAIN with the time that the clock then shows, or another
-- result that is not positive.
pub data Received : Type 0 where
  packet : List ℕ → ℕ → Received
  again : ℕ → Received
  failed : Received

-- Whether the request could be sent, and what `recvfrom` gave.
pub record Round : Type 0 where
  pub sent : Bool
  pub received : Received

-- The error, the status that is stored, and whether the socket is open.
abbrev pub Outcome : Type 0
Outcome = ArtikError × Bool × Bool

abbrev pub verdict : Option Bool → Option Outcome
verdict none = none
verdict (some true) = some (s_ok, true, false)
verdict (some false) = some (e_network_error, false, false)

-- `(curr_ms - start_ms) > timeout`, in 64 bits.
abbrev pub is_late : ℕ → ℕ → ℕ → Bool
is_late timeout start_ms curr_ms =
    ltb timeout ((curr_ms + 18446744073709551616 - start_ms) % 18446744073709551616)

-- `next` is what the next round gives, where there is one.
abbrev pub judge : ℕ → ℕ → ℕ → Received → Option Outcome → Option Outcome
judge pid timeout start_ms (packet buf len) next =
    verdict (os_check_echo_response pid buf (pos len) 0)
judge pid timeout start_ms failed next = some (e_network_error, false, false)
judge pid timeout start_ms (again curr_ms) next =
    if ltb 0 timeout && is_late timeout start_ms curr_ms
    then some (e_timeout, false, false)
    else next

abbrev pub one_round : ℕ → ℕ → ℕ → Round → Option Outcome → Option Outcome
one_round pid timeout start_ms r next =
    if r.sent
    then judge pid timeout start_ms r.received next
    else some (e_network_error, false, false)

-- The loop from `try_again`; `none` is a loop that goes on after the rounds, or a read outside the
-- buffer. A `timeout` that is negative is like 0.
unfoldable pub try_again : ℕ → ℕ → ℕ → List Round → Option Outcome
try_again pid timeout start_ms [] = none
try_again pid timeout start_ms (r ∷ rounds) =
    one_round pid timeout start_ms r (try_again pid timeout start_ms rounds)

-- `place` and `addr` are whether the pointers are set, `resolved` and `socket` whether the calls succeed.
unfoldable pub artik_get_online_status :
    Bool → Bool → ℕ → ℕ → Bool → Bool → ℕ → List Round → Option Outcome
unfolding try_again
artik_get_online_status place addr pid timeout resolved socket start_ms rounds =
    if not (place && addr)
    then some (e_bad_args, false, false)
    else if not resolved
    then some (e_network_error, false, false)
    else if not socket
    then some (e_network_error, false, false)
    else try_again pid timeout start_ms rounds

abbrev pub Ticks : ℕ → ℕ → Received → (ℕ → Type 0) → Type 0
Ticks pid now (packet buf len) Next = os_check_echo_response pid buf (pos len) 0 ≢ none
Ticks pid now failed Next = Unit {0}
Ticks pid now (again curr_ms) Next =
    (now ≤ curr_ms) × (curr_ms < 18446744073709551616) × Next (curr_ms + 1000)

-- The clock does not go back, and shows at least a second more after the sleep behind a round that ends
-- with EAGAIN and is not late; it stays in 64 bits. A packet is read inside the buffer.
unfoldable pub IsTicking : ℕ → ℕ → List Round → Type 0
IsTicking pid now [] = Unit {0}
IsTicking pid now (r ∷ rounds) = Ticks pid now r.received (λ later. IsTicking pid later rounds)

-- An outcome is online exactly with S_OK, and leaves no socket open.
IsSettled : Option Outcome → Type 0
IsSettled none = Unit {0}
IsSettled (some (err, online_status, is_open)) = (is_ok err ≡ online_status) × (is_open ≡ false)

verdict-IsSettled : (o : Option Bool) → IsSettled (verdict o)
unfolding IsSettled is_ok
verdict-IsSettled none = tt
verdict-IsSettled (some true) = (refl, refl)
verdict-IsSettled (some false) = (refl, refl)

judge-IsSettled :
    (pid timeout start_ms : ℕ) (r : Received) (next : Option Outcome)
    → IsSettled next
    → IsSettled (judge pid timeout start_ms r next)
unfolding IsSettled is_ok
judge-IsSettled pid timeout start_ms (packet buf len) next h =
    verdict-IsSettled (os_check_echo_response pid buf (pos len) 0)
judge-IsSettled pid timeout start_ms failed next h = (refl, refl)
judge-IsSettled pid timeout start_ms (again curr_ms) next h =
    if_rule IsSettled (ltb 0 timeout && is_late timeout start_ms curr_ms) (λ _. (refl, refl))
      (λ _. h)

try_again-IsSettled :
    (pid timeout start_ms : ℕ) (rounds : List Round)
    → IsSettled (try_again pid timeout start_ms rounds)
unfolding try_again IsSettled is_ok
try_again-IsSettled pid timeout start_ms [] = tt
try_again-IsSettled pid timeout start_ms (r ∷ rounds) =
    if_rule IsSettled r.sent
      (λ _.
        judge-IsSettled pid timeout start_ms r.received (try_again pid timeout start_ms rounds)
          (try_again-IsSettled pid timeout start_ms rounds))
      (λ _. (refl, refl))

-- In every outcome the status is online exactly with S_OK, and no socket is left open.
pub artik_get_online_status-IsSettled :
    (place addr resolved socket : Bool) (pid timeout start_ms : ℕ) (rounds : List Round)
    (err : ArtikError) (online_status is_open : Bool)
    → artik_get_online_status place addr pid timeout resolved socket start_ms rounds
      ≡ some (err, online_status, is_open)
    → (is_ok err ≡ online_status) × (is_open ≡ false)
unfolding artik_get_online_status IsSettled is_ok
artik_get_online_status-IsSettled place addr resolved socket pid timeout start_ms rounds err
      online_status is_open h =
    let k = try_again-IsSettled pid timeout start_ms rounds in
    subst IsSettled h (
      if_rule IsSettled (not (place && addr)) (λ _. (refl, refl))
        (λ _.
          if_rule IsSettled (not resolved) (λ _. (refl, refl))
            (λ _. if_rule IsSettled (not socket) (λ _. (refl, refl)) (λ _. k))))
