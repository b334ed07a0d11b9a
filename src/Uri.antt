-- ===== src/Uri.antt =====
-- src/modules/base/utils/tizenrt_utils.c: the URI parser of the TizenRT build, and the guards of
-- artik_utils.c in front of it. A URI is the list of its bytes; the byte behind the end is the NUL.
pub mod Phases
pub mod Turns
pub mod RoundTrip
pub mod Ports
pub mod Bounds
mod Tests
use artik_sdk.Prelude.{
  ℕ, zero, suc, ◌+◌, ◌-◌, ◌*◌, ◌^◌, Bool, true, false, ◌&&◌, ◌||◌, not, Option, none, some, List,
  [], ◌∷◌, leb, ◌==◌, if◌then◌else◌, length, take, drop, min,
}
use artik_sdk.Prelude.Int.{ℤ, pos, negsuc}
use artik_sdk.Error.{ArtikError, e_bad_args, e_no_mem}

-- The classes of <ctype.h> in the C locale.
unfoldable pub isdigit : ℕ → Bool
isdigit c = leb b'0' c && leb c b'9'

unfoldable pub isalpha : ℕ → Bool
isalpha c = (leb b'a' c && leb c b'z') || (leb b'A' c && leb c b'Z')

unfoldable pub isalnum : ℕ → Bool
unfolding isalpha isdigit
isalnum c = isalpha c || isdigit c

unfoldable pub is_scheme_char : ℕ → Bool
unfolding isalnum
is_scheme_char c = isalnum c || c == b'+' || c == b'.' || c == b'-'

unfoldable pub is_host_char : ℕ → Bool
unfolding isalnum
is_host_char c = isalnum c || c == b'.' || c == b'-'

unfoldable pub is_path_char : ℕ → Bool
unfolding isalnum
is_path_char c =
    isalnum c
    || c == b'-'
    || c == b'.'
    || c == b'_'
    || c == b'~'
    || c == b'!'
    || c == b'$'
    || c == b'&'
    || c == b'/'
    || c == b'('
    || c == b')'
    || c == b'*'
    || c == b'+'
    || c == b','
    || c == 0x3b
    || c == b'='
    || c == b':'
    || c == b'@'
    || c == b'?'

-- `range_t`: pointers into the text as offsets from its start, and NULL.
pub record Range : Type 0 where
  pub begin : Option ℕ
  pub end : Option ℕ

-- `uri_state_e`
pub data UriState : Type 0 where
  uri_scheme_start uri_scheme_loop uri_host uri_port uri_path : UriState

-- The variables of the loop but `i`.
pub record Scan : Type 0 where
  pub scheme : Range
  pub host : Range
  pub port : Range
  pub path : Range
  pub state : UriState

abbrev pub null_range : Range
null_range = record { begin = none; end = none }

abbrev pub start : Scan
start = record {
  scheme = null_range;
  host = null_range;
  port = null_range;
  path = null_range;
  state = uri_scheme_start;
}

-- The byte that a pointer to the start of the list reads.
abbrev pub peek : List ℕ → ℕ
peek [] = 0
peek (c ∷ rest) = c

abbrev pub set_end : Range → ℕ → Range
set_end r i = record r { end = some i }

-- `path.begin = uri + i + 1; path.end = uri + len + 1; state = URI_PATH`
abbrev pub to_path : ℕ → ℕ → Scan → Scan
to_path len i s = record s {
  path = record { begin = some (i + 1); end = some (len + 1) };
  state = uri_path;
}

abbrev pub to_host : ℕ → Scan → Scan
to_host i s = record s {
  scheme = set_end s.scheme i;
  host = record { begin = some (i + 4); end = s.host.end };
  state = uri_host;
}

abbrev pub to_port : ℕ → Scan → Scan
to_port i s = record s {
  port = record { begin = some (i + 2); end = s.port.end };
  state = uri_port;
}

-- The case `URI_SCHEME_LOOP` at offset `i`, which holds `c` with `rest` behind it: the variables
-- after it and what it adds to `i`, or `none` for `return E_BAD_ARGS`.
unfoldable pub scheme_step : ℕ → ℕ → List ℕ → Scan → Option (Scan × ℕ)
unfolding is_scheme_char
scheme_step i c rest s =
    if not (is_scheme_char c)
    then none
    else if peek rest == b':' && peek (drop 1 rest) == b'/' && peek (drop 2 rest) == b'/'
    then some (to_host i s, 3)
    else some (s, 0)

-- The second test of `URI_HOST`, made behind the colon where there is one.
unfoldable pub host_path : ℕ → ℕ → List ℕ → Scan → Scan
host_path len i rest s = if peek rest == b'/' then to_path len i s else s

unfoldable pub host_step : ℕ → ℕ → ℕ → List ℕ → Scan → Option (Scan × ℕ)
unfolding is_host_char host_path
host_step len i c rest s =
    if not (is_host_char c)
    then none
    else if peek rest == b':'
    then some
        (host_path len (i + 1) (drop 1 rest) (to_port i (record s { host = set_end s.host i })), 1)
    else some (host_path len i rest (record s { host = set_end s.host i }), 0)

unfoldable pub port_step : ℕ → ℕ → ℕ → List ℕ → Scan → Option (Scan × ℕ)
unfolding isdigit host_path
port_step len i c rest s =
    if not (isdigit c)
    then none
    else some (host_path len i rest (record s { port = set_end s.port i }), 0)

unfoldable pub path_step : ℕ → Scan → Option (Scan × ℕ)
unfolding is_path_char
path_step c s = if not (is_path_char c) then none else some (s, 0)

-- The `switch`. `URI_SCHEME_START` falls through.
pub uri_step : UriState → ℕ → ℕ → ℕ → List ℕ → Scan → Option (Scan × ℕ)
unfolding scheme_step host_step port_step path_step isalpha
uri_step uri_scheme_start len i c rest s =
    if not (isalpha c)
    then none
    else scheme_step i c rest (record s {
      state = uri_scheme_loop;
      scheme = record { begin = some i; end = s.scheme.end };
    })
uri_step uri_scheme_loop len i c rest s = scheme_step i c rest s
uri_step uri_host len i c rest s = host_step len i c rest s
uri_step uri_port len i c rest s = port_step len i c rest s
uri_step uri_path len i c rest s = path_step c s

-- How the loop ends.
pub data Outcome : Type 0 where
  bad out_of_fuel : Outcome
  done : Scan → Outcome

-- The loop at offset `i`, which holds the first byte of the list. The offset is an `int` in the
-- source and a natural number here, which is the same for a text of less than 2 ^ 31 bytes.
pub scan_loop : ℕ → ℕ → ℕ → List ℕ → Scan → Outcome
unfolding uri_step
scan_loop zero len i [] s = done s
scan_loop zero len i (c ∷ rest) s = out_of_fuel
scan_loop (suc f) len i [] s = done s
scan_loop (suc f) len i (c ∷ rest) s = elim (uri_step s.state len i c rest s) [
  | none ↦ bad
  | some (s', skip) ↦ scan_loop f len (i + 1 + skip) (drop skip rest) s'
]

-- `artik_uri_info`
pub record UriInfo : Type 0 where
  pub scheme : List ℕ
  pub hostname : List ℕ
  pub path : List ℕ
  pub port : ℤ

-- `strndup` from one offset, of at most `n` bytes.
abbrev pub strndup : List ℕ → ℕ → ℕ → List ℕ
strndup uri begin n = take n (drop begin uri)

-- `strtol` in base 10 where a digit stands first, with a `long` of 32 bits.
unfoldable pub strtol_from : ℕ → List ℕ → ℕ
unfolding isdigit
strtol_from acc [] = acc
strtol_from acc (c ∷ rest) =
    let next = strtol_from (acc * 10 + (c - b'0')) rest in if isdigit c then next else acc

pub strtol : List ℕ → ℕ
unfolding strtol_from
strtol text = min (strtol_from 0 text) (2 ^ 31 - 1)

abbrev pub port_min : ℕ
port_min = 1

abbrev pub port_max : ℕ
port_max = 65535

pub data Result : Type 0 where
  ok : UriInfo → Result
  err : ArtikError → Result

abbrev pub is_scheme_state : UriState → Bool
is_scheme_state uri_scheme_start = true
is_scheme_state uri_scheme_loop = true
is_scheme_state _ = false

unfoldable pub path_text : List ℕ → Range → List ℕ
path_text uri r = elim r.begin [
  | none ↦ b'/' ∷ []
  | some b ↦ elim r.end [
    | none ↦ b'/' ∷ []
    | some e ↦ if b == e then b'/' ∷ [] else strndup uri b (e - b)
  ]
]

-- `port.begin && port.end`, then the number and its range.
unfoldable pub with_port : List ℕ → Range → UriInfo → Result
unfolding strtol
with_port uri r info = elim r.begin [
  | none ↦ ok (record info { port = negsuc 0 })
  | some b ↦ elim r.end [
    | none ↦ ok (record info { port = negsuc 0 })
    | some e ↦
        if leb (strtol (drop b uri)) port_min || leb port_max (strtol (drop b uri))
        then err e_bad_args
        else ok (record info { port = pos (strtol (drop b uri)) })
  ]
]

-- The part behind the loop, where the host and the scheme have been found.
unfoldable pub fill : List ℕ → Bool → Scan → ℕ → ℕ → ℕ → ℕ → Result
unfolding path_text with_port
fill uri memory s sb se hb he =
    if memory
    then with_port uri s.port (record {
      scheme = strndup uri sb (se - sb + 1);
      hostname = strndup uri hb (he - hb + 1);
      path = path_text uri s.path;
      port = pos 0;
    })
    else err e_no_mem

unfoldable pub finish : List ℕ → Bool → Scan → Result
unfolding fill
finish uri memory s = if is_scheme_state s.state then err e_bad_args else elim s.host.begin [
  | none ↦ err e_bad_args
  | some hb ↦ elim s.host.end [
    | none ↦ err e_bad_args
    | some he ↦ elim s.scheme.begin [
      | none ↦ err e_bad_args
      | some sb ↦ elim s.scheme.end [
        | none ↦ err e_bad_args
        | some se ↦ fill uri memory s sb se hb he
      ]
    ]
  ]
]

-- The fuel is the length: a round passes over a byte at least.
abbrev pub conclude : List ℕ → Bool → Outcome → Option Result
conclude uri memory bad = some (err e_bad_args)
conclude uri memory out_of_fuel = none
conclude uri memory (done s) = some (finish uri memory s)

-- `memory` is whether the copies can be allocated; `none` would be a loop that does not end.
unfoldable pub os_get_uri_info : List ℕ → Bool → Option Result
unfolding scan_loop finish
os_get_uri_info uri memory = conclude uri memory (scan_loop (length uri) (length uri) 0 uri start)

-- artik_utils.c: NULL for the text or for the place of the result.
unfoldable pub get_uri_info : Option (List ℕ) → Bool → Bool → Option Result
get_uri_info none info memory = some (err e_bad_args)
get_uri_info (some uri) info memory =
    if info then os_get_uri_info uri memory else some (err e_bad_args)
