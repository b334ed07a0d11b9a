-- ===== src/Http.antt =====
-- src/modules/connectivity/http/common_http.c: the deep copies of headers and of an SSL configuration
-- that a request in the background keeps. A text ends at its NUL, which is left out.
pub mod Copies
mod Tests
use artik_sdk.Prelude.{
  ℕ, ◌+◌, ◌-◌, Bool, true, false, not, Option, none, some, List, [], ◌∷◌, take, if◌then◌else◌,
}
use artik_sdk.Prelude.Text.{Bytes}

-- The number of blocks that are allocated, and whether each next allocation succeeds; an allocation
-- behind the list fails.
pub record Heap : Type 0 where
  pub live : ℕ
  pub answers : List Bool

abbrev pub answer : List Bool → ℕ → Bool × Heap
answer [] n = (false, record { live = n; answers = [] })
answer (false ∷ rest) n = (false, record { live = n; answers = rest })
answer (true ∷ rest) n = (true, record { live = n + 1; answers = rest })

unfoldable pub malloc : Heap → Bool × Heap
malloc h = answer h.answers h.live

-- `n` calls of `free`.
abbrev pub freed : ℕ → Heap → Heap
freed n h = record h { live = h.live - n }

-- `artik_http_header_field` and `artik_http_headers`; NULL is `none`.
pub record Field : Type 0 where
  pub name : Option Bytes
  pub content : Option Bytes

-- Whether `strdup` was called in vain, and the pointer.
unfoldable pub copy_text : Option Bytes → Heap → Bool × Option Bytes × Heap
unfolding malloc
copy_text none h = (true, none, h)
copy_text (some text) h =
    let r = malloc h in if r.0 then (true, some text, r.1) else (false, none, r.1)

abbrev pub blank_field : Field
blank_field = record { name = none; content = none }

abbrev pub blanks : List Field → List Field
blanks [] = []
blanks (f ∷ rest) = blank_field ∷ blanks rest

-- The loop over the fields: whether it came to its end, and the fields as it leaves them.
unfoldable pub copy_fields : List Field → Heap → Bool × List Field × Heap
unfolding copy_text
copy_fields [] h = (true, [], h)
copy_fields (f ∷ rest) h =
    let n = copy_text f.name h in
    let c = copy_text f.content n.2 in
    let r = copy_fields rest c.2 in
    if n.0
    then if c.0
      then (r.0, record { name = n.1; content = c.1 } ∷ r.1, r.2)
      else (false, record { name = n.1; content = none } ∷ blanks rest, c.2)
    else (false, blank_field ∷ blanks rest, n.2)

abbrev pub is_set : Option Bytes → ℕ
is_set none = 0
is_set (some text) = 1

-- How many blocks the loop of `free_http_headers` frees.
abbrev pub texts : List Field → ℕ
texts [] = 0
texts (f ∷ rest) = is_set f.name + is_set f.content + texts rest

unfoldable pub free_http_headers : List Field → Heap → Heap
free_http_headers headers h = freed (texts headers + 2) h

-- After the two blocks are there.
unfoldable pub finished : Bool × List Field × Heap → Option (List Field) × Heap
unfolding free_http_headers
finished (true, fields, h) = (some fields, h)
finished (false, fields, h) = (none, free_http_headers fields h)

unfoldable pub copy_http_headers : List Field → Heap → Option (List Field) × Heap
unfolding malloc copy_fields finished
copy_http_headers from h =
    let to = malloc h in
    let fields = malloc to.1 in
    if to.0
    then if fields.0 then finished (copy_fields from fields.1) else (none, freed 1 fields.1)
    else (none, to.1)

-- `artik_ssl_certificate` and `artik_ssl_key`.
pub record Certificate : Type 0 where
  pub content : Option Bytes
  pub len : ℕ

pub record SecureElement : Type 0 where
  pub key_id : Option Bytes
  pub key_algo : ℕ

pub record SslConfig : Type 0 where
  pub se_config : Option SecureElement
  pub ca_cert : Certificate
  pub client_cert : Certificate
  pub client_key : Certificate
  pub verify_cert : ℕ

abbrev pub blank_certificate : Certificate
blank_certificate = record { content = none; len = 0 }

unfoldable pub copy_content : Option Bytes → ℕ → Heap → Bool × Certificate × Heap
unfolding malloc
copy_content none len h = (true, blank_certificate, h)
copy_content (some text) len h =
    let r = malloc h in
    if r.0
    then (true, record { content = some (take len text); len = len }, r.1)
    else (false, record { content = none; len = len }, r.1)

-- One of the three blocks with `strndup`; the length is set before it.
unfoldable pub copy_certificate : Certificate → Heap → Bool × Certificate × Heap
unfolding copy_content
copy_certificate from h = copy_content from.content from.len h

unfoldable pub copy_key : Option Bytes → ℕ → Heap → Bool × Option SecureElement × Heap
unfolding malloc
copy_key none algo h = (true, none, h)
copy_key (some id) algo h =
    let r = malloc h in
    let k = malloc r.1 in
    if r.0
    then if k.0
      then (true, some (record { key_id = some id; key_algo = algo }), k.1)
      else (false, some (record { key_id = none; key_algo = 0 }), k.1)
    else (false, none, r.1)

-- The block of `se_config`, if it has a key.
unfoldable pub copy_secure_element :
    Option SecureElement → Heap → Bool × Option SecureElement × Heap
unfolding copy_key
copy_secure_element none h = (true, none, h)
copy_secure_element (some se) h = copy_key se.key_id se.key_algo h

abbrev pub key_blocks : Option SecureElement → ℕ
key_blocks none = 0
key_blocks (some se) = is_set se.key_id + 1

unfoldable pub free_ssl_config : SslConfig → Heap → Heap
free_ssl_config ssl h =
    freed
      (is_set ssl.ca_cert.content
        + is_set ssl.client_cert.content
        + is_set ssl.client_key.content
        + key_blocks ssl.se_config
        + 1)
      h

abbrev pub blank_config : SslConfig
blank_config = record {
  se_config = none;
  ca_cert = blank_certificate;
  client_cert = blank_certificate;
  client_key = blank_certificate;
  verify_cert = 0;
}

-- The parts in their order, up to the first that fails.
unfoldable pub copy_parts : SslConfig → Heap → Bool × SslConfig × Heap
copy_parts from h =
    let ca = copy_certificate from.ca_cert h in
    let cert = copy_certificate from.client_cert ca.2 in
    let key = copy_certificate from.client_key cert.2 in
    let se = copy_secure_element from.se_config key.2 in
    if not ca.0
    then (false, record blank_config { ca_cert = ca.1 }, ca.2)
    else if not cert.0
    then (false, record blank_config { ca_cert = ca.1; client_cert = cert.1 }, cert.2)
    else if not key.0
    then (
      false,
      record blank_config { ca_cert = ca.1; client_cert = cert.1; client_key = key.1 },
      key.2,
    )
    else (
      se.0,
      record {
        se_config = se.1;
        ca_cert = ca.1;
        client_cert = cert.1;
        client_key = key.1;
        verify_cert = from.verify_cert;
      },
      se.2,
    )

unfoldable pub settled : Bool × SslConfig × Heap → Option SslConfig × Heap
unfolding free_ssl_config
settled (true, to, h) = (some to, h)
settled (false, to, h) = (none, free_ssl_config to h)

unfoldable pub copy_ssl_config : Option SslConfig → Heap → Option SslConfig × Heap
unfolding malloc copy_parts settled
copy_ssl_config none h = (none, h)
copy_ssl_config (some from) h =
    let r = malloc h in if r.0 then settled (copy_parts from r.1) else (none, r.1)
