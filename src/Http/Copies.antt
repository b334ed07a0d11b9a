-- ===== src/Http/Copies.antt =====
-- common_http.c: what the copies hold, and what they free where memory runs out.
use artik_sdk.Prelude.{
  ℕ, ◌+◌, ◌≡◌, refl, Bool, true, false, Option, none, some, List, [], ◌∷◌, take, arith, subst,
  if◌then◌else◌,
}
use artik_sdk.Prelude.Cases.{if_rule, some-injective}
use artik_sdk.Prelude.Text.{Bytes}
use artik_sdk.Http.{
  Heap, answer, malloc, Field, copy_text, copy_fields, is_set, texts, free_http_headers, finished,
  blanks, copy_http_headers, Certificate, SecureElement, SslConfig, copy_content, copy_certificate,
  copy_key, copy_secure_element, key_blocks, free_ssl_config, copy_parts, settled, copy_ssl_config,
}

answer_lem : (l : List Bool) (n : ℕ) → (answer l n).1.live ≡ n + (if (answer l n).0 then 1 else 0)
answer_lem [] n = omega arith
answer_lem (true ∷ l) n = omega arith
answer_lem (false ∷ l) n = omega arith

malloc_lem : (h : Heap) → (malloc h).1.live ≡ h.live + (if (malloc h).0 then 1 else 0)
unfolding malloc
malloc_lem h = answer_lem h.answers h.live

copy_text_lem :
    (t : Option Bytes) (h : Heap)
    → let r = copy_text t h in (r.2.live ≡ h.live + is_set r.1) × (r.0 ≡ true → r.1 ≡ t)
unfolding copy_text
copy_text_lem none h = (omega arith, λ _. refl)
copy_text_lem (some t) h = (ground (arith, malloc_lem h), ground arith)

texts-blanks : (l : List Field) → texts (blanks l) ≡ 0
texts-blanks [] = refl
texts-blanks (f ∷ l) = omega (arith, texts-blanks l)

copy_fields_lem :
    (l : List Field) (h : Heap)
    → let r = copy_fields l h in (r.2.live ≡ h.live + texts r.1) × (r.0 ≡ true → r.1 ≡ l)
unfolding copy_fields
copy_fields_lem [] h = (omega arith, λ _. refl)
copy_fields_lem (f ∷ l) h =
    let n = copy_text_lem f.name h in
    let c = copy_text_lem f.content (copy_text f.name h).2 in
    let r = copy_fields_lem l (copy_text f.content (copy_text f.name h).2).2 in
    let b = texts-blanks l in (ground arith, ground arith)

abbrev HeadersOk : List Field → Heap → Option (List Field) × Heap → Type 0
HeadersOk from h r =
    (r.0 ≡ none → r.1.live ≡ h.live)
    × ((to : List Field) → r.0 ≡ some to → (to ≡ from) × ((free_http_headers to r.1).live ≡ h.live))

-- The copy of the fields holds what it should, behind the two blocks.
finished_lem :
    (from : List Field) (h : Heap) (r : Bool × List Field × Heap)
    → r.2.live ≡ h.live + 2 + texts r.1
    → (r.0 ≡ true → r.1 ≡ from)
    → HeadersOk from h (finished r)
unfolding finished free_http_headers
finished_lem from h (true, fields, h') l e = (λ n. cc, λ to t. (cc (e refl), ground arith))
finished_lem from h (false, fields, h') l e = (λ _. ground arith, λ to t. cc)

-- A copy of the headers has the same fields, and what `free_http_headers` gives back is what was taken
-- for it. Where there is no copy, nothing more is allocated than before, wherever memory ran out.
pub copy_http_headers_lem :
    (from : List Field) (h : Heap)
    → let r = copy_http_headers from h in
      (r.0 ≡ none → r.1.live ≡ h.live)
      × ((to : List Field)
          → r.0 ≡ some to
          → (to ≡ from) × ((free_http_headers to r.1).live ≡ h.live))
unfolding copy_http_headers
copy_http_headers_lem from h =
    if_rule (HeadersOk from h) (malloc h).0
      (λ a.
        if_rule (HeadersOk from h) (malloc (malloc h).1).0
          (λ b.
            finished_lem from h (copy_fields from (malloc (malloc h).1).1)
              (ground (
                arith,
                malloc_lem h,
                malloc_lem (malloc h).1,
                (copy_fields_lem from (malloc (malloc h).1).1).0,
              ))
              (copy_fields_lem from (malloc (malloc h).1).1).1)
          (λ b. (λ _. ground (arith, malloc_lem h, malloc_lem (malloc h).1), λ to e. cc)))
      (λ a. (λ _. ground (arith, malloc_lem h), λ to e. cc))

abbrev pub trimmed_to : Option Bytes → ℕ → Certificate
trimmed_to none len = record { content = none; len = 0 }
trimmed_to (some t) len = record { content = some (take len t); len = len }

-- What a copy of a certificate is: the first `len` bytes, and no length without them.
abbrev pub trimmed : Certificate → Certificate
trimmed c = trimmed_to c.content c.len

copy_content_lem :
    (t : Option Bytes) (len : ℕ) (h : Heap)
    → let r = copy_content t len h in
      (r.2.live ≡ h.live + is_set r.1.content) × (r.0 ≡ true → r.1 ≡ trimmed_to t len)
unfolding copy_content
copy_content_lem none len h = (omega arith, λ _. refl)
copy_content_lem (some t) len h = (ground (arith, malloc_lem h), ground (arith, malloc_lem h))

abbrev pub keyed_by : Option Bytes → ℕ → Option SecureElement
keyed_by none algo = none
keyed_by (some id) algo = some (record { key_id = some id; key_algo = algo })

-- A secure element is kept if it has a key.
abbrev pub keyed : Option SecureElement → Option SecureElement
keyed none = none
keyed (some se) = keyed_by se.key_id se.key_algo

copy_certificate_lem :
    (c : Certificate) (h : Heap)
    → let r = copy_certificate c h in
      (r.2.live ≡ h.live + is_set r.1.content) × (r.0 ≡ true → r.1 ≡ trimmed c)
unfolding copy_certificate
copy_certificate_lem c h = copy_content_lem c.content c.len h

copy_key_lem :
    (id : Option Bytes) (algo : ℕ) (h : Heap)
    → let r = copy_key id algo h in
      (r.2.live ≡ h.live + key_blocks r.1) × (r.0 ≡ true → r.1 ≡ keyed_by id algo)
unfolding copy_key
copy_key_lem none algo h = (omega arith, λ _. refl)
copy_key_lem (some id) algo h =
    (ground (arith, malloc_lem h, malloc_lem (malloc h).1), ground (arith, malloc_lem h))

copy_secure_element_lem :
    (se : Option SecureElement) (h : Heap)
    → let r = copy_secure_element se h in
      (r.2.live ≡ h.live + key_blocks r.1) × (r.0 ≡ true → r.1 ≡ keyed se)
unfolding copy_secure_element
copy_secure_element_lem none h = (omega arith, λ _. refl)
copy_secure_element_lem (some se) h = copy_key_lem se.key_id se.key_algo h

-- What a copy of a configuration is.
abbrev pub normal : SslConfig → SslConfig
normal c = record {
  se_config = keyed c.se_config;
  ca_cert = trimmed c.ca_cert;
  client_cert = trimmed c.client_cert;
  client_key = trimmed c.client_key;
  verify_cert = c.verify_cert;
}

abbrev held : SslConfig → ℕ
held c =
    is_set c.ca_cert.content
    + is_set c.client_cert.content
    + is_set c.client_key.content
    + key_blocks c.se_config

copy_parts_lem :
    (from : SslConfig) (h : Heap)
    → let r = copy_parts from h in (r.2.live ≡ h.live + held r.1) × (r.0 ≡ true → r.1 ≡ normal from)
unfolding copy_parts
copy_parts_lem from h =
    let ca = copy_certificate_lem from.ca_cert h in
    let cert = copy_certificate_lem from.client_cert (copy_certificate from.ca_cert h).2 in
    let h' = (copy_certificate from.client_cert (copy_certificate from.ca_cert h).2).2 in
    let key = copy_certificate_lem from.client_key h' in
    let se = copy_secure_element_lem from.se_config (copy_certificate from.client_key h').2 in
    (ground arith, ground arith)

abbrev SslOk : SslConfig → Heap → Option SslConfig × Heap → Type 0
SslOk from h r =
    (r.0 ≡ none → r.1.live ≡ h.live)
    × ((to : SslConfig)
        → r.0 ≡ some to
        → (to ≡ normal from) × ((free_ssl_config to r.1).live ≡ h.live))

ssl_left :
    (from : SslConfig) (h : Heap) (to to' : SslConfig) (h' : Heap)
    → h'.live ≡ h.live + 1 + held to
    → some to ≡ some to'
    → (free_ssl_config to' h').live ≡ h.live
unfolding free_ssl_config
ssl_left from h to to' h' l t =
    subst (λ (c : SslConfig). (free_ssl_config c h').live ≡ h.live) (some-injective t)
      (omega (arith, l))

settled_lem :
    (from : SslConfig) (h : Heap) (r : Bool × SslConfig × Heap)
    → r.2.live ≡ h.live + 1 + held r.1
    → (r.0 ≡ true → r.1 ≡ normal from)
    → SslOk from h (settled r)
unfolding settled free_ssl_config
settled_lem from h (true, to, h') l e =
    (λ n. cc, λ to' t. (cc (e refl), ssl_left from h to to' h' l t))
settled_lem from h (false, to, h') l e = (λ _. omega (arith, l), λ to' t. cc)

-- A copy of an SSL configuration is the configuration with each text cut to its length, and what
-- `free_ssl_config` gives back is what was taken for it. Where there is no copy, nothing more is
-- allocated than before, wherever memory ran out.
pub copy_ssl_config_lem :
    (from : SslConfig) (h : Heap)
    → let r = copy_ssl_config (some from) h in
      (r.0 ≡ none → r.1.live ≡ h.live)
      × ((to : SslConfig)
          → r.0 ≡ some to
          → (to ≡ normal from) × ((free_ssl_config to r.1).live ≡ h.live))
unfolding copy_ssl_config
copy_ssl_config_lem from h =
    if_rule (SslOk from h) (malloc h).0
      (λ a.
        settled_lem from h (copy_parts from (malloc h).1)
          (ground (arith, malloc_lem h, (copy_parts_lem from (malloc h).1).0))
          (copy_parts_lem from (malloc h).1).1)
      (λ a. (λ _. ground (arith, malloc_lem h), λ to e. cc))
