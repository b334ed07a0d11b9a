-- ===== src/Http/Tests.antt =====
-- common_http.c: copies with memory, and with less than they take.
use artik_sdk.Prelude.{◌≡◌, refl, true, false, none, some, List, [], ◌∷◌}
use artik_sdk.Http.{
  Heap, Field, copy_http_headers, free_http_headers, SslConfig, copy_ssl_config, copy_certificate,
  copy_secure_element, blank_certificate,
}
use artik_sdk.Http.Copies.{copy_http_headers_lem}

abbrev headers : List Field
headers =
    (record { name = some (65 ∷ []); content = some (66 ∷ []) })
    ∷ (record { name = some (67 ∷ []); content = none })
    ∷ []

abbrev short_of_memory : Heap
short_of_memory = record { live = 3; answers = true ∷ true ∷ true ∷ true ∷ false ∷ [] }

copy_http_headers_lem_example :
    ((copy_http_headers headers short_of_memory).0 ≡ none
      → (copy_http_headers headers short_of_memory).1.live ≡ 3)
    × ((to : List Field)
        → (copy_http_headers headers short_of_memory).0 ≡ some to
        → (to ≡ headers)
          × ((free_http_headers to (copy_http_headers headers short_of_memory).1).live ≡ 3))
copy_http_headers_lem_example = copy_http_headers_lem headers short_of_memory

no_copy : copy_http_headers headers short_of_memory ≡ (none, record { live = 3; answers = [] })
unfolding copy_http_headers
no_copy = refl

abbrev ssl : SslConfig
ssl = record {
  se_config = some (record { key_id = some (49 ∷ []); key_algo = 2 });
  ca_cert = record { content = some (1 ∷ 2 ∷ []); len = 2 };
  client_cert = blank_certificate;
  client_key = blank_certificate;
  verify_cert = 1;
}

abbrev enough : Heap
enough = record { live = 0; answers = true ∷ true ∷ true ∷ true ∷ [] }

a_copy : copy_ssl_config (some ssl) enough ≡ (some ssl, record { live = 4; answers = [] })
unfolding copy_ssl_config copy_certificate copy_secure_element
a_copy = refl
