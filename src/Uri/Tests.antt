-- ===== src/Uri/Tests.antt =====
-- tizenrt_utils.c: runs of the parser.
use artik_sdk.Prelude.{ℕ, ◌≡◌, refl, ◌<◌, ◌⊎◌, ◌||◌, true, some, [], ◌∷◌, ◌++◌, leb, if◌then◌else◌}
use artik_sdk.Prelude.Int.{pos, negsuc}
use artik_sdk.Error.{e_bad_args}
use artik_sdk.Uri.{
  isalpha, is_scheme_char, is_host_char, isdigit, is_path_char, os_get_uri_info, ok, err, UriInfo,
}
use artik_sdk.Uri.RoundTrip.{write_uri, path_or_root, os_get_uri_info-plain}
use artik_sdk.Uri.Ports.{number, os_get_uri_info-port_text}
use artik_sdk.Uri.Bounds.{os_get_uri_info-port}

-- `ws://a.b/x`
os_get_uri_info-plain_example :
    os_get_uri_info
      (write_uri b'w' (b's' ∷ []) (b'a' ∷ ((b'.' ∷ b'b' ∷ []) ++ (b'/' ∷ b'x' ∷ []))))
      true
    ≡ some (
        ok (record {
          scheme = b'w' ∷ b's' ∷ [];
          hostname = b'a' ∷ b'.' ∷ b'b' ∷ [];
          path = path_or_root (b'/' ∷ b'x' ∷ []);
          port = negsuc 0;
        }))
unfolding isalpha is_scheme_char is_host_char is_path_char
os_get_uri_info-plain_example =
    os_get_uri_info-plain b'w' b'a' (b's' ∷ []) (b'.' ∷ b'b' ∷ []) (b'/' ∷ b'x' ∷ []) refl
      (refl, tt) (refl, (refl, (refl, tt))) (refl, (refl, tt))

-- `w://a:80/`
os_get_uri_info-port_text_example :
    os_get_uri_info
      (write_uri b'w' [] (b'a' ∷ ([] ++ (b':' ∷ b'8' ∷ ((b'0' ∷ []) ++ (b'/' ∷ []))))))
      true
    ≡ some (
        if leb (number (b'8' ∷ b'0' ∷ [])) 1 || leb 65535 (number (b'8' ∷ b'0' ∷ []))
        then err e_bad_args
        else ok (record {
          scheme = b'w' ∷ [];
          hostname = b'a' ∷ [];
          path = path_or_root (b'/' ∷ []);
          port = pos (number (b'8' ∷ b'0' ∷ []));
        }))
unfolding isalpha is_host_char isdigit is_path_char
os_get_uri_info-port_text_example =
    os_get_uri_info-port_text b'w' b'a' b'8' [] [] (b'0' ∷ []) (b'/' ∷ []) refl tt (refl, tt)
      (refl, (refl, tt)) (refl, tt)

abbrev at_80 : UriInfo
at_80 = record { scheme = b'w' ∷ []; hostname = b'a' ∷ []; path = b'/' ∷ []; port = pos 80 }

os_get_uri_info-port_example :
    (at_80.port ≡ negsuc 0) ⊎ ((n : ℕ) × (at_80.port ≡ pos n) × (1 < n) × (n < 65535))
unfolding os_get_uri_info
os_get_uri_info-port_example =
    os_get_uri_info-port (b'w' ∷ b':' ∷ b'/' ∷ b'/' ∷ b'a' ∷ b':' ∷ b'8' ∷ b'0' ∷ []) true at_80
      refl
