-- ===== src/Websocket/Request.antt =====
-- artik_websocket.c: a request with the URI parser of the TizenRT build.
use artik_sdk.Prelude.{
  ℕ, ◌+◌, ◌≡◌, refl, ◌∙◌, ap, Bool, true, false, Option, none, some, [], ◌∷◌, ◌++◌, All,
  if◌then◌else◌, arith,
}
use artik_sdk.Prelude.Int.{pos, negsuc}
use artik_sdk.Prelude.Text.{Bytes}
use artik_sdk.Error.{s_ok, e_bad_args}
use artik_sdk.ArtikList.{add, new_node}
use artik_sdk.ArtikList.Lookup.{add_lem}
use artik_sdk.ArtikList.Store.{IsFresh, store-append}
use artik_sdk.Uri.{Result, UriInfo, ok, err, get_uri_info, isalpha, is_scheme_char, is_host_char}
use artik_sdk.Uri.Turns.{IsPath}
use artik_sdk.Uri.RoundTrip.{write_uri, path_or_root, os_get_uri_info-plain}
use artik_sdk.Websocket.{
  Config, Handle, request_uri, request_at, enter, State, blank, sizeof_node,
  artik_websocket_request, websocket_parse_uri,
}

-- The parser of the TizenRT build, where memory suffices.
abbrev result_or_error : Option Result → Result
result_or_error none = err e_bad_args
result_or_error (some r) = r

unfoldable pub tizenrt_uri_info : Bytes → Result
tizenrt_uri_info uri = result_or_error (get_uri_info (some uri) true true)

-- `ws` and `wss` behind their first letter.
abbrev pub behind_w : Bool → Bytes
behind_w true = 115 ∷ 115 ∷ []
behind_w false = 115 ∷ []

abbrev plain_info : Bool → Bytes → Bytes → UriInfo
plain_info tls host path = record {
  scheme = 119 ∷ behind_w tls;
  hostname = host;
  path = path;
  port = negsuc 0;
}

parse-plain :
    (tls : Bool) (d : ℕ) (h p : Bytes)
    → All (λ b. is_host_char b ≡ true) (d ∷ h)
    → IsPath p
    → tizenrt_uri_info (write_uri 119 (behind_w tls) (d ∷ (h ++ p)))
      ≡ ok (record {
        scheme = 119 ∷ behind_w tls;
        hostname = d ∷ h;
        path = path_or_root p;
        port = negsuc 0;
      })
unfolding tizenrt_uri_info get_uri_info isalpha is_scheme_char
parse-plain true d h p k q =
    ap result_or_error (os_get_uri_info-plain 119 d (behind_w true) h p refl (refl, (refl, tt)) k q)
parse-plain false d h p k q =
    ap result_or_error (os_get_uri_info-plain 119 d (behind_w false) h p refl (refl, tt) k q)

parsed :
    {W : Type 0} (tls : Bool) (host path : Bytes) (s : State W)
    → websocket_parse_uri true true
        (ok (record { scheme = 119 ∷ behind_w tls; hostname = host; path = path; port = negsuc 0 }))
        s
      ≡ (
        some (record blank {
          host = some host;
          path = some path;
          port = if tls then pos 443 else pos 80;
          use_tls = tls;
        }),
        record s { texts = s.texts + 2 },
      )
unfolding websocket_parse_uri
parsed true host path s = ground arith
parsed false host path s = ground arith

-- The handle that a request for such a URI makes.
abbrev pub handle_for : Bool → Config → Bytes → Bytes → Handle
handle_for tls config host path = record {
  config = config;
  host = some host;
  path = some path;
  port = if tls then pos 443 else pos 80;
  use_tls = tls;
}

-- A URI of the scheme ws or wss, with a host, no port and a path that may be empty, where memory
-- suffices and the block is new: the handle is the block's address, and the list has one more node with the
-- host, the path, a slash for none, and the port 80, or 443 with TLS for wss. Two texts more are allocated,
-- and the parser's result and its module are let go.
pub artik_websocket_request-plain :
    {W : Type 0} (tls : Bool) (d q : ℕ) (h p : Bytes) (config : Config) (s : State W)
    → All (λ b. is_host_char b ≡ true) (d ∷ h)
    → IsPath p
    → config.uri ≡ some (write_uri 119 (behind_w tls) (d ∷ (h ++ p)))
    → IsFresh q s.requested_node
    → artik_websocket_request tizenrt_uri_info true (some config) (some q) true true s ≡ (
      s_ok,
      some q,
      record s {
        requested_node =
            s.requested_node
            ++ record {
              addr = q;
              handle = q;
              size_data = sizeof_node;
              clear = false;
              copy = none;
              payload = handle_for tls config (d ∷ h) (path_or_root p);
            }
              ∷ [];
        texts = s.texts + 2;
      },
    )
unfolding artik_websocket_request new_node
artik_websocket_request-plain tls d q h p config s k r u f =
    let l = s.requested_node ++ new_node q blank 0 sizeof_node ∷ [] in
    ap (λ o. request_uri tizenrt_uri_info true config o (some q) true true s) u
    ∙ ap (λ r. request_at config true true r (add s.requested_node 0 sizeof_node (some q) blank) s)
        (parse-plain tls d h p k r)
    ∙ ap (λ o. request_at config true true (ok (plain_info tls (d ∷ h) (path_or_root p))) o s)
        (add_lem s.requested_node 0 sizeof_node q blank (omega arith))
    ∙ ap (enter config (new_node q blank 0 sizeof_node))
        (parsed tls (d ∷ h) (path_or_root p) (record s { requested_node = l }))
    ∙ ap (λ l'. (s_ok, some q, record s { requested_node = l'; texts = s.texts + 2 }))
        (store-append q
          (λ m. record m { handle = q; payload = handle_for tls config (d ∷ h) (path_or_root p) })
          s.requested_node (new_node q blank 0 sizeof_node) refl f)
