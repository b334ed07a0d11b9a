-- ===== src/Websocket/Release.antt =====
-- artik_websocket.c: a handle that is requested and released.
use artik_sdk.Prelude.{
  ℕ, ◌+◌, ◌-◌, ◌≡◌, ◌≢◌, refl, ◌∙◌, ap, Bool, true, false, Option, none, some, [], ◌∷◌, ◌++◌, All,
  arith,
}
use artik_sdk.Prelude.Int.{ℤ}
use artik_sdk.Prelude.Text.{Bytes}
use artik_sdk.Error.{ArtikError, s_ok, is_ok}
use artik_sdk.ArtikList.{ArtikList, Node, add, new_node, find_first, get_by_handle, delete_node}
use artik_sdk.ArtikList.Lookup.{add_lem, add-none}
use artik_sdk.ArtikList.Deletion.{find_first-last, without-last, delete_node-hit}
use artik_sdk.ArtikList.Store.{IsFresh}
use artik_sdk.Uri.{Result, UriInfo, ok, err, is_host_char}
use artik_sdk.Uri.Turns.{IsPath}
use artik_sdk.Uri.RoundTrip.{write_uri, path_or_root}
use artik_sdk.Websocket.Request.{
  behind_w, handle_for, tizenrt_uri_info, artik_websocket_request-plain,
}
use artik_sdk.Websocket.{
  Config, Handle, State, blank, sizeof_node, request_uri, request_at, enter, release_node,
  websocket_parse_uri, artik_websocket_request, artik_websocket_release, text_blocks, copies,
  let_go, scheme_of,
}

-- The last node is taken out again by its address.
delete-last :
    (p : ℕ) (l : ArtikList Handle) (n : Node Handle)
    → p ≢ 0
    → n.addr ≡ p
    → IsFresh p l
    → (delete_node (l ++ n ∷ []) p).1 ≡ l
delete-last p l n z e f =
    ap (λ r. r.1) (delete_node-hit p (l ++ n ∷ []) n z (find_first-last p l n e f))
    ∙ without-last p l n e f

handle-last :
    (p : ℕ) (l : ArtikList Handle) (n : Node Handle)
    → p ≢ 0
    → n.handle ≡ p
    → All (λ m. m.handle ≢ p) l
    → get_by_handle (l ++ n ∷ []) p ≡ some n
unfolding get_by_handle find_first
handle-last p [] n z e f = ground arith
handle-last p (x ∷ l) n z e f = ground (arith, handle-last p l n z e f.1)

-- What `malloc` promises of a block.
abbrev pub IsNew : Option ℕ → ArtikList Handle → Type 0
IsNew none l = Unit {0}
IsNew (some p) l = (p ≢ 0) × IsFresh p l

module _ {W : Type 0} where
  copies-kept :
      (host path : Bool) (info : UriInfo) (o : Option (ℤ × Bool)) (s : State W)
      → let r =
          let_go
            (copies host path info o (record s { infos = s.infos + 1; utils = s.utils + 1 })) in
        r.0 ≡ none → r.1 ≡ s
  copies-kept host path info none s h = ground arith
  copies-kept true true info (some (port, tls)) s h = cc
  copies-kept true false info (some (port, tls)) s h = ground arith
  copies-kept false path info (some (port, tls)) s h = ground arith

  -- A URI that cannot be parsed, with another scheme than ws and wss, or whose copies do not fit:
  -- nothing is kept.
  parsed-kept :
      (host path : Bool) (r : Result) (s : State W)
      → (websocket_parse_uri host path r s).0 ≡ none
      → (websocket_parse_uri host path r s).1 ≡ s
  unfolding websocket_parse_uri
  parsed-kept host path (err e) s h = refl
  parsed-kept host path (ok info) s h = copies-kept host path info (scheme_of info.scheme) s h

  enter-failed :
      (config : Config) (n : Node Handle) (r : Option Handle × State W) (s : State W)
      → n.addr ≢ 0
      → IsFresh n.addr s.requested_node
      → (r.0 ≡ none → r.1 ≡ record s { requested_node = s.requested_node ++ n ∷ [] })
      → is_ok (enter config n r).0 ≡ false
      → (enter config n r).2 ≡ s
  unfolding is_ok
  enter-failed config n (some h, s') s z f k e = cc
  enter-failed config n (none, s') s z f k e =
      ap (λ (t : State W). record t { requested_node = (delete_node t.requested_node n.addr).1 })
        (k refl)
      ∙ ap (λ l. record s { requested_node = l }) (delete-last n.addr s.requested_node n z refl f)

  request_at-failed :
      (config : Config) (block : Option ℕ) (host path : Bool) (r : Result) (s : State W)
      → IsNew block s.requested_node
      → let a = request_at config host path r (add s.requested_node 0 sizeof_node block blank) s in
        is_ok a.0 ≡ false → a.2 ≡ s
  unfolding new_node
  request_at-failed config none host path r s w =
      rw (add-none s.requested_node 0 sizeof_node blank) (λ e. refl)
  request_at-failed config (some p) host path r s w =
      rw (add_lem s.requested_node 0 sizeof_node p blank (omega arith)) (λ e.
        enter-failed config (new_node p blank 0 sizeof_node)
          (websocket_parse_uri host path r
            (record s { requested_node = s.requested_node ++ new_node p blank 0 sizeof_node ∷ [] }))
          s w.0 w.1
          (parsed-kept host path r
            (record s { requested_node = s.requested_node ++ new_node p blank 0 sizeof_node ∷ [] }))
          e)

  request_uri-failed :
      (get_uri_info : Bytes → Result) (place : Bool) (config : Config) (uri : Option Bytes)
      (block : Option ℕ) (host path : Bool) (s : State W)
      → IsNew block s.requested_node
      → is_ok (request_uri get_uri_info place config uri block host path s).0 ≡ false
      → (request_uri get_uri_info place config uri block host path s).2 ≡ s
  request_uri-failed get_uri_info place config none block host path s w e = refl
  request_uri-failed get_uri_info false config (some uri) block host path s w e = refl
  request_uri-failed get_uri_info true config (some uri) block host path s w e =
      request_at-failed config block host path (get_uri_info uri) s w e

  -- A request that fails, for whatever reason, leaves the state as it was, if its block is new: no
  -- node, no text, no result of the parser and no reference is kept.
  pub artik_websocket_request-failed :
      (get_uri_info : Bytes → Result) (place : Bool) (config : Option Config) (block : Option ℕ)
      (host path : Bool) (s : State W)
      → IsNew block s.requested_node
      → is_ok (artik_websocket_request get_uri_info place config block host path s).0 ≡ false
      → (artik_websocket_request get_uri_info place config block host path s).2 ≡ s
  unfolding artik_websocket_request
  artik_websocket_request-failed get_uri_info place none block host path s w e = refl
  artik_websocket_request-failed get_uri_info place (some config) block host path s w e =
      request_uri-failed get_uri_info place config config.uri block host path s w e

  -- The release of a handle that was just requested gives back the state before.
  pub artik_websocket_release-last :
      (p : ℕ) (h : Handle) (s : State W)
      → p ≢ 0
      → IsFresh p s.requested_node
      → All (λ m. m.handle ≢ p) s.requested_node
      → artik_websocket_release p (record s {
        requested_node =
            s.requested_node
            ++ record {
              addr = p;
              handle = p;
              size_data = sizeof_node;
              clear = false;
              copy = none;
              payload = h;
            }
              ∷ [];
        texts = s.texts + (text_blocks h.host + text_blocks h.path);
      })
        ≡ (s_ok, s)
  unfolding artik_websocket_release
  artik_websocket_release-last p h s z f k =
      let n : Node Handle = record {
        addr = p;
        handle = p;
        size_data = sizeof_node;
        clear = false;
        copy = none;
        payload = h;
      } in
      let s' : State W = record s {
        requested_node = s.requested_node ++ n ∷ [];
        texts = s.texts + (text_blocks h.host + text_blocks h.path);
      } in
      ap (release_node s') (handle-last p s.requested_node n z refl k)
      ∙ ap
          (λ l. (
            s_ok,
            record s' {
              requested_node = l;
              texts = s'.texts - (text_blocks h.host + text_blocks h.path);
            },
          ))
          (delete-last p s.requested_node n z refl f)
      ∙ ap (λ t. (s_ok, record s { texts = t }))
          (let e : s'.texts - (text_blocks h.host + text_blocks h.path) ≡ s.texts = omega arith in
            e)

  -- A URI of the scheme ws or wss, with a host, no port and a path that may be empty, is requested,
  -- and the handle is released, where memory suffices, the block is new, and its address is no other
  -- handle: the state is the one before.
  pub artik_websocket_release-request :
      (tls : Bool) (d q : ℕ) (h p : Bytes) (config : Config) (s : State W)
      → All (λ b. is_host_char b ≡ true) (d ∷ h)
      → IsPath p
      → config.uri ≡ some (write_uri 119 (behind_w tls) (d ∷ (h ++ p)))
      → q ≢ 0
      → IsFresh q s.requested_node
      → All (λ m. m.handle ≢ q) s.requested_node
      → artik_websocket_release q
          (artik_websocket_request tizenrt_uri_info true (some config) (some q) true true s).2
        ≡ (s_ok, s)
  artik_websocket_release-request tls d q h p config s k r u z f g =
      ap (λ (a : ArtikError × Option ℕ × State W). artik_websocket_release q a.2)
        (artik_websocket_request-plain tls d q h p config s k r u f)
      ∙ artik_websocket_release-last q (handle_for tls config (d ∷ h) (path_or_root p)) s z f g
