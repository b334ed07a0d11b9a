-- ===== src/Cloud/Http.antt =====
-- artik_cloud.c: the requests over the HTTP module, blocking and with a callback, and the references
-- to that module that the process holds. The HTTP module is a parameter.
use artik_sdk.Prelude.{
  ℕ, ◌+◌, ◌-◌, Bool, not, Option, none, some, List, [], ◌∷◌, leb, ◌==◌, if◌then◌else◌,
}
use artik_sdk.Error.{ArtikError, s_ok, e_http_error, e_no_mem, e_bad_args, is_ok}
use artik_sdk.Prelude.Text.{Bytes}

-- `artik_ssl_config`: whether `se_config` is set, and what else it holds.
pub record Ssl : Type 0 where
  pub se_config : Bool
  pub rest : ℕ

-- The four functions of the HTTP module that are called.
pub data Method : Type 0 where
  del put post get : Method

-- The arguments of such a call.
pub record Call : Type 0 where
  pub method : Method
  pub url : Bytes
  pub headers : List (Bytes × Bytes)
  pub body : Option Bytes
  pub ssl : Ssl

-- `artik_http_module` over a world `W`. A blocking call answers with the status, and with the text
-- if it writes `*response`.
pub record HttpModule (W : Type 0) : Type 0 where
  pub send : Call → W → ArtikError × ℕ × Option Bytes × W
  pub send_async : Call → W → ArtikError × W

-- `artik_cloud_async` less its `http_module`.
pub record Async : Type 0 where
  pub callback : ℕ
  pub user_data : ℕ

-- A call of the application's callback.
pub record Answer : Type 0 where
  pub callback : ℕ
  pub ret : ArtikError
  pub response : Option Bytes
  pub user_data : ℕ

-- `refs` is how often the process has requested the HTTP module and not released it; `pending` has
-- the `artik_cloud_async` blocks that are allocated, by address. `sent` and `answers` record the calls
-- of the HTTP module and of the callbacks, the latest first.
pub record State (W : Type 0) : Type 0 where
  pub refs : ℕ
  pub pending : List (ℕ × Async)
  pub sent : List Call
  pub answers : List Answer
  pub world : W

-- `artik_cloud_http_request`: `response` is whether that pointer is set.
pub record HttpRequest : Type 0 where
  pub response : Bool
  pub callback : ℕ
  pub user_data : ℕ
  pub ssl_config : Option Ssl

-- What the system gives a request: whether the HTTP module can be requested, the block of an
-- asynchronous one (`none` for NULL), whether the body can be allocated, and what fills an
-- `artik_ssl_config` from the secure element.
pub record Resources : Type 0 where
  pub module_found : Bool
  pub async : Option ℕ
  pub body : Bool
  pub certificate : Option ℕ

-- The result, `*response` if it is written, and the state after it; `none` is a fault.
abbrev pub Reply : Type 0 → Type 0
Reply W = Option (ArtikError × Option Bytes × State W)

-- The block that the HTTP module hands back.
unfoldable pub take_pending : ℕ → List (ℕ × Async) → Option (Async × List (ℕ × Async))
take_pending p [] = none
take_pending p ((q, a) ∷ rest) =
    let found = take_pending p rest in
    if q == p
    then some (a, rest)
    else elim found [ none ↦ none | some (b, l) ↦ some (b, (q, a) ∷ l) ]

unfoldable pub answered : ArtikError → ℕ → ArtikError
answered ret status = if is_ok ret then (if leb 300 status then e_http_error else s_ok) else ret

module _ {W : Type 0} where
  unfoldable pub bad_args : State W → Reply W
  bad_args s = some (e_bad_args, none, s)

  -- `artik_request_api_module` where the module is found, and `artik_release_api_module`.
  abbrev pub request_module : State W → State W
  request_module s = record s { refs = s.refs + 1 }

  abbrev pub release_module : State W → State W
  release_module s = record s { refs = s.refs - 1 }

  -- The label `exit` of `_artik_cloud_get` and its likes.
  abbrev exit : ArtikError → Option Bytes → State W → Reply W
  exit err response s = some (err, response, release_module s)

  -- Behind a blocking call.
  unfoldable pub received : Call → ArtikError × ℕ × Option Bytes × W → State W → Reply W
  received call (err, status, response, w) s =
      let s' : State W = record s { sent = call ∷ s.sent; world = w } in
      if not (is_ok err)
      then exit err response s'
      else if status == 200
      then some (s_ok, response, release_module s')
      else exit e_http_error response s'

  -- Behind a call with a callback, whose block is at `p`: a failed one frees the block.
  unfoldable pub queued : Call → ℕ → Async → ArtikError × W → State W → Reply W
  queued call p async (err, w) s =
      let s' : State W = record s { sent = call ∷ s.sent; world = w } in
      if is_ok err
      then some (s_ok, none, record s' { pending = (p, async) ∷ s.pending })
      else exit err none s'

  -- With the module requested.
  abbrev pub with_module : HttpModule W → Resources → HttpRequest → Call → State W → Reply W
  with_module http res r call s =
      if r.response then received call (http.send call s.world) s else elim res.async [
        | none ↦ exit e_no_mem none s
        | some p ↦
            queued call p (record { callback = r.callback; user_data = r.user_data })
              (http.send_async call s.world) s
      ]

  -- `_artik_cloud_get` and its three likes, which differ in the function of the module. A module that
  -- cannot be requested is (void *)-1, and each path reads through it or hands it to the loader.
  unfoldable pub artik_cloud_send :
      HttpModule W → Resources → HttpRequest → Call → State W → Reply W
  unfolding received queued
  artik_cloud_send http res r call s =
      if res.module_found then with_module http res r call (request_module s) else none

  -- The callback of the application is called, the module released and the block freed.
  unfoldable pub http_response_callback :
      ArtikError → ℕ → Option Bytes → ℕ → State W → Option (State W)
  unfolding take_pending answered
  http_response_callback ret status response p s = elim (take_pending p s.pending) [
    | none ↦ none
    | some (a, l) ↦ some (
        release_module (record s {
          pending = l;
          answers =
              record {
                callback = a.callback;
                ret = answered ret status;
                response = response;
                user_data = a.user_data;
              }
              ∷ s.answers;
        }))
  ]
