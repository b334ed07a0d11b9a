-- ===== src/Cloud/Balance.antt =====
-- artik_cloud.c: the references to the HTTP module against the requests that wait for an answer, and
-- what is sent.
use artik_sdk.Prelude.{
  ℕ, suc, ◌≡◌, false, Option, some, List, [], ◌∷◌, ◌⊎◌, inl, inr, arith, length, Option-cases,
  Bool-cases,
}
use artik_sdk.Error.{ArtikError, is_ok}
use artik_sdk.Prelude.Text.{Bytes}
use artik_sdk.Cloud.Http.{
  Call, Async, HttpModule, State, HttpRequest, Resources, Reply, artik_cloud_send, take_pending,
  http_response_callback,
}
use artik_sdk.Cloud.Api.{Command, run_command}
use artik_sdk.Cloud.Rules.{IsCallOf, run_command-rule}

length-take_pending :
    (p : ℕ) (l l' : List (ℕ × Async)) (a : Async)
    → take_pending p l ≡ some (a, l')
    → length l ≡ suc (length l')
unfolding take_pending
length-take_pending p [] l' a h = cc
length-take_pending p ((q, b) ∷ l) l' a h = elim (Option-cases (take_pending p l)) [
  | inl e ↦ ground arith
  | inr ((c, m), e) ↦ ground (arith, length-take_pending p l m c e)
]

module _ {W : Type 0} where
  -- The process holds one reference to the HTTP module for each request that waits for its answer.
  abbrev pub IsBalanced : State W → Type 0
  IsBalanced s = s.refs ≡ length s.pending

  abbrev KeepsBalance : State W → Reply W → Type 0
  KeepsBalance s reply =
      (err : ArtikError) (response : Option Bytes) (t : State W)
      → reply ≡ some (err, response, t)
      → IsBalanced t

  send-IsBalanced :
      (http : HttpModule W) (res : Resources) (r : HttpRequest) (call : Call) (s : State W)
      → IsBalanced s
      → KeepsBalance s (artik_cloud_send http res r call s)
  unfolding artik_cloud_send
  send-IsBalanced http res r call s h err response t e = ground arith

  run_command-IsBalanced :
      (http : HttpModule W) (res : Resources) (c : Command) (s : State W)
      → IsBalanced s
      → KeepsBalance s (run_command http res c s)
  run_command-IsBalanced http res c s h =
      run_command-rule s (KeepsBalance s) (λ err n e' r t x. ground arith) (λ err r t x. cc) http
        res c λ r call q. send-IsBalanced http res r call s h

  callback-IsBalanced :
      (ret : ArtikError) (status : ℕ) (response : Option Bytes) (p : ℕ) (s t : State W)
      → IsBalanced s
      → http_response_callback ret status response p s ≡ some t
      → IsBalanced t
  unfolding http_response_callback
  callback-IsBalanced ret status response p s t h e =
      elim (Option-cases (take_pending p s.pending)) [
        | inl n ↦ ground arith
        | inr ((a, l), n) ↦ ground (arith, length-take_pending p s.pending l a n)
      ]

  -- What changes the state: a function of the module, over any HTTP module and whatever the system
  -- gives it, and an answer that the HTTP module brings.
  pub data Step : State W → State W → Type 0 where
    commanded :
        (http : HttpModule W) (res : Resources) (c : Command) (s t : State W) (err : ArtikError)
        (response : Option Bytes)
        → run_command http res c s ≡ some (err, response, t)
        → Step s t
    responded :
        (ret : ArtikError) (status : ℕ) (response : Option Bytes) (p : ℕ) (s t : State W)
        → http_response_callback ret status response p s ≡ some t
        → Step s t

  pub data Reach (s : State W) : State W → Type 0 where
    here : Reach s s
    next : {t u : State W} → Reach s t → Step t u → Reach s u

  -- After any calls and answers, the process holds as many references to the HTTP module as requests
  -- wait for their answer: no path, failures included, keeps one or gives one back too often.
  pub Reach-IsBalanced : {s t : State W} → IsBalanced s → Reach s t → IsBalanced t
  Reach-IsBalanced h here = h
  Reach-IsBalanced h (next r (commanded http res c s t err response e)) =
      run_command-IsBalanced http res c s (Reach-IsBalanced h r) err response t e
  Reach-IsBalanced h (next r (responded ret status response p s t e)) =
      callback-IsBalanced ret status response p s t (Reach-IsBalanced h r) e

  -- Nothing is sent and the call fails, or one call that is the command's.
  abbrev pub SendsOnly : (Call → Type 0) → State W → Reply W → Type 0
  SendsOnly Q s reply =
      (err : ArtikError) (response : Option Bytes) (t : State W)
      → reply ≡ some (err, response, t)
      → ((t.sent ≡ s.sent) × (is_ok err ≡ false))
        ⊎ ((call : Call) × (t.sent ≡ call ∷ s.sent) × Q call)

  send-SendsOnly :
      (Q : Call → Type 0) (http : HttpModule W) (res : Resources) (r : HttpRequest) (call : Call)
      (s : State W)
      → Q call
      → SendsOnly Q s (artik_cloud_send http res r call s)
  unfolding artik_cloud_send is_ok
  send-SendsOnly Q http res r call s q err response t e = elim (Bool-cases r.response) [
    | inl b ↦ inr (call, ground arith, q)
    | inr b ↦ elim (Option-cases res.async) [
      | inl n ↦ inl (ground arith)
      | inr (p, n) ↦ inr (call, ground arith, q)
    ]
  ]

  -- A function of the module that returns fails and sends nothing, or sends one call. With a token, it has the header
  -- `Authorization` with "Bearer " and that token, cut to 127 bytes, and the SSL configuration that is
  -- given, and its URL begins with https://s-api.artik.cloud/v1.1/ if that has `se_config` set, and with
  -- https://api.artik.cloud/v1.1/ otherwise. In the registration, it has the certificate of the secure
  -- element and `se_config` set, and its URL begins with the former.
  pub run_command-sent :
      (http : HttpModule W) (res : Resources) (c : Command) (s t : State W) (err : ArtikError)
      (response : Option Bytes)
      → run_command http res c s ≡ some (err, response, t)
      → ((t.sent ≡ s.sent) × (is_ok err ≡ false))
        ⊎ ((call : Call) × (t.sent ≡ call ∷ s.sent) × IsCallOf res c call)
  run_command-sent http res c s t err response =
      run_command-rule s (SendsOnly (IsCallOf res c) s) (λ err n e' r t x. inl (ground arith))
        (λ err r t x. absurd (cc)) http res c
        (λ r call q. send-SendsOnly (IsCallOf res c) http res r call s q) err response t
