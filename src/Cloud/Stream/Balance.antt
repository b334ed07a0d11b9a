-- ===== src/Cloud/Stream/Balance.antt =====
-- artik_cloud.c: what the stream holds of the websocket module, and of memory.
use artik_sdk.Prelude.{ℕ, ◌+◌, ◌≡◌, ◌⊎◌, ap, Option, none, some}
use mathlib.Core.Option
use artik_sdk.Prelude.Text.{Bytes}
use artik_sdk.Error.{ArtikError, e_bad_args}
use artik_sdk.ArtikList.{ArtikList, get_by_handle}
use artik_sdk.Cloud.Stream.{
  WebsocketModule, Stream, request_module, websocket_send_message, sent, websocket_close_stream,
  close_node,
}

module _ {W : Type 0} (ws : WebsocketModule W) where
  -- A call that returns, with the references to the module that are given, or that faults where
  -- there are none.
  abbrev IsBack : Option (ArtikError × ℕ × Stream W) → ℕ → Type 0
  IsBack o n =
      ((r : ArtikError × ℕ × Stream W) × (o ≡ some r) × (r.2.refs ≡ n)) ⊎ ((o ≡ none) × (n ≡ 0))

  -- A message or a close for a handle that is not known keeps the reference to the websocket module
  -- that it has requested.
  pub stream_unknown :
      (handle : ℕ) (message : Option Bytes) (s : Stream W)
      → get_by_handle s.requested_node handle ≡ none
      → (websocket_send_message ws handle message s ≡ (e_bad_args, record s { refs = s.refs + 1 }))
        × (websocket_close_stream ws handle s ≡ (e_bad_args, record s { refs = s.refs + 1 }))
  unfolding websocket_send_message websocket_close_stream
  stream_unknown handle message s h = (
    ap (λ o. sent ws handle o message (request_module s)) h,
    ap (λ o. close_node ws handle o (request_module s)) h,
  )
