-- ===== src/Network/Watch/Late.antt =====
-- A response that comes while the resolver is asked.
use artik_sdk.Prelude.{
  ℕ, ◌+◌, ◌%◌, ◌≡◌, ◌≢◌, refl, ◌∙◌, sym, ap, subst, true, Option, some, List, [], ◌∷◌, arith,
}
use artik_sdk.Prelude.Cases.{some-injective, if_some}
use artik_sdk.Prelude.Int.{ℤ, pos}
use artik_sdk.Prelude.Counting.{remove_one}
use artik_sdk.Network.Echo.{os_check_echo_response}
use artik_sdk.Network.Watch.{
  timeout_send_echo_callback, timeout_receive_er_callback, Watch, World, cancel, take_address,
  accepted, remove_timeout_callback, get_addresses, responded, notify_online_status_change,
  send_echo_request, add_timeout_callback, first_ipv4,
}
use artik_sdk.Network.Watch.Step.{looked_up, response, contains, step}
use artik_sdk.Network.Watch.Pending.{timer, remove-lookups, remove-empty}

module _ (self : ℕ) where
  two-timers :
      (id id' : ℕ) (s : Watch × World)
      → id ≢ id'
      → s.1.timers
        ≡ timer self id' timeout_receive_er_callback ∷ timer self id timeout_send_echo_callback ∷ []
      → s.0.timeout_echo_id ≡ pos id'
      → (s.1.timers
          ≡ timer self id' timeout_receive_er_callback
            ∷ timer self id timeout_send_echo_callback
            ∷ [])
        × ((remove_timeout_callback s.0.timeout_echo_id s.1).timers
            ≡ timer self id timeout_send_echo_callback ∷ [])
  unfolding cancel
  two-timers id id' s d t i =
      (t, ap (λ z. (remove_timeout_callback z s.1).timers) i ∙ rw t (ground arith))

  -- The response leaves its timer, and the request to the resolver.
  heard :
      (id : ℕ) (s : Watch × World)
      → s.1.timers ≡ []
      → s.1.lookups ≡ self ∷ []
      → ((notify_online_status_change self (some id) true s).1.timers
          ≡ timer self id timeout_send_echo_callback ∷ [])
        × ((notify_online_status_change self (some id) true s).1.lookups ≡ self ∷ [])
  unfolding notify_online_status_change add_timeout_callback
  heard id (w, e) t l =
      let k = remove-lookups w.timeout_echo_id e in
      let m = remove-empty w.timeout_echo_id e t in (ground arith, ground arith)

  -- The address that comes adds a timer to those there are.
  resolved :
      (id a : ℕ) (s : Watch × World)
      → ((take_address self (some id) (some a) true s).1.timers
          ≡ timer self id timeout_receive_er_callback ∷ s.1.timers)
        × ((take_address self (some id) (some a) true s).0.timeout_echo_id ≡ pos id)
  unfolding take_address send_echo_request add_timeout_callback
  resolved id a s = (refl, refl)

  -- A watch waits for the resolver. A response to its last request comes, and is accepted; then the
  -- resolver answers with an IPv4 address. Now two timers are pending, and the one of the response
  -- stays when that of `timeout_echo_id` is removed, as the removal of the watch does.
  pub late_response :
      (pid id id' a : ℕ) (buf : List ℕ) (len : ℤ) (addresses : List (Option ℕ))
      (s s' s'' : Watch × World)
      → s.1.timers ≡ []
      → s.1.lookups ≡ self ∷ []
      → os_check_echo_response pid buf len ((s.0.seqno + 65535) % 65536) ≡ some true
      → first_ipv4 addresses ≡ some a
      → id ≢ id'
      → step self (response pid buf len (some id)) s ≡ some s'
      → step self (looked_up addresses true (some id')) s' ≡ some s''
      → (s''.1.timers
          ≡ timer self id' timeout_receive_er_callback
            ∷ timer self id timeout_send_echo_callback
            ∷ [])
        × ((remove_timeout_callback s''.0.timeout_echo_id s''.1).timers
            ≡ timer self id timeout_send_echo_callback ∷ [])
  unfolding step responded get_addresses
  late_response pid id id' a buf len addresses s s' s'' t l o f d p q =
      let m = some-injective (sym (ap (λ r. accepted self (some id) r s) o) ∙ p) in
      let h =
        subst
          (λ r.
            (r.1.timers ≡ timer self id timeout_send_echo_callback ∷ [])
            × (r.1.lookups ≡ self ∷ []))
          m (heard id s t l) in
      let e = record s'.1 { lookups = remove_one self s'.1.lookups } in
      let g =
        sym (ap (λ r. take_address self (some id') r true (s'.0, e)) f)
        ∙ (if_some (contains self s'.1.lookups) q).1 in
      two-timers id id' s'' d
        (sym (ap (λ r. r.1.timers) g)
          ∙ (resolved id' a (s'.0, e)).0
          ∙ ap (◌∷◌ (timer self id' timeout_receive_er_callback)) h.0)
        (sym (ap (λ r. r.0.timeout_echo_id) g) ∙ (resolved id' a (s'.0, e)).1)
