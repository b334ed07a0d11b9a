-- ===== src/Network/Watch/Silence.antt =====
-- A watch that hears nothing.
use artik_sdk.Prelude.{ℕ, ◌≡◌, refl, ◌∙◌, sym, ap, subst, true, false, Option, some, [], ◌∷◌, arith}
use artik_sdk.Prelude.Cases.{some-injective}
use artik_sdk.Prelude.Int.{ℤ, pos, negsuc}
use artik_sdk.Network.Watch.{
  Callback, timeout_send_echo_callback, timeout_receive_er_callback, Watch, World, cancel,
  run_callback, remove_timeout_callback, update, notify_online_status_change, send_echo_request,
  add_timeout_callback,
}
use artik_sdk.Network.Watch.Step.{fires, find_timer, dispatch, step}
use artik_sdk.Network.Watch.Pending.{timer, remove-empty}

remove_rest :
    (id : ℤ) (e : World)
    → ((remove_timeout_callback id e).reports ≡ e.reports)
      × ((remove_timeout_callback id e).echoes ≡ e.echoes)
remove_rest (pos n) e = (refl, refl)
remove_rest (negsuc n) e = (refl, refl)

module _ (self : ℕ) where
  found :
      (id : ℕ) (c : Callback) (e : World)
      → e.timers ≡ timer self id c ∷ []
      → (find_timer id e.timers ≡ some (timer self id c)) × (cancel id e.timers ≡ [])
  unfolding find_timer cancel
  found id c e h = (rw h (ground arith), rw h (ground arith))

  -- The one timer is due.
  due :
      (id : ℕ) (next : Option ℕ) (c : Callback) (w : Watch) (e : World)
      → e.timers ≡ timer self id c ∷ []
      → step self (fires id next) (w, e)
        ≡ some (run_callback self c next (w, record e { timers = [] }))
  unfolding step
  due id next c w e h =
      ap (λ o. dispatch self o id next (w, e)) (found id c e h).0
      ∙ ap (λ l. some (run_callback self c next (w, record e { timers = l }))) (found id c e h).1

  -- The request goes out, and the time for the response runs.
  asked :
      (id : ℕ) (w : Watch) (e : World)
      → w.resolved ≡ true
      → let s = update self (some id) (w, record e { timers = [] }) in
        (s.1.timers ≡ timer self id timeout_receive_er_callback ∷ [])
        × (s.1.reports ≡ e.reports)
        × (s.1.echoes ≡ (w.to, w.seqno) ∷ e.echoes)
        × (s.0.online_status ≡ w.online_status)
  unfolding update send_echo_request add_timeout_callback
  asked id w e r = (ground arith, ground arith, ground arith, ground arith)

  -- A report that the watch is offline.
  told_offline :
      (id : ℕ) (w : Watch) (e : World)
      → w.online_status ≡ true
      → let s = notify_online_status_change self (some id) false (w, record e { timers = [] }) in
        (s.0.online_status ≡ false)
        × (s.0.resolved ≡ false)
        × (s.1.reports ≡ (self, false) ∷ e.reports)
        × (s.1.timers ≡ timer self id timeout_send_echo_callback ∷ [])
        × (s.1.echoes ≡ e.echoes)
  unfolding notify_online_status_change add_timeout_callback
  told_offline id w e o =
      let e' : World = record e { timers = [] } in
      let k = remove_rest w.timeout_echo_id e' in
      let t = remove-empty w.timeout_echo_id e' refl in
      (ground arith, ground arith, ground arith, ground arith, ground arith)

  -- An online watch whose address is known waits for its next request. That request goes out, and its
  -- time runs out: the watch is offline, the application is told so once, and the watch waits for the
  -- next request again, with its address to be asked for anew.
  pub silence_lem :
      (id id' id'' : ℕ) (s s' s'' : Watch × World)
      → s.0.resolved ≡ true
      → s.0.online_status ≡ true
      → s.1.timers ≡ timer self id timeout_send_echo_callback ∷ []
      → step self (fires id (some id')) s ≡ some s'
      → step self (fires id' (some id'')) s' ≡ some s''
      → (s''.0.online_status ≡ false)
        × (s''.0.resolved ≡ false)
        × (s''.1.reports ≡ (self, false) ∷ s.1.reports)
        × (s''.1.timers ≡ timer self id'' timeout_send_echo_callback ∷ [])
        × (s''.1.echoes ≡ (s.0.to, s.0.seqno) ∷ s.1.echoes)
  silence_lem id id' id'' (w, e) s' s'' r o t h k =
      let m = some-injective (sym (due id (some id') timeout_send_echo_callback w e t) ∙ h) in
      let a =
        subst
          (λ (x : Watch × World).
            (x.1.timers ≡ timer self id' timeout_receive_er_callback ∷ [])
            × (x.1.reports ≡ e.reports)
            × (x.1.echoes ≡ (w.to, w.seqno) ∷ e.echoes)
            × (x.0.online_status ≡ w.online_status))
          m (asked id' w e r) in
      let n =
        some-injective (sym (due id' (some id'') timeout_receive_er_callback s'.0 s'.1 a.0) ∙ k) in
      let z = told_offline id'' s'.0 s'.1 (a.3 ∙ o) in
      subst
        (λ (x : Watch × World).
          (x.0.online_status ≡ false)
          × (x.0.resolved ≡ false)
          × (x.1.reports ≡ (self, false) ∷ e.reports)
          × (x.1.timers ≡ timer self id'' timeout_send_echo_callback ∷ [])
          × (x.1.echoes ≡ (w.to, w.seqno) ∷ e.echoes))
        n (z.0, z.1, z.2 ∙ ap (◌∷◌ (self, false)) a.1, z.3, z.4 ∙ a.2)
