-- ===== src/Network/Watch/Pending.antt =====
-- What one watch waits for.
use artik_sdk.Prelude.{
  ℕ, ◌+◌, ◌%◌, ◌≡◌, refl, ◌∙◌, ◌||◌, sym, ap, subst, Bool, true, false, Option, none, some, List,
  [], ◌∷◌, arith,
}
use artik_sdk.Prelude.Cases.{if_rule, some-injective, if_some}
use artik_sdk.Prelude.Int.{ℤ, pos, negsuc}
use artik_sdk.Prelude.Counting.{remove_one}
use artik_sdk.Network.Echo.{os_check_echo_response}
use artik_sdk.Network.Watch.{
  Callback, timeout_send_echo_callback, timeout_receive_er_callback, Timer, Watch, World, cancel,
  run_callback, take_address, accepted, remove_timeout_callback, get_addresses, responded,
  connected, update, notify_online_status_change, send_echo_request, add_timeout_callback,
  first_ipv4, agree, new_watch, quiet,
}
use artik_sdk.Network.Watch.Step.{
  Event, fires, looked_up, response, link, find_timer, contains, dispatch, step, Reach, start, next,
}

abbrev pub timer : ℕ → ℕ → Callback → Timer
timer self id c = record { id = id; callback = c; user_data = self }

-- The watch pauses until the next request, waits for a response, or waits for the resolver: that is
-- the only thing it waits for, and `timeout_echo_id` is the timer, if there is one.
pub data Pending (self : ℕ) : Watch × World → Type 0 where
  pausing :
      (id : ℕ) (s : Watch × World)
      → s.0.update_online_status ≡ false
      → s.0.timeout_echo_id ≡ pos id
      → s.1.timers ≡ timer self id timeout_send_echo_callback ∷ []
      → s.1.lookups ≡ []
      → Pending self s
  asking :
      (id : ℕ) (s : Watch × World)
      → s.0.update_online_status ≡ true
      → s.0.resolved ≡ true
      → s.0.timeout_echo_id ≡ pos id
      → s.1.timers ≡ timer self id timeout_receive_er_callback ∷ []
      → s.1.lookups ≡ []
      → Pending self s
  resolving :
      (s : Watch × World)
      → s.0.update_online_status ≡ true
      → s.0.resolved ≡ false
      → s.1.timers ≡ []
      → s.1.lookups ≡ self ∷ []
      → Pending self s

-- The loop has a timer when one is wanted, and no response comes while the resolver is asked.
pub data IsTimely : Event → Watch × World → Type 0 where
  timer_due : (t id : ℕ) (s : Watch × World) → IsTimely (fires t (some id)) s
  answered :
      (addresses : List (Option ℕ)) (native : Bool) (id : ℕ) (s : Watch × World)
      → IsTimely (looked_up addresses native (some id)) s
  heard :
      (pid : ℕ) (buf : List ℕ) (len : ℤ) (id : ℕ) (s : Watch × World)
      → s.1.lookups ≡ []
      → IsTimely (response pid buf len (some id)) s
  links : (b : Bool) (id : ℕ) (s : Watch × World) → IsTimely (link b (some id)) s

pub remove-lookups : (id : ℤ) (e : World) → (remove_timeout_callback id e).lookups ≡ e.lookups
remove-lookups (pos n) e = refl
remove-lookups (negsuc n) e = refl

pub remove-empty : (id : ℤ) (e : World) → e.timers ≡ [] → (remove_timeout_callback id e).timers ≡ []
unfolding cancel
remove-empty (pos n) e h = rw h (refl)
remove-empty (negsuc n) e h = h

remove-only :
    (self n : ℕ) (c : Callback) (id : ℤ) (e : World)
    → id ≡ pos n
    → e.timers ≡ timer self n c ∷ []
    → (remove_timeout_callback id e).timers ≡ []
unfolding cancel
remove-only self n c (pos m) e h t = ground arith
remove-only self n c (negsuc m) e h t = cc

||-eq-false : (a b : Bool) → (a || b) ≡ false → (a ≡ false) × (b ≡ false)
||-eq-false true b h = cc
||-eq-false false b h = (refl, h)

only_one :
    (t : ℕ) (due one : Timer) (l : List Timer)
    → l ≡ one ∷ []
    → find_timer t l ≡ some due
    → (due.callback ≡ one.callback) × (cancel t l ≡ [])
unfolding find_timer cancel
only_one t due one [] e f = cc
only_one t due one (x ∷ l) e f = ground arith

no_timer : (t : ℕ) (due : Timer) (l : List Timer) → l ≡ [] → find_timer t l ≡ some due → ⊥
unfolding find_timer
no_timer t due [] e f = cc
no_timer t due (x ∷ l) e f = cc

no_lookup : (x : ℕ) (l : List ℕ) → l ≡ [] → contains x l ≡ true → ⊥
unfolding contains
no_lookup x [] e c = cc
no_lookup x (y ∷ l) e c = cc

removed : (x : ℕ) (l : List ℕ) → l ≡ x ∷ [] → remove_one x l ≡ []
unfolding remove_one
removed x l e = rw e (ground arith)

module _ (self : ℕ) where
  -- With no timer left but the one that is cancelled, a report leaves one that pauses.
  notify-Pending :
      (id : ℕ) (status : Bool) (s : Watch × World)
      → (remove_timeout_callback s.0.timeout_echo_id s.1).timers ≡ []
      → s.1.lookups ≡ []
      → Pending self (notify_online_status_change self (some id) status s)
  unfolding notify_online_status_change add_timeout_callback
  notify-Pending id status (w, e) t l =
      let k = remove-lookups w.timeout_echo_id e in
      pausing id (notify_online_status_change self (some id) status (w, e)) (ground arith)
        (ground arith) (ground arith) (ground arith)

  send-Pending :
      (id : ℕ) (s : Watch × World)
      → s.0.update_online_status ≡ true
      → s.0.resolved ≡ true
      → s.1.timers ≡ []
      → s.1.lookups ≡ []
      → Pending self (send_echo_request self (some id) s)
  unfolding send_echo_request add_timeout_callback
  send-Pending id (w, e) u r t l =
      asking id (send_echo_request self (some id) (w, e)) u r refl (ground arith) l

  update-Pending :
      (id : ℕ) (s : Watch × World)
      → s.1.timers ≡ []
      → s.1.lookups ≡ []
      → Pending self (update self (some id) s)
  unfolding update
  update-Pending id (w, e) t l =
      if_rule (Pending self) w.resolved
        (λ r. send-Pending id (record w { update_online_status = true }, e) refl r t l)
        (λ r.
          resolving
            (record w { update_online_status = true }, record e { lookups = self ∷ e.lookups }) refl
            r t (ap (◌∷◌ self) l))

  take_address-Pending :
      (id : ℕ) (a : Option ℕ) (native : Bool) (s : Watch × World)
      → s.0.update_online_status ≡ true
      → s.1.timers ≡ []
      → s.1.lookups ≡ []
      → Pending self (take_address self (some id) a native s)
  unfolding take_address
  take_address-Pending id none native s u t l =
      notify-Pending id false s (remove-empty s.0.timeout_echo_id s.1 t) l
  take_address-Pending id (some a) native (w, e) u t l =
      if_rule (Pending self) native
        (λ _. send-Pending id (record w { to = some a; resolved = true }, e) u refl t l)
        (λ _. notify-Pending id false (w, e) (remove-empty w.timeout_echo_id e t) l)

  idle-Pending :
      (id : ℕ) (s : Watch × World)
      → s.0.update_online_status ≡ false
      → Pending self s
      → Pending self (update self (some id) (s.0, remove_timeout_callback s.0.timeout_echo_id s.1))
  idle-Pending id s u (pausing n _ u' i t l) =
      update-Pending id (s.0, remove_timeout_callback s.0.timeout_echo_id s.1)
        (remove-only self n timeout_send_echo_callback s.0.timeout_echo_id s.1 i t)
        (remove-lookups s.0.timeout_echo_id s.1 ∙ l)
  idle-Pending id s u (asking n _ u' r i t l) = cc
  idle-Pending id s u (resolving _ u' r t l) = cc

  connected-Pending :
      (id : ℕ) (b : Bool) (s : Watch × World)
      → Pending self s
      → Pending self (connected self (some id) b s)
  unfolding connected
  connected-Pending id b (w, e) p =
      if_rule (Pending self) (w.update_online_status || agree w.online_status b) (λ _. p)
        (λ q. idle-Pending id (w, e) (||-eq-false _ _ q).0 p)

  timed-Pending :
      (t : ℕ) (due : Timer) (id : ℕ) (s : Watch × World)
      → find_timer t s.1.timers ≡ some due
      → Pending self s
      → Pending self (
          run_callback self due.callback
            (some id)
            (s.0, record s.1 { timers = cancel t s.1.timers }))
  timed-Pending t due id s f (pausing n _ u i l k) =
      let o = only_one t due (timer self n timeout_send_echo_callback) s.1.timers l f in
      subst
        (λ c.
          Pending self
            (run_callback self c (some id) (s.0, record s.1 { timers = cancel t s.1.timers })))
        (sym o.0) (update-Pending id (s.0, record s.1 { timers = cancel t s.1.timers }) o.1 k)
  timed-Pending t due id s f (asking n _ u r i l k) =
      let o = only_one t due (timer self n timeout_receive_er_callback) s.1.timers l f in
      let e = record s.1 { timers = cancel t s.1.timers } in
      subst
        (λ c.
          Pending self
            (run_callback self c (some id) (s.0, record s.1 { timers = cancel t s.1.timers })))
        (sym o.0) (notify-Pending id false (s.0, e) (remove-empty s.0.timeout_echo_id e o.1) k)
  timed-Pending t due id s f (resolving _ u r l k) = absurd (no_timer t due s.1.timers l f)

  -- Where the resolver is not asked, `timeout_echo_id` is the one timer.
  cancelled :
      (s : Watch × World)
      → s.1.lookups ≡ []
      → Pending self s
      → (remove_timeout_callback s.0.timeout_echo_id s.1).timers ≡ []
  cancelled s n (pausing id _ u i t l) =
      remove-only self id timeout_send_echo_callback s.0.timeout_echo_id s.1 i t
  cancelled s n (asking id _ u r i t l) =
      remove-only self id timeout_receive_er_callback s.0.timeout_echo_id s.1 i t
  cancelled s n (resolving _ u r t l) = cc

  dispatch-Pending :
      (t : ℕ) (o : Option Timer) (id : ℕ) (s s' : Watch × World)
      → find_timer t s.1.timers ≡ o
      → dispatch self o t (some id) s ≡ some s'
      → Pending self s
      → Pending self s'
  dispatch-Pending t none id s s' f d p = cc
  dispatch-Pending t (some due) id s s' f d p =
      subst (Pending self) (some-injective d) (timed-Pending t due id s f p)

  accepted-Pending :
      (id : ℕ) (o : Option Bool) (s s' : Watch × World)
      → s.1.lookups ≡ []
      → accepted self (some id) o s ≡ some s'
      → Pending self s
      → Pending self s'
  accepted-Pending id none s s' n a p = cc
  accepted-Pending id (some false) s s' n a p = subst (Pending self) (some-injective a) p
  accepted-Pending id (some true) s s' n a p =
      subst (Pending self) (some-injective a) (notify-Pending id true s (cancelled s n p) n)

  looked_up-Pending :
      (addresses : List (Option ℕ)) (native : Bool) (id : ℕ) (s : Watch × World)
      → contains self s.1.lookups ≡ true
      → Pending self s
      → Pending self (
          get_addresses self
            (some id)
            addresses
            native
            (s.0, record s.1 { lookups = remove_one self s.1.lookups }))
  unfolding get_addresses
  looked_up-Pending addresses native id s c (pausing n _ u i t l) =
      absurd (no_lookup self s.1.lookups l c)
  looked_up-Pending addresses native id s c (asking n _ u r i t l) =
      absurd (no_lookup self s.1.lookups l c)
  looked_up-Pending addresses native id s c (resolving _ u r t l) =
      take_address-Pending id (first_ipv4 addresses) native
        (s.0, record s.1 { lookups = remove_one self s.1.lookups }) u t (removed self s.1.lookups l)

  pub step-Pending :
      (ev : Event) (s s' : Watch × World)
      → IsTimely ev s
      → Pending self s
      → step self ev s ≡ some s'
      → Pending self s'
  unfolding step responded
  step-Pending _ s s' (timer_due t id _) p h =
      dispatch-Pending t (find_timer t s.1.timers) id s s' refl h p
  step-Pending _ s s' (answered addresses native id _) p h =
      let q = if_some (contains self s.1.lookups) h in
      subst (Pending self) q.1 (looked_up-Pending addresses native id s q.0 p)
  step-Pending _ s s' (heard pid buf len id _ n) p h =
      accepted-Pending id (os_check_echo_response pid buf len ((s.0.seqno + 65535) % 65536)) s s' n
        h p
  step-Pending _ s s' (links b id _) p h =
      subst (Pending self) (some-injective h) (connected-Pending id b s p)

  -- While the loop has its timers and no response comes during a lookup, a watch that was added
  -- waits for exactly one thing: a timer that `timeout_echo_id` names, or the resolver.
  pub Reach-Pending : (s : Watch × World) → Reach self IsTimely s → Pending self s
  unfolding step update new_watch
  Reach-Pending s (start interval timeout _ h) =
      subst (Pending self) (sym h)
        (resolving (update self none (new_watch interval timeout, quiet)) refl refl refl refl)
  Reach-Pending s' (next ev s _ ok r h) = step-Pending ev s s' ok (Reach-Pending s r) h
