-- ===== src/Network/Watch/Reports.antt =====
-- What the application is told about a watch.
use artik_sdk.Prelude.{
  ℕ, ◌+◌, ◌%◌, ◌≡◌, refl, sym, subst, Bool, true, false, not, ◌&&◌, ◌||◌, Option, none, some, List,
  [], ◌∷◌, arith, if◌then◌else◌,
}
use artik_sdk.Prelude.Cases.{some-injective, if_rule, if_some}
use artik_sdk.Prelude.Int.{ℤ, pos, negsuc}
use artik_sdk.Prelude.Counting.{remove_one}
use artik_sdk.Network.Echo.{os_check_echo_response}
use artik_sdk.Network.Watch.{
  Callback, timeout_send_echo_callback, timeout_receive_er_callback, Timer, Watch, World, cancel,
  run_callback, take_address, accepted, remove_timeout_callback, get_addresses, responded,
  connected, update, notify_online_status_change, send_echo_request, add_timeout_callback,
  first_ipv4, agree, new_watch, quiet,
}
use artik_sdk.Network.Watch.Step.{
  Event, fires, looked_up, response, link, find_timer, contains, dispatch, step, Reach, start, next,
}

-- Whether the next status is told in any case, the status, and the calls of the callback.
abbrev told : Watch × World → Bool × Bool × List (ℕ × Bool)
told s = (s.0.force, s.0.online_status, s.1.reports)

-- Nothing is told, and the first status will be; or the status is the last that was told, and every
-- status that was told differs from the one before.
pub data History (self : ℕ) : Bool × Bool × List (ℕ × Bool) → Type 0 where
  silent : (h : Bool × Bool × List (ℕ × Bool)) → h ≡ (true, false, []) → History self h
  first :
      (b : Bool) (h : Bool × Bool × List (ℕ × Bool))
      → h ≡ (false, b, (self, b) ∷ [])
      → History self h
  switched :
      (b : Bool) (l : List (ℕ × Bool)) (h : Bool × Bool × List (ℕ × Bool))
      → History self (false, not b, l)
      → h ≡ (false, b, (self, b) ∷ l)
      → History self h

abbrev pub IsTold : ℕ → Watch × World → Type 0
IsTold self s = History self (told s)

remove-reports : (id : ℤ) (e : World) → (remove_timeout_callback id e).reports ≡ e.reports
remove-reports (pos n) e = refl
remove-reports (negsuc n) e = refl

module _ (self : ℕ) where
  add-told :
      (id : Option ℕ) (c : Callback) (s : Watch × World)
      → told (add_timeout_callback self id c s) ≡ told s
  unfolding add_timeout_callback
  add-told none c s = refl
  add-told (some id) c s = refl

  send-told : (id : Option ℕ) (s : Watch × World) → told (send_echo_request self id s) ≡ told s
  unfolding send_echo_request
  send-told id s = add-told id timeout_receive_er_callback s

  update-told : (id : Option ℕ) (s : Watch × World) → told (update self id s) ≡ told s
  unfolding update
  update-told id (w, e) =
      if_rule (λ s. told s ≡ (w.force, w.online_status, e.reports)) w.resolved
        (λ _. send-told id (record w { update_online_status = true }, e)) (λ _. refl)

  -- A report tells the status, unless it was told last.
  notify-told :
      (id : Option ℕ) (b : Bool) (s : Watch × World)
      → told (notify_online_status_change self id b s) ≡ (
          if agree b s.0.online_status && not s.0.force
          then told s
          else (false, b, (self, b) ∷ s.1.reports))
  unfolding notify_online_status_change add_timeout_callback
  notify-told none b (w, e) = ground (arith, remove-reports w.timeout_echo_id e)
  notify-told (some id) b (w, e) = ground (arith, remove-reports w.timeout_echo_id e)

  -- After a status that was told, the same is not told again, and the other is.
  again :
      (b c : Bool) (l : List (ℕ × Bool))
      → History self (false, c, l)
      → History self (if agree b c && true then (false, c, l) else (false, b, (self, b) ∷ l))
  again true true l h = h
  again true false l h = switched true l (false, true, (self, true) ∷ l) h refl
  again false true l h = switched false l (false, false, (self, false) ∷ l) h refl
  again false false l h = h

  history-told :
      (b : Bool) (h : Bool × Bool × List (ℕ × Bool))
      → History self h
      → History self (if agree b h.1 && not h.0 then h else (false, b, (self, b) ∷ h.2))
  history-told b h (silent _ e) =
      first b (if agree b h.1 && not h.0 then h else (false, b, (self, b) ∷ h.2)) (ground arith)
  history-told b h (first c _ e) =
      subst (λ h. History self (if agree b h.1 && not h.0 then h else (false, b, (self, b) ∷ h.2)))
        (sym e) (again b c ((self, c) ∷ []) (first c (false, c, (self, c) ∷ []) refl))
  history-told b h (switched c l _ k e) =
      subst (λ h. History self (if agree b h.1 && not h.0 then h else (false, b, (self, b) ∷ h.2)))
        (sym e) (again b c ((self, c) ∷ l) (switched c l (false, c, (self, c) ∷ l) k refl))

  notify-IsTold :
      (id : Option ℕ) (b : Bool) (s : Watch × World)
      → IsTold self s
      → IsTold self (notify_online_status_change self id b s)
  notify-IsTold id b s h =
      subst (History self) (sym (notify-told id b s)) (history-told b (told s) h)

  update-IsTold :
      (id : Option ℕ) (s : Watch × World) → IsTold self s → IsTold self (update self id s)
  update-IsTold id s h = subst (History self) (sym (update-told id s)) h

  take_address-IsTold :
      (id a : Option ℕ) (native : Bool) (s : Watch × World)
      → IsTold self s
      → IsTold self (take_address self id a native s)
  unfolding take_address
  take_address-IsTold id none native s h = notify-IsTold id false s h
  take_address-IsTold id (some a) native (w, e) h =
      if_rule (IsTold self) native
        (λ _.
          subst (History self) (sym (send-told id (record w { to = some a; resolved = true }, e)))
            h)
        (λ _. notify-IsTold id false (w, e) h)

  connected-IsTold :
      (id : Option ℕ) (b : Bool) (s : Watch × World)
      → IsTold self s
      → IsTold self (connected self id b s)
  unfolding connected
  connected-IsTold id b (w, e) h =
      if_rule (IsTold self) (w.update_online_status || agree w.online_status b) (λ _. h)
        (λ _.
          update-IsTold id (w, remove_timeout_callback w.timeout_echo_id e)
            (subst (λ l. History self (w.force, w.online_status, l))
              (sym (remove-reports w.timeout_echo_id e)) h))

  run-IsTold :
      (c : Callback) (id : Option ℕ) (s : Watch × World)
      → IsTold self s
      → IsTold self (run_callback self c id s)
  run-IsTold timeout_send_echo_callback id s h = update-IsTold id s h
  run-IsTold timeout_receive_er_callback id s h = notify-IsTold id false s h

  dispatch-IsTold :
      (o : Option Timer) (t : ℕ) (id : Option ℕ) (s s' : Watch × World)
      → IsTold self s
      → dispatch self o t id s ≡ some s'
      → IsTold self s'
  dispatch-IsTold none t id s s' h d = cc
  dispatch-IsTold (some due) t id (w, e) s' h d =
      subst (IsTold self) (some-injective d)
        (run-IsTold due.callback id (w, record e { timers = cancel t e.timers }) h)

  accepted-IsTold :
      (id : Option ℕ) (o : Option Bool) (s s' : Watch × World)
      → IsTold self s
      → accepted self id o s ≡ some s'
      → IsTold self s'
  accepted-IsTold id none s s' h a = cc
  accepted-IsTold id (some false) s s' h a = subst (IsTold self) (some-injective a) h
  accepted-IsTold id (some true) s s' h a =
      subst (IsTold self) (some-injective a) (notify-IsTold id true s h)

  step-IsTold :
      (ev : Event) (s s' : Watch × World)
      → IsTold self s
      → step self ev s ≡ some s'
      → IsTold self s'
  unfolding step responded get_addresses
  step-IsTold (fires t id) s s' h p = dispatch-IsTold (find_timer t s.1.timers) t id s s' h p
  step-IsTold (looked_up addresses native id) (w, e) s' h p =
      subst (IsTold self) (if_some (contains self e.lookups) p).1 (
        take_address-IsTold id (first_ipv4 addresses) native
          (w, record e { lookups = remove_one self e.lookups }) h)
  step-IsTold (response pid buf len id) s s' h p =
      accepted-IsTold id (os_check_echo_response pid buf len ((s.0.seqno + 65535) % 65536)) s s' h p
  step-IsTold (link b id) s s' h p =
      subst (IsTold self) (some-injective p) (connected-IsTold id b s h)

  -- In every run, whatever the loop, the resolver and the network do: nothing was told and the first
  -- status will be, or the status of the watch is the one told last, and each status that was told
  -- differs from the one before.
  pub Reach-IsTold :
      {Ok : Event → Watch × World → Type 0} (s : Watch × World)
      → Reach self Ok s
      → History self (s.0.force, s.0.online_status, s.1.reports)
  unfolding new_watch
  Reach-IsTold s (start interval timeout _ e) =
      subst (IsTold self) (sym e)
        (update-IsTold none (new_watch interval timeout, quiet) (silent (true, false, []) refl))
  Reach-IsTold s (next ev r _ ok q h) = step-IsTold ev r s (Reach-IsTold r q) h
