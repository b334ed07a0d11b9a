-- ===== src/Network/Watch/Step.antt =====
-- The runs of one watch: what the loop, the resolver and the sockets let happen to its node.
use artik_sdk.Prelude.{
  ℕ, ◌≡◌, Bool, true, false, Option, none, some, List, [], ◌∷◌, ◌==◌, if◌then◌else◌,
}
use artik_sdk.Prelude.Int.{ℤ}
use artik_sdk.Prelude.Counting.{remove_one}
use artik_sdk.Network.Watch.{
  Timer, Watch, World, cancel, run_callback, get_addresses, responded, connected, update, new_watch,
  quiet,
}

-- A timer is due, the resolver answers, a packet of the node's address comes, the links change. Each
-- has the id that the loop gives to the timer that is added, if any.
pub data Event : Type 0 where
  fires : ℕ → Option ℕ → Event
  looked_up : List (Option ℕ) → Bool → Option ℕ → Event
  response : ℕ → List ℕ → ℤ → Option ℕ → Event
  link : Bool → Option ℕ → Event

unfoldable pub find_timer : ℕ → List Timer → Option Timer
find_timer id [] = none
find_timer id (t ∷ l) = if id == t.id then some t else find_timer id l

unfoldable pub contains : ℕ → List ℕ → Bool
contains x [] = false
contains x (y ∷ l) = if x == y then true else contains x l

module _ (self : ℕ) where
  -- A timeout is taken off the loop, and its callback runs.
  abbrev pub dispatch : Option Timer → ℕ → Option ℕ → Watch × World → Option (Watch × World)
  dispatch none t id s = none
  dispatch (some due) t id (w, e) =
      some (run_callback self due.callback id (w, record e { timers = cancel t e.timers }))

  -- `none` is an event that cannot happen, or a read outside a buffer.
  unfoldable pub step : Event → Watch × World → Option (Watch × World)
  unfolding find_timer contains
  step (fires t id) (w, e) = dispatch (find_timer t e.timers) t id (w, e)
  step (looked_up addresses native id) (w, e) =
      if contains self e.lookups
      then some (
          get_addresses self id addresses native
            (w, record e { lookups = remove_one self e.lookups }))
      else none
  step (response pid buf len id) s = responded self pid id buf len s
  step (link online_status id) s = some (connected self id online_status s)

  -- The states that events with `Ok` lead to from a new watch.
  pub data Reach (Ok : Event → Watch × World → Type 0) : Watch × World → Type 0 where
    start :
        (interval timeout : ℕ) (s : Watch × World)
        → s ≡ update self none (new_watch interval timeout, quiet)
        → Reach Ok s
    next :
        (ev : Event) (s s' : Watch × World)
        → Ok ev s
        → Reach Ok s
        → step ev s ≡ some s'
        → Reach Ok s'
