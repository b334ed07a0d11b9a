-- ===== src/Network/Watch.antt =====
-- linux_network.c: what happens to one watched address. The loop's answers and the results of the
-- lookups are arguments.
pub mod Step
pub mod Pending
pub mod Reports
pub mod Late
pub mod Silence
mod Tests
use artik_sdk.Prelude.{
  ℕ, ◌+◌, ◌%◌, Bool, true, false, not, ◌&&◌, ◌||◌, Option, none, some, List, [], ◌∷◌, ◌==◌,
  if◌then◌else◌,
}
use artik_sdk.Prelude.Int.{ℤ, pos, negsuc}
use artik_sdk.Network.Echo.{os_check_echo_response}

-- The callback of a timer; the user data is always the node.
pub data Callback : Type 0 where
  timeout_send_echo_callback timeout_receive_er_callback : Callback

pub record Timer : Type 0 where
  pub id : ℕ
  pub callback : Callback
  pub user_data : ℕ

-- `watch_online_node_t`: `to` is `none` as long as its family is not AF_INET.
pub record Watch : Type 0 where
  pub interval : ℕ
  pub timeout : ℕ
  pub online_status : Bool
  pub timeout_echo_id : ℤ
  pub update_online_status : Bool
  pub to : Option ℕ
  pub resolved : Bool
  pub force : Bool
  pub seqno : ℕ

-- Around the nodes: the timers of the loop that are not due yet, the nodes for which the resolver is
-- asked, the requests sent, and the calls of the application's callback, the latest first.
pub record World : Type 0 where
  pub timers : List Timer
  pub lookups : List ℕ
  pub echoes : List (Option ℕ × ℕ)
  pub reports : List (ℕ × Bool)

abbrev pub agree : Bool → Bool → Bool
agree true b = b
agree false b = not b

-- A list of timers less the one with the id.
unfoldable pub cancel : ℕ → List Timer → List Timer
cancel id [] = []
cancel id (t ∷ l) = if id == t.id then l else t ∷ cancel id l

-- The loop refuses a negative id, and gives out no 0.
abbrev pub remove_timeout_callback : ℤ → World → World
remove_timeout_callback (pos id) e = record e { timers = cancel id e.timers }
remove_timeout_callback (negsuc n) e = e

-- The first address that is IPv4; `none` is one of another family.
unfoldable pub first_ipv4 : List (Option ℕ) → Option ℕ
first_ipv4 [] = none
first_ipv4 (none ∷ l) = first_ipv4 l
first_ipv4 (some a ∷ l) = some a

-- `self` is the address of the node; the argument of type `Option ℕ` is the id that the loop gives to
-- the one timer that a handler adds, `none` if it fails.
module _ (self : ℕ) where
  unfoldable pub add_timeout_callback : Option ℕ → Callback → Watch × World → Watch × World
  add_timeout_callback none c s = s
  add_timeout_callback (some id) c (w, e) = (
    record w { timeout_echo_id = pos id },
    record e { timers = (record { id = id; callback = c; user_data = self }) ∷ e.timers },
  )

  unfoldable pub notify_online_status_change : Option ℕ → Bool → Watch × World → Watch × World
  unfolding add_timeout_callback cancel
  notify_online_status_change id status (w, e) =
      let (w', e') = add_timeout_callback id timeout_send_echo_callback (
        record w { resolved = status; update_online_status = false },
        remove_timeout_callback w.timeout_echo_id e,
      ) in
      if agree status w.online_status && not w.force then (w', e') else (
        record w' { force = false; online_status = status; resolved = status },
        record e' { reports = (self, status) ∷ e'.reports },
      )

  unfoldable pub send_echo_request : Option ℕ → Watch × World → Watch × World
  unfolding add_timeout_callback
  send_echo_request id (w, e) =
      let (w', e') = add_timeout_callback id timeout_receive_er_callback (w, e) in
      (
        record w' { seqno = (w.seqno + 1) % 65536 },
        record e' { echoes = (w.to, w.seqno) ∷ e'.echoes },
      )

  -- `get_addresses` after its loop.
  unfoldable pub take_address : Option ℕ → Option ℕ → Bool → Watch × World → Watch × World
  unfolding notify_online_status_change send_echo_request
  take_address id none native s = notify_online_status_change id false s
  take_address id (some a) native (w, e) =
      if native
      then send_echo_request id (record w { to = some a; resolved = true }, e)
      else notify_online_status_change id false (w, e)

  -- `native` is whether `g_socket_address_to_native` has room.
  unfoldable pub get_addresses : Option ℕ → List (Option ℕ) → Bool → Watch × World → Watch × World
  unfolding take_address first_ipv4
  get_addresses id addresses native s = take_address id (first_ipv4 addresses) native s

  unfoldable pub update : Option ℕ → Watch × World → Watch × World
  unfolding send_echo_request
  update id (w, e) =
      if w.resolved
      then send_echo_request id (record w { update_online_status = true }, e)
      else (record w { update_online_status = true }, record e { lookups = self ∷ e.lookups })

  abbrev pub run_callback : Callback → Option ℕ → Watch × World → Watch × World
  run_callback timeout_send_echo_callback id s = update id s
  run_callback timeout_receive_er_callback id s = notify_online_status_change id false s

  abbrev pub accepted : Option ℕ → Option Bool → Watch × World → Option (Watch × World)
  accepted id none s = none
  accepted id (some true) s = some (notify_online_status_change id true s)
  accepted id (some false) s = some s

  -- What `echo_response_watch` does with the node that it has found; `pid` is the process id. `none` is
  -- a read outside the buffer.
  unfoldable pub responded : ℕ → Option ℕ → List ℕ → ℤ → Watch × World → Option (Watch × World)
  unfolding notify_online_status_change
  responded pid id buf len s =
      accepted id (os_check_echo_response pid buf len ((s.0.seqno + 65535) % 65536)) s

  -- The loop's body in `network_connection`.
  unfoldable pub connected : Option ℕ → Bool → Watch × World → Watch × World
  unfolding update cancel
  connected id online_status (w, e) =
      if w.update_online_status || agree w.online_status online_status
      then (w, e)
      else update id (w, remove_timeout_callback w.timeout_echo_id e)

-- A new node, as `os_network_add_watch_online_status` fills it in.
unfoldable pub new_watch : ℕ → ℕ → Watch
new_watch interval timeout = record {
  interval = interval;
  timeout = timeout;
  online_status = false;
  timeout_echo_id = negsuc 0;
  update_online_status = false;
  to = none;
  resolved = false;
  force = true;
  seqno = 0;
}

abbrev pub quiet : World
quiet = record { timers = []; lookups = []; echoes = []; reports = [] }
