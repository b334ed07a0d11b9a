-- ===== src/Network/Watch/Tests.antt =====
-- linux_network.c: runs of the watch at 9.
use artik_sdk.Prelude.{ℕ, ◌≡◌, refl, true, false, none, some, List, [], ◌∷◌, ◌++◌, arith}
use artik_sdk.Prelude.Int.{pos}
use artik_sdk.Prelude.Counting.{remove_one}
use artik_sdk.Network.Checksum.{htons}
use artik_sdk.Network.Echo.{icmphdr, os_check_echo_response}
use artik_sdk.Network.Watch.{
  Watch, World, timeout_send_echo_callback, timeout_receive_er_callback, new_watch, quiet, update,
  remove_timeout_callback, first_ipv4, get_addresses, notify_online_status_change, cancel,
  responded,
}
use artik_sdk.Network.Watch.Step.{fires, looked_up, response, step, start, next}
use artik_sdk.Network.Watch.Pending.{Pending, answered, timer, Reach-Pending}
use artik_sdk.Network.Watch.Reports.{History, Reach-IsTold}
use artik_sdk.Network.Watch.Late.{late_response}
use artik_sdk.Network.Watch.Silence.{silence_lem}

-- 20 bytes of header, of which the first is 0x45.
abbrev header : List ℕ
header = 0 ∷ 0 ∷ 28 ∷ 0 ∷ 0 ∷ 0 ∷ 0 ∷ 64 ∷ 1 ∷ 0 ∷ 0 ∷ 127 ∷ 0 ∷ 0 ∷ 1 ∷ 127 ∷ 0 ∷ 0 ∷ 1 ∷ []

abbrev reply : ℕ → ℕ → List ℕ
reply pid seqno = 69 ∷ header ++ (icmphdr 0 0 pid (htons seqno) ++ [])

-- A watch at 9 right after it was added, and when its address is known.
abbrev added_watch : Watch × World
added_watch = (
  record (new_watch 5000 1000) { update_online_status = true },
  record quiet { lookups = 9 ∷ [] },
)

abbrev asking_watch : Watch × World
asking_watch = (
  record (new_watch 5000 1000) {
    update_online_status = true;
    timeout_echo_id = pos 4;
    to = some 1;
    resolved = true;
    seqno = 1;
  },
  record quiet { timers = timer 9 4 timeout_receive_er_callback ∷ []; echoes = (some 1, 0) ∷ [] },
)

added_watch-start : added_watch ≡ update 9 none (new_watch 5000 1000, quiet)
unfolding update new_watch
added_watch-start = refl

looked_up-asking :
    step 9 (looked_up (none ∷ some 1 ∷ []) true (some 4)) added_watch ≡ some asking_watch
unfolding step get_addresses notify_online_status_change update cancel responded new_watch
    remove_one
looked_up-asking = refl

Reach-Pending_example : Pending 9 asking_watch
Reach-Pending_example = Reach-Pending 9 asking_watch (
    next (looked_up (none ∷ some 1 ∷ []) true (some 4)) added_watch asking_watch
      (answered (none ∷ some 1 ∷ []) true 4 added_watch)
      (start 5000 1000 added_watch added_watch-start) looked_up-asking)

-- The time for the response runs out.
abbrev offline_watch : Watch × World
offline_watch = (
  record asking_watch.0 {
    update_online_status = false;
    timeout_echo_id = pos 5;
    resolved = false;
    force = false;
  },
  record asking_watch.1 {
    timers = timer 9 5 timeout_send_echo_callback ∷ [];
    reports = (9, false) ∷ [];
  },
)

fires-offline : step 9 (fires 4 (some 5)) asking_watch ≡ some offline_watch
unfolding step get_addresses notify_online_status_change update cancel responded new_watch
fires-offline = refl

Reach-IsTold_example :
    History 9 (offline_watch.0.force, offline_watch.0.online_status, offline_watch.1.reports)
Reach-IsTold_example = Reach-IsTold 9 {Ok = λ ev s. Unit {0}} offline_watch (
    next (fires 4 (some 5)) asking_watch offline_watch tt
      (next (looked_up (none ∷ some 1 ∷ []) true (some 4)) added_watch asking_watch tt
        (start 5000 1000 added_watch added_watch-start) looked_up-asking)
      fires-offline)

-- The next request is due, the resolver is asked again, and the response to the first request comes.
abbrev resolving_watch : Watch × World
resolving_watch = (
  record offline_watch.0 { update_online_status = true },
  record offline_watch.1 { timers = []; lookups = 9 ∷ [] },
)

fires-resolving : step 9 (fires 5 none) offline_watch ≡ some resolving_watch
unfolding step get_addresses notify_online_status_change update cancel responded new_watch
fires-resolving = refl

abbrev late_watch : Watch × World
late_watch = (
  record resolving_watch.0 {
    update_online_status = false;
    timeout_echo_id = pos 6;
    online_status = true;
    resolved = true;
  },
  record resolving_watch.1 {
    timers = timer 9 6 timeout_send_echo_callback ∷ [];
    reports = (9, true) ∷ (9, false) ∷ [];
  },
)

abbrev doubled_watch : Watch × World
doubled_watch = (
  record late_watch.0 { timeout_echo_id = pos 7; to = some 1; seqno = 2 },
  record late_watch.1 {
    timers = timer 9 7 timeout_receive_er_callback ∷ timer 9 6 timeout_send_echo_callback ∷ [];
    lookups = [];
    echoes = (some 1, 1) ∷ (some 1, 0) ∷ [];
  },
)

reply-accepted : os_check_echo_response 7 (reply 7 0) (pos 28) 0 ≡ some true
unfolding os_check_echo_response
reply-accepted = refl

response-late : step 9 (response 7 (reply 7 0) (pos 28) (some 6)) resolving_watch ≡ some late_watch
unfolding step get_addresses notify_online_status_change update cancel responded
    os_check_echo_response new_watch
response-late = refl

looked_up-doubled : step 9 (looked_up (some 1 ∷ []) true (some 7)) late_watch ≡ some doubled_watch
unfolding step get_addresses notify_online_status_change update cancel responded new_watch
    remove_one
looked_up-doubled = refl

late_response_example :
    (doubled_watch.1.timers
      ≡ timer 9 7 timeout_receive_er_callback ∷ timer 9 6 timeout_send_echo_callback ∷ [])
    × ((remove_timeout_callback doubled_watch.0.timeout_echo_id doubled_watch.1).timers
        ≡ timer 9 6 timeout_send_echo_callback ∷ [])
unfolding first_ipv4 new_watch
late_response_example =
    late_response 9 7 6 7 1 (reply 7 0) (pos 28) (some 1 ∷ []) resolving_watch late_watch
      doubled_watch refl refl reply-accepted refl (omega arith) response-late looked_up-doubled

-- Online; then the next request goes out, and nothing comes.
abbrev online_watch : Watch × World
online_watch = (
  record asking_watch.0 {
    update_online_status = false;
    timeout_echo_id = pos 5;
    online_status = true;
    force = false;
  },
  record asking_watch.1 {
    timers = timer 9 5 timeout_send_echo_callback ∷ [];
    reports = (9, true) ∷ [];
  },
)

abbrev waiting_watch : Watch × World
waiting_watch = (
  record online_watch.0 { update_online_status = true; timeout_echo_id = pos 6; seqno = 2 },
  record online_watch.1 {
    timers = timer 9 6 timeout_receive_er_callback ∷ [];
    echoes = (some 1, 1) ∷ (some 1, 0) ∷ [];
  },
)

abbrev silent_watch : Watch × World
silent_watch = (
  record waiting_watch.0 {
    update_online_status = false;
    timeout_echo_id = pos 7;
    online_status = false;
    resolved = false;
  },
  record waiting_watch.1 {
    timers = timer 9 7 timeout_send_echo_callback ∷ [];
    reports = (9, false) ∷ (9, true) ∷ [];
  },
)

fires-waiting : step 9 (fires 5 (some 6)) online_watch ≡ some waiting_watch
unfolding step update cancel new_watch
fires-waiting = refl

fires-silent : step 9 (fires 6 (some 7)) waiting_watch ≡ some silent_watch
unfolding step notify_online_status_change cancel new_watch
fires-silent = refl

silence_lem_example :
    (silent_watch.0.online_status ≡ false)
    × (silent_watch.0.resolved ≡ false)
    × (silent_watch.1.reports ≡ (9, false) ∷ online_watch.1.reports)
    × (silent_watch.1.timers ≡ timer 9 7 timeout_send_echo_callback ∷ [])
    × (silent_watch.1.echoes ≡ (online_watch.0.to, online_watch.0.seqno) ∷ online_watch.1.echoes)
unfolding new_watch
silence_lem_example =
    silence_lem 9 5 6 7 online_watch waiting_watch silent_watch refl refl refl fires-waiting
      fires-silent
