-- ===== src/Network/Registry/Tests.antt =====
-- linux_network.c: two watches, and sockets for one.
use artik_sdk.Prelude.{ℕ, ◌≡◌, refl, true, false, Option, none, some, List, [], ◌∷◌, ◌++◌, arith}
use artik_sdk.Prelude.Int.{pos}
use artik_sdk.ArtikList.{ArtikList, Node, find_first}
use artik_sdk.Network.Checksum.{htons}
use artik_sdk.Network.Echo.{icmphdr, os_check_echo_response}
use artik_sdk.Network.Watch.{
  Watch, World, timeout_send_echo_callback, timeout_receive_er_callback, new_watch, quiet,
  responded,
}
use artik_sdk.Network.Watch.Pending.{timer}
use artik_sdk.Network.Registry.{
  Sys, Answers, os_network_add_watch_online_status, os_network_remove_watch_online_status,
  echo_response_watch,
}
use artik_sdk.Network.Registry.Opening.{IsBalanced}
use artik_sdk.Network.Registry.Balance.{
  os_network_add_watch_online_status-IsBalanced, os_network_remove_watch_online_status-IsBalanced,
}
use artik_sdk.Network.Registry.Sharing.{with_watch, echo_response_watch_lem}

abbrev asking_watch : Watch × World
asking_watch = (
  record (new_watch 5000 1000) {
    update_online_status = true;
    timeout_echo_id = pos 4;
    to = some 1;
    resolved = true;
    seqno = 1;
  },
  record quiet { timers = timer 9 4 timeout_receive_er_callback ∷ []; echoes = (some 1, 0) ∷ [] },
)

-- 20 bytes of header, of which the first is 0x45.
abbrev header : List ℕ
header = 0 ∷ 0 ∷ 28 ∷ 0 ∷ 0 ∷ 0 ∷ 0 ∷ 64 ∷ 1 ∷ 0 ∷ 0 ∷ 127 ∷ 0 ∷ 0 ∷ 1 ∷ 127 ∷ 0 ∷ 0 ∷ 1 ∷ []

abbrev reply : ℕ → ℕ → List ℕ
reply pid seqno = 69 ∷ header ++ (icmphdr 0 0 pid (htons seqno) ++ [])

-- No socket for ICMP, then everything.
abbrev idle : Sys
idle = record {
  status = none;
  loops = 0;
  resolvers = 0;
  sockets = [];
  watches = [];
  addrs = 0;
  blocks = 0;
  world = quiet;
}

abbrev answers : Option ℕ → Answers
answers icmp = record {
  loop = true;
  block = true;
  netlink = some 3;
  bind = true;
  icmp = icmp;
  watch_netlink = some 1;
  watch_icmp = some 2;
  node = some 9;
}

os_network_add_watch_online_status-IsBalanced_example :
    IsBalanced (os_network_add_watch_online_status (answers (some 4)) 5000 1000 idle).2
os_network_add_watch_online_status-IsBalanced_example =
    os_network_add_watch_online_status-IsBalanced (answers (some 4)) 5000 1000 idle (omega arith)
      (omega arith)
      (record {
        no_loops = refl;
        no_sockets = refl;
        no_watches = refl;
        no_addrs = refl;
        no_blocks = refl;
      })

os_network_remove_watch_online_status-IsBalanced_example :
    IsBalanced
      (os_network_remove_watch_online_status 9
        (os_network_add_watch_online_status (answers (some 4)) 5000 1000 idle).2).1
os_network_remove_watch_online_status-IsBalanced_example =
    os_network_remove_watch_online_status-IsBalanced 9
      (os_network_add_watch_online_status (answers (some 4)) 5000 1000 idle).2
      os_network_add_watch_online_status-IsBalanced_example

-- Two watches of the address 1.
abbrev node_at : ℕ → Node Watch
node_at p = record {
  addr = p;
  handle = p;
  size_data = 248;
  clear = false;
  copy = none;
  payload = asking_watch.0;
}

abbrev answered_root : ArtikList Watch
answered_root =
    (record (node_at 9) {
      payload = record asking_watch.0 {
        update_online_status = false;
        timeout_echo_id = pos 6;
        online_status = true;
        force = false;
      };
    })
    ∷ node_at 10
    ∷ []

abbrev answered_world : World
answered_world = record asking_watch.1 {
  timers = timer 9 6 timeout_send_echo_callback ∷ [];
  reports = (9, true) ∷ [];
}

watch-answered :
    echo_response_watch false
      (some 1)
      7
      (some 6)
      (reply 7 0)
      (pos 28)
      (node_at 9 ∷ node_at 10 ∷ [])
      asking_watch.1
    ≡ some (answered_root, answered_world)
unfolding echo_response_watch os_check_echo_response new_watch find_first
watch-answered = refl

echo_response_watch_lem_example :
    (echo_response_watch false
        (some 1)
        7
        (some 6)
        (reply 7 0)
        (pos 28)
        (node_at 9 ∷ node_at 10 ∷ [])
        asking_watch.1
      ≡ with_watch []
          (node_at 9)
          (node_at 10 ∷ [])
          (responded 9 7 (some 6) (reply 7 0) (pos 28) asking_watch))
    × (echo_response_watch true
          (some 1)
          7
          (some 6)
          (reply 7 0)
          (pos 28)
          (node_at 9 ∷ node_at 10 ∷ [])
          asking_watch.1
        ≡ some (node_at 9 ∷ node_at 10 ∷ [], asking_watch.1))
unfolding new_watch
echo_response_watch_lem_example =
    echo_response_watch_lem (some 1) 7 (some 6) (reply 7 0) (pos 28) (node_at 9) []
      (node_at 10 ∷ []) asking_watch.1 tt refl tt
