-- ===== src/Network/Registry.antt =====
-- linux_network.c: the global `watch_online_status`, its sockets and watches, and the list of nodes.
-- The answers of the system and of the loop are arguments.
pub mod Opening
pub mod Balance
pub mod Sharing
mod Tests
use artik_sdk.Prelude.{
  ℕ, ◌+◌, ◌-◌, Bool, true, false, not, Option, none, some, List, [], ◌∷◌, ◌==◌, ltb, if◌then◌else◌,
}
use artik_sdk.Prelude.Int.{ℤ, pos}
use artik_sdk.Prelude.Counting.{remove_one}
use artik_sdk.Error.{ArtikError, s_ok, e_no_mem, e_access_denied, e_not_initialized, is_ok}
use artik_sdk.ArtikList.{ArtikList, Node, add, size, find_first, get_by_handle, delete_handle}
use artik_sdk.ArtikList.Store.{store}
use artik_sdk.Network.Watch.{
  Watch, World, new_watch, update, responded, connected, remove_timeout_callback,
}

-- `watch_online_status_t`
pub record Status : Type 0 where
  pub root : ArtikList Watch
  pub netlink_sock : ℕ
  pub icmp_sock : ℕ
  pub watch_netlink_id : ℕ
  pub watch_icmp_id : ℕ

-- `status` is `none` for NULL. Then what is held: the references to the loop module and to the resolver,
-- the open sockets, the watches of the loop, the copies of addresses, and the blocks of `Status`.
pub record Sys : Type 0 where
  pub status : Option Status
  pub loops : ℕ
  pub resolvers : ℕ
  pub sockets : List ℕ
  pub watches : List ℕ
  pub addrs : ℕ
  pub blocks : ℕ
  pub world : World

-- What is answered where it is asked: the module, the block, the sockets, `bind`, the two watches, and
-- the address of the node.
pub record Answers : Type 0 where
  pub loop : Bool
  pub block : Bool
  pub netlink : Option ℕ
  pub bind : Bool
  pub icmp : Option ℕ
  pub watch_netlink : Option ℕ
  pub watch_icmp : Option ℕ
  pub node : Option ℕ

-- A node that is zeroed.
abbrev pub blank_watch : Watch
blank_watch = record {
  interval = 0;
  timeout = 0;
  online_status = false;
  timeout_echo_id = pos 0;
  update_online_status = false;
  to = none;
  resolved = false;
  force = false;
  seqno = 0;
}

-- `sizeof(watch_online_node_t)` where a pointer has eight bytes.
abbrev pub sizeof_node : ℕ
sizeof_node = 248

abbrev close : ℕ → Sys → Sys
close fd s = record s { sockets = remove_one fd s.sockets }

abbrev close_positive : ℕ → Sys → Sys
close_positive fd s = if ltb 0 fd then close fd s else s

abbrev remove_fd_watch : ℕ → Sys → Sys
remove_fd_watch id s = record s { watches = remove_one id s.watches }

abbrev give_back : Sys → Sys
give_back s = record s { status = none; blocks = s.blocks - 1; loops = s.loops - 1 }

unfoldable pub clean_watch_online_status : Status → Sys → Sys
unfolding remove_one
clean_watch_online_status st s = give_back (
    close_positive st.icmp_sock (
      close_positive st.netlink_sock
        (remove_fd_watch st.watch_icmp_id (remove_fd_watch st.watch_netlink_id s))))

abbrev opened : ℕ → Sys → Sys
opened fd s = record s { sockets = fd ∷ s.sockets }

-- The two watches, with both sockets open; the rest of `initialize_watch_online_status`.
unfoldable pub watch_sockets : ℕ → ℕ → Option ℕ → Option ℕ → Sys → ArtikError × Sys
unfolding remove_one
watch_sockets netlink icmp none wi s = (e_access_denied, give_back (close icmp (close netlink s)))
watch_sockets netlink icmp (some wn) none s = (
  e_access_denied,
  give_back
      (close icmp (close netlink (remove_fd_watch wn (record s { watches = wn ∷ s.watches })))),
)
watch_sockets netlink icmp (some wn) (some wi) s = (
  s_ok,
  record s {
    status = some (record {
      root = [];
      netlink_sock = netlink;
      icmp_sock = icmp;
      watch_netlink_id = wn;
      watch_icmp_id = wi;
    });
    watches = wi ∷ wn ∷ s.watches;
    resolvers = s.resolvers + 1;
  },
)

-- From the ICMP socket on.
unfoldable pub open_icmp : ℕ → Option ℕ → Option ℕ → Option ℕ → Sys → ArtikError × Sys
unfolding watch_sockets
open_icmp netlink none wn wi s = (e_access_denied, give_back (close netlink s))
open_icmp netlink (some icmp) wn wi s = watch_sockets netlink icmp wn wi (opened icmp s)

-- From the netlink socket on.
unfoldable pub open_netlink : Answers → Option ℕ → Sys → ArtikError × Sys
unfolding open_icmp
open_netlink a none s = (e_access_denied, give_back s)
open_netlink a (some netlink) s =
    if a.bind
    then open_icmp netlink a.icmp a.watch_netlink a.watch_icmp (opened netlink s)
    else (e_access_denied, give_back (close netlink (opened netlink s)))

unfoldable pub initialize_watch_online_status : Answers → Sys → ArtikError × Sys
unfolding open_netlink
initialize_watch_online_status a s =
    if not a.loop
    then (e_no_mem, s)
    else if not a.block
    then (e_no_mem, s)
    else open_netlink a a.netlink (record s { loops = s.loops + 1; blocks = s.blocks + 1 })

-- The node is in the list: it is filled in, and its first request is on its way. `id` is what the loop
-- gives to its timer, if one is added.
unfoldable pub start_watch : ℕ → ℕ → Node Watch → Status → Sys → ArtikError × Option ℕ × Sys
unfolding update new_watch
start_watch interval timeout n st s =
    let r = update n.addr none (new_watch interval timeout, s.world) in
    (
      s_ok,
      some n.handle,
      record s {
        status = some (record st { root = store n.addr (λ m. record m { payload = r.0 }) st.root });
        addrs = s.addrs + 1;
        world = r.1;
      },
    )

unfoldable pub add_node :
    ℕ → ℕ → Option (Node Watch) × ArtikList Watch → Status → Sys → ArtikError × Option ℕ × Sys
unfolding start_watch clean_watch_online_status
add_node interval timeout (none, root) st s =
    (e_no_mem, none, if size root == 0 then clean_watch_online_status st s else s)
add_node interval timeout (some n, root) st s =
    start_watch interval timeout n (record st { root = root }) s

-- After `initialize_watch_online_status`, with its result.
unfoldable pub started :
    Answers → ℕ → ℕ → Option Status → ArtikError → Sys → ArtikError × Option ℕ × Sys
unfolding add_node is_ok
started a interval timeout none ret s = (ret, none, s)
started a interval timeout (some st) ret s =
    if is_ok ret
    then add_node interval timeout (add st.root 0 sizeof_node a.node blank_watch) st s
    else (ret, none, s)

unfoldable pub add_to : Option Status → Answers → ℕ → ℕ → Sys → ArtikError × Option ℕ × Sys
unfolding initialize_watch_online_status started
add_to (some st) a interval timeout s =
    add_node interval timeout (add st.root 0 sizeof_node a.node blank_watch) st s
add_to none a interval timeout s =
    let r = initialize_watch_online_status a s in started a interval timeout r.1.status r.0 r.1

-- The result, the handle that is stored, and the state. The copy of the address is taken to succeed.
unfoldable pub os_network_add_watch_online_status :
    Answers → ℕ → ℕ → Sys → ArtikError × Option ℕ × Sys
unfolding add_to
os_network_add_watch_online_status a interval timeout s = add_to s.status a interval timeout s

unfoldable pub remove_node : ℕ → Option (Node Watch) → Status → Sys → ArtikError × Sys
unfolding clean_watch_online_status
remove_node handle none st s = (e_not_initialized, s)
remove_node handle (some n) st s =
    let root = (delete_handle st.root handle).1 in
    let st' = record st { root = root } in
    let s' = record s {
      status = some st';
      addrs = s.addrs - 1;
      world = remove_timeout_callback n.payload.timeout_echo_id s.world;
    } in
    (s_ok, if size root == 0 then clean_watch_online_status st' s' else s')

unfoldable pub remove_from : Option Status → ℕ → Sys → ArtikError × Sys
unfolding remove_node
remove_from none handle s = (e_not_initialized, s)
remove_from (some st) handle s = remove_node handle (get_by_handle st.root handle) st s

unfoldable pub os_network_remove_watch_online_status : ℕ → Sys → ArtikError × Sys
unfolding remove_from
os_network_remove_watch_online_status handle s = remove_from s.status handle s

-- `search_node_with_sockaddr`; `none` is an address of another family than AF_INET.
abbrev pub search_node_with_sockaddr : Option ℕ → Option ℕ → Bool
search_node_with_sockaddr none from = false
search_node_with_sockaddr (some a) none = false
search_node_with_sockaddr (some a) (some b) = a == b

abbrev pub put_back :
    Node Watch → Option (Watch × World) → ArtikList Watch → Option (ArtikList Watch × World)
put_back n none root = none
put_back n (some (w, e)) root = some (store n.addr (λ m. record m { payload = w }) root, e)

-- The node that is found, with its response; `none` is a read outside the buffer.
unfoldable pub respond :
    ℕ
    → Option ℕ
    → List ℕ
    → ℤ
    → Option (Node Watch)
    → ArtikList Watch
    → World
    → Option (ArtikList Watch × World)
unfolding responded
respond pid id buf len none root e = some (root, e)
respond pid id buf len (some n) root e =
    put_back n (responded n.addr pid id buf len (n.payload, e)) root

-- `failed` is whether the loop tells of an error of the socket.
unfoldable pub echo_response_watch :
    Bool
    → Option ℕ
    → ℕ
    → Option ℕ
    → List ℕ
    → ℤ
    → ArtikList Watch
    → World
    → Option (ArtikList Watch × World)
unfolding respond
echo_response_watch failed from pid id buf len root e =
    if failed
    then some (root, e)
    else respond pid id buf len (find_first (λ n. search_node_with_sockaddr n.payload.to from) root)
        root e

-- A message of the netlink socket: the end or an error, a link that is up or down, an address or a
-- route that is new or gone, or another.
pub data NetlinkMessage : Type 0 where
  last : NetlinkMessage
  link_flags : Bool → NetlinkMessage
  added removed other : NetlinkMessage

-- The loop over the messages; `none` is its early return.
unfoldable pub read_messages : Bool → List NetlinkMessage → Option Bool
read_messages online_status [] = some online_status
read_messages online_status (last ∷ l) = none
read_messages online_status (link_flags up ∷ l) = read_messages up l
read_messages online_status (added ∷ l) = read_messages true l
read_messages online_status (removed ∷ l) = read_messages false l
read_messages online_status (other ∷ l) = read_messages online_status l

-- The loop over the nodes; `ids` is what the loop gives to the timer of the node at an address.
unfoldable pub connect_all :
    (ℕ → Option ℕ) → Bool → ArtikList Watch → World → ArtikList Watch × World
unfolding connected
connect_all ids online_status [] e = ([], e)
connect_all ids online_status (n ∷ l) e =
    let r = connected n.addr (ids n.addr) online_status (n.payload, e) in
    let rest = connect_all ids online_status l r.1 in (record n { payload = r.0 } ∷ rest.0, rest.1)

unfoldable pub network_connection :
    Bool → List NetlinkMessage → (ℕ → Option ℕ) → ArtikList Watch → World → ArtikList Watch × World
unfolding read_messages connect_all
network_connection failed messages ids root e =
    if failed then (root, e) else elim (read_messages false messages) [
      | none ↦ (root, e)
      | some online_status ↦ connect_all ids online_status root e
    ]
