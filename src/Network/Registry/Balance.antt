-- ===== src/Network/Registry/Balance.antt =====
-- What the network watches hold, on every path of an addition and a removal.
use artik_sdk.Prelude.{
  ℕ, ◌-◌, ◌≡◌, ◌<◌, refl, sym, ◌∙◌, subst, true, false, Option, none, some, [], ◌∷◌, ◌++◌, ◌==◌,
  arith, length, length-append,
}
use artik_sdk.Prelude.Cases.{if_rule}
use artik_sdk.Error.{ArtikError, is_ok}
use artik_sdk.ArtikList.{ArtikList, Node, add, size, new_node, get_by_handle, delete_handle}
use artik_sdk.ArtikList.Lookup.{add_lem, add-none, size_lem}
use artik_sdk.ArtikList.Deletion.{delete_handle-length}
use artik_sdk.ArtikList.Store.{store}
use artik_sdk.Network.Watch.{Watch, new_watch, update, remove_timeout_callback}
use artik_sdk.Network.Registry.{
  Status, Sys, Answers, sizeof_node, blank_watch, initialize_watch_online_status, start_watch,
  add_node, started, os_network_add_watch_online_status, add_to, remove_from, remove_node,
  os_network_remove_watch_online_status,
}
use artik_sdk.Network.Registry.Opening.{
  IsServing, Balanced, IsBalanced, IsPositive, clean-IsBalanced, Ready, initialize-Ready,
}

length-store :
    (p : ℕ) (f : Node Watch → Node Watch) (l : ArtikList Watch) → length (store p f l) ≡ length l
length-store p f [] = refl
length-store p f (n ∷ l) = ground (arith, length-store p f l)

-- A new node: the root with it, the status with that root.
start_watch-Serving :
    (interval timeout : ℕ) (n : Node Watch) (st : Status) (s : Sys)
    → IsServing st s
    → let st' = record st { root = st.root ++ n ∷ [] } in
      IsBalanced (start_watch interval timeout n st' s).2
unfolding start_watch
start_watch-Serving interval timeout n st s v =
    let r = update n.addr none (new_watch interval timeout, s.world) in
    let k =
      length-store n.addr (λ m. record m { payload = r.0 }) (st.root ++ n ∷ [])
      ∙ length-append st.root (n ∷ []) in
    (
      record {
        one_loop = v.one_loop;
        one_block = v.one_block;
        netlink_positive = v.netlink_positive;
        icmp_positive = v.icmp_positive;
        two_sockets = v.two_sockets;
        two_watches = v.two_watches;
        an_address_each = omega (arith, k, v.an_address_each);
      },
      omega (arith, k),
    )

-- What is left of the addition with the answer of `malloc`; the root may still be empty.
add_node-IsBalanced :
    (interval timeout : ℕ) (node : Option ℕ) (st : Status) (s : Sys)
    → s.status ≡ some st
    → IsServing st s
    → IsBalanced (add_node interval timeout (add st.root 0 sizeof_node node blank_watch) st s).2
unfolding add_node
add_node-IsBalanced interval timeout (some p) st s e v =
    rw (add_lem st.root 0 sizeof_node p blank_watch (omega arith))
      (start_watch-Serving interval timeout (new_node p blank_watch 0 sizeof_node) st s v)
add_node-IsBalanced interval timeout none st s e v =
    rw (add-none st.root 0 sizeof_node blank_watch) (
      if_rule IsBalanced (size st.root == 0)
        (λ z. clean-IsBalanced st s v (ground (arith, size_lem st.root)))
        (λ z. subst (λ o. Balanced o s) (sym e) (v, ground (arith, size_lem st.root))))

started-IsBalanced :
    (a : Answers) (interval timeout : ℕ) (o : Option Status) (ret : ArtikError) (s : Sys)
    → s.status ≡ o
    → Ready ret o s
    → IsBalanced (started a interval timeout o ret s).2
unfolding started Ready is_ok
started-IsBalanced a interval timeout none ret s e r = subst (λ o. Balanced o s) (sym e) r
started-IsBalanced a interval timeout (some st) ret s e r =
    rw r.2 (add_node-IsBalanced interval timeout a.node st s e r.0)

add_to-IsBalanced :
    (o : Option Status) (a : Answers) (interval timeout : ℕ) (s : Sys)
    → s.status ≡ o
    → IsPositive a.netlink
    → IsPositive a.icmp
    → Balanced o s
    → IsBalanced (add_to o a interval timeout s).2
unfolding add_to
add_to-IsBalanced none a interval timeout s e p q b =
    let r = initialize_watch_online_status a s in
    started-IsBalanced a interval timeout r.1.status r.0 r.1 refl (initialize-Ready a s e b p q)
add_to-IsBalanced (some st) a interval timeout s e p q b =
    add_node-IsBalanced interval timeout a.node st s e b.0

pub os_network_add_watch_online_status-IsBalanced :
    (a : Answers) (interval timeout : ℕ) (s : Sys)
    → IsPositive a.netlink
    → IsPositive a.icmp
    → IsBalanced s
    → IsBalanced (os_network_add_watch_online_status a interval timeout s).2
unfolding os_network_add_watch_online_status
os_network_add_watch_online_status-IsBalanced a interval timeout s p q b =
    add_to-IsBalanced s.status a interval timeout s refl p q b

no_size : (l : ArtikList Watch) → (size l == 0) ≡ true → length l ≡ 0
no_size l h = ground (arith, size_lem l)

a_node : (l : ArtikList Watch) → (size l == 0) ≡ false → 0 < length l
a_node l h = ground (arith, size_lem l)

remove_node-IsBalanced :
    (handle : ℕ) (o : Option (Node Watch)) (st : Status) (s : Sys)
    → get_by_handle st.root handle ≡ o
    → s.status ≡ some st
    → Balanced (some st) s
    → IsBalanced (remove_node handle o st s).1
unfolding remove_node
remove_node-IsBalanced handle none st s g e b = subst (λ o. Balanced o s) (sym e) b
remove_node-IsBalanced handle (some n) st s g e b =
    let k = delete_handle-length st.root handle n g in
    let root = (delete_handle st.root handle).1 in
    let z = size_lem root in
    let v : IsServing (record st { root = root })
        (record s {
          status = some (record st { root = root });
          addrs = s.addrs - 1;
          world = remove_timeout_callback n.payload.timeout_echo_id s.world;
        }) =
      record {
        one_loop = b.0.one_loop;
        one_block = b.0.one_block;
        netlink_positive = b.0.netlink_positive;
        icmp_positive = b.0.icmp_positive;
        two_sockets = b.0.two_sockets;
        two_watches = b.0.two_watches;
        an_address_each = omega (arith, k, b.0.an_address_each);
      } in
    if_rule IsBalanced (size root == 0)
      (λ y. clean-IsBalanced _ _ v (omega (arith, v.an_address_each, no_size root y)))
      (λ y. (v, a_node root y))

remove_from-IsBalanced :
    (o : Option Status) (handle : ℕ) (s : Sys)
    → s.status ≡ o
    → Balanced o s
    → IsBalanced (remove_from o handle s).1
unfolding remove_from
remove_from-IsBalanced none handle s e b = subst (λ o. Balanced o s) (sym e) b
remove_from-IsBalanced (some st) handle s e b =
    remove_node-IsBalanced handle (get_by_handle st.root handle) st s refl e b

-- A removal, of a handle that is there or not, keeps the balance of the references to the loop module,
-- the sockets, the watches of the loop, the copies of addresses and the blocks of the global. The
-- resolver, the timers and the lookups are not counted.
pub os_network_remove_watch_online_status-IsBalanced :
    (handle : ℕ) (s : Sys)
    → IsBalanced s
    → IsBalanced (os_network_remove_watch_online_status handle s).1
unfolding os_network_remove_watch_online_status
os_network_remove_watch_online_status-IsBalanced handle s b =
    remove_from-IsBalanced s.status handle s refl b
