-- ===== src/Network/Registry/Sharing.antt =====
-- Two watches of one address, and a watch that is removed while the resolver is asked for its address.
use artik_sdk.Prelude.{
  All, ◌++◌, ap, ◌∙◌, ℕ, ◌≡◌, ◌≢◌, refl, Bool, true, false, Option, none, some, List, [], ◌∷◌,
  arith,
}
use artik_sdk.Prelude.Int.{ℤ}
use artik_sdk.ArtikList.{ArtikList, Node, find_first, get_by_handle}
use artik_sdk.ArtikList.Store.{store}
use artik_sdk.Network.Watch.{Watch, World, responded}
use artik_sdk.Network.Watch.Pending.{remove-lookups}
use artik_sdk.Network.Registry.{
  Status, Sys, clean_watch_online_status, remove_node, remove_from,
  os_network_remove_watch_online_status, search_node_with_sockaddr, put_back, respond,
  echo_response_watch,
}

-- A write to a node, where no node in front of it has its address.
store_middle :
    (f : Node Watch → Node Watch) (n : Node Watch) (l r : ArtikList Watch)
    → All (λ m. m.addr ≢ n.addr) l
    → store n.addr f (l ++ n ∷ r) ≡ l ++ f n ∷ r
store_middle f n [] r d = ground arith
store_middle f n (x ∷ l) r d = ground (arith, store_middle f n l r d.1)

find_first_hit :
    (hit : Node Watch → Bool) (n : Node Watch) (l r : ArtikList Watch)
    → All (λ m. hit m ≡ false) l
    → hit n ≡ true
    → find_first hit (l ++ n ∷ r) ≡ some n
unfolding find_first
find_first_hit hit n [] r d h = rw h refl
find_first_hit hit n (x ∷ l) r d h = rw d.0 (find_first_hit hit n l r d.1 h)

-- The list and the world after the watch of one node has changed.
abbrev pub with_watch :
    ArtikList Watch
    → Node Watch
    → ArtikList Watch
    → Option (Watch × World)
    → Option (ArtikList Watch × World)
with_watch l n r none = none
with_watch l n r (some (w, e)) = some (l ++ record n { payload = w } ∷ r, e)

put_back-with_watch :
    (n : Node Watch) (l r : ArtikList Watch) (o : Option (Watch × World))
    → All (λ m. m.addr ≢ n.addr) l
    → put_back n o (l ++ n ∷ r) ≡ with_watch l n r o
put_back-with_watch n l r none d = refl
put_back-with_watch n l r (some (w, e)) d =
    ap (λ k. some (k, e)) (store_middle (λ m. record m { payload = w }) n l r d)

respond-with_watch :
    (pid : ℕ) (id : Option ℕ) (buf : List ℕ) (len : ℤ) (n : Node Watch) (l r : ArtikList Watch)
    (e : World)
    → All (λ m. m.addr ≢ n.addr) l
    → respond pid id buf len (some n) (l ++ n ∷ r) e
      ≡ with_watch l n r (responded n.addr pid id buf len (n.payload, e))
unfolding respond
respond-with_watch pid id buf len n l r e d =
    put_back-with_watch n l r (responded n.addr pid id buf len (n.payload, e)) d

-- A packet comes from an address, and `n` is the first node of the list whose watch has that address and
-- the first with its own. The watch of `n` gets the packet, and the result is its own: every other node,
-- also one whose watch has the same address, is as it was. Where the loop tells of an error of the
-- socket, nothing changes.
pub echo_response_watch_lem :
    (from : Option ℕ) (pid : ℕ) (id : Option ℕ) (buf : List ℕ) (len : ℤ) (n : Node Watch)
    (l r : ArtikList Watch) (e : World)
    → All (λ m. search_node_with_sockaddr m.payload.to from ≡ false) l
    → search_node_with_sockaddr n.payload.to from ≡ true
    → All (λ m. m.addr ≢ n.addr) l
    → (echo_response_watch false from pid id buf len (l ++ n ∷ r) e
        ≡ with_watch l n r (responded n.addr pid id buf len (n.payload, e)))
      × (echo_response_watch true from pid id buf len (l ++ n ∷ r) e ≡ some (l ++ n ∷ r, e))
unfolding echo_response_watch
echo_response_watch_lem from pid id buf len n l r e f h d = (
  ap (λ o. respond pid id buf len o (l ++ n ∷ r) e)
        (find_first_hit (λ m. search_node_with_sockaddr m.payload.to from) n l r f h)
      ∙ respond-with_watch pid id buf len n l r e d,
  refl,
)

removed-lookups :
    (handle : ℕ) (o : Option (Node Watch)) (st : Status) (s : Sys)
    → (remove_node handle o st s).1.world.lookups ≡ s.world.lookups
unfolding remove_node clean_watch_online_status
removed-lookups handle none st s = refl
removed-lookups handle (some n) st s =
    let k = remove-lookups n.payload.timeout_echo_id s.world in ground arith

remove_from-lookups :
    (o : Option Status) (handle : ℕ) (s : Sys)
    → (remove_from o handle s).1.world.lookups ≡ s.world.lookups
unfolding remove_from
remove_from-lookups none handle s = refl
remove_from-lookups (some st) handle s = removed-lookups handle (get_by_handle st.root handle) st s

-- The removal of a watch does not take back its request to the resolver: the lookups that are pending
-- are the same afterwards.
pub os_network_remove_watch_online_status-lookups :
    (handle : ℕ) (s : Sys)
    → (os_network_remove_watch_online_status handle s).1.world.lookups ≡ s.world.lookups
unfolding os_network_remove_watch_online_status
os_network_remove_watch_online_status-lookups handle s = remove_from-lookups s.status handle s
