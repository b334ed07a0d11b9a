-- ===== src/SystemIo/Handles/Invariant.antt =====
-- The invariant of `requested_node`: a handle is the address of its node, no two nodes share one,
-- and none is NULL.
use artik_sdk.Prelude.{ℕ, ◌≡◌, ◌≢◌, [], ◌∷◌, ◌++◌, arith, sym}
use artik_sdk.ArtikList.{ArtikList, Node, delete_node}
use artik_sdk.ArtikList.Deletion.{find_first-last, without-last, delete_node-hit}
use artik_sdk.ArtikList.Store.{IsFresh, append-IsFresh}

module _ {C : Type 0} where
  -- A node whose handle is its address.
  abbrev pub IsOwn : Node C → Type 0
  IsOwn n = (n.handle ≡ n.addr) × (n.addr ≢ 0)

  abbrev pub IsTable : ArtikList C → Type 0
  IsTable [] = Unit {0}
  IsTable (x ∷ l) = IsOwn x × IsFresh x.addr l × IsTable l

  pub append-IsTable :
      (l : ArtikList C) (n : Node C)
      → IsOwn n
      → IsFresh n.addr l
      → IsTable l
      → IsTable (l ++ n ∷ [])
  append-IsTable [] n o f t = (o, tt, tt)
  append-IsTable (x ∷ l) n o f t =
      (t.0, append-IsFresh x.addr l n (λ e. f.0 (sym e)) t.1, append-IsTable l n o f.1 t.2)

  -- The node that was just added is taken out again.
  pub delete_node-append :
      (p : ℕ) (l : ArtikList C) (n : Node C)
      → p ≢ 0
      → n.addr ≡ p
      → IsFresh p l
      → (delete_node (l ++ n ∷ []) p).1 ≡ l
  delete_node-append p l n hp h fr = ground (
    arith,
    find_first-last p l n h fr,
    without-last p l n h fr,
    delete_node-hit p (l ++ n ∷ []) n hp,
  )
