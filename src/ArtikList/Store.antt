-- ===== src/ArtikList/Store.antt =====
-- inc/base/artik_list.h: a write of the client through the pointer to a node.
use artik_sdk.Prelude.{ℕ, ◌≡◌, ◌≢◌, [], ◌∷◌, ◌++◌, arith, All, ◌==◌, if◌then◌else◌}
use artik_sdk.ArtikList.{ArtikList, Node}

module _ {C : Type 0} where
  -- A write through the pointer to the node at `p`.
  abbrev pub store : ℕ → (Node C → Node C) → ArtikList C → ArtikList C
  store p f [] = []
  store p f (n ∷ l) = if n.addr == p then f n ∷ l else n ∷ store p f l

  -- `p` is no address of the list: what `malloc` promises of a new block.
  abbrev pub IsFresh : ℕ → ArtikList C → Type 0
  IsFresh p = All (λ n. n.addr ≢ p)

  pub append-IsFresh :
      (p : ℕ) (l : ArtikList C) (n : Node C) → n.addr ≢ p → IsFresh p l → IsFresh p (l ++ n ∷ [])
  append-IsFresh p [] n h f = (h, tt)
  append-IsFresh p (x ∷ l) n h f = (f.0, append-IsFresh p l n h f.1)

  pub store-append :
      (p : ℕ) (f : Node C → Node C) (l : ArtikList C) (n : Node C)
      → n.addr ≡ p
      → IsFresh p l
      → store p f (l ++ n ∷ []) ≡ l ++ f n ∷ []
  store-append p f [] n h fr = ground arith
  store-append p f (x ∷ l) n h fr = ground (arith, store-append p f l n h fr.1)
