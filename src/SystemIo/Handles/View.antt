-- ===== src/SystemIo/Handles/View.antt =====
-- The open handles of a `requested_node` list, and what writes and removals do to them.
use artik_sdk.Prelude.{ℕ, ◌≡◌, refl, ◌≢◌, none, some, [], ◌∷◌, ◌++◌, ◌==◌, ap, arith}
use artik_sdk.ArtikList.{ArtikList, Node, find_first}
use artik_sdk.ArtikList.Deletion.{without}
use artik_sdk.ArtikList.Store.{store}
use artik_sdk.SystemIo.Handles.Spec.{Table, lookup, remove, replace}
use artik_sdk.ArtikList.Store.{IsFresh}
use artik_sdk.SystemIo.Handles.Invariant.{IsTable}

module _ {C : Type 0} where
  -- The open handles of a list with their configurations.
  abbrev pub view : ArtikList C → Table C
  view [] = []
  view (n ∷ l) = (n.handle, n.payload) ∷ view l

  pub view-append :
      (l : ArtikList C) (n : Node C) → view (l ++ n ∷ []) ≡ view l ++ (n.handle, n.payload) ∷ []
  view-append [] n = refl
  view-append (x ∷ l) n = ap (◌∷◌ (x.handle, x.payload)) (view-append l n)

  pub lookup-find :
      (l : ArtikList C) (h : ℕ) (n : Node C)
      → find_first (λ x. x.handle == h) l ≡ some n
      → lookup (view l) h ≡ some n.payload
  unfolding find_first
  lookup-find [] h n e = cc
  lookup-find (x ∷ l) h n e = ground (arith, lookup-find l h n)

  pub lookup-find_none :
      (l : ArtikList C) (h : ℕ)
      → find_first (λ x. x.handle == h) l ≡ none
      → lookup (view l) h ≡ none
  unfolding find_first
  lookup-find_none [] h e = refl
  lookup-find_none (x ∷ l) h e = ground (arith, lookup-find_none l h)

  pub lookup-null : (l : ArtikList C) → IsTable l → lookup (view l) 0 ≡ none
  lookup-null [] t = refl
  lookup-null (x ∷ l) t = ground (arith, lookup-null l t.2)

  -- The handle under which a node is found is its address.
  pub find_first-addr :
      (l : ArtikList C) (h : ℕ) (n : Node C)
      → IsTable l
      → find_first (λ x. x.handle == h) l ≡ some n
      → (n.addr ≡ h) × (n.addr ≢ 0)
  unfolding find_first
  find_first-addr [] h n t e = absurd (ground arith)
  find_first-addr (x ∷ l) h n t e = ground (arith, find_first-addr l h n t.2)

  abbrev pub put_config : C → Node C → Node C
  put_config c n = record n { payload = c }

  pub view-store :
      (l : ArtikList C) (h : ℕ) (c : C)
      → IsTable l
      → view (store h (put_config c) l) ≡ replace (view l) h c
  view-store [] h c t = refl
  view-store (x ∷ l) h c t = ground (arith, view-store l h c t.2)

  pub find_first-store :
      (l : ArtikList C) (h : ℕ) (c : C) (n : Node C)
      → IsTable l
      → find_first (λ x. x.handle == h) l ≡ some n
      → find_first (λ x. x.addr == h) (store h (put_config c) l) ≡ some (put_config c n)
  unfolding find_first
  find_first-store [] h c n t e = cc
  find_first-store (x ∷ l) h c n t e = ground (arith, find_first-store l h c n t.2)

  pub view-without :
      (l : ArtikList C) (h : ℕ) (c : C)
      → IsTable l
      → view (without (λ x. x.addr == h) (store h (put_config c) l)) ≡ remove (view l) h
  view-without [] h c t = refl
  view-without (x ∷ l) h c t = ground (arith, view-without l h c t.2)

  pub store-IsFresh :
      (p h : ℕ) (c : C) (l : ArtikList C) → IsFresh p l → IsFresh p (store h (put_config c) l)
  store-IsFresh p h c [] f = tt
  store-IsFresh p h c (x ∷ l) f = ground (arith, store-IsFresh p h c l f.1)

  pub store-IsTable :
      (h : ℕ) (c : C) (l : ArtikList C) → IsTable l → IsTable (store h (put_config c) l)
  store-IsTable h c [] t = tt
  store-IsTable h c (x ∷ l) t =
      ground (arith, store-IsTable h c l t.2, store-IsFresh x.addr h c l t.1)

  pub without-IsFresh :
      (p h : ℕ) (l : ArtikList C) → IsFresh p l → IsFresh p (without (λ x. x.addr == h) l)
  without-IsFresh p h [] f = tt
  without-IsFresh p h (x ∷ l) f = ground (arith, without-IsFresh p h l f.1)

  pub without-IsTable :
      (h : ℕ) (l : ArtikList C) → IsTable l → IsTable (without (λ x. x.addr == h) l)
  without-IsTable h [] t = tt
  without-IsTable h (x ∷ l) t =
      ground (arith, without-IsTable h l t.2, without-IsFresh x.addr h l t.1)
