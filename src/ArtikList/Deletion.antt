-- ===== src/ArtikList/Deletion.antt =====
-- inc/base/artik_list.h: the removals from a list, and what they free.
use artik_sdk.Prelude.{
  ℕ, suc, zero, ◌+◌, ◌≤◌, ◌<◌, ◌≡◌, refl, ◌≢◌, ap, Bool, none, some, List, [], ◌∷◌, ◌++◌, map,
  arith, ◌==◌, if◌then◌else◌, length, get_elem?, take, drop, All, Bool-cases, inl, inr,
}
use artik_sdk.Error.{s_ok, e_bad_args}
use artik_sdk.ArtikList.{
  delete_node, ArtikList, Node, Event, cleared, freed, unlink, unlink_at, dispose, delete_handle,
  delete_pos, delete_check, delete_all, dispose_all, find_first, get_by_handle,
}
use artik_sdk.ArtikList.Lookup.{size_lem}

-- The addresses that a trace frees, and those that it clears, in order.
abbrev pub freed_addrs : List Event → List ℕ
freed_addrs [] = []
freed_addrs (freed a ∷ es) = a ∷ freed_addrs es
freed_addrs (cleared a ∷ es) = freed_addrs es

abbrev pub cleared_addrs : List Event → List ℕ
cleared_addrs [] = []
cleared_addrs (freed a ∷ es) = cleared_addrs es
cleared_addrs (cleared a ∷ es) = a ∷ cleared_addrs es

module _ {D : Type 0} where
  -- The list less the first node that is hit.
  abbrev pub without : (Node D → Bool) → ArtikList D → ArtikList D
  without hit [] = []
  without hit (x ∷ l) = if hit x then l else x ∷ without hit l

  pub unlink-some :
      (hit : Node D → Bool) (l : ArtikList D) (n : Node D)
      → find_first hit l ≡ some n
      → unlink hit l ≡ some (n, without hit l)
  unfolding unlink find_first
  unlink-some hit [] n h = cc
  unlink-some hit (x ∷ l) n h = ground (arith, unlink-some hit l n)

  pub delete_check-found :
      (hit : Node D → Bool) (l : ArtikList D) (n : Node D)
      → find_first hit l ≡ some n
      → delete_check l (some hit) ≡ (s_ok, without hit l, dispose n)
  unfolding delete_check
  delete_check-found hit l n h = rw (unlink-some hit l n h) refl

  pub unlink-none :
      (hit : Node D → Bool) (l : ArtikList D) → find_first hit l ≡ none → unlink hit l ≡ none
  unfolding unlink find_first
  unlink-none hit [] h = refl
  unlink-none hit (x ∷ l) h = ground (arith, unlink-none hit l)

  pub length-without :
      (hit : Node D → Bool) (l : ArtikList D) (n : Node D)
      → find_first hit l ≡ some n
      → length l ≡ length (without hit l) + 1
  unfolding find_first
  length-without hit [] n h = cc
  length-without hit (x ∷ l) n h = ground (arith, length-without hit l n)

  -- No two nodes have one handle.
  abbrev pub IsDistinct : ArtikList D → Type 0
  IsDistinct [] = Unit {0}
  IsDistinct (x ∷ l) = All (λ n. n.handle ≢ x.handle) l × IsDistinct l

  find_first-absent :
      (h : ℕ) (l : ArtikList D)
      → All (λ n. n.handle ≢ h) l
      → find_first (λ n. n.handle == h) l ≡ none
  unfolding find_first
  find_first-absent h [] a = refl
  find_first-absent h (x ∷ l) a = ground (arith, find_first-absent h l a.1)

  find_first-without :
      (h j : ℕ) (l : ArtikList D)
      → IsDistinct l
      → find_first (λ n. n.handle == j) (without (λ n. n.handle == h) l)
        ≡ (if h == j then none else find_first (λ n. n.handle == j) l)
  unfolding find_first
  find_first-without h j [] d = ground arith
  find_first-without h j (x ∷ l) d =
      ground (arith, find_first-without h j l d.1, find_first-absent x.handle l d.0)

  All-without :
      (P : Node D → Type 0) (hit : Node D → Bool) (l : ArtikList D)
      → All P l
      → All P (without hit l)
  All-without P hit [] a = tt
  All-without P hit (x ∷ l) a = ground (arith, All-without P hit l a.1)

  pub without-IsDistinct :
      (hit : Node D → Bool) (l : ArtikList D) → IsDistinct l → IsDistinct (without hit l)
  without-IsDistinct hit [] d = tt
  without-IsDistinct hit (x ∷ l) d =
      ground (arith, without-IsDistinct hit l d.1, All-without (λ n. n.handle ≢ x.handle) hit l d.0)

  -- A handle that is not in the list: E_BAD_ARGS, and nothing is changed or freed.
  pub delete_handle-missing :
      (l : ArtikList D) (h : ℕ) → get_by_handle l h ≡ none → delete_handle l h ≡ (e_bad_args, l, [])
  unfolding delete_handle get_by_handle
  delete_handle-missing [] h e = refl
  delete_handle-missing (x ∷ l) h e = ground (arith, unlink-none (λ n. n.handle == h) (x ∷ l))

  pub delete_handle-length :
      (l : ArtikList D) (h : ℕ) (n : Node D)
      → get_by_handle l h ≡ some n
      → length l ≡ length (delete_handle l h).1 + 1
  unfolding delete_handle get_by_handle
  delete_handle-length [] h n e = absurd (ground arith)
  delete_handle-length (x ∷ l) h n e = ground (
    arith,
    unlink-some (λ m. m.handle == h) (x ∷ l) n,
    length-without (λ m. m.handle == h) (x ∷ l) n,
  )

  -- A handle that is in a list of distinct handles: its node is cleared and freed, the list is one
  -- shorter and still distinct, the handle finds nothing any more, and every other handle finds
  -- what it found before.
  pub delete_handle-found :
      (l : ArtikList D) (h : ℕ) (n : Node D)
      → IsDistinct l
      → get_by_handle l h ≡ some n
      → (l' : ArtikList D) × (delete_handle l h ≡ (s_ok, l', dispose n))
        × (length l ≡ length l' + 1)
        × IsDistinct l'
        × ((j : ℕ) → get_by_handle l' j ≡ (if h == j then none else get_by_handle l j))
  unfolding delete_handle get_by_handle
  delete_handle-found [] h n d e = absurd (ground arith)
  delete_handle-found (x ∷ l) h n d e = (
    without (λ m. m.handle == h) (x ∷ l),
    ground (arith, unlink-some (λ m. m.handle == h) (x ∷ l) n),
    ground (arith, length-without (λ m. m.handle == h) (x ∷ l) n),
    without-IsDistinct (λ m. m.handle == h) (x ∷ l) d,
    λ j. ground (arith, find_first-without h j (x ∷ l) d),
  )

  unlink_at-some :
      (l : ArtikList D) (pos : ℕ) (n : Node D)
      → get_elem? l pos ≡ some n
      → unlink_at l pos ≡ some (n, take pos l ++ drop (suc pos) l)
  unfolding unlink_at
  unlink_at-some [] pos n h = cc
  unlink_at-some (x ∷ l) zero n h = ground arith
  unlink_at-some (x ∷ l) (suc pos) n h = ground (arith, unlink_at-some l pos n h)

  get_elem?-lt :
      (l : ArtikList D) (pos : ℕ) (n : Node D) → get_elem? l pos ≡ some n → pos < length l
  get_elem?-lt [] pos n h = cc
  get_elem?-lt (x ∷ l) zero n h = omega arith
  get_elem?-lt (x ∷ l) (suc pos) n h = omega (arith, get_elem?-lt l pos n h)

  -- Where there is an element at `pos`, `artik_list_delete_pos` takes out and disposes of
  -- exactly that one.
  pub delete_pos-found :
      (l : ArtikList D) (pos : ℕ) (n : Node D)
      → get_elem? l pos ≡ some n
      → delete_pos l pos ≡ (s_ok, take pos l ++ drop (suc pos) l, dispose n)
  unfolding delete_pos
  delete_pos-found [] pos n h = cc
  delete_pos-found (x ∷ l) pos n h =
      ground (arith, size_lem (x ∷ l), get_elem?-lt (x ∷ l) pos n h, unlink_at-some (x ∷ l) pos n h)

  -- Past the end: E_BAD_ARGS, and nothing is changed or freed.
  pub delete_pos-past :
      (l : ArtikList D) (pos : ℕ) → length l ≤ pos → delete_pos l pos ≡ (e_bad_args, l, [])
  unfolding delete_pos
  delete_pos-past [] pos h = refl
  delete_pos-past (x ∷ l) pos h = ground (arith, size_lem (x ∷ l))

  abbrev pub clearable : ArtikList D → List ℕ
  clearable [] = []
  clearable (n ∷ l) = if n.clear then n.addr ∷ clearable l else clearable l

  freed_addrs-dispose_all : (l : ArtikList D) → freed_addrs (dispose_all l) ≡ map (λ n. n.addr) l
  unfolding dispose_all
  freed_addrs-dispose_all [] = refl
  freed_addrs-dispose_all (x ∷ l) = elim (Bool-cases x.clear) [
    | inl e ↦ rw e (ap (◌∷◌ x.addr) (freed_addrs-dispose_all l))
    | inr e ↦ rw e (ap (◌∷◌ x.addr) (freed_addrs-dispose_all l))
  ]

  cleared_addrs-dispose_all : (l : ArtikList D) → cleared_addrs (dispose_all l) ≡ clearable l
  unfolding dispose_all
  cleared_addrs-dispose_all [] = refl
  cleared_addrs-dispose_all (x ∷ l) = elim (Bool-cases x.clear) [
    | inl e ↦ rw e (ap (◌∷◌ x.addr) (cleared_addrs-dispose_all l))
    | inr e ↦ rw e (cleared_addrs-dispose_all l)
  ]

  -- `artik_list_delete_all` of a list with a node empties it, frees every node once and in the
  -- order of the list, and calls `clear` for exactly the nodes that have the callback.
  pub delete_all_lem :
      (x : Node D) (l : ArtikList D)
      → let (err, l', events) = delete_all (x ∷ l) in
        (err ≡ s_ok)
        × (l' ≡ [])
        × (freed_addrs events ≡ map (λ n. n.addr) (x ∷ l))
        × (cleared_addrs events ≡ clearable (x ∷ l))
  unfolding delete_all
  delete_all_lem x l =
      (refl, refl, freed_addrs-dispose_all (x ∷ l), cleared_addrs-dispose_all (x ∷ l))

  -- A last node whose address no other has.
  pub find_first-last :
      (p : ℕ) (l : ArtikList D) (n : Node D)
      → n.addr ≡ p
      → All (λ m. m.addr ≢ p) l
      → find_first (λ m. m.addr == p) (l ++ n ∷ []) ≡ some n
  unfolding find_first
  find_first-last p [] n h fr = ground arith
  find_first-last p (x ∷ l) n h fr = ground (arith, find_first-last p l n h fr.1)

  pub without-last :
      (p : ℕ) (l : ArtikList D) (n : Node D)
      → n.addr ≡ p
      → All (λ m. m.addr ≢ p) l
      → without (λ m. m.addr == p) (l ++ n ∷ []) ≡ l
  without-last p [] n h fr = ground arith
  without-last p (x ∷ l) n h fr = ground (arith, without-last p l n h fr.1)

  pub delete_node-hit :
      (p : ℕ) (l : ArtikList D) (n : Node D)
      → p ≢ 0
      → find_first (λ m. m.addr == p) l ≡ some n
      → delete_node l p ≡ (s_ok, without (λ m. m.addr == p) l, dispose n)
  unfolding delete_node find_first
  delete_node-hit p [] n h e = cc
  delete_node-hit p (x ∷ l) n h e = ground (arith, unlink-some (λ m. m.addr == p) (x ∷ l) n)
