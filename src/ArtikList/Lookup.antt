-- ===== src/ArtikList/Lookup.antt =====
-- inc/base/artik_list.h: what the searches of a list find, and how `artik_list_add` changes it.
use artik_sdk.Prelude.{
  ℕ, suc, zero, ◌+◌, ◌≤◌, ◌≡◌, refl, ◌≢◌, ap, Bool, false, none, some, [], ◌∷◌, ◌++◌, arith, ◌==◌,
  if◌then◌else◌, length, get_elem?,
}
use artik_sdk.ArtikList.{
  ArtikList, Node, sizeof_artik_list, link_last, new_node, add, size_from, size, find_first,
  get_by_handle, walk, get_by_pos,
}

module _ {D : Type 0} where
  pub link_last_lem : (l : ArtikList D) (n : Node D) → link_last l n ≡ l ++ n ∷ []
  unfolding link_last
  link_last_lem [] n = refl
  link_last_lem (x ∷ l) n = ap (◌∷◌ x) (link_last_lem l n)

  pub add_lem :
      (l : ArtikList D) (handle bytes p : ℕ) (blank : D)
      → sizeof_artik_list ≤ bytes
      → add l handle bytes (some p) blank
        ≡ (some (new_node p blank handle bytes), l ++ new_node p blank handle bytes ∷ [])
  unfolding add
  add_lem l handle bytes p blank h = ground (arith, link_last_lem l (new_node p blank handle bytes))

  pub add-none :
      (l : ArtikList D) (handle bytes : ℕ) (blank : D) → add l handle bytes none blank ≡ (none, l)
  unfolding add
  add-none l handle bytes blank = ground arith

  pub find_first-append :
      (hit : Node D → Bool) (l : ArtikList D) (n : Node D)
      → find_first hit l ≡ none
      → find_first hit (l ++ n ∷ []) ≡ (if hit n then some n else none)
  unfolding find_first
  find_first-append hit [] n h = refl
  find_first-append hit (x ∷ l) n h = ground (arith, find_first-append hit l n)

  pub find_first-append_none :
      (hit : Node D → Bool) (l : ArtikList D) (n : Node D)
      → hit n ≡ false
      → find_first hit (l ++ n ∷ []) ≡ find_first hit l
  unfolding find_first
  find_first-append_none hit [] n h = ground arith
  find_first-append_none hit (x ∷ l) n h = ground (arith, find_first-append_none hit l n)

  -- An element is added under the given handle, or under its own address where that is 0. If no
  -- node had that handle, looking it up afterwards finds the new element, and every other handle
  -- finds what it found before.
  pub get_by_handle-add :
      (l l' : ArtikList D) (handle bytes p : ℕ) (blank : D) (elem : Node D)
      → p ≢ 0
      → add l handle bytes (some p) blank ≡ (some elem, l')
      → get_by_handle l (if handle == 0 then p else handle) ≡ none
      → (j : ℕ)
      → get_by_handle l' j
        ≡ (if (if handle == 0 then p else handle) == j then some elem else get_by_handle l j)
  unfolding add get_by_handle new_node
  get_by_handle-add l l' handle bytes p blank elem hp e fresh j =
      let k : ℕ = if handle == 0 then p else handle in
      let n : Node D = new_node p blank handle bytes in
      ground (
        arith,
        link_last_lem l n,
        find_first-append (λ m. m.handle == j) l n,
        find_first-append_none (λ m. m.handle == j) l n,
      )

  size_from_lem : (res : ℕ) (l : ArtikList D) → size_from res l ≡ res + length l
  unfolding size_from
  size_from_lem res [] = omega arith
  size_from_lem res (x ∷ l) = omega (arith, size_from_lem (res + 1) l)

  pub size_lem : (l : ArtikList D) → size l ≡ length l
  unfolding size
  size_lem l = omega (arith, size_from_lem 0 l)

  walk_lem : (l : ArtikList D) (pos : ℕ) → walk l pos ≡ get_elem? l pos
  unfolding walk
  walk_lem [] pos = refl
  walk_lem (x ∷ l) zero = refl
  walk_lem (x ∷ l) (suc pos) = walk_lem l pos

  get_elem?-past : (l : ArtikList D) (pos : ℕ) → length l ≤ pos → get_elem? l pos ≡ none
  get_elem?-past [] pos h = refl
  get_elem?-past (x ∷ l) zero h = absurd (omega arith)
  get_elem?-past (x ∷ l) (suc pos) h = get_elem?-past l pos (omega arith)

  -- `artik_list_get_by_pos` is indexing, and NULL at and past the end.
  pub get_by_pos_lem : (l : ArtikList D) (pos : ℕ) → get_by_pos l pos ≡ get_elem? l pos
  unfolding get_by_pos
  get_by_pos_lem l pos = ground (arith, size_lem l, walk_lem l pos, get_elem?-past l pos)
