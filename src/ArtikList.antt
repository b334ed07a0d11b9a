-- ===== src/ArtikList.antt =====
-- inc/base/artik_list.h: the generic linked list of the SDK. A list is the chain of its nodes, in
-- the order of `next`; a node keeps the address at which `malloc` put it, and 0 is NULL.
pub mod Lookup
pub mod Deletion
pub mod Copy
pub mod Store
mod Tests
use artik_sdk.Prelude.{
  ℕ, ◌+◌, zero, suc, Bool, false, Option, none, some, List, [], ◌∷◌, ◌++◌, ltb, leb, ◌==◌,
  if◌then◌else◌,
}
use artik_sdk.Error.{ArtikError, s_ok, e_bad_args}

-- `struct artik_list` with the payload `data` behind it. `clear` and `copy` are its callbacks: what
-- `copy dest src` leaves in the payload of `dest`, and whether `clear` is set.
pub record Node (D : Type 0) : Type 0 where
  pub addr : ℕ
  pub handle : ℕ
  pub size_data : ℕ
  pub clear : Bool
  pub copy : Option (D → D → D)
  pub payload : D

abbrev pub ArtikList : Type 0 → Type 0
ArtikList D = List (Node D)

-- What a removal does to a node that has left the list.
pub data Event : Type 0 where
  cleared freed : ℕ → Event

-- `sizeof(artik_list)` where a pointer has eight bytes.
abbrev pub sizeof_artik_list : ℕ
sizeof_artik_list = 48

module _ {D : Type 0} where
  -- The walk to the last node, and the link behind it.
  unfoldable pub link_last : ArtikList D → Node D → ArtikList D
  link_last [] elem = elem ∷ []
  link_last (x ∷ rest) elem = x ∷ link_last rest elem

  -- A node as `memset` and the last lines of `artik_list_add` leave it; `blank` is the zeroed payload.
  unfoldable pub new_node : ℕ → D → ℕ → ℕ → Node D
  new_node p blank handle size_of_node = record {
    addr = p;
    handle = if handle == 0 then p else handle;
    size_data = size_of_node;
    clear = false;
    copy = none;
    payload = blank;
  }

  -- `malloc` is what that call returns, `none` for NULL.
  unfoldable pub add : ArtikList D → ℕ → ℕ → Option ℕ → D → Option (Node D) × ArtikList D
  unfolding link_last new_node
  add list handle size_of_node malloc blank =
      if ltb size_of_node sizeof_artik_list then (none, list) else elim malloc [
        | none ↦ (none, list)
        | some p ↦ (
          some (new_node p blank handle size_of_node),
          link_last list (new_node p blank handle size_of_node),
        )
      ]

  -- `artik_list_size`: the loop with its counter.
  size_from : ℕ → ArtikList D → ℕ
  size_from res [] = res
  size_from res (elem ∷ rest) = size_from (res + 1) rest

  pub size : ArtikList D → ℕ
  unfolding size_from
  size list = size_from 0 list

  -- The walk with `prev` and `elem` to the first node that is hit, and its removal from the chain.
  unfoldable pub unlink : (Node D → Bool) → ArtikList D → Option (Node D × ArtikList D)
  unlink hit [] = none
  unlink hit (elem ∷ rest) =
      let found = unlink hit rest in
      if hit elem
      then some (elem, rest)
      else elim found [ none ↦ none | some (n, rest') ↦ some (n, elem ∷ rest') ]

  -- `clear` if the node has one, then `free`.
  abbrev pub dispose : Node D → List Event
  dispose n = if n.clear then cleared n.addr ∷ freed n.addr ∷ [] else freed n.addr ∷ []

  abbrev finish :
      ArtikList D → Option (Node D × ArtikList D) → ArtikError × ArtikList D × List Event
  finish list none = (e_bad_args, list, [])
  finish list (some (n, rest)) = (s_ok, rest, dispose n)

  pub delete_node : ArtikList D → ℕ → ArtikError × ArtikList D × List Event
  unfolding unlink
  delete_node [] node = (e_bad_args, [], [])
  delete_node (x ∷ rest) node =
      if node == 0
      then (e_bad_args, x ∷ rest, [])
      else finish (x ∷ rest) (unlink (λ n. n.addr == node) (x ∷ rest))

  pub delete_handle : ArtikList D → ℕ → ArtikError × ArtikList D × List Event
  unfolding unlink
  delete_handle [] handle = (e_bad_args, [], [])
  delete_handle (x ∷ rest) handle =
      if handle == 0
      then (e_bad_args, x ∷ rest, [])
      else finish (x ∷ rest) (unlink (λ n. n.handle == handle) (x ∷ rest))

  -- The walk that counts `pos` down.
  pub unlink_at : ArtikList D → ℕ → Option (Node D × ArtikList D)
  unlink_at [] pos = none
  unlink_at (elem ∷ rest) zero = some (elem, rest)
  unlink_at (elem ∷ rest) (suc pos) = elim (unlink_at rest pos) [
    | none ↦ none
    | some (n, rest') ↦ some (n, elem ∷ rest')
  ]

  pub delete_pos : ArtikList D → ℕ → ArtikError × ArtikList D × List Event
  unfolding unlink_at size
  delete_pos [] pos = (e_bad_args, [], [])
  delete_pos (x ∷ rest) pos =
      if leb (size (x ∷ rest)) pos
      then (e_bad_args, x ∷ rest, [])
      else finish (x ∷ rest) (unlink_at (x ∷ rest) pos)

  -- `check_func` with its parameter filled in; `none` is NULL.
  unfoldable pub delete_check :
      ArtikList D → Option (Node D → Bool) → ArtikError × ArtikList D × List Event
  unfolding unlink
  delete_check list none = (e_bad_args, list, [])
  delete_check list (some check_func) = finish list (unlink check_func list)

  -- The loop takes the head off, then disposes of it.
  dispose_all : ArtikList D → List Event
  dispose_all [] = []
  dispose_all (elem ∷ rest) = dispose elem ++ dispose_all rest

  pub delete_all : ArtikList D → ArtikError × ArtikList D × List Event
  unfolding dispose_all
  delete_all [] = (e_bad_args, [], [])
  delete_all (x ∷ rest) = (s_ok, [], dispose_all (x ∷ rest))

  -- The walk to the first node that is hit.
  unfoldable pub find_first : (Node D → Bool) → ArtikList D → Option (Node D)
  find_first hit [] = none
  find_first hit (elem ∷ rest) = if hit elem then some elem else find_first hit rest

  unfoldable pub get_by_handle : ArtikList D → ℕ → Option (Node D)
  unfolding find_first
  get_by_handle list handle =
      if handle == 0 then none else find_first (λ n. n.handle == handle) list

  unfoldable pub get_by_check : ArtikList D → Option (Node D → Bool) → Option (Node D)
  unfolding find_first
  get_by_check list none = none
  get_by_check list (some check_func) = find_first check_func list

  walk : ArtikList D → ℕ → Option (Node D)
  walk [] pos = none
  walk (elem ∷ rest) zero = some elem
  walk (elem ∷ rest) (suc pos) = walk rest pos

  pub get_by_pos : ArtikList D → ℕ → Option (Node D)
  unfolding walk size
  get_by_pos list pos = if leb (size list) pos then none else walk list pos

  pub list_end : ArtikList D → Option (Node D)
  list_end [] = none
  list_end (elem ∷ []) = some elem
  list_end (elem ∷ x ∷ rest) = list_end (x ∷ rest)

  -- What a round of `artik_list_cpy` leaves at address `p`: the bytes of `elem`, then its callback.
  pub copied : ℕ → Node D → Node D
  copied p elem = record elem {
    addr = p;
    payload = elim elem.copy [ none ↦ elem.payload | some f ↦ f elem.payload elem.payload ];
  }

  -- The rounds of `artik_list_cpy`; `mallocs` are the results of the calls of `malloc` in turn.
  -- `none` is the fault of `memcpy` through the NULL that `artik_list_add` returns.
  pub cpy_loop : ArtikList D → ArtikList D → List (Option ℕ) → Option (ArtikList D)
  unfolding link_last copied
  cpy_loop [] dest mallocs = some dest
  cpy_loop (elem ∷ rest) dest [] = none
  cpy_loop (elem ∷ rest) dest (none ∷ ms) = none
  cpy_loop (elem ∷ rest) dest (some p ∷ ms) =
      let next = cpy_loop rest (link_last dest (copied p elem)) ms in
      if ltb elem.size_data sizeof_artik_list then none else next

  -- `dest` is `none` for a NULL pointer, and the list behind the pointer otherwise.
  pub cpy :
      ArtikList D
      → Option (ArtikList D)
      → List (Option ℕ)
      → Option (ArtikError × Option (ArtikList D))
  unfolding cpy_loop
  cpy [] dest mallocs = some (e_bad_args, dest)
  cpy (x ∷ rest) none mallocs = some (e_bad_args, none)
  cpy (x ∷ rest) (some (y ∷ d)) mallocs = some (e_bad_args, some (y ∷ d))
  cpy (x ∷ rest) (some []) mallocs = elim (cpy_loop (x ∷ rest) [] mallocs) [
    | none ↦ none
    | some d ↦ some (s_ok, some d)
  ]
