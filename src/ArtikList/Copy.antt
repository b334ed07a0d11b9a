-- ===== src/ArtikList/Copy.antt =====
-- inc/base/artik_list.h: `artik_list_cpy`.
use artik_sdk.Prelude.{
  ℕ, ◌≤◌, ◌<◌, ◌≡◌, refl, ap, ◌∙◌, sym, Option, none, some, List, [], ◌∷◌, ◌++◌, map, arith, length,
  All, append_assoc, append-nil, le→ltb,
}
use artik_sdk.Error.{s_ok}
use artik_sdk.ArtikList.{ArtikList, Node, sizeof_artik_list, link_last, copied, cpy_loop, cpy}
use artik_sdk.ArtikList.Lookup.{link_last_lem}

module _ {D : Type 0} where
  -- Each node copied to the address beside it.
  abbrev pub copies : ArtikList D → List ℕ → ArtikList D
  copies [] ps = []
  copies (x ∷ l) [] = []
  copies (x ∷ l) (p ∷ ps) = copied p x ∷ copies l ps

  -- The sizes that `artik_list_add` wrote.
  abbrev pub IsSized : ArtikList D → Type 0
  IsSized = All (λ n. sizeof_artik_list ≤ n.size_data)

  cpy_loop_lem :
      (l dest : ArtikList D) (ps : List ℕ)
      → IsSized l
      → length ps ≡ length l
      → cpy_loop l dest (map some ps) ≡ some (dest ++ copies l ps)
  unfolding cpy_loop
  cpy_loop_lem [] dest ps s h = ap some (sym (append-nil dest))
  cpy_loop_lem (x ∷ l) dest [] s h = absurd (omega arith)
  cpy_loop_lem (x ∷ l) dest (p ∷ ps) s h = rw (le→ltb x.size_data sizeof_artik_list s.0) (
      cpy_loop_lem l (link_last dest (copied p x)) ps s.1 (omega arith)
      ∙ ap some (
          ap (λ (d : ArtikList D). d ++ copies l ps) (link_last_lem dest (copied p x))
          ∙ append_assoc dest (copied p x ∷ []) (copies l ps)))

  -- With memory for every node, a copy into an empty list succeeds and yields the nodes in order,
  -- each at its new address with the handle, the size and the callbacks of its original and the
  -- payload that its `copy` callback makes.
  pub cpy_lem :
      (x : Node D) (l : ArtikList D) (ps : List ℕ)
      → IsSized (x ∷ l)
      → length ps ≡ length (x ∷ l)
      → cpy (x ∷ l) (some []) (map some ps) ≡ some (s_ok, some (copies (x ∷ l) ps))
  unfolding cpy
  cpy_lem x l ps s h = rw (cpy_loop_lem (x ∷ l) [] ps s h, cpy)

  -- When one of the allocations fails, before as many nodes as the list has are copied, the copy
  -- faults: `artik_list_cpy` does not look at what `artik_list_add` returns.
  cpy_loop-fault :
      (l dest : ArtikList D) (ps : List ℕ) (ms : List (Option ℕ))
      → length ps < length l
      → cpy_loop l dest (map some ps ++ none ∷ ms) ≡ none
  unfolding cpy_loop
  cpy_loop-fault [] dest ps ms h = absurd (omega arith)
  cpy_loop-fault (x ∷ l) dest [] ms h = refl
  cpy_loop-fault (x ∷ l) dest (p ∷ ps) ms h =
      ground (arith, cpy_loop-fault l (link_last dest (copied p x)) ps ms)

  -- A list of which some node cannot be allocated, though those before it can, is not copied and
  -- not reported as E_NO_MEM: the function writes through NULL.
  pub cpy-fault :
      (l : ArtikList D) (ps : List ℕ) (ms : List (Option ℕ))
      → length ps < length l
      → cpy l (some []) (map some ps ++ none ∷ ms) ≡ none
  unfolding cpy
  cpy-fault [] ps ms h = absurd (omega arith)
  cpy-fault (x ∷ l) ps ms h = rw (cpy_loop-fault (x ∷ l) [] ps ms h, cpy)
