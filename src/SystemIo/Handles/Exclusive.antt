-- ===== src/SystemIo/Handles/Exclusive.antt =====
-- Open handles that are in each other's way, and sequences of calls of a module.
use artik_sdk.Prelude.{
  ℕ, ◌≡◌, refl, ◌≢◌, false, Option, none, some, [], ◌∷◌, ◌++◌, sym, subst, arith, Bool-cases,
  Option-cases, inl, inr,
}
use artik_sdk.Error.{ArtikError, is_ok}
use artik_sdk.SystemIo.Handles.{State, Frontend, request, release}
use artik_sdk.SystemIo.Handles.Spec.{
  Table, is_taken, lookup, remove, replace, opened, request_spec, closed, release_spec,
}
use artik_sdk.ArtikList.Store.{IsFresh}
use artik_sdk.SystemIo.Handles.Invariant.{IsTable}
use artik_sdk.SystemIo.Handles.View.{view}
use artik_sdk.SystemIo.Handles.Refine.{
  request_refines, release_refines, request-IsTable, release-IsTable, request-none,
}

module _ {C W : Type 0} (m : Frontend C W) where
  -- What the `os_` layer leaves alone: `check_exist` answers as before it.
  pub record KeepsKey : Type 0 where
    pub on_request :
        (x c : C) (w : W) → m.check_exist x (m.driver.request c w).1 ≡ m.check_exist x c
    pub on_release_left :
        (x c : C) (w : W) → m.check_exist x (m.driver.release c w).1 ≡ m.check_exist x c
    pub on_release_right :
        (x c : C) (w : W) → m.check_exist (m.driver.release c w).1 x ≡ m.check_exist c x

  -- `x` is in the way of no configuration of the table.
  abbrev pub IsApart : C → Table C → Type 0
  IsApart x [] = Unit {0}
  IsApart x ((h, c) ∷ t) = (m.check_exist x c ≡ false) × IsApart x t

  abbrev pub IsExclusive : Table C → Type 0
  IsExclusive [] = Unit {0}
  IsExclusive ((h, c) ∷ t) = IsApart c t × IsExclusive t

  append-IsApart :
      (x : C) (t : Table C) (h : ℕ) (c : C)
      → IsApart x t
      → m.check_exist x c ≡ false
      → IsApart x (t ++ (h, c) ∷ [])
  append-IsApart x [] h c a e = (e, tt)
  append-IsApart x ((j, d) ∷ t) h c a e = (a.0, append-IsApart x t h c a.1 e)

  append-IsExclusive :
      (t : Table C) (h : ℕ) (c : C)
      → IsExclusive t
      → is_taken m t c ≡ false
      → IsExclusive (t ++ (h, c) ∷ [])
  append-IsExclusive [] h c x e = (tt, tt)
  append-IsExclusive ((j, d) ∷ t) h c x e =
      (append-IsApart d t h c x.0 (ground arith), append-IsExclusive t h c x.1 (ground arith))

  remove-IsApart : (x : C) (t : Table C) (h : ℕ) → IsApart x t → IsApart x (remove t h)
  remove-IsApart x [] h a = tt
  remove-IsApart x ((j, d) ∷ t) h a = ground (arith, remove-IsApart x t h a.1)

  remove-IsExclusive : (t : Table C) (h : ℕ) → IsExclusive t → IsExclusive (remove t h)
  remove-IsExclusive [] h x = tt
  remove-IsExclusive ((j, d) ∷ t) h x =
      ground (arith, remove-IsExclusive t h x.1, remove-IsApart d t h x.0)

  -- A call of the module: `malloc` gives a request a new block or none.
  pub data Step : State C W → State C W → Type 0 where
    requested :
        (st : State C W) (c : C) (p : ℕ)
        → p ≢ 0
        → IsFresh p st.requested_node
        → Step st (request m st c (some p)).2
    refused : (st : State C W) (c : C) → Step st (request m st c none).2
    released : (st : State C W) (h : ℕ) → Step st (release m st h).1

  pub data Reach (s : State C W) : State C W → Type 0 where
    here : Reach s s
    next : {t u : State C W} → Reach s t → Step t u → Reach s u

  -- A handle table whose entries are apart.
  pub record IsSound (st : State C W) : Type 0 where
    pub table : IsTable st.requested_node
    pub apart : IsExclusive (view st.requested_node)

  module _ (keeps : KeepsKey) where
    is_taken-request :
        (t : Table C) (c : C) (w : W) → is_taken m t (m.driver.request c w).1 ≡ is_taken m t c
    is_taken-request [] c w = refl
    is_taken-request ((j, d) ∷ t) c w =
        ground (arith, keeps.on_request d c w, is_taken-request t c w)

    opened-IsExclusive :
        (t : Table C) (p : ℕ) (r : ArtikError × C × W)
        → IsExclusive t
        → is_taken m t r.1 ≡ false
        → IsExclusive (opened m t p r).2
    opened-IsExclusive t p (err, c, w) x e = elim (Bool-cases (is_ok err)) [
      | inl ok ↦ rw ok (append-IsExclusive t p c x e)
      | inr bad ↦ rw bad x
    ]

    request_spec-IsExclusive :
        (t : Table C) (w : W) (c : C) (p : ℕ)
        → IsExclusive t
        → IsExclusive (request_spec m t w c p).2
    request_spec-IsExclusive t w c p x = elim (Bool-cases (is_taken m t c)) [
      | inl e ↦ rw (e, request_spec) x
      | inr e ↦
          rw (e, request_spec)
            (opened-IsExclusive t p (m.driver.request c w) x (rw (is_taken-request t c w) e))
    ]

    -- What the driver leaves of the configuration at `h`.
    module _ (w : W) where
      abbrev after : C → C
      after c = (m.driver.release c w).1

      replace-IsApart :
          (x : C) (t : Table C) (h : ℕ) (c : C)
          → lookup t h ≡ some c
          → IsApart x t
          → IsApart x (replace t h (after c))
      replace-IsApart x [] h c e a = tt
      replace-IsApart x ((j, d) ∷ t) h c e a =
          ground (arith, keeps.on_release_left x c w, replace-IsApart x t h c)

      after-IsApart : (c : C) (t : Table C) → IsApart c t → IsApart (after c) t
      after-IsApart c [] a = tt
      after-IsApart c ((j, d) ∷ t) a =
          ground (arith, keeps.on_release_right d c w, after-IsApart c t a.1)

      replace-IsExclusive :
          (t : Table C) (h : ℕ) (c : C)
          → lookup t h ≡ some c
          → IsExclusive t
          → IsExclusive (replace t h (after c))
      replace-IsExclusive [] h c e x = tt
      replace-IsExclusive ((j, d) ∷ t) h c e x =
          ground (arith, replace-IsApart d t h c, replace-IsExclusive t h c, after-IsApart d t x.0)

    closed-IsExclusive :
        (t : Table C) (h : ℕ) (c : C) (w : W)
        → lookup t h ≡ some c
        → IsExclusive t
        → IsExclusive (closed t h (m.driver.release c w)).1
    closed-IsExclusive t h c w e x = elim (Bool-cases (is_ok (m.driver.release c w).0)) [
      | inl ok ↦ rw ok (remove-IsExclusive t h x)
      | inr bad ↦ rw bad (replace-IsExclusive w t h c e x)
    ]

    release_spec-IsExclusive :
        (t : Table C) (w : W) (h : ℕ) → IsExclusive t → IsExclusive (release_spec m t w h).1
    release_spec-IsExclusive t w h x = elim (Option-cases (lookup t h)) [
      | inl e ↦ rw (e, release_spec) x
      | inr (c, e) ↦ rw (e, release_spec) (closed-IsExclusive t h c w e x)
    ]

    request-IsSound :
        (st : State C W) (c : C) (p : ℕ)
        → p ≢ 0
        → IsFresh p st.requested_node
        → IsSound st
        → IsSound (request m st c (some p)).2
    request-IsSound st c p hp fr s = record {
      table = request-IsTable m st c p hp fr s.table;
      apart =
          subst (λ (r : ArtikError × Option ℕ × Table C × W). IsExclusive r.2)
            (sym (request_refines m st c p hp fr))
            (request_spec-IsExclusive (view st.requested_node) st.world c p s.apart);
    }

    release-IsSound : (st : State C W) (h : ℕ) → IsSound st → IsSound (release m st h).1
    release-IsSound st h s = record {
      table = release-IsTable m st h s.table;
      apart =
          subst (λ (r : ArtikError × Table C × W). IsExclusive r.1)
            (sym (release_refines m st h s.table))
            (release_spec-IsExclusive (view st.requested_node) st.world h s.apart);
    }

    -- From a state whose handles are the addresses of their nodes and in which no open handle is
    -- in another's way, and over an `os_` layer that leaves alone what `check_exist` looks at:
    -- after any sequence of requests, with and without memory, and of releases, the state is
    -- again such a state.
    pub Reach-IsSound : {s t : State C W} → IsSound s → Reach s t → IsSound t
    Reach-IsSound h here = h
    Reach-IsSound h (next r (requested st c p hp fr)) =
        request-IsSound st c p hp fr (Reach-IsSound h r)
    Reach-IsSound h (next r (refused st c)) = rw (request-none m st c) (Reach-IsSound h r)
    Reach-IsSound h (next r (released st k)) = release-IsSound st k (Reach-IsSound h r)
