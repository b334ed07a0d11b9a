-- ===== src/SystemIo/Handles/Refine.antt =====
-- The operations of the handle tables against their specification.
use artik_sdk.Prelude.{
  ℕ, ◌+◌, ◌≡◌, refl, ◌≢◌, true, false, Option, none, some, [], ◌∷◌, ◌++◌, ◌==◌, arith, Bool-cases,
  Option-cases, inl, inr,
}
use artik_sdk.Error.{ArtikError, e_bad_args, is_ok}
use artik_sdk.ArtikList.{
  ArtikList, Node, sizeof_artik_list, new_node, delete_node, find_first, get_by_check,
  get_by_handle,
}
use artik_sdk.ArtikList.Lookup.{add_lem, add-none}
use artik_sdk.ArtikList.Deletion.{without, delete_node-hit}
use artik_sdk.ArtikList.Store.{store}
use artik_sdk.SystemIo.Handles.{
  Frontend, State, fill, settle, open_node, request, release, close_node,
}
use artik_sdk.SystemIo.Handles.Spec.{
  Table, is_taken, lookup, opened, request_spec, closed, release_spec,
}
use artik_sdk.ArtikList.Store.{IsFresh, store-append}
use artik_sdk.SystemIo.Handles.Invariant.{IsTable, append-IsTable, delete_node-append}
use artik_sdk.SystemIo.Handles.View.{
  view, view-append, lookup-find, lookup-find_none, lookup-null, find_first-addr, put_config,
  view-store, find_first-store, view-without, store-IsTable, without-IsTable,
}

module _ {C W : Type 0} (m : Frontend C W) where
  -- What a request shows: its result, the handle, the table and the world after it.
  abbrev pub shown : ArtikError × Option ℕ × State C W → ArtikError × Option ℕ × Table C × W
  shown (err, h, st) = (err, h, view st.requested_node, st.world)

  pub get_by_check-none :
      (l : ArtikList C) (config : C)
      → is_taken m (view l) config ≡ false
      → get_by_check l (some (λ n. m.check_exist n.payload config)) ≡ none
  unfolding get_by_check
  get_by_check-none [] config h = refl
  get_by_check-none (x ∷ l) config h = ground (arith, get_by_check-none l config)

  pub get_by_check-some :
      (l : ArtikList C) (config : C)
      → is_taken m (view l) config ≡ true
      → (n : Node C) × (get_by_check l (some (λ n. m.check_exist n.payload config)) ≡ some n)
  unfolding get_by_check
  get_by_check-some [] config h = cc
  get_by_check-some (x ∷ l) config h = elim (Bool-cases (m.check_exist x.payload config)) [
    | inl e ↦ (x, ground arith)
    | inr e ↦
        let rest : (n : Node C) × (get_by_check l (some (λ n. m.check_exist n.payload config))
              ≡ some n) =
          get_by_check-some l config (ground arith) in
        (rest.0, ground (arith, rest.1))
  ]

  settle_lem :
      (l : ArtikList C) (n : Node C) (r : ArtikError × C × W)
      → n.addr ≢ 0
      → IsFresh n.addr l
      → shown (settle m (l ++ n ∷ []) n.addr r) ≡ opened m (view l) n.addr r
  unfolding settle
  settle_lem l n (err, c, w) hp fr = elim (Bool-cases (is_ok err)) [
    | inl e ↦ rw (e, store-append n.addr (fill c) l n refl fr, view-append l (fill c n)) refl
    | inr e ↦ rw (e, delete_node-append n.addr l n hp refl fr) refl
  ]

  -- A request that gets memory at a new address does what the table promises: E_BUSY if an open
  -- configuration is in the way, with nothing changed; otherwise what the `os_` layer answers,
  -- and then either one more handle or the table as it was.
  pub request_refines :
      (st : State C W) (config : C) (p : ℕ)
      → p ≢ 0
      → IsFresh p st.requested_node
      → shown (request m st config (some p))
        ≡ request_spec m (view st.requested_node) st.world config p
  unfolding request open_node new_node
  request_refines st config p hp fr =
      elim (Bool-cases (is_taken m (view st.requested_node) config)) [
        | inl e ↦
            let f : (n : Node C) × (get_by_check st.requested_node
                    (some (λ n. m.check_exist n.payload config))
                  ≡ some n) =
              get_by_check-some st.requested_node config e in
            rw (e, f.1, request) refl
        | inr e ↦
            rw
              (
                e,
                get_by_check-none st.requested_node config e,
                add_lem st.requested_node 0 (sizeof_artik_list + m.config_bytes) p m.blank
                    (omega arith),
                request,
                open_node,
              )
              (settle_lem st.requested_node
                (new_node p m.blank 0 (sizeof_artik_list + m.config_bytes))
                (m.driver.request config st.world) hp fr)
      ]

  -- What a release shows.
  abbrev pub shown_release : ArtikError × State C W → ArtikError × Table C × W
  shown_release (err, st) = (err, view st.requested_node, st.world)

  delete_stored :
      (l : ArtikList C) (h : ℕ) (c : C) (n : Node C)
      → IsTable l
      → find_first (λ x. x.handle == h) l ≡ some n
      → (delete_node (store n.addr (put_config c) l) n.addr).1
        ≡ without (λ x. x.addr == h) (store h (put_config c) l)
  delete_stored l h c n t e =
      let a : (n.addr ≡ h) × (n.addr ≢ 0) = find_first-addr l h n t e in
      rw a.0 (
        ground (
          arith,
          delete_node-hit h (store h (put_config c) l) (put_config c n),
          find_first-store l h c n t e,
        ))

  close_node_lem :
      (l : ArtikList C) (h : ℕ) (n : Node C) (r : ArtikError × C × W)
      → IsTable l
      → find_first (λ x. x.handle == h) l ≡ some n
      → shown_release (close_node l n r) ≡ closed (view l) h r
  unfolding close_node
  close_node_lem l h n (err, c, w) t e = ground (
    arith,
    delete_stored l h c n t e,
    view-without l h c t,
    find_first-addr l h n t e,
    view-store l h c t,
  )

  close-IsTable :
      (l : ArtikList C) (h : ℕ) (n : Node C) (r : ArtikError × C × W)
      → IsTable l
      → find_first (λ x. x.handle == h) l ≡ some n
      → IsTable (close_node l n r).1.requested_node
  unfolding close_node
  close-IsTable l h n (err, c, w) t e = ground (
    arith,
    delete_stored l h c n t e,
    store-IsTable h c l t,
    store-IsTable n.addr c l t,
    without-IsTable h (store h (put_config c) l) (store-IsTable h c l t),
  )

  release_spec-none :
      (t : Table C) (w : W) (h : ℕ) → lookup t h ≡ none → release_spec m t w h ≡ (e_bad_args, t, w)
  release_spec-none t w h e = ground arith

  release_spec-some :
      (t : Table C) (w : W) (h : ℕ) (c : C)
      → lookup t h ≡ some c
      → release_spec m t w h ≡ closed t h (m.driver.release c w)
  release_spec-some t w h c e = ground arith

  -- Where handles are the addresses of their nodes, none twice and none NULL, a release does
  -- what the table promises: an unknown handle gives E_BAD_ARGS and changes nothing; a handle
  -- that the `os_` layer gives up leaves the table; one that it keeps stays, with what the layer
  -- left in its configuration.
  pub release_refines :
      (st : State C W) (h : ℕ)
      → IsTable st.requested_node
      → shown_release (release m st h) ≡ release_spec m (view st.requested_node) st.world h
  unfolding release get_by_handle
  release_refines st h t = elim (Bool-cases (h == 0)) [
    | inl z ↦
        let zero_h : h ≡ 0 = ground arith in
        rw
          (
            z,
            release_spec-none (view st.requested_node) st.world h
                (rw zero_h (lookup-null st.requested_node t)),
            release,
            get_by_handle,
          )
          refl
    | inr nz ↦ elim (Option-cases (find_first (λ x. x.handle == h) st.requested_node)) [
      | inl e ↦
          rw
            (
              release_spec-none (view st.requested_node) st.world h
                  (lookup-find_none st.requested_node h e),
              nz,
              e,
              release,
              get_by_handle,
            )
            refl
      | inr (n, e) ↦
          rw
            (
              release_spec-some (view st.requested_node) st.world h n.payload
                  (lookup-find st.requested_node h n e),
              nz,
              e,
              release,
              get_by_handle,
            )
            (close_node_lem st.requested_node h n (m.driver.release n.payload st.world) t e)
    ]
  ]

  -- Without memory nothing changes, whatever the answer.
  pub request-none : (st : State C W) (config : C) → (request m st config none).2 ≡ st
  unfolding request open_node
  request-none st config =
      ground (arith, add-none st.requested_node 0 (sizeof_artik_list + m.config_bytes) m.blank)

  settle-IsTable :
      (l : ArtikList C) (n : Node C) (r : ArtikError × C × W)
      → n.addr ≢ 0
      → IsFresh n.addr l
      → IsTable l
      → IsTable (settle m (l ++ n ∷ []) n.addr r).2.requested_node
  unfolding settle
  settle-IsTable l n (err, c, w) hp fr t = elim (Bool-cases (is_ok err)) [
    | inl e ↦
        rw (e, store-append n.addr (fill c) l n refl fr)
          (append-IsTable l (fill c n) (refl, hp) fr t)
    | inr e ↦ rw (e, delete_node-append n.addr l n hp refl fr) t
  ]

  -- A request with memory from `malloc` keeps the invariant.
  pub request-IsTable :
      (st : State C W) (config : C) (p : ℕ)
      → p ≢ 0
      → IsFresh p st.requested_node
      → IsTable st.requested_node
      → IsTable (request m st config (some p)).2.requested_node
  unfolding request open_node new_node
  request-IsTable st config p hp fr t =
      elim (Bool-cases (is_taken m (view st.requested_node) config)) [
        | inl e ↦
            let f : (n : Node C) × (get_by_check st.requested_node
                    (some (λ n. m.check_exist n.payload config))
                  ≡ some n) =
              get_by_check-some st.requested_node config e in
            rw (f.1, request) t
        | inr e ↦
            rw
              (
                get_by_check-none st.requested_node config e,
                add_lem st.requested_node 0 (sizeof_artik_list + m.config_bytes) p m.blank
                    (omega arith),
                request,
                open_node,
              )
              (settle-IsTable st.requested_node
                (new_node p m.blank 0 (sizeof_artik_list + m.config_bytes))
                (m.driver.request config st.world) hp fr t)
      ]

  -- A release keeps the invariant.
  pub release-IsTable :
      (st : State C W) (h : ℕ)
      → IsTable st.requested_node
      → IsTable (release m st h).1.requested_node
  unfolding release get_by_handle
  release-IsTable st h t = elim (Bool-cases (h == 0)) [
    | inl z ↦ rw (z, release, get_by_handle) t
    | inr nz ↦ elim (Option-cases (find_first (λ x. x.handle == h) st.requested_node)) [
      | inl e ↦ rw (nz, e, release, get_by_handle) t
      | inr (n, e) ↦
          rw (nz, e, release, get_by_handle)
            (close-IsTable st.requested_node h n (m.driver.release n.payload st.world) t e)
    ]
  ]
