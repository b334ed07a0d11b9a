-- ===== src/SystemIo/Handles/Spec.antt =====
-- What a handle table promises: open handles with the configurations behind them, in the order in
-- which they were opened.
use artik_sdk.Prelude.{
  ℕ, Bool, true, false, Option, none, some, List, [], ◌∷◌, ◌++◌, ◌==◌, if◌then◌else◌,
}
use artik_sdk.Error.{ArtikError, s_ok, e_bad_args, e_busy, is_ok}
use artik_sdk.SystemIo.Handles.{Frontend}

abbrev pub Table : Type 0 → Type 0
Table C = List (ℕ × C)

module _ {C : Type 0} where
  abbrev pub lookup : Table C → ℕ → Option C
  lookup [] h = none
  lookup ((j, c) ∷ t) h = if j == h then some c else lookup t h

  abbrev pub remove : Table C → ℕ → Table C
  remove [] h = []
  remove ((j, c) ∷ t) h = if j == h then t else (j, c) ∷ remove t h

  abbrev pub replace : Table C → ℕ → C → Table C
  replace [] h c' = []
  replace ((j, c) ∷ t) h c' = if j == h then (j, c') ∷ t else (j, c) ∷ replace t h c'

module _ {C W : Type 0} where
  -- Some open configuration is taken by `config`.
  abbrev pub is_taken : Frontend C W → Table C → C → Bool
  is_taken m [] config = false
  is_taken m ((h, c) ∷ t) config = if m.check_exist c config then true else is_taken m t config

  abbrev pub opened :
      Frontend C W → Table C → ℕ → ArtikError × C × W → ArtikError × Option ℕ × Table C × W
  opened m t p (err, c, w) =
      if is_ok err then (s_ok, some p, t ++ (p, c) ∷ [], w) else (m.failed err, none, t, w)

  -- A new handle `p` is opened only where nothing open is in the way and the driver agrees.
  abbrev pub request_spec : Frontend C W → Table C → W → C → ℕ → ArtikError × Option ℕ × Table C × W
  request_spec m t w config p =
      if is_taken m t config then (e_busy, none, t, w) else opened m t p (m.driver.request config w)

  abbrev pub closed : Table C → ℕ → ArtikError × C × W → ArtikError × Table C × W
  closed t h (err, c, w) = if is_ok err then (s_ok, remove t h, w) else (err, replace t h c, w)

  -- An open handle is closed if the driver agrees, and stays open otherwise.
  abbrev pub release_spec : Frontend C W → Table C → W → ℕ → ArtikError × Table C × W
  release_spec m t w h = elim (lookup t h) [
    | none ↦ (e_bad_args, t, w)
    | some c ↦ closed t h (m.driver.release c w)
  ]
