-- ===== src/Loop/Linux/Removal.antt =====
-- linux_loop.c: removing what was added, and what is not there.
use artik_sdk.Prelude.{
  ℕ, zero, suc, ◌<◌, ◌^◌, ◌≡◌, refl, ap, ◌∙◌, ◌≢◌, true, none, some, ◌∷◌, arith, lt→ltb,
}
use artik_sdk.Prelude.Int.{ℤ, pos, negsuc}
use artik_sdk.Error.{ArtikError, s_ok, e_bad_args, code}
use artik_sdk.Loop.Linux.Context.{Glib, IsGlib, block_of, without_id, timeout}
use artik_sdk.Loop.Linux.{
  Block, Main, int_of, g_free, os_add_timeout_callback, remove_source, os_remove_timeout_callback,
  os_remove_periodic_callback, os_remove_idle_callback, os_remove_fd_watch, os_remove_signal_watch,
  minus_einval,
}

code-ne : (e : ArtikError) → code e ≢ minus_einval
unfolding code
code-ne e h = ground arith

module _ {W : Type 0} (glib : Glib W) (laws : IsGlib glib) where
  remove_source-there :
      (wrong : ℤ) (id p : ℕ) (t : Main W)
      → id ≢ 0
      → block_of id (glib.attached t.world) ≡ some p
      → remove_source glib wrong (pos id) t
        ≡ (code s_ok, record t { blocks = g_free p t.blocks; world = (glib.remove id t.world).2 })
  unfolding remove_source
  remove_source-there wrong zero p t n e = absurd (n refl)
  remove_source-there wrong (suc id) p t n e =
      rw ((laws.found (suc id) p t.world e).0, (laws.found (suc id) p t.world e).1) refl

  remove_source-missing :
      (wrong : ℤ) (id : ℕ) (t : Main W)
      → block_of id (glib.attached t.world) ≡ none
      → remove_source glib wrong (pos id) t ≡ (wrong, t)
  unfolding remove_source
  remove_source-missing wrong zero t e = refl
  remove_source-missing wrong (suc id) t e = rw (laws.missing (suc id) t.world e) refl

  -- A source that was just attached, with its block in front.
  remove_source-attached :
      (wrong : ℤ) (id p : ℕ) (b : Block) (s t : Main W)
      → id ≢ 0
      → b.addr ≡ p
      → t.blocks ≡ b ∷ s.blocks
      → glib.attached t.world ≡ (id, p) ∷ glib.attached s.world
      → ((remove_source glib wrong (pos id) t).0 ≡ code s_ok)
        × ((remove_source glib wrong (pos id) t).1.blocks ≡ s.blocks)
        × (glib.attached (remove_source glib wrong (pos id) t).1.world ≡ glib.attached s.world)
  unfolding g_free
  remove_source-attached wrong id p b s t n a e f =
      let there : block_of id (glib.attached t.world) ≡ some p = rw f (ground arith) in
      let r = remove_source-there wrong id p t n there in
      rw r (
        refl,
        rw e (ground (arith, a)),
        laws.removed id p t.world there ∙ ap (without_id id) f ∙ ground arith,
      )

  -- Over a GLib that keeps to its documentation: a timeout is added with a function, a place for its
  -- id and a block. It has the id that GLib gives. If that is an `int`, removing it by this id
  -- succeeds, and the blocks and the sources are then what they were before.
  pub os_remove_timeout_callback-add :
      (msec func user_data p : ℕ) (s : Main W)
      → func ≢ 0
      → (id : ℕ) (t : Main W)
      → os_add_timeout_callback glib true msec func user_data (some p) s ≡ (s_ok, some id, t)
      → id < 2 ^ 31
      → ((os_remove_timeout_callback glib (int_of id) t).0 ≡ code s_ok)
        × ((os_remove_timeout_callback glib (int_of id) t).1.blocks ≡ s.blocks)
        × (glib.attached (os_remove_timeout_callback glib (int_of id) t).1.world
            ≡ glib.attached s.world)
  unfolding os_add_timeout_callback os_remove_timeout_callback
  os_remove_timeout_callback-add msec func user_data p s n id t h small =
      let w : W = (glib.attach (timeout msec) p s.world).1 in
      let j : ℕ = (glib.attach (timeout msec) p s.world).0 in
      let b : Block = record { addr = p; func = func; user_data = user_data; id = j } in
      let same : j ≡ id = ground (arith, h) in
      let blocks : t.blocks ≡ b ∷ s.blocks = ground (arith, h) in
      let world : t.world ≡ w = ground (arith, h) in
      let known : int_of id ≡ pos id = rw (lt→ltb id (2 ^ 31) small) refl in
      rw known (
        remove_source-attached (code e_bad_args) id p b s t
          (λ z. laws.nonzero (timeout msec) p s.world (same ∙ z)) refl blocks
          (ap glib.attached world
            ∙ laws.attached (timeout msec) p s.world
            ∙ ap (λ (k : ℕ). (k, p) ∷ glib.attached s.world) same))

  -- Over a GLib that keeps to its documentation, removing an id from which no source hangs, or one
  -- that is not positive, changes nothing. A timeout, a periodic timer and an idle callback answer
  -- E_BAD_ARGS, but a watch and a signal -22, which is no error of the SDK.
  pub os_remove_missing :
      (id : ℤ) (s : Main W)
      → ((n : ℕ) → id ≡ pos n → block_of n (glib.attached s.world) ≡ none)
      → (os_remove_timeout_callback glib id s ≡ (code e_bad_args, s))
        × (os_remove_periodic_callback glib id s ≡ (code e_bad_args, s))
        × (os_remove_idle_callback glib id s ≡ (code e_bad_args, s))
        × (os_remove_fd_watch glib id s ≡ (minus_einval, s))
        × (os_remove_signal_watch glib id s ≡ (minus_einval, s))
        × ((e : ArtikError) → code e ≢ minus_einval)
  unfolding os_remove_timeout_callback os_remove_periodic_callback os_remove_idle_callback
      os_remove_fd_watch os_remove_signal_watch remove_source
  os_remove_missing (negsuc n) s h = (refl, refl, refl, refl, refl, code-ne)
  os_remove_missing (pos n) s h = (
    remove_source-missing (code e_bad_args) n s (h n refl),
    remove_source-missing (code e_bad_args) n s (h n refl),
    remove_source-missing (code e_bad_args) n s (h n refl),
    remove_source-missing minus_einval n s (h n refl),
    remove_source-missing minus_einval n s (h n refl),
    code-ne,
  )
