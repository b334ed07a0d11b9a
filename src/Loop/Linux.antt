-- ===== src/Loop/Linux.antt =====
-- src/modules/base/loop/linux_loop.c: timeouts, periodic timers, watches, signals and idle callbacks
-- of the Linux build. GLib's main context is a parameter; the blocks that the file allocates are here.
pub mod Context
pub mod Ownership
pub mod Removal
mod Tests
use artik_sdk.Prelude.{
  ℕ, zero, suc, ◌-◌, ◌^◌, Bool, true, false, not, ◌||◌, Option, none, some, List, [], ◌∷◌, ltb,
  ◌==◌, if◌then◌else◌,
}
use artik_sdk.Prelude.Int.{ℤ, pos, negsuc, is_neg, ◌==◌ as int_eq}
use artik_sdk.Error.{ArtikError, s_ok, e_bad_args, e_no_mem, code}
use artik_sdk.Loop.Linux.Context.{Source, Condition, Glib, timeout, periodic, idle, watch, signal}

-- `struct _timeout` and its four likes, which are the same; a function is a number, and 0 is NULL.
pub record Block : Type 0 where
  pub addr : ℕ
  pub func : ℕ
  pub user_data : ℕ
  pub id : ℕ

-- `blocks` are those that are allocated, and `calls` the calls of the application's functions with
-- their data, the latest first. `world` is GLib's.
pub record Main (W : Type 0) : Type 0 where
  pub blocks : List Block
  pub calls : List (ℕ × ℕ)
  pub world : W

-- A `guint` as an `int`, and back.
abbrev pub int_of : ℕ → ℤ
int_of id = if ltb id (2 ^ 31) then pos id else negsuc (2 ^ 32 - 1 - id)

-- `id <= 0`
abbrev pub is_bad_id : ℤ → Bool
is_bad_id (pos zero) = true
is_bad_id (pos (suc n)) = false
is_bad_id (negsuc n) = true

abbrev pub guint_of : ℤ → ℕ
guint_of (pos n) = n
guint_of (negsuc n) = 2 ^ 32 - 1 - n

-- -EINVAL
abbrev pub minus_einval : ℤ
minus_einval = negsuc 21

-- `io == 0`
abbrev pub is_empty : Condition → Bool
is_empty c = not (c.in_ || c.out || c.pri || c.err || c.hup || c.nval)

-- `g_free` of the block at `p`.
unfoldable pub g_free : ℕ → List Block → List Block
g_free p [] = []
g_free p (b ∷ l) = if p == b.addr then l else b ∷ g_free p l

-- The destroy callbacks, which free the blocks that GLib hands back.
unfoldable pub destroyed : List ℕ → List Block → List Block
unfolding g_free
destroyed [] l = l
destroyed (p ∷ ps) l = destroyed ps (g_free p l)

unfoldable pub find_block : ℕ → List Block → Option Block
find_block p [] = none
find_block p (b ∷ l) = if p == b.addr then some b else find_block p l

-- What the five callbacks answer to GLib, where the function answers `ret`: a timeout has no answer.
abbrev pub goes_on : Source → ℤ → Bool
goes_on (timeout msec) ret = false
goes_on (periodic msec) ret = int_eq ret (pos 1)
goes_on idle ret = int_eq ret (pos 1)
goes_on (watch fd io) ret = int_eq ret (pos 1)
goes_on (signal signum) ret = int_eq ret (pos 1)

module _ {W : Type 0} (glib : Glib W) where
  -- After the arguments are checked; `block` is what `g_try_new0` gives. The result, the id that is
  -- stored, and the state.
  unfoldable pub add_source : Source → ℕ → ℕ → Option ℕ → Main W → ArtikError × Option ℕ × Main W
  add_source source func user_data none s = (e_no_mem, none, s)
  add_source source func user_data (some p) s =
      let r : ℕ × W = glib.attach source p s.world in
      (
        s_ok,
        some r.0,
        record s {
          blocks = (record { addr = p; func = func; user_data = user_data; id = r.0 }) ∷ s.blocks;
          world = r.1;
        },
      )

  -- `place` is whether the pointer for the id is set.
  unfoldable pub os_add_timeout_callback :
      Bool → ℕ → ℕ → ℕ → Option ℕ → Main W → ArtikError × Option ℕ × Main W
  unfolding add_source
  os_add_timeout_callback place msec func user_data block s =
      if func == 0 || not place
      then (e_bad_args, none, s)
      else add_source (timeout msec) func user_data block s

  unfoldable pub os_add_periodic_callback :
      Bool → ℕ → ℕ → ℕ → Option ℕ → Main W → ArtikError × Option ℕ × Main W
  unfolding add_source
  os_add_periodic_callback place msec func user_data block s =
      if func == 0 || not place
      then (e_bad_args, none, s)
      else add_source (periodic msec) func user_data block s

  -- The last three store the id only if there is a place for it; it is in the result all the same.
  unfoldable pub os_add_idle_callback : ℕ → ℕ → Option ℕ → Main W → ArtikError × Option ℕ × Main W
  unfolding add_source
  os_add_idle_callback func user_data block s =
      if func == 0 then (e_bad_args, none, s) else add_source idle func user_data block s

  unfoldable pub os_add_fd_watch :
      ℤ → Condition → ℕ → ℕ → Option ℕ → Main W → ArtikError × Option ℕ × Main W
  unfolding add_source
  os_add_fd_watch fd io func user_data block s =
      if is_neg fd
      then (e_bad_args, none, s)
      else if func == 0
      then (e_bad_args, none, s)
      else if is_empty io
      then (e_bad_args, none, s)
      else add_source (watch fd io) func user_data block s

  -- SIGHUP, SIGINT and SIGTERM. There is no test of `func`.
  unfoldable pub os_add_signal_watch :
      ℕ → ℕ → ℕ → Option ℕ → Main W → ArtikError × Option ℕ × Main W
  unfolding add_source
  os_add_signal_watch signum func user_data block s =
      if signum == 1 || (signum == 2 || signum == 15)
      then add_source (signal signum) func user_data block s
      else (e_bad_args, none, s)

  -- `g_source_remove`, with the destroy callback that it runs.
  unfoldable pub source_remove : ℕ → Main W → Bool × Main W
  unfolding destroyed
  source_remove id s =
      let r : Bool × List ℕ × W = glib.remove id s.world in
      (r.0, record s { blocks = destroyed r.1 s.blocks; world = r.2 })

  -- The five functions that remove, by the value for an id that is not there.
  unfoldable pub remove_source : ℤ → ℤ → Main W → ℤ × Main W
  unfolding source_remove
  remove_source wrong id s =
      if is_bad_id id
      then (wrong, s)
      else let r : Bool × Main W = source_remove (guint_of id) s in
        if r.0 then (code s_ok, r.1) else (wrong, r.1)

  unfoldable pub os_remove_timeout_callback : ℤ → Main W → ℤ × Main W
  unfolding remove_source code
  os_remove_timeout_callback timeout_id s = remove_source (code e_bad_args) timeout_id s

  unfoldable pub os_remove_periodic_callback : ℤ → Main W → ℤ × Main W
  unfolding remove_source code
  os_remove_periodic_callback periodic_id s = remove_source (code e_bad_args) periodic_id s

  unfoldable pub os_remove_idle_callback : ℤ → Main W → ℤ × Main W
  unfolding remove_source code
  os_remove_idle_callback idle_id s = remove_source (code e_bad_args) idle_id s

  unfoldable pub os_remove_fd_watch : ℤ → Main W → ℤ × Main W
  unfolding remove_source
  os_remove_fd_watch watch_id s = remove_source minus_einval watch_id s

  unfoldable pub os_remove_signal_watch : ℤ → Main W → ℤ × Main W
  unfolding remove_source
  os_remove_signal_watch signal_id s = remove_source minus_einval signal_id s

  -- GLib runs the callback of the source `id` with its block at `p`, and destroys the source if it
  -- does not go on; `none` is a read of a block that is not allocated.
  unfoldable pub dispatched : Source → ℕ → ℕ → ℤ → Main W → Option (Main W)
  unfolding find_block source_remove
  dispatched source id p ret s = elim (find_block p s.blocks) [
    | none ↦ none
    | some b ↦
        let s' : Main W = record s { calls = (b.func, b.user_data) ∷ s.calls } in
        some (if goes_on source ret then s' else (source_remove id s').1)
  ]

-- The calls of `loop_module` with their arguments, and the block that an addition is given.
pub data Call : Type 0 where
  add_timeout add_periodic : Bool → ℕ → ℕ → ℕ → Option ℕ → Call
  add_idle : ℕ → ℕ → Option ℕ → Call
  add_fd_watch : ℤ → Condition → ℕ → ℕ → Option ℕ → Call
  add_signal : ℕ → ℕ → ℕ → Option ℕ → Call
  remove_timeout remove_periodic remove_idle remove_fd_watch remove_signal : ℤ → Call

abbrev pub block : Call → Option ℕ
block (add_timeout place msec func user_data b) = b
block (add_periodic place msec func user_data b) = b
block (add_idle func user_data b) = b
block (add_fd_watch fd io func user_data b) = b
block (add_signal signum func user_data b) = b
block (remove_timeout id) = none
block (remove_periodic id) = none
block (remove_idle id) = none
block (remove_fd_watch id) = none
block (remove_signal id) = none

module _ {W : Type 0} (glib : Glib W) where
  -- The state after a call.
  unfoldable pub run_call : Call → Main W → Main W
  run_call (add_timeout place msec func user_data b) s =
      (os_add_timeout_callback glib place msec func user_data b s).2
  run_call (add_periodic place msec func user_data b) s =
      (os_add_periodic_callback glib place msec func user_data b s).2
  run_call (add_idle func user_data b) s = (os_add_idle_callback glib func user_data b s).2
  run_call (add_fd_watch fd io func user_data b) s =
      (os_add_fd_watch glib fd io func user_data b s).2
  run_call (add_signal signum func user_data b) s =
      (os_add_signal_watch glib signum func user_data b s).2
  run_call (remove_timeout id) s = (os_remove_timeout_callback glib id s).1
  run_call (remove_periodic id) s = (os_remove_periodic_callback glib id s).1
  run_call (remove_idle id) s = (os_remove_idle_callback glib id s).1
  run_call (remove_fd_watch id) s = (os_remove_fd_watch glib id s).1
  run_call (remove_signal id) s = (os_remove_signal_watch glib id s).1
