-- ===== src/SystemIo/Gpio/Callback.antt =====
-- linux_gpio.c: the change callback of an input, and the references to the loop module that it takes.
use artik_sdk.Prelude.{
  ℕ, ◌+◌, ◌-◌, not, ◌≡◌, refl, Bool, true, false, Option, none, some, if◌then◌else◌, arith, ◌||◌,
}
use artik_sdk.Prelude.Int.{ℤ, pos, is_neg, ◌==◌}
use artik_sdk.Error.{ArtikError, s_ok, e_bad_args, e_busy, e_access_denied, is_ok, is_ok-s_ok}
use artik_sdk.SystemIo.Gpio.{gpio_in, Config, GpioData, zero_data}

-- What the system and the loop module answer in a call.
pub record Answers : Type 0 where
  pub fd : ℤ
  pub lseek : Bool
  pub read : Bool
  pub loop : Bool
  pub add_fd_watch : ArtikError
  pub watch_id : ℤ

-- How often the process has requested the loop module and not released it, how many files it has
-- open, and how many watches are registered.
pub record Held : Type 0 where
  pub loops : ℕ
  pub files : ℕ
  pub watches : ℕ

-- The label `exit` with a failure: the loop module is released if it was requested.
abbrev undo : Config → GpioData → ArtikError → Held → ArtikError × Config × Held
undo c d ret h = (
  ret,
  record c { user_data = some (record d { loop = false; fd = pos 0 }) },
  record h { loops = if d.loop then h.loops - 1 else h.loops; files = h.files - 1 },
)

watch : Config → GpioData → Answers → Held → ArtikError × Config × Held
watch c d a h =
    if is_ok a.add_fd_watch
    then (
      s_ok,
      record c { user_data = some (record d { watch_id = a.watch_id }) },
      record h { watches = h.watches + 1 },
    )
    else undo c d a.add_fd_watch h

open_watch : Config → GpioData → Answers → Held → ArtikError × Config × Held
unfolding watch
open_watch c d a h =
    if not a.lseek
    then undo c d e_access_denied h
    else if not a.read
    then undo c d e_access_denied h
    else if not a.loop
    then undo c (record d { loop = false }) e_busy h
    else watch c (record d { loop = true }) a (record h { loops = h.loops + 1 })

-- `callback` is whether the argument is not NULL; the result `none` is the fault of a NULL
-- `user_data`.
unfoldable pub os_gpio_set_change_callback :
    Config → Bool → Answers → Held → Option (ArtikError × Config × Held)
unfolding open_watch
os_gpio_set_change_callback c callback a h =
    if not callback then some (e_bad_args, c, h) else elim c.dir [
      | gpio_in ↦ elim c.user_data [
        | none ↦ none
        | some d ↦ some (
            if is_neg a.fd
            then (e_busy, record c { user_data = some (record d { fd = a.fd }) }, h)
            else if a.fd == pos 0
            then (
              e_busy,
              record c { user_data = some (record d { fd = a.fd }) },
              record h { files = h.files + 1 },
            )
            else open_watch c (record d { fd = a.fd; callback = true }) a
                (record h { files = h.files + 1 }))
      ]
      | _ ↦ some (e_bad_args, c, h)
    ]

-- `loop` is whether the request of the loop module at the head of the function succeeds.
pub os_gpio_unset_change_callback : Config → Bool → Held → Option (Config × Held)
os_gpio_unset_change_callback c loop h =
    let loops : ℕ = if loop then h.loops + 1 else h.loops in
    elim c.user_data [
      | none ↦ none
      | some d ↦ some (
          if d.fd == pos 0 then (c, record h { loops = loops }) else (
            record c { user_data = some zero_data },
            record h {
              files = if is_neg d.fd then h.files else h.files - 1;
              watches = if d.loop then h.watches - 1 else h.watches;
              loops = if d.loop then (if loop then loops - 1 else loops) else loops;
            },
          ))
    ]

-- A failed registration, of a pin with its data and no callback, holds what was held before, unless
-- the file got the descriptor 0: no file, no loop module and no watch is left behind.
pub os_gpio_set_change_callback-failed :
    (c c' : Config) (callback : Bool) (a : Answers) (h h' : Held) (err : ArtikError)
    → os_gpio_set_change_callback c callback a h ≡ some (err, c', h')
    → is_ok err ≡ false
    → (d : GpioData) → c.user_data ≡ some d
    → d.loop ≡ false
    → (a.fd == pos 0) ≡ false
    → h' ≡ h
unfolding os_gpio_set_change_callback
os_gpio_set_change_callback-failed c c' callback a h h' err e n d u l z = ground (arith, is_ok-s_ok)

abbrev watched : Answers → GpioData
watched a = record { watch_id = a.watch_id; fd = a.fd; callback = true; loop = true }

-- What a registration that succeeds holds.
set_change_callback-ok :
    (c c' : Config) (a : Answers) (h h' : Held)
    → os_gpio_set_change_callback c true a h ≡ some (s_ok, c', h')
    → (c'.user_data ≡ some (watched a))
      × ((is_neg a.fd || a.fd == pos 0) ≡ false)
      × (h' ≡ record { loops = h.loops + 1; files = h.files + 1; watches = h.watches + 1 })
unfolding os_gpio_set_change_callback
set_change_callback-ok c c' a h h' e = ground (arith, is_ok-s_ok)

unset-watched :
    (c : Config) (a : Answers) (h : Held)
    → c.user_data ≡ some (watched a)
    → (is_neg a.fd || a.fd == pos 0) ≡ false
    → os_gpio_unset_change_callback c true
        (record { loops = h.loops + 1; files = h.files + 1; watches = h.watches + 1 })
      ≡ some (record c { user_data = some zero_data }, record h { loops = h.loops + 1 })
unfolding os_gpio_unset_change_callback
unset-watched c a h e n = ground arith

-- Registering a callback and taking it back leaves the process with one reference to the loop
-- module more than before, though the file and the watch are given back.
pub os_gpio_unset_change_callback-leak :
    (c c' : Config) (a : Answers) (h h' : Held)
    → os_gpio_set_change_callback c true a h ≡ some (s_ok, c', h')
    → (c'' : Config) × (h'' : Held) × (os_gpio_unset_change_callback c' true h' ≡ some (c'', h''))
      × (h''.loops ≡ h.loops + 1)
      × (h''.files ≡ h.files)
      × (h''.watches ≡ h.watches)
os_gpio_unset_change_callback-leak c c' a h h' e =
    let o = set_change_callback-ok c c' a h h' e in
    (
      record c' { user_data = some zero_data },
      record h { loops = h.loops + 1 },
      rw (o.2) (unset-watched c' a h o.0 o.1),
      refl,
      refl,
      refl,
    )
