-- ===== src/Loop/Watchers.antt =====
-- tizenrt_loop.c: the timeouts, periodic timers, file watches and idle callbacks. Each kind has a
-- vector of its entries and a counter of ids; the four sets of functions are alike, and a kind's
-- state is one `Watchers`. libuv's part is which handles are started.
pub mod Entries
pub mod Removal
pub mod Addition
pub mod Expiry
mod Tests
use artik_sdk.Prelude.{
  ℕ, zero, suc, ◌+◌, Bool, true, false, Option, none, some, leb, ◌==◌, ◌||◌, if◌then◌else◌,
  get_elem?,
}
use artik_sdk.Error.{ArtikError, s_ok}
use artik_sdk.Loop.Vector.{Vector, ptr_vector_append, ptr_vector_del}

-- `struct _timeout`, `_periodic`, `_watch` and `_idle`: `func` is whether that pointer is set, and
-- only a watch has the `fd`.
pub record Entry : Type 0 where
  pub func : Bool
  pub user_data : ℕ
  pub handle : ℕ
  pub fd : ℕ
  pub id : ℕ

-- `heap` has the entries that are allocated, by address; `handles` the `data` of the libuv handles
-- that are allocated; `started` the handles that libuv runs.
pub record Watchers : Type 0 where
  pub vector : Vector
  pub heap : ℕ → Option Entry
  pub handles : ℕ → Option ℕ
  pub started : ℕ → Bool
  pub next_id : ℕ

-- A function of addresses changed at one.
abbrev pub update : {A : Type 0} → (ℕ → A) → ℕ → A → ℕ → A
update f p a x = if x == p then a else f x

-- The handle is stopped and freed, then the entry.
unfoldable pub dispose : ℕ → Entry → Watchers → Watchers
dispose p e s = record s {
  heap = update s.heap p none;
  handles = update s.handles e.handle none;
  started = update s.started e.handle false;
}

-- The entry at slot `i` leaves the vector.
abbrev pub leave : ℕ → Bool → Watchers → Watchers
leave i realloc s = record s { vector = (ptr_vector_del s.vector i realloc).1 }

-- A round of `..._cleanup` at slot `i`: an entry with the id is disposed of if it has a handle, and
-- leaves the vector. `realloc` is whether that call succeeds in the round.
unfoldable pub clean_entry : ℕ → ℕ → ℕ → Bool → Entry → Watchers → Watchers
unfolding dispose
clean_entry i id p realloc e s =
    if e.id == id then leave i realloc (if e.handle == 0 then s else dispose p e s) else s

-- The round reads the slot and the entry behind it; either may fault.
unfoldable pub clean_at : ℕ → ℕ → Bool → Watchers → Option Watchers
clean_at i id realloc s = elim (get_elem? s.vector.block i) [
  | none ↦ none
  | some p ↦ elim (s.heap p) [ none ↦ none | some e ↦ some (clean_entry i id p realloc e s) ]
]

-- The rounds from slot `n - 1` down to slot 0.
unfoldable pub cleanup_from : ℕ → ℕ → (ℕ → Bool) → Watchers → Option Watchers
cleanup_from zero id realloc s = some s
cleanup_from (suc n) id realloc s = elim (clean_at n id (realloc n) s) [
  | none ↦ none
  | some s' ↦ cleanup_from n id realloc s'
]

unfoldable pub watchers_cleanup : ℕ → (ℕ → Bool) → Watchers → Option Watchers
watchers_cleanup id realloc s = cleanup_from s.vector.len id realloc s

-- `os_remove_timeout_callback` and its three likes.
unfoldable pub os_remove : ℕ → (ℕ → Bool) → Watchers → Option (ArtikError × Watchers)
os_remove id realloc s = elim (watchers_cleanup id realloc s) [
  | none ↦ none
  | some s' ↦ some (s_ok, s')
]

-- What a call that adds an entry gets from the system: the addresses of the two blocks (NULL is 0),
-- what the block of the entry held before, and whether `realloc` succeeds.
pub record Blocks : Type 0 where
  pub entry : ℕ
  pub handle : ℕ
  pub junk : Entry
  pub realloc : Bool

-- The counter after its test against 255.
abbrev pub wrapped : ℕ → ℕ
wrapped n = if leb 255 n then 0 else n

-- The entry behind `malloc` and the stores in front of the append.
abbrev pub started_with : Blocks → Bool → ℕ → Watchers → Watchers
started_with b func user_data s = record s {
  heap =
      update s.heap b.entry
        (some (record (b.junk) { func = func; user_data = user_data; handle = b.handle }));
  handles = update s.handles b.handle (some b.entry);
  started = update s.started b.handle true;
}

-- The append and the stores behind it; `fill` are the stores to the entry, given the new id.
unfoldable pub appended :
    Blocks → (ℕ → Entry → Entry) → Watchers → Option (ArtikError × ℕ × Watchers)
appended b fill s = elim (ptr_vector_append s.vector b.entry b.realloc) [
  | none ↦ none
  | some v ↦
      let k : ℕ = wrapped s.next_id in
      some (
        s_ok,
        k,
        record s {
          vector = v;
          heap =
              update s.heap b.entry
                (elim (s.heap b.entry) [ none ↦ none | some e ↦ some (fill k e) ]);
          next_id = k + 1;
        },
      )
]

unfoldable pub add_entry :
    Blocks → Bool → ℕ → (ℕ → Entry → Entry) → Watchers → Option (ArtikError × ℕ × Watchers)
add_entry b func user_data fill s =
    if b.entry == 0 || b.handle == 0
    then none
    else appended b fill (started_with b func user_data s)

unfoldable pub os_add_timeout_callback :
    Blocks → Bool → ℕ → Watchers → Option (ArtikError × ℕ × Watchers)
os_add_timeout_callback b func user_data s =
    add_entry b func user_data (λ k e. record e { id = k }) s

unfoldable pub os_add_periodic_callback :
    Blocks → Bool → ℕ → Watchers → Option (ArtikError × ℕ × Watchers)
os_add_periodic_callback b func user_data s =
    add_entry b func user_data (λ k e. record e { id = k }) s

unfoldable pub os_add_fd_watch :
    Blocks → ℕ → Bool → ℕ → Watchers → Option (ArtikError × ℕ × Watchers)
os_add_fd_watch b fd func user_data s =
    add_entry b func user_data (λ k e. record e { id = k; fd = fd }) s

-- The id is given out, but not stored in the entry.
unfoldable pub os_add_idle_callback :
    Blocks → Bool → ℕ → Watchers → Option (ArtikError × ℕ × Watchers)
os_add_idle_callback b func user_data s = add_entry b func user_data (λ k e. e) s

-- The end of every callback: the handle and the entry are freed, and the id is then read from the
-- entry for the clean-up.
unfoldable pub expire : ℕ → Entry → (ℕ → Bool) → Watchers → Option Watchers
unfolding dispose
expire p e realloc s =
    let s' : Watchers = dispose p e s in
    elim (s'.heap p) [ none ↦ none | some e' ↦ watchers_cleanup e'.id realloc s' ]

-- The entry behind a handle that fires.
unfoldable pub fired : ℕ → Watchers → Option (ℕ × Entry)
fired handle s = elim (s.handles handle) [
  | none ↦ none
  | some p ↦ elim (s.heap p) [ none ↦ none | some e ↦ some (p, e) ]
]

-- The callbacks, around functions of the application that leave the loop alone. `ret` is what the
-- function returns.
unfoldable pub timeout_callback : ℕ → (ℕ → Bool) → Watchers → Option Watchers
timeout_callback handle realloc s = elim (fired handle s) [
  | none ↦ none
  | some (p, e) ↦ expire p e realloc s
]

unfoldable pub periodic_callback : ℕ → ℕ → (ℕ → Bool) → Watchers → Option Watchers
periodic_callback handle ret realloc s = elim (fired handle s) [
  | none ↦ none
  | some (p, e) ↦
      if e.func then (if ret == 1 then some s else expire p e realloc s) else expire p e realloc s
]

-- A watch and an idle callback call the function without a test: NULL faults.
unfoldable pub watch_callback : ℕ → ℕ → (ℕ → Bool) → Watchers → Option Watchers
watch_callback handle ret realloc s = elim (fired handle s) [
  | none ↦ none
  | some (p, e) ↦ if e.func then (if ret == 0 then expire p e realloc s else some s) else none
]

unfoldable pub idle_callback : ℕ → ℕ → (ℕ → Bool) → Watchers → Option Watchers
idle_callback handle ret realloc s = elim (fired handle s) [
  | none ↦ none
  | some (p, e) ↦ if e.func then (if ret == 0 then expire p e realloc s else some s) else none
]
