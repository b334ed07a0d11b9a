-- ===== src/Loop/Watchers/Addition.antt =====
-- tizenrt_loop.c: what `os_add_timeout_callback` puts into the loop.
use artik_sdk.Prelude.{
  ℕ, ◌+◌, ◌<◌, ◌≡◌, ◌≢◌, refl, sym, subst, Bool, true, Option, some, List, [], ◌∷◌, ◌++◌, All,
  ==_self, ne→==,
}
use artik_sdk.Error.{s_ok}
use artik_sdk.Loop.Vector.Refine.{items, ptr_vector_append-items}
use artik_sdk.Loop.Watchers.{
  Entry, Watchers, update, Blocks, wrapped, started_with, appended, add_entry,
  os_add_timeout_callback,
}
use artik_sdk.Loop.Watchers.Entries.{IsLive, IsDistinct, IsSound}

append-IsDistinct :
    (l : List ℕ) (a : ℕ) → IsDistinct l → All (λ x. x ≢ a) l → IsDistinct (l ++ a ∷ [])
append-IsDistinct [] a d n = (tt, tt)
append-IsDistinct (x ∷ l) a d n =
    (append-All l a x d.0 (λ e. n.0 (sym e)), append-IsDistinct l a d.1 n.1)
  where
    append-All :
        (m : List ℕ) (b y : ℕ) → All (λ z. z ≢ y) m → b ≢ y → All (λ z. z ≢ y) (m ++ b ∷ [])
    append-All [] b y h k = (k, tt)
    append-All (z ∷ m) b y h k = (h.0, append-All m b y h.1 k)

add-IsLive :
    (heap : ℕ → Option Entry) (a : ℕ) (e : Entry) (l : List ℕ)
    → e.handle ≢ 0
    → All (λ x. x ≢ a) l
    → All (λ p. IsLive heap p) l
    → All (λ p. IsLive (update heap a (some e)) p) (l ++ a ∷ [])
add-IsLive heap a e [] z n h = ((e, rw (==_self a) refl, z), tt)
add-IsLive heap a e (x ∷ l) z n h =
    ((h.0.0, rw (ne→== x a n.0) h.0.1, h.0.2), add-IsLive heap a e l z n.1 h.1)

update-IsLive :
    (heap : ℕ → Option Entry) (a : ℕ) (e : Entry) (l : List ℕ)
    → All (λ x. x ≢ a) l
    → All (λ p. IsLive heap p) l
    → All (λ p. IsLive (update heap a (some e)) p) l
update-IsLive heap a e [] n h = tt
update-IsLive heap a e (x ∷ l) n h =
    ((h.0.0, rw (ne→== x a n.0) h.0.1, h.0.2), update-IsLive heap a e l n.1 h.1)

-- The entry that a timeout gets, and the heap with it.
abbrev pub timeout_entry : Blocks → Bool → ℕ → ℕ → Entry
timeout_entry b func user_data id = record (b.junk) {
  func = func;
  user_data = user_data;
  handle = b.handle;
  id = id;
}

-- A timeout that gets its two blocks and room in the vector, at an address that no entry of the
-- vector has, is added behind the entries under the id that is handed out, and leaves every entry
-- allocated, with a handle, and once in the vector.
pub os_add_timeout_callback_lem :
    (b : Blocks) (func : Bool) (user_data : ℕ) (s : Watchers)
    → IsSound s
    → s.vector.len < 65535
    → b.entry ≢ 0
    → b.handle ≢ 0
    → b.realloc ≡ true
    → All (λ x. x ≢ b.entry) (items s.vector)
    → (s' : Watchers) × (os_add_timeout_callback b func user_data s
        ≡ some (s_ok, wrapped s.next_id, s'))
      × IsSound s'
      × (items s'.vector ≡ items s.vector ++ b.entry ∷ [])
      × (s'.heap b.entry ≡ some (timeout_entry b func user_data (wrapped s.next_id)))
unfolding os_add_timeout_callback add_entry appended
os_add_timeout_callback_lem b func user_data s h l zp zq m n =
    let (v, a, valid, i) = ptr_vector_append-items s.vector b.entry h.valid l in
    let k : ℕ = wrapped s.next_id in
    let e : Entry = timeout_entry b func user_data k in
    let heap : ℕ → Option Entry = (started_with b func user_data s).heap in
    let live : All (λ p. IsLive heap p) (items s.vector) =
      update-IsLive s.heap b.entry (timeout_entry b func user_data b.junk.id) (items s.vector) n
        h.live in
    (
      record (started_with b func user_data s) {
        vector = v;
        heap = update heap b.entry (some e);
        next_id = k + 1;
      },
      rw
          (
            ne→== b.entry 0 zp,
            ne→== b.handle 0 zq,
            m,
            a,
            ==_self b.entry,
            os_add_timeout_callback,
            add_entry,
            appended,
          )
          refl,
      record {
        valid = valid;
        distinct =
            subst IsDistinct (sym i) (append-IsDistinct (items s.vector) b.entry h.distinct n);
        live =
            subst (All (λ p. IsLive (update heap b.entry (some e)) p)) (sym i)
              (add-IsLive heap b.entry e (items s.vector) zq n live);
      },
      i,
      rw (==_self b.entry) refl,
    )
