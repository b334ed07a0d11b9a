-- ===== src/Loop/Linux/Ownership.antt =====
-- linux_loop.c: the blocks that are allocated against the sources that GLib has.
use artik_sdk.Prelude.{
  ℕ, not, ◌||◌, ◌≡◌, refl, sym, ap, ◌∙◌, Bool, true, false, Option, none, some, List, [], ◌∷◌, map,
  inl, inr, subst, arith, ◌==◌, if◌then◌else◌, Option-cases, Bool-cases,
}
use artik_sdk.Prelude.Int.{ℤ, is_neg}
use artik_sdk.Error.{ArtikError, e_bad_args, code}
use artik_sdk.Loop.Linux.Context.{
  timeout, periodic, idle, watch, signal, Source, Glib, IsGlib, block_of, without_id,
}
use artik_sdk.Loop.Linux.{
  goes_on, is_empty, minus_einval, Call, run_call, block, add_timeout, add_periodic, add_idle,
  add_fd_watch, add_signal, remove_timeout, remove_periodic, remove_idle, remove_fd_watch,
  remove_signal, Block, Main, is_bad_id, guint_of, g_free, find_block, add_source,
  os_add_timeout_callback, os_add_periodic_callback, os_add_idle_callback, os_add_fd_watch,
  os_add_signal_watch, source_remove, remove_source, os_remove_timeout_callback,
  os_remove_periodic_callback, os_remove_idle_callback, os_remove_fd_watch, os_remove_signal_watch,
  dispatched,
}

-- The source of a block.
abbrev pub source_of : Block → ℕ × ℕ
source_of b = (b.id, b.addr)

-- No two blocks have one address.
abbrev pub IsApart : List Block → Type 0
IsApart [] = Unit {0}
IsApart (b ∷ l) = (find_block b.addr l ≡ none) × IsApart l

-- Every block that is allocated belongs to one source that is attached, under the id that is in the
-- block, and every source has such a block.
pub record IsOwned {W : Type 0} (glib : Glib W) (s : Main W) : Type 0 where
  pub sources : map source_of s.blocks ≡ glib.attached s.world
  pub apart : IsApart s.blocks

find_block-block_of :
    (id p : ℕ) (l : List Block)
    → block_of id (map source_of l) ≡ some p
    → (b : Block) × (find_block p l ≡ some b)
unfolding find_block
find_block-block_of id p [] h = absurd (cc)
find_block-block_of id p (b ∷ l) h = elim (Bool-cases (p == b.addr)) [
  | inl y ↦ (b, ground (arith, y))
  | inr n ↦
      let r : (c : Block) × (find_block p l ≡ some c) =
        find_block-block_of id p l (ground (arith, h)) in
      (r.0, ground (arith, n, r.1))
]

-- Freeing the block of a source is removing the source.
g_free-without_id :
    (id p : ℕ) (l : List Block)
    → IsApart l
    → block_of id (map source_of l) ≡ some p
    → map source_of (g_free p l) ≡ without_id id (map source_of l)
unfolding g_free find_block
g_free-without_id id p [] a h = refl
g_free-without_id id p (b ∷ l) a h = elim (Bool-cases (id == b.id)) [
  | inl y ↦ ground (arith, h)
  | inr n ↦
      let e : block_of id (map source_of l) ≡ some p = ground (arith, h) in
      let r : (c : Block) × (find_block p l ≡ some c) = find_block-block_of id p l e in
      elim (Bool-cases (p == b.addr)) [
        | inl m ↦ absurd (ground (arith, m, a.0, r.1))
        | inr m ↦ rw (n, m) (ap (◌∷◌ (b.id, b.addr)) (g_free-without_id id p l a.1 e))
      ]
]

find_block-g_free :
    (p q : ℕ) (l : List Block) → find_block p l ≡ none → find_block p (g_free q l) ≡ none
unfolding g_free find_block
find_block-g_free p q [] h = refl
find_block-g_free p q (b ∷ l) h = ground (arith, find_block-g_free p q l)

g_free-IsApart : (p : ℕ) (l : List Block) → IsApart l → IsApart (g_free p l)
unfolding g_free
g_free-IsApart p [] a = tt
g_free-IsApart p (b ∷ l) a =
    ground (arith, g_free-IsApart p l a.1, find_block-g_free b.addr p l a.0)

module _ {W : Type 0} (glib : Glib W) (laws : IsGlib glib) where
  if-IsOwned :
      (b : Bool) (x y : ArtikError × Option ℕ × Main W)
      → IsOwned glib x.2
      → IsOwned glib y.2
      → IsOwned glib (if b then x else y).2
  if-IsOwned true x y u v = u
  if-IsOwned false x y u v = v

  add_source-IsOwned :
      (source : Source) (func user_data : ℕ) (block : Option ℕ) (s : Main W)
      → IsOwned glib s
      → ((p : ℕ) → block ≡ some p → find_block p s.blocks ≡ none)
      → IsOwned glib (add_source glib source func user_data block s).2
  unfolding add_source
  add_source-IsOwned source func user_data none s o fresh = o
  add_source-IsOwned source func user_data (some p) s o fresh = record {
    sources =
        ap (◌∷◌ ((glib.attach source p s.world).0, p)) o.sources
        ∙ sym (laws.attached source p s.world);
    apart = (fresh p refl, o.apart);
  }

  source_remove-IsOwned :
      (id : ℕ) (s : Main W) → IsOwned glib s → IsOwned glib (source_remove glib id s).1
  unfolding source_remove
  source_remove-IsOwned id s o = elim (Option-cases (block_of id (glib.attached s.world))) [
    | inl n ↦ rw (laws.missing id s.world n) o
    | inr (p, e) ↦ record {
      sources = rw ((laws.found id p s.world e).1) (
          g_free-without_id id p s.blocks o.apart (ap (block_of id) o.sources ∙ e)
          ∙ ap (without_id id) o.sources
          ∙ sym (laws.removed id p s.world e));
      apart = rw ((laws.found id p s.world e).1) (g_free-IsApart p s.blocks o.apart);
    }
  ]

  remove_source-IsOwned :
      (wrong id : ℤ) (s : Main W) → IsOwned glib s → IsOwned glib (remove_source glib wrong id s).1
  unfolding remove_source
  remove_source-IsOwned wrong id s o = elim (Bool-cases (is_bad_id id)) [
    | inl y ↦ rw y o
    | inr n ↦ rw n (elim (Bool-cases (source_remove glib (guint_of id) s).0) [
      | inl y ↦ rw y (source_remove-IsOwned (guint_of id) s o)
      | inr m ↦ rw m (source_remove-IsOwned (guint_of id) s o)
    ])
  ]

  dispatched-IsOwned :
      (source : Source) (id p : ℕ) (ret : ℤ) (s t : Main W)
      → IsOwned glib s
      → dispatched glib source id p ret s ≡ some t
      → IsOwned glib t
  unfolding dispatched
  dispatched-IsOwned source id p ret s t o h = elim (Option-cases (find_block p s.blocks)) [
    | inl n ↦ absurd (ground (arith, h))
    | inr (b, e) ↦
        let s' : Main W = record s { calls = (b.func, b.user_data) ∷ s.calls } in
        let o' : IsOwned glib s' = record { sources = o.sources; apart = o.apart } in
        elim (Bool-cases (goes_on source ret)) [
          | inl y ↦ subst (IsOwned glib) (ground (arith, h, e, y)) o'
          | inr n ↦ subst (IsOwned glib) (ground (arith, h, e, n)) (source_remove-IsOwned id s' o')
        ]
  ]

  run_call-IsOwned :
      (c : Call) (s : Main W)
      → IsOwned glib s
      → ((p : ℕ) → block c ≡ some p → find_block p s.blocks ≡ none)
      → IsOwned glib (run_call glib c s)
  unfolding run_call os_add_timeout_callback os_add_periodic_callback os_add_idle_callback
      os_add_fd_watch os_add_signal_watch os_remove_timeout_callback os_remove_periodic_callback
      os_remove_idle_callback os_remove_fd_watch os_remove_signal_watch
  run_call-IsOwned (add_timeout place msec func user_data m) s o f =
      if-IsOwned (func == 0 || not place) _ _ o
        (add_source-IsOwned (timeout msec) func user_data m s o f)
  run_call-IsOwned (add_periodic place msec func user_data m) s o f =
      if-IsOwned (func == 0 || not place) _ _ o
        (add_source-IsOwned (periodic msec) func user_data m s o f)
  run_call-IsOwned (add_idle func user_data m) s o f =
      if-IsOwned (func == 0) _ _ o (add_source-IsOwned idle func user_data m s o f)
  run_call-IsOwned (add_fd_watch fd io func user_data m) s o f = if-IsOwned (is_neg fd) _ _ o (
      if-IsOwned (func == 0) _ _ o
        (if-IsOwned (is_empty io) _ _ o (add_source-IsOwned (watch fd io) func user_data m s o f)))
  run_call-IsOwned (add_signal signum func user_data m) s o f =
      if-IsOwned (signum == 1 || (signum == 2 || signum == 15)) _ _
        (add_source-IsOwned (signal signum) func user_data m s o f) o
  run_call-IsOwned (remove_timeout id) s o f = remove_source-IsOwned (code e_bad_args) id s o
  run_call-IsOwned (remove_periodic id) s o f = remove_source-IsOwned (code e_bad_args) id s o
  run_call-IsOwned (remove_idle id) s o f = remove_source-IsOwned (code e_bad_args) id s o
  run_call-IsOwned (remove_fd_watch id) s o f = remove_source-IsOwned minus_einval id s o
  run_call-IsOwned (remove_signal id) s o f = remove_source-IsOwned minus_einval id s o

-- What changes the state: a function of the module, whose block is new, and a source that GLib runs.
pub data Step {W : Type 0} (glib : Glib W) : Main W → Main W → Type 0 where
  called :
      (c : Call) (s : Main W)
      → ((p : ℕ) → block c ≡ some p → find_block p s.blocks ≡ none)
      → Step glib s (run_call glib c s)
  ran :
      (source : Source) (id p : ℕ) (ret : ℤ) (s t : Main W)
      → dispatched glib source id p ret s ≡ some t
      → Step glib s t

pub data Reach {W : Type 0} (glib : Glib W) (s : Main W) : Main W → Type 0 where
  here : Reach glib s s
  next : {t u : Main W} → Reach glib s t → Step glib t u → Reach glib s u

-- Over a GLib that keeps to its documentation, after any calls of the module and any runs of sources,
-- the blocks that are allocated are those of the attached sources, each under the id that is in it: a
-- source that is removed or ends has its block freed, and no other. This holds again if it held before.
pub Reach-IsOwned :
    {W : Type 0} (glib : Glib W) {s t : Main W}
    → IsGlib glib
    → IsOwned glib s
    → Reach glib s t
    → IsOwned glib t
Reach-IsOwned glib laws o here = o
Reach-IsOwned glib laws o (next r (called c s f)) =
    run_call-IsOwned glib laws c s (Reach-IsOwned glib laws o r) f
Reach-IsOwned glib laws o (next r (ran source id p ret s t e)) =
    dispatched-IsOwned glib laws source id p ret s t (Reach-IsOwned glib laws o r) e
