-- ===== src/Loop/Watchers/Expiry.antt =====
-- tizenrt_loop.c: the callbacks that end a timeout, a periodic timer, a watch and an idle callback.
use artik_sdk.Prelude.{
  ℕ, ◌≡◌, ◌≢◌, refl, Bool, none, some, arith, ==_self, Option-cases, inl, inr, ◌≡◌,
}
use artik_sdk.Loop.Watchers.{
  Entry, Watchers, dispose, update, expire, fired, timeout_callback, periodic_callback,
  watch_callback, idle_callback,
}

-- The id is read from an entry that has been freed.
expire-none : (p : ℕ) (e : Entry) (realloc : ℕ → Bool) (s : Watchers) → expire p e realloc s ≡ none
unfolding expire dispose
expire-none p e realloc s = rw (==_self p, expire, dispose, update) refl

-- A timeout that fires faults, and so does a periodic timer unless its function returns 1, and a
-- watch and an idle callback unless theirs return what is not 0: the clean-up reads the id of the
-- entry that was freed. A callback that does not fault leaves the loop as it was.
pub callbacks-fault :
    (handle ret : ℕ) (realloc : ℕ → Bool) (s : Watchers)
    → (timeout_callback handle realloc s ≡ none)
      × ((s' : Watchers) → periodic_callback handle ret realloc s ≡ some s' → (ret ≡ 1) × (s' ≡ s))
      × ((s' : Watchers) → watch_callback handle ret realloc s ≡ some s' → (ret ≢ 0) × (s' ≡ s))
      × ((s' : Watchers) → idle_callback handle ret realloc s ≡ some s' → (ret ≢ 0) × (s' ≡ s))
unfolding timeout_callback periodic_callback watch_callback idle_callback
callbacks-fault handle ret realloc s = elim (Option-cases (fired handle s)) [
  | inl e ↦ (ground arith, λ s' h. ground arith, λ s' h. ground arith, λ s' h. ground arith)
  | inr ((p, d), e) ↦
      let n : expire p d realloc s ≡ none = expire-none p d realloc s in
      (ground arith, λ s' h. ground arith, λ s' h. ground arith, λ s' h. ground arith)
]
