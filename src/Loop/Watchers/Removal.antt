-- ===== src/Loop/Watchers/Removal.antt =====
-- tizenrt_loop.c: what `os_remove_...` takes out.
use artik_sdk.Prelude.{
  ℕ, zero, suc, ◌≡◌, ◌≢◌, refl, Bool, true, false, Option, none, some, List, [], ◌∷◌, ◌++◌, arith,
  ap, sym, ◌∙◌, subst, ◌==◌, length, take, drop, All, Bool-cases, inl, inr, append_assoc,
  append-nil, length-append, ne→==,
}
use artik_sdk.Error.{s_ok}
use artik_sdk.Loop.Vector.{ptr_vector_del}
use artik_sdk.Loop.Vector.Refine.{items, ptr_vector_del-items, length-items}
use artik_sdk.Loop.Watchers.{
  Entry, Watchers, update, leave, dispose, clean_entry, clean_at, cleanup_from, watchers_cleanup,
  os_remove,
}
use artik_sdk.Loop.Watchers.Entries.{
  has_id, keep, IsLive, IsDistinct, IsSound, snoc-split, keep-append, has_id-update, update-other,
  apart, has_id-live, keep-update, All-middle, IsDistinct-middle, IsLive-update, All-left, slot-lem,
  cut-lem, in-range,
}

-- An entry that is disposed of and leaves the vector.
leave-IsSound :
    (s : Watchers) (realloc : Bool) (a : ℕ) (l r : List ℕ) (e : Entry)
    → IsSound s
    → items s.vector ≡ l ++ a ∷ r
    → IsSound (leave (length l) realloc (dispose a e s))
      × (items (leave (length l) realloc (dispose a e s)).vector ≡ l ++ r)
unfolding dispose
leave-IsSound s realloc a l r e h i =
    let d =
      ptr_vector_del-items s.vector (length l) realloc h.valid
        (in-range s.vector a l r h.valid i) in
    let m = IsDistinct-middle a l r (subst IsDistinct i h.distinct) in
    let v = All-middle (λ p. IsLive s.heap p) a l r (subst (All (λ p. IsLive s.heap p)) i h.live) in
    let k : items (ptr_vector_del s.vector (length l) realloc).1 ≡ l ++ r =
      d.2 ∙ ap (λ (q : List ℕ). take (length l) q ++ drop (suc (length l)) q) i ∙ cut-lem a l r in
    (
      record {
        valid = d.1;
        distinct = subst IsDistinct (sym k) m.1;
        live =
            subst (All (λ p. IsLive (update s.heap a none) p)) (sym k)
              (IsLive-update s.heap a (l ++ r) m.0 v.1);
      },
      k,
    )

-- A round at a live entry: it goes if it has the id, and nothing changes otherwise.
clean_at-hit :
    (s : Watchers) (id a : ℕ) (realloc : Bool) (l r : List ℕ) (e : Entry)
    → items s.vector ≡ l ++ a ∷ r
    → s.heap a ≡ some e
    → e.handle ≢ 0
    → (e.id == id) ≡ true
    → clean_at (length l) id realloc s ≡ some (leave (length l) realloc (dispose a e s))
unfolding clean_at clean_entry
clean_at-hit s id a realloc l r e i h z t =
    rw
      (
        slot-lem s.vector.block s.vector.len a l r i,
        h,
        t,
        ne→== e.handle 0 z,
        clean_entry,
        clean_at,
      )
      refl

clean_at-miss :
    (s : Watchers) (id a : ℕ) (realloc : Bool) (l r : List ℕ) (e : Entry)
    → items s.vector ≡ l ++ a ∷ r
    → s.heap a ≡ some e
    → (e.id == id) ≡ false
    → clean_at (length l) id realloc s ≡ some s
unfolding clean_at clean_entry
clean_at-miss s id a realloc l r e i h t =
    rw (slot-lem s.vector.block s.vector.len a l r i, h, t, clean_entry, clean_at) refl

length-snoc : (l : List ℕ) (a : ℕ) → length (l ++ a ∷ []) ≡ suc (length l)
length-snoc l a = omega (arith, length-append l (a ∷ []))

keep-one :
    (heap : ℕ → Option Entry) (id a : ℕ) (l r : List ℕ)
    → has_id heap id a ≡ false
    → keep heap id (l ++ a ∷ []) ++ r ≡ keep heap id l ++ a ∷ r
keep-one heap id a l r t =
    rw (keep-append heap id l (a ∷ []), t) (append_assoc (keep heap id l) (a ∷ []) r)

keep-none :
    (heap : ℕ → Option Entry) (id a : ℕ) (l r : List ℕ)
    → has_id heap id a ≡ true
    → keep heap id (l ++ a ∷ []) ++ r ≡ keep heap id l ++ r
keep-none heap id a l r t = rw (keep-append heap id l (a ∷ []), t, append-nil (keep heap id l)) refl

-- What the rounds over `l` leave in front of `r`.
abbrev Cleaned : ℕ → (ℕ → Bool) → Watchers → List ℕ → List ℕ → Type 0
Cleaned id realloc s l r =
    (s' : Watchers) × (cleanup_from (length l) id realloc s ≡ some s')
    × IsSound s'
    × (items s'.vector ≡ keep s.heap id l ++ r)
    × ((x : ℕ) → has_id s.heap id x ≡ false → s'.heap x ≡ s.heap x)

Cleaned-miss :
    (id a : ℕ) (realloc : ℕ → Bool) (s : Watchers) (l r : List ℕ)
    → clean_at (length l) id (realloc (length l)) s ≡ some s
    → has_id s.heap id a ≡ false
    → Cleaned id realloc s l (a ∷ r)
    → Cleaned id realloc s (l ++ a ∷ []) r
unfolding cleanup_from
Cleaned-miss id a realloc s l r c t (s', e, h, i, f) =
    (s', rw (length-snoc l a, c, cleanup_from) e, h, i ∙ sym (keep-one s.heap id a l r t), f)

Cleaned-hit :
    (id a : ℕ) (realloc : ℕ → Bool) (s : Watchers) (l r : List ℕ) (d : Entry)
    → clean_at (length l) id (realloc (length l)) s
      ≡ some (leave (length l) (realloc (length l)) (dispose a d s))
    → has_id s.heap id a ≡ true
    → All (λ x. x ≢ a) l
    → Cleaned id realloc (leave (length l) (realloc (length l)) (dispose a d s)) l r
    → Cleaned id realloc s (l ++ a ∷ []) r
unfolding cleanup_from dispose
Cleaned-hit id a realloc s l r d c t n (s', e, h, i, f) = (
  s',
  rw (length-snoc l a, c, cleanup_from) e,
  h,
  i ∙ ap (λ (q : List ℕ). q ++ r) (keep-update s.heap id a l n) ∙ sym (keep-none s.heap id a l r t),
  λ x w.
      let z : x ≢ a = apart (has_id s.heap id) a x t w in
      f x (has_id-update s.heap id a x z ∙ w) ∙ update-other s.heap a x z,
)

-- The round at the last entry of `l`, given what the rounds below it do.
last_round :
    (id a : ℕ) (realloc : ℕ → Bool) (s : Watchers) (l r : List ℕ)
    → ((t : Watchers) (w : List ℕ) → IsSound t → items t.vector ≡ l ++ w → Cleaned id realloc t l w)
    → IsSound s
    → items s.vector ≡ l ++ a ∷ r
    → Cleaned id realloc s (l ++ a ∷ []) r
last_round id a realloc s l r again h i =
    let (e, he, hz) =
      (All-middle (λ p. IsLive s.heap p) a l r (subst (All (λ p. IsLive s.heap p)) i h.live)).0 in
    elim (Bool-cases (e.id == id)) [
      | inl t ↦
          let g = leave-IsSound s (realloc (length l)) a l r e h i in
          Cleaned-hit id a realloc s l r e
            (clean_at-hit s id a (realloc (length l)) l r e i he hz t)
            (has_id-live s.heap id a e true he t)
            (All-left (λ x. x ≢ a) l r (IsDistinct-middle a l r (subst IsDistinct i h.distinct)).0)
            (again (leave (length l) (realloc (length l)) (dispose a e s)) r g.0 g.1)
      | inr t ↦
          Cleaned-miss id a realloc s l r (clean_at-miss s id a (realloc (length l)) l r e i he t)
            (has_id-live s.heap id a e false he t) (again s (a ∷ r) h i)
    ]

cleanup_from_lem :
    (n id : ℕ) (realloc : ℕ → Bool) (s : Watchers) (l r : List ℕ)
    → IsSound s
    → items s.vector ≡ l ++ r
    → length l ≡ n
    → Cleaned id realloc s l r
unfolding cleanup_from
cleanup_from_lem zero id realloc s [] r h i k = (s, refl, h, i, λ x w. refl)
cleanup_from_lem zero id realloc s (x ∷ l) r h i k = absurd (omega arith)
cleanup_from_lem (suc n) id realloc s l r h i k =
    let (l', a, e, k') = snoc-split n l k in
    subst (λ (q : List ℕ). Cleaned id realloc s q r) (sym e)
      (last_round id a realloc s l' r (λ t w g m. cleanup_from_lem n id realloc t l' w g m k') h
        (i ∙ ap (λ (q : List ℕ). q ++ r) e ∙ append_assoc l' (a ∷ []) r))

-- Where every entry of the vector is allocated, has a handle and stands there once, removing an id
-- ends without a fault, takes exactly the entries of that id out of the vector, leaves the others
-- in their order, each as it was, and keeps that state of the vector and its entries.
pub os_remove_lem :
    (id : ℕ) (realloc : ℕ → Bool) (s : Watchers)
    → IsSound s
    → (s' : Watchers) × (os_remove id realloc s ≡ some (s_ok, s'))
      × IsSound s'
      × (items s'.vector ≡ keep s.heap id (items s.vector))
      × ((x : ℕ) → has_id s.heap id x ≡ false → s'.heap x ≡ s.heap x)
unfolding os_remove watchers_cleanup
os_remove_lem id realloc s h =
    let (s', e, h', i, f) =
      cleanup_from_lem (length (items s.vector)) id realloc s (items s.vector) [] h
        (sym (append-nil (items s.vector))) refl in
    let e' : cleanup_from s.vector.len id realloc s ≡ some s' =
      subst (λ (q : ℕ). cleanup_from q id realloc s ≡ some s') (length-items s.vector h.valid) e in
    (
      s',
      rw (e', os_remove, watchers_cleanup) refl,
      h',
      i ∙ append-nil (keep s.heap id (items s.vector)),
      f,
    )
