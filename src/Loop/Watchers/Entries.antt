-- ===== src/Loop/Watchers/Entries.antt =====
-- tizenrt_loop.c: the entries that stand in a vector.
use artik_sdk.Prelude.{
  ℕ, zero, suc, ◌<◌, ◌≡◌, ◌≢◌, refl, Bool, true, false, Option, none, some, List, [], ◌∷◌, ◌++◌,
  arith, ap, sym, ◌==◌, if◌then◌else◌, length, take, drop, get_elem?, All, Bool-cases, inl, inr,
  length-append, ne→==,
}
use artik_sdk.Loop.Vector.{Vector}
use artik_sdk.Loop.Vector.Refine.{items, IsValid, length-items}
use artik_sdk.Loop.Watchers.{Entry, Watchers, update}

-- The entry at `p` has the id.
abbrev pub has_id : (ℕ → Option Entry) → ℕ → ℕ → Bool
has_id heap id p = elim (heap p) [ none ↦ false | some e ↦ e.id == id ]

-- The addresses of a list less those of the id.
abbrev pub keep : (ℕ → Option Entry) → ℕ → List ℕ → List ℕ
keep heap id [] = []
keep heap id (p ∷ l) = if has_id heap id p then keep heap id l else p ∷ keep heap id l

-- An entry that is allocated and has a handle.
abbrev pub IsLive : (ℕ → Option Entry) → ℕ → Type 0
IsLive heap p = (e : Entry) × (heap p ≡ some e) × (e.handle ≢ 0)

abbrev pub IsDistinct : List ℕ → Type 0
IsDistinct [] = Unit {0}
IsDistinct (p ∷ l) = All (λ x. x ≢ p) l × IsDistinct l

pub record IsSound (s : Watchers) : Type 0 where
  pub valid : IsValid s.vector
  pub distinct : IsDistinct (items s.vector)
  pub live : All (λ p. IsLive s.heap p) (items s.vector)

pub snoc-split :
    (n : ℕ) (l : List ℕ)
    → length l ≡ suc n
    → (r : List ℕ) × (a : ℕ) × (l ≡ r ++ a ∷ []) × (length r ≡ n)
snoc-split n [] h = absurd (omega arith)
snoc-split zero (x ∷ []) h = ([], x, refl, refl)
snoc-split zero (x ∷ y ∷ l) h = absurd (omega arith)
snoc-split (suc n) (x ∷ l) h =
    let r = snoc-split n l (omega arith) in (x ∷ r.0, r.1, ap (◌∷◌ x) r.2, ap suc r.3)

pub keep-append :
    (heap : ℕ → Option Entry) (id : ℕ) (l r : List ℕ)
    → keep heap id (l ++ r) ≡ keep heap id l ++ keep heap id r
keep-append heap id [] r = refl
keep-append heap id (x ∷ l) r = elim (Bool-cases (has_id heap id x)) [
  | inl e ↦ rw e (keep-append heap id l r)
  | inr e ↦ rw e (ap (◌∷◌ x) (keep-append heap id l r))
]

pub has_id-update :
    (heap : ℕ → Option Entry) (id a x : ℕ)
    → x ≢ a
    → has_id (update heap a none) id x ≡ has_id heap id x
has_id-update heap id a x h = rw (ne→== x a h, has_id) refl

pub update-other : (heap : ℕ → Option Entry) (a x : ℕ) → x ≢ a → update heap a none x ≡ heap x
update-other heap a x h = rw (ne→== x a h) refl

pub apart : (f : ℕ → Bool) (a x : ℕ) → f a ≡ true → f x ≡ false → x ≢ a
apart f a x t w = λ q. cc

pub has_id-live :
    (heap : ℕ → Option Entry) (id a : ℕ) (e : Entry) (b : Bool)
    → heap a ≡ some e
    → (e.id == id) ≡ b
    → has_id heap id a ≡ b
has_id-live heap id a e b h t = rw (h, has_id) t

pub keep-update :
    (heap : ℕ → Option Entry) (id a : ℕ) (l : List ℕ)
    → All (λ x. x ≢ a) l
    → keep (update heap a none) id l ≡ keep heap id l
keep-update heap id a [] h = refl
keep-update heap id a (x ∷ l) h =
    rw (has_id-update heap id a x h.0)
      (ap (λ (t : List ℕ). if has_id heap id x then t else x ∷ t) (keep-update heap id a l h.1))

pub All-middle : (P : ℕ → Type 0) (a : ℕ) (l r : List ℕ) → All P (l ++ a ∷ r) → P a × All P (l ++ r)
All-middle P a [] r h = h
All-middle P a (x ∷ l) r h = let t = All-middle P a l r h.1 in (t.0, (h.0, t.1))

pub IsDistinct-middle :
    (a : ℕ) (l r : List ℕ)
    → IsDistinct (l ++ a ∷ r)
    → All (λ x. x ≢ a) (l ++ r) × IsDistinct (l ++ r)
IsDistinct-middle a [] r h = h
IsDistinct-middle a (x ∷ l) r h =
    let t = IsDistinct-middle a l r h.1 in
    let m = All-middle (λ y. y ≢ x) a l r h.0 in (((λ e. m.0 (sym e)), t.0), (m.1, t.1))

pub IsLive-update :
    (heap : ℕ → Option Entry) (a : ℕ) (l : List ℕ)
    → All (λ x. x ≢ a) l
    → All (λ p. IsLive heap p) l
    → All (λ p. IsLive (update heap a none) p) l
IsLive-update heap a [] n h = tt
IsLive-update heap a (x ∷ l) n h = ((h.0.0, ground arith, h.0.2), IsLive-update heap a l n.1 h.1)

pub All-left : (P : ℕ → Type 0) (l r : List ℕ) → All P (l ++ r) → All P l
All-left P [] r h = tt
All-left P (x ∷ l) r h = (h.0, All-left P l r h.1)

pub slot-lem :
    (b : List ℕ) (k a : ℕ) (l r : List ℕ) → take k b ≡ l ++ a ∷ r → get_elem? b (length l) ≡ some a
slot-lem b zero a [] r h = cc
slot-lem b zero a (x ∷ l) r h = cc
slot-lem [] (suc k) a [] r h = cc
slot-lem [] (suc k) a (x ∷ l) r h = cc
slot-lem (y ∷ b) (suc k) a [] r h = cc
slot-lem (y ∷ b) (suc k) a (x ∷ l) r h = slot-lem b k a l r cc

pub cut-lem :
    (a : ℕ) (l r : List ℕ)
    → take (length l) (l ++ a ∷ r) ++ drop (suc (length l)) (l ++ a ∷ r) ≡ l ++ r
cut-lem a [] r = refl
cut-lem a (x ∷ l) r = ap (◌∷◌ x) (cut-lem a l r)

pub in-range :
    (v : Vector) (a : ℕ) (l r : List ℕ) → IsValid v → items v ≡ l ++ a ∷ r → length l < v.len
in-range v a l r h e =
    let n : length (items v) ≡ length (l ++ a ∷ r) = ap length e in
    omega (arith, n, length-items v h, length-append l (a ∷ r))
