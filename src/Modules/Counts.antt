-- ===== src/Modules/Counts.antt =====
-- linux_module.c: how the number of modules that share a library changes with the requests.
use artik_sdk.Prelude.{
  ℕ, ◌+◌, ◌<◌, ◌≡◌, refl, sym, ap, ◌∙◌, Bool, false, List, [], ◌∷◌, ◌++◌, inl, inr, arith, ◌==◌,
  if◌then◌else◌, Bool-cases,
}
use artik_sdk.Prelude.Counting.{count_if-append}
use artik_sdk.Modules.Entries.{Entry, In, sharers, loads, less}

-- A request of a module that nobody has.
pub loads-append_new :
    (h : ℕ) (es : List Entry) (e : Entry)
    → sharers e.name es ≡ 0
    → loads h (es ++ e ∷ []) ≡ loads h es + (if h == e.handle then 1 else 0)
loads-append_new h [] e z = ground arith
loads-append_new h (f ∷ es) e z = ground (
  arith,
  count_if-append (λ (a : Entry). f.name == a.name) es (e ∷ []),
  loads-append_new h es e (ground arith),
)

-- A request of a module that somebody has.
pub loads-append_shared :
    (h : ℕ) (es : List Entry) (e : Entry)
    → ((a : Entry) → In a es → e.name ≡ a.name → a.handle ≡ e.handle)
    → 0 < sharers e.name es
    → loads h (es ++ e ∷ []) ≡ loads h es
loads-append_shared h [] e t z = absurd (omega arith)
loads-append_shared h (f ∷ es) e t z = elim (Bool-cases (sharers e.name es == 0)) [
  | inl y ↦ ground (
    arith,
    count_if-append (λ (a : Entry). f.name == a.name) es (e ∷ []),
    loads-append_new h es e (ground arith),
    t f (inl refl),
  )
  | inr n ↦ ground (
    arith,
    count_if-append (λ (a : Entry). f.name == a.name) es (e ∷ []),
    loads-append_shared h es e (λ a i. t a (inr i)) (ground arith),
  )
]

-- A release of the module of `e`, whose requests are the ones that pass.
module _ (p : Entry → Bool) (e : Entry) where
  sharers-less :
      (n : ℕ) (es : List Entry)
      → ((a : Entry) → In a es → p a ≡ (e.name == a.name))
      → (n == e.name) ≡ false
      → sharers n (less p es) ≡ sharers n es
  sharers-less n [] t z = refl
  sharers-less n (f ∷ es) t z =
      ground (arith, t f (inl refl), sharers-less n es (λ a i. t a (inr i)) z)

  In-tail : (f : Entry) (es : List Entry) → (e.name == f.name) ≡ false → In e (f ∷ es) → In e es
  In-tail f es n (inl g) = absurd (ground (arith, ap (λ (a : Entry). a.name) g))
  In-tail f es n (inr j) = j

  pub loads-less :
      (h : ℕ) (es : List Entry)
      → ((a : Entry) → In a es → p a ≡ (e.name == a.name))
      → ((a : Entry) → In a es → e.name ≡ a.name → a.handle ≡ e.handle)
      → In e es
      → loads h es
        ≡ (if sharers e.name (less p es) == 0 then (if h == e.handle then 1 else 0) else 0)
          + loads h (less p es)
  loads-less h [] t u i = absurd i
  loads-less h (f ∷ es) t u i = elim (Bool-cases (p f)) [
    | inl y ↦ ground (arith, t f (inl refl), u f (inl refl))
    | inr n ↦
        let other : (e.name == f.name) ≡ false = sym (t f (inl refl)) ∙ n in
        ground (
          arith,
          other,
          sharers-less f.name es (λ a j. t a (inr j)) (ground arith),
          loads-less h es (λ a j. t a (inr j)) (λ a j. u a (inr j)) (In-tail f es other i),
        )
  ]
