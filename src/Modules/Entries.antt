-- ===== src/Modules/Entries.antt =====
-- linux_module.c: the list of requests as a list of complete entries, and the searches on it.
use artik_sdk.Prelude.Counting.{count_if}
use artik_sdk.Prelude.{
  ℕ, ◌+◌, ◌<◌, ◌≡◌, refl, Bool, true, false, none, some, List, [], ◌∷◌, ◌++◌, ◌⊎◌, inl, inr, arith,
  ◌==◌, if◌then◌else◌, Bool-cases,
}
use artik_sdk.Prelude.Text.{Bytes}
use artik_sdk.ArtikList.{ArtikList, Node, find_first}
use artik_sdk.ArtikList.Deletion.{without}
use artik_sdk.Modules.{ModuleInfo, find_ops, same_ops}

-- A request of a module: the block and the text of the name, the library and the symbol.
pub record Entry : Type 0 where
  pub name : ℕ
  pub text : Bytes
  pub handle : ℕ
  pub symbol : ℕ

abbrev pub info_of : Entry → ModuleInfo
info_of e = record {
  module_name = some (e.name, e.text);
  dl_handle = some e.handle;
  dl_symbol = some e.symbol;
}

-- Each node is the entry in its place.
abbrev pub Holds : ArtikList ModuleInfo → List Entry → Type 0
Holds [] [] = Unit {0}
Holds [] (e ∷ es) = ⊥
Holds (x ∷ l) [] = ⊥
Holds (x ∷ l) (e ∷ es) = (x.payload ≡ info_of e) × Holds l es

abbrev pub sharers : ℕ → List Entry → ℕ
sharers p = count_if (λ e. p == e.name)

-- How many different modules have the library `h`: the last entry of each name counts.
abbrev pub loads : ℕ → List Entry → ℕ
loads h [] = 0
loads h (e ∷ es) =
    (if sharers e.name es == 0 then (if h == e.handle then 1 else 0) else 0) + loads h es

abbrev pub In : Entry → List Entry → Type 0
In e [] = ⊥
In e (f ∷ es) = (e ≡ f) ⊎ In e es

pub In-append : (a e : Entry) (es : List Entry) → In a (es ++ e ∷ []) → In a es ⊎ (a ≡ e)
In-append a e [] (inl h) = inr h
In-append a e [] (inr h) = absurd h
In-append a e (f ∷ es) (inl h) = inl (inl h)
In-append a e (f ∷ es) (inr h) = elim (In-append a e es h) [ inl i ↦ inl (inr i) | inr i ↦ inr i ]

pub sharers-In : (a : Entry) (es : List Entry) → In a es → 0 < sharers a.name es
sharers-In a [] h = absurd h
sharers-In a (f ∷ es) (inl h) = rw h (ground arith)
sharers-In a (f ∷ es) (inr h) = omega (arith, sharers-In a es h)

pub sharers-zero :
    (p : ℕ) (es : List Entry) → ((a : Entry) → In a es → (p == a.name) ≡ false) → sharers p es ≡ 0
sharers-zero p [] t = refl
sharers-zero p (f ∷ es) t =
    rw (t f (inl refl)) (omega (arith, sharers-zero p es (λ a i. t a (inr i))))

pub Holds-append :
    (l : ArtikList ModuleInfo) (es : List Entry) (x : Node ModuleInfo) (e : Entry)
    → Holds l es
    → x.payload ≡ info_of e
    → Holds (l ++ x ∷ []) (es ++ e ∷ [])
Holds-append [] [] x e t h = (h, tt)
Holds-append [] (f ∷ es) x e t h = absurd t
Holds-append (y ∷ l) [] x e t h = absurd t
Holds-append (y ∷ l) (f ∷ es) x e t h = (t.0, Holds-append l es x e t.1 h)

-- The entries less the first that passes.
abbrev pub less : (Entry → Bool) → List Entry → List Entry
less p [] = []
less p (e ∷ es) = if p e then es else e ∷ less p es

pub In-less : (p : Entry → Bool) (a : Entry) (es : List Entry) → In a (less p es) → In a es
In-less p a [] h = h
In-less p a (e ∷ es) h = In-less_cons (p e) (λ i. In-less p a es i) h
  where
    In-less_cons :
        (b : Bool)
        → (In a (less p es) → In a es)
        → In a (if b then es else e ∷ less p es)
        → In a (e ∷ es)
    In-less_cons true rec i = inr i
    In-less_cons false rec (inl i) = inl i
    In-less_cons false rec (inr i) = inr (rec i)

module _ (head : ℕ → ℕ) (ops : ℕ) where
  abbrev pub is_of : Entry → Bool
  is_of e = head e.symbol == head ops

  -- What the search by functions finds, and what its removal leaves.
  pub record IsFound (l : ArtikList ModuleInfo) (es : List Entry) (n : Node ModuleInfo)
      : Type 0 where
    pub entry : Entry
    pub node : n.payload ≡ info_of entry
    pub within : In entry es
    pub hit : is_of entry ≡ true
    pub first : find_first (same_ops head ops) l ≡ some n
    pub rest : Holds (without (same_ops head ops) l) (less is_of es)
    pub counts :
        (q : Entry → Bool) → count_if q es ≡ (if q entry then 1 else 0) + count_if q (less is_of es)

  pub find_ops-IsFound :
      (l : ArtikList ModuleInfo) (es : List Entry) (n : Node ModuleInfo)
      → Holds l es
      → find_ops head ops l ≡ some (some n)
      → IsFound l es n
  unfolding find_ops find_first
  find_ops-IsFound [] es n t h = absurd (cc)
  find_ops-IsFound (x ∷ l) [] n t h = absurd t
  find_ops-IsFound (x ∷ l) (e ∷ es) n t h = elim (Bool-cases (is_of e)) [
    | inl y ↦ record {
      entry = e;
      node = ground (arith, t.0);
      within = inl refl;
      hit = y;
      first = ground (arith, t.0);
      rest = rw (t.0, y) t.1;
      counts = λ q. rw y refl;
    }
    | inr z ↦
        let f : IsFound l es n = find_ops-IsFound l es n t.1 (ground (arith, t.0)) in
        record {
          entry = f.entry;
          node = f.node;
          within = inr f.within;
          hit = f.hit;
          first = ground (arith, t.0, f.first);
          rest = rw (t.0, z) (refl, f.rest);
          counts = λ q. rw z (omega (arith, f.counts q));
        }
  ]

  pub find_ops-none :
      (l : ArtikList ModuleInfo) (es : List Entry)
      → Holds l es
      → find_ops head ops l ≡ some none
      → (a : Entry) → In a es
      → is_of a ≡ false
  unfolding find_ops
  find_ops-none [] [] t h a i = absurd i
  find_ops-none [] (e ∷ es) t h a i = absurd t
  find_ops-none (x ∷ l) [] t h a i = absurd t
  find_ops-none (x ∷ l) (e ∷ es) t h a (inl i) = rw i (ground (arith, t.0))
  find_ops-none (x ∷ l) (e ∷ es) t h a (inr i) = find_ops-none l es t.1 (ground (arith, t.0)) a i
