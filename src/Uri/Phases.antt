-- ===== src/Uri/Phases.antt =====
-- tizenrt_utils.c: what the loop does over each part of a well-formed URI.
use native.Mathlib.Nat.{add-zero}
use artik_sdk.Prelude.{
  drop, subst, ℕ, zero, suc, ◌+◌, ◌≤◌, ◌≡◌, refl, Bool, true, false, Option, none, some, List, [],
  ◌∷◌, ◌++◌, arith, length, ◌==◌, All, ◌∙◌,
}
use artik_sdk.Uri.{
  isdigit, isalpha, is_scheme_char, is_host_char, is_path_char, Scan, uri_scheme_loop, uri_host,
  uri_port, uri_path, Outcome, done, scan_loop, uri_step,
}

-- No byte of a scheme is a colon, none of a host a colon or a slash, and no digit is a slash.
scheme_char-ne : (c : ℕ) → is_scheme_char c ≡ true → (c == b':') ≡ false
unfolding is_scheme_char
scheme_char-ne c h = ground arith

pub host_char-ne : (c : ℕ) → is_host_char c ≡ true → ((c == b':') ≡ false) × ((c == b'/') ≡ false)
unfolding is_host_char
host_char-ne c h = ground arith

pub digit-ne : (c : ℕ) → isdigit c ≡ true → (c == b'/') ≡ false
unfolding isdigit
digit-ne c h = ground arith

pub alpha-scheme_char : (c : ℕ) → isalpha c ≡ true → is_scheme_char c ≡ true
unfolding is_scheme_char
alpha-scheme_char c h = ground arith

-- One round of the loop.
pub scan_loop-step :
    (f len i c skip : ℕ) (rest : List ℕ) (s s' : Scan)
    → uri_step s.state len i c rest s ≡ some (s', skip)
    → scan_loop (suc f) len i (c ∷ rest) s ≡ scan_loop f len (i + 1 + skip) (drop skip rest) s'
unfolding scan_loop
scan_loop-step f len i c skip rest s s' e = rw (e, scan_loop) refl

path_round :
    (len i c : ℕ) (rest : List ℕ) (s : Scan)
    → s.state ≡ uri_path
    → is_path_char c ≡ true
    → uri_step s.state len i c rest s ≡ some (s, 0)
unfolding uri_step
path_round len i c rest s st a = ground arith

-- A path changes no variable.
pub path_phase :
    (f len i : ℕ) (p : List ℕ) (s : Scan)
    → length p ≤ f
    → s.state ≡ uri_path
    → All (λ c. is_path_char c ≡ true) p
    → scan_loop f len i p s ≡ done s
unfolding scan_loop
path_phase zero len i [] s h st a = refl
path_phase zero len i (c ∷ p) s h st a = absurd (omega arith)
path_phase (suc f) len i [] s h st a = refl
path_phase (suc f) len i (c ∷ p) s h st a =
    scan_loop-step f len i c 0 p s s (path_round len i c p s st a.0)
    ∙ path_phase f len (i + 1 + 0) p s (omega arith) st a.1

abbrev pub last : ℕ → List ℕ → ℕ
last c [] = c
last c (d ∷ h) = last d h

-- A run of bytes of one class, each of which but the last is passed by a round that goes to the
-- next one: the loop does what it does from the last byte on.
pub run_phase :
    {X : Type 0} (S : X → Scan) (class : ℕ → Bool) (len : ℕ) (R : Outcome)
    → ((i c d : ℕ) (rest : List ℕ) (x : X)
        → class c ≡ true
        → class d ≡ true
        → (x' : X) × (uri_step (S x).state len i c (d ∷ rest) (S x) ≡ some (S x', 0)))
    → (h t : List ℕ) (f i c : ℕ) (x : X) → All (λ b. class b ≡ true) (c ∷ h)
    → length (c ∷ (h ++ t)) ≤ f
    → ((f' : ℕ) (x' : X)
        → length (last c h ∷ t) ≤ f'
        → scan_loop f' len (i + length h) (last c h ∷ t) (S x') ≡ R)
    → scan_loop f len i (c ∷ (h ++ t)) (S x) ≡ R
run_phase S class len R step [] t f i c x a l k = rw add-zero at (k f x l)
run_phase S class len R step (d ∷ h) t zero i c x a l k = absurd (omega arith)
run_phase {X} S class len R step (d ∷ h) t (suc f) i c x a l k =
    let r = step i c d (h ++ t) x a.0 a.1.0 in
    scan_loop-step f len i c 0 (d ∷ (h ++ t)) (S x) (S r.0) r.1
    ∙ run_phase S class len R step h t f (i + 1 + 0) d r.0 a.1 (omega arith) (λ f' x' l'.
      subst (λ (j : ℕ). scan_loop f' len j (last d h ∷ t) (S x') ≡ R) (omega arith) (k f' x' l'))

pub All-last :
    (class : ℕ → Bool) (c : ℕ) (h : List ℕ)
    → All (λ b. class b ≡ true) (c ∷ h)
    → class (last c h) ≡ true
All-last class c [] a = a.0
All-last class c (d ∷ h) a = All-last class d h a.1

-- The variables in the loop over the scheme, the host and the port.
abbrev pub in_scheme : Unit {0} → Scan
in_scheme _ = record {
  scheme = record { begin = some 0; end = none };
  host = record { begin = none; end = none };
  port = record { begin = none; end = none };
  path = record { begin = none; end = none };
  state = uri_scheme_loop;
}

abbrev pub in_host : ℕ → Option ℕ → Scan
in_host se he = record {
  scheme = record { begin = some 0; end = some se };
  host = record { begin = some (se + 4); end = he };
  port = record { begin = none; end = none };
  path = record { begin = none; end = none };
  state = uri_host;
}

abbrev pub in_port : ℕ → ℕ → Option ℕ → Scan
in_port se he pe = record {
  scheme = record { begin = some 0; end = some se };
  host = record { begin = some (se + 4); end = some he };
  port = record { begin = some (he + 2); end = pe };
  path = record { begin = none; end = none };
  state = uri_port;
}

pub scheme_round :
    (len i c d : ℕ) (rest : List ℕ) (x : Unit {0})
    → is_scheme_char c ≡ true
    → is_scheme_char d ≡ true
    → (x' : Unit {0}) × (uri_step (in_scheme x).state len i c (d ∷ rest) (in_scheme x)
        ≡ some (in_scheme x', 0))
unfolding uri_step
scheme_round len i c d rest x hc hd = (tt, ground (arith, scheme_char-ne d hd))

pub host_round :
    (se len i c d : ℕ) (rest : List ℕ) (x : Option ℕ)
    → is_host_char c ≡ true
    → is_host_char d ≡ true
    → (x' : Option ℕ) × (uri_step (in_host se x).state len i c (d ∷ rest) (in_host se x)
        ≡ some (in_host se x', 0))
unfolding uri_step
host_round se len i c d rest x hc hd = (some i, ground (arith, host_char-ne d hd))

pub port_round :
    (se he len i c d : ℕ) (rest : List ℕ) (x : Option ℕ)
    → isdigit c ≡ true
    → isdigit d ≡ true
    → (x' : Option ℕ) × (uri_step (in_port se he x).state len i c (d ∷ rest) (in_port se he x)
        ≡ some (in_port se he x', 0))
unfolding uri_step
port_round se he len i c d rest x hc hd = (some i, ground (arith, digit-ne d hd))
