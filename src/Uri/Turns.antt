-- ===== src/Uri/Turns.antt =====
-- tizenrt_utils.c: the rounds of the loop in which the state changes.
use artik_sdk.Prelude.{
  ℕ, zero, suc, ◌+◌, ◌≤◌, ◌≡◌, refl, true, Option, none, some, List, [], ◌∷◌, arith, length, drop,
  All, ◌∙◌, ap,
}
use artik_sdk.Uri.{
  isdigit, isalpha, is_scheme_char, is_host_char, is_path_char, Scan, uri_scheme_start,
  uri_scheme_loop, uri_host, uri_port, Outcome, done, scan_loop, start, to_path, uri_step,
}
use artik_sdk.Uri.Phases.{scan_loop-step, path_phase, in_scheme, in_host, in_port, digit-ne}

-- The path of a URI: nothing, or a slash and bytes of the class.
abbrev pub IsPath : List ℕ → Type 0
IsPath [] = Unit {0}
IsPath (c ∷ p) = (c ≡ b'/') × All (λ b. is_path_char b ≡ true) p

abbrev pub with_path : ℕ → ℕ → List ℕ → Scan → Scan
with_path len i [] s = s
with_path len i (c ∷ p) s = to_path len i s

slash-is_path_char : is_path_char b'/' ≡ true
unfolding is_path_char
slash-is_path_char = refl

path_end :
    (f len i j : ℕ) (p : List ℕ) (s : Scan)
    → IsPath p
    → length p ≤ f
    → scan_loop f len j p (with_path len i p s) ≡ done (with_path len i p s)
unfolding scan_loop
path_end zero len i j [] s a l = refl
path_end (suc f) len i j [] s a l = refl
path_end f len i j (c ∷ p) s a l =
    path_phase f len j (c ∷ p) (to_path len i s) l refl (rw a.0 slash-is_path_char, a.1)

start_round :
    (len c : ℕ) (rest : List ℕ)
    → isalpha c ≡ true
    → uri_step uri_scheme_start len 0 c rest start
      ≡ uri_step uri_scheme_loop len 0 c rest (in_scheme tt)
unfolding uri_step
start_round len c rest h = ground arith

pub start_step :
    (f len c : ℕ) (rest : List ℕ)
    → isalpha c ≡ true
    → scan_loop f len 0 (c ∷ rest) start ≡ scan_loop f len 0 (c ∷ rest) (in_scheme tt)
unfolding scan_loop
start_step zero len c rest h = refl
start_step (suc f) len c rest h = rw (start_round len c rest h, scan_loop) refl

scheme_last :
    (len i c : ℕ) (rest : List ℕ)
    → is_scheme_char c ≡ true
    → uri_step uri_scheme_loop len i c (b':' ∷ b'/' ∷ b'/' ∷ rest) (in_scheme tt)
      ≡ some (in_host i none, 3)
unfolding uri_step
scheme_last len i c rest h = ground arith

host_last :
    (se len i c : ℕ) (p : List ℕ) (x : Option ℕ)
    → is_host_char c ≡ true
    → IsPath p
    → uri_step uri_host len i c p (in_host se x) ≡ some (with_path len i p (in_host se (some i)), 0)
unfolding uri_step
host_last se len i c [] x h a = ground arith
host_last se len i c (b ∷ p) x h a = ground arith

host_colon :
    (se len i c e : ℕ) (rest : List ℕ) (x : Option ℕ)
    → is_host_char c ≡ true
    → isdigit e ≡ true
    → uri_step uri_host len i c (b':' ∷ e ∷ rest) (in_host se x) ≡ some (in_port se i none, 1)
unfolding uri_step
host_colon se len i c e rest x h d = ground (arith, digit-ne e d)

port_last :
    (se he len i c : ℕ) (p : List ℕ) (x : Option ℕ)
    → isdigit c ≡ true
    → IsPath p
    → uri_step uri_port len i c p (in_port se he x)
      ≡ some (with_path len i p (in_port se he (some i)), 0)
unfolding uri_step
port_last se he len i c [] x h a = ground arith
port_last se he len i c (b ∷ p) x h a = ground arith

-- A round that goes on at offset `j`.
step_to :
    (f len i c skip j : ℕ) (rest : List ℕ) (s s' : Scan)
    → uri_step s.state len i c rest s ≡ some (s', skip)
    → i + 1 + skip ≡ j
    → scan_loop (suc f) len i (c ∷ rest) s ≡ scan_loop f len j (drop skip rest) s'
step_to f len i c skip j rest s s' e h =
    scan_loop-step f len i c skip rest s s' e
    ∙ ap (λ (k : ℕ). scan_loop f len k (drop skip rest) s') h

pub scheme_turn :
    (R : Outcome) (f len i c : ℕ) (rest : List ℕ)
    → is_scheme_char c ≡ true
    → length (c ∷ b':' ∷ b'/' ∷ b'/' ∷ rest) ≤ f
    → ((f' : ℕ) → length rest ≤ f' → scan_loop f' len (i + 4) rest (in_host i none) ≡ R)
    → scan_loop f len i (c ∷ b':' ∷ b'/' ∷ b'/' ∷ rest) (in_scheme tt) ≡ R
scheme_turn R zero len i c rest h l k = absurd (omega arith)
scheme_turn R (suc f) len i c rest h l k =
    step_to f len i c 3 (i + 4) (b':' ∷ b'/' ∷ b'/' ∷ rest) (in_scheme tt) (in_host i none)
      (scheme_last len i c rest h) (omega arith)
    ∙ k f (omega arith)

pub host_turn :
    (f se len i c : ℕ) (p : List ℕ) (x : Option ℕ)
    → is_host_char c ≡ true
    → IsPath p
    → length (c ∷ p) ≤ f
    → scan_loop f len i (c ∷ p) (in_host se x) ≡ done (with_path len i p (in_host se (some i)))
host_turn zero se len i c p x h a l = absurd (omega arith)
host_turn (suc f) se len i c p x h a l =
    step_to f len i c 0 (i + 1) p (in_host se x) (with_path len i p (in_host se (some i)))
      (host_last se len i c p x h a) (omega arith)
    ∙ path_end f len i (i + 1) p (in_host se (some i)) a (omega arith)

pub port_turn :
    (f se he len i c : ℕ) (p : List ℕ) (x : Option ℕ)
    → isdigit c ≡ true
    → IsPath p
    → length (c ∷ p) ≤ f
    → scan_loop f len i (c ∷ p) (in_port se he x)
      ≡ done (with_path len i p (in_port se he (some i)))
port_turn zero se he len i c p x h a l = absurd (omega arith)
port_turn (suc f) se he len i c p x h a l =
    step_to f len i c 0 (i + 1) p (in_port se he x) (with_path len i p (in_port se he (some i)))
      (port_last se he len i c p x h a) (omega arith)
    ∙ path_end f len i (i + 1) p (in_port se he (some i)) a (omega arith)

pub colon_turn :
    (R : Outcome) (f se len i c e : ℕ) (rest : List ℕ) (x : Option ℕ)
    → is_host_char c ≡ true
    → isdigit e ≡ true
    → length (c ∷ b':' ∷ e ∷ rest) ≤ f
    → ((f' : ℕ)
        → length (e ∷ rest) ≤ f'
        → scan_loop f' len (i + 2) (e ∷ rest) (in_port se i none) ≡ R)
    → scan_loop f len i (c ∷ b':' ∷ e ∷ rest) (in_host se x) ≡ R
colon_turn R zero se len i c e rest x h d l k = absurd (omega arith)
colon_turn R (suc f) se len i c e rest x h d l k =
    step_to f len i c 1 (i + 2) (b':' ∷ e ∷ rest) (in_host se x) (in_port se i none)
      (host_colon se len i c e rest x h d) (omega arith)
    ∙ k f (omega arith)
