-- ===== src/Uri/RoundTrip.antt =====
-- tizenrt_utils.c: URIs written from their parts, and what the parser makes of them.
use artik_sdk.Prelude.{
  ℕ, ◌+◌, ◌-◌, ◌≤◌, ◌≡◌, refl, true, none, some, List, [], ◌∷◌, ◌++◌, arith, length, take, drop,
  All, ◌∙◌, sym, ap, length-append, append_assoc, take-append, drop-append, take-all, ne→==,
}
use artik_sdk.Prelude.Int.{negsuc}
use artik_sdk.Uri.{
  isdigit, isalpha, is_scheme_char, is_host_char, Outcome, done, scan_loop, start, os_get_uri_info,
  ok, strndup, finish, path_text, Range,
}
use artik_sdk.Uri.Phases.{
  run_phase, last, All-last, in_scheme, in_host, in_port, scheme_round, host_round, port_round,
  alpha-scheme_char,
}
use artik_sdk.Uri.Turns.{
  IsPath, with_path, scheme_turn, host_turn, port_turn, colon_turn, start_step,
}

-- A URI whose scheme is `c ∷ s`.
abbrev pub write_uri : ℕ → List ℕ → List ℕ → List ℕ
write_uri c s rest = c ∷ (s ++ (b':' ∷ b'/' ∷ b'/' ∷ rest))

-- The scheme is passed by.
scan_scheme :
    (R : Outcome) (len c : ℕ) (s rest : List ℕ) (f : ℕ)
    → isalpha c ≡ true
    → All (λ b. is_scheme_char b ≡ true) s
    → length (write_uri c s rest) ≤ f
    → ((f' : ℕ)
        → length rest ≤ f'
        → scan_loop f' len (0 + length s + 4) rest (in_host (0 + length s) none) ≡ R)
    → scan_loop f len 0 (write_uri c s rest) start ≡ R
scan_scheme R len c s rest f hc hs l k =
    let a : All (λ b. is_scheme_char b ≡ true) (c ∷ s) = (alpha-scheme_char c hc, hs) in
    start_step f len c (s ++ (b':' ∷ b'/' ∷ b'/' ∷ rest)) hc
    ∙ run_phase in_scheme is_scheme_char len R (scheme_round len) s (b':' ∷ b'/' ∷ b'/' ∷ rest) f 0
        c tt a l
        (λ f' x' l'.
          scheme_turn R f' len (0 + length s) (last c s) rest (All-last is_scheme_char c s a) l' k)

scan_plain :
    (len c d : ℕ) (s h p : List ℕ) (f : ℕ)
    → isalpha c ≡ true
    → All (λ b. is_scheme_char b ≡ true) s
    → All (λ b. is_host_char b ≡ true) (d ∷ h)
    → IsPath p
    → length (write_uri c s (d ∷ (h ++ p))) ≤ f
    → scan_loop f len 0 (write_uri c s (d ∷ (h ++ p))) start
      ≡ done (
          with_path len
            (0 + length s + 4 + length h)
            p
            (in_host (0 + length s) (some (0 + length s + 4 + length h))))
scan_plain len c d s h p f hc hs hh hp l = scan_scheme _ len c s (d ∷ (h ++ p)) f hc hs l (λ f' l'.
    run_phase (in_host (0 + length s)) is_host_char len _ (host_round (0 + length s) len) h p f'
      (0 + length s + 4) d none hh l'
      (λ f'' x'' l''.
        host_turn f'' (0 + length s) len (0 + length s + 4 + length h) (last d h) p x''
          (All-last is_host_char d h hh) hp l''))

pub scan_port :
    (len c d e : ℕ) (s h ds p : List ℕ) (f : ℕ)
    → isalpha c ≡ true
    → All (λ b. is_scheme_char b ≡ true) s
    → All (λ b. is_host_char b ≡ true) (d ∷ h)
    → All (λ b. isdigit b ≡ true) (e ∷ ds)
    → IsPath p
    → length (write_uri c s (d ∷ (h ++ (b':' ∷ e ∷ (ds ++ p))))) ≤ f
    → scan_loop f len 0 (write_uri c s (d ∷ (h ++ (b':' ∷ e ∷ (ds ++ p))))) start
      ≡ done (
          with_path len (0 + length s + 4 + length h + 2 + length ds) p (
            in_port
              (0 + length s)
              (0 + length s + 4 + length h)
              (some (0 + length s + 4 + length h + 2 + length ds))))
scan_port len c d e s h ds p f hc hs hh hd hp l =
    let se : ℕ = 0 + length s in
    let he : ℕ = se + 4 + length h in
    let rest : List ℕ = b':' ∷ e ∷ (ds ++ p) in
    scan_scheme _ len c s (d ∷ (h ++ rest)) f hc hs l (λ f1 l1.
      run_phase (in_host se) is_host_char len _ (host_round se len) h rest f1 (se + 4) d none hh l1
        (λ f2 x2 l2.
          colon_turn _ f2 se len he (last d h) e (ds ++ p) x2 (All-last is_host_char d h hh) hd.0 l2
            (λ f3 l3.
              run_phase (in_port se he) isdigit len _ (port_round se he len) ds p f3 (he + 2) e none
                hd l3
                (λ f4 x4 l4.
                  port_turn f4 se he len (he + 2 + length ds) (last e ds) p x4
                    (All-last isdigit e ds hd) hp l4))))

-- The piece `y` of a text.
slice :
    (x y z : List ℕ) (b n : ℕ) → b ≡ length x → n ≡ length y → take n (drop b (x ++ (y ++ z))) ≡ y
slice x y z b n hb hn = rw (hb, hn, drop-append x (y ++ z)) (take-append y z)

tail_slice :
    (uri pre q : List ℕ) (b n : ℕ)
    → uri ≡ pre ++ q
    → b ≡ length pre
    → length q ≤ n
    → strndup uri b n ≡ q
tail_slice uri pre q b n e hb hn = rw (e, hb, drop-append pre q) (take-all n q hn)

abbrev pub before_host : ℕ → List ℕ → List ℕ
before_host c s = (c ∷ s) ++ (b':' ∷ b'/' ∷ b'/' ∷ [])

-- The text up to its host, and behind it.
split_host : (c : ℕ) (s w : List ℕ) → write_uri c s w ≡ before_host c s ++ w
split_host c s w = sym (append_assoc (c ∷ s) (b':' ∷ b'/' ∷ b'/' ∷ []) w)

pub split_tail :
    (c d : ℕ) (s h t : List ℕ) → write_uri c s (d ∷ (h ++ t)) ≡ (before_host c s ++ (d ∷ h)) ++ t
split_tail c d s h t =
    split_host c s (d ∷ (h ++ t)) ∙ sym (append_assoc (before_host c s) (d ∷ h) t)

length-before_host : (c : ℕ) (s : List ℕ) → length (before_host c s) ≡ length s + 4
length-before_host c s = omega (arith, length-append (c ∷ s) (b':' ∷ b'/' ∷ b'/' ∷ []))

pub length-to_tail :
    (c d : ℕ) (s h : List ℕ) → length (before_host c s ++ (d ∷ h)) ≡ length s + 4 + length h + 1
length-to_tail c d s h =
    omega (arith, length-append (before_host c s) (d ∷ h), length-before_host c s)

pub scheme_slice :
    (c : ℕ) (s rest : List ℕ) → strndup (write_uri c s rest) 0 (0 + length s - 0 + 1) ≡ c ∷ s
scheme_slice c s rest = slice [] (c ∷ s) (b':' ∷ b'/' ∷ b'/' ∷ rest) 0 _ refl (omega arith)

pub host_slice :
    (c d : ℕ) (s h t : List ℕ)
    → strndup
        (write_uri c s (d ∷ (h ++ t)))
        (0 + length s + 4)
        (0 + length s + 4 + length h - (0 + length s + 4) + 1)
      ≡ d ∷ h
host_slice c d s h t =
    rw (split_host c s (d ∷ (h ++ t)))
      (slice (before_host c s) (d ∷ h) t _ _ (omega (arith, length-before_host c s)) (omega arith))

-- The path that is filled in: a slash where the text has none.
abbrev pub path_or_root : List ℕ → List ℕ
path_or_root [] = b'/' ∷ []
path_or_root (x ∷ p) = x ∷ p

-- The range of the path, behind offset `i`.
abbrev pub path_range : ℕ → ℕ → List ℕ → Range
path_range len i [] = record { begin = none; end = none }
path_range len i (x ∷ p) = record { begin = some (i + 1); end = some (len + 1) }

pub path_text_lem :
    (uri pre p : List ℕ) (i : ℕ)
    → uri ≡ pre ++ p
    → i + 1 ≡ length pre
    → path_text uri (path_range (length uri) i p) ≡ path_or_root p
unfolding path_text
path_text_lem uri pre [] i e h = refl
path_text_lem uri pre (x ∷ p) i e h =
    let l : length uri ≡ length pre + length (x ∷ p) = ap length e ∙ length-append pre (x ∷ p) in
    let n : length uri + 1 - (i + 1) ≡ length (x ∷ p) + 1 = omega arith in
    rw (ne→== (i + 1) (length uri + 1) (λ x. absurd (omega arith)), path_text)
      (tail_slice uri pre (x ∷ p) (i + 1) (length uri + 1 - (i + 1)) e h (omega arith))

-- What `finish` makes of the variables with the host at `he`.
finish_plain :
    (c d : ℕ) (s h p : List ℕ)
    → let uri : List ℕ = write_uri c s (d ∷ (h ++ p)) in
      let he : ℕ = 0 + length s + 4 + length h in
      finish uri true (with_path (length uri) he p (in_host (0 + length s) (some he)))
      ≡ ok (record { scheme = c ∷ s; hostname = d ∷ h; path = path_or_root p; port = negsuc 0 })
unfolding finish
finish_plain c d s h [] = rw (scheme_slice c s (d ∷ (h ++ [])), host_slice c d s h []) refl
finish_plain c d s h (x ∷ p) =
    let uri : List ℕ = write_uri c s (d ∷ (h ++ (x ∷ p))) in
    rw
      (
        scheme_slice c s (d ∷ (h ++ (x ∷ p))),
        host_slice c d s h (x ∷ p),
        path_text_lem uri (before_host c s ++ (d ∷ h)) (x ∷ p) (0 + length s + 4 + length h)
            (split_tail c d s h (x ∷ p)) (omega (arith, length-to_tail c d s h)),
      )
      refl

-- A URI without a port, written from a scheme that begins with a letter, a host and a path that
-- may be empty, is parsed into them where its copies can be allocated: the port is -1, and the
-- path a slash where there is none.
pub os_get_uri_info-plain :
    (c d : ℕ) (s h p : List ℕ)
    → isalpha c ≡ true
    → All (λ b. is_scheme_char b ≡ true) s
    → All (λ b. is_host_char b ≡ true) (d ∷ h)
    → IsPath p
    → os_get_uri_info (write_uri c s (d ∷ (h ++ p))) true
      ≡ some
          (ok (record { scheme = c ∷ s; hostname = d ∷ h; path = path_or_root p; port = negsuc 0 }))
unfolding os_get_uri_info
os_get_uri_info-plain c d s h p hc hs hh hp =
    let uri : List ℕ = write_uri c s (d ∷ (h ++ p)) in
    rw (scan_plain (length uri) c d s h p (length uri) hc hs hh hp (omega arith))
      (ap some (finish_plain c d s h p))
