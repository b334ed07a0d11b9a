-- ===== src/Uri/Ports.antt =====
-- tizenrt_utils.c: URIs with a port.
use artik_sdk.Prelude.{
  ℕ, ◌+◌, ◌-◌, ◌*◌, ◌^◌, ◌≡◌, refl, true, some, List, [], ◌∷◌, ◌++◌, arith, length, drop, All, ◌∙◌,
  ap, drop-append, length-append, if◌then◌else◌, leb, ◌||◌, min, sym, append_assoc,
}
use artik_sdk.Prelude.Int.{pos}
use artik_sdk.Error.{e_bad_args}
use artik_sdk.Uri.{
  isdigit, isalpha, is_scheme_char, is_host_char, os_get_uri_info, UriInfo, Result, ok, err,
  strtol_from, strtol, finish,
}
use artik_sdk.Uri.Phases.{in_port}
use artik_sdk.Uri.Turns.{IsPath, with_path}
use artik_sdk.Uri.RoundTrip.{
  write_uri, path_or_root, scan_port, scheme_slice, host_slice, split_tail, path_text_lem,
  before_host, length-to_tail,
}

-- The number that digits stand for.
abbrev pub number : List ℕ → ℕ
number ds = strtol_from 0 ds

strtol_from-path :
    (acc : ℕ) (ds p : List ℕ)
    → All (λ b. isdigit b ≡ true) ds
    → IsPath p
    → strtol_from acc (ds ++ p) ≡ strtol_from acc ds
unfolding strtol_from
strtol_from-path acc [] [] a h = refl
strtol_from-path acc [] (c ∷ p) a h = rw h.0 refl
strtol_from-path acc (d ∷ ds) p a h = rw (strtol_from-path (acc * 10 + (d - b'0')) ds p a.1 h) refl

-- What the port adds to the rest of the result.
abbrev with_number : ℕ → UriInfo → Result
with_number n info =
    if leb n 1 || leb 65535 n then err e_bad_args else ok (record info { port = pos n })

-- A number that `strtol` clips is refused all the same.
clip :
    (n : ℕ) (info : UriInfo)
    → (if leb (min n (2 ^ 31 - 1)) 1 || leb 65535 (min n (2 ^ 31 - 1))
        then err e_bad_args
        else ok (record info { port = pos (min n (2 ^ 31 - 1)) }))
      ≡ with_number n info
clip n info = ground arith

drop_port :
    (c d e : ℕ) (s h ds p : List ℕ)
    → drop (0 + length s + 4 + length h + 2) (write_uri c s (d ∷ (h ++ (b':' ∷ e ∷ (ds ++ p)))))
      ≡ (e ∷ ds) ++ p
drop_port c d e s h ds p =
    let pre : List ℕ = (before_host c s ++ (d ∷ h)) ++ (b':' ∷ []) in
    let t : write_uri c s (d ∷ (h ++ (b':' ∷ e ∷ (ds ++ p)))) ≡ pre ++ ((e ∷ ds) ++ p) =
      split_tail c d s h (b':' ∷ e ∷ (ds ++ p))
      ∙ sym (append_assoc (before_host c s ++ (d ∷ h)) (b':' ∷ []) ((e ∷ ds) ++ p)) in
    let l : 0 + length s + 4 + length h + 2 ≡ length pre =
      omega
        (arith, length-append (before_host c s ++ (d ∷ h)) (b':' ∷ []), length-to_tail c d s h) in
    rw (t, l) (drop-append pre ((e ∷ ds) ++ p))

port_text :
    (c d e : ℕ) (s h ds p : List ℕ)
    → All (λ b. isdigit b ≡ true) (e ∷ ds)
    → IsPath p
    → strtol
        (drop (0 + length s + 4 + length h + 2) (write_uri c s (d ∷ (h ++ (b':' ∷ e ∷ (ds ++ p))))))
      ≡ min (number (e ∷ ds)) (2 ^ 31 - 1)
unfolding strtol
port_text c d e s h ds p a hp =
    rw drop_port (ap (λ (n : ℕ). min n (2 ^ 31 - 1)) (strtol_from-path 0 (e ∷ ds) p a hp))

-- The text up to its path.
abbrev before_path : ℕ → ℕ → ℕ → List ℕ → List ℕ → List ℕ → List ℕ
before_path c d e s h ds = (before_host c s ++ (d ∷ h)) ++ (b':' ∷ e ∷ ds)

split_path :
    (c d e : ℕ) (s h ds p : List ℕ)
    → write_uri c s (d ∷ (h ++ (b':' ∷ e ∷ (ds ++ p)))) ≡ before_path c d e s h ds ++ p
split_path c d e s h ds p =
    split_tail c d s h (b':' ∷ e ∷ (ds ++ p))
    ∙ sym (append_assoc (before_host c s ++ (d ∷ h)) (b':' ∷ e ∷ ds) p)

length-before_path :
    (c d e : ℕ) (s h ds : List ℕ)
    → 0 + length s + 4 + length h + 2 + length ds + 1 ≡ length (before_path c d e s h ds)
length-before_path c d e s h ds =
    omega
      (arith, length-append (before_host c s ++ (d ∷ h)) (b':' ∷ e ∷ ds), length-to_tail c d s h)

abbrev parts : ℕ → ℕ → List ℕ → List ℕ → List ℕ → UriInfo
parts c d s h p = record { scheme = c ∷ s; hostname = d ∷ h; path = path_or_root p; port = pos 0 }

finish_port :
    (c d e : ℕ) (s h ds p : List ℕ)
    → All (λ b. isdigit b ≡ true) (e ∷ ds)
    → IsPath p
    → let uri : List ℕ = write_uri c s (d ∷ (h ++ (b':' ∷ e ∷ (ds ++ p)))) in
      let he : ℕ = 0 + length s + 4 + length h in
      finish uri true (
        with_path
          (length uri)
          (he + 2 + length ds)
          p
          (in_port (0 + length s) he (some (he + 2 + length ds))))
      ≡ with_number
          (number (e ∷ ds))
          (record { scheme = c ∷ s; hostname = d ∷ h; path = path_or_root p; port = pos 0 })
unfolding finish
finish_port c d e s h ds [] a hp =
    let t : List ℕ = b':' ∷ e ∷ (ds ++ []) in
    rw (scheme_slice c s (d ∷ (h ++ t)), host_slice c d s h t, port_text c d e s h ds [] a hp)
      (clip (number (e ∷ ds)) (parts c d s h []))
finish_port c d e s h ds (x ∷ p) a hp =
    let t : List ℕ = b':' ∷ e ∷ (ds ++ (x ∷ p)) in
    rw
      (
        scheme_slice c s (d ∷ (h ++ t)),
        host_slice c d s h t,
        path_text_lem (write_uri c s (d ∷ (h ++ t))) (before_path c d e s h ds) (x ∷ p)
            (0 + length s + 4 + length h + 2 + length ds) (split_path c d e s h ds (x ∷ p))
            (length-before_path c d e s h ds),
        port_text c d e s h ds (x ∷ p) a hp,
      )
      (clip (number (e ∷ ds)) (parts c d s h (x ∷ p)))

-- A URI with a port, written from a scheme that begins with a letter, a host, digits and a path
-- that may be empty, is parsed into them where its copies can be allocated and the number lies
-- strictly between 1 and 65535; where it does not, the answer is E_BAD_ARGS.
pub os_get_uri_info-port_text :
    (c d e : ℕ) (s h ds p : List ℕ)
    → isalpha c ≡ true
    → All (λ b. is_scheme_char b ≡ true) s
    → All (λ b. is_host_char b ≡ true) (d ∷ h)
    → All (λ b. isdigit b ≡ true) (e ∷ ds)
    → IsPath p
    → os_get_uri_info (write_uri c s (d ∷ (h ++ (b':' ∷ e ∷ (ds ++ p))))) true
      ≡ some (
          if leb (number (e ∷ ds)) 1 || leb 65535 (number (e ∷ ds))
          then err e_bad_args
          else ok (record {
            scheme = c ∷ s;
            hostname = d ∷ h;
            path = path_or_root p;
            port = pos (number (e ∷ ds));
          }))
unfolding os_get_uri_info
os_get_uri_info-port_text c d e s h ds p hc hs hh hd hp =
    let uri : List ℕ = write_uri c s (d ∷ (h ++ (b':' ∷ e ∷ (ds ++ p)))) in
    rw (scan_port (length uri) c d e s h ds p (length uri) hc hs hh hd hp (omega arith))
      (ap some (finish_port c d e s h ds p hd hp))
