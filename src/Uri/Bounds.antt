-- ===== src/Uri/Bounds.antt =====
-- tizenrt_utils.c: the rounds of the parser, and the range of the ports that it gives.
use artik_sdk.Prelude.{
  ℕ, zero, suc, ◌+◌, ◌≤◌, ◌<◌, ◌≡◌, refl, ◌≢◌, Bool, some, List, [], ◌∷◌, arith, length, drop, ◌⊎◌,
  inl, inr, Option-cases,
}
use artik_sdk.Prelude.Int.{pos, negsuc}
use artik_sdk.Uri.{
  Scan, Outcome, bad, out_of_fuel, done, scan_loop, uri_step, UriInfo, Result, ok, os_get_uri_info,
  conclude, finish, start,
}

length-drop-le : (n : ℕ) (xs : List ℕ) → length (drop n xs) ≤ length xs
length-drop-le zero xs = omega arith
length-drop-le (suc n) [] = omega arith
length-drop-le (suc n) (x ∷ xs) = omega (arith, length-drop-le n xs)

scan_loop-ends :
    (f len i : ℕ) (text : List ℕ) (s : Scan)
    → length text ≤ f
    → scan_loop f len i text s ≢ out_of_fuel
unfolding scan_loop
scan_loop-ends zero len i [] s h = λ e. cc
scan_loop-ends zero len i (c ∷ rest) s h = absurd (omega arith)
scan_loop-ends (suc f) len i [] s h = λ e. cc
scan_loop-ends (suc f) len i (c ∷ rest) s h =
    elim (Option-cases (uri_step s.state len i c rest s)) [
      | inl e ↦ rw (e, scan_loop) (λ x. cc)
      | inr ((s', skip), e) ↦
          rw (e, scan_loop)
            (scan_loop-ends f len (i + 1 + skip) (drop skip rest) s'
              (omega (arith, length-drop-le skip rest)))
    ]

-- The parser ends on every text: it needs no more rounds than the text has bytes.
pub os_get_uri_info-total :
    (uri : List ℕ) (memory : Bool) → (r : Result) × (os_get_uri_info uri memory ≡ some r)
unfolding os_get_uri_info
os_get_uri_info-total uri memory = go (scan_loop (length uri) (length uri) 0 uri start) refl
  where
    go :
        (o : Outcome)
        → scan_loop (length uri) (length uri) 0 uri start ≡ o
        → (r : Result) × (conclude uri memory o ≡ some r)
    go bad e = (_, refl)
    go out_of_fuel e = absurd (scan_loop-ends (length uri) (length uri) 0 uri start (omega arith) e)
    go (done s) e = (_, refl)

finish-port :
    (uri : List ℕ) (memory : Bool) (s : Scan) (info : UriInfo)
    → finish uri memory s ≡ ok info
    → (info.port ≡ negsuc 0) ⊎ ((n : ℕ) × (info.port ≡ pos n) × (1 < n) × (n < 65535))
unfolding finish
finish-port uri memory s info h = ground arith

-- Of a URI that is accepted the port is -1, for none, or strictly between 1 and 65535.
pub os_get_uri_info-port :
    (uri : List ℕ) (memory : Bool) (info : UriInfo)
    → os_get_uri_info uri memory ≡ some (ok info)
    → (info.port ≡ negsuc 0) ⊎ ((n : ℕ) × (info.port ≡ pos n) × (1 < n) × (n < 65535))
unfolding os_get_uri_info
os_get_uri_info-port uri memory info h = go (scan_loop (length uri) (length uri) 0 uri start) h
  where
    go :
        (o : Outcome)
        → conclude uri memory o ≡ some (ok info)
        → (info.port ≡ negsuc 0) ⊎ ((n : ℕ) × (info.port ≡ pos n) × (1 < n) × (n < 65535))
    go bad e = absurd (ground arith)
    go out_of_fuel e = absurd (ground arith)
    go (done s) e = finish-port uri memory s info (ground arith)
