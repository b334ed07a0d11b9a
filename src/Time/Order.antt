-- ===== src/Time/Order.antt =====
-- artik_time.c: the comparison of dates.
use native.Mathlib.Decide.{dec_lt}
use artik_sdk.Prelude.{
  ◌<◌, ◌⊎◌, ◌↔◌, inl, inr, ap, ◌∙◌, ℕ, zero, suc, ◌+◌, ◌≡◌, ◌≢◌, refl, arith, some,
}
use artik_sdk.Prelude.Int.{ℤ, pos, negsuc}
use artik_sdk.Time.{ArtikTime, compare_field, compare_fields, artik_time_compare_dates}

-- The answer with the dates exchanged.
abbrev pub opposite : ℤ → ℤ
opposite (pos zero) = pos 0
opposite (pos (suc n)) = negsuc n
opposite (negsuc n) = pos (n + 1)

field-opposite :
    (a b : ℕ) (r q : ℤ) → q ≡ opposite r → compare_field b a q ≡ opposite (compare_field a b r)
unfolding compare_field
field-opposite a b r q h = ground arith

field_trans :
    (a b c : ℕ) (r q p : ℤ)
    → (r ≢ negsuc 0 → q ≢ negsuc 0 → p ≢ negsuc 0)
    → compare_field a b r ≢ negsuc 0
    → compare_field b c q ≢ negsuc 0
    → compare_field a c p ≢ negsuc 0
unfolding compare_field
field_trans a b c r q p h x y = ground arith

field-equal : (a b : ℕ) (r : ℤ) → compare_field a b r ≡ pos 0 → (a ≡ b) × (r ≡ pos 0)
unfolding compare_field
field-equal a b r h = ground arith

same-date :
    (a b : ArtikTime) → compare_fields a b ≡ pos 0 → a ≡ record b { day_of_week = a.day_of_week }
unfolding compare_fields
same-date a b h =
    let y = field-equal a.year b.year _ h in
    let mo = field-equal a.month b.month _ y.1 in
    let d = field-equal a.day b.day _ mo.1 in
    let ho = field-equal a.hour b.hour _ d.1 in
    let mi = field-equal a.minute b.minute _ ho.1 in
    let se = field-equal a.second b.second _ mi.1 in
    let ms = field-equal a.msecond b.msecond _ se.1 in
    rw (← y.0, ← mo.0, ← d.0, ← ho.0, ← mi.0, ← se.0, ← ms.0) refl

-- One date comes before another: in the first of these fields in which they differ it is less.
abbrev pub IsLess : ℕ → ℕ → Type 0 → Type 0
IsLess a b Rest = (a < b) ⊎ ((a ≡ b) × Rest)

abbrev pub IsBefore : ArtikTime → ArtikTime → Type 0
IsBefore a b = IsLess a.year b.year (
    IsLess a.month b.month (
      IsLess a.day b.day (
        IsLess a.hour b.hour
          (IsLess a.minute b.minute (IsLess a.second b.second (IsLess a.msecond b.msecond ⊥))))))

field-before :
    (a b : ℕ) (r : ℤ) (Rest : Type 0)
    → (r ≡ negsuc 0) ↔ Rest
    → (compare_field a b r ≡ negsuc 0) ↔ IsLess a b Rest
unfolding compare_field
field-before a b r Rest h = (
  λ e. elim (dec_lt a b) [ yes p ↦ inl p | no p ↦ inr (ground arith, h.0 (ground arith)) ],
  λ x. elim x [ inl p ↦ ground arith | inr (e, q) ↦ ground (arith, h.1 q) ],
)

artik_time_compare_dates-IsBefore :
    (a b : ArtikTime) → (artik_time_compare_dates (some a) (some b) ≡ negsuc 0) ↔ IsBefore a b
unfolding artik_time_compare_dates compare_fields
artik_time_compare_dates-IsBefore a b = field-before a.year b.year _ _ (
    field-before a.month b.month _ _ (
      field-before a.day b.day _ _ (
        field-before a.hour b.hour _ _ (
          field-before a.minute b.minute _ _ (
            field-before a.second b.second _ _
              (field-before a.msecond b.msecond (pos 0) ⊥ ((λ e. cc), (λ e. absurd e))))))))

artik_time_compare_dates-opposite :
    (a b : ArtikTime)
    → artik_time_compare_dates (some b) (some a)
      ≡ opposite (artik_time_compare_dates (some a) (some b))
unfolding artik_time_compare_dates compare_fields
artik_time_compare_dates-opposite a b = field-opposite a.year b.year _ _ (
    field-opposite a.month b.month _ _ (
      field-opposite a.day b.day _ _ (
        field-opposite a.hour b.hour _ _ (
          field-opposite a.minute b.minute _ _
            (field-opposite a.second b.second _ _ (field-opposite a.msecond b.msecond _ _ refl))))))

artik_time_compare_dates-after :
    (a b : ArtikTime) → (artik_time_compare_dates (some a) (some b) ≡ pos 1) ↔ IsBefore b a
artik_time_compare_dates-after a b = (
  λ e.
      (artik_time_compare_dates-IsBefore b a).0
        (artik_time_compare_dates-opposite a b ∙ ap opposite e),
  λ x.
      artik_time_compare_dates-opposite b a
      ∙ ap opposite ((artik_time_compare_dates-IsBefore b a).1 x),
)

-- The answer is -1 exactly if the first date comes before the second: in the first of year, month, day,
-- hour, minute, second and millisecond in which they differ it is less. Exchanging two dates turns the
-- answer round, so it is 1 exactly if the first comes after the second; an answer that is not -1 carries over from two
-- comparisons to the comparison of the first date with the last; and the answer 0 means that all
-- fields but the day of the week are the same.
pub artik_time_compare_dates_lem :
    (a b c : ArtikTime)
    → ((artik_time_compare_dates (some a) (some b) ≡ negsuc 0) ↔ IsBefore a b)
      × ((artik_time_compare_dates (some a) (some b) ≡ pos 1) ↔ IsBefore b a)
      × (artik_time_compare_dates (some b) (some a)
          ≡ opposite (artik_time_compare_dates (some a) (some b)))
      × (artik_time_compare_dates (some a) (some b) ≢ negsuc 0
          → artik_time_compare_dates (some b) (some c) ≢ negsuc 0
          → artik_time_compare_dates (some a) (some c) ≢ negsuc 0)
      × (artik_time_compare_dates (some a) (some b) ≡ pos 0
          → a ≡ record b { day_of_week = a.day_of_week })
unfolding artik_time_compare_dates compare_fields
artik_time_compare_dates_lem a b c = (
  artik_time_compare_dates-IsBefore a b,
  artik_time_compare_dates-after a b,
  artik_time_compare_dates-opposite a b,
  field_trans a.year b.year c.year _ _ _ (
      field_trans a.month b.month c.month _ _ _ (
        field_trans a.day b.day c.day _ _ _ (
          field_trans a.hour b.hour c.hour _ _ _ (
            field_trans a.minute b.minute c.minute _ _ _ (
              field_trans a.second b.second c.second _ _ _
                (field_trans a.msecond b.msecond c.msecond _ _ _ (λ x y. x))))))),
  same-date a b,
)
