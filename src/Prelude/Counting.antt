-- ===== src/Prelude/Counting.antt =====
-- How many elements of a list pass a test, and how often a number occurs.
use Prim.Native.Nat.{ℕ, ◌+◌, ◌-◌}
use mathlib.Core.Path.{◌≡◌}
use mathlib.Core.Bool.{Bool}
use mathlib.Core.List.{List, [], ◌∷◌, ◌++◌}
use native.Mathlib.Omega.{arith}
use artik_sdk.Prelude.Tests.{◌==◌, if◌then◌else◌}

-- How many elements pass, and how often a number occurs.
abbrev pub count_if {ℓ} : {A : Type ℓ} → (A → Bool) → List A → ℕ
count_if p [] = 0
count_if p (x ∷ l) = (if p x then 1 else 0) + count_if p l

abbrev pub count : ℕ → List ℕ → ℕ
count x = count_if (λ y. x == y)

pub count_if-append {ℓ} :
    {A : Type ℓ} (p : A → Bool) (l m : List A) → count_if p (l ++ m) ≡ count_if p l + count_if p m
count_if-append p [] m = omega arith
count_if-append p (x ∷ l) m = omega (arith, count_if-append p l m)

-- The list less one occurrence.
unfoldable pub remove_one : ℕ → List ℕ → List ℕ
remove_one x [] = []
remove_one x (y ∷ l) = if x == y then l else y ∷ remove_one x l

pub count-remove_one :
    (x y : ℕ) (l : List ℕ) → count x (remove_one y l) ≡ count x l - (if x == y then 1 else 0)
unfolding remove_one
count-remove_one x y [] = ground arith
count-remove_one x y (z ∷ l) = ground (arith, count-remove_one x y l)
