-- ===== src/Prelude/Cases.antt =====
-- Rules for a property of a branch, and what a `some` tells.
use mathlib.Core.Path.{◌≡◌, refl}
use mathlib.Core.Bool.{Bool, true, false}
use mathlib.Core.Option.{none, some}
use artik_sdk.Prelude.Tests.{if◌then◌else◌}

pub if_rule {ℓ κ} :
    {A : Type ℓ} (P : A → Type κ) (b : Bool) {x y : A}
    → (b ≡ true → P x)
    → (b ≡ false → P y)
    → P (if b then x else y)
if_rule P true f g = f refl
if_rule P false f g = g refl

pub some-injective {ℓ} : {A : Type ℓ} {a b : A} → some a ≡ some b → a ≡ b
some-injective e = cc

pub if_some {ℓ} :
    {A : Type ℓ} (b : Bool) {x y : A} → (if b then some x else none) ≡ some y → (b ≡ true) × (x ≡ y)
if_some true e = (refl, some-injective e)
if_some false e = cc
