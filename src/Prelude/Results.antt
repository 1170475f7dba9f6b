-- ===== src/Prelude/Results.antt =====
-- Exceptions as values.
use mathlib.Core.Path.{◌≡◌}
use mathlib.Core.Option.{some}
use native.Mathlib.Omega.{arith}

pub data Result {ℓ κ} (E : Type ℓ) (A : Type κ) : Type (ℓ ⊔ κ) where
  ok : A → Result E A
  err : E → Result E A

pub some_inj {ℓ} : {A : Type ℓ} → {x y : A} → some x ≡ some y → x ≡ y
some_inj h = ground (arith, h)

pub ok_inj {ℓ κ} : {E : Type ℓ} → {A : Type κ} → {x y : A} → Path (Result E A) (ok x) (ok y) → x ≡ y
ok_inj h = ground (arith, h)
