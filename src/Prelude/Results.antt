-- ===== src/Prelude/Results.antt =====
-- Calls that raise: the value, or the exception. `raise` in the source is `err` here.

pub data Result {ℓ κ} (E : Type ℓ) (A : Type κ) : Type (ℓ ⊔ κ) where
  ok : A → Result E A
  err : E → Result E A
