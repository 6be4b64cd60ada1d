-- ===== src/Prelude/Results.antt =====
-- A call that may raise: its answer, or the exception.
pub data Result {ε α} (E : Type ε) (A : Type α) : Type (ε ⊔ α) where
  ok : A → Result E A
  err : E → Result E A
