-- ===== src/Features/Schema.antt =====
-- backend/app/features/schema.py: a candle. Its instant is a number of seconds since 1970 in UTC.
use quant_stack.Prelude.{ℕ}

pub record Candle (F : Type 0) : Type 0 where
  pub ts : ℕ
  pub open_price : F
  pub high : F
  pub low : F
  pub close : F
  pub volume : ℕ
