-- ===== src/Prediction/Lifecycle/Stages.antt =====
-- The stages of backend/app/prediction/lifecycle.py. A stage is a text; the eight that the code names
-- are constructors, and `other` is any other text.
use quant_stack.Prelude.{
  ℕ, String, ◌≡◌, refl, ap, Bool, true, false, Option, none, some, arith, ◌==◌, str_eq, eq_iff,
}

pub data Stage : Type 0 where
  detected confirmed qualified sent monitoring expired succeeded failed : Stage
  other : String → Stage

-- `TERMINAL_STAGES`
abbrev pub is_terminal : Stage → Bool
is_terminal expired = true
is_terminal succeeded = true
is_terminal failed = true
is_terminal _ = false

-- `_STAGE_INDEX`
abbrev pub stage_index : Stage → Option ℕ
stage_index detected = some 0
stage_index confirmed = some 1
stage_index qualified = some 2
stage_index sent = some 3
stage_index monitoring = some 4
stage_index _ = none

abbrev pub stage_text : Stage → String
stage_text detected = "detected"
stage_text confirmed = "confirmed"
stage_text qualified = "qualified"
stage_text sent = "sent"
stage_text monitoring = "monitoring"
stage_text expired = "expired"
stage_text succeeded = "succeeded"
stage_text failed = "failed"
stage_text (other t) = t

abbrev rank : Stage → ℕ
rank detected = 0
rank confirmed = 1
rank qualified = 2
rank sent = 3
rank monitoring = 4
rank expired = 5
rank succeeded = 6
rank failed = 7
rank (other t) = 8

-- Equality of the texts.
abbrev pub stage_eq : Stage → Stage → Bool
stage_eq (other s) (other t) = str_eq s t
stage_eq s t = rank s == rank t

pub stage_eq_refl : (s : Stage) → stage_eq s s ≡ true
stage_eq_refl (other t) = (eq_iff t t).1 refl
stage_eq_refl _ = refl

pub eq_of_stage_eq : (s t : Stage) → stage_eq s t ≡ true → s ≡ t
eq_of_stage_eq (other s) (other t) e = ap other ((eq_iff s t).0 e)
eq_of_stage_eq s t e = ground arith
