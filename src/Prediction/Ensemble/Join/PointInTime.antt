-- ===== src/Prediction/Ensemble/Join/PointInTime.antt =====
-- The join never reads an observation from after a label's entry.
use quant_stack.Prelude.{ℕ, ◌<◌, ◌≡◌, String, List, ◌++◌, All}
use quant_stack.Prelude.Dict.{Dict}
use quant_stack.Prelude.Floats.{Floats}
use quant_stack.Prediction.Ensemble.Join.{timestamps, series_of}
use quant_stack.Prediction.Ensemble.Join.Bisect.{IsAscending}

-- Two series say the same up to an instant: one is the other with later observations behind it.
module _ {F : Type 0} where
  -- A series, and what came in after the instant `now`.
  pub record Grows (now : ℕ) (old new : List (ℕ × F)) : Type 0 where
    pub later : List (ℕ × F)
    pub appended : new ≡ old ++ later
    pub after_now : All (λ o. now < o.0) later
    pub old_ascending : IsAscending (timestamps old)
    pub new_ascending : IsAscending (timestamps new)

  -- Every feature's series has grown by observations from after the instant `now`.
  abbrev pub HaveGrown : ℕ → Dict (List (ℕ × F)) → Dict (List (ℕ × F)) → Type 0
  HaveGrown now old new = (name : String) → Grows now (series_of old name) (series_of new name)
