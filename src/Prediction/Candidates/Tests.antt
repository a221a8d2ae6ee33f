-- ===== src/Prediction/Candidates/Tests.antt =====
-- Streaks at concrete histories.
use quant_stack.Prelude.{ℕ, ◌≡◌, refl, String, none, some, List, [], ◌∷◌}
use quant_stack.Prediction.Candidates.{StoredCandidate, streak_start}
use quant_stack.Prediction.Candidates.Streak.{HasRun, streak_start_lem}

abbrev stored : String → ℕ → StoredCandidate
stored direction at = record { direction = some direction; as_of = some at }

abbrev history : List StoredCandidate
history =
    stored "long" 9000
    ∷ stored "long" 8700
    ∷ stored "long" 8400
    ∷ stored "long" 4000
    ∷ stored "short" 3900
    ∷ []

-- The gap of 4400 seconds is longer than the 20 minutes that continue a run.
since : streak_start history "long" 1200 ≡ some 8400
unfolding streak_start
since = refl

streak_start_lem_example : HasRun "long" 1200 none history (streak_start history "long" 1200)
streak_start_lem_example = streak_start_lem history "long" 1200
