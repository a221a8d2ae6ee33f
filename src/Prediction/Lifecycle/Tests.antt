-- ===== src/Prediction/Lifecycle/Tests.antt =====
-- The lifecycle at concrete inputs.
use quant_stack.Prelude.{String, ◌≡◌, ◌↔◌, refl, true, none, some, List, [], ◌∷◌}
use quant_stack.Prediction.Lifecycle.Stages.{detected, confirmed, expired, succeeded}
use quant_stack.Prediction.Lifecycle.{LifecycleState, Details, ok, apply_transition, enter, stamp}
use quant_stack.Prediction.Lifecycle.Moves.{MayMove, is_explained, transition_iff}
use quant_stack.Prediction.Lifecycle.Log.{Row, replay_row, get, rows_of, replay_transitions}
use quant_stack.Prediction.Lifecycle.Manager.{
  Request, advance, detect, closing, detects, confirms, expires, succeeds,
}
use quant_stack.Prediction.Lifecycle.Manager.Ledger.{get-advance}
use quant_stack.Prediction.Lifecycle.Manager.History.{
  IsReadable, AreProper, serve, serve-IsReadable,
}
use quant_stack.Prediction.Lifecycle.Manager.Closed.{serve_closed}

abbrev found : LifecycleState
found = record {
  lifecycle_id = "a1";
  symbol = "TCS";
  direction = "long";
  stage = detected;
  stage_timestamps = (detected, 10) ∷ [];
  expiration_reason = none;
  outcome = none;
}

abbrev first : Row
first = record {
  lifecycle_id = "a1";
  symbol = "TCS";
  direction = "long";
  stage = detected;
  at = 10;
  expiration_reason = none;
  outcome = none;
}

abbrev second : Row
second = record first { stage = confirmed; at = 12 }

abbrev late : Row
late = record second { at = 13 }

abbrev timed_out : Details
timed_out = closing (some "timeout") none

transition_iff_example :
    (apply_transition "z" (some found) expired 20 timed_out ≡ ok (enter found expired 20 timed_out))
    ↔ (MayMove detected expired × (is_explained expired (some "timeout") ≡ true))
transition_iff_example = transition_iff "z" found expired 20 timed_out refl

abbrev confirmed_state : LifecycleState
confirmed_state = record found {
  stage = confirmed;
  stage_timestamps = (detected, 10) ∷ (confirmed, 12) ∷ [];
}

confirms_once :
    (advance "z" "a1" confirmed 12 (closing none none) (some (first ∷ []))).0 ≡ ok confirmed_state
unfolding advance get rows_of replay_transitions replay_row apply_transition stamp
confirms_once = refl

get-advance_example :
    get "y" "a1" (advance "z" "a1" confirmed 12 (closing none none) (some (first ∷ []))).1
    ≡ ok (some confirmed_state)
get-advance_example =
    get-advance "z" "y" "a1" confirmed 12 (closing none none) (first ∷ []) confirmed_state refl
      confirms_once

detects_once : (detect "a1" "TCS" "long" 10 (some [])).0 ≡ ok found
unfolding detect apply_transition
detects_once = refl

abbrev requests : List (String × Request)
requests =
    ("a1", detects "TCS" "long" 10)
    ∷ ("x", confirms "a1" 12)
    ∷ ("x", confirms "a1" 13)
    ∷ ("x", succeeds "a1" "target hit" 14)
    ∷ ("x", expires "a1" "late" 15)
    ∷ []

requests-AreProper : AreProper requests []
unfolding rows_of
requests-AreProper = ((refl, refl), (refl, (refl, (refl, (refl, tt)))))

serve-IsReadable_example : IsReadable (serve requests [])
unfolding get replay_transitions rows_of
serve-IsReadable_example = serve-IsReadable requests [] requests-AreProper (λ j nj. (none, refl))

abbrev won : LifecycleState
won = record found {
  stage = succeeded;
  stage_timestamps = (detected, 10) ∷ (succeeded, 14) ∷ [];
  outcome = some "succeeded";
}

abbrev closed_log : List Row
closed_log = first ∷ record first { stage = succeeded; at = 14; outcome = some "succeeded" } ∷ []

closed_log-get : (k : String) → get k "a1" (some closed_log) ≡ ok (some won)
unfolding get rows_of replay_transitions replay_row apply_transition stamp
closed_log-get k = refl

serve_closed_example :
    get "y" "a1" (some (serve (("x", confirms "a1" 20) ∷ []) closed_log)) ≡ ok (some won)
serve_closed_example =
    serve_closed "a1" (("x", confirms "a1" 20) ∷ []) closed_log won (refl, tt) closed_log-get refl
      "y"
