-- ===== src/Prediction/Lifecycle/Moves.antt =====
-- The transitions that the code accepts are exactly those of the documented diagram.
use quant_stack.Prelude.{ℕ, ◌≡◌, ◌↔◌, refl, String, Bool, true, false, Option, none, some, arith}
use quant_stack.Prediction.Lifecycle.Stages.{
  Stage, detected, confirmed, qualified, sent, monitoring, expired, succeeded, failed, other,
  is_terminal, eq_of_stage_eq,
}
use quant_stack.Prediction.Lifecycle.{LifecycleState, Details, ok, apply_transition, move, enter}

-- The open stages.
pub data IsOpen : Stage → Type 0 where
  detected_open : IsOpen detected
  confirmed_open : IsOpen confirmed
  qualified_open : IsOpen qualified
  sent_open : IsOpen sent
  monitoring_open : IsOpen monitoring

-- The diagram: one stage forward, or from any open stage to one of the three that close it.
pub data MayMove : Stage → Stage → Type 0 where
  confirm : MayMove detected confirmed
  qualify : MayMove confirmed qualified
  mark_sent : MayMove qualified sent
  monitor : MayMove sent monitoring
  expire : {s : Stage} → IsOpen s → MayMove s expired
  succeed : {s : Stage} → IsOpen s → MayMove s succeeded
  fail : {s : Stage} → IsOpen s → MayMove s failed

ruleset opens = (detected_open, confirmed_open, qualified_open, sent_open, monitoring_open)

ruleset moves = (confirm, qualify, mark_sent, monitor, expire, succeed, fail)

abbrev pub is_known : Stage → Bool
is_known (other t) = false
is_known _ = true

-- An accepted transition follows the diagram, and an expiry is explained.
pub move-MayMove :
    (s s' : LifecycleState) (stage : Stage) (at : ℕ) (d : Details)
    → is_known s.stage ≡ true
    → move s stage at d ≡ ok s'
    → MayMove s.stage stage
unfolding move
move-MayMove s s' stage at d k e = grind (arith, opens, moves)

IsOpen-is_terminal : {s : Stage} → IsOpen s → is_terminal s ≡ false
IsOpen-is_terminal detected_open = refl
IsOpen-is_terminal confirmed_open = refl
IsOpen-is_terminal qualified_open = refl
IsOpen-is_terminal sent_open = refl
IsOpen-is_terminal monitoring_open = refl

-- An expiry comes with its reason.
abbrev pub is_explained : Stage → Option String → Bool
is_explained expired none = false
is_explained _ _ = true

move_explained :
    (s s' : LifecycleState) (stage : Stage) (at : ℕ) (d : Details)
    → move s stage at d ≡ ok s'
    → is_explained stage d.expiration_reason ≡ true
unfolding move
move_explained s s' stage at d e = ground arith

MayMove-move :
    (s : LifecycleState) (from stage : Stage) (at : ℕ) (d : Details)
    → s.stage ≡ from
    → MayMove from stage
    → is_explained stage d.expiration_reason ≡ true
    → move s stage at d ≡ ok (enter s stage at d)
unfolding move
MayMove-move s from stage at d e confirm x = ground arith
MayMove-move s from stage at d e qualify x = ground arith
MayMove-move s from stage at d e mark_sent x = ground arith
MayMove-move s from stage at d e monitor x = ground arith
MayMove-move s from stage at d e (expire o) x = ground (arith, IsOpen-is_terminal o)
MayMove-move s from stage at d e (succeed o) x = ground (arith, IsOpen-is_terminal o)
MayMove-move s from stage at d e (fail o) x = ground (arith, IsOpen-is_terminal o)

-- In a state whose stage the code names, a transition leads to the entered state exactly when it
-- is one of the diagram (the next stage, or a closing stage from an open one) and an expiry gives
-- its reason.
pub transition_iff :
    (new_id : String) (s : LifecycleState) (stage : Stage) (at : ℕ) (d : Details)
    → is_known s.stage ≡ true
    → (apply_transition new_id (some s) stage at d ≡ ok (enter s stage at d))
      ↔ (MayMove s.stage stage × (is_explained stage d.expiration_reason ≡ true))
unfolding apply_transition
transition_iff new_id s stage at d k = (
  λ e. (
    move-MayMove s (enter s stage at d) stage at d k e,
    move_explained s (enter s stage at d) stage at d e,
  ),
  λ (m, x). MayMove-move s s.stage stage at d refl m x,
)

-- An accepted transition arrives at the stage that was asked for.
pub apply_transition-stage :
    (new_id : String) (state : Option LifecycleState) (s' : LifecycleState) (stage : Stage) (at : ℕ)
    (d : Details)
    → apply_transition new_id state stage at d ≡ ok s'
    → s'.stage ≡ stage
unfolding apply_transition
apply_transition-stage new_id none s' stage at d e = ground (arith, eq_of_stage_eq stage detected)
apply_transition-stage new_id (some s) s' stage at d e = ground arith
