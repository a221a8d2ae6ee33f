-- ===== src/Prediction/Lifecycle.antt =====
-- backend/app/prediction/lifecycle.py: the state machine of an opportunity and its append-only log.
-- Times are instants as numbers, an id that `uuid4` mints is an argument, and `MarketEvent` rows of
-- the manager's event type are the list `rows`, in the order of their ids.
pub mod Stages
mod Tests
pub mod Moves
pub mod Log
pub mod Manager
pub mod Measures
use quant_stack.Prelude.{
  ℕ, ◌+◌, ◌≡◌, refl, ◌⊎◌, inl, inr, String, Bool, true, false, Option, none, some, List, [], ◌∷◌,
  ◌==◌, str_eq, if◌then◌else◌,
}
use quant_stack.Prelude.Int.{ℤ, sub_ℕ}
use Stages.{
  Stage, detected, expired, succeeded, failed, is_terminal, stage_eq, stage_index, stage_text,
}

pub record LifecycleState : Type 0 where
  pub lifecycle_id : String
  pub symbol : String
  pub direction : String
  pub stage : Stage
  pub stage_timestamps : List (Stage × ℕ)
  pub expiration_reason : Option String
  pub outcome : Option String

-- `stage_timestamps.get(stage)`
unfoldable pub stamp_of : Stage → List (Stage × ℕ) → Option ℕ
stamp_of s [] = none
stamp_of s ((t, at) ∷ d) = if stage_eq t s then some at else stamp_of s d

-- `{**stage_timestamps, stage: at}`
unfoldable pub stamp : Stage → ℕ → List (Stage × ℕ) → List (Stage × ℕ)
stamp s at [] = (s, at) ∷ []
stamp s at ((t, old) ∷ d) = if stage_eq t s then (t, at) ∷ d else (t, old) ∷ stamp s at d

-- The difference of two instants that may be absent.
abbrev pub elapsed : Option ℕ → Option ℕ → Option ℤ
elapsed (some from) (some to) = some (sub_ℕ to from)
elapsed _ _ = none

unfoldable pub detection_delay_seconds : LifecycleState → Option ℤ
unfolding stamp_of
detection_delay_seconds s =
    elapsed (stamp_of detected s.stage_timestamps) (stamp_of Stage.confirmed s.stage_timestamps)

unfoldable pub signal_age_seconds : LifecycleState → ℕ → Option ℤ
unfolding stamp_of
signal_age_seconds s now = elapsed (stamp_of detected s.stage_timestamps) (some now)

unfoldable pub signal_lifetime_seconds : LifecycleState → Option ℤ
unfolding stamp_of
signal_lifetime_seconds s =
    if is_terminal s.stage
    then elapsed (stamp_of detected s.stage_timestamps) (stamp_of s.stage s.stage_timestamps)
    else none

-- `InvalidTransitionError`, by its message; `key_error` is what `_STAGE_INDEX[state.stage]` raises.
pub data TransitionError : Type 0 where
  must_start : Stage → TransitionError
  already_terminal : String → Stage → TransitionError
  not_next : Stage → Stage → TransitionError
  unknown_stage : Stage → TransitionError
  needs_reason : TransitionError
  unknown_lifecycle : String → TransitionError
  key_error : Stage → TransitionError

pub data Result {ℓ} (A : Type ℓ) : Type ℓ where
  ok : A → Result A
  err : TransitionError → Result A

-- `value or default` for texts: `None` and the empty text take the default.
abbrev pub or_text : Option String → String → String
or_text none d = d
or_text (some t) d = if str_eq t "" then d else t

-- The keyword arguments of `apply_transition`.
pub record Details : Type 0 where
  pub symbol : Option String
  pub direction : Option String
  pub lifecycle_id : Option String
  pub expiration_reason : Option String
  pub outcome : Option String

-- `state is None`
unfoldable pub start : String → Stage → ℕ → Details → Result LifecycleState
start new_id stage at d =
    if stage_eq stage detected
    then ok (record {
      lifecycle_id = or_text d.lifecycle_id new_id;
      symbol = or_text d.symbol "";
      direction = or_text d.direction "";
      stage = detected;
      stage_timestamps = (detected, at) ∷ [];
      expiration_reason = none;
      outcome = none;
    })
    else err (must_start stage)

-- `outcome = stage` where a closing stage comes without an outcome.
abbrev pub named : Stage → Option String → Option String
named s none = some (stage_text s)
named s (some o) = some o

-- `stage in ("succeeded", "failed")`
abbrev pub is_outcome : Stage → Bool
is_outcome succeeded = true
is_outcome failed = true
is_outcome _ = false

abbrev pub is_expired : Stage → Bool
is_expired expired = true
is_expired _ = false

-- The last statement: the new state.
unfoldable pub enter : LifecycleState → Stage → ℕ → Details → LifecycleState
enter s stage at d = record s {
  stage = stage;
  stage_timestamps = stamp stage at s.stage_timestamps;
  expiration_reason = if is_expired stage then d.expiration_reason else s.expiration_reason;
  outcome = if is_outcome stage then named stage d.outcome else s.outcome;
}

-- `stage == "expired" and expiration_reason is None`
unfoldable pub explain : LifecycleState → Stage → ℕ → Details → Result LifecycleState
unfolding enter
explain s stage at d = elim d.expiration_reason [
  | none ↦ if is_expired stage then err needs_reason else ok (enter s stage at d)
  | some r ↦ ok (enter s stage at d)
]

-- `stage in _STAGE_INDEX`: one step forward.
unfoldable pub forward : LifecycleState → Stage → ℕ → Details → Result LifecycleState
unfolding explain
forward s stage at d = elim (stage_index stage) [
  | none ↦ err (unknown_stage stage)
  | some i ↦ elim (stage_index s.stage) [
    | none ↦ err (key_error s.stage)
    | some j ↦ if i == j + 1 then explain s stage at d else err (not_next s.stage stage)
  ]
]

unfoldable pub move : LifecycleState → Stage → ℕ → Details → Result LifecycleState
unfolding forward explain
move s stage at d =
    if is_terminal s.stage
    then err (already_terminal s.lifecycle_id s.stage)
    else if is_terminal stage
    then explain s stage at d
    else forward s stage at d

unfoldable pub apply_transition :
    String → Option LifecycleState → Stage → ℕ → Details → Result LifecycleState
unfolding start move
apply_transition new_id none stage at d = start new_id stage at d
apply_transition new_id (some s) stage at d = move s stage at d

pub Result-cases {ℓ} :
    {A : Type ℓ} (r : Result A) → ((a : A) × (r ≡ ok a)) ⊎ ((e : TransitionError) × (r ≡ err e))
Result-cases (ok a) = inl (a, refl)
Result-cases (err e) = inr (e, refl)
