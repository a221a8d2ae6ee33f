-- ===== src/Prediction/Lifecycle/Measures.antt =====
-- What the log records of a lifecycle, and the durations that are measured from it.
use quant_stack.Prelude.{
  ℕ, String, ◌≡◌, subst, false, not, Option, none, some, List, [], ◌∷◌, arith, is_none, Bool-cases,
  inl, inr,
}
use quant_stack.Prediction.Lifecycle.Stages.{Stage, detected, is_terminal, stage_eq, stage_eq_refl}
use quant_stack.Prediction.Lifecycle.{
  LifecycleState, Details, ok, Result-cases, apply_transition, move, start, stamp, stamp_of,
  is_expired, is_outcome, signal_lifetime_seconds, signal_age_seconds,
}
use quant_stack.Prediction.Lifecycle.Log.{
  Row, details_of, get, rows_of, replay_row, replay_from, replay_transitions,
}

stamp_of-stamp_self :
    (s : Stage) (at : ℕ) (d : List (Stage × ℕ)) → stamp_of s (stamp s at d) ≡ some at
unfolding stamp stamp_of
stamp_of-stamp_self s at [] = rw (stage_eq_refl s)
stamp_of-stamp_self s at ((t, old) ∷ d) = ground (arith, stamp_of-stamp_self s at d)

stamped_stays :
    (s t : Stage) (at : ℕ) (d : List (Stage × ℕ))
    → is_none (stamp_of s d) ≡ false
    → is_none (stamp_of s (stamp t at d)) ≡ false
unfolding stamp stamp_of
stamped_stays s t at [] h = absurd (ground arith)
stamped_stays s t at ((u, old) ∷ d) h = ground (arith, stamped_stays s t at d)

-- The detection and the current stage have their times; there is a reason exactly for an expiry, and
-- an outcome exactly for a success or a failure.
pub record IsCoherent (s : LifecycleState) : Type 0 where
  pub born_at : is_none (stamp_of detected s.stage_timestamps) ≡ false
  pub entered_at : is_none (stamp_of s.stage s.stage_timestamps) ≡ false
  pub reasoned : is_none s.expiration_reason ≡ not (is_expired s.stage)
  pub outcome_set : is_none s.outcome ≡ not (is_outcome s.stage)

move-IsCoherent :
    (s s' : LifecycleState) (stage : Stage) (at : ℕ) (d : Details)
    → IsCoherent s
    → move s stage at d ≡ ok s'
    → IsCoherent s'
unfolding move
move-IsCoherent s s' stage at d c e = ground (
  arith,
  stamp_of-stamp_self stage at s.stage_timestamps,
  stamped_stays detected stage at s.stage_timestamps,
)

start-IsCoherent :
    (m : String) (s' : LifecycleState) (stage : Stage) (at : ℕ) (d : Details)
    → start m stage at d ≡ ok s'
    → IsCoherent s'
unfolding start stamp_of
start-IsCoherent m s' stage at d e = ground arith

age_known :
    (s : LifecycleState) (now : ℕ) → IsCoherent s → is_none (signal_age_seconds s now) ≡ false
unfolding signal_age_seconds
age_known s now c = ground arith

lifetime_known :
    (s : LifecycleState)
    → IsCoherent s
    → is_none (signal_lifetime_seconds s) ≡ not (is_terminal s.stage)
unfolding signal_lifetime_seconds
lifetime_known s c = ground arith

abbrev AllCoherent : Option LifecycleState → Type 0
AllCoherent none = Unit {0}
AllCoherent (some s) = IsCoherent s

replay_row-IsCoherent :
    (m id : String) (state state' : Option LifecycleState) (r : Row)
    → AllCoherent state
    → replay_row m id state r ≡ ok state'
    → AllCoherent state'
unfolding replay_row apply_transition
replay_row-IsCoherent m id none state' r c e =
    elim (Result-cases (start m r.stage r.at (details_of id r))) [
      | inl (s, p) ↦
          subst AllCoherent {x = some s} (ground arith)
            (start-IsCoherent m s r.stage r.at (details_of id r) p)
      | inr (x, p) ↦ absurd (ground arith)
    ]
replay_row-IsCoherent m id (some s₀) state' r c e = elim (Bool-cases (stage_eq r.stage s₀.stage)) [
  | inl same ↦ subst AllCoherent {x = some s₀} (ground arith) c
  | inr new ↦ elim (Result-cases (move s₀ r.stage r.at (details_of id r))) [
    | inl (s, p) ↦
        subst AllCoherent {x = some s} (ground arith)
          (move-IsCoherent s₀ s r.stage r.at (details_of id r) c p)
    | inr (x, p) ↦ absurd (ground arith)
  ]
]

replay_from-IsCoherent :
    (m id : String) (state state' : Option LifecycleState) (rows : List Row)
    → AllCoherent state
    → replay_from m id state rows ≡ ok state'
    → AllCoherent state'
unfolding replay_from
replay_from-IsCoherent m id state state' [] c e =
    let p : state ≡ state' = cc in subst AllCoherent p c
replay_from-IsCoherent m id state state' (r ∷ rows) c e =
    elim (Result-cases (replay_row m id state r)) [
      | inl (s, p) ↦
          replay_from-IsCoherent m id s state' rows (replay_row-IsCoherent m id state s r c p)
            (ground arith)
      | inr (x, p) ↦ absurd (ground arith)
    ]

-- Every state that the log replays to, whatever its rows, has the times of its detection and of its
-- current stage, a reason exactly if it is expired and an outcome exactly if it succeeded or failed;
-- its age can be told at any time, and its lifetime exactly if it is closed.
pub get-IsCoherent :
    (m id : String) (rows : List Row) (s : LifecycleState) (now : ℕ)
    → get m id (some rows) ≡ ok (some s)
    → IsCoherent s
      × (is_none (signal_age_seconds s now) ≡ false)
      × (is_none (signal_lifetime_seconds s) ≡ not (is_terminal s.stage))
unfolding get replay_transitions
get-IsCoherent m id rows s now e =
    let c = replay_from-IsCoherent m id none (some s) (rows_of id rows) tt e in
    (c, age_known s now c, lifetime_known s c)
