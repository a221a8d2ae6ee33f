-- ===== src/Prediction/Lifecycle/Log.antt =====
-- The log of transitions and its replay: `replay_transitions`, `get` and `_persist` of
-- backend/app/prediction/lifecycle.py.
use quant_stack.Prelude.{
  ℕ, String, ◌≡◌, refl, sym, ap, ◌∙◌, Bool, false, Option, none, some, List, [], ◌∷◌, ◌++◌, arith,
  str_eq, if◌then◌else◌, Bool-cases, inl, inr,
}
use quant_stack.Prediction.Lifecycle.Stages.{Stage, stage_eq, stage_eq_refl, eq_of_stage_eq}
use quant_stack.Prediction.Lifecycle.Moves.{apply_transition-stage}
use quant_stack.Prediction.Lifecycle.{
  LifecycleState, Details, Result, ok, err, Result-cases, apply_transition,
}

-- One row: the payload of `_persist`.
pub record Row : Type 0 where
  pub lifecycle_id : String
  pub symbol : String
  pub direction : String
  pub stage : Stage
  pub at : ℕ
  pub expiration_reason : Option String
  pub outcome : Option String

unfoldable pub row_of : LifecycleState → ℕ → Row
row_of s at = record {
  lifecycle_id = s.lifecycle_id;
  symbol = s.symbol;
  direction = s.direction;
  stage = s.stage;
  at = at;
  expiration_reason = s.expiration_reason;
  outcome = s.outcome;
}

unfoldable pub details_of : String → Row → Details
details_of id r = record {
  symbol = some r.symbol;
  direction = some r.direction;
  lifecycle_id = some id;
  expiration_reason = r.expiration_reason;
  outcome = r.outcome;
}

-- `state is not None and row["stage"] == state.stage`
unfoldable pub repeats : Option LifecycleState → Row → Bool
repeats none r = false
repeats (some s) r = stage_eq r.stage s.stage

-- One round of the loop of `replay_transitions`. `apply_transition` mints no id here unless the
-- caller's is empty: `minted` is the one that it would mint.
unfoldable pub replay_row :
    String → String → Option LifecycleState → Row → Result (Option LifecycleState)
unfolding repeats details_of
replay_row minted id state r =
    if repeats state r
    then ok state
    else elim (apply_transition minted state r.stage r.at (details_of id r)) [
      | ok s ↦ ok (some s)
      | err e ↦ err e
    ]

unfoldable pub replay_from :
    String → String → Option LifecycleState → List Row → Result (Option LifecycleState)
replay_from minted id state [] = ok state
replay_from minted id state (r ∷ rs) = elim (replay_row minted id state r) [
  | ok state' ↦ replay_from minted id state' rs
  | err e ↦ err e
]

unfoldable pub replay_transitions : String → List Row → String → Result (Option LifecycleState)
unfolding replay_from
replay_transitions minted rows id = replay_from minted id none rows

-- The query of `get`: the rows of one lifecycle, oldest first.
unfoldable pub rows_of : String → List Row → List Row
rows_of id [] = []
rows_of id (r ∷ rs) = if str_eq r.lifecycle_id id then r ∷ rows_of id rs else rows_of id rs

-- `get`. Without a session factory there is no log.
unfoldable pub get : String → String → Option (List Row) → Result (Option LifecycleState)
get minted id none = ok none
get minted id (some rows) = replay_transitions minted (rows_of id rows) id

-- `_persist`, past the publication on the bus.
unfoldable pub persist : Row → Option (List Row) → Option (List Row)
persist r none = none
persist r (some rows) = some (rows ++ r ∷ [])

-- Replay after a part that has been replayed.
abbrev pub resume :
    String → String → List Row → Result (Option LifecycleState) → Result (Option LifecycleState)
resume minted id ys (ok s) = replay_from minted id s ys
resume minted id ys (err e) = err e

pub replay_from-append :
    (minted id : String) (state : Option LifecycleState) (xs ys : List Row)
    → replay_from minted id state (xs ++ ys) ≡ resume minted id ys (replay_from minted id state xs)
unfolding replay_from
replay_from-append minted id state [] ys = refl
replay_from-append minted id state (r ∷ xs) ys =
    go (replay_row minted id state r) (λ s. replay_from-append minted id s xs ys)
  where
    go :
        (m : Result (Option LifecycleState))
        → ((s : Option LifecycleState)
            → replay_from minted id s (xs ++ ys) ≡ resume minted id ys (replay_from minted id s xs))
        → (elim m [ ok s ↦ replay_from minted id s (xs ++ ys) | err e ↦ err e ])
          ≡ resume minted id ys (elim m [ ok s ↦ replay_from minted id s xs | err e ↦ err e ])
    go (ok s) ih = ih s
    go (err e) ih = refl

-- A replayed row leaves a state at the row's stage.
replay_row-stage :
    (minted id : String) (state state' : Option LifecycleState) (r : Row)
    → replay_row minted id state r ≡ ok state'
    → (s : LifecycleState) × (state' ≡ some s) × (s.stage ≡ r.stage)
unfolding replay_row
replay_row-stage minted id none state' r e =
    elim (Result-cases (apply_transition minted none r.stage r.at (details_of id r))) [
      | inl (s, p) ↦
          (s, ground arith, apply_transition-stage minted none s r.stage r.at (details_of id r) p)
      | inr (x, p) ↦ absurd (ground arith)
    ]
replay_row-stage minted id (some s₀) state' r e = elim (Bool-cases (stage_eq r.stage s₀.stage)) [
  | inl same ↦ (s₀, ground arith, sym (eq_of_stage_eq r.stage s₀.stage same))
  | inr new ↦
      elim (Result-cases (apply_transition minted (some s₀) r.stage r.at (details_of id r))) [
        | inl (s, p) ↦ (
          s,
          ground arith,
          apply_transition-stage minted (some s₀) s r.stage r.at (details_of id r) p,
        )
        | inr (x, p) ↦ absurd (ground arith)
      ]
]

replay_row-repeat :
    (minted id : String) (s : LifecycleState) (r : Row)
    → r.stage ≡ s.stage
    → replay_row minted id (some s) r ≡ ok (some s)
unfolding replay_row
replay_row-repeat minted id s r e = rw (ap (λ t. stage_eq t s.stage) e ∙ stage_eq_refl s.stage)

healed_after :
    (minted id : String) (state : Option LifecycleState) (ys : List Row) (r r' : Row)
    → r'.stage ≡ r.stage
    → replay_from minted id state (r ∷ r' ∷ ys) ≡ replay_from minted id state (r ∷ ys)
unfolding replay_from
healed_after minted id state ys r r' same = elim (Result-cases (replay_row minted id state r)) [
  | inl (state', e) ↦
      let (s, p, q) = replay_row-stage minted id state state' r e in
      ground (arith, replay_row-repeat minted id s r' (same ∙ sym q))
  | inr (x, e) ↦ ground arith
]

-- Replay is self-healing: a row that repeats the stage of the row before it, whatever else it holds,
-- changes nothing, wherever the two stand in the log.
pub replay_healed :
    (minted id : String) (xs ys : List Row) (r r' : Row)
    → r'.stage ≡ r.stage
    → replay_transitions minted (xs ++ r ∷ r' ∷ ys) id ≡ replay_transitions minted (xs ++ r ∷ ys) id
unfolding replay_transitions
replay_healed minted id xs ys r r' same =
    rw
      (
        replay_from-append minted id none xs (r ∷ r' ∷ ys),
        replay_from-append minted id none xs (r ∷ ys),
      )
      (go (replay_from minted id none xs))
  where
    go :
        (m : Result (Option LifecycleState))
        → resume minted id (r ∷ r' ∷ ys) m ≡ resume minted id (r ∷ ys) m
    go (ok s) = healed_after minted id s ys r r' same
    go (err e) = refl
