-- ===== src/Prediction/Lifecycle/Manager.antt =====
-- `OpportunityLifecycleManager` of backend/app/prediction/lifecycle.py. A request runs under the lock
-- of its lifecycle, so that it is one step; `store` is the log behind the session factory, if any.
pub mod Ledger
pub mod History
pub mod Closed
use quant_stack.Prelude.{ℕ, String, Bool, Option, none, some, List, [], ◌∷◌, if◌then◌else◌}
use quant_stack.Prediction.Lifecycle.Stages.{
  Stage, detected, confirmed, qualified, sent, monitoring, expired, succeeded, failed, stage_eq,
}
use quant_stack.Prediction.Lifecycle.{
  LifecycleState, Details, Result, ok, err, unknown_lifecycle, apply_transition,
}
use quant_stack.Prediction.Lifecycle.Log.{Row, row_of, get, persist}

abbrev pub Store : Type 0
Store = Option (List Row)

abbrev pub closing : Option String → Option String → Details
closing reason outcome = record {
  symbol = none;
  direction = none;
  lifecycle_id = none;
  expiration_reason = reason;
  outcome = outcome;
}

-- `_advance`, where the state that `get` found is at another stage.
unfoldable pub change :
    String → LifecycleState → Stage → ℕ → Details → Store → Result LifecycleState × Store
unfolding persist row_of
change minted s stage at d store = elim (apply_transition minted (some s) stage at d) [
  | ok s' ↦ (ok s', persist (row_of s' at) store)
  | err e ↦ (err e, store)
]

-- `_advance`
unfoldable pub advance :
    String → String → Stage → ℕ → Details → Store → Result LifecycleState × Store
unfolding change
advance minted id stage at d store = elim (get minted id store) [
  | err e ↦ (err e, store)
  | ok found ↦ elim found [
    | none ↦ (err (unknown_lifecycle id), store)
    | some s ↦ if stage_eq s.stage stage then (ok s, store) else change minted s stage at d store
  ]
]

-- `detect`
unfoldable pub detect : String → String → String → ℕ → Store → Result LifecycleState × Store
unfolding persist row_of
detect minted symbol direction at store =
    elim (apply_transition minted none detected at (record {
      symbol = some symbol;
      direction = some direction;
      lifecycle_id = none;
      expiration_reason = none;
      outcome = none;
    })) [ ok s ↦ (ok s, persist (row_of s at) store) | err e ↦ (err e, store) ]

-- The public methods; `succeed` and `fail` have their own names as the default outcome.
pub data Request : Type 0 where
  detects : String → String → ℕ → Request
  confirms qualifies marks_sent monitors : String → ℕ → Request
  expires : String → String → ℕ → Request
  succeeds fails : String → String → ℕ → Request

-- `minted` is the id that a request would mint.
unfoldable pub handle : String → Request → Store → Result LifecycleState × Store
unfolding advance detect
handle minted (detects symbol direction at) store = detect minted symbol direction at store
handle minted (confirms id at) store = advance minted id confirmed at (closing none none) store
handle minted (qualifies id at) store = advance minted id qualified at (closing none none) store
handle minted (marks_sent id at) store = advance minted id sent at (closing none none) store
handle minted (monitors id at) store = advance minted id monitoring at (closing none none) store
handle minted (expires id reason at) store =
    advance minted id expired at (closing (some reason) none) store
handle minted (succeeds id outcome at) store =
    advance minted id succeeded at (closing none (some outcome)) store
handle minted (fails id outcome at) store =
    advance minted id failed at (closing none (some outcome)) store
