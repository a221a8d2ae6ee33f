-- ===== src/Prediction/Lifecycle/Manager/Ledger.antt =====
-- The log is the truth: what a request returns is what the log replays to.
use quant_stack.Prelude.{
  ℕ, String, ◌≡◌, refl, sym, subst, ◌∙◌, true, false, Option, none, some, List, [], ◌∷◌, ◌++◌,
  arith, str_eq, eq_refl, Bool-cases, inl, inr,
}
use quant_stack.Prediction.Lifecycle.Stages.{Stage, stage_eq, stage_eq_refl, eq_of_stage_eq}
use quant_stack.Prediction.Lifecycle.{
  LifecycleState, Details, TransitionError, Result, ok, err, Result-cases, apply_transition, move,
}
use quant_stack.Prediction.Lifecycle.Moves.{apply_transition-stage}
use quant_stack.Prediction.Lifecycle.Log.{
  Row, row_of, details_of, get, persist, rows_of, replay_row, replay_from, replay_from-append,
  replay_transitions,
}
use quant_stack.Prediction.Lifecycle.Manager.{Store, advance, change}

pub rows_of-append :
    (id : String) (xs ys : List Row) → rows_of id (xs ++ ys) ≡ rows_of id xs ++ rows_of id ys
unfolding rows_of
rows_of-append id [] ys = refl
rows_of-append id (r ∷ xs) ys = ground (arith, rows_of-append id xs ys)

-- A state carries the id that it is replayed for.
abbrev pub HasId : String → Option LifecycleState → Type 0
HasId id none = Unit {0}
HasId id (some s) = s.lifecycle_id ≡ id

pub move-id :
    (s s' : LifecycleState) (stage : Stage) (at : ℕ) (d : Details)
    → move s stage at d ≡ ok s'
    → s'.lifecycle_id ≡ s.lifecycle_id
unfolding move
move-id s s' stage at d e = ground arith

replay_row-HasId :
    (minted id : String) (state state' : Option LifecycleState) (r : Row)
    → str_eq id "" ≡ false
    → HasId id state
    → replay_row minted id state r ≡ ok state'
    → HasId id state'
unfolding replay_row apply_transition
replay_row-HasId minted id none none r ne h e = tt
replay_row-HasId minted id none (some s') r ne h e = ground arith
replay_row-HasId minted id (some s) none r ne h e = tt
replay_row-HasId minted id (some s) (some s') r ne h e = ground arith

pub replay_from-HasId :
    (minted id : String) (state state' : Option LifecycleState) (rows : List Row)
    → str_eq id "" ≡ false
    → HasId id state
    → replay_from minted id state rows ≡ ok state'
    → HasId id state'
unfolding replay_from
replay_from-HasId minted id state state' [] ne h e =
    let p : state ≡ state' = cc in subst (HasId id) p h
replay_from-HasId minted id state state' (r ∷ rows) ne h e =
    elim (Result-cases (replay_row minted id state r)) [
      | inl (state₁, p) ↦
          replay_from-HasId minted id state₁ state' rows ne
            (replay_row-HasId minted id state state₁ r ne h p) (ground arith)
      | inr (x, p) ↦ absurd (ground arith)
    ]

-- With an id to replay for, nothing is minted.
replay_row-minted :
    (m m' id : String) (state : Option LifecycleState) (r : Row)
    → str_eq id "" ≡ false
    → replay_row m id state r ≡ replay_row m' id state r
unfolding replay_row apply_transition
replay_row-minted m m' id none r ne = ground arith
replay_row-minted m m' id (some s) r ne = refl

replay_from-minted :
    (m m' id : String) (state : Option LifecycleState) (rows : List Row)
    → str_eq id "" ≡ false
    → replay_from m id state rows ≡ replay_from m' id state rows
unfolding replay_from
replay_from-minted m m' id state [] ne = refl
replay_from-minted m m' id state (r ∷ rows) ne =
    rw (replay_row-minted m m' id state r ne, replay_from)
      (go (replay_row m' id state r) (λ state'. replay_from-minted m m' id state' rows ne))
  where
    go :
        (x : Result (Option LifecycleState))
        → ((state' : Option LifecycleState)
            → replay_from m id state' rows ≡ replay_from m' id state' rows)
        → (elim x [ ok s ↦ replay_from m id s rows | err e ↦ err e ])
          ≡ (elim x [ ok s ↦ replay_from m' id s rows | err e ↦ err e ])
    go (ok s) ih = ih s
    go (err e) ih = refl

-- The details of the row of an accepted transition have it accepted again, with the same result.
move_again :
    (id : String) (s s' : LifecycleState) (stage : Stage) (at : ℕ) (d : Details)
    → move s stage at d ≡ ok s'
    → move s stage at (details_of id (row_of s' at)) ≡ ok s'
unfolding move details_of row_of
move_again id s s' stage at d e = ground arith

stage_eq_sym : (s t : Stage) → stage_eq s t ≡ false → stage_eq t s ≡ false
stage_eq_sym s t ne = elim (Bool-cases (stage_eq t s)) [
  | inl same ↦
      let p = eq_of_stage_eq t s same in let q : stage_eq s t ≡ true = rw p (stage_eq_refl s) in cc
  | inr other ↦ other
]

replay_row_at :
    (m id : String) (s s' : LifecycleState) (r : Row) (stage : Stage)
    → r.stage ≡ stage
    → stage_eq stage s.stage ≡ false
    → move s stage r.at (details_of id r) ≡ ok s'
    → replay_row m id (some s) r ≡ ok (some s')
unfolding replay_row apply_transition
replay_row_at m id s s' r stage p ne e = rw p (ground arith)

-- The row of an accepted transition replays to the state that the transition made.
replay_row-row_of :
    (m m' id : String) (s s' : LifecycleState) (stage : Stage) (at : ℕ) (d : Details)
    → stage_eq s.stage stage ≡ false
    → apply_transition m (some s) stage at d ≡ ok s'
    → replay_row m' id (some s) (row_of s' at) ≡ ok (some s')
unfolding apply_transition
replay_row-row_of m m' id s s' stage at d ne e =
    let p = apply_transition-stage m (some s) s' stage at d e in
    let again = move_again id s s' stage at d e in
    let fresh = stage_eq_sym s.stage stage ne in
    replay_row_at m' id s s' (row_of s' at) stage (unfold row_of in p) fresh
      (unfold row_of in again)

pub rows_of-row :
    (id : String) (s : LifecycleState) (at : ℕ)
    → s.lifecycle_id ≡ id
    → rows_of id (row_of s at ∷ []) ≡ row_of s at ∷ []
unfolding rows_of row_of
rows_of-row id s at e = rw e (rw (eq_refl id))

-- Appending the row of an accepted transition to the log.
get-persist :
    (m m' id : String) (rows : List Row) (s s' : LifecycleState) (stage : Stage) (at : ℕ)
    (d : Details)
    → str_eq id "" ≡ false
    → get m id (some rows) ≡ ok (some s)
    → stage_eq s.stage stage ≡ false
    → apply_transition m (some s) stage at d ≡ ok s'
    → get m' id (persist (row_of s' at) (some rows)) ≡ ok (some s')
unfolding get persist replay_transitions
get-persist m m' id rows s s' stage at d nonempty g ne e =
    let row = row_of s' at in
    let own : s.lifecycle_id ≡ id =
      replay_from-HasId m id none (some s) (rows_of id rows) nonempty tt g in
    let own' : s'.lifecycle_id ≡ id =
      move-id s s' stage at d (unfold apply_transition in e) ∙ own in
    let same = sym (replay_from-minted m m' id none (rows_of id rows) nonempty) ∙ g in
    let now = replay_row-row_of m m' id s s' stage at d ne e in
    rw (rows_of-append id rows (row ∷ []), rows_of-row id s' at own')
      (rw (replay_from-append m' id none (rows_of id rows) (row ∷ []), same)
        (unfold replay_from in rw (now, replay_from)))

pub get-minted :
    (m m' id : String) (rows : List Row)
    → str_eq id "" ≡ false
    → get m' id (some rows) ≡ get m id (some rows)
unfolding get replay_transitions
get-minted m m' id rows nonempty = replay_from-minted m' m id none (rows_of id rows) nonempty

-- What a request to advance a lifecycle, under an id that is not empty, returns is what the log
-- then replays to: whether the request wrote a row or, as it asked for the current stage, none.
pub get-advance :
    (m m' id : String) (stage : Stage) (at : ℕ) (d : Details) (rows : List Row)
    (s' : LifecycleState)
    → str_eq id "" ≡ false
    → (advance m id stage at d (some rows)).0 ≡ ok s'
    → get m' id (advance m id stage at d (some rows)).1 ≡ ok (some s')
unfolding advance
get-advance m m' id stage at d rows s' nonempty e = elim (Result-cases (get m id (some rows))) [
  | inl (none, p) ↦ absurd (ground arith)
  | inl (some s, p) ↦ elim (Bool-cases (stage_eq s.stage stage)) [
    | inl same ↦ ground (arith, get-minted m m' id rows nonempty)
    | inr ne ↦ elim (Result-cases (apply_transition m (some s) stage at d)) [
      | inl (s₁, q) ↦
          unfold change in ground (arith, get-persist m m' id rows s s₁ stage at d nonempty p ne q)
      | inr (x, q) ↦ absurd (unfold change in ground arith)
    ]
  ]
  | inr (x, p) ↦ absurd (ground arith)
]

-- A request that fails has written nothing.
pub advance_error :
    (m id : String) (stage : Stage) (at : ℕ) (d : Details) (store : Store) (x : TransitionError)
    → (advance m id stage at d store).0 ≡ err x
    → (advance m id stage at d store).1 ≡ store
unfolding advance
advance_error m id stage at d store x e = ground arith
