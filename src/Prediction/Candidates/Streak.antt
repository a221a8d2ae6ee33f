-- ===== src/Prediction/Candidates/Streak.antt =====
-- Since when a signal stands.
use quant_stack.Prelude.{
  ℕ, ◌≡◌, ◌⊎◌, refl, subst, ap, String, true, false, Option, none, some, List, [], ◌∷◌, ◌++◌, arith,
  Bool-cases, Option-cases, inl, inr,
}
use quant_stack.Prediction.Candidates.{
  StoredCandidate, has_direction, is_near, streak_from, streak_start,
}

-- A run of records from the instant before it to its last one: each is of the direction, and near the one
-- before it.
pub data IsRun (direction : String) (max_gap : ℕ)
    : Option ℕ → List StoredCandidate → Option ℕ → Type 0 where
  done : {start : Option ℕ} → IsRun direction max_gap start [] start
  next :
      {start end : Option ℕ} {r : StoredCandidate} {ts : ℕ} {rs : List StoredCandidate}
      → has_direction direction r ≡ true
      → r.as_of ≡ some ts
      → is_near max_gap start ts ≡ true
      → IsRun direction max_gap (some ts) rs end
      → IsRun direction max_gap start (r ∷ rs) end

-- No record continues the run: the history ends, or the next record is of another direction, has no time, or
-- is too far from the last one.
abbrev pub Stops : String → ℕ → Option ℕ → List StoredCandidate → Type 0
Stops direction max_gap end [] = Unit
Stops direction max_gap end (r ∷ rs) =
    (has_direction direction r ≡ false)
    ⊎ (r.as_of ≡ none)
    ⊎ ((ts : ℕ) × (r.as_of ≡ some ts) × (is_near max_gap end ts ≡ false))

-- A longest run at the front of the history, and what is behind it.
pub record HasRun (direction : String) (max_gap : ℕ) (start : Option ℕ)
    (history : List StoredCandidate) (end : Option ℕ) : Type 0 where
  pub run : List StoredCandidate
  pub rest : List StoredCandidate
  pub parts : history ≡ run ++ rest
  pub is_run : IsRun direction max_gap start run end
  pub stops : Stops direction max_gap end rest

stopped :
    (direction : String) (max_gap : ℕ) (start end : Option ℕ) (history : List StoredCandidate)
    → start ≡ end
    → Stops direction max_gap start history
    → HasRun direction max_gap start history end
stopped direction max_gap start end history e h =
    subst (HasRun direction max_gap start history) e
      (record { run = []; rest = history; parts = refl; is_run = done; stops = h })

pub streak_from-HasRun :
    (direction : String) (max_gap : ℕ) (start : Option ℕ) (history : List StoredCandidate)
    → HasRun direction max_gap start history (streak_from direction max_gap start history)
unfolding streak_from
streak_from-HasRun direction max_gap start [] = record {
  run = [];
  rest = [];
  parts = refl;
  is_run = done;
  stops = tt;
}
streak_from-HasRun direction max_gap start (r ∷ history) = elim (Option-cases r.as_of) [
  | inl e ↦ stopped direction max_gap start _ (r ∷ history) (ground (arith, e)) (inr (inl e))
  | inr (ts, e) ↦ elim (Bool-cases (has_direction direction r)) [
    | inr p ↦ stopped direction max_gap start _ (r ∷ history) (ground (arith, e, p)) (inl p)
    | inl p ↦ elim (Bool-cases (is_near max_gap start ts)) [
      | inr q ↦
          stopped direction max_gap start _ (r ∷ history) (ground (arith, e, p, q))
            (inr (inr (ts, e, q)))
      | inl q ↦
          let later = streak_from-HasRun direction max_gap (some ts) history in
          let same : streak_from direction max_gap (some ts) history
              ≡ streak_from direction max_gap start (r ∷ history) =
            ground (arith, e, p, q) in
          subst (HasRun direction max_gap start (r ∷ history)) same (record {
            run = r ∷ later.run;
            rest = later.rest;
            parts = ap (λ l. r ∷ l) later.parts;
            is_run = next p e q later.is_run;
            stops = later.stops;
          })
    ]
  ]
]

-- A signal stands since the last record, in the order from the newest on, of the longest run at the front of
-- the history: its records are all of the signal's direction, have a time, and no two that follow each
-- other are further apart than the gap, and the record behind the run, if there is one, breaks one of these.
pub streak_start_lem :
    (history : List StoredCandidate) (direction : String) (max_gap : ℕ)
    → HasRun direction max_gap none history (streak_start history direction max_gap)
unfolding streak_start
streak_start_lem history direction max_gap = streak_from-HasRun direction max_gap none history
