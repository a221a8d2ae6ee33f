-- ===== src/Prediction/Lifecycle/Manager/History.antt =====
-- What holds of the log over any history of requests.
use quant_stack.Prelude.{
  ℕ, String, ◌≡◌, refl, subst, ◌∙◌, false, Option, none, some, List, [], ◌∷◌, ◌++◌, arith, str_eq,
  eq_iff, Bool-cases, inl, inr,
}
use mathlib.Core.List.{append-nil}
use quant_stack.Prediction.Lifecycle.Stages.{Stage, detected, stage_eq}
use quant_stack.Prediction.Lifecycle.{
  LifecycleState, Details, or_text, ok, Result-cases, apply_transition,
}
use quant_stack.Prediction.Lifecycle.Log.{
  Row, row_of, get, rows_of, replay_row, replay_from, replay_transitions,
}
use quant_stack.Prediction.Lifecycle.Manager.{
  Store, advance, detect, Request, handle, detects, confirms, qualifies, marks_sent, monitors,
  expires, succeeds, fails,
}
use quant_stack.Prediction.Lifecycle.Manager.Ledger.{
  rows_of-append, rows_of-row, replay_from-HasId, move-id, get-advance, advance_error,
}

-- The log after `advance` and after `detect`: unchanged, or one row longer.
pub data Grows (id : String) (rows : List Row) (store : Store) : Type 0 where
  same : store ≡ some rows → Grows id rows store
  longer : (r : Row) → r.lifecycle_id ≡ id → store ≡ some (rows ++ r ∷ []) → Grows id rows store

advance-Grows :
    (m id : String) (stage : Stage) (at : ℕ) (d : Details) (rows : List Row)
    → str_eq id "" ≡ false
    → Grows id rows (advance m id stage at d (some rows)).1
unfolding advance get replay_transitions
advance-Grows m id stage at d rows ne = elim (Result-cases (get m id (some rows))) [
  | inl (none, p) ↦ same (ground arith)
  | inl (some s, p) ↦ elim (Bool-cases (stage_eq s.stage stage)) [
    | inl e ↦ same (ground arith)
    | inr e ↦ elim (Result-cases (apply_transition m (some s) stage at d)) [
      | inl (s', q) ↦
          let own : s.lifecycle_id ≡ id =
            replay_from-HasId m id none (some s) (rows_of id rows) ne tt p in
          longer (row_of s' at)
            (unfold row_of in move-id s s' stage at d (unfold apply_transition in q) ∙ own)
            (ground arith)
      | inr (x, q) ↦ same (ground arith)
    ]
  ]
  | inr (x, p) ↦ same (ground arith)
]

rows_of-other :
    (id j : String) (rows : List Row) (r : Row)
    → r.lifecycle_id ≡ id
    → str_eq id j ≡ false
    → rows_of j (rows ++ r ∷ []) ≡ rows_of j rows
rows_of-other id j rows r e ne =
    rw (rows_of-append j rows (r ∷ [])) (unfold rows_of in rw (e, ne) (append-nil (rows_of j rows)))

pub Grows-get :
    (m id j : String) (rows : List Row) (store : Store)
    → str_eq id j ≡ false
    → Grows id rows store
    → get m j store ≡ get m j (some rows)
unfolding get
Grows-get m id j rows store ne (same e) = rw e
Grows-get m id j rows store ne (longer r own e) = rw (e, rows_of-other id j rows r own ne)

-- A request about one lifecycle, under an id that is not empty, changes what the log says of no
-- other.
pub advance_other :
    (m m' id j : String) (stage : Stage) (at : ℕ) (d : Details) (rows : List Row)
    → str_eq id "" ≡ false
    → str_eq id j ≡ false
    → get m' j (advance m id stage at d (some rows)).1 ≡ get m' j (some rows)
advance_other m m' id j stage at d rows nonempty ne =
    Grows-get m' id j rows (advance m id stage at d (some rows)).1 ne
      (advance-Grows m id stage at d rows nonempty)

-- The state that `detect` makes.
abbrev born : String → String → String → ℕ → LifecycleState
born m symbol direction at = record {
  lifecycle_id = m;
  symbol = or_text (some symbol) "";
  direction = or_text (some direction) "";
  stage = detected;
  stage_timestamps = (detected, at) ∷ [];
  expiration_reason = none;
  outcome = none;
}

-- A detection under an id that the log does not know yet starts its lifecycle: the log replays to
-- the state that was returned.
pub get-detect :
    (m m' symbol direction : String) (at : ℕ) (rows : List Row) (s : LifecycleState)
    → str_eq m "" ≡ false
    → rows_of m rows ≡ []
    → (detect m symbol direction at (some rows)).0 ≡ ok s
    → get m' m (detect m symbol direction at (some rows)).1 ≡ ok (some s)
unfolding detect get replay_transitions replay_from replay_row apply_transition
get-detect m m' symbol direction at rows s nonempty fresh e =
    let only : rows_of m (rows ++ row_of (born m symbol direction at) at ∷ [])
        ≡ row_of (born m symbol direction at) at ∷ [] =
      rw (rows_of-append m rows (row_of (born m symbol direction at) at ∷ []), fresh)
        (rows_of-row m (born m symbol direction at) at refl) in
    rw only (ground (arith, eq_iff "" ""))

-- The request names a lifecycle, or detects one under an id that the log does not know.
abbrev pub IsProper : List Row → String → Request → Type 0
IsProper rows m (detects symbol direction at) = (str_eq m "" ≡ false) × (rows_of m rows ≡ [])
IsProper rows m (confirms id at) = str_eq id "" ≡ false
IsProper rows m (qualifies id at) = str_eq id "" ≡ false
IsProper rows m (marks_sent id at) = str_eq id "" ≡ false
IsProper rows m (monitors id at) = str_eq id "" ≡ false
IsProper rows m (expires id reason at) = str_eq id "" ≡ false
IsProper rows m (succeeds id outcome at) = str_eq id "" ≡ false
IsProper rows m (fails id outcome at) = str_eq id "" ≡ false

-- Every lifecycle of the log can be read.
abbrev pub IsReadable : List Row → Type 0
IsReadable rows =
    (j : String) → str_eq j "" ≡ false → (o : Option LifecycleState) × (get j j (some rows) ≡ ok o)

-- It is enough to read the lifecycle that the log grew by, and the others as before.
Grows-IsReadable :
    (id : String) (rows rows' : List Row)
    → Grows id rows (some rows')
    → (o : Option LifecycleState) × (get id id (some rows') ≡ ok o)
    → IsReadable rows
    → IsReadable rows'
Grows-IsReadable id rows rows' g own h j nj = elim (Bool-cases (str_eq id j)) [
  | inl e ↦
      subst (λ k. (o : Option LifecycleState) × (get k k (some rows') ≡ ok o)) ((eq_iff id j).0 e)
        own
  | inr ne ↦ ((h j nj).0, Grows-get j id j rows (some rows') ne g ∙ (h j nj).1)
]

read_after :
    (m id : String) (stage : Stage) (at : ℕ) (d : Details) (rows : List Row)
    → str_eq id "" ≡ false
    → IsReadable rows
    → (o : Option LifecycleState) × (get id id (advance m id stage at d (some rows)).1 ≡ ok o)
read_after m id stage at d rows ne h = elim (Result-cases (advance m id stage at d (some rows)).0) [
  | inl (s, p) ↦ (some s, get-advance m id id stage at d rows s ne p)
  | inr (x, p) ↦ rw (advance_error m id stage at d (some rows) x p) (h id ne)
]

-- The lifecycle that a request is about.
abbrev pub subject : String → Request → String
subject m (detects symbol direction at) = m
subject m (confirms id at) = id
subject m (qualifies id at) = id
subject m (marks_sent id at) = id
subject m (monitors id at) = id
subject m (expires id reason at) = id
subject m (succeeds id outcome at) = id
subject m (fails id outcome at) = id

pub handle-Grows :
    (m : String) (q : Request) (rows : List Row)
    → IsProper rows m q
    → Grows (subject m q) rows (handle m q (some rows)).1
unfolding handle
handle-Grows m (detects symbol direction at) rows p =
    longer (row_of (born m symbol direction at) at) refl (unfold apply_transition in refl)
handle-Grows m (confirms id at) rows p = advance-Grows m id _ at _ rows p
handle-Grows m (qualifies id at) rows p = advance-Grows m id _ at _ rows p
handle-Grows m (marks_sent id at) rows p = advance-Grows m id _ at _ rows p
handle-Grows m (monitors id at) rows p = advance-Grows m id _ at _ rows p
handle-Grows m (expires id reason at) rows p = advance-Grows m id _ at _ rows p
handle-Grows m (succeeds id outcome at) rows p = advance-Grows m id _ at _ rows p
handle-Grows m (fails id outcome at) rows p = advance-Grows m id _ at _ rows p

handle_read :
    (m : String) (q : Request) (rows : List Row)
    → IsProper rows m q
    → IsReadable rows
    → (o : Option LifecycleState) × (get (subject m q) (subject m q) (handle m q (some rows)).1
        ≡ ok o)
unfolding handle
handle_read m (detects symbol direction at) rows p h = (
  some (born m symbol direction at),
  get-detect m m symbol direction at rows (born m symbol direction at) p.0 p.1
      (unfold apply_transition in refl),
)
handle_read m (confirms id at) rows p h = read_after m id _ at _ rows p h
handle_read m (qualifies id at) rows p h = read_after m id _ at _ rows p h
handle_read m (marks_sent id at) rows p h = read_after m id _ at _ rows p h
handle_read m (monitors id at) rows p h = read_after m id _ at _ rows p h
handle_read m (expires id reason at) rows p h = read_after m id _ at _ rows p h
handle_read m (succeeds id outcome at) rows p h = read_after m id _ at _ rows p h
handle_read m (fails id outcome at) rows p h = read_after m id _ at _ rows p h

-- The log after a request.
abbrev pub rows_after : String → Request → List Row → List Row
rows_after m q rows = elim (handle m q (some rows)).1 [ none ↦ rows | some rows' ↦ rows' ]

pub handle-rows_after :
    (m : String) (q : Request) (rows : List Row)
    → IsProper rows m q
    → (handle m q (some rows)).1 ≡ some (rows_after m q rows)
handle-rows_after m q rows p = go (handle m q (some rows)).1 (handle-Grows m q rows p)
  where
    go :
        (store : Store)
        → Grows (subject m q) rows store
        → store ≡ some (elim store [ none ↦ rows | some rows' ↦ rows' ])
    go none (same e) = absurd (ground arith)
    go none (longer r o e) = absurd (ground arith)
    go (some x) g = refl

pub handle-IsReadable :
    (m : String) (q : Request) (rows : List Row)
    → IsProper rows m q
    → IsReadable rows
    → IsReadable (rows_after m q rows)
handle-IsReadable m q rows p h =
    let e = handle-rows_after m q rows p in
    Grows-IsReadable (subject m q) rows (rows_after m q rows) (rw e at (handle-Grows m q rows p))
      (rw e at (handle_read m q rows p h)) h

-- The log after a history of requests, each with the id that it would mint.
unfoldable pub serve : List (String × Request) → List Row → List Row
serve [] rows = rows
serve ((m, q) ∷ qs) rows = serve qs (rows_after m q rows)

abbrev pub AreProper : List (String × Request) → List Row → Type 0
AreProper [] rows = Unit
AreProper ((m, q) ∷ qs) rows = IsProper rows m q × AreProper qs (rows_after m q rows)

-- Whatever the requests, accepted or refused, repeated or out of order, no lifecycle of the log ever
-- becomes unreadable, as long as each names a lifecycle and no detection mints an id that the log
-- holds already.
pub serve-IsReadable :
    (qs : List (String × Request)) (rows : List Row)
    → AreProper qs rows
    → IsReadable rows
    → IsReadable (serve qs rows)
unfolding serve
serve-IsReadable [] rows p h = h
serve-IsReadable ((m, q) ∷ qs) rows p h =
    serve-IsReadable qs (rows_after m q rows) p.1 (handle-IsReadable m q rows p.0 h)
