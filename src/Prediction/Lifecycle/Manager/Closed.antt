-- ===== src/Prediction/Lifecycle/Manager/Closed.antt =====
-- A closed lifecycle stays closed.
use quant_stack.Prelude.{
  ℕ, String, ◌≡◌, sym, subst, ◌∙◌, true, none, some, List, [], ◌∷◌, arith, str_eq, eq_iff,
  Bool-cases, inl, inr,
}
use quant_stack.Prediction.Lifecycle.Stages.{Stage, is_terminal}
use quant_stack.Prediction.Lifecycle.{LifecycleState, Details, ok, move, apply_transition}
use quant_stack.Prediction.Lifecycle.Log.{Row, get, rows_of, replay_transitions, replay_from}
use quant_stack.Prediction.Lifecycle.Manager.{
  Store, advance, Request, handle, detects, confirms, qualifies, marks_sent, monitors, expires,
  succeeds, fails,
}
use quant_stack.Prediction.Lifecycle.Manager.History.{
  IsProper, AreProper, rows_after, serve, subject, handle-Grows, Grows-get, handle-rows_after,
}

move_closed :
    (s : LifecycleState) (stage : Stage) (at : ℕ) (d : Details) {s' : LifecycleState}
    → is_terminal s.stage ≡ true
    → move s stage at d ≡ ok s'
    → ⊥
unfolding move
move_closed s stage at d t e = ground arith

-- A request to advance a closed lifecycle writes nothing.
advance_closed :
    (m id : String) (stage : Stage) (at : ℕ) (d : Details) (store : Store) (s : LifecycleState)
    → get m id store ≡ ok (some s)
    → is_terminal s.stage ≡ true
    → (advance m id stage at d store).1 ≡ store
unfolding advance apply_transition move
advance_closed m id stage at d store s g t = ground arith

get-fresh :
    (m id : String) (rows : List Row) → rows_of id rows ≡ [] → get m id (some rows) ≡ ok none
unfolding get replay_transitions replay_from
get-fresh m id rows e = rw e

handle_closed :
    (m id : String) (q : Request) (rows : List Row) (s : LifecycleState)
    → IsProper rows m q
    → ((k : String) → get k id (some rows) ≡ ok (some s))
    → is_terminal s.stage ≡ true
    → subject m q ≡ id
    → (handle m q (some rows)).1 ≡ some rows
unfolding handle
handle_closed m id (detects symbol direction at) rows s p g t e =
    let none_yet : rows_of id rows ≡ [] = subst (λ k. rows_of k rows ≡ []) e p.1 in
    absurd (ground (arith, get-fresh m id rows none_yet, g m))
handle_closed m id (confirms j at) rows s p g t e =
    advance_closed m j _ at _ (some rows) s (rw e (g m)) t
handle_closed m id (qualifies j at) rows s p g t e =
    advance_closed m j _ at _ (some rows) s (rw e (g m)) t
handle_closed m id (marks_sent j at) rows s p g t e =
    advance_closed m j _ at _ (some rows) s (rw e (g m)) t
handle_closed m id (monitors j at) rows s p g t e =
    advance_closed m j _ at _ (some rows) s (rw e (g m)) t
handle_closed m id (expires j reason at) rows s p g t e =
    advance_closed m j _ at _ (some rows) s (rw e (g m)) t
handle_closed m id (succeeds j outcome at) rows s p g t e =
    advance_closed m j _ at _ (some rows) s (rw e (g m)) t
handle_closed m id (fails j outcome at) rows s p g t e =
    advance_closed m j _ at _ (some rows) s (rw e (g m)) t

get-rows_after :
    (k m id : String) (q : Request) (rows : List Row) (s : LifecycleState)
    → IsProper rows m q
    → ((j : String) → get j id (some rows) ≡ ok (some s))
    → is_terminal s.stage ≡ true
    → get k id (some (rows_after m q rows)) ≡ ok (some s)
get-rows_after k m id q rows s p g t =
    let after = handle-rows_after m q rows p in
    elim (Bool-cases (str_eq (subject m q) id)) [
      | inl same ↦
          let stays = handle_closed m id q rows s p g t ((eq_iff (subject m q) id).0 same) in
          rw (sym after ∙ stays) (g k)
      | inr other ↦
          Grows-get k (subject m q) id rows (some (rows_after m q rows)) other
            (rw after at (handle-Grows m q rows p))
          ∙ g k
    ]

-- Once a lifecycle is closed, no history of requests, to it or to others, changes what the log says
-- of it: its stage, its times, its reason and its outcome stay as they were. It is a condition that
-- the id of every request is not empty, and that no detection mints an id that the log already holds.
pub serve_closed :
    (id : String) (qs : List (String × Request)) (rows : List Row) (s : LifecycleState)
    → AreProper qs rows
    → ((k : String) → get k id (some rows) ≡ ok (some s))
    → is_terminal s.stage ≡ true
    → (k : String) → get k id (some (serve qs rows)) ≡ ok (some s)
unfolding serve
serve_closed id [] rows s p g t k = g k
serve_closed id ((m, q) ∷ qs) rows s p g t k =
    serve_closed id qs (rows_after m q rows) s p.1 (λ j. get-rows_after j m id q rows s p.0 g t) t k
