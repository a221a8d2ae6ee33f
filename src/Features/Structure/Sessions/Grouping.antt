-- ===== src/Features/Structure/Sessions/Grouping.antt =====
-- The sessions that the candles of a series are grouped into: one to a day, of all its candles.
use quant_stack.Prelude.{
  ℕ, ◌≡◌, refl, sym, subst, Bool, true, false, List, [], ◌∷◌, ◌++◌, filterb, ◌==◌, ==_iff, anyb,
  arith, if◌then◌else◌, Bool-cases, inl, inr,
}
use mathlib.Core.List.{append-nil, append_assoc}
use quant_stack.Features.Schema.{Candle}
use quant_stack.Features.Structure.Sessions.{
  session_day, add_to_session, insert_by, group_sessions, sort_by,
}

filterb-snoc {ℓ} :
    {A : Type ℓ} (test : A → Bool) (xs : List A) (a : A)
    → filterb test (xs ++ a ∷ []) ≡ (if test a then filterb test xs ++ a ∷ [] else filterb test xs)
filterb-snoc test [] a = ground arith
filterb-snoc test (x ∷ xs) a = let rest = filterb-snoc test xs a in ground (arith, rest)

module _ {F : Type 0} where
  -- The candles of a day.
  abbrev pub of_day : ℕ → List (Candle F) → List (Candle F)
  of_day day cs = filterb (λ c. session_day c.ts == day) cs

  abbrev pub has_day : ℕ → List (ℕ × List (Candle F)) → Bool
  has_day day [] = false
  has_day day (s ∷ sessions) = if s.0 == day then true else has_day day sessions

  -- Each session has the candles of its day among those that are done, and no day has two.
  abbrev pub ArePerDay : List (Candle F) → List (ℕ × List (Candle F)) → Type 0
  ArePerDay done [] = Unit
  ArePerDay done (s ∷ sessions) =
      (s.1 ≡ of_day s.0 done) × (has_day s.0 sessions ≡ false) × ArePerDay done sessions

  other_day :
      (c : Candle F) (done : List (Candle F)) (sessions : List (ℕ × List (Candle F)))
      → has_day (session_day c.ts) sessions ≡ false
      → ArePerDay done sessions
      → ArePerDay (done ++ c ∷ []) sessions
  other_day c done [] n h = tt
  other_day c done (s ∷ sessions) n h =
      let e = filterb-snoc (λ (x : Candle F). session_day x.ts == s.0) done c in
      (
        ground (arith, h.0, e, n, ==_iff s.0 (session_day c.ts), ==_iff (session_day c.ts) s.0),
        h.1,
        other_day c done sessions (ground (arith, n)) h.2,
      )

  has_day-add :
      (d day : ℕ) (c : Candle F) (sessions : List (ℕ × List (Candle F)))
      → has_day d (add_to_session day c sessions) ≡ (if day == d then true else has_day d sessions)
  unfolding add_to_session
  has_day-add d day c [] = ground arith
  has_day-add d day c ((k, cs) ∷ sessions) =
      let rest = has_day-add d day c sessions in
      ground (arith, rest, ==_iff k day, ==_iff k d, ==_iff day d)

  add-ArePerDay :
      (c : Candle F) (done : List (Candle F)) (sessions : List (ℕ × List (Candle F)))
      → (has_day (session_day c.ts) sessions ≡ false → of_day (session_day c.ts) done ≡ [])
      → ArePerDay done sessions
      → ArePerDay (done ++ c ∷ []) (add_to_session (session_day c.ts) c sessions)
  unfolding add_to_session
  add-ArePerDay c done [] new h =
      let day = session_day c.ts in
      let e = filterb-snoc (λ (x : Candle F). session_day x.ts == day) done c in
      (ground (arith, e, new refl, ==_iff day day), refl, tt)
  add-ArePerDay c done ((k, cs) ∷ sessions) new h =
      let day = session_day c.ts in
      let e = filterb-snoc (λ (x : Candle F). session_day x.ts == k) done c in
      elim (Bool-cases (k == day)) [
        | inl p ↦
            let q : k ≡ day = (==_iff k day).0 p in
            rw p (
              ground (arith, h.0, e, q, ==_iff day k),
              h.1,
              other_day c done sessions (ground (arith, h.1, q)) h.2,
            )
        | inr p ↦
            let rest = add-ArePerDay c done sessions (λ n. new (ground (arith, n, p))) h.2 in
            let there = has_day-add k day c sessions in
            rw p (
              ground (arith, h.0, e, p, ==_iff day k, ==_iff k day),
              ground (arith, there, p, h.1, ==_iff day k, ==_iff k day),
              rest,
            )
      ]

  -- A day that has no session has no candle.
  abbrev pub IsWhole : List (Candle F) → List (ℕ × List (Candle F)) → Type 0
  IsWhole done sessions = (d : ℕ) → has_day d sessions ≡ false → of_day d done ≡ []

  pub group-ArePerDay :
      (done cs : List (Candle F)) (sessions : List (ℕ × List (Candle F)))
      → ArePerDay done sessions
      → IsWhole done sessions
      → ArePerDay (done ++ cs) (group_sessions sessions cs)
  unfolding group_sessions
  group-ArePerDay done [] sessions h w = subst (λ l. ArePerDay l sessions) (sym (append-nil done)) h
  group-ArePerDay done (c ∷ cs) sessions h w =
      let day = session_day c.ts in
      let next = add_to_session day c sessions in
      let rest =
        group-ArePerDay (done ++ c ∷ []) cs next (add-ArePerDay c done sessions (w day) h) (λ d n.
          let there = has_day-add d day c sessions in
          let e = filterb-snoc (λ (x : Candle F). session_day x.ts == d) done c in
          ground (arith, n, there, e, w d)) in
      subst (λ l. ArePerDay l (group_sessions next cs)) (append_assoc done (c ∷ []) cs) rest

  -- A day has a session after the pass if it had one before, or a candle.
  pub has_day-group :
      (d : ℕ) (sessions : List (ℕ × List (Candle F))) (cs : List (Candle F))
      → has_day d (group_sessions sessions cs)
        ≡ (if has_day d sessions then true else anyb (λ c. session_day c.ts == d) cs)
  unfolding group_sessions
  has_day-group d sessions [] = ground arith
  has_day-group d sessions (c ∷ cs) =
      let rest = has_day-group d (add_to_session (session_day c.ts) c sessions) cs in
      let there = has_day-add d (session_day c.ts) c sessions in ground (arith, rest, there)

  has_day-insert_by :
      (d : ℕ) (s : ℕ × List (Candle F)) (sessions : List (ℕ × List (Candle F)))
      → has_day d (insert_by (λ x. x.0) s sessions)
        ≡ (if s.0 == d then true else has_day d sessions)
  unfolding insert_by
  has_day-insert_by d s [] = refl
  has_day-insert_by d s (x ∷ sessions) =
      let rest = has_day-insert_by d s sessions in ground (arith, rest)

  pub has_day-sort_by :
      (d : ℕ) (sessions : List (ℕ × List (Candle F)))
      → has_day d (sort_by (λ x. x.0) sessions) ≡ has_day d sessions
  unfolding sort_by
  has_day-sort_by d [] = refl
  has_day-sort_by d (s ∷ sessions) =
      let rest = has_day-sort_by d sessions in
      let first = has_day-insert_by d s (sort_by (λ x. x.0) sessions) in ground (arith, rest, first)
