-- ===== src/Features/Structure/Safety.antt =====
-- The daily pass of backend/app/features/structure.py, when bars are added at the end.
pub mod Pivots
use quant_stack.Prelude.{
  nth, ℕ, zero, suc, ◌+◌, ◌-◌, ◌≤◌, ◌<◌, ◌≡◌, refl, sym, ap, ◌∙◌, Bool, true, false, ◌&&◌, Option,
  none, some, List, [], ◌∷◌, ◌++◌, arith, All, All-map, All-append, length, length-append, map,
  take, leb, if◌then◌else◌, Option-cases, Bool-cases, inl, inr, subst,
}
use mathlib.Core.List.{map-append}
use quant_stack.Prelude.Floats.{Floats, gt, lt}
use quant_stack.Features.Schema.{Candle}
use quant_stack.Features.Structure.Swings.{
  Swing, range_from, all_at, pivots, pivot_range, swing_highs, swing_lows,
}
use quant_stack.Features.Structure.Measures.{Sign, up, down, flat}
use quant_stack.Features.Structure.Bar.{
  Row, State, Side, see, confirm, high_side, low_side, highs_at, lows_at, bos_of, breaks_high,
  breaks_low, settle, step,
}
use quant_stack.Features.Structure.{start, rows_from, compute_structure_daily}
use quant_stack.Features.Structure.Breaks.{QuietUntil, QuietUntil-le, confirm-quiet}
use Pivots.{pivots-more}

module _ {F : Type 0} (fl : Floats F) where
  see-events :
      (beats : F → F → Bool) (level : F) (s : Side F) (es : List (Swing F))
      → see fl beats level (record s { events = es })
        ≡ record (see fl beats level s) { events = es }
  unfolding see
  see-events beats level s es = ground arith

  -- The loop overwrites the events that it is given with.
  confirm-events :
      (beats : F → F → Bool) (i : ℕ) (events : List (Swing F)) (s : Side F) (es : List (Swing F))
      → confirm fl beats i events (record s { events = es }) ≡ confirm fl beats i events s
  unfolding confirm
  confirm-events beats i [] s es = refl
  confirm-events beats i ((at, level) ∷ events) s es =
      let here = see-events beats level s es in
      let rest = confirm-events beats i events (see fl beats level s) es in
      ground (arith, here, rest)

  abbrev with_later : Side F → List (Swing F) → Side F
  with_later s later = record s { events = s.events ++ later }

  confirm-append :
      (beats : F → F → Bool) (i : ℕ) (events later : List (Swing F)) (s : Side F)
      → QuietUntil fl (suc i) later
      → confirm fl beats i (events ++ later) s ≡ with_later (confirm fl beats i events s) later
  unfolding confirm
  confirm-append beats i [] later s q = confirm-quiet fl beats i later s q
  confirm-append beats i ((at, level) ∷ events) later s q =
      let rest = confirm-append beats i events later (see fl beats level s) q in
      ground (arith, rest)

  -- The loop's state where later swings are known too.
  abbrev extended : State F → List (Swing F) → List (Swing F) → State F
  extended s highs lows = record s {
    high_events = s.high_events ++ highs;
    low_events = s.low_events ++ lows;
  }

  settle-extended :
      (s : State F) (xh xl : List (Swing F)) (c : Candle F) (highs lows : Side F) (bos : Sign)
      → settle fl (extended s xh xl) c (with_later highs xh) (with_later lows xl) bos
        ≡ (extended (settle fl s c highs lows bos).0 xh xl, (settle fl s c highs lows bos).1)
  unfolding settle
  settle-extended s xh xl c highs lows up = refl
  settle-extended s xh xl c highs lows down = refl
  settle-extended s xh xl c highs lows flat = refl

  bos_of-later :
      (highs lows : Side F) (xh xl : List (Swing F)) (close : F)
      → bos_of fl (with_later highs xh) (with_later lows xl) close ≡ bos_of fl highs lows close
  unfolding bos_of
  bos_of-later highs lows xh xl close = refl

  highs_at-extended :
      (s : State F) (xh xl : List (Swing F))
      → QuietUntil fl (suc s.index) xh
      → highs_at fl (extended s xh xl) ≡ with_later (highs_at fl s) xh
  highs_at-extended s xh xl q =
      let beats = λ (new old : F). gt fl new old in
      let more = s.high_events ++ xh in
      let e = confirm-events beats s.index more (high_side fl s) more in
      e ∙ confirm-append beats s.index s.high_events xh (high_side fl s) q

  lows_at-extended :
      (s : State F) (xh xl : List (Swing F))
      → QuietUntil fl (suc s.index) xl
      → lows_at fl (extended s xh xl) ≡ with_later (lows_at fl s) xl
  lows_at-extended s xh xl q =
      let beats = λ (new old : F). lt fl new old in
      let more = s.low_events ++ xl in
      let e = confirm-events beats s.index more (low_side fl s) more in
      e ∙ confirm-append beats s.index s.low_events xl (low_side fl s) q

  step-extended :
      (s : State F) (xh xl : List (Swing F)) (c : Candle F)
      → QuietUntil fl (suc s.index) xh
      → QuietUntil fl (suc s.index) xl
      → step fl (extended s xh xl) c ≡ (extended (step fl s c).0 xh xl, (step fl s c).1)
  unfolding step
  step-extended s xh xl c qh ql =
      rw (highs_at-extended s xh xl qh, lows_at-extended s xh xl ql)
        (settle-extended s xh xl c (highs_at fl s) (lows_at fl s)
          (bos_of fl (highs_at fl s) (lows_at fl s) c.close))

  next_index : (s : State F) (c : Candle F) → (step fl s c).0.index ≡ s.index + 1
  unfolding step settle
  next_index s c = refl

  rows_from-nil : (s : State F) → rows_from fl s [] ≡ []
  unfolding rows_from
  rows_from-nil s = refl

  rows_from-cons :
      (s : State F) (c : Candle F) (cs : List (Candle F))
      → rows_from fl s (c ∷ cs) ≡ (step fl s c).1 ∷ rows_from fl (step fl s c).0 cs
  unfolding rows_from
  rows_from-cons s c cs = refl

  rows_from-extended :
      (s : State F) (xh xl : List (Swing F)) (cs : List (Candle F))
      → QuietUntil fl (s.index + length cs) xh
      → QuietUntil fl (s.index + length cs) xl
      → rows_from fl (extended s xh xl) cs ≡ rows_from fl s cs
  rows_from-extended s xh xl [] qh ql = rows_from-nil _ ∙ sym (rows_from-nil s)
  rows_from-extended s xh xl (c ∷ cs) qh ql =
      let h = QuietUntil-le fl _ (suc s.index) xh (omega arith) qh in
      let l = QuietUntil-le fl _ (suc s.index) xl (omega arith) ql in
      let e = step-extended s xh xl c h l in
      let next : (step fl s c).0.index ≡ s.index + 1 = next_index s c in
      let rest =
        rows_from-extended (step fl s c).0 xh xl cs
          (rw next (QuietUntil-le fl _ (s.index + 1 + length cs) xh (omega arith) qh))
          (rw next (QuietUntil-le fl _ (s.index + 1 + length cs) xl (omega arith) ql)) in
      rows_from-cons (extended s xh xl) c cs
      ∙ ap (λ r. r.1 ∷ rows_from fl r.0 cs) e
      ∙ ap (λ r. (step fl s c).1 ∷ r) rest
      ∙ sym (rows_from-cons s c cs)

  -- A prefix of the bars gives a prefix of the rows.
  rows_from-append :
      (s : State F) (cs ds : List (Candle F))
      → take (length cs) (rows_from fl s (cs ++ ds)) ≡ rows_from fl s cs
  unfolding rows_from
  rows_from-append s [] ds = refl
  rows_from-append s (c ∷ cs) ds =
      ap (λ r. (step fl s c).1 ∷ r) (rows_from-append (step fl s c).0 cs ds)

  -- The loop starts on more bars as on the first ones, with later swings.
  start-more :
      (k : ℕ) (cs ds : List (Candle F))
      → (xh : List (Swing F)) × (xl : List (Swing F)) × (start fl k (cs ++ ds)
          ≡ extended (start fl k cs) xh xl)
        × QuietUntil fl (length cs) xh
        × QuietUntil fl (length cs) xl
  unfolding start swing_highs swing_lows
  start-more k cs ds =
      let highs = pivots-more fl (λ level x. fl.le x level) k (λ c. c.high) cs ds in
      let lows = pivots-more fl (λ level x. fl.le level x) k (λ c. c.low) cs ds in
      (
        highs.0,
        lows.0,
        λ i. record (start fl k cs) { high_events = highs.1 i; low_events = lows.1 i },
        highs.2,
        lows.2,
      )

  from_start :
      (k : ℕ) (cs : List (Candle F)) (later : List (Swing F))
      → QuietUntil fl (length cs) later
      → QuietUntil fl ((start fl k cs).index + length cs) later
  unfolding start
  from_start k cs later q = QuietUntil-le fl (length cs) (0 + length cs) later (omega arith) q

  -- What the loop says of the first bars, pivots of `k` bars on each side included, it says whatever
  -- bars come after them: no value of a bar looks ahead of it.
  pub no_lookahead :
      (k : ℕ) (cs ds : List (Candle F))
      → take (length cs) (compute_structure_daily fl k (cs ++ ds)) ≡ compute_structure_daily fl k cs
  unfolding compute_structure_daily
  no_lookahead k cs ds =
      let (xh, xl, e, qh, ql) = start-more k cs ds in
      rows_from-append (start fl k (cs ++ ds)) cs ds
      ∙ ap (λ s. rows_from fl s cs) e
      ∙ rows_from-extended (start fl k cs) xh xl cs (from_start k cs xh qh) (from_start k cs xl ql)
