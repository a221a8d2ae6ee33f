-- ===== src/Features/Structure/Breaks.antt =====
-- How often a level is broken.
use quant_stack.Prelude.{
  ℕ, suc, ◌+◌, ◌≤◌, ◌≡◌, refl, Bool, true, false, List, [], ◌∷◌, arith, All, length, if◌then◌else◌,
  Option-cases, Bool-cases, inl, inr,
}
use quant_stack.Prelude.Floats.{Floats, IsOrdered, gt}
use quant_stack.Features.Schema.{Candle}
use quant_stack.Features.Structure.Swings.{Swing}
use quant_stack.Features.Structure.Measures.{Sign, up, head_of}
use quant_stack.Features.Structure.Bar.{
  Row, State, Side, confirm, high_side, highs_at, lows_at, breaks_high, breaks_low, bos_of, settle,
  step,
}
use quant_stack.Features.Structure.{rows_from}

abbrev pub is_up : Sign → Bool
is_up up = true
is_up _ = false

module _ {F : Type 0} (fl : Floats F) where
  -- The bars that close above the last swing high.
  abbrev pub upward_breaks : List (Row F) → ℕ
  upward_breaks [] = 0
  upward_breaks (r ∷ rs) = (if is_up r.bos then 1 else 0) + upward_breaks rs

  -- No swing is confirmed before the bar `n`.
  abbrev pub QuietUntil : ℕ → List (Swing F) → Type 0
  QuietUntil n events = All (λ e. n ≤ e.0) events

  pub confirm-quiet :
      (beats : F → F → Bool) (i : ℕ) (events : List (Swing F)) (s : Side F)
      → QuietUntil (suc i) events
      → confirm fl beats i events s ≡ record s { events = events }
  unfolding confirm
  confirm-quiet beats i [] s q = refl
  confirm-quiet beats i (e ∷ es) s q = ground (arith, q.0)

  -- The last swing high is broken, or there is none.
  abbrev IsSpent : State F → Type 0
  IsSpent s = s.broken_high ≡ head_of s.highs_seen

  highs-quiet :
      (s : State F) → QuietUntil (suc s.index) s.high_events → highs_at fl s ≡ high_side fl s
  highs-quiet s q =
      confirm-quiet (λ new old. gt fl new old) s.index s.high_events (high_side fl s) q

  step-quiet :
      (s : State F) (c : Candle F)
      → QuietUntil (suc s.index) s.high_events
      → let s' = (step fl s c).0 in
        let bos = (step fl s c).1.bos in
        (s'.index ≡ s.index + 1)
        × (s'.high_events ≡ s.high_events)
        × (s'.highs_seen ≡ s.highs_seen)
        × (s'.broken_high ≡ (if is_up bos then head_of s.highs_seen else s.broken_high))
  unfolding step settle
  step-quiet s c q = let h = highs-quiet s q in ground (arith, h)

  pub QuietUntil-le :
      (n m : ℕ) (events : List (Swing F)) → m ≤ n → QuietUntil n events → QuietUntil m events
  QuietUntil-le n m [] h q = tt
  QuietUntil-le n m (e ∷ es) h q = (omega (arith, h, q.0), QuietUntil-le n m es h q.1)

  module _ (o : IsOrdered fl) where
    spent_again :
        (highs lows : Side F) (close : F)
        → highs.broken ≡ head_of highs.seen
        → is_up (bos_of fl highs lows close) ≡ false
    unfolding bos_of breaks_high breaks_low
    spent_again highs lows close h = elim (Option-cases (head_of highs.seen)) [
      | inl e ↦ ground (arith, e)
      | inr (l, e) ↦ ground (arith, e, h, o.reflexive l)
    ]

    step-spent :
        (s : State F) (c : Candle F)
        → QuietUntil (suc s.index) s.high_events
        → IsSpent s
        → is_up (step fl s c).1.bos ≡ false
    unfolding step settle
    step-spent s c q h =
        let e = highs-quiet s q in
        spent_again (highs_at fl s) (lows_at fl s) c.close (ground (arith, e, h))

    upward_breaks-spent :
        (s : State F) (cs : List (Candle F))
        → QuietUntil (s.index + length cs) s.high_events
        → IsSpent s
        → upward_breaks (rows_from fl s cs) ≡ 0
    unfolding rows_from
    upward_breaks-spent s [] q h = refl
    upward_breaks-spent s (c ∷ cs) q h =
        let now = QuietUntil-le _ (suc s.index) s.high_events (omega arith) q in
        let t = step-quiet s c now in
        let none_here = step-spent s c now h in
        let rest =
          upward_breaks-spent (step fl s c).0 cs
            (rw (t.0, t.1) (QuietUntil-le _ _ s.high_events (omega arith) q))
            (ground (arith, t, none_here, h)) in
        ground (arith, none_here, rest)

    -- If `<=` is a total order, then over any stretch of bars in which no swing high is confirmed, from
    -- any state of the loop, at most one bar is a break of structure upwards: a level breaks once.
    pub upward_breaks_once :
        (s : State F) (cs : List (Candle F))
        → QuietUntil (s.index + length cs) s.high_events
        → upward_breaks (rows_from fl s cs) ≤ 1
    unfolding rows_from
    upward_breaks_once s [] q = omega arith
    upward_breaks_once s (c ∷ cs) q =
        let now = QuietUntil-le _ (suc s.index) s.high_events (omega arith) q in
        let t = step-quiet s c now in
        let later : QuietUntil ((step fl s c).0.index + length cs) (step fl s c).0.high_events =
          rw (t.0, t.1) (QuietUntil-le _ (s.index + 1 + length cs) s.high_events (omega arith) q) in
        elim (Bool-cases (is_up (step fl s c).1.bos)) [
          | inl e ↦
              let spent : (step fl s c).0.broken_high ≡ head_of (step fl s c).0.highs_seen =
                ground (arith, t, e) in
              let rest = upward_breaks-spent (step fl s c).0 cs later spent in
              ground (arith, e, rest)
          | inr e ↦
              let rest = upward_breaks_once (step fl s c).0 cs later in ground (arith, e, rest)
        ]
