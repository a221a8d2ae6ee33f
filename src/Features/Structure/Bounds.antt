-- ===== src/Features/Structure/Bounds.antt =====
-- The bounds of the blended features.
use quant_stack.Prelude.{
  ℕ, ◌≡◌, Bool, true, false, Option, none, some, List, [], ◌∷◌, All, if◌then◌else◌,
}
use quant_stack.Prelude.Floats.{Floats, IsOrdered, minus, between-within, gt, num}
use quant_stack.Prelude.Int.{pos}
use quant_stack.Features.Schema.{Candle}
use quant_stack.Features.Structure.Measures.{
  Sign, bias_of, bias_at, breakout_of, breakout_at, sweep_of, probability,
}
use quant_stack.Features.Structure.Bar.{Row, State, settle, step}
use quant_stack.Features.Structure.{rows_from, compute_structure_daily, start}

module _ {F : Type 0} (fl : Floats F) where
  -- A value that is there is within the bounds.
  abbrev pub Within : F → F → Option F → Type 0
  Within low high none = Unit
  Within low high (some x) = (fl.le low x ≡ true) × (fl.le x high ≡ true)

  pub if-Within :
      (low high : F) (b : Bool) (x : Option F)
      → Within low high x
      → Within low high (if b then x else none)
  if-Within low high true x h = h
  if-Within low high false x h = tt

  pub record IsBounded (row : Row F) : Type 0 where
    pub bias_bounded : Within (minus fl (fl.lit (pos 1) 0)) (fl.lit (pos 1) 0) row.bias
    pub breakout_bounded : Within (fl.lit (pos 5) 2) (fl.lit (pos 95) 2) row.breakout_prob
    pub sweep_bounded : Within (fl.lit (pos 5) 2) (fl.lit (pos 95) 2) row.sweep_prob

  module _ (o : IsOrdered fl) (unit : fl.le (minus fl (fl.lit (pos 1) 0)) (fl.lit (pos 1) 0) ≡ true)
      (inner : fl.le (fl.lit (pos 5) 2) (fl.lit (pos 95) 2) ≡ true) where
    bias-Within :
        (i : ℕ) (t : Option Sign) (last : Option (ℕ × Sign)) (hh ll : ℕ)
        → Within (minus fl (fl.lit (pos 1) 0)) (fl.lit (pos 1) 0) (bias_at fl i t last hh ll)
    unfolding bias_of
    bias-Within i none last hh ll = tt
    bias-Within i (some t) last hh ll =
        between-within fl o (minus fl (fl.lit (pos 1) 0)) (fl.lit (pos 1) 0) _ unit

    probability-Within :
        (p : F) → Within (fl.lit (pos 5) 2) (fl.lit (pos 95) 2) (some (probability fl p))
    probability-Within p = between-within fl o (fl.lit (pos 5) 2) (fl.lit (pos 95) 2) p inner

    breakout-Within :
        (bias last_high : Option F) (close : F)
        → Within (fl.lit (pos 5) 2) (fl.lit (pos 95) 2) (breakout_at fl bias last_high close)
    unfolding breakout_of
    breakout-Within none last_high close = tt
    breakout-Within (some b) none close = tt
    breakout-Within (some b) (some h) close =
        if-Within _ _ (gt fl close (num fl 0)) _ (probability-Within _)

    sweep-Within : (d : Option F) → Within (fl.lit (pos 5) 2) (fl.lit (pos 95) 2) (sweep_of fl d)
    unfolding sweep_of
    sweep-Within none = tt
    sweep-Within (some d) = probability-Within _

    step-IsBounded : (s : State F) (c : Candle F) → IsBounded (step fl s c).1
    unfolding step settle
    step-IsBounded s c = record {
      bias_bounded = bias-Within _ _ _ _ _;
      breakout_bounded = breakout-Within _ _ _;
      sweep_bounded = sweep-Within _;
    }

    rows-IsBounded : (s : State F) (cs : List (Candle F)) → All IsBounded (rows_from fl s cs)
    unfolding rows_from
    rows-IsBounded s [] = tt
    rows-IsBounded s (c ∷ cs) = (step-IsBounded s c, rows-IsBounded (step fl s c).0 cs)

    -- If `<=` is a total order with -1 <= 1 and 0.05 <= 0.95, then in every row of every series the bias
    -- is between -1 and 1, and the breakout and sweep probabilities are between 0.05 and 0.95, where
    -- they are there.
    pub structure-IsBounded :
        (k : ℕ) (cs : List (Candle F)) → All IsBounded (compute_structure_daily fl k cs)
    unfolding compute_structure_daily
    structure-IsBounded k cs = rows-IsBounded (start fl k cs) cs
