-- ===== src/Prediction/Labeling/Trailing.antt =====
-- The trailing stop over the bars of a trade.
use quant_stack.Prelude.{
  ℕ, ◌+◌, ◌≡◌, refl, Bool, true, false, ◌&&◌, some, List, [], ◌∷◌, ◌++◌, arith, take, Option-cases,
  Bool-cases, inl, inr, if◌then◌else◌,
}
use quant_stack.Prelude.Floats.{Floats, IsOrdered, max_of, min_of, le_max, min_le}
use quant_stack.Features.Schema.{Candle}
use quant_stack.Prediction.Labeling.{
  Label, Entry, Exit, Trail, ExitReason, stop, trailing_stop, is_long, past, resolve,
  fixed_stop_price, current_stop, examine, touch_exit, forced_exit, ratchet, walk, untouched,
  expire, label_forward, label_single_entry,
}
use quant_stack.Prediction.Labeling.Exits.{label-priced}

module _ {F : Type 0} (fl : Floats F) (o : IsOrdered fl) where
  past_refl : (long : Bool) (x : F) → past fl long x x ≡ true
  past_refl true x = o.reflexive x
  past_refl false x = o.reflexive x

  past_trans :
      (long : Bool) (x y z : F)
      → past fl long x y ≡ true
      → past fl long y z ≡ true
      → past fl long x z ≡ true
  past_trans true x y z p q = o.trans z y x q p
  past_trans false x y z p q = o.trans x y z p q

  guarded :
      (active long : Bool) (s candidate : F)
      → past fl long
          (if active then (if long then max_of fl s candidate else min_of fl s candidate) else s)
          s
        ≡ true
  guarded false long s candidate = past_refl long s
  guarded true true s candidate = le_max fl o s candidate
  guarded true false s candidate = min_le fl o s candidate

  module _ (e : Entry F) where
    -- The stop price of the trail is the fixed one until the trail is active, and never behind it.
    IsTight : Trail F → Type 0
    IsTight t =
        (past fl (is_long e.direction) t.stop_price (fixed_stop_price fl e) ≡ true)
        × (t.active ≡ false → t.stop_price ≡ fixed_stop_price fl e)

    untouched-IsTight : IsTight (untouched fl e)
    unfolding IsTight
    untouched-IsTight = (past_refl (is_long e.direction) (fixed_stop_price fl e), λ h. refl)

    ratchet-stop :
        (t : Trail F) (c : Candle F)
        → past fl (is_long e.direction) (ratchet fl e t c).stop_price t.stop_price ≡ true
    unfolding ratchet
    ratchet-stop t c = guarded (ratchet fl e t c).active (is_long e.direction) t.stop_price _

    ratchet-still :
        (t : Trail F) (c : Candle F)
        → (ratchet fl e t c).active ≡ false
        → (t.active ≡ false) × ((ratchet fl e t c).stop_price ≡ t.stop_price)
    unfolding ratchet
    ratchet-still t c h = ground (arith, h)

    ratchet-IsTight : (t : Trail F) (c : Candle F) → IsTight t → IsTight (ratchet fl e t c)
    unfolding IsTight
    ratchet-IsTight t c h = (
      past_trans (is_long e.direction) _ t.stop_price (fixed_stop_price fl e) (ratchet-stop t c)
          h.0,
      λ a. let s = ratchet-still t c a in ground (arith, s, h.1),
    )

    current-ratchet :
        (t : Trail F) (c : Candle F)
        → IsTight t
        → past fl (is_long e.direction) (current_stop fl e (ratchet fl e t c)) (current_stop fl e t)
          ≡ true
    unfolding IsTight
    current-ratchet t c h =
        let long = is_long e.direction in
        let t' = ratchet fl e t c in
        elim (Bool-cases t'.active) [
          | inr a ↦
              let s = ratchet-still t c a in
              ground (arith, a, s, past_refl long (fixed_stop_price fl e))
          | inl a ↦ elim (Bool-cases t.active) [
            | inl b ↦ ground (arith, a, b, ratchet-stop t c)
            | inr b ↦ ground (arith, a, b, (ratchet-IsTight t c h).0)
          ]
        ]

    -- The trail behind the bars of a trade.
    abbrev pub follow : Trail F → List (Candle F) → Trail F
    follow t [] = t
    follow t (c ∷ cs) = follow (ratchet fl e t c) cs

    follow-tightens :
        (t : Trail F) (cs : List (Candle F))
        → IsTight t
        → past fl (is_long e.direction) (current_stop fl e (follow t cs)) (current_stop fl e t)
          ≡ true
    follow-tightens t [] h = past_refl (is_long e.direction) (current_stop fl e t)
    follow-tightens t (c ∷ cs) h =
        past_trans (is_long e.direction) _ _ _
          (follow-tightens (ratchet fl e t c) cs (ratchet-IsTight t c h)) (current-ratchet t c h)

    follow-IsTight : (t : Trail F) (cs : List (Candle F)) → IsTight t → IsTight (follow t cs)
    follow-IsTight t [] h = h
    follow-IsTight t (c ∷ cs) h = follow-IsTight (ratchet fl e t c) cs (ratchet-IsTight t c h)

    follow-append :
        (t : Trail F) (cs ds : List (Candle F)) → follow t (cs ++ ds) ≡ follow (follow t cs) ds
    follow-append t [] ds = refl
    follow-append t (c ∷ cs) ds = follow-append (ratchet fl e t c) cs ds

    -- If `<=` is a total order, then the stop in force never loosens: after more bars it is at the
    -- price where it was, or on the favourable side of it, through its activation too.
    pub stop_tightens :
        (cs ds : List (Candle F))
        → past fl
            (is_long e.direction)
            (current_stop fl e (follow (untouched fl e) (cs ++ ds)))
            (current_stop fl e (follow (untouched fl e) cs))
          ≡ true
    stop_tightens cs ds = rw (follow-append (untouched fl e) cs ds) (
        follow-tightens (follow (untouched fl e) cs) ds
          (follow-IsTight (untouched fl e) cs untouched-IsTight))

    abbrev pub is_stop : ExitReason → Bool
    is_stop stop = true
    is_stop trailing_stop = true
    is_stop _ = false

    current-IsTight :
        (t : Trail F)
        → IsTight t
        → past fl (is_long e.direction) (current_stop fl e t) (fixed_stop_price fl e) ≡ true
    unfolding IsTight
    current-IsTight t h = elim (Bool-cases t.active) [
      | inl a ↦ ground (arith, a, h.0)
      | inr a ↦ ground (arith, a, past_refl (is_long e.direction) (fixed_stop_price fl e))
    ]

    examine-stop :
        (i : ℕ) (t : Trail F) (c : Candle F) (x : Exit F)
        → examine fl e i t c ≡ some x
        → is_stop x.reason ≡ true
        → (x.gap && x.ambiguous) ≡ false
        → x.price ≡ current_stop fl e t
    unfolding examine touch_exit forced_exit
    examine-stop i t c x h r g = ground arith

    walk-stop :
        (i : ℕ) (t : Trail F) (cs : List (Candle F)) (x : Exit F)
        → walk fl e i t cs ≡ some x
        → is_stop x.reason ≡ true
        → (x.gap && x.ambiguous) ≡ false
        → IsTight t
        → past fl (is_long e.direction) x.price (fixed_stop_price fl e) ≡ true
    unfolding walk
    walk-stop i t [] x h r g q = absurd (ground arith)
    walk-stop i t (c ∷ cs) x h r g q = elim (Option-cases (examine fl e i t c)) [
      | inl p ↦
          walk-stop (i + 1) (ratchet fl e t c) cs x (ground (arith, p)) r g (ratchet-IsTight t c q)
      | inr (y, p) ↦
          let same : y ≡ x = ground (arith, p) in
          let price = examine-stop i t c y p (ground (arith, same)) (ground (arith, same)) in
          let eq : x.price ≡ current_stop fl e t = ground (arith, same, price) in
          rw eq (current-IsTight t q)
    ]

    forward-stop :
        (cs : List (Candle F)) (l : Label F)
        → label_forward fl e cs ≡ some l
        → is_stop l.exit_reason ≡ true
        → (l.gap && l.ambiguous) ≡ false
        → (p : F) × (l.exit_price ≡ fl.round 4 p)
          × (past fl (is_long e.direction) p (fixed_stop_price fl e) ≡ true)
    unfolding label_forward expire resolve
    forward-stop [] l h r g = absurd (ground arith)
    forward-stop (c ∷ cs) l h r g =
        elim (Option-cases
          (walk fl e 0 (untouched fl e) (take e.config.max_holding_bars (c ∷ cs)))) [
            | inl p ↦ absurd (ground (arith, p))
            | inr (x, p) ↦ (
              x.price,
              ground (arith, p),
              walk-stop 0 (untouched fl e) (take e.config.max_holding_bars (c ∷ cs)) x p
                  (ground (arith, p)) (ground (arith, p)) untouched-IsTight,
            )
          ]

    -- The loss is bounded, if `<=` is a total order: a label that exits by a stop, fixed or
    -- trailing, is filled at a price that is not behind the fixed stop (up to the rounding of the
    -- price that it shows), unless the bar opened past both barriers at once.
    pub label-stop :
        (cs : List (Candle F)) (l : Label F)
        → label_single_entry fl e cs ≡ some l
        → is_stop l.exit_reason ≡ true
        → (l.gap && l.ambiguous) ≡ false
        → (p : F) × (l.exit_price ≡ fl.round 4 p)
          × (past fl (is_long e.direction) p (fixed_stop_price fl e) ≡ true)
    label-stop cs l h r g = forward-stop cs l (label-priced fl e cs l h).1 r g
