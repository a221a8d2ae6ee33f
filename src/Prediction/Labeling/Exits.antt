-- ===== src/Prediction/Labeling/Exits.antt =====
-- Which bar resolves a label, and what a win takes.
use quant_stack.Prelude.{
  nth, ℕ, zero, suc, ◌+◌, ◌-◌, ◌≤◌, ◌<◌, ◌≡◌, refl, Bool, true, false, ◌||◌, some, List, [], ◌∷◌,
  ◌++◌, arith, length, length-take, take, Option-cases, inl, inr, ltb, if◌then◌else◌,
}
use Prim.Native.Nat.{min}
use quant_stack.Prelude.Floats.{Floats}
use quant_stack.Features.Schema.{Candle}
use quant_stack.Prediction.Labeling.{
  Label, Entry, Exit, Trail, ExitReason, profit_target, max_holding_time, insufficient_data, win,
  is_long, past, best, resolve, profit_price, forced_exit, touch_exit, examine, ratchet, walk,
  untouched, last_of, expire, is_zero, label_forward, label_single_entry,
}

-- The reasons of an exit by a barrier.
abbrev pub is_barrier : ExitReason → Bool
is_barrier max_holding_time = false
is_barrier insufficient_data = false
is_barrier _ = true

nth-take {ℓ} :
    {A : Type ℓ} (k n : ℕ) (xs : List A) (x : A)
    → nth k (take n xs) ≡ some x
    → (k < n) × (nth k xs ≡ some x)
nth-take k zero xs x h = absurd (ground arith)
nth-take k (suc n) [] x h = absurd (ground arith)
nth-take zero (suc n) (y ∷ xs) x h = (omega arith, h)
nth-take (suc k) (suc n) (y ∷ xs) x h = let r = nth-take k n xs x h in (omega (arith, r.0), r.1)

take-append {ℓ} :
    {A : Type ℓ} (n : ℕ) (xs ys : List A) → take n (xs ++ ys) ≡ take n xs ++ take (n - length xs) ys
take-append zero xs ys = ground arith
take-append (suc n) [] ys = ground arith
take-append (suc n) (x ∷ xs) ys = ground (arith, take-append n xs ys)

take_pos {ℓ} :
    {A : Type ℓ} (n : ℕ) (x : A) (xs : List A) → 0 < n → take n (x ∷ xs) ≡ x ∷ take (n - 1) xs
take_pos zero x xs h = absurd (omega arith)
take_pos (suc n) x xs h = let e : suc n - 1 ≡ n = omega arith in ground (arith, e)

module _ {F : Type 0} (fl : Floats F) (e : Entry F) where
  examine-held :
      (i : ℕ) (t : Trail F) (c : Candle F) (x : Exit F)
      → examine fl e i t c ≡ some x
      → (x.held ≡ i + 1) × (is_barrier x.reason ≡ true)
  unfolding examine touch_exit forced_exit
  examine-held i t c x h = ground arith

  walk-held :
      (i : ℕ) (t : Trail F) (cs : List (Candle F)) (x : Exit F)
      → walk fl e i t cs ≡ some x
      → (i < x.held) × (x.held ≤ i + length cs) × (is_barrier x.reason ≡ true)
  unfolding walk
  walk-held i t [] x h = absurd (ground arith)
  walk-held i t (c ∷ cs) x h = elim (Option-cases (examine fl e i t c)) [
    | inl p ↦ ground (arith, p, walk-held (i + 1) (ratchet fl e t c) cs x)
    | inr (y, p) ↦ ground (arith, p, examine-held i t c y p)
  ]

  walk-append :
      (i : ℕ) (t : Trail F) (cs ds : List (Candle F)) (x : Exit F)
      → walk fl e i t cs ≡ some x
      → walk fl e i t (cs ++ ds) ≡ some x
  unfolding walk
  walk-append i t [] ds x h = absurd (ground arith)
  walk-append i t (c ∷ cs) ds x h = elim (Option-cases (examine fl e i t c)) [
    | inl p ↦ ground (arith, p, walk-append (i + 1) (ratchet fl e t c) cs ds x)
    | inr (y, p) ↦ ground (arith, p)
  ]

  -- The bar `c` reaches the profit target, at its open or within it.
  abbrev pub reaches_target : Candle F → Bool
  reaches_target c =
      past fl (is_long e.direction) c.open_price (profit_price fl e)
      || past fl (is_long e.direction) (best fl (is_long e.direction) c) (profit_price fl e)

  examine-win :
      (i : ℕ) (t : Trail F) (c : Candle F) (x : Exit F)
      → examine fl e i t c ≡ some x
      → x.reason ≡ profit_target
      → (x.price ≡ profit_price fl e) × (x.ts ≡ c.ts) × (reaches_target c ≡ true)
  unfolding examine touch_exit forced_exit
  examine-win i t c x h r = ground arith

  walk-win :
      (i : ℕ) (t : Trail F) (cs : List (Candle F)) (x : Exit F)
      → walk fl e i t cs ≡ some x
      → x.reason ≡ profit_target
      → (k : ℕ) × (c : Candle F) × (x.held ≡ i + suc k)
        × (nth k cs ≡ some c)
        × (x.price ≡ profit_price fl e)
        × (x.ts ≡ c.ts)
        × (reaches_target c ≡ true)
  unfolding walk
  walk-win i t [] x h r = absurd (ground arith)
  walk-win i t (c ∷ cs) x h r = elim (Option-cases (examine fl e i t c)) [
    | inl p ↦
        let w = walk-win (i + 1) (ratchet fl e t c) cs x (ground (arith, p)) r in
        (suc w.0, w.1, omega (arith, w.2), w.3, w.4, w.5, w.6)
    | inr (y, p) ↦
        let q : y ≡ x = ground (arith, p) in
        let w = examine-win i t c y p (ground (arith, q)) in
        let l = examine-held i t c y p in
        (0, c, ground (arith, q, l), refl, ground (arith, q, w), ground (arith, q, w), w.2)
  ]

  pub label-priced :
      (cs : List (Candle F)) (l : Label F)
      → label_single_entry fl e cs ≡ some l
      → (is_zero fl e.entry_price ≡ false) × (label_forward fl e cs ≡ some l)
  unfolding label_single_entry
  label-priced cs l h = ground arith

  forward-append :
      (cs ds : List (Candle F)) (l : Label F)
      → label_forward fl e cs ≡ some l
      → is_barrier l.exit_reason ≡ true
      → label_forward fl e (cs ++ ds) ≡ some l
  unfolding label_forward expire resolve
  forward-append [] ds l h b = absurd (ground arith)
  forward-append (c ∷ cs) ds l h b =
      let n = e.config.max_holding_bars in
      elim (Option-cases (walk fl e 0 (untouched fl e) (take n (c ∷ cs)))) [
        | inl p ↦ absurd (ground (arith, p))
        | inr (x, p) ↦
            let a =
              walk-append 0 (untouched fl e) (take n (c ∷ cs)) (take (n - length (c ∷ cs)) ds) x
                p in
            let s = take-append n (c ∷ cs) ds in ground (arith, p, a, s)
      ]

  -- No look-ahead: once a barrier has resolved a trade, the candles that follow those it saw change
  -- nothing of its label.
  pub label-append :
      (cs ds : List (Candle F)) (l : Label F)
      → label_single_entry fl e cs ≡ some l
      → is_barrier l.exit_reason ≡ true
      → label_single_entry fl e (cs ++ ds) ≡ some l
  unfolding label_single_entry
  label-append cs ds l h b =
      let p = label-priced cs l h in let q = forward-append cs ds l p.1 b in ground (arith, p.0, q)

  last_of-some :
      (c : Candle F) (cs : List (Candle F)) → (d : Candle F) × (last_of fl e (c ∷ cs) ≡ some d)
  unfolding last_of
  last_of-some c [] = (c, refl)
  last_of-some c (d ∷ cs) = last_of-some d cs

  -- The label of a trade that held to the last usable bar `c`.
  abbrev expired : Candle F → List (Candle F) → Label F
  expired c cs = resolve fl e (record {
    price = c.close;
    ts = c.ts;
    held = length (take e.config.max_holding_bars cs);
    reason =
        if ltb (length cs) e.config.max_holding_bars then insufficient_data else max_holding_time;
    gap = false;
    ambiguous = false;
  })

  pub forward-total :
      (cs : List (Candle F))
      → 0 < e.config.max_holding_bars
      → (l : Label F) × (label_forward fl e cs ≡ some l)
        × (l.bars_held ≤ min e.config.max_holding_bars (length cs))
        × (min 1 (length cs) ≤ l.bars_held)
        × (is_barrier l.exit_reason ≡ false
            → l.bars_held ≡ min e.config.max_holding_bars (length cs))
  unfolding label_forward expire resolve
  forward-total [] h = (_, refl, omega arith, omega arith, λ b. omega arith)
  forward-total (c ∷ cs) h =
      let n = e.config.max_holding_bars in
      let len = length-take n (c ∷ cs) in
      elim (Option-cases (walk fl e 0 (untouched fl e) (take n (c ∷ cs)))) [
        | inl p ↦
            let q = take_pos n c cs h in
            let d = last_of-some c (take (n - 1) cs) in
            (
              expired d.0 (c ∷ cs),
              ground (arith, p, q, d.1),
              omega (arith, len),
              omega (arith, len),
              λ b. len,
            )
        | inr (x, p) ↦
            let w = walk-held 0 (untouched fl e) (take n (c ∷ cs)) x p in
            (
              resolve fl e x,
              ground (arith, p),
              omega (arith, len, w.0, w.1),
              omega (arith, len, w.0),
              λ b. absurd (ground (arith, w.2)),
            )
      ]

  -- With an entry price that is not 0 and a holding window of a bar or more every trade gets a label. It holds for at most the window
  -- and the candles that there are, and for at least one bar if there is one; with no barrier
  -- touched it holds to the end of the two.
  pub label-total :
      (cs : List (Candle F))
      → is_zero fl e.entry_price ≡ false
      → 0 < e.config.max_holding_bars
      → (l : Label F) × (label_single_entry fl e cs ≡ some l)
        × (l.bars_held ≤ min e.config.max_holding_bars (length cs))
        × (min 1 (length cs) ≤ l.bars_held)
        × (is_barrier l.exit_reason ≡ false
            → l.bars_held ≡ min e.config.max_holding_bars (length cs))
  unfolding label_single_entry
  label-total cs z h = let t = forward-total cs h in (t.0, ground (arith, z, t.1), t.2, t.3, t.4)

  forward-win :
      (cs : List (Candle F)) (l : Label F)
      → label_forward fl e cs ≡ some l
      → l.label ≡ win
      → (k : ℕ) × (c : Candle F) × (l.bars_held ≡ suc k)
        × (k < e.config.max_holding_bars)
        × (nth k cs ≡ some c)
        × (l.exit_ts ≡ c.ts)
        × (l.exit_price ≡ fl.round 4 (profit_price fl e))
        × (reaches_target c ≡ true)
  unfolding label_forward expire resolve
  forward-win [] l h w = absurd (ground arith)
  forward-win (c ∷ cs) l h w =
      let n = e.config.max_holding_bars in
      elim (Option-cases (walk fl e 0 (untouched fl e) (take n (c ∷ cs)))) [
        | inl p ↦ absurd (ground (arith, p))
        | inr (x, p) ↦
            let r : x.reason ≡ profit_target = ground (arith, p) in
            let v = walk-win 0 (untouched fl e) (take n (c ∷ cs)) x p r in
            (
              v.0,
              v.1,
              ground (arith, p, v.2),
              (nth-take v.0 n (c ∷ cs) v.1 v.3).0,
              (nth-take v.0 n (c ∷ cs) v.1 v.3).1,
              ground (arith, p, v.5),
              ground (arith, p, v.4),
              v.6,
            )
      ]

  -- A label says win only if some bar of the holding window, one of the first `max_holding_bars` behind
  -- the entry, reached the profit target, at its open or within it; it is the bar at which the label
  -- says that the trade ended, and the exit price is the target, rounded.
  pub label-win :
      (cs : List (Candle F)) (l : Label F)
      → label_single_entry fl e cs ≡ some l
      → l.label ≡ win
      → (k : ℕ) × (c : Candle F) × (l.bars_held ≡ suc k)
        × (k < e.config.max_holding_bars)
        × (nth k cs ≡ some c)
        × (l.exit_ts ≡ c.ts)
        × (l.exit_price ≡ fl.round 4 (profit_price fl e))
        × (reaches_target c ≡ true)
  label-win cs l h w = forward-win cs l (label-priced cs l h).1 w
