-- ===== src/Prediction/Labeling/History.antt =====
-- `label_history` of backend/app/prediction/labeling.py, over candles that are loaded and dates that
-- are looked up, without the persistence of its labels.
use quant_stack.Prelude.{
  nth, nth_there, ℕ, zero, suc, ◌+◌, ◌-◌, ◌≤◌, ◌<◌, ◌≡◌, refl, String, Option, none, some, List, [],
  ◌∷◌, arith, length, length-take, take, drop, ltb, All, ap, sym, subst, ◌∙◌, ◌++◌, Option-cases,
  false, if◌then◌else◌, Bool-cases, inl, inr,
}
use Prim.Native.Nat.{min, max}
use quant_stack.Prelude.Floats.{Floats}
use quant_stack.Features.Schema.{Candle}
use quant_stack.Prediction.Labeling.{
  Label, Entry, is_zero, label_forward, label_single_entry, barrier_config_for,
}
use quant_stack.Prediction.Labeling.Exits.{label-total}

-- The arguments of `label_history` but the series, and the dates that `_breach_dates` finds.
pub record Query : Type 0 where
  pub symbol : String
  pub timeframe : String
  pub direction : String
  pub lookback_bars : ℕ
  pub max_holding_bars : ℕ
  pub event_dates : List ℕ
  pub liquidity_dates : List ℕ

nth-below {ℓ} : {A : Type ℓ} (k : ℕ) (xs : List A) (x : A) → nth k xs ≡ some x → k < length xs
nth-below k [] x h = absurd (ground arith)
nth-below zero (y ∷ xs) x h = omega arith
nth-below (suc k) (y ∷ xs) x h = omega (arith, nth-below k xs x h)

nth-split {ℓ} :
    {A : Type ℓ} (k : ℕ) (xs : List A) (x : A)
    → nth k xs ≡ some x
    → (xs ≡ take k xs ++ x ∷ drop (suc k) xs) × (length (take k xs) ≡ k)
nth-split k [] x h = absurd (ground arith)
nth-split zero (y ∷ xs) x h = let e : y ≡ x = ground (arith, h) in (ap (λ z. z ∷ xs) e, refl)
nth-split (suc k) (y ∷ xs) x h = let r = nth-split k xs x h in (ap (λ zs. y ∷ zs) r.0, ap suc r.1)

All-nth {ℓ κ} :
    {A : Type ℓ} (P : A → Type κ) (k : ℕ) (xs : List A) (x : A) → nth k xs ≡ some x → All P xs → P x
All-nth P k [] x h a = absurd (ground arith)
All-nth P zero (y ∷ xs) x h a = let e : y ≡ x = ground (arith, h) in subst P e a.0
All-nth P (suc k) (y ∷ xs) x h a = All-nth P k xs x h a.1

-- The first element, then the later ones.
later {ℓ} :
    {A : Type ℓ} (f : ℕ → Option A) (i k : ℕ) (x : A) (xs : List A)
    → f i ≡ some x
    → ((j : ℕ) → j < k → nth j xs ≡ f (i + 1 + j))
    → (j : ℕ) → j < suc k
    → nth j (x ∷ xs) ≡ f (i + j)
later f i k x xs now rest zero h = let e : i + 0 ≡ i = omega arith in rw (e, now) refl
later f i k x xs now rest (suc j) h =
    let e : i + suc j ≡ i + 1 + j = omega arith in rw e (rest j (omega arith))

module _ {F : Type 0} (fl : Floats F) (q : Query) (candles : List (Candle F)) where
  abbrev entry_of : ℕ → Candle F → Entry F
  entry_of i c = record {
    entry_price = c.close;
    entry_ts = c.ts;
    direction = q.direction;
    config = barrier_config_for fl candles i q.max_holding_bars;
    symbol = q.symbol;
    timeframe = q.timeframe;
    event_barrier_dates = q.event_dates;
    liquidity_barrier_dates = q.liquidity_dates;
  }

  -- The label of one entry; none stands for an IndexError.
  unfoldable pub label_at : ℕ → Option (Label F)
  label_at i = elim (nth i candles) [
    | none ↦ none
    | some c ↦ label_single_entry fl (entry_of i c) (take q.max_holding_bars (drop (i + 1) candles))
  ]

  -- The comprehension over `range(i, i + k)`.
  unfoldable pub labels_from : ℕ → ℕ → Option (List (Label F))
  unfolding label_at
  labels_from i zero = some []
  labels_from i (suc k) = elim (label_at i) [
    | none ↦ none
    | some l ↦ elim (labels_from (i + 1) k) [ none ↦ none | some ls ↦ some (l ∷ ls) ]
  ]

  abbrev pub start_index : ℕ
  start_index = max 20 (length candles - 2 + 1 - q.lookback_bars)

  unfoldable pub label_history : Option (List (Label F))
  unfolding labels_from
  label_history =
      if ltb (length candles) 22
      then some []
      else labels_from start_index (length candles - 2 + 1 - start_index)

  label_single_entry-total :
      (e : Entry F) (cs : List (Candle F))
      → is_zero fl e.entry_price ≡ false
      → length cs ≤ e.config.max_holding_bars
      → (l : Label F) × (label_single_entry fl e cs ≡ some l)
  unfolding label_single_entry label_forward
  label_single_entry-total e [] z h =
      let l = label_forward fl e [] in
      elim (Option-cases l) [
        | inl n ↦ absurd (ground (arith, n))
        | inr (x, p) ↦ (x, ground (arith, z, p))
      ]
  label_single_entry-total e (c ∷ cs) z h =
      let t = label-total fl e (c ∷ cs) z (omega arith) in (t.0, t.1)

  label_at-total :
      All (λ c. is_zero fl c.close ≡ false) candles
      → (i : ℕ) → i < length candles
      → (l : Label F) × (label_at i ≡ some l)
  unfolding label_at barrier_config_for
  label_at-total priced i h =
      let c = nth_there i candles h in
      let len = length-take q.max_holding_bars (drop (i + 1) candles) in
      let t =
        label_single_entry-total (entry_of i c.0) (take q.max_holding_bars (drop (i + 1) candles))
          (All-nth _ i candles c.0 c.1 priced) (omega (arith, len)) in
      (t.0, ground (arith, c.1, t.1))

  labels_from-total :
      All (λ c. is_zero fl c.close ≡ false) candles
      → (i k : ℕ) → i + k ≤ length candles
      → (ls : List (Label F)) × (labels_from i k ≡ some ls)
        × (length ls ≡ k)
        × ((j : ℕ) → j < k → nth j ls ≡ label_at (i + j))
  unfolding labels_from
  labels_from-total priced i zero h = ([], refl, refl, λ j l. absurd (omega arith))
  labels_from-total priced i (suc k) h =
      let a = label_at-total priced i (omega arith) in
      let r = labels_from-total priced (i + 1) k (omega arith) in
      (a.0 ∷ r.0, ground (arith, a.1, r.1), omega (arith, r.2), later label_at i k a.0 r.0 a.1 r.3)

  -- The label `l` is that of the candle at the index `i`, at its close and its instant, with the barriers
  -- of that index, by the candles behind it alone, no more of them than the holding window.
  abbrev pub IsLabelOf : ℕ → Label F → Type 0
  IsLabelOf i l =
      (before : List (Candle F)) × (c : Candle F) × (after : List (Candle F)) × (candles
        ≡ before ++ c ∷ after)
      × (length before ≡ i)
      × (label_single_entry fl
            (record {
              entry_price = c.close;
              entry_ts = c.ts;
              direction = q.direction;
              config = barrier_config_for fl candles i q.max_holding_bars;
              symbol = q.symbol;
              timeframe = q.timeframe;
              event_barrier_dates = q.event_dates;
              liquidity_barrier_dates = q.liquidity_dates;
            })
            (take q.max_holding_bars after)
          ≡ some l)

  label_at-IsLabelOf : (i : ℕ) (l : Label F) → label_at i ≡ some l → IsLabelOf i l
  unfolding label_at
  label_at-IsLabelOf i l h = elim (Option-cases (nth i candles)) [
    | inl n ↦ absurd (ground (arith, h, n))
    | inr (c, e) ↦
        let s = nth-split i candles c e in
        let next : suc i ≡ i + 1 = omega arith in
        (
          take i candles,
          c,
          drop (i + 1) candles,
          subst (λ m. candles ≡ take i candles ++ c ∷ drop m candles) next s.0,
          s.1,
          ground (arith, h, e),
        )
  ]

  -- If no candle closes at 0, then labelling a series does not fail, whatever the holding window, also
  -- if it is 0. It gives a label to each of the last `lookback_bars` entries that have 20 candles before
  -- them and a candle after them, and no label if there is no such entry. The labels stand in the order
  -- of their entries, and each is that of its own entry, with the barriers of that entry, by the candles
  -- behind it, of which none but the holding window counts.
  pub label_history_lem :
      All (λ c. is_zero fl c.close ≡ false) candles
      → (ls : List (Label F)) × (label_history ≡ some ls)
        × (length ls ≡ min q.lookback_bars (length candles - 21))
        × ((j : ℕ) (l : Label F)
            → nth j ls ≡ some l
            → IsLabelOf (max 20 (length candles - 1 - q.lookback_bars) + j) l)
  unfolding label_history
  label_history_lem priced = elim (Bool-cases (ltb (length candles) 22)) [
    | inl short ↦
        ([], ground (arith, short), ground (arith, short), λ j l e. absurd (ground (arith, e)))
    | inr long ↦
        let r =
          labels_from-total priced start_index (length candles - 2 + 1 - start_index)
            (ground (arith, long)) in
        (
          r.0,
          ground (arith, long, r.1),
          ground (arith, long, r.2),
          λ j l e.
              let n = nth-below j r.0 l e in
              let same : start_index + j ≡ max 20 (length candles - 1 - q.lookback_bars) + j =
                ground (arith, long) in
              subst (λ i. IsLabelOf i l) same
                (label_at-IsLabelOf (start_index + j) l (sym (r.3 j (omega (arith, r.2, n))) ∙ e)),
        )
  ]
