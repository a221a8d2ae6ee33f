-- ===== src/Prediction/Duplicate/Greedy.antt =====
-- The pass against its specification: a signal is kept if it is not a repeat and clashes with none of
-- the signals kept before it. The counters of the loop only speed that test up.
use quant_stack.Prelude.{
  ℕ, ◌+◌, ◌≡◌, refl, sym, ap, ◌∙◌, String, Bool, true, false, not, ◌&&◌, ◌||◌, none, some, List, [],
  ◌∷◌, ◌++◌, arith, anyb, is_none, leb, str_eq, if◌then◌else◌, ◌⊎◌, inl, inr, Option-cases,
}
use quant_stack.Prelude.Dict.{Dict, lookup, insert, lookup-insert}
use quant_stack.Prediction.Duplicate.{
  RankedSignal, Answers, Batch, Reason, empty, is_breakout_signal, is_strong,
  is_repeated_opportunity, correlated_with_any, sector_of, count_of, repeat_reason,
  correlation_reason, breakout_reason, sector_reason, reasons_for, keep, suppress, consider,
  filter_from, filter_signals,
}

anyb-snoc {ℓ} :
    {A : Type ℓ} (p : A → Bool) (xs : List A) (x : A) → anyb p (xs ++ x ∷ []) ≡ (anyb p xs || p x)
anyb-snoc p [] x = ground arith
anyb-snoc p (y ∷ xs) x = ground (arith, anyb-snoc p xs x)

abbrev is_nil {ℓ} : {A : Type ℓ} → List A → Bool
is_nil [] = true
is_nil (x ∷ xs) = false

pub List-cases {ℓ} :
    {A : Type ℓ} (xs : List A) → (xs ≡ []) ⊎ ((x : A) × (r : List A) × (xs ≡ x ∷ r))
List-cases [] = inl refl
List-cases (x ∷ r) = inr (x, r, refl)

is_nil-append {ℓ} : {A : Type ℓ} (xs ys : List A) → is_nil (xs ++ ys) ≡ (is_nil xs && is_nil ys)
is_nil-append [] ys = refl
is_nil-append (x ∷ xs) ys = refl

module _ (answers : Answers) where
  abbrev in_sector : String → RankedSignal → Bool
  in_sector k a = elim (sector_of answers a) [ none ↦ false | some j ↦ str_eq j k ]

  -- The two move together, are both breakouts, or belong to one known sector.
  unfoldable pub strong_with : RankedSignal → RankedSignal → Bool
  strong_with s a = is_strong (answers.correlation s.symbol a.symbol)

  unfoldable pub breaks_again : RankedSignal → RankedSignal → Bool
  breaks_again s a = is_breakout_signal s.reason && is_breakout_signal a.reason

  unfoldable pub shares_sector : RankedSignal → RankedSignal → Bool
  shares_sector s a = elim (sector_of answers s) [ none ↦ false | some k ↦ in_sector k a ]

  unfoldable pub clashes : RankedSignal → RankedSignal → Bool
  clashes s a = strong_with s a || (breaks_again s a || shares_sector s a)

  unfoldable pub is_admissible : List RankedSignal → RankedSignal → Bool
  is_admissible kept s = not (is_repeated_opportunity answers s) && not (anyb (clashes s) kept)

  -- The specification of the pass.
  unfoldable pub select : List RankedSignal → List RankedSignal → List RankedSignal
  select kept [] = kept
  select kept (s ∷ ss) = select (if is_admissible kept s then kept ++ s ∷ [] else kept) ss

  -- The counters agree with the kept signals.
  pub record Tracks (b : Batch) : Type 0 where
    pub breakouts : b.breakout_kept ≡ anyb (λ a. is_breakout_signal a.reason) b.kept
    pub sectors : (k : String) → leb 1 (count_of k b.sector_counts) ≡ anyb (in_sector k) b.kept

  anyb-breaks_again :
      (s : RankedSignal) (kept : List RankedSignal)
      → anyb (breaks_again s) kept
        ≡ (is_breakout_signal s.reason && anyb (λ a. is_breakout_signal a.reason) kept)
  unfolding breaks_again
  anyb-breaks_again s [] = ground arith
  anyb-breaks_again s (a ∷ kept) = ground (arith, anyb-breaks_again s kept)

  anyb-shares_sector :
      (s : RankedSignal) (kept : List RankedSignal)
      → anyb (shares_sector s) kept
        ≡ (elim (sector_of answers s) [ none ↦ false | some k ↦ anyb (in_sector k) kept ])
  unfolding shares_sector
  anyb-shares_sector s [] = ground arith
  anyb-shares_sector s (a ∷ kept) = ground (arith, anyb-shares_sector s kept)

  anyb-strong_with :
      (s : RankedSignal) (kept : List RankedSignal)
      → is_none (correlated_with_any answers s kept) ≡ not (anyb (strong_with s) kept)
  unfolding correlated_with_any strong_with
  anyb-strong_with s [] = refl
  anyb-strong_with s (a ∷ kept) = ground (arith, anyb-strong_with s kept)

  anyb-clashes :
      (s : RankedSignal) (kept : List RankedSignal)
      → anyb (clashes s) kept
        ≡ (anyb (strong_with s) kept || (anyb (breaks_again s) kept || anyb (shares_sector s) kept))
  unfolding clashes
  anyb-clashes s [] = refl
  anyb-clashes s (a ∷ kept) = ground (arith, anyb-clashes s kept)

  nil-repeat :
      (b : Batch) (s : RankedSignal)
      → is_nil (repeat_reason answers b s) ≡ not (is_repeated_opportunity answers s)
  unfolding repeat_reason
  nil-repeat b s = ground arith

  nil-correlation :
      (b : Batch) (s : RankedSignal)
      → is_nil (correlation_reason answers b s) ≡ not (anyb (strong_with s) b.kept)
  unfolding correlation_reason
  nil-correlation b s = ground (arith, anyb-strong_with s b.kept)

  nil-breakout :
      (b : Batch) (s : RankedSignal)
      → Tracks b
      → is_nil (breakout_reason answers b s) ≡ not (anyb (breaks_again s) b.kept)
  unfolding breakout_reason
  nil-breakout b s t = ground (arith, anyb-breaks_again s b.kept, t.breakouts)

  nil-sector :
      (b : Batch) (s : RankedSignal)
      → Tracks b
      → is_nil (sector_reason answers b s) ≡ not (anyb (shares_sector s) b.kept)
  unfolding sector_reason
  nil-sector b s t = elim (Option-cases (sector_of answers s)) [
    | inl e ↦ ground (arith, anyb-shares_sector s b.kept)
    | inr (k, e) ↦ ground (arith, anyb-shares_sector s b.kept, t.sectors k)
  ]

  reasons-is_admissible :
      (b : Batch) (s : RankedSignal)
      → Tracks b
      → is_nil (reasons_for answers b s) ≡ is_admissible b.kept s
  unfolding reasons_for is_admissible
  reasons-is_admissible b s t = ground (
    arith,
    is_nil-append (repeat_reason answers b s) (
        correlation_reason answers b s ++ breakout_reason answers b s ++ sector_reason answers b s),
    is_nil-append (correlation_reason answers b s)
        (breakout_reason answers b s ++ sector_reason answers b s),
    is_nil-append (breakout_reason answers b s) (sector_reason answers b s),
    nil-repeat b s,
    nil-correlation b s,
    nil-breakout b s t,
    nil-sector b s t,
    anyb-clashes s b.kept,
  )

  leb-count_of-insert :
      (j k : String) (counts : Dict ℕ)
      → leb 1 (count_of k (insert j (count_of j counts + 1) counts))
        ≡ (leb 1 (count_of k counts) || str_eq j k)
  unfolding count_of
  leb-count_of-insert j k counts = ground (arith, lookup-insert j k (count_of j counts + 1) counts)

  keep-Tracks : (b : Batch) (s : RankedSignal) → Tracks b → Tracks (keep answers b s)
  unfolding keep
  keep-Tracks b s t = record {
    breakouts = ground (arith, anyb-snoc (λ a. is_breakout_signal a.reason) b.kept s, t.breakouts);
    sectors = λ k. elim (Option-cases (sector_of answers s)) [
      | inl e ↦ ground (arith, anyb-snoc (in_sector k) b.kept s, t.sectors k)
      | inr (j, e) ↦ ground (
        arith,
        anyb-snoc (in_sector k) b.kept s,
        t.sectors k,
        leb-count_of-insert j k b.sector_counts,
      )
    ];
  }

  pub consider-keep :
      (b : Batch) (s : RankedSignal)
      → reasons_for answers b s ≡ []
      → consider answers b s ≡ keep answers b s
  unfolding consider
  consider-keep b s e = rw (e, consider)

  pub consider-suppress :
      (b : Batch) (s : RankedSignal) (r : Reason) (rs : List Reason)
      → reasons_for answers b s ≡ r ∷ rs
      → consider answers b s ≡ suppress answers b s (r ∷ rs)
  unfolding consider
  consider-suppress b s r rs e = rw (e, consider)

  consider_lem :
      (b : Batch) (s : RankedSignal)
      → Tracks b
      → Tracks (consider answers b s)
        × ((consider answers b s).kept
            ≡ (if is_admissible b.kept s then b.kept ++ s ∷ [] else b.kept))
  consider_lem b s t = elim (List-cases (reasons_for answers b s)) [
    | inl e ↦
        let c = consider-keep b s e in
        let a : is_admissible b.kept s ≡ true = sym (reasons-is_admissible b s t) ∙ ap is_nil e in
        rw (c, a) (keep-Tracks b s t, unfold keep in refl)
    | inr (r, rs, e) ↦
        let c = consider-suppress b s r rs e in
        let a : is_admissible b.kept s ≡ false = sym (reasons-is_admissible b s t) ∙ ap is_nil e in
        rw (c, a)
          (
            record {
              breakouts = unfold suppress in t.breakouts;
              sectors = λ k. unfold suppress in t.sectors k;
            },
            unfold suppress in refl,
          )
  ]

  filter_from-select :
      (b : Batch) (ss : List RankedSignal)
      → Tracks b
      → (filter_from answers b ss).kept ≡ select b.kept ss
  unfolding filter_from select
  filter_from-select b [] t = refl
  filter_from-select b (s ∷ ss) t =
      let (t', e) = consider_lem b s t in
      filter_from-select (consider answers b s) ss t' ∙ ap (λ k. select k ss) e

  -- The loop, with its counters and its reasons, keeps exactly the signals that the specification
  -- selects: those that are no repeat and clash with no signal kept before them.
  pub filter_signals-select :
      (ss : List RankedSignal) → (filter_signals answers ss).kept ≡ select [] ss
  unfolding filter_signals
  filter_signals-select ss =
      filter_from-select empty ss
        (record { breakouts = refl; sectors = λ k. unfold count_of lookup in refl })
