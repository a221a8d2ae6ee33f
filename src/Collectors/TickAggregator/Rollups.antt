-- ===== src/Collectors/TickAggregator/Rollups.antt =====
-- The candles that are folded from the stored ones.
use quant_stack.Prelude.{ℕ, ◌≡◌, refl, sym, ◌∙◌, ap, String, none, some, List, [], ◌∷◌, ◌++◌, arith}
use quant_stack.Collectors.TickAggregator.{Row, combine, fold_rows}

some_injective : {x y : Row} → some x ≡ some y → x ≡ y
some_injective {x} e = ap (λ o. elim o [ none ↦ x | some z ↦ z ]) e

combine_assoc :
    (symbol interval : String) (bucket : ℕ) (r f q : Row)
    → combine symbol interval bucket r (some (combine symbol interval bucket f (some q)))
      ≡ combine symbol interval bucket (combine symbol interval bucket r (some f)) (some q)
combine_assoc symbol interval bucket r f q = ground arith

fold_rows-some :
    (symbol interval : String) (bucket : ℕ) (r : Row) (rows : List Row)
    → (f : Row) × (fold_rows symbol interval bucket (r ∷ rows) ≡ some f)
unfolding fold_rows
fold_rows-some symbol interval bucket r rows = (_, refl)

-- Folding in two steps is folding in one: if a window is cut in two, each part is folded, and the two
-- candles are folded, the result is the candle of the whole window.
pub fold_rows-append :
    (symbol interval : String) (bucket : ℕ) (xs ys : List Row) (p q : Row)
    → fold_rows symbol interval bucket xs ≡ some p
    → fold_rows symbol interval bucket ys ≡ some q
    → fold_rows symbol interval bucket (xs ++ ys) ≡ fold_rows symbol interval bucket (p ∷ q ∷ [])
unfolding fold_rows
fold_rows-append symbol interval bucket [] ys p q hp hq = absurd (ground arith)
fold_rows-append symbol interval bucket (r ∷ []) ys p q hp hq = ap some (
    ap (combine symbol interval bucket r) hq
    ∙ ap (λ x. combine symbol interval bucket x (some (combine symbol interval bucket q none)))
        (some_injective hp))
fold_rows-append symbol interval bucket (r ∷ (s ∷ xs)) ys p q hp hq =
    let f = fold_rows-some symbol interval bucket s xs in
    let ih = fold_rows-append symbol interval bucket (s ∷ xs) ys f.0 q f.1 hq in
    let whole : combine symbol interval bucket r (some f.0) ≡ p =
      some_injective (ap (λ x. some (combine symbol interval bucket r x)) (sym f.1) ∙ hp) in
    ap some (
      ap (combine symbol interval bucket r) ih
      ∙ combine_assoc symbol interval bucket r f.0 (combine symbol interval bucket q none)
      ∙ ap (λ x. combine symbol interval bucket x (some (combine symbol interval bucket q none)))
          whole)
