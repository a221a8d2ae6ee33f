-- ===== src/Prediction/Duplicate/Diversity.antt =====
-- What the kept and the suppressed signals of a batch are.
use quant_stack.Prelude.{
  ◌≡◌, sym, ◌∙◌, String, true, List, [], ◌∷◌, ◌++◌, All, Bool-cases, ◌⊎◌, inl, inr, map,
}
use mathlib.Core.List.{append-nil, append_assoc}
use quant_stack.Prediction.Duplicate.{
  RankedSignal, SuppressedSignal, Reason, Answers, Batch, empty, consider, filter_from,
  filter_signals, reasons_for, keep, suppress,
}
use quant_stack.Prediction.Duplicate.Greedy.{
  List-cases, consider-keep, consider-suppress, is_admissible, select, filter_signals-select,
}

module _ (answers : Answers) where
  -- No signal clashes with one that stands before it.
  abbrev pub AreDiverse : List RankedSignal → List RankedSignal → Type 0
  AreDiverse before [] = Unit
  AreDiverse before (s ∷ ss) =
      (is_admissible answers before s ≡ true) × AreDiverse (before ++ s ∷ []) ss

  AreDiverse-snoc :
      (before ss : List RankedSignal) (s : RankedSignal)
      → AreDiverse before ss
      → is_admissible answers (before ++ ss) s ≡ true
      → AreDiverse before (ss ++ s ∷ [])
  AreDiverse-snoc before [] s d a = (rw (sym (append-nil before)) a, tt)
  AreDiverse-snoc before (x ∷ ss) s d a =
      (d.0, AreDiverse-snoc (before ++ x ∷ []) ss s d.1 (rw (append_assoc before (x ∷ []) ss) a))

  select-AreDiverse :
      (kept ss : List RankedSignal) → AreDiverse [] kept → AreDiverse [] (select answers kept ss)
  unfolding select
  select-AreDiverse kept [] d = d
  select-AreDiverse kept (s ∷ ss) d = elim (Bool-cases (is_admissible answers kept s)) [
    | inl a ↦ rw a (select-AreDiverse (kept ++ s ∷ []) ss (AreDiverse-snoc [] kept s d a))
    | inr a ↦ rw a (select-AreDiverse kept ss d)
  ]

  -- Of the kept signals none is a repeat, and none moves together, is a second breakout, or shares a
  -- known sector with one kept before it.
  pub kept-AreDiverse : (ss : List RankedSignal) → AreDiverse [] (filter_signals answers ss).kept
  kept-AreDiverse ss = rw (filter_signals-select answers ss) (select-AreDiverse [] ss tt)

  select_diverse :
      (kept ss : List RankedSignal) → AreDiverse kept ss → select answers kept ss ≡ kept ++ ss
  unfolding select
  select_diverse kept [] d = sym (append-nil kept)
  select_diverse kept (s ∷ ss) d =
      rw (d.0) (select_diverse (kept ++ s ∷ []) ss d.1 ∙ append_assoc kept (s ∷ []) ss)

  -- Filtering the kept signals again, with the same answers, keeps all of them in the same order.
  pub filter_again :
      (ss : List RankedSignal)
      → let kept = (filter_signals answers ss).kept in (filter_signals answers kept).kept ≡ kept
  filter_again ss =
      let kept = (filter_signals answers ss).kept in
      filter_signals-select answers kept ∙ select_diverse [] kept (kept-AreDiverse ss)

-- The symbol and direction of a signal, under which a suppressed one is listed.
abbrev pub key : RankedSignal → String × String
key s = (s.symbol, s.direction)

abbrev pub key_of : SuppressedSignal → String × String
key_of s = (s.symbol, s.direction)

-- The third list holds the elements of the other two, each list's in its order.
pub data Interleaved {ℓ} {A : Type ℓ} : List A → List A → List A → Type ℓ where
  none_left : Interleaved [] [] []
  from_left : {x : A} {xs ys zs : List A} → Interleaved xs ys zs → Interleaved (x ∷ xs) ys (x ∷ zs)
  from_right : {y : A} {xs ys zs : List A} → Interleaved xs ys zs → Interleaved xs (y ∷ ys) (y ∷ zs)

abbrev pub HasReason : SuppressedSignal → Type 0
HasReason x = x.reasons ≡ [] → ⊥

-- What a batch adds to one that it started from.
data Extends (answers : Answers) (b c : Batch) (ss : List RankedSignal) : Type 0 where
  extends :
      (ks : List RankedSignal) (xs : List SuppressedSignal)
      → c.kept ≡ b.kept ++ ks
      → c.suppressed ≡ b.suppressed ++ xs
      → Interleaved (map key ks) (map key_of xs) (map key ss)
      → All HasReason xs
      → Extends answers b c ss

filter_from-Extends :
    (answers : Answers) (b : Batch) (ss : List RankedSignal)
    → Extends answers b (filter_from answers b ss) ss
unfolding filter_from keep suppress
filter_from-Extends answers b [] =
    extends [] [] (sym (append-nil b.kept)) (sym (append-nil b.suppressed)) none_left tt
filter_from-Extends answers b (s ∷ ss) =
    go (filter_from-Extends answers (consider answers b s) ss)
      (List-cases (reasons_for answers b s))
  where
    go :
        {c : Batch}
        → Extends answers (consider answers b s) c ss
        → (reasons_for answers b s ≡ [])
          ⊎ ((r : Reason) × (rs : List Reason) × (reasons_for answers b s ≡ r ∷ rs))
        → Extends answers b c (s ∷ ss)
    go (extends ks xs p q i h) (inl e) =
        let c = consider-keep answers b s e in
        extends (s ∷ ks) xs (rw c at p ∙ append_assoc b.kept (s ∷ []) ks) (rw c at q) (from_left i)
          h
    go (extends ks xs p q i h) (inr (r, rs, e)) =
        let c = consider-suppress answers b s r rs e in
        let x : SuppressedSignal = record {
          symbol = s.symbol;
          direction = s.direction;
          reasons = r ∷ rs;
        } in
        extends ks (x ∷ xs) (rw c at p) (rw c at q ∙ append_assoc b.suppressed (x ∷ []) xs)
          (from_right i) ((λ f. cc), h)

-- Every signal of the batch is either kept or suppressed, each list in the order of the batch, and
-- every suppressed signal carries a reason.
pub filter_partition :
    (answers : Answers) (ss : List RankedSignal)
    → let b = filter_signals answers ss in
      Interleaved (map key b.kept) (map key_of b.suppressed) (map key ss)
      × All HasReason b.suppressed
unfolding filter_signals
filter_partition answers ss = go (filter_from-Extends answers empty ss)
  where
    go :
        {c : Batch}
        → Extends answers empty c ss
        → Interleaved (map key c.kept) (map key_of c.suppressed) (map key ss)
          × All HasReason c.suppressed
    go (extends ks xs p q i h) = rw (p, q) (i, h)
