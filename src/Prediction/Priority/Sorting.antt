-- ===== src/Prediction/Priority/Sorting.antt =====
-- The order of the signals.
use mathlib.Core.List.Permᴰ
use mathlib.Core.List.{Permᴰ}
use quant_stack.Prelude.{
  ℕ, zero, suc, ◌≡◌, refl, true, List, [], ◌∷◌, take, drop, Bool-cases, inl, inr, All, All-drop,
  All-take,
}
use quant_stack.Prelude.Floats.{Floats, IsOrdered}
use quant_stack.Prediction.Priority.{RankedSignal, insert_signal, sort_signals}

module _ {F : Type 0} (fl : Floats F) where
  -- The signal scores no less than any of the list.
  abbrev pub Leads : RankedSignal F → List (RankedSignal F) → Type 0
  Leads s ts = All (λ t. fl.le t.priority_score s.priority_score ≡ true) ts

  abbrev pub Descending : List (RankedSignal F) → Type 0
  Descending [] = Unit
  Descending (s ∷ ss) = Leads s ss × Descending ss

  insert-perm :
      (s : RankedSignal F) (ts : List (RankedSignal F)) → Permᴰ (insert_signal fl s ts) (s ∷ ts)
  unfolding insert_signal
  insert-perm s [] = Permᴰ.cons refl Permᴰ.nil
  insert-perm s (t ∷ ts) = elim (Bool-cases (fl.le t.priority_score s.priority_score)) [
    | inl e ↦ rw e (Permᴰ.refl (s ∷ t ∷ ts))
    | inr e ↦ rw e (Permᴰ.trans (Permᴰ.cons refl (insert-perm s ts)) (Permᴰ.swap refl refl))
  ]

  pub sort-perm : (ss : List (RankedSignal F)) → Permᴰ (sort_signals fl ss) ss
  unfolding sort_signals
  sort-perm [] = Permᴰ.nil
  sort-perm (s ∷ ss) =
      Permᴰ.trans (insert-perm s (sort_signals fl ss)) (Permᴰ.cons refl (sort-perm ss))

  insert-All :
      (P : RankedSignal F → Type 0) (s : RankedSignal F) (ts : List (RankedSignal F))
      → P s
      → All P ts
      → All P (insert_signal fl s ts)
  unfolding insert_signal
  insert-All P s [] p h = (p, tt)
  insert-All P s (t ∷ ts) p h = elim (Bool-cases (fl.le t.priority_score s.priority_score)) [
    | inl e ↦ rw e (p, h)
    | inr e ↦ rw e (h.0, insert-All P s ts p h.1)
  ]

  pub sort-All :
      (P : RankedSignal F → Type 0) (ss : List (RankedSignal F))
      → All P ss
      → All P (sort_signals fl ss)
  unfolding sort_signals
  sort-All P [] h = h
  sort-All P (s ∷ ss) h = insert-All P s (sort_signals fl ss) h.0 (sort-All P ss h.1)

  Leads-trans :
      (o : IsOrdered fl) (s t : RankedSignal F) (ts : List (RankedSignal F))
      → fl.le t.priority_score s.priority_score ≡ true
      → Leads t ts
      → Leads s ts
  Leads-trans o s t [] e h = h
  Leads-trans o s t (u ∷ ts) e h =
      (o.trans u.priority_score t.priority_score s.priority_score h.0 e, Leads-trans o s t ts e h.1)

  insert-Descending :
      (o : IsOrdered fl) (s : RankedSignal F) (ts : List (RankedSignal F))
      → Descending ts
      → Descending (insert_signal fl s ts)
  unfolding insert_signal
  insert-Descending o s [] d = (tt, tt)
  insert-Descending o s (t ∷ ts) d = elim (Bool-cases (fl.le t.priority_score s.priority_score)) [
    | inl e ↦ rw e ((e, Leads-trans o s t ts e d.0), d)
    | inr e ↦ rw e (
      insert-All (λ u. fl.le u.priority_score t.priority_score ≡ true) s ts
          (o.total t.priority_score s.priority_score e) d.0,
      insert-Descending o s ts d.1,
    )
  ]

  pub sort-Descending :
      (o : IsOrdered fl) (ss : List (RankedSignal F)) → Descending (sort_signals fl ss)
  unfolding sort_signals
  sort-Descending o [] = tt
  sort-Descending o (s ∷ ss) = insert-Descending o s (sort_signals fl ss) (sort-Descending o ss)

  -- Every signal of a prefix of a descending list scores no less than every one behind it.
  pub take-Descending :
      (n : ℕ) (ss : List (RankedSignal F))
      → Descending ss
      → Descending (take n ss) × All (λ s. Leads s (drop n ss)) (take n ss)
  take-Descending zero ss d = (tt, tt)
  take-Descending (suc n) [] d = (tt, tt)
  take-Descending (suc n) (s ∷ ss) d =
      let r = take-Descending n ss d.1 in
      (
        (All-take (λ t. fl.le t.priority_score s.priority_score ≡ true) n ss d.0, r.0),
        (All-drop (λ t. fl.le t.priority_score s.priority_score ≡ true) n ss d.0, r.1),
      )
