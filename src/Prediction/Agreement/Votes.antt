-- ===== src/Prediction/Agreement/Votes.antt =====
-- When an ensemble may proceed.
use mathlib.Core.List.{Permᴰ, Perm}
use mathlib.Core.Logic.{∥∥₁_elim}
use native.Mathlib.Nat.{ℕ_set}
use quant_stack.Prelude.{◌<◌, ◌↔◌, ◌≡◌, refl, ◌∙◌, true, List, arith, length}
use quant_stack.Prelude.Floats.{Floats}
use quant_stack.Prelude.Int.{pos}
use quant_stack.Prediction.Ensemble.{ModelPrediction, EnsemblePrediction}
use quant_stack.Prediction.Agreement.{
  Direction, model_direction, votes_for, agreement_share, agreement_level_for, evaluate_agreement,
}

module _ {F : Type 0} (fl : Floats F) where
  votes-perm_step :
      (d : Direction) {ms ns : List (ModelPrediction F)}
      → Permᴰ ms ns
      → (votes_for fl d ms ≡ votes_for fl d ns) × (length ms ≡ length ns)
  unfolding votes_for
  votes-perm_step d Permᴰ.nil = (refl, refl)
  votes-perm_step d (Permᴰ.cons x p) = ground (arith, votes-perm_step d p)
  votes-perm_step d (Permᴰ.swap x y) = ground arith
  votes-perm_step d (Permᴰ.trans p q) =
      let a = votes-perm_step d p in let b = votes-perm_step d q in (a.0 ∙ b.0, a.1 ∙ b.1)

  -- An ensemble may proceed exactly when it has a model and the share of its models that go the way of
  -- the consensus, rounded, is at least 0.8: without a model it never may.
  pub proceed_iff :
      (p : EnsemblePrediction F)
      → ((evaluate_agreement fl p).proceed ≡ true) ↔ (
          (0 < length p.model_predictions)
          × (fl.le (fl.lit (pos 8) 1) (agreement_share fl p.probability p.model_predictions)
              ≡ true))
  unfolding evaluate_agreement agreement_level_for
  proceed_iff p = ground arith

  -- The order of the models says nothing: an ensemble with the same models in another order has the
  -- same share, the same level and the same permission.
  pub agreement-perm :
      (p : EnsemblePrediction F) (ms : List (ModelPrediction F))
      → Perm p.model_predictions ms
      → let r = evaluate_agreement fl p in
        let r' = evaluate_agreement fl (record p { model_predictions = ms }) in
        (r'.agreement_pct ≡ r.agreement_pct)
        × (r'.agreement_level ≡ r.agreement_level)
        × (r'.proceed ≡ r.proceed)
  unfolding evaluate_agreement agreement_share agreement_level_for
  agreement-perm p ms h =
      let votes =
        ∥∥₁_elim h (ℕ_set _ _) (λ s. (votes-perm_step (model_direction fl p.probability) s).0) in
      let len =
        ∥∥₁_elim h (ℕ_set _ _) (λ s. (votes-perm_step (model_direction fl p.probability) s).1) in
      ground (arith, votes, len)
