-- ===== src/Core/Alerts/Laws.antt =====
-- A broken sink stops nobody: the alert is recorded and every sink is sent it.
use Prim.Native.Nat.{min}
use mathlib.Core.List.{foldl, reverse-append}
use quant_stack.Prelude.{
  ℕ, zero, suc, ◌-◌, ◌≤◌, ◌≡◌, refl, ap, String, Option, List, [], ◌∷◌, arith, length,
  length-append, reverse, drop, if◌then◌else◌, ◌==◌, length-drop,
}
use quant_stack.Prelude.Deque.{newest-deque_append}
use quant_stack.Core.Alerts.{Alert, AlertSeverity, AlertService, fan_out, fire, recent}

module _ {S W : Type 0} (send : S → Alert → W → W × Option String) where
  fan_out-foldl :
      (sinks : List S) (a : Alert) (w : W)
      → (fan_out send sinks a w).0 ≡ foldl (λ v s. (send s a v).0) w sinks
  unfolding fan_out
  fan_out-foldl [] a w = refl
  fan_out-foldl (s ∷ sinks) a w = fan_out-foldl sinks a (send s a w).0

  -- Whichever sinks raise when an alert is fired, each sink in turn has been sent the returned
  -- alert; and if two or more alerts are asked of `recent`, no more than the history has room for,
  -- then this alert is the newest of them, before those that one alert fewer showed already.
  pub fire_reaches_all :
      (source : String) (v : AlertSeverity) (m : String) (c : List (String × String)) (now n : ℕ)
      (s : AlertService S) (w : W)
      → suc (suc n) ≤ s.capacity
      → let (a, s', w') = fire send source v m c now s w in
        (w' ≡ foldl (λ u sink. (send sink a u).0) w s.sinks)
        × (recent (suc (suc n)) s' ≡ a ∷ recent (suc n) s)
  unfolding fire recent
  fire_reaches_all source v m c now n s w h =
      (fan_out-foldl s.sinks _ w, newest-deque_append s.capacity n _ s.history h)

length-reverse {ℓ} : {A : Type ℓ} (xs : List A) → length (reverse xs) ≡ length xs
length-reverse [] = refl
length-reverse (x ∷ xs) = omega (
  arith,
  ap length (reverse-append (x ∷ []) xs),
  length-append (reverse xs) (x ∷ []),
  length-reverse xs,
)

-- `recent` shows at most `limit` alerts, and as many as there are up to that, for a positive limit;
-- for the limit 0 it shows the whole history.
pub recent_count :
    {S : Type 0} (limit : ℕ) (s : AlertService S)
    → length (recent limit s)
      ≡ (if limit == 0 then length s.history else min limit (length s.history))
unfolding recent
recent_count zero s = length-reverse s.history
recent_count (suc n) s = ground (
  arith,
  length-reverse (drop (length s.history - suc n) s.history),
  length-drop (length s.history - suc n) s.history,
)
