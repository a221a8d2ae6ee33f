-- ===== src/Core/Alerts.antt =====
-- backend/app/core/alerts.py: alerts, and the service that hands each to every sink. A sink is the
-- argument `send` of the world `W`: it changes the world, and may raise an error.
pub mod Laws
mod Tests
use quant_stack.Prelude.{
  ℕ, String, Option, none, some, List, [], ◌∷◌, reverse, deque_append, last_slice,
}

pub data AlertSeverity : Type 0 where
  info warning critical : AlertSeverity

pub record Alert : Type 0 where
  pub source : String
  pub severity : AlertSeverity
  pub message : String
  pub context : List (String × String)
  pub timestamp : ℕ

pub record AlertService {ℓ} (S : Type ℓ) : Type ℓ where
  pub sinks : List S
  pub capacity : ℕ
  pub history : List Alert

module _ {ℓ} {S W : Type ℓ} (send : S → Alert → W → W × Option String) where
  -- The loop of `fire`. What a sink raises is logged and dropped; the third part lists those errors.
  unfoldable pub fan_out : List S → Alert → W → W × List String
  fan_out [] alert w = (w, [])
  fan_out (sink ∷ sinks) alert w =
      let (w', error) = send sink alert w in
      let (w'', errors) = fan_out sinks alert w' in
      (w'', elim error [ none ↦ errors | some e ↦ e ∷ errors ])

  -- `fire`, at the time `now`: the alert it returns is the last of the new history.
  unfoldable pub fire :
      String
      → AlertSeverity
      → String
      → List (String × String)
      → ℕ
      → AlertService S
      → W
      → Alert × AlertService S × W
  unfolding fan_out
  fire source severity message context now s w =
      let alert : Alert = record {
        source = source;
        severity = severity;
        message = message;
        context = context;
        timestamp = now;
      } in
      let (w', errors) = fan_out s.sinks alert w in
      (alert, record s { history = deque_append s.capacity alert s.history }, w')

-- `recent`: the last `limit` alerts, newest first, `list(history)[-limit:][::-1]`.
unfoldable pub recent {ℓ} : {S : Type ℓ} → ℕ → AlertService S → List Alert
recent limit s = reverse (last_slice limit s.history)
