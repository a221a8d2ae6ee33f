-- ===== src/Core/Alerts/Tests.antt =====
-- The alert service at concrete inputs: the first sink is broken, the second counts.
use quant_stack.Prelude.{ℕ, String, ◌+◌, ◌==◌, Option, none, some, [], ◌∷◌, if◌then◌else◌}
use quant_stack.Core.Alerts.{Alert, AlertService}

abbrev deliver : ℕ → Alert → ℕ → ℕ × Option String
deliver sink alert sent = if sink == 0 then (sent, some "down") else (sent + 1, none)

abbrev service : AlertService ℕ
service = record { sinks = 0 ∷ 1 ∷ []; capacity = 200; history = [] }
