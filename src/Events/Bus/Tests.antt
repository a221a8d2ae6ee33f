-- ===== src/Events/Bus/Tests.antt =====
-- The bus at concrete inputs: the first handler succeeds at its second attempt, the second never.
use mathlib.Core.List.{Perm}
use mathlib.Core.List.Perm
use Prim.Native.Nat.{min}
use quant_stack.Prelude.{
  ℕ, suc, ◌+◌, ◌-◌, ◌≡◌, ◌≢◌, ◌++◌, All, refl, true, Option, none, some, List, [], ◌∷◌, arith,
  String, length, map,
}
use quant_stack.Events.Bus.{
  Event, Handler, EventBus, DeadLetter, delivered, init, subscribe, publish, publish_all,
  attempt_loop, handlers_for, replay_dead_letter, replayed, find_letter, contains,
}
use quant_stack.Events.Bus.Idempotency.{publish_again}
use quant_stack.Events.Bus.Letters.{successes, publish-Counts}
use quant_stack.Events.Bus.Replay.{replay-Counts}

abbrev at_second : Event → ℕ → Option String
at_second e (suc (suc n)) = none
at_second e _ = some "not yet"

abbrev flaky : Handler
flaky = record { qualname = "flaky"; respond = at_second }

abbrev broken : Handler
broken = record { qualname = "broken"; respond = λ e n. some "down" }

abbrev tick : ℕ → Event
tick i = record {
  kind = "tick";
  payload = "{}";
  source = "feed";
  timestamp = 5;
  event_id = i;
  trace_id = 9;
  version = 1;
}

abbrev bus : EventBus
bus = subscribe "tick" broken (some 1) (subscribe "tick" flaky none (init 3 200 1000 2))

-- The second handler ends first.
abbrev in_order : List Handler → List (Handler × ℕ)
in_order [] = []
in_order (h ∷ hs) = (h, 7) ∷ in_order hs

in_order-perm : (hs : List Handler) → Perm (map (λ d. d.0) (in_order hs)) hs
in_order-perm [] = Perm.refl []
in_order-perm (h ∷ hs) = Perm.cons h (in_order-perm hs)

publish_again_example :
    let after = publish_all in_order (tick 2 ∷ []) (publish in_order (tick 1) bus) in
    publish in_order (tick 1) after ≡ record after { duplicate_count = after.duplicate_count + 1 }
unfolding init subscribe contains
publish_again_example =
    publish_again in_order (tick 1) (tick 1) (tick 2 ∷ []) bus refl (omega arith) refl

publish-Counts_example :
    let hs = handlers_for (tick 1) bus.subscribers in
    let won = successes bus (tick 1) hs in
    let b' = publish in_order (tick 1) bus in
    (b'.delivered_count ≡ bus.delivered_count + won)
    × (length b'.dead_letters
        ≡ min (length bus.dead_letters + (length hs - won)) bus.dead_letter_capacity)
    × (b'.published_count ≡ bus.published_count + 1)
    × (b'.duplicate_count ≡ bus.duplicate_count)
unfolding init subscribe contains
publish-Counts_example =
    publish-Counts in_order (tick 1) bus refl (omega arith)
      (in_order-perm (handlers_for (tick 1) bus.subscribers))

abbrev lost : DeadLetter
lost = record { event = tick 1; handler = "broken"; error = "down"; attempts = 4; failed_at = 7 }

abbrev stuck : EventBus
stuck = record bus { dead_letters = record lost { event = tick 3 } ∷ lost ∷ []; seen = 1 ∷ 3 ∷ [] }

-- The event goes to both handlers again, though one of them had it.
replay-Counts_example :
    let e = replayed 8 50 (tick 1) in
    let hs = handlers_for (tick 1) bus.subscribers in
    let won = successes stuck e hs in
    let b' = (replay_dead_letter in_order 8 50 1 stuck).1 in
    ((before after : List DeadLetter) × (stuck.dead_letters ≡ before ++ lost ∷ after)
      × ((tick 1).event_id ≡ 1)
      × All (λ d. d.event.event_id ≢ 1) before
      × (replay_dead_letter in_order 8 50 1 stuck
          ≡ (true, publish in_order e (record stuck { dead_letters = before ++ after }))))
    × (b'.delivered_count ≡ stuck.delivered_count + won)
    × (suc (length b'.dead_letters) ≡ min (2 + (length hs - won)) (suc stuck.dead_letter_capacity))
unfolding init subscribe contains find_letter
replay-Counts_example =
    replay-Counts in_order 8 50 1 stuck lost refl refl (omega arith)
      (in_order-perm (handlers_for (tick 1) bus.subscribers))

-- The flaky handler gets the event, after one delay; the broken one leaves a letter.
one_delay : attempt_loop 200 flaky (tick 1) 1 3 ≡ (delivered, 200 ∷ [])
unfolding attempt_loop
one_delay = refl
