-- ===== src/Events/Bus/Letters.antt =====
-- Every delivery of an event is accounted for, whatever the order in which they end.
use mathlib.Core.List.{Permᴰ, Perm}
use native.Mathlib.Nat.{ℕ_set}
use mathlib.Core.Logic.{∥∥₁_elim}
use quant_stack.Prelude.{
  length-perm, ℕ, suc, ◌+◌, ◌-◌, ◌≤◌, ◌≡◌, refl, ap, ◌∙◌, Bool-cases, ◌⊎◌, inl, inr, String, Bool,
  true, false, List, [], ◌∷◌, arith, length, map, if◌then◌else◌, length-deque_append,
}
use Prim.Native.Nat.{min}
use quant_stack.Events.Bus.{
  Event, Handler, EventBus, Outcome, delivered, gave_up, letter, outcome_of, deliver, deliver_all,
  publish, is_duplicate, contains, handlers_for, Schedule,
}

abbrev pub is_delivered : Outcome → Bool
is_delivered delivered = true
is_delivered (gave_up _) = false

Outcome-cases : (o : Outcome) → (o ≡ delivered) ⊎ ((x : String) × (o ≡ gave_up x))
Outcome-cases delivered = inl refl
Outcome-cases (gave_up x) = inr (x, refl)

-- How many of the handlers get the event.
pub successes : EventBus → Event → List Handler → ℕ
successes b e [] = 0
successes b e (h ∷ hs) =
    let n = successes b e hs in if is_delivered (outcome_of b h e) then suc n else n

-- A permutation of the handlers does not change the count.
successes-perm_step :
    (b : EventBus) (e : Event) {xs ys : List Handler}
    → Permᴰ xs ys
    → successes b e xs ≡ successes b e ys
unfolding successes
successes-perm_step b e Permᴰ.nil = refl
successes-perm_step b e (Permᴰ.cons x p) = ground (arith, successes-perm_step b e p)
successes-perm_step b e (Permᴰ.swap x y) = ground arith
successes-perm_step b e (Permᴰ.trans p q) = successes-perm_step b e p ∙ successes-perm_step b e q

successes-perm :
    (b : EventBus) (e : Event) {xs ys : List Handler}
    → Perm xs ys
    → successes b e xs ≡ successes b e ys
successes-perm b e p = ∥∥₁_elim p (ℕ_set _ _) (successes-perm_step b e)

successes-le : (b : EventBus) (e : Event) (hs : List Handler) → successes b e hs ≤ length hs
unfolding successes
successes-le b e [] = omega arith
successes-le b e (h ∷ hs) = ground (arith, successes-le b e hs)

pub successes-same :
    (b b' : EventBus) (e : Event) (hs : List Handler)
    → b'.base_backoff ≡ b.base_backoff
    → b'.max_retries ≡ b.max_retries
    → successes b' e hs ≡ successes b e hs
unfolding successes outcome_of
successes-same b b' e [] p q = refl
successes-same b b' e (h ∷ hs) p q =
    rw (p, q)
      (ap (λ n. if is_delivered (outcome_of b h e) then suc n else n)
        (successes-same b b' e hs p q))

-- A delivery changes nothing that decides another one.
outcome_of-deliver :
    (e : Event) (h h' : Handler) (now : ℕ) (b : EventBus)
    → outcome_of (deliver e h now b) h' e ≡ outcome_of b h' e
unfolding deliver outcome_of
outcome_of-deliver e h h' now b = ground arith

successes-deliver :
    (e : Event) (h : Handler) (now : ℕ) (b : EventBus) (hs : List Handler)
    → successes (deliver e h now b) e hs ≡ successes b e hs
unfolding successes
successes-deliver e h now b [] = refl
successes-deliver e h now b (h' ∷ hs) =
    ground (arith, successes-deliver e h now b hs, outcome_of-deliver e h h' now b)

length-map : (hs : List (Handler × ℕ)) → length (map (λ d. d.0) hs) ≡ length hs
length-map [] = refl
length-map (h ∷ hs) = omega (arith, length-map hs)

successes-cons :
    (b : EventBus) (e : Event) (h : Handler) (hs : List Handler)
    → successes b e (h ∷ hs)
      ≡ (if is_delivered (outcome_of b h e) then suc (successes b e hs) else successes b e hs)
unfolding successes
successes-cons b e h hs = refl

-- The counters of a bus after `won` successes and `lost` failures.
abbrev pub Counts : EventBus → EventBus → ℕ → ℕ → Type 0
Counts b b' won lost =
    (b'.delivered_count ≡ b.delivered_count + won)
    × (length b'.dead_letters ≡ min (length b.dead_letters + lost) b.dead_letter_capacity)
    × (b'.published_count ≡ b.published_count)
    × (b'.dead_letter_capacity ≡ b.dead_letter_capacity)
    × (b'.duplicate_count ≡ b.duplicate_count)

deliver-Counts :
    (e : Event) (h : Handler) (now : ℕ) (b : EventBus)
    → length b.dead_letters ≤ b.dead_letter_capacity
    → let won : ℕ = if is_delivered (outcome_of b h e) then 1 else 0 in
      Counts b (deliver e h now b) won (1 - won)
unfolding deliver
deliver-Counts e h now b fits = elim (Outcome-cases (outcome_of b h e)) [
  | inl won ↦ ground arith
  | inr (err, lost) ↦
      ground
        (arith, length-deque_append b.dead_letter_capacity (letter b e h now err) b.dead_letters)
]

deliver_all-Counts :
    (e : Event) (hs : List (Handler × ℕ)) (b : EventBus)
    → length b.dead_letters ≤ b.dead_letter_capacity
    → let won = successes b e (map (λ d. d.0) hs) in
      Counts b (deliver_all e hs b) won (length hs - won)
unfolding deliver_all
deliver_all-Counts e [] b fits = unfold successes in omega arith
deliver_all-Counts e ((h, now) ∷ hs) b fits =
    let b' = deliver e h now b in
    let first = deliver-Counts e h now b fits in
    let room : length b'.dead_letters ≤ b'.dead_letter_capacity = omega (arith, first.1, first.3) in
    let rest = deliver_all-Counts e hs b' room in
    let same = successes-deliver e h now b (map (λ d. d.0) hs) in
    let le = successes-le b e (map (λ d. d.0) hs) in
    let n = length-map hs in
    elim (Bool-cases (is_delivered (outcome_of b h e))) [
      | inl won ↦ ground (arith, successes-cons b e h (map (λ d. d.0) hs))
      | inr lost ↦ ground (arith, successes-cons b e h (map (λ d. d.0) hs))
    ]

-- An event whose id the bus does not know is counted as published once, and not as a duplicate. In
-- whatever order the deliveries to its handlers end, those handlers that succeed are counted as
-- delivered and each of the others leaves a dead letter, of which a queue that was within its
-- capacity keeps as many as its capacity allows.
pub publish-Counts :
    (sch : Schedule) (e : Event) (b : EventBus)
    → contains e.event_id b.seen ≡ false
    → length b.dead_letters ≤ b.dead_letter_capacity
    → Perm (map (λ d. d.0) (sch (handlers_for e b.subscribers))) (handlers_for e b.subscribers)
    → let hs = handlers_for e b.subscribers in
      let won = successes b e hs in
      let b' = publish sch e b in
      (b'.delivered_count ≡ b.delivered_count + won)
      × (length b'.dead_letters
          ≡ min (length b.dead_letters + (length hs - won)) b.dead_letter_capacity)
      × (b'.published_count ≡ b.published_count + 1)
      × (b'.duplicate_count ≡ b.duplicate_count)
unfolding publish
publish-Counts sch e b new fits p =
    let hs = handlers_for e b.subscribers in
    let b₁ = (is_duplicate e b).1 in
    let b₂ = record b₁ { published_count = b₁.published_count + 1 } in
    let c = deliver_all-Counts e (sch hs) b₂ (rw new fits) in
    let order = successes-perm b₂ e p in
    let same = successes-same b b₂ e hs (rw new refl) (rw new refl) in
    let n = length-perm p in let m = length-map (sch hs) in ground arith
