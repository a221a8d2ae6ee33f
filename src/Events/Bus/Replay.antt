-- ===== src/Events/Bus/Replay.antt =====
-- Replaying a dead letter.
use mathlib.Core.List.{Perm}
use Prim.Native.Nat.{min}
use quant_stack.Prelude.{
  ℕ, suc, ◌+◌, ◌-◌, ◌≤◌, ◌≡◌, refl, ap, sym, ◌∙◌, ◌≢◌, ◌++◌, ◌==◌, ==_iff, All, Bool-cases, inl,
  inr, true, false, none, some, List, [], ◌∷◌, arith, length, map, if◌then◌else◌,
}
use quant_stack.Events.Bus.{
  Event, EventBus, DeadLetter, Subscription, Schedule, find_letter, remove_letter, replayed,
  replay_dead_letter, publish, handlers_for, wants, contains,
}
use quant_stack.Events.Bus.Letters.{successes, successes-same, publish-Counts}

length-remove_letter :
    (i : ℕ) (ls : List DeadLetter) (l : DeadLetter)
    → find_letter i ls ≡ some l
    → length ls ≡ suc (length (remove_letter i ls))
unfolding find_letter remove_letter
length-remove_letter i [] l e = absurd (ground arith)
length-remove_letter i (x ∷ ls) l e = ground (arith, length-remove_letter i ls l)

-- The letter that `find_letter` finds is the first of its id, and it alone is removed.
remove_letter-found :
    (i : ℕ) (ls : List DeadLetter) (l : DeadLetter)
    → find_letter i ls ≡ some l
    → (before after : List DeadLetter) × (ls ≡ before ++ l ∷ after)
      × (l.event.event_id ≡ i)
      × All (λ d. d.event.event_id ≢ i) before
      × (remove_letter i ls ≡ before ++ after)
unfolding find_letter remove_letter
remove_letter-found i [] l e = absurd (ground arith)
remove_letter-found i (x ∷ ls) l e = elim (Bool-cases (x.event.event_id == i)) [
  | inl p ↦
      let q : x ≡ l = ground (arith, e, p) in
      let same = (==_iff x.event.event_id i).0 p in
      ([], ls, ap (λ d. d ∷ ls) q, ap (λ d. d.event.event_id) (sym q) ∙ same, tt, ground (arith, p))
  | inr p ↦
      let r = remove_letter-found i ls l (ground (arith, e, p)) in
      (
        x ∷ r.0,
        r.1,
        ap (λ ds. x ∷ ds) r.2,
        r.3,
        (λ q. absurd (ground (arith, p, (==_iff x.event.event_id i).1 q)), r.4),
        ground (arith, p, r.5),
      )
]

replay_found :
    (sch : Schedule) (new_id now i : ℕ) (b : EventBus) (l : DeadLetter)
    → find_letter i b.dead_letters ≡ some l
    → replay_dead_letter sch new_id now i b ≡ (
      true,
      publish sch
          (replayed new_id now l.event)
          (record b { dead_letters = remove_letter i b.dead_letters }),
    )
unfolding replay_dead_letter
replay_found sch new_id now i b l e = ground (arith, e)

handlers_for-replayed :
    (n now : ℕ) (e : Event) (ss : List Subscription)
    → handlers_for (replayed n now e) ss ≡ handlers_for e ss
unfolding handlers_for replayed
handlers_for-replayed n now e [] = refl
handlers_for-replayed n now e (s ∷ ss) =
    ap (λ hs. if wants e s then s.handler ∷ hs else hs) (handlers_for-replayed n now e ss)

-- If the queue is within its capacity and the bus does not know the id of the new event, then replaying
-- the id of a dead letter takes the first letter of this id out of the queue, leaves the others in
-- their order, and publishes its event anew: to all the handlers that want it, which may end in any
-- order, also to those that had it the first time. Each that succeeds now is counted as delivered, each
-- that fails leaves a letter, as far as the capacity allows.
pub replay-Counts :
    (sch : Schedule) (new_id now i : ℕ) (b : EventBus) (l : DeadLetter)
    → find_letter i b.dead_letters ≡ some l
    → contains new_id b.seen ≡ false
    → length b.dead_letters ≤ b.dead_letter_capacity
    → Perm
        (map (λ d. d.0) (sch (handlers_for l.event b.subscribers)))
        (handlers_for l.event b.subscribers)
    → let e = replayed new_id now l.event in
      let hs = handlers_for l.event b.subscribers in
      let won = successes b e hs in
      let b' = (replay_dead_letter sch new_id now i b).1 in
      ((before after : List DeadLetter) × (b.dead_letters ≡ before ++ l ∷ after)
        × (l.event.event_id ≡ i)
        × All (λ d. d.event.event_id ≢ i) before
        × (replay_dead_letter sch new_id now i b
            ≡ (true, publish sch e (record b { dead_letters = before ++ after }))))
      × (b'.delivered_count ≡ b.delivered_count + won)
      × (suc (length b'.dead_letters)
          ≡ min (length b.dead_letters + (length hs - won)) (suc b.dead_letter_capacity))
unfolding replay_dead_letter
replay-Counts sch new_id now i b l e new fits p =
    let ev = replayed new_id now l.event in
    let hs = handlers_for l.event b.subscribers in
    let b₁ = record b { dead_letters = remove_letter i b.dead_letters } in
    let less = length-remove_letter i b.dead_letters l e in
    let same = handlers_for-replayed new_id now l.event b.subscribers in
    let keep = successes-same b b₁ ev hs refl refl in
    let fresh : contains ev.event_id b.seen ≡ false = unfold replayed in new in
    let p' : Perm (map (λ d. d.0) (sch (handlers_for ev b.subscribers)))
        (handlers_for ev b.subscribers) =
      rw same p in
    let c = publish-Counts sch ev b₁ fresh (omega arith) p' in
    let r = remove_letter-found i b.dead_letters l e in
    (
      (
        r.0,
        r.1,
        r.2,
        r.3,
        r.4,
        replay_found sch new_id now i b l e
            ∙ ap (λ ds. (true, publish sch ev (record b { dead_letters = ds }))) r.5,
      ),
      ground arith,
      ground arith,
    )

-- Replaying an id that no dead letter has does nothing.
pub replay_unknown :
    (sch : Schedule) (new_id now i : ℕ) (b : EventBus)
    → find_letter i b.dead_letters ≡ none
    → replay_dead_letter sch new_id now i b ≡ (false, b)
unfolding replay_dead_letter
replay_unknown sch new_id now i b e = ground arith
