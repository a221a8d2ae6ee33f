-- ===== src/Events/Bus/Idempotency.antt =====
-- The window of event ids: an event that was published lately is not delivered again.
use quant_stack.Prelude.{
  ℕ, zero, suc, ◌+◌, ◌-◌, ◌≤◌, ◌<◌, ◌≡◌, refl, subst, ◌∙◌, true, false, List, [], ◌∷◌, ◌++◌, arith,
  length, drop, drop-append_le, length-append, length-drop, Bool-cases, inl, inr, if◌then◌else◌,
}
use mathlib.Core.List.{append_assoc}
use quant_stack.Events.Bus.{
  Event, Handler, EventBus, contains, trim, is_duplicate, deliver, deliver_all, publish,
  publish_all, Schedule, handlers_for,
}

-- No id stands in the list twice.
abbrev pub Distinct : List ℕ → Type 0
Distinct [] = Unit
Distinct (x ∷ xs) = (contains x xs ≡ false) × Distinct xs

contains-append :
    (i : ℕ) (xs ys : List ℕ)
    → contains i (xs ++ ys) ≡ (if contains i xs then true else contains i ys)
unfolding contains
contains-append i [] ys = refl
contains-append i (x ∷ xs) ys = ground (arith, contains-append i xs ys)

Distinct-snoc :
    (j : ℕ) (xs : List ℕ) → contains j xs ≡ false → Distinct xs → Distinct (xs ++ j ∷ [])
unfolding contains
Distinct-snoc j [] h d = (refl, tt)
Distinct-snoc j (x ∷ xs) h d =
    (ground (arith, contains-append x xs (j ∷ [])), Distinct-snoc j xs (ground arith) d.1)

Distinct-drop : (n : ℕ) (xs : List ℕ) → Distinct xs → Distinct (drop n xs)
Distinct-drop zero xs d = d
Distinct-drop (suc n) [] d = d
Distinct-drop (suc n) (x ∷ xs) d = Distinct-drop n xs d.1

seen-deliver :
    (e : Event) (h : Handler) (now : ℕ) (b : EventBus) → (deliver e h now b).seen ≡ b.seen
unfolding deliver
seen-deliver e h now b = ground arith

window-deliver :
    (e : Event) (h : Handler) (now : ℕ) (b : EventBus)
    → (deliver e h now b).idempotency_window ≡ b.idempotency_window
unfolding deliver
window-deliver e h now b = ground arith

pub seen-deliver_all :
    (e : Event) (hs : List (Handler × ℕ)) (b : EventBus)
    → ((deliver_all e hs b).seen ≡ b.seen)
      × ((deliver_all e hs b).idempotency_window ≡ b.idempotency_window)
unfolding deliver_all
seen-deliver_all e [] b = (refl, refl)
seen-deliver_all e ((h, now) ∷ hs) b =
    let ih = seen-deliver_all e hs (deliver e h now b) in
    (ih.0 ∙ seen-deliver e h now b, ih.1 ∙ window-deliver e h now b)

-- The ids that the bus remembers are distinct and fit its window.
pub record IsWindowed (b : EventBus) : Type 0 where
  pub distinct : Distinct b.seen
  pub fits : length b.seen ≤ b.idempotency_window

is_duplicate-IsWindowed :
    (e : Event) (b : EventBus) → IsWindowed b → IsWindowed (is_duplicate e b).1
unfolding is_duplicate
is_duplicate-IsWindowed e b h = elim (Bool-cases (contains e.event_id b.seen)) [
  | inl old ↦ rw old h
  | inr new ↦
      let ys = b.seen ++ e.event_id ∷ [] in
      let n = length ys - b.idempotency_window in
      rw new (record {
        distinct = Distinct-drop n ys (Distinct-snoc e.event_id b.seen new h.distinct);
        fits = omega (arith, length-drop n ys);
      })
]

pub seen-publish :
    (sch : Schedule) (e : Event) (b : EventBus)
    → ((publish sch e b).seen ≡ (is_duplicate e b).1.seen)
      × ((publish sch e b).idempotency_window ≡ b.idempotency_window)
unfolding publish
seen-publish sch e b = elim (Bool-cases (contains e.event_id b.seen)) [
  | inl old ↦ ground arith
  | inr new ↦
      let b' = (is_duplicate e b).1 in
      ground (
        arith,
        seen-deliver_all e (sch (handlers_for e b'.subscribers))
            (record b' { published_count = b'.published_count + 1 }),
      )
]

-- Publishing any event, by any schedule of its deliveries, keeps the remembered ids distinct and
-- within the window.
pub publish-IsWindowed :
    (sch : Schedule) (e : Event) (b : EventBus) → IsWindowed b → IsWindowed (publish sch e b)
publish-IsWindowed sch e b h =
    let s = seen-publish sch e b in
    let w = is_duplicate-IsWindowed e b h in
    let same : (is_duplicate e b).1.idempotency_window ≡ b.idempotency_window =
      unfold is_duplicate in ground arith in
    record { distinct = rw (s.0) w.distinct; fits = rw (s.0, s.1) (rw same at w.fits) }

-- The id stands in the list with fewer than `k` younger ones behind it.
abbrev Newest : ℕ → ℕ → List ℕ → Type 0
Newest k i xs = (pre : List ℕ) × (post : List ℕ) × (xs ≡ pre ++ i ∷ post) × (length post < k)

Newest-contains : (k i : ℕ) (xs : List ℕ) → Newest k i xs → contains i xs ≡ true
unfolding contains
Newest-contains k i xs (pre, post, e, h) =
    rw e (rw (contains-append i pre (i ∷ post)) (ground arith))

-- One more id, and the oldest trimmed: what has fewer than `window - 1` younger ones stays.
Newest-trim :
    (k i j w : ℕ) (xs : List ℕ) → k < w → Newest k i xs → Newest (suc k) i (trim w (xs ++ j ∷ []))
unfolding trim
Newest-trim k i j w xs h (pre, post, e, short) =
    let ys = i ∷ post ++ j ∷ [] in
    let whole : xs ++ j ∷ [] ≡ pre ++ ys = rw e (append_assoc pre (i ∷ post) (j ∷ [])) in
    let n = length (pre ++ ys) - w in
    let fits : n ≤ length pre = omega (arith, length-append pre ys, length-append post (j ∷ [])) in
    (
      drop n pre,
      post ++ j ∷ [],
      rw whole (drop-append_le n pre ys fits),
      omega (arith, length-append post (j ∷ [])),
    )

Newest-weaken : (k i : ℕ) (xs : List ℕ) → Newest k i xs → Newest (suc k) i xs
Newest-weaken k i xs (pre, post, e, h) = (pre, post, e, omega arith)

Newest-publish :
    (sch : Schedule) (e : Event) (b : EventBus) (k i : ℕ)
    → k < b.idempotency_window
    → Newest k i b.seen
    → Newest (suc k) i (publish sch e b).seen
Newest-publish sch e b k i h n = rw ((seen-publish sch e b).0) (
    unfold is_duplicate in
    elim (Bool-cases (contains e.event_id b.seen)) [
      | inl old ↦ rw old (Newest-weaken k i b.seen n)
      | inr new ↦ rw new (Newest-trim k i e.event_id b.idempotency_window b.seen h n)
    ])

Newest-publish_all :
    (sch : Schedule) (es : List Event) (b : EventBus) (k i : ℕ)
    → length es + k ≤ b.idempotency_window
    → Newest k i b.seen
    → Newest (length es + k) i (publish_all sch es b).seen
unfolding publish_all
Newest-publish_all sch [] b k i h n = subst (λ m. Newest m i b.seen) (omega arith) n
Newest-publish_all sch (e ∷ es) b k i h n =
    let w = (seen-publish sch e b).1 in
    subst (λ m. Newest m i (publish_all sch es (publish sch e b)).seen) (omega arith)
      (Newest-publish_all sch es (publish sch e b) (suc k) i (rw w (omega arith))
        (Newest-publish sch e b k i (omega arith) n))

-- The first publish of an id puts it behind all others.
Newest-first :
    (sch : Schedule) (e : Event) (b : EventBus)
    → contains e.event_id b.seen ≡ false
    → 0 < b.idempotency_window
    → Newest 1 e.event_id (publish sch e b).seen
Newest-first sch e b new h =
    let xs = b.seen in
    let n = length (xs ++ e.event_id ∷ []) - b.idempotency_window in
    let fits : n ≤ length xs = omega (arith, length-append xs (e.event_id ∷ [])) in
    rw ((seen-publish sch e b).0) (
      unfold is_duplicate in
      rw new (drop n xs, [], drop-append_le n xs (e.event_id ∷ []) fits, omega arith))

publish_old :
    (sch : Schedule) (e : Event) (b : EventBus)
    → contains e.event_id b.seen ≡ true
    → publish sch e b ≡ record b { duplicate_count = b.duplicate_count + 1 }
unfolding publish
publish_old sch e b h = ground arith

-- An event whose id the bus did not know is published; then fewer other events than the window
-- holds; then an event with the first one's id. The last is ignored: it is delivered to nobody, and
-- nothing of the bus changes but the count of duplicates.
pub publish_again :
    (sch : Schedule) (e e' : Event) (es : List Event) (b : EventBus)
    → contains e.event_id b.seen ≡ false
    → length es < b.idempotency_window
    → e'.event_id ≡ e.event_id
    → let after = publish_all sch es (publish sch e b) in
      publish sch e' after ≡ record after { duplicate_count = after.duplicate_count + 1 }
publish_again sch e e' es b new h same =
    let after = publish_all sch es (publish sch e b) in
    let w = (seen-publish sch e b).1 in
    let newest : Newest (length es + 1) e.event_id after.seen =
      Newest-publish_all sch es (publish sch e b) 1 e.event_id (rw w (omega arith))
        (Newest-first sch e b new (omega arith)) in
    publish_old sch e' after
      (rw same (Newest-contains (length es + 1) e.event_id after.seen newest))
