-- ===== src/Events/Bus.antt =====
-- backend/app/events/bus.py. Event ids that `uuid4` mints, times and texts are values; a payload is
-- a text. A handler is what it does on each attempt to give it an event: `none`, or the error that
-- it raises. Handlers run concurrently under `asyncio.gather`; what a delivery does to the bus it
-- does in one step at its end, so `publish` takes the order in which the deliveries end.
mod Tests
pub mod Idempotency
pub mod Delivery
pub mod Letters
pub mod Replay
use quant_stack.Prelude.{
  ℕ, zero, suc, ◌+◌, ◌-◌, ◌*◌, ◌^◌, String, Bool, true, false, Option, none, some, List, [], ◌∷◌,
  ◌++◌, reverse, length, drop, filterb, deque_append, last_slice, ◌==◌, str_eq, if◌then◌else◌,
}

pub record Event : Type 0 where
  pub kind : String  -- `type`
  pub payload : String
  pub source : String
  pub timestamp : ℕ
  pub event_id : ℕ
  pub trace_id : ℕ
  pub version : ℕ

pub record Handler : Type 0 where
  pub qualname : String
  -- The outcome of the n-th attempt, counted from 1.
  pub respond : Event → ℕ → Option String

pub record DeadLetter : Type 0 where
  pub event : Event
  pub handler : String
  pub error : String
  pub attempts : ℕ
  pub failed_at : ℕ

pub record Subscription : Type 0 where
  pub event_type : String
  pub handler : Handler
  pub version : Option ℕ

-- `subscribers` is the dictionary of lists, flattened: one entry to a call of `subscribe`, in order.
-- `seen` holds the keys of the ordered dictionary, oldest first.
pub record EventBus : Type 0 where
  pub subscribers : List Subscription
  pub max_retries : ℕ
  pub base_backoff : ℕ
  pub dead_letter_capacity : ℕ
  pub idempotency_window : ℕ
  pub dead_letters : List DeadLetter
  pub seen : List ℕ
  pub published_count : ℕ
  pub delivered_count : ℕ
  pub duplicate_count : ℕ

unfoldable pub init : ℕ → ℕ → ℕ → ℕ → EventBus
init retries backoff capacity window = record {
  subscribers = [];
  max_retries = retries;
  base_backoff = backoff;
  dead_letter_capacity = capacity;
  idempotency_window = window;
  dead_letters = [];
  seen = [];
  published_count = 0;
  delivered_count = 0;
  duplicate_count = 0;
}

unfoldable pub subscribe : String → Handler → Option ℕ → EventBus → EventBus
subscribe kind h v b = record b {
  subscribers = b.subscribers ++ record { event_type = kind; handler = h; version = v } ∷ [];
}

-- `event_type == type and (version is None or version == event.version)`
unfoldable pub wants : Event → Subscription → Bool
wants e s =
    if str_eq s.event_type e.kind
    then elim s.version [ none ↦ true | some v ↦ v == e.version ]
    else false

-- The handlers that `publish` gathers, in the order of their subscriptions.
unfoldable pub handlers_for : Event → List Subscription → List Handler
unfolding wants
handlers_for e [] = []
handlers_for e (s ∷ ss) = if wants e s then s.handler ∷ handlers_for e ss else handlers_for e ss

unfoldable pub has_subscribers : String → List Subscription → Bool
has_subscribers kind [] = false
has_subscribers kind (s ∷ ss) = if str_eq s.event_type kind then true else has_subscribers kind ss

unfoldable pub contains : ℕ → List ℕ → Bool
contains i [] = false
contains i (j ∷ js) = if j == i then true else contains i js

-- The `while` loop of `_is_duplicate`: the oldest ids go until the window holds the rest.
unfoldable pub trim : ℕ → List ℕ → List ℕ
trim window seen = drop (length seen - window) seen

unfoldable pub is_duplicate : Event → EventBus → Bool × EventBus
unfolding contains trim
is_duplicate e b =
    if contains e.event_id b.seen
    then (true, b)
    else (false, record b { seen = trim b.idempotency_window (b.seen ++ e.event_id ∷ []) })

-- How a delivery ends.
pub data Outcome : Type 0 where
  delivered : Outcome
  gave_up : String → Outcome

-- The loop of `_deliver` from attempt `n` on, with `left` retries behind it: how it ends, and the
-- delays that it sleeps for between its attempts.
unfoldable pub attempt_loop : ℕ → Handler → Event → ℕ → ℕ → Outcome × List ℕ
attempt_loop base h e n zero = (elim (h.respond e n) [ none ↦ delivered | some x ↦ gave_up x ], [])
attempt_loop base h e n (suc left) =
    let rest = attempt_loop base h e (n + 1) left in
    elim (h.respond e n) [ none ↦ (delivered, []) | some x ↦ (rest.0, base * 2 ^ (n - 1) ∷ rest.1) ]

unfoldable pub outcome_of : EventBus → Handler → Event → Outcome
outcome_of b h e = (attempt_loop b.base_backoff h e 1 b.max_retries).0

-- The letter of a delivery that was given up.
unfoldable pub letter : EventBus → Event → Handler → ℕ → String → DeadLetter
letter b e h now err = record {
  event = e;
  handler = h.qualname;
  error = err;
  attempts = b.max_retries + 1;
  failed_at = now;
}

-- What the end of a delivery does to the bus, at the time `now`.
unfoldable pub settle : Event → Handler → ℕ → Outcome → EventBus → EventBus
settle e h now delivered b = record b { delivered_count = b.delivered_count + 1 }
settle e h now (gave_up err) b = record b {
  dead_letters = deque_append b.dead_letter_capacity (letter b e h now err) b.dead_letters;
}

unfoldable pub deliver : Event → Handler → ℕ → EventBus → EventBus
unfolding settle
deliver e h now b = settle e h now (outcome_of b h e) b

-- The deliveries of one event, in the order in which they end, each with its time.
unfoldable pub deliver_all : Event → List (Handler × ℕ) → EventBus → EventBus
deliver_all e [] b = b
deliver_all e ((h, now) ∷ hs) b = deliver_all e hs (deliver e h now b)

-- How the event loop orders concurrent deliveries, and when each ends.
abbrev pub Schedule : Type 0
Schedule = List Handler → List (Handler × ℕ)

unfoldable pub publish : Schedule → Event → EventBus → EventBus
unfolding is_duplicate
publish schedule e b =
    let (duplicate, b') = is_duplicate e b in
    if duplicate
    then record b' { duplicate_count = b'.duplicate_count + 1 }
    else deliver_all e (schedule (handlers_for e b'.subscribers))
        (record b' { published_count = b'.published_count + 1 })

unfoldable pub publish_all : Schedule → List Event → EventBus → EventBus
publish_all schedule [] b = b
publish_all schedule (e ∷ es) b = publish_all schedule es (publish schedule e b)

-- `list_dead_letters`: the last `limit` letters, newest first.
unfoldable pub list_dead_letters : ℕ → EventBus → List DeadLetter
list_dead_letters limit b = reverse (last_slice limit b.dead_letters)

unfoldable pub find_letter : ℕ → List DeadLetter → Option DeadLetter
find_letter i [] = none
find_letter i (l ∷ ls) = if l.event.event_id == i then some l else find_letter i ls

-- `dead_letters.remove(letter)` for the letter that `find_letter` finds: the first letter equal to
-- it has its event id, so that no letter stands before it.
unfoldable pub remove_letter : ℕ → List DeadLetter → List DeadLetter
remove_letter i [] = []
remove_letter i (l ∷ ls) = if l.event.event_id == i then ls else l ∷ remove_letter i ls

-- The event that `replay_dead_letter` makes of a letter's: a new id and a new time.
unfoldable pub replayed : ℕ → ℕ → Event → Event
replayed new_id now e = record e { event_id = new_id; timestamp = now }

unfoldable pub replay_dead_letter : Schedule → ℕ → ℕ → ℕ → EventBus → Bool × EventBus
unfolding publish
replay_dead_letter schedule new_id now i b = elim (find_letter i b.dead_letters) [
  | none ↦ (false, b)
  | some l ↦ (
    true,
    publish schedule (replayed new_id now l.event)
        (record b { dead_letters = remove_letter i b.dead_letters }),
  )
]
