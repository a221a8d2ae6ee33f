-- ===== src/Collectors/TickAggregator/Bars.antt =====
-- The bar of a symbol over the ticks of one bucket.
use quant_stack.Prelude.{
  ℕ, ◌-◌, ◌≡◌, ◌∙◌, ◌⊎◌, refl, ap, sym, subst, Option, Option-cases, ==_iff, String, false, none,
  some, List, [], ◌∷◌, arith, ◌==◌, str_eq, eq_iff, if◌then◌else◌, Bool-cases, inl, inr, All,
}
use Prim.Native.Nat.{min, max}
use quant_stack.Prelude.Dict.{lookup, lookup-insert, lookup-insert_self}
use quant_stack.Collectors.TickAggregator.{
  Bar, Aggregator, Tick, init, or_zero, baseline_of, open_bar, extend_bar, next_bar, update_bar,
  ingest, floor_to_session_bucket,
}

-- The prices of a symbol's ticks, in turn.
abbrev pub prices : String → List Tick → List ℕ
prices symbol [] = []
prices symbol (t ∷ ts) =
    if str_eq t.symbol symbol then t.ltp ∷ prices symbol ts else prices symbol ts

abbrev pub highest : ℕ → List ℕ → ℕ
highest p [] = p
highest p (q ∷ qs) = highest (max p q) qs

abbrev pub lowest : ℕ → List ℕ → ℕ
lowest p [] = p
lowest p (q ∷ qs) = lowest (min p q) qs

abbrev pub latest : ℕ → List ℕ → ℕ
latest p [] = p
latest p (q ∷ qs) = latest q qs

-- The ticks of the symbol fall into the bucket; those of other symbols may fall anywhere.
abbrev pub WithinBucket : String → ℕ → List Tick → Type 0
WithinBucket symbol bucket ts =
    All (λ t. t.symbol ≡ symbol → floor_to_session_bucket t.ts 1 ≡ bucket) ts

step_mine :
    (symbol : String) (bar : Bar) (a : Aggregator) (t : Tick)
    → t.symbol ≡ symbol
    → lookup symbol a.bars ≡ some bar
    → floor_to_session_bucket t.ts 1 ≡ bar.bucket
    → lookup symbol (update_bar t a).0.bars ≡ some (extend_bar t bar)
unfolding update_bar next_bar
step_mine symbol bar a t s m w =
    let here = lookup-insert_self symbol (update_bar t a).1 a.bars in ground (arith, s, m, w, here)

step_other :
    (symbol : String) (a : Aggregator) (t : Tick)
    → str_eq t.symbol symbol ≡ false
    → lookup symbol (update_bar t a).0.bars ≡ lookup symbol a.bars
unfolding update_bar
step_other symbol a t n =
    let there = lookup-insert t.symbol symbol (update_bar t a).1 a.bars in
    ground (arith, n, there, eq_iff t.symbol symbol)

opens :
    (t : Tick) (a : Aggregator)
    → (lookup t.symbol a.bars ≡ none)
      ⊎ ((old : Bar) × (lookup t.symbol a.bars ≡ some old)
          × ((old.bucket == floor_to_session_bucket t.ts 1) ≡ false))
    → lookup t.symbol (update_bar t a).0.bars ≡ some (open_bar (baseline_of a t) t)
unfolding update_bar next_bar
opens t a (inl n) =
    let here = lookup-insert_self t.symbol (update_bar t a).1 a.bars in ground (arith, n, here)
opens t a (inr (old, m, ne)) =
    let here = lookup-insert_self t.symbol (update_bar t a).1 a.bars in ground (arith, m, ne, here)

extended :
    (symbol : String) (bar : Bar) (a : Aggregator) (ts : List Tick)
    → lookup symbol a.bars ≡ some bar
    → WithinBucket symbol bar.bucket ts
    → lookup symbol (ingest ts a).bars
      ≡ some (record bar {
        high = highest bar.high (prices symbol ts);
        low = lowest bar.low (prices symbol ts);
        close = latest bar.close (prices symbol ts);
      })
unfolding ingest extend_bar
extended symbol bar a [] m w = m
extended symbol bar a (t ∷ ts) m w = elim (Bool-cases (str_eq t.symbol symbol)) [
  | inl e ↦
      let s = (eq_iff t.symbol symbol).0 e in
      let ih =
        extended symbol (extend_bar t bar) (update_bar t a).0 ts
          (step_mine symbol bar a t s m (w.0 s)) w.1 in
      ground (arith, e, ih)
  | inr n ↦
      let ih = extended symbol bar (update_bar t a).0 ts (step_other symbol a t n ∙ m) w.1 in
      ground (arith, n, ih)
]

-- The last volume that the ticks give of the symbol; `v` is what was known before them.
abbrev pub last_seen : String → Option ℕ → List Tick → Option ℕ
last_seen symbol v [] = v
last_seen symbol v (t ∷ ts) =
    last_seen symbol
      (if str_eq t.symbol symbol then elim t.volume [ none ↦ v | some w ↦ some w ] else v) ts

-- The volume that was known before the tick `t`, from those before it; its own if there is none.
abbrev pub known_before : List Tick → Tick → ℕ
known_before earlier t = elim (last_seen t.symbol none earlier) [
  | none ↦ or_zero t.volume
  | some v ↦ v
]

-- No tick of the symbol falls into the bucket.
abbrev pub OutsideBucket : String → ℕ → List Tick → Type 0
OutsideBucket symbol bucket ts =
    All (λ t. t.symbol ≡ symbol → (floor_to_session_bucket t.ts 1 == bucket) ≡ false) ts

seen_step :
    (symbol : String) (a : Aggregator) (t : Tick)
    → lookup symbol (update_bar t a).0.last_cum_volume ≡ (
        if str_eq t.symbol symbol
        then elim t.volume [ none ↦ lookup symbol a.last_cum_volume | some w ↦ some w ]
        else lookup symbol a.last_cum_volume)
unfolding update_bar
seen_step symbol a t = elim (Option-cases t.volume) [
  | inl n ↦ ground (arith, n)
  | inr (v, e) ↦
      let there = lookup-insert t.symbol symbol v a.last_cum_volume in
      let here = lookup-insert_self t.symbol v a.last_cum_volume in
      ground (arith, e, there, here, eq_iff t.symbol symbol)
]

seen_after :
    (symbol : String) (ts : List Tick) (a : Aggregator)
    → lookup symbol (ingest ts a).last_cum_volume
      ≡ last_seen symbol (lookup symbol a.last_cum_volume) ts
unfolding ingest
seen_after symbol [] a = refl
seen_after symbol (t ∷ ts) a =
    seen_after symbol ts (update_bar t a).0 ∙ ap (λ v. last_seen symbol v ts) (seen_step symbol a t)

-- The symbol has no bar of the bucket.
abbrev pub Unopened : String → ℕ → Aggregator → Type 0
Unopened symbol bucket a =
    (lookup symbol a.bars ≡ none)
    ⊎ ((old : Bar) × (lookup symbol a.bars ≡ some old) × ((old.bucket == bucket) ≡ false))

bar_of_tick :
    (a : Aggregator) (t : Tick) → lookup t.symbol (update_bar t a).0.bars ≡ some (update_bar t a).1
unfolding update_bar
bar_of_tick a t = lookup-insert_self t.symbol (update_bar t a).1 a.bars

bucket_of_tick :
    (a : Aggregator) (t : Tick) → (update_bar t a).1.bucket ≡ floor_to_session_bucket t.ts 1
unfolding update_bar next_bar open_bar extend_bar
bucket_of_tick a t = elim (Option-cases (lookup t.symbol a.bars)) [
  | inl n ↦ ground (arith, n)
  | inr (old, e) ↦ ground (arith, e, ==_iff old.bucket (floor_to_session_bucket t.ts 1))
]

stays_Unopened :
    (symbol : String) (bucket : ℕ) (ts : List Tick) (a : Aggregator)
    → Unopened symbol bucket a
    → OutsideBucket symbol bucket ts
    → Unopened symbol bucket (ingest ts a)
unfolding ingest
stays_Unopened symbol bucket [] a u w = u
stays_Unopened symbol bucket (t ∷ ts) a u w =
    stays_Unopened symbol bucket ts (update_bar t a).0
      (elim (Bool-cases (str_eq t.symbol symbol)) [
        | inl e ↦
            let s = (eq_iff t.symbol symbol).0 e in
            inr (
              (update_bar t a).1,
              subst (λ x. lookup x (update_bar t a).0.bars ≡ some (update_bar t a).1) s
                  (bar_of_tick a t),
              ap (λ b. b == bucket) (bucket_of_tick a t) ∙ w.0 s,
            )
        | inr n ↦
            subst
              (λ m. (m ≡ none) ⊎ ((old : Bar) × (m ≡ some old) × ((old.bucket == bucket) ≡ false)))
              (sym (step_other symbol a t n)) u
      ])
      w.1

-- The volume that a tick of the bucket reports.
volume_of_tick :
    (a : Aggregator) (t : Tick) (bar : Bar)
    → lookup t.symbol a.bars ≡ some bar
    → floor_to_session_bucket t.ts 1 ≡ bar.bucket
    → (update_bar t a).2 ≡ or_zero t.volume - bar.baseline_volume
unfolding update_bar next_bar extend_bar
volume_of_tick a t bar m w = ground (arith, m, w)

-- Of the ticks since the start, let `t` be the first of its symbol in its bucket, and let the symbol's
-- stay in that bucket from then on, mixed with those of other symbols. The bar of the symbol opens at
-- the price of `t`, has the highest and the lowest of its prices, and closes at the last. Its volume is
-- measured from the last cumulative volume that the symbol's ticks before `t` gave, or from that of
-- `t` itself if they gave none: the next tick of the symbol in the bucket reports its own cumulative
-- volume less that one, or 0 where it is lower or missing.
pub ingest_lem :
    (earlier : List Tick) (t : Tick) (ts : List Tick) (u : Tick)
    → OutsideBucket t.symbol (floor_to_session_bucket t.ts 1) earlier
    → WithinBucket t.symbol (floor_to_session_bucket t.ts 1) ts
    → u.symbol ≡ t.symbol
    → floor_to_session_bucket u.ts 1 ≡ floor_to_session_bucket t.ts 1
    → let a = ingest (t ∷ ts) (ingest earlier init) in
      (lookup t.symbol a.bars
        ≡ some (record {
          bucket = floor_to_session_bucket t.ts 1;
          open_price = t.ltp;
          high = highest t.ltp (prices t.symbol ts);
          low = lowest t.ltp (prices t.symbol ts);
          close = latest t.ltp (prices t.symbol ts);
          baseline_volume = known_before earlier t;
        }))
      × ((update_bar u a).2 ≡ or_zero u.volume - known_before earlier t)
unfolding ingest open_bar init lookup
ingest_lem earlier t ts u outside w s b =
    let start = ingest earlier init in
    let fresh =
      stays_Unopened t.symbol (floor_to_session_bucket t.ts 1) earlier init (inl refl) outside in
    let known : baseline_of start t ≡ known_before earlier t =
      ap (λ v. elim v [ none ↦ or_zero t.volume | some w ↦ w ])
        (seen_after t.symbol earlier init) in
    let bar =
      extended t.symbol (open_bar (baseline_of start t) t) (update_bar t start).0 ts
        (opens t start fresh) w in
    (
      bar
          ∙ ap
              (λ v. some (record {
                bucket = floor_to_session_bucket t.ts 1;
                open_price = t.ltp;
                high = highest t.ltp (prices t.symbol ts);
                low = lowest t.ltp (prices t.symbol ts);
                close = latest t.ltp (prices t.symbol ts);
                baseline_volume = v;
              }))
              known,
      volume_of_tick (ingest (t ∷ ts) start) u _
            (ap (λ x. lookup x (ingest (t ∷ ts) start).bars) s ∙ bar) b
          ∙ ap (λ v. or_zero u.volume - v) known,
    )
