-- ===== src/Features/Structure/Sessions/Days.antt =====
-- The sessions of a series: which candles a row is of, and the bounds of its positions.
use quant_stack.Prelude.{
  ℕ, ◌+◌, ◌*◌, ◌&&◌, ◌≤◌, ◌≡◌, refl, sym, subst, ap, ◌∙◌, Bool, true, false, Option, none, some,
  List, [], ◌∷◌, map, filterb, ◌==◌, ==_iff, anyb, ◌<◌, length-perm_step, leb, length, ltb, arith,
  All, All-map, if◌then◌else◌, Bool-cases, inl, inr,
}
use mathlib.Core.List.{Permᴰ}
use quant_stack.Prelude.Floats.{Floats}
use quant_stack.Features.Schema.{Candle}
use quant_stack.Features.Structure.Sessions.Sorting.{
  IsAscending, sort_by-All, sort_by-IsAscending, sort_by-perm,
}
use quant_stack.Features.Structure.Sessions.Grouping.{
  of_day, has_day, ArePerDay, group-ArePerDay, has_day-group, has_day-sort_by,
}
use quant_stack.Features.Structure.Sessions.{
  SessionRow, session_day, group_sessions, sort_by, session_features, rows_of, with_row,
  in_order_of_time, compute_structure_sessions,
}

-- The instant lies on the day in India, which begins 19800 seconds before that of UTC.
abbrev pub is_on_day : ℕ → ℕ → Bool
is_on_day day ts = leb (day * 86400) (ts + 19800) && ltb (ts + 19800) ((day + 1) * 86400)

session_day-on_day : (day ts : ℕ) → (session_day ts == day) ≡ is_on_day day ts
session_day-on_day day ts = ground (arith, ==_iff (session_day ts) day)

filterb-same :
    {A : Type 0} (p q : A → Bool) (xs : List A)
    → ((x : A) → p x ≡ q x)
    → filterb p xs ≡ filterb q xs
filterb-same p q [] h = refl
filterb-same p q (x ∷ xs) h = let r = filterb-same p q xs h in ground (arith, h x, r)

anyb-same :
    {A : Type 0} (p q : A → Bool) (xs : List A) → ((x : A) → p x ≡ q x) → anyb p xs ≡ anyb q xs
anyb-same p q [] h = refl
anyb-same p q (x ∷ xs) h = let r = anyb-same p q xs h in ground (arith, h x, r)

anyb_of-filterb :
    {A : Type 0} (p : A → Bool) (xs : List A) → 0 < length (filterb p xs) → anyb p xs ≡ true
anyb_of-filterb p [] h = absurd (omega arith)
anyb_of-filterb p (x ∷ xs) h = ground (arith, anyb_of-filterb p xs)

module _ {F : Type 0} (fl : Floats F) where
  ArePerDay-each :
      (cs : List (Candle F)) (sessions : List (ℕ × List (Candle F)))
      → ArePerDay cs sessions
      → All (λ s. s.1 ≡ of_day s.0 cs) sessions
  ArePerDay-each cs [] h = tt
  ArePerDay-each cs (s ∷ sessions) h = (h.0, ArePerDay-each cs sessions h.2)

  -- A row with its day: the features of bars that are the candles of that day, each as often as it stands
  -- among them and no others, none before an earlier one; there are enough of them.
  abbrev pub IsRowOf : ℕ → List (Candle F) → ℕ × SessionRow F → Type 0
  IsRowOf least cs r =
      (b : Candle F) × (bs : List (Candle F)) × IsAscending (λ c. c.ts) (b ∷ bs)
      × Permᴰ (b ∷ bs) (filterb (λ c. is_on_day r.0 c.ts) cs)
      × (least ≤ length (b ∷ bs))
      × (session_features fl b bs ≡ some r.1)

  sorted_day :
      (day : ℕ) (cs bars : List (Candle F))
      → bars ≡ sort_by (λ c. c.ts) (of_day day cs)
      → IsAscending (λ c. c.ts) bars × Permᴰ bars (filterb (λ c. is_on_day day c.ts) cs)
  sorted_day day cs bars e =
      let same =
        filterb-same (λ (c : Candle F). session_day c.ts == day) (λ c. is_on_day day c.ts) cs
          (λ c. session_day-on_day day c.ts) in
      (
        subst (IsAscending (λ c. c.ts)) (sym e) (sort_by-IsAscending (λ c. c.ts) (of_day day cs)),
        subst (λ l. Permᴰ l (filterb (λ c. is_on_day day c.ts) cs)) (sym e)
            (subst (Permᴰ (sort_by (λ c. c.ts) (of_day day cs))) same
              (sort_by-perm (λ c. c.ts) (of_day day cs))),
      )

  with_row-some :
      (day : ℕ) (r : Option (SessionRow F)) (rest : Option (List (ℕ × SessionRow F)))
      (rows : List (ℕ × SessionRow F))
      → with_row day r rest ≡ some rows
      → (row : SessionRow F) × (later : List (ℕ × SessionRow F)) × (r ≡ some row)
        × (rest ≡ some later)
        × ((day, row) ∷ later ≡ rows)
  with_row-some day none rest rows e = absurd (ground (arith, e))
  with_row-some day (some row) none rows e = absurd (ground (arith, e))
  with_row-some day (some row) (some later) rows e = (row, later, refl, refl, ground (arith, e))

  rows_of-IsRowOf :
      (least : ℕ) (cs : List (Candle F)) (sessions : List (ℕ × List (Candle F)))
      (rows : List (ℕ × SessionRow F))
      → All (λ s. s.1 ≡ sort_by (λ c. c.ts) (of_day s.0 cs)) sessions
      → rows_of fl least sessions ≡ some rows
      → All (IsRowOf least cs) rows
  unfolding rows_of
  rows_of-IsRowOf least cs [] rows h e =
      let none_left : [] ≡ rows = ground (arith, e) in subst (All (IsRowOf least cs)) none_left tt
  rows_of-IsRowOf least cs ((day, []) ∷ sessions) rows h e =
      rows_of-IsRowOf least cs sessions rows h.1 e
  rows_of-IsRowOf least cs ((day, b ∷ bs) ∷ sessions) rows h e =
      elim (Bool-cases (ltb (length (b ∷ bs)) least)) [
        | inl p ↦ rows_of-IsRowOf least cs sessions rows h.1 (
            ap
              (λ c.
                if c
                then rows_of fl least sessions
                else with_row day (session_features fl b bs) (rows_of fl least sessions))
              (sym p)
            ∙ e)
        | inr p ↦
            let (row, rest, q, t, all) =
              with_row-some day (session_features fl b bs) (rows_of fl least sessions) rows (
                ap
                  (λ c.
                    if c
                    then rows_of fl least sessions
                    else with_row day (session_features fl b bs) (rows_of fl least sessions))
                  (sym p)
                ∙ e) in
            subst (All (IsRowOf least cs)) all (
              (
                b,
                bs,
                (sorted_day day cs (b ∷ bs) h.0).0,
                (sorted_day day cs (b ∷ bs) h.0).1,
                ground (arith, p),
                q,
              ),
              rows_of-IsRowOf least cs sessions rest h.1 t,
            )
      ]

  All-mapped :
      {A B : Type 0} (P : B → Type 0) (f : A → B) (xs : List A)
      → All (λ x. P (f x)) xs
      → All P (map f xs)
  All-mapped P f [] h = tt
  All-mapped P f (x ∷ xs) h = (h.0, All-mapped P f xs h.1)

  has_day-in_order :
      (d : ℕ) (sessions : List (ℕ × List (Candle F)))
      → has_day d (map (in_order_of_time fl) sessions) ≡ has_day d sessions
  has_day-in_order d [] = refl
  has_day-in_order d (s ∷ sessions) =
      ap (λ b. if s.0 == d then true else b) (has_day-in_order d sessions)

  -- There is a row of the day.
  abbrev pub has_row : ℕ → List (ℕ × SessionRow F) → Bool
  has_row d rows = anyb (λ r. r.0 == d) rows

  -- A session that is long enough has a row.
  rows_of-has_row :
      (least d : ℕ) (sessions : List (ℕ × List (Candle F))) (rows : List (ℕ × SessionRow F))
      → All (λ s. s.0 ≡ d → (0 < length s.1) × (least ≤ length s.1)) sessions
      → has_day d sessions ≡ true
      → rows_of fl least sessions ≡ some rows
      → has_row d rows ≡ true
  unfolding rows_of
  rows_of-has_row least d [] rows h t e = absurd (ground (arith, t))
  rows_of-has_row least d ((day, []) ∷ sessions) rows h t e = elim (Bool-cases (day == d)) [
    | inl p ↦ absurd (omega (arith, (h.0 ((==_iff day d).0 p)).0))
    | inr p ↦ rows_of-has_row least d sessions rows h.1 (ground (arith, t, p)) e
  ]
  rows_of-has_row least d ((day, b ∷ bs) ∷ sessions) rows h t e =
      elim (Bool-cases (ltb (length (b ∷ bs)) least)) [
        | inl p ↦
            let other : (day == d) ≡ false = elim (Bool-cases (day == d)) [
              | inl q ↦ absurd (ground (arith, p, (h.0 ((==_iff day d).0 q)).1))
              | inr q ↦ q
            ] in
            rows_of-has_row least d sessions rows h.1 (ground (arith, t, other)) (
              ap
                (λ c.
                  if c
                  then rows_of fl least sessions
                  else with_row day (session_features fl b bs) (rows_of fl least sessions))
                (sym p)
              ∙ e)
        | inr p ↦
            let (row, later, q, f, all) =
              with_row-some day (session_features fl b bs) (rows_of fl least sessions) rows (
                ap
                  (λ c.
                    if c
                    then rows_of fl least sessions
                    else with_row day (session_features fl b bs) (rows_of fl least sessions))
                  (sym p)
                ∙ e) in
            subst (λ l. has_row d l ≡ true) all
              (elim (Bool-cases (day == d)) [
                | inl m ↦ ground (arith, m)
                | inr m ↦
                    let ih = rows_of-has_row least d sessions later h.1 (ground (arith, t, m)) f in
                    ground (arith, m, ih)
              ])
      ]

  -- How many candles lie on the day.
  abbrev pub count_on_day : ℕ → List (Candle F) → ℕ
  count_on_day day cs = length (filterb (λ c. is_on_day day c.ts) cs)

  -- Where the session pass answers, each of its rows has the features of all the candles of its day in India and of no
  -- others, in ascending order of their instants, and there are enough of them; and each day of which there are enough
  -- candles, at least one, has a row. A day in India is the 86400 seconds from 19800 seconds before the midnight of UTC.
  pub sessions_lem :
      (least : ℕ) (cs : List (Candle F)) (rows : List (ℕ × SessionRow F))
      → compute_structure_sessions fl least cs ≡ some rows
      → All (IsRowOf least cs) rows
        × ((day : ℕ)
            → 0 < count_on_day day cs
            → least ≤ count_on_day day cs
            → has_row day rows ≡ true)
  unfolding compute_structure_sessions
  sessions_lem least cs rows e =
      let grouped = group_sessions [] cs in
      let per_day = ArePerDay-each cs grouped (group-ArePerDay [] cs [] tt (λ d n. refl)) in
      let sorted_days = sort_by (λ (s : ℕ × List (Candle F)). s.0) grouped in
      let each = sort_by-All (λ s. s.0) (λ s. s.1 ≡ of_day s.0 cs) grouped per_day in
      let sessions = map (in_order_of_time fl) sorted_days in
      let in_order : All (λ s. s.1 ≡ sort_by (λ c. c.ts) (of_day s.0 cs)) sessions =
        All-mapped _ (in_order_of_time fl) sorted_days
          (All-map sorted_days (λ s h. ap (sort_by (λ (c : Candle F). c.ts)) h) each) in
      (
        rows_of-IsRowOf least cs sessions rows in_order e,
        λ day some_ enough.
            rows_of-has_row least day sessions rows
              (All-map sessions
                (λ s h d.
                  let n = length-perm_step (sorted_day s.0 cs s.1 h).1 in
                  let m : count_on_day s.0 cs ≡ count_on_day day cs =
                    ap (λ x. count_on_day x cs) d in
                  (omega (arith, n, m, some_), omega (arith, n, m, enough)))
                in_order)
              (has_day-in_order day sorted_days
                ∙ has_day-sort_by day grouped
                ∙ has_day-group day [] cs
                ∙ anyb-same (λ (c : Candle F). session_day c.ts == day) (λ c. is_on_day day c.ts) cs
                    (λ c. session_day-on_day day c.ts)
                ∙ anyb_of-filterb (λ (c : Candle F). is_on_day day c.ts) cs some_)
              e,
      )
