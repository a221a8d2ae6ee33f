-- ===== src/Features/Registry/Counts.antt =====
-- Counting names: in sorted and joined lists, and the arrows that are still open.
use quant_stack.Prelude.{
  ℕ, suc, ◌+◌, ◌≤◌, ◌<◌, ◌≡◌, refl, ap, ◌∙◌, String, Bool, List, [], ◌∷◌, ◌++◌, arith, str_eq,
  eq_iff, filterb, ◌==◌, if◌then◌else◌, Bool-cases, inl, inr,
}
use quant_stack.Features.Registry.{count, insert_name, sort_names, str_le, in_degree, dependents}

pub count-append : (n : String) (xs ys : List String) → count n (xs ++ ys) ≡ count n xs + count n ys
count-append n [] ys = omega arith
count-append n (x ∷ xs) ys = ground (arith, count-append n xs ys)

count-insert_name :
    (n m : String) (xs : List String) → count n (insert_name m xs) ≡ count n (m ∷ xs)
unfolding insert_name
count-insert_name n m [] = refl
count-insert_name n m (x ∷ xs) = elim (Bool-cases (str_le m x)) [
  | inl p ↦ ground (arith, p)
  | inr p ↦ let e = count-insert_name n m xs in ground (arith, p, e)
]

pub count-sort_names : (n : String) (xs : List String) → count n (sort_names xs) ≡ count n xs
unfolding sort_names
count-sort_names n [] = refl
count-sort_names n (x ∷ xs) =
    count-insert_name n x (sort_names xs) ∙ (let e = count-sort_names n xs in ground (arith, e))

pub count-filterb :
    (n : String) (test : String → Bool) (xs : List String)
    → count n (filterb test xs) ≡ (if test n then count n xs else 0)
count-filterb n test [] = ground arith
count-filterb n test (x ∷ xs) = elim (Bool-cases (str_eq x n)) [
  | inl p ↦
      let q : x ≡ n = ground (arith, p, eq_iff x n) in
      let e = count-filterb n test xs in
      let t : test x ≡ test n = ap test q in ground (arith, p, e, t)
  | inr p ↦ let e = count-filterb n test xs in ground (arith, p, e)
]

-- The arrows into a name from names that are not done.
abbrev pub pending : String → List String → List (String × String) → ℕ
pending n done [] = 0
pending n done ((upstream, name) ∷ es) =
    if str_eq name n
    then (if count upstream done == 0 then suc (pending n done es) else pending n done es)
    else pending n done es

pub pending-nil : (n : String) (es : List (String × String)) → pending n [] es ≡ in_degree es n
unfolding in_degree
pending-nil n [] = refl
pending-nil n ((u, m) ∷ es) = let e = pending-nil n es in ground (arith, e)

-- A name that gets done closes its arrows.
pub pending-done :
    (n u : String) (done : List String) (es : List (String × String))
    → count u done ≡ 0
    → pending n done es ≡ pending n (done ++ u ∷ []) es + count n (dependents es u)
unfolding dependents
pending-done n u done [] h = refl
pending-done n u done ((v, m) ∷ es) h =
    let e = pending-done n u done es h in
    let c = count-append v done (u ∷ []) in ground (arith, e, c, eq_iff v u, eq_iff u v, h)

-- How many names are not in the order.
abbrev pub unplaced : List String → List String → ℕ
unplaced done [] = 0
unplaced done (m ∷ ms) = if count m done == 0 then suc (unplaced done ms) else unplaced done ms

pub unplaced_mono :
    (done : List String) (n : String) (ms : List String)
    → unplaced (done ++ n ∷ []) ms ≤ unplaced done ms
unplaced_mono done n [] = omega arith
unplaced_mono done n (m ∷ ms) =
    let rest = unplaced_mono done n ms in
    let c = count-append m done (n ∷ []) in ground (arith, rest, c)

pub unplaced-placed :
    (done : List String) (n : String) (ms : List String)
    → count n done ≡ 0
    → 0 < count n ms
    → unplaced (done ++ n ∷ []) ms < unplaced done ms
unplaced-placed done n [] f p = absurd (omega (arith, p))
unplaced-placed done n (m ∷ ms) f p =
    let rest = unplaced-placed done n ms f in
    let mono = unplaced_mono done n ms in
    let c = count-append m done (n ∷ []) in
    ground (arith, p, f, rest, mono, c, eq_iff m n, eq_iff n m)
