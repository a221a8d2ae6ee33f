-- ===== src/Features/Registry/Keys.antt =====
-- The names of the registry, the arrows between them, and where the topological sort starts.
use quant_stack.Prelude.{
  ◌≤◌, ◌<◌, ◌≡◌, ◌∙◌, String, false, List, [], ◌∷◌, arith, str_eq, eq_iff, eq_refl, is_none,
  filterb, ◌==◌, if◌then◌else◌, Bool-cases, inl, inr, All, All-map, All-append,
}
use quant_stack.Prelude.Dict.{lookup, insert}
use quant_stack.Features.Registry.{
  FeatureDefinition, FeatureRegistry, register, register_all, names_of, arrows_to, arrows_from,
  arrows, in_degree, start_of, count,
}
use quant_stack.Features.Registry.Counts.{count-sort_names, count-filterb, pending-nil}
use quant_stack.Features.Registry.Progress.{IsKept}

-- No name is registered twice.
abbrev pub IsDict : FeatureRegistry → Type 0
IsDict r = (n : String) → count n (names_of r) ≤ 1

count-insert :
    (n k : String) (d : FeatureDefinition) (r : FeatureRegistry)
    → count n (names_of (insert k d r)) ≡ (
        if str_eq k n
        then (if count n (names_of r) == 0 then 1 else count n (names_of r))
        else count n (names_of r))
unfolding insert
count-insert n k d [] = ground arith
count-insert n k d ((j, e) ∷ r) =
    let rest = count-insert n k d r in ground (arith, rest, eq_iff j k, eq_iff j n, eq_iff k n)

register-IsDict : (d : FeatureDefinition) (r : FeatureRegistry) → IsDict r → IsDict (register d r)
unfolding register
register-IsDict d r h n = ground (arith, h n, count-insert n d.feature_name d r)

pub register_all-IsDict :
    (r : FeatureRegistry) (ds : List FeatureDefinition) → IsDict r → IsDict (register_all r ds)
unfolding register_all
register_all-IsDict r [] h = h
register_all-IsDict r (d ∷ ds) h = register_all-IsDict (register d r) ds (register-IsDict d r h)

keys-named : (r : FeatureRegistry) → All (λ e. 0 < count e.0 (names_of r)) r
keys-named [] = tt
keys-named ((k, d) ∷ r) =
    (ground (arith, eq_refl k), All-map r (λ e h. ground (arith, h)) (keys-named r))

lookup-named :
    (n : String) (r : FeatureRegistry) → is_none (lookup n r) ≡ false → 0 < count n (names_of r)
unfolding lookup
lookup-named n [] h = ground (arith, h)
lookup-named n ((k, d) ∷ r) h = let rest = lookup-named n r in ground (arith, h, rest)

-- An arrow goes from a registered name to a registered name.
abbrev pub AreBetween : List String → List (String × String) → Type 0
AreBetween names es = All (λ e. (0 < count e.0 names) × (0 < count e.1 names)) es

arrows_to-AreBetween :
    (r : FeatureRegistry) (name : String) (us : List String)
    → 0 < count name (names_of r)
    → AreBetween (names_of r) (arrows_to r name us)
unfolding arrows_to
arrows_to-AreBetween r name [] h = tt
arrows_to-AreBetween r name (u ∷ us) h = elim (Bool-cases (is_none (lookup u r))) [
  | inl e ↦ rw e (arrows_to-AreBetween r name us h)
  | inr e ↦ rw e ((lookup-named u r e, h), arrows_to-AreBetween r name us h)
]

arrows_from-AreBetween :
    (r ds : FeatureRegistry)
    → All (λ e. 0 < count e.0 (names_of r)) ds
    → AreBetween (names_of r) (arrows_from r ds)
unfolding arrows_from
arrows_from-AreBetween r [] h = tt
arrows_from-AreBetween r ((k, d) ∷ ds) h =
    All-append _ (arrows_to r k d.dependencies) (arrows_from r ds)
      (arrows_to-AreBetween r k d.dependencies h.0) (arrows_from-AreBetween r ds h.1)

pub arrows-AreBetween : (r : FeatureRegistry) → AreBetween (names_of r) (arrows r)
unfolding arrows
arrows-AreBetween r = arrows_from-AreBetween r r (keys-named r)

pub start-IsKept : (r : FeatureRegistry) → IsDict r → IsKept (arrows r) (names_of r) [] (start_of r)
unfolding start_of
start-IsKept r h =
    let queued : (n : String)
        → count n (start_of r).queue
          ≡ (if in_degree (arrows r) n == 0 then count n (names_of r) else 0) =
      λ n.
        count-sort_names n (filterb (λ m. in_degree (arrows r) m == 0) (names_of r))
        ∙ count-filterb n (λ m. in_degree (arrows r) m == 0) (names_of r) in
    record {
      counted = λ n. ground (arith, pending-nil n (arrows r));
      single = λ n. ground (arith, h n, queued n);
      free = λ n p. ground (arith, p, queued n);
      named = λ n p. ground (arith, p, queued n);
      offered = λ n p z. ground (arith, p, z, queued n);
      ready = tt;
    }
