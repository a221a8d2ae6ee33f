-- ===== src/Features/Structure/Sessions/Sorting.antt =====
-- The sort by a key, of the sessions by their days and of the bars by their instants.
use mathlib.Core.List.Permᴰ
use mathlib.Core.List.{Permᴰ}
use quant_stack.Prelude.{
  ℕ, ◌≤◌, refl, List, [], ◌∷◌, leb, arith, All, All-map, Bool-cases, inl, inr,
}
use quant_stack.Features.Structure.Sessions.{insert_by, sort_by}

module _ {A : Type 0} (key : A → ℕ) where
  -- No element has a smaller key than one before it.
  abbrev pub IsAscending : List A → Type 0
  IsAscending [] = Unit
  IsAscending (x ∷ xs) = All (λ y. key x ≤ key y) xs × IsAscending xs

  pub insert_by-All :
      (P : A → Type 0) (a : A) (xs : List A) → P a → All P xs → All P (insert_by key a xs)
  unfolding insert_by
  insert_by-All P a [] p h = (p, tt)
  insert_by-All P a (x ∷ xs) p h = elim (Bool-cases (leb (key a) (key x))) [
    | inl e ↦ rw e (p, h)
    | inr e ↦ rw e (h.0, insert_by-All P a xs p h.1)
  ]

  pub sort_by-All : (P : A → Type 0) (xs : List A) → All P xs → All P (sort_by key xs)
  unfolding sort_by
  sort_by-All P [] h = tt
  sort_by-All P (x ∷ xs) h = insert_by-All P x (sort_by key xs) h.0 (sort_by-All P xs h.1)

  insert_by-IsAscending : (a : A) (xs : List A) → IsAscending xs → IsAscending (insert_by key a xs)
  unfolding insert_by
  insert_by-IsAscending a [] h = (tt, tt)
  insert_by-IsAscending a (x ∷ xs) h = elim (Bool-cases (leb (key a) (key x))) [
    | inl e ↦
        let le : key a ≤ key x = ground (arith, e) in
        rw e ((le, All-map xs (λ y l. omega (arith, le, l)) h.0), h)
    | inr e ↦
        let le : key x ≤ key a = ground (arith, e) in
        rw e (insert_by-All (λ y. key x ≤ key y) a xs le h.0, insert_by-IsAscending a xs h.1)
  ]

  pub sort_by-IsAscending : (xs : List A) → IsAscending (sort_by key xs)
  unfolding sort_by
  sort_by-IsAscending [] = tt
  sort_by-IsAscending (x ∷ xs) = insert_by-IsAscending x (sort_by key xs) (sort_by-IsAscending xs)

  insert_by-perm : (a : A) (xs : List A) → Permᴰ (insert_by key a xs) (a ∷ xs)
  unfolding insert_by
  insert_by-perm a [] = Permᴰ.cons refl Permᴰ.nil
  insert_by-perm a (x ∷ xs) = elim (Bool-cases (leb (key a) (key x))) [
    | inl e ↦ rw e (Permᴰ.refl (a ∷ x ∷ xs))
    | inr e ↦ rw e (Permᴰ.trans (Permᴰ.cons refl (insert_by-perm a xs)) (Permᴰ.swap refl refl))
  ]

  pub sort_by-perm : (xs : List A) → Permᴰ (sort_by key xs) xs
  unfolding sort_by
  sort_by-perm [] = Permᴰ.nil
  sort_by-perm (x ∷ xs) =
      Permᴰ.trans (insert_by-perm x (sort_by key xs)) (Permᴰ.cons refl (sort_by-perm xs))
