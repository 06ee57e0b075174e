-- ===== src/Base/Membership.antt =====
-- Membership in a list with its witness kept, and how `map` acts on it.
use mathlib.Core.Path.{◌≡◌, refl, ap}
use mathlib.Core.Logic.{◌⊎◌, ◌↔◌, inl, inr}
use mathlib.Core.List.{List, [], ◌∷◌, ◌++◌, map}

module _ {A : Type 0} where
  abbrev pub In : A → List A → Type 0
  In x [] = ⊥
  In x (y ∷ ys) = (x ≡ y) ⊎ In x ys

module _ {A B : Type 0} (f : A → B) where
  pub In-map : (x : A) (xs : List A) → In x xs → In (f x) (map f xs)
  In-map x (y ∷ ys) (inl e) = inl (ap f e)
  In-map x (y ∷ ys) (inr h) = inr (In-map x ys h)
  In-map x [] h = absurd h

  pub In-map_inv : (y : B) (xs : List A) → In y (map f xs) → (x : A) × In x xs × (y ≡ f x)
  In-map_inv y [] h = absurd h
  In-map_inv y (x ∷ xs) (inl e) = (x, inl refl, e)
  In-map_inv y (x ∷ xs) (inr h) = let r = In-map_inv y xs h in (r.0, inr r.1, r.2)

  -- Behind a list with one more element at its end.
  pub In-map_snoc :
      (y : B) (xs : List A) (x : A) → In y (map f (xs ++ x ∷ [])) ↔ (In y (map f xs) ⊎ (y ≡ f x))
  In-map_snoc y [] x = (
    λ m. elim m [ inl e ↦ inr e | inr n ↦ absurd n ],
    λ m. elim m [ inl n ↦ absurd n | inr e ↦ inl e ],
  )
  In-map_snoc y (z ∷ xs) x =
      let r = In-map_snoc y xs x in
      (
        λ m. elim m [
          | inl e ↦ inl (inl e)
          | inr n ↦ elim (r.0 n) [ inl o ↦ inl (inr o) | inr e ↦ inr e ]
        ],
        λ m. elim m [
          | inl (inl e) ↦ inl e
          | inl (inr o) ↦ inr (r.1 (inl o))
          | inr e ↦ inr (r.1 (inr e))
        ],
      )
