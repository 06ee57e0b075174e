-- ===== src/Base/Sorting.antt =====
-- A stable insertion sort by a Boolean test, descending order of keys, and pages of a list.
use Prim.Native.Nat.{ℕ, zero, suc}
use mathlib.Core.Path.{◌≡◌, refl, sym, subst}
use mathlib.Core.Logic.{◌⊎◌, inl, inr, ◌↔◌}
use mathlib.Core.Bool.{Bool, true, false}
use mathlib.Core.List.{List, [], ◌∷◌, Perm}
use mathlib.Core.List.Perm
use native.Mathlib.Omega.{arith}
use stacks_blockchain_rosett.Base.Tests.{ltb, ◌==◌, if◌then◌else◌, Bool-cases}
use stacks_blockchain_rosett.Base.Lists.{length, take, drop}
use stacks_blockchain_rosett.Base.Membership.{In}

module _ {A : Type 0} (le : A → A → Bool) where
  unfoldable pub insert_by : A → List A → List A
  insert_by x [] = x ∷ []
  insert_by x (y ∷ ys) = let rest = insert_by x ys in if le x y then x ∷ y ∷ ys else y ∷ rest

  -- Elements that the test takes for equal keep their order.
  unfoldable pub sort_by : List A → List A
  sort_by [] = []
  sort_by (x ∷ xs) = insert_by x (sort_by xs)

  abbrev pub IsSortedBy : List A → Type 0
  IsSortedBy [] = Unit
  IsSortedBy (x ∷ xs) = ((y : A) → In y xs → le x y ≡ true) × IsSortedBy xs

  pub record IsOrder : Type 0 where
    pub total : (x y : A) → le x y ≡ false → le y x ≡ true
    pub trans : (x y z : A) → le x y ≡ true → le y z ≡ true → le x z ≡ true

  pub insert_by-perm : (x : A) (ys : List A) → Perm (insert_by x ys) (x ∷ ys)
  unfolding insert_by
  insert_by-perm x [] = Perm.rfl
  insert_by-perm x (y ∷ ys) = elim (Bool-cases (le x y)) [
    | inl t ↦ rw t Perm.rfl
    | inr f ↦ rw f (Perm.trans (Perm.cons y (insert_by-perm x ys)) (Perm.swap x y ys))
  ]

  pub sort_by-perm : (xs : List A) → Perm (sort_by xs) xs
  unfolding sort_by
  sort_by-perm [] = Perm.rfl
  sort_by-perm (x ∷ xs) = Perm.trans (insert_by-perm x (sort_by xs)) (Perm.cons x (sort_by-perm xs))

  pub In-insert_by : (z x : A) (ys : List A) → In z (insert_by x ys) ↔ ((z ≡ x) ⊎ In z ys)
  unfolding insert_by
  In-insert_by z x [] = (λ m. m, λ m. m)
  In-insert_by z x (y ∷ ys) = elim (Bool-cases (le x y)) [
    | inl t ↦ rw t (λ m. m, λ m. m)
    | inr f ↦
        let r = In-insert_by z x ys in
        rw f (
          λ m. elim m [
            | inl e ↦ inr (inl e)
            | inr n ↦ elim (r.0 n) [ inl e ↦ inl e | inr o ↦ inr (inr o) ]
          ],
          λ m. elim m [
            | inl e ↦ inr (r.1 (inl e))
            | inr (inl e) ↦ inl e
            | inr (inr o) ↦ inr (r.1 (inr o))
          ],
        )
  ]

  pub In-sort_by : (z : A) (xs : List A) → In z (sort_by xs) ↔ In z xs
  unfolding sort_by
  In-sort_by z [] = (λ m. m, λ m. m)
  In-sort_by z (x ∷ xs) =
      let here = In-insert_by z x (sort_by xs) in
      let rest = In-sort_by z xs in
      (
        λ m. elim (here.0 m) [ inl e ↦ inl e | inr n ↦ inr (rest.0 n) ],
        λ m. elim m [ inl e ↦ here.1 (inl e) | inr n ↦ here.1 (inr (rest.1 n)) ],
      )

  pub length-insert_by : (x : A) (ys : List A) → length (insert_by x ys) ≡ suc (length ys)
  unfolding insert_by
  length-insert_by x [] = refl
  length-insert_by x (y ∷ ys) = elim (Bool-cases (le x y)) [
    | inl t ↦ rw t
    | inr f ↦ rw f (omega (arith, length-insert_by x ys))
  ]

  pub length-sort_by : (xs : List A) → length (sort_by xs) ≡ length xs
  unfolding sort_by
  length-sort_by [] = refl
  length-sort_by (x ∷ xs) = omega (arith, length-insert_by x (sort_by xs), length-sort_by xs)

  pub insert_by-IsSortedBy :
      (x : A) (ys : List A) → IsOrder → IsSortedBy ys → IsSortedBy (insert_by x ys)
  unfolding insert_by
  insert_by-IsSortedBy x [] o s = (λ y m. absurd m, tt)
  insert_by-IsSortedBy x (y ∷ ys) o s = elim (Bool-cases (le x y)) [
    | inl t ↦ rw t (
      λ z m. elim m [
        | inl e ↦ subst (λ w. le x w ≡ true) (sym e) t
        | inr n ↦ o.trans x y z t (s.0 z n)
      ],
      s,
    )
    | inr f ↦ rw f (
      λ z m. elim ((In-insert_by z x ys).0 m) [
        | inl e ↦ subst (λ w. le y w ≡ true) (sym e) (o.total x y f)
        | inr n ↦ s.0 z n
      ],
      insert_by-IsSortedBy x ys o s.1,
    )
  ]

  pub sort_by-IsSortedBy : (xs : List A) → IsOrder → IsSortedBy (sort_by xs)
  unfolding sort_by
  sort_by-IsSortedBy [] o = tt
  sort_by-IsSortedBy (x ∷ xs) o = insert_by-IsSortedBy x (sort_by xs) o (sort_by-IsSortedBy xs o)

-- Whether a key comes no later than another in descending order, the first component first.
unfoldable pub desc : List ℕ → List ℕ → Bool
desc [] b = true
desc (x ∷ a) [] = false
desc (x ∷ a) (y ∷ b) =
    let rest = desc a b in if ltb y x then true else if x == y then rest else false

desc_total : (a b : List ℕ) → desc a b ≡ false → desc b a ≡ true
unfolding desc
desc_total [] b h = ground arith
desc_total (x ∷ a) [] h = refl
desc_total (x ∷ a) (y ∷ b) h = ground (arith, desc_total a b)

desc_trans : (a b c : List ℕ) → desc a b ≡ true → desc b c ≡ true → desc a c ≡ true
unfolding desc
desc_trans [] b c h k = refl
desc_trans (x ∷ a) [] c h k = ground arith
desc_trans (x ∷ a) (y ∷ b) [] h k = ground arith
desc_trans (x ∷ a) (y ∷ b) (z ∷ c) h k = ground (arith, desc_trans a b c)

module _ {A : Type 0} (key : A → List ℕ) where
  abbrev pub by_key : A → A → Bool
  by_key x y = desc (key x) (key y)

  -- `ORDER BY … DESC` on the components of the key; rows with one key keep the table's order.
  unfoldable pub order_by : List A → List A
  order_by = sort_by by_key

  pub In-order_by : (z : A) (xs : List A) → In z (order_by xs) ↔ In z xs
  unfolding order_by
  In-order_by z xs = In-sort_by by_key z xs

  pub by_key-IsOrder : IsOrder by_key
  by_key-IsOrder = record {
    total = λ x y h. desc_total (key x) (key y) h;
    trans = λ x y z h k. desc_trans (key x) (key y) (key z) h k;
  }

-- `LIMIT limit OFFSET offset`
abbrev pub page : {A : Type 0} → ℕ → ℕ → List A → List A
page limit offset xs = take limit (drop offset xs)

pub In-take : {A : Type 0} (x : A) (n : ℕ) (xs : List A) → In x (take n xs) → In x xs
In-take x zero xs i = absurd i
In-take x (suc n) [] i = absurd i
In-take x (suc n) (y ∷ ys) (inl e) = inl e
In-take x (suc n) (y ∷ ys) (inr i) = inr (In-take x n ys i)

In-drop : {A : Type 0} (x : A) (n : ℕ) (xs : List A) → In x (drop n xs) → In x xs
In-drop x zero xs i = i
In-drop x (suc n) [] i = absurd i
In-drop x (suc n) (y ∷ ys) i = inr (In-drop x n ys i)

pub In-page :
    {A : Type 0} (x : A) (limit offset : ℕ) (xs : List A) → In x (page limit offset xs) → In x xs
In-page x limit offset xs i = In-drop x offset xs (In-take x limit (drop offset xs) i)
