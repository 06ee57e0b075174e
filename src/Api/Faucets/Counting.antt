-- ===== src/Api/Faucets/Counting.antt =====
-- How many elements of a list pass a test.
use stacks_blockchain_rosett.Base.{
  ℕ, zero, suc, ◌≤◌, ◌≡◌, refl, inl, inr, Bool, true, false, ◌&&◌, List, [], ◌∷◌, leb,
  if◌then◌else◌, length, take, In, sort_by, insert_by, IsSortedBy, Bool-cases, arith,
}
use stacks_blockchain_rosett.Postgres.Tables.{select}

abbrev pub count : {A : Type 0} → (A → Bool) → List A → ℕ
count p xs = length (select p xs)

module _ {A : Type 0} (p : A → Bool) where
  pub count-cons :
      (x : A) (xs : List A) → count p (x ∷ xs) ≡ (if p x then suc (count p xs) else count p xs)
  unfolding select
  count-cons x xs = ground arith

  pub count-insert_by :
      (le : A → A → Bool) (x : A) (xs : List A) → count p (insert_by le x xs) ≡ count p (x ∷ xs)
  unfolding insert_by select
  count-insert_by le x [] = refl
  count-insert_by le x (y ∷ ys) =
      ground (arith, count-insert_by le x ys, count-cons x ys, count-cons y (insert_by le x ys))

  pub count-sort_by : (le : A → A → Bool) (xs : List A) → count p (sort_by le xs) ≡ count p xs
  unfolding sort_by select
  count-sort_by le [] = refl
  count-sort_by le (x ∷ xs) = ground (
    arith,
    count-insert_by le x (sort_by le xs),
    count-cons x (sort_by le xs),
    count-cons x xs,
    count-sort_by le xs,
  )

  pub count_none : (xs : List A) → ((y : A) → In y xs → p y ≡ false) → count p xs ≡ 0
  unfolding select
  count_none [] h = refl
  count_none (x ∷ xs) h = rw (h x (inl refl)) (count_none xs (λ y m. h y (inr m)))

  pub count-take-le : (n : ℕ) (xs : List A) → count p (take n xs) ≤ count p xs
  unfolding select
  count-take-le zero xs = omega arith
  count-take-le (suc n) [] = omega arith
  count-take-le (suc n) (x ∷ xs) = ground (arith, count-take-le n xs)

  -- Where what comes later passes the test only if what comes earlier does, the first `n` elements
  -- decide whether `n` of them pass.
  pub count-take :
      (le : A → A → Bool)
      → ((x y : A) → le x y ≡ true → p x ≡ false → p y ≡ false)
      → (n : ℕ) (xs : List A) → IsSortedBy le xs
      → leb n (count p (take n xs)) ≡ leb n (count p xs)
  unfolding select
  count-take le up zero xs s = ground arith
  count-take le up (suc n) [] s = refl
  count-take le up (suc n) (x ∷ xs) s = elim (Bool-cases (p x)) [
    | inl t ↦ rw t (ground (arith, count-take le up n xs s.1))
    | inr f ↦
        let none_later = count_none xs (λ y m. up x y (s.0 y m) f) in
        let fewer = count-take-le n xs in rw (f, none_later) (ground arith)
  ]

pub count-select :
    {A : Type 0} (p q : A → Bool) (xs : List A) → count q (select p xs) ≡ count (λ x. p x && q x) xs
unfolding select
count-select p q [] = refl
count-select p q (x ∷ xs) = ground (arith, count-select p q xs)

pub count_mono :
    {A : Type 0} (p q : A → Bool) (xs : List A)
    → ((x : A) → In x xs → p x ≡ true → q x ≡ true)
    → count p xs ≤ count q xs
unfolding select
count_mono p q [] h = omega arith
count_mono p q (x ∷ xs) h = ground (arith, h x (inl refl), count_mono p q xs (λ y m. h y (inr m)))
