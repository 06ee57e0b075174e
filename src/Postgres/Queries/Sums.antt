-- ===== src/Postgres/Queries/Sums.antt =====
-- Sums over the rows of a table, taken by parts: the order of two sums, and rows that one address meets.
use stacks_blockchain_rosett.Base.{
  ℕ, ◌+◌, ◌≡◌, refl, ap, ◌∙◌, sym, inl, inr, Bool, false, ◌&&◌, List, [], ◌∷◌, In, Bool-cases,
  same_text, same_text-eq, same_text_refl, subst, if◌then◌else◌, arith,
}
use stacks_blockchain_rosett.Wire.Signed.{ℤ, pos_part, neg_part, +ℤ_parts}
use stacks_blockchain_rosett.Wire.Tx.{Text}
use stacks_blockchain_rosett.Postgres.Tables.{select}
use stacks_blockchain_rosett.Postgres.Queries.Lists.{bit}
use stacks_blockchain_rosett.Postgres.Queries.Balances.{sum_of}

module _ {A : Type 0} where
  pub select-select :
      (p q : A → Bool) (xs : List A) → select p (select q xs) ≡ select (λ x. q x && p x) xs
  unfolding select
  select-select p q [] = refl
  select-select p q (x ∷ xs) = elim (Bool-cases (q x)) [
    | inl t ↦ elim (Bool-cases (p x)) [
      | inl u ↦ rw (t, u, select-select p q xs) refl
      | inr u ↦ rw (t, u, select-select p q xs) refl
    ]
    | inr f ↦ rw (f, select-select p q xs) refl
  ]

  unfoldable pub sum_ℕ : (A → ℕ) → List A → ℕ
  sum_ℕ g [] = 0
  sum_ℕ g (x ∷ xs) = g x + sum_ℕ g xs

  unfoldable pub count : (A → Bool) → List A → ℕ
  count p [] = 0
  count p (x ∷ xs) = bit (p x) + count p xs

  -- A sum of integers from the sums of their parts.
  pub sum_of_parts :
      (f : A → ℤ) (xs : List A)
      → pos_part (sum_of f xs) + sum_ℕ (λ x. neg_part (f x)) xs
        ≡ sum_ℕ (λ x. pos_part (f x)) xs + neg_part (sum_of f xs)
  unfolding sum_of sum_ℕ
  sum_of_parts f [] = refl
  sum_of_parts f (x ∷ xs) = omega (arith, +ℤ_parts (f x) (sum_of f xs), sum_of_parts f xs)

module _ {A E : Type 0} (g : E → ℕ) (hit : A → E → Bool) where
  sum_ℕ-zero : (as_ : List A) → sum_ℕ (λ a. sum_ℕ g (select (hit a) [])) as_ ≡ 0
  unfolding sum_ℕ select
  sum_ℕ-zero [] = refl
  sum_ℕ-zero (a ∷ as_) = omega (arith, sum_ℕ-zero as_)

  -- What one row adds to the sums of all addresses.
  weight : E → List A → ℕ
  weight e as_ = sum_ℕ (λ a. if hit a e then g e else 0) as_

  weight-step :
      (e : E) (es : List E) (as_ : List A)
      → sum_ℕ (λ a. sum_ℕ g (select (hit a) (e ∷ es))) as_
        ≡ weight e as_ + sum_ℕ (λ a. sum_ℕ g (select (hit a) es)) as_
  unfolding sum_ℕ select weight
  weight-step e es [] = refl
  weight-step e es (a ∷ as_) = elim (Bool-cases (hit a e)) [
    | inl t ↦ rw t (omega (arith, weight-step e es as_))
    | inr f ↦ rw f (omega (arith, weight-step e es as_))
  ]

  weight-none : (e : E) (as_ : List A) → count (λ a. hit a e) as_ ≡ 0 → weight e as_ ≡ 0
  unfolding count weight sum_ℕ
  weight-none e [] h = refl
  weight-none e (a ∷ as_) h = elim (Bool-cases (hit a e)) [
    | inl t ↦ let k : 1 + count (λ b. hit b e) as_ ≡ 0 = rw t at h in absurd (omega (arith, k))
    | inr f ↦
        let k : 0 + count (λ b. hit b e) as_ ≡ 0 = rw f at h in
        rw f (omega (arith, weight-none e as_ (omega (arith, k))))
  ]

  weight-one : (e : E) (as_ : List A) → count (λ a. hit a e) as_ ≡ 1 → weight e as_ ≡ g e
  unfolding count weight sum_ℕ
  weight-one e [] h = absurd (omega (arith, h))
  weight-one e (a ∷ as_) h = elim (Bool-cases (hit a e)) [
    | inl t ↦
        let k : 1 + count (λ b. hit b e) as_ ≡ 1 = rw t at h in
        rw t (omega (arith, weight-none e as_ (omega (arith, k))))
    | inr f ↦
        let k : 0 + count (λ b. hit b e) as_ ≡ 1 = rw f at h in
        rw f (omega (arith, weight-one e as_ (omega (arith, k))))
  ]

  -- Where each row that `q` selects is met by one address and each other row by none, the sums of
  -- the addresses add up to the sum of the rows that `q` selects.
  pub sum_of_sums :
      (q : E → Bool) (as_ : List A) (es : List E)
      → ((e : E) → In e es → count (λ a. hit a e) as_ ≡ bit (q e))
      → sum_ℕ (λ a. sum_ℕ g (select (hit a) es)) as_ ≡ sum_ℕ g (select q es)
  unfolding sum_ℕ select
  sum_of_sums q as_ [] h = sum_ℕ-zero as_
  sum_of_sums q as_ (e ∷ es) h =
      let rest = sum_of_sums q as_ es (λ x m. h x (inr m)) in
      weight-step e es as_ ∙ (elim (Bool-cases (q e)) [
        | inl t ↦
            let one : weight e as_ ≡ g e = weight-one e as_ (h e (inl refl) ∙ ap bit t) in
            rw t (omega (arith, one, rest))
        | inr f ↦
            let none_ : weight e as_ ≡ 0 = weight-none e as_ (h e (inl refl) ∙ ap bit f) in
            rw f (omega (arith, none_, rest))
      ])

-- A list that holds each text once.
abbrev pub IsDistinct : List Text → Type 0
IsDistinct [] = Unit
IsDistinct (t ∷ ts) = (In t ts → ⊥) × IsDistinct ts

count-absent : (t : Text) (ts : List Text) → (In t ts → ⊥) → count (λ a. same_text t a) ts ≡ 0
unfolding count
count-absent t [] h = refl
count-absent t (u ∷ ts) h = elim (Bool-cases (same_text t u)) [
  | inl e ↦ absurd (h (inl (same_text-eq t u e)))
  | inr f ↦ rw f (omega (arith, count-absent t ts (λ m. h (inr m))))
]

pub count-present :
    (t : Text) (ts : List Text) → IsDistinct ts → In t ts → count (λ a. same_text t a) ts ≡ 1
unfolding count
count-present t (u ∷ ts) d (inl e) =
    rw (sym e, same_text_refl t)
      (omega (arith, count-absent t ts (subst (λ x. In x ts → ⊥) (sym e) d.0)))
count-present t (u ∷ ts) d (inr m) = elim (Bool-cases (same_text t u)) [
  | inl e ↦ absurd (d.0 (subst (λ x. In x ts) (same_text-eq t u e) m))
  | inr f ↦ rw f (omega (arith, count-present t ts d.1 m))
]
count-present t [] d m = absurd m

pub count-congruent :
    {A : Type 0} (p q : A → Bool) (xs : List A) → ((x : A) → p x ≡ q x) → count p xs ≡ count q xs
unfolding count
count-congruent p q [] h = refl
count-congruent p q (x ∷ xs) h = rw (h x, count-congruent p q xs h) refl

pub count-never : {A : Type 0} (xs : List A) → count (λ x. false) xs ≡ 0
unfolding count
count-never [] = refl
count-never (x ∷ xs) = omega (arith, count-never xs)

pub select_step :
    {A : Type 0} (g : A → ℕ) (q : A → Bool) (x : A) (xs : List A)
    → sum_ℕ g (select q (x ∷ xs)) ≡ (if q x then g x else 0) + sum_ℕ g (select q xs)
unfolding sum_ℕ select
select_step g q x xs = elim (Bool-cases (q x)) [ inl t ↦ rw t refl | inr f ↦ rw f (omega arith) ]

pub sum_ℕ-plus :
    {A : Type 0} (u v : A → ℕ) (xs : List A) → sum_ℕ (λ x. u x + v x) xs ≡ sum_ℕ u xs + sum_ℕ v xs
unfolding sum_ℕ
sum_ℕ-plus u v [] = refl
sum_ℕ-plus u v (x ∷ xs) = omega (arith, sum_ℕ-plus u v xs)

pub sum_ℕ-nothing : {A : Type 0} (xs : List A) → sum_ℕ (λ x. 0) xs ≡ 0
unfolding sum_ℕ
sum_ℕ-nothing [] = refl
sum_ℕ-nothing (x ∷ xs) = omega (arith, sum_ℕ-nothing xs)

-- A sum of integers each of which is the difference of two numbers.
pub sum_of_differences :
    {A : Type 0} (f : A → ℤ) (u v : A → ℕ)
    → ((x : A) → pos_part (f x) + v x ≡ u x + neg_part (f x))
    → (xs : List A) → pos_part (sum_of f xs) + sum_ℕ v xs ≡ sum_ℕ u xs + neg_part (sum_of f xs)
unfolding sum_of sum_ℕ
sum_of_differences f u v h [] = refl
sum_of_differences f u v h (x ∷ xs) =
    omega (arith, +ℤ_parts (f x) (sum_of f xs), h x, sum_of_differences f u v h xs)
