-- ===== src/Base/Permutations.antt =====
-- What a permutation of a list leaves: its elements, its length, and what it sorts to.
use Prim.Native.Nat.{suc}
use mathlib.Core.Path.{◌≡◌, refl, sym, ap, ap₂, ◌∙◌}
use mathlib.Core.Logic.{inl, inr}
use mathlib.Core.Bool.{Bool, true, false, false≢true}
use mathlib.Core.List.{List, [], ◌∷◌, Permᴰ}
use mathlib.Core.List.Permᴰ
use stacks_blockchain_rosett.Base.Tests.{Bool-cases}
use stacks_blockchain_rosett.Base.Lists.{length}
use stacks_blockchain_rosett.Base.Membership.{In}
use stacks_blockchain_rosett.Base.Sorting.{insert_by, sort_by, IsOrder}

module _ {A : Type 0} where
  pub In-perm : {xs ys : List A} (z : A) → Permᴰ xs ys → In z xs → In z ys
  In-perm z Permᴰ.nil m = m
  In-perm z (Permᴰ.cons e d) (inl h) = inl (h ∙ e)
  In-perm z (Permᴰ.cons e d) (inr m) = inr (In-perm z d m)
  In-perm z (Permᴰ.swap e f) (inl h) = inr (inl (h ∙ e))
  In-perm z (Permᴰ.swap e f) (inr (inl h)) = inl (h ∙ f)
  In-perm z (Permᴰ.swap e f) (inr (inr m)) = inr (inr m)
  In-perm z (Permᴰ.trans d c) m = In-perm z c (In-perm z d m)

  pub length-perm : {xs ys : List A} → Permᴰ xs ys → length xs ≡ length ys
  length-perm Permᴰ.nil = refl
  length-perm (Permᴰ.cons e d) = ap suc (length-perm d)
  length-perm (Permᴰ.swap e f) = refl
  length-perm (Permᴰ.trans d c) = length-perm d ∙ length-perm c

module _ {A : Type 0} (le : A → A → Bool) (o : IsOrder le) where
  insert_first : (x y : A) (ys : List A) → le x y ≡ true → insert_by le x (y ∷ ys) ≡ x ∷ y ∷ ys
  unfolding insert_by
  insert_first x y ys h = rw h refl

  insert_later :
      (x y : A) (ys : List A) → le x y ≡ false → insert_by le x (y ∷ ys) ≡ y ∷ insert_by le x ys
  unfolding insert_by
  insert_later x y ys h = rw h refl

  insert_one : (x : A) → insert_by le x [] ≡ x ∷ []
  unfolding insert_by
  insert_one x = refl

  -- Two elements that each come no later than what follows, in front of it in either order.
  swap_front :
      (x y : A) (s : List A)
      → (le x y ≡ true → le y x ≡ true → x ≡ y)
      → insert_by le x s ≡ x ∷ s
      → insert_by le y s ≡ y ∷ s
      → insert_by le x (y ∷ s) ≡ insert_by le y (x ∷ s)
  swap_front x y s same hx hy = elim (Bool-cases (le x y)) [
    | inl a ↦ elim (Bool-cases (le y x)) [
      | inl b ↦ let e = same a b in ap₂ (λ u v. insert_by le u (v ∷ s)) e (sym e)
      | inr b ↦ insert_first x y s a ∙ sym (insert_later y x s b ∙ ap (◌∷◌ x) hy)
    ]
    | inr a ↦ insert_later x y s a ∙ (ap (◌∷◌ y) hx ∙ sym (insert_first y x s (o.total x y a)))
  ]

  not_before : (x y z : A) → le x z ≡ true → le y z ≡ false → le y x ≡ false
  not_before x y z h k = elim (Bool-cases (le y x)) [
    | inl a ↦ absurd (false≢true (sym k ∙ o.trans y x z a h))
    | inr b ↦ b
  ]

  -- Elements that are equal where the order does not tell them apart can be inserted in either order.
  insert_by_comm :
      (x y : A) (zs : List A)
      → (le x y ≡ true → le y x ≡ true → x ≡ y)
      → insert_by le x (insert_by le y zs) ≡ insert_by le y (insert_by le x zs)
  insert_by_comm x y [] same =
      ap (insert_by le x) (insert_one y)
      ∙ (swap_front x y [] same (insert_one x) (insert_one y)
          ∙ ap (insert_by le y) (sym (insert_one x)))
  insert_by_comm x y (z ∷ zs) same = elim (Bool-cases (le x z)) [
    | inl a ↦
        let fx = insert_first x z zs a in
        elim (Bool-cases (le y z)) [
          | inl b ↦
              let fy = insert_first y z zs b in
              ap (insert_by le x) fy
              ∙ (swap_front x y (z ∷ zs) same fx fy ∙ ap (insert_by le y) (sym fx))
          | inr b ↦ one_behind x y z zs a b
        ]
    | inr a ↦ elim (Bool-cases (le y z)) [
      | inl b ↦ sym (one_behind y x z zs b a)
      | inr b ↦
          ap (insert_by le x) (insert_later y z zs b)
          ∙ (insert_later x z (insert_by le y zs) a
              ∙ (ap (◌∷◌ z) (insert_by_comm x y zs same)
                  ∙ sym (
                      ap (insert_by le y) (insert_later x z zs a)
                      ∙ insert_later y z (insert_by le x zs) b)))
    ]
  ]
    where
      one_behind :
          (u v w : A) (ws : List A)
          → le u w ≡ true
          → le v w ≡ false
          → insert_by le u (insert_by le v (w ∷ ws)) ≡ insert_by le v (insert_by le u (w ∷ ws))
      one_behind u v w ws h k =
          ap (insert_by le u) (insert_later v w ws k)
          ∙ (insert_first u w (insert_by le v ws) h
              ∙ sym (
                  ap (insert_by le v) (insert_first u w ws h)
                  ∙ (insert_later v u (w ∷ ws) (not_before u v w h k)
                      ∙ ap (◌∷◌ u) (insert_later v w ws k))))

  -- Lists with the same elements sort to the same, if the order tells the elements apart.
  pub sort_by-perm_eq :
      {xs ys : List A}
      → Permᴰ xs ys
      → ((a b : A) → In a xs → In b xs → le a b ≡ true → le b a ≡ true → a ≡ b)
      → sort_by le xs ≡ sort_by le ys
  unfolding sort_by
  sort_by-perm_eq Permᴰ.nil same = refl
  sort_by-perm_eq (Permᴰ.cons e d) same =
      ap₂ (insert_by le) e (sort_by-perm_eq d (λ a b m n. same a b (inr m) (inr n)))
  sort_by-perm_eq (Permᴰ.swap {a = a} {b = b} {l = l} e f) same =
      insert_by_comm a b (sort_by le l) (same a b (inl refl) (inr (inl refl)))
      ∙ ap₂ (λ u v. insert_by le u (insert_by le v (sort_by le l))) f e
  sort_by-perm_eq (Permᴰ.trans d c) same =
      sort_by-perm_eq d same
      ∙ sort_by-perm_eq c
          (λ a b m n. same a b (In-perm a (Permᴰ.symm d) m) (In-perm b (Permᴰ.symm d) n))
