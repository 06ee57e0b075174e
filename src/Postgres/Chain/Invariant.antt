-- ===== src/Postgres/Chain/Invariant.antt =====
-- The invariant of the table `blocks`, and what the queries of the write path return under it.
use stacks_blockchain_rosett.Base.{
  ◌+◌, ◌≤◌, ◌<◌, ◌≡◌, ◌≢◌, refl, sym, ap, ◌∙◌, ◌⊎◌, inl, inr, Bool, true, false, List, [], ◌∷◌,
  Bool-cases, In,
}
use stacks_blockchain_rosett.Datastore.Common.{DbBlock}
use stacks_blockchain_rosett.Postgres.Tables.{select}

-- No two rows have the same index hash: the primary key of the table.
abbrev pub DistinctHashes : List DbBlock → Type 0
DistinctHashes [] = Unit
DistinctHashes (b ∷ bs) =
    ((c : DbBlock) → In c bs → c.index_block_hash ≢ b.index_block_hash) × DistinctHashes bs

-- `p` is the row of the block that `b` builds on.
pub record IsParent (b p : DbBlock) : Type 0 where
  pub below : p.block_height + 1 ≡ b.block_height
  pub named : p.index_block_hash ≡ b.parent_index_block_hash

-- What holds of the rows whatever their flags: heights begin at 1, and the parent of each block
-- above height 1 has a row.
pub record IsForest (bs : List DbBlock) : Type 0 where
  pub distinct : DistinctHashes bs
  pub positive : (b : DbBlock) → In b bs → 1 ≤ b.block_height
  pub has_parent :
      (b : DbBlock) → In b bs → 1 < b.block_height → (p : DbBlock) × In p bs × IsParent b p

-- The canonical blocks are one chain: at most one at each height, each above height 1 on a canonical
-- parent, and no block is above all of them.
pub record IsChain (bs : List DbBlock) : Type 0 where
  pub forest : IsForest bs
  pub one_at_height :
      (a b : DbBlock)
      → In a bs
      → In b bs
      → a.canonical ≡ true
      → b.canonical ≡ true
      → a.block_height ≡ b.block_height
      → a ≡ b
  pub linked :
      (b : DbBlock)
      → In b bs
      → b.canonical ≡ true
      → 1 < b.block_height
      → (p : DbBlock) × In p bs × (p.canonical ≡ true) × IsParent b p
  pub tip :
      (b : DbBlock)
      → In b bs
      → (t : DbBlock) × In t bs × (t.canonical ≡ true) × (b.block_height ≤ t.block_height)

pub same_hash :
    (bs : List DbBlock) (a b : DbBlock)
    → DistinctHashes bs
    → In a bs
    → In b bs
    → a.index_block_hash ≡ b.index_block_hash
    → a ≡ b
same_hash [] a b d ha hb e = absurd ha
same_hash (c ∷ bs) a b d (inl p) (inl q) e = p ∙ sym q
same_hash (c ∷ bs) a b d (inl p) (inr q) e =
    absurd (d.0 b q (sym e ∙ ap (λ (x : DbBlock). x.index_block_hash) p))
same_hash (c ∷ bs) a b d (inr p) (inl q) e =
    absurd (d.0 a p (e ∙ ap (λ (x : DbBlock). x.index_block_hash) q))
same_hash (c ∷ bs) a b d (inr p) (inr q) e = same_hash bs a b d.1 p q e

module _ {A : Type 0} (p : A → Bool) where
  pub In-select : (x : A) (xs : List A) → In x xs → p x ≡ true → In x (select p xs)
  unfolding select
  In-select x (y ∷ xs) (inl e) h = let h' : p y ≡ true = ap p (sym e) ∙ h in rw h' (inl e)
  In-select x (y ∷ xs) (inr m) h = elim (Bool-cases (p y)) [
    | inl t ↦ rw t (inr (In-select x xs m h))
    | inr f ↦ rw f (In-select x xs m h)
  ]
  In-select x [] m h = absurd m

  pub In-select_inv : (x : A) (xs : List A) → In x (select p xs) → In x xs × (p x ≡ true)
  unfolding select
  In-select_inv x [] m = absurd m
  In-select_inv x (y ∷ xs) m = elim (Bool-cases (p y)) [
    | inl t ↦ elim (let m' : (x ≡ y) ⊎ In x (select p xs) = rw t at m in m') [
      | inl e ↦ (inl e, ap p e ∙ t)
      | inr m' ↦ let r = In-select_inv x xs m' in (inr r.0, r.1)
    ]
    | inr f ↦ let r = In-select_inv x xs (rw f at m) in (inr r.0, r.1)
  ]

  pub select-none : (xs : List A) → ((x : A) → In x xs → p x ≡ false) → select p xs ≡ []
  unfolding select
  select-none [] h = refl
  select-none (x ∷ xs) h = rw (h x (inl refl)) (select-none xs (λ y m. h y (inr m)))

-- A WHERE clause that holds of one hash only finds one row.
pub select-one :
    (p : DbBlock → Bool) (bs : List DbBlock) (a : DbBlock)
    → DistinctHashes bs
    → In a bs
    → p a ≡ true
    → ((x : DbBlock) → In x bs → p x ≡ true → x.index_block_hash ≡ a.index_block_hash)
    → select p bs ≡ a ∷ []
unfolding select
select-one p [] a d m pa only = absurd m
select-one p (b ∷ bs) a d (inl e) pa only =
    let pb : p b ≡ true = ap p (sym e) ∙ pa in
    let rest : select p bs ≡ [] = select-none p bs λ x mx. elim (Bool-cases (p x)) [
      | inl t ↦ absurd (d.0 x mx (only x (inr mx) t ∙ ap (λ (y : DbBlock). y.index_block_hash) e))
      | inr f ↦ f
    ] in
    rw (pb, rest) (ap (λ y. y ∷ []) (sym e))
select-one p (b ∷ bs) a d (inr m) pa only = elim (Bool-cases (p b)) [
  | inl t ↦ absurd (d.0 a m (sym (only b (inl refl) t)))
  | inr f ↦ rw f (select-one p bs a d.1 m pa (λ x mx. only x (inr mx)))
]
