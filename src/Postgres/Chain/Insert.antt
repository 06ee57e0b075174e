-- ===== src/Postgres/Chain/Insert.antt =====
-- A row in front of a chain: a canonical block on top of it, or an orphan below the tip.
use stacks_blockchain_rosett.Base.{
  ◌≤◌, ◌<◌, ◌≡◌, ◌≢◌, refl, sym, ap, subst, ◌∙◌, inl, inr, true, false, List, ◌∷◌, In, arith,
}
use mathlib.Core.Bool.{false≢true}
use stacks_blockchain_rosett.Datastore.Common.{DbBlock}
use stacks_blockchain_rosett.Postgres.Chain.Invariant.{IsParent, IsForest, IsChain}
use stacks_blockchain_rosett.Postgres.Chain.Mending.{Linked}

module _ (bs : List DbBlock) (b : DbBlock) (chain : IsChain bs)
    (fresh : (x : DbBlock) → In x bs → x.index_block_hash ≢ b.index_block_hash)
    (positive : 1 ≤ b.block_height)
    (grounded : 1 < b.block_height → (p : DbBlock) × In p bs × IsParent b p) where
  IsForest-insert : IsForest (b ∷ bs)
  IsForest-insert = record {
    distinct = (fresh, chain.forest.distinct);
    positive = λ x. elim [
      | inl e ↦ subst (λ (y : DbBlock). 1 ≤ y.block_height) (sym e) positive
      | inr m ↦ chain.forest.positive x m
    ];
    has_parent = λ x. elim [
      | inl e ↦ λ high.
          let up = grounded (subst (λ (y : DbBlock). 1 < y.block_height) e high) in
          (up.0, inr up.1, subst (λ y. IsParent y up.0) (sym e) up.2)
      | inr m ↦ λ high. let up = chain.forest.has_parent x m high in (up.0, inr up.1, up.2)
    ];
  }

  Linked-weaken : (x : DbBlock) → Linked bs x → Linked (b ∷ bs) x
  Linked-weaken x link = (link.0, inr link.1, link.2, link.3)

  pub IsChain-insert_top :
      b.canonical ≡ true
      → ((x : DbBlock) → In x bs → x.block_height < b.block_height)
      → (1 < b.block_height → Linked bs b)
      → IsChain (b ∷ bs)
  IsChain-insert_top canonical above link = record {
    forest = IsForest-insert;
    one_at_height = λ x y mx my cx cy e. one x y mx my cx cy e;
    linked = λ x. elim [
      | inl e ↦ λ c high.
          subst (Linked (b ∷ bs)) (sym e)
            (Linked-weaken b (link (subst (λ (y : DbBlock). 1 < y.block_height) e high)))
      | inr m ↦ λ c high. Linked-weaken x (chain.linked x m c high)
    ];
    tip = λ x. elim [
      | inl e ↦ (b, inl refl, canonical, omega (arith, ap (λ (y : DbBlock). y.block_height) e))
      | inr m ↦ (b, inl refl, canonical, omega (arith, above x m))
    ];
  }
    where
      one :
          (x y : DbBlock)
          → In x (b ∷ bs)
          → In y (b ∷ bs)
          → x.canonical ≡ true
          → y.canonical ≡ true
          → x.block_height ≡ y.block_height
          → x ≡ y
      one x y (inl p) (inl q) cx cy e = p ∙ sym q
      one x y (inl p) (inr q) cx cy e =
          absurd (omega (arith, above y q, ap (λ (z : DbBlock). z.block_height) p, e))
      one x y (inr p) (inl q) cx cy e =
          absurd (omega (arith, above x p, ap (λ (z : DbBlock). z.block_height) q, e))
      one x y (inr p) (inr q) cx cy e = chain.one_at_height x y p q cx cy e

  pub IsChain-insert_orphan :
      b.canonical ≡ false
      → ((t : DbBlock) × In t bs × (t.canonical ≡ true) × (b.block_height ≤ t.block_height))
      → IsChain (b ∷ bs)
  IsChain-insert_orphan orphan top = record {
    forest = IsForest-insert;
    one_at_height = λ x y mx my cx cy e. one x y mx my cx cy e;
    linked = λ x. elim [
      | inl e ↦ λ c high. absurd (not_canonical x e c)
      | inr m ↦ λ c high. Linked-weaken x (chain.linked x m c high)
    ];
    tip = λ x. elim [
      | inl e ↦
          (top.0, inr top.1, top.2, omega (arith, top.3, ap (λ (y : DbBlock). y.block_height) e))
      | inr m ↦ let t = chain.tip x m in (t.0, inr t.1, t.2, t.3)
    ];
  }
    where
      not_canonical : (x : DbBlock) → x ≡ b → x.canonical ≡ true → ⊥
      not_canonical x e c =
          false≢true (sym orphan ∙ (ap (λ (y : DbBlock). y.canonical) (sym e) ∙ c))

      one :
          (x y : DbBlock)
          → In x (b ∷ bs)
          → In y (b ∷ bs)
          → x.canonical ≡ true
          → y.canonical ≡ true
          → x.block_height ≡ y.block_height
          → x ≡ y
      one x y (inl p) my cx cy e = absurd (not_canonical x p cx)
      one x y (inr p) (inl q) cx cy e = absurd (not_canonical y q cy)
      one x y (inr p) (inr q) cx cy e = chain.one_at_height x y p q cx cy e
