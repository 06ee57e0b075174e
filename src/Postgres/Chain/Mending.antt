-- ===== src/Postgres/Chain/Mending.antt =====
-- A chain that is broken at one block: what holds while `restoreOrphanedChain` works its way down.
use stacks_blockchain_rosett.Base.{
  ℕ, ◌+◌, ◌≤◌, ◌<◌, ◌≡◌, ◌≢◌, sym, ap, subst, ◌∙◌, ◌⊎◌, inl, inr, true, false, List, [], ◌∷◌, map,
  ◌==◌, ==_iff, ==_refl, Bool-cases, In, In-map, In-map_inv, arith,
}
use mathlib.Core.Bool.{false≢true}
use stacks_blockchain_rosett.Datastore.Common.{Hash, DbBlock}
use stacks_blockchain_rosett.Postgres.Chain.Invariant.{
  DistinctHashes, IsParent, IsForest, same_hash,
}
use stacks_blockchain_rosett.Postgres.Chain.Restore.{flag_after, reflag}

abbrev pub Linked : List DbBlock → DbBlock → Type 0
Linked bs b = (p : DbBlock) × In p bs × (p.canonical ≡ true) × IsParent b p

-- The canonical blocks are a chain but for the links at the height above the orphan `x`, where they
-- name `x` as their parent.
pub record IsMending (bs : List DbBlock) (x : DbBlock) : Type 0 where
  pub forest : IsForest bs
  pub present : In x bs
  pub orphaned : x.canonical ≡ false
  pub one_at_height :
      (a b : DbBlock)
      → In a bs
      → In b bs
      → a.canonical ≡ true
      → b.canonical ≡ true
      → a.block_height ≡ b.block_height
      → a ≡ b
  pub linked_elsewhere :
      (b : DbBlock)
      → In b bs
      → b.canonical ≡ true
      → 1 < b.block_height
      → b.block_height ≢ x.block_height + 1
      → Linked bs b
  pub child_names :
      (b : DbBlock)
      → In b bs
      → b.canonical ≡ true
      → b.block_height ≡ x.block_height + 1
      → b.parent_index_block_hash ≡ x.index_block_hash
  pub tip :
      (b : DbBlock)
      → In b bs
      → (t : DbBlock) × In t bs × (t.canonical ≡ true) × (b.block_height ≤ t.block_height)

DistinctHashes-map :
    (hash : Hash) (height : ℕ) (bs : List DbBlock)
    → DistinctHashes bs
    → DistinctHashes (map (reflag hash height) bs)
DistinctHashes-map hash height [] d = tt
DistinctHashes-map hash height (b ∷ bs) d = (
  λ c m e.
      let r = In-map_inv (reflag hash height) c bs m in
      d.0 r.0 r.1 (sym (ap (λ (y : DbBlock). y.index_block_hash) r.2) ∙ e),
  DistinctHashes-map hash height bs d.1,
)

module _ (hash : Hash) (height : ℕ) (bs : List DbBlock) where
  pub IsForest-map : IsForest bs → IsForest (map (reflag hash height) bs)
  IsForest-map f = record {
    distinct = DistinctHashes-map hash height bs f.distinct;
    positive = λ b m.
        let r = In-map_inv (reflag hash height) b bs m in
        subst (λ (y : DbBlock). 1 ≤ y.block_height) (sym r.2) (f.positive r.0 r.1);
    has_parent = λ b m high.
        let r = In-map_inv (reflag hash height) b bs m in
        let high' = subst (λ (y : DbBlock). 1 < y.block_height) r.2 high in
        let up = f.has_parent r.0 r.1 high' in
        let up_map = reflag hash height up.0 in
        let is_parent : IsParent (reflag hash height r.0) up_map = record {
          below = up.2.below;
          named = up.2.named;
        } in
        (
          up_map,
          In-map (reflag hash height) up.0 bs up.1,
          subst (λ y. IsParent y up_map) (sym r.2) is_parent,
        );
  }

-- A row at another height and of another hash is left alone.
reflag_elsewhere :
    (hash : Hash) (height : ℕ) (b : DbBlock)
    → b.index_block_hash ≢ hash
    → b.block_height ≢ height
    → reflag hash height b ≡ b
reflag_elsewhere hash height b other_hash other_height =
    let e1 : (b.index_block_hash == hash) ≡ false = ground arith in
    let e2 : (b.block_height == height) ≡ false = ground arith in simp (e1, e2)

reflag_self :
    (b : DbBlock) → reflag b.index_block_hash b.block_height b ≡ record b { canonical = true }
reflag_self b = simp (==_refl b.index_block_hash)

reflag_same_height :
    (hash : Hash) (height : ℕ) (b : DbBlock)
    → (b.index_block_hash == hash) ≡ false
    → (b.block_height == height) ≡ true
    → flag_after hash height b ≡ false
reflag_same_height hash height b e1 e2 = simp (e1, e2)

-- One round at the orphan `x`.
module _ (bs : List DbBlock) (x : DbBlock) (mending : IsMending bs x) where
  abbrev mark : DbBlock → DbBlock
  mark = reflag x.index_block_hash x.block_height

  abbrev pub after : List DbBlock
  after = map (reflag x.index_block_hash x.block_height) bs

  abbrev pub restored : DbBlock
  restored = record x { canonical = true }

  pub restored-In : In restored after
  restored-In = subst (λ y. In y after) (reflag_self x) (In-map mark x bs mending.present)

  same_as_x : (b : DbBlock) → In b bs → b.index_block_hash ≡ x.index_block_hash → b ≡ x
  same_as_x b m = same_hash bs b x mending.forest.distinct m mending.present

  -- A canonical row after the round: the restored block, or an old row at another height.
  pub after_cases :
      (b : DbBlock)
      → In b after
      → b.canonical ≡ true
      → (b ≡ restored) ⊎ (In b bs × (b.block_height ≢ x.block_height))
  after_cases b m c =
      let r = In-map_inv mark b bs m in
      elim (Bool-cases (r.0.index_block_hash == x.index_block_hash)) [
        | inl e ↦
            let at_x = same_as_x r.0 r.1 ((==_iff _ _).0 e) in
            inl (r.2 ∙ (ap mark at_x ∙ reflag_self x))
        | inr e ↦ elim (Bool-cases (r.0.block_height == x.block_height)) [
          | inl same ↦ absurd (
              false≢true (
                sym (reflag_same_height _ _ r.0 e same)
                ∙ (ap (λ (y : DbBlock). y.canonical) (sym r.2) ∙ c)))
          | inr other ↦
              let ne_hash : r.0.index_block_hash ≢ x.index_block_hash =
                λ q. false≢true (sym e ∙ (==_iff _ _).1 q) in
              let ne_height : r.0.block_height ≢ x.block_height =
                λ q. false≢true (sym other ∙ (==_iff _ _).1 q) in
              let b-eq : b ≡ r.0 = r.2 ∙ reflag_elsewhere _ _ r.0 ne_hash ne_height in
              inr (
                subst (λ y. In y bs × (y.block_height ≢ x.block_height)) (sym b-eq)
                  (r.1, ne_height))
        ]
      ]

  -- An old row at another height is there after the round.
  pub In-after : (b : DbBlock) → In b bs → b.block_height ≢ x.block_height → In b after
  In-after b m ne =
      let ne_hash : b.index_block_hash ≢ x.index_block_hash =
        λ e. ne (ap (λ (y : DbBlock). y.block_height) (same_as_x b m e)) in
      subst (λ y. In y after) (reflag_elsewhere _ _ b ne_hash ne) (In-map mark b bs m)
