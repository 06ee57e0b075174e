-- ===== src/Postgres/Chain/Round.antt =====
-- After one round the chain is whole, or it is broken one block further down.
use stacks_blockchain_rosett.Base.{
  ◌+◌, ◌≤◌, ◌<◌, ◌≡◌, ◌≢◌, refl, sym, ap, subst, ◌∙◌, inl, inr, true, false, List, In, In-map_inv,
  arith, ◌==◌, Bool-cases, ==_iff,
}
use mathlib.Core.Bool.{false≢true}
use stacks_blockchain_rosett.Datastore.Common.{DbBlock}
use stacks_blockchain_rosett.Postgres.Chain.Invariant.{IsParent, IsForest, IsChain}
use stacks_blockchain_rosett.Postgres.Chain.Restore.{reflag}
use stacks_blockchain_rosett.Postgres.Chain.Mending.{
  Linked, IsMending, IsForest-map, after, restored, restored-In, after_cases, In-after,
}

module _ (bs : List DbBlock) (x : DbBlock) (mending : IsMending bs x) where
  abbrev bs' : List DbBlock
  bs' = after bs x mending

  abbrev x' : DbBlock
  x' = restored bs x mending

  forest_after : IsForest bs'
  forest_after = IsForest-map x.index_block_hash x.block_height bs mending.forest

  one_after :
      (a b : DbBlock)
      → In a bs'
      → In b bs'
      → a.canonical ≡ true
      → b.canonical ≡ true
      → a.block_height ≡ b.block_height
      → a ≡ b
  one_after a b ma mb ca cb e = elim (after_cases bs x mending a ma ca) [
    | inl a-eq ↦ elim (after_cases bs x mending b mb cb) [
      | inl b-eq ↦ a-eq ∙ sym b-eq
      | inr old ↦ absurd (old.1 (sym e ∙ ap (λ (y : DbBlock). y.block_height) a-eq))
    ]
    | inr old ↦ elim (after_cases bs x mending b mb cb) [
      | inl b-eq ↦ absurd (old.1 (e ∙ ap (λ (y : DbBlock). y.block_height) b-eq))
      | inr old' ↦ mending.one_at_height a b old.0 old'.0 ca cb e
    ]
  ]

  tip_after :
      (b : DbBlock)
      → In b bs'
      → (t : DbBlock) × In t bs' × (t.canonical ≡ true) × (b.block_height ≤ t.block_height)
  tip_after b m =
      let r = In-map_inv (reflag x.index_block_hash x.block_height) b bs m in
      let height : b.block_height ≡ r.0.block_height = ap (λ (y : DbBlock). y.block_height) r.2 in
      let t = mending.tip r.0 r.1 in
      elim (Bool-cases (t.0.block_height == x.block_height)) [
        | inl e ↦
            let same = (==_iff _ _).0 e in
            (x', restored-In bs x mending, refl, omega (arith, same, t.3, height))
        | inr ne ↦ (
          t.0,
          In-after bs x mending t.0 t.1 (λ q. false≢true (sym ne ∙ (==_iff _ _).1 q)),
          t.2,
          omega (arith, t.3, height),
        )
      ]

  -- Above and below the restored block the links are whole: the block above now has its parent.
  Linked-after :
      (b : DbBlock)
      → In b bs'
      → b.canonical ≡ true
      → 1 < b.block_height
      → b.block_height ≢ x.block_height
      → Linked bs' b
  Linked-after b m c high ne = elim (after_cases bs x mending b m c) [
    | inl e ↦ absurd (ne (ap (λ (y : DbBlock). y.block_height) e))
    | inr old ↦ elim (Bool-cases (b.block_height == x.block_height + 1)) [
      | inl above ↦
          let at_above = (==_iff _ _).0 above in
          (
            x',
            restored-In bs x mending,
            refl,
            record { below = sym at_above; named = sym (mending.child_names b old.0 c at_above) },
          )
      | inr elsewhere ↦
          let ne_above : b.block_height ≢ x.block_height + 1 =
            λ q. false≢true (sym elsewhere ∙ (==_iff _ _).1 q) in
          let link = mending.linked_elsewhere b old.0 c high ne_above in
          (
            link.0,
            In-after bs x mending link.0 link.1 (λ q. ne_above (omega (arith, link.3.below, q))),
            link.2,
            link.3,
          )
    ]
  ]

  at_height_of_x :
      (b : DbBlock) → In b bs' → b.canonical ≡ true → b.block_height ≡ x.block_height → b ≡ x'
  at_height_of_x b m c e = elim (after_cases bs x mending b m c) [
    | inl b-eq ↦ b-eq
    | inr old ↦ absurd (old.1 e)
  ]

  -- The restored block rests on a canonical parent, or on nothing: the chain is whole.
  pub IsChain-after : (1 < x.block_height → Linked bs' x') → IsChain bs'
  IsChain-after foot = record {
    forest = forest_after;
    one_at_height = one_after;
    linked = λ b m c high. elim (Bool-cases (b.block_height == x.block_height)) [
      | inl e ↦
          let b-eq = at_height_of_x b m c ((==_iff _ _).0 e) in
          subst (Linked bs') (sym b-eq)
            (foot (subst (λ (y : DbBlock). 1 < y.block_height) b-eq high))
      | inr ne ↦ Linked-after b m c high (λ q. false≢true (sym ne ∙ (==_iff _ _).1 q))
    ];
    tip = tip_after;
  }

  -- Its parent is an orphan: the next round mends there.
  pub IsMending-after :
      (p : DbBlock) → In p bs' → p.canonical ≡ false → IsParent x p → IsMending bs' p
  IsMending-after p m orphan up = record {
    forest = forest_after;
    present = m;
    orphaned = orphan;
    one_at_height = one_after;
    linked_elsewhere = λ b mb c high ne. Linked-after b mb c high (λ q. ne (q ∙ sym up.below));
    child_names = λ b mb c above.
        let b-eq = at_height_of_x b mb c (above ∙ up.below) in
        subst (λ (y : DbBlock). y.parent_index_block_hash ≡ p.index_block_hash) (sym b-eq)
          (sym up.named);
    tip = tip_after;
  }
