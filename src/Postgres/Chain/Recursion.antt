-- ===== src/Postgres/Chain/Recursion.antt =====
-- `restoreOrphanedChain` from an orphan whose chain is broken only there: with fuel above its height
-- it returns, and the canonical blocks are a chain again.
use stacks_blockchain_rosett.Base.{
  ℕ, zero, suc, ◌+◌, ◌<◌, ◌≡◌, sym, ap, subst, ◌∙◌, inl, inr, Bool, true, false, List, [], ◌∷◌, In,
  In-map_inv, ok, arith, ltb, ltb→lt, lt→ltb, Bool-cases,
}
use mathlib.Core.Bool.{false≢true}
use stacks_blockchain_rosett.Datastore.Common.{Hash, DbBlock}
use stacks_blockchain_rosett.Postgres.Tables.{select, Db}
use stacks_blockchain_rosett.Postgres.Reorg.{
  UpdatedEntities, is_orphan, is_orphaned_parent, restore_block, restore_orphaned_chain,
}
use stacks_blockchain_rosett.Postgres.Chain.Invariant.{
  IsParent, IsForest, IsChain, same_hash, select-none, select-one,
}
use stacks_blockchain_rosett.Postgres.Chain.Restore.{reflag, blocks-restore_block}
use stacks_blockchain_rosett.Postgres.Chain.Mending.{
  IsMending, IsForest-map, after, restored-In, In-after,
}
use stacks_blockchain_rosett.Postgres.Chain.Round.{IsChain-after, IsMending-after}

-- What the call leaves: a chain that holds the restored block and every row above it, and whose rows
-- are the old rows up to their flags.
pub record Restores (fuel : ℕ) (db : Db) (x : DbBlock) (u : UpdatedEntities) : Type 0 where
  pub result : Db × UpdatedEntities
  pub runs : restore_orphaned_chain fuel db x.index_block_hash u ≡ ok result
  pub chain : IsChain (result.0.blocks)
  pub restored : In (record x { canonical = true }) (result.0.blocks)
  pub kept :
      (b : DbBlock) → In b db.blocks → x.block_height < b.block_height → In b (result.0.blocks)
  pub same_rows :
      (b : DbBlock)
      → In b (result.0.blocks)
      → (a : DbBlock) × In a db.blocks
        × (a.block_height ≡ b.block_height)
        × (a.index_block_hash ≡ b.index_block_hash)

is_orphan-hash : (hash : Hash) (y : DbBlock) → is_orphan hash y ≡ true → y.index_block_hash ≡ hash
is_orphan-hash hash y h = ground arith

is_orphan_self : (x : DbBlock) → x.canonical ≡ false → is_orphan x.index_block_hash x ≡ true
is_orphan_self x h = ground arith

orphaned_parent_facts :
    (height : ℕ) (hash : Hash) (y : DbBlock)
    → is_orphaned_parent height hash y ≡ true
    → (y.block_height + 1 ≡ height) × (y.index_block_hash ≡ hash) × (y.canonical ≡ false)
orphaned_parent_facts height hash y h = ground arith

orphaned_parent_self :
    (height : ℕ) (hash : Hash) (y : DbBlock)
    → y.block_height + 1 ≡ height
    → y.index_block_hash ≡ hash
    → y.canonical ≡ false
    → is_orphaned_parent height hash y ≡ true
orphaned_parent_self height hash y h1 h2 h3 = ground arith

module _ (db : Db) (x : DbBlock) (u : UpdatedEntities) (mending : IsMending db.blocks x) where
  abbrev stepped : Db × UpdatedEntities
  stepped = restore_block db x x.index_block_hash u

  abbrev bs' : List DbBlock
  bs' = after db.blocks x mending

  stepped-blocks : stepped.0.blocks ≡ bs'
  stepped-blocks = blocks-restore_block db x x.index_block_hash u

  found_orphan : select (is_orphan x.index_block_hash) db.blocks ≡ x ∷ []
  found_orphan =
      select-one (is_orphan x.index_block_hash) db.blocks x mending.forest.distinct mending.present
        (is_orphan_self x mending.orphaned) (λ y _ h. is_orphan-hash x.index_block_hash y h)

  abbrev is_parent_of_x : DbBlock → Bool
  is_parent_of_x = is_orphaned_parent x.block_height x.parent_index_block_hash

  abbrev parents : List DbBlock
  parents = select is_parent_of_x stepped.0.blocks

  -- What the second query finds decides how the call goes on.
  ends :
      (fuel : ℕ)
      → parents ≡ []
      → restore_orphaned_chain (suc fuel) db x.index_block_hash u ≡ ok stepped
  unfolding restore_orphaned_chain
  ends fuel none_found = rw (found_orphan, restore_orphaned_chain) (rw none_found)

  goes_on :
      (fuel : ℕ) (p : DbBlock)
      → parents ≡ p ∷ []
      → restore_orphaned_chain (suc fuel) db x.index_block_hash u
        ≡ restore_orphaned_chain fuel stepped.0 p.index_block_hash stepped.1
  unfolding restore_orphaned_chain
  goes_on fuel p one_found = rw (found_orphan, restore_orphaned_chain) (rw one_found)

  rows_of_stepped :
      (b : DbBlock)
      → In b bs'
      → (a : DbBlock) × In a db.blocks
        × (a.block_height ≡ b.block_height)
        × (a.index_block_hash ≡ b.index_block_hash)
  rows_of_stepped b m =
      let r = In-map_inv (reflag x.index_block_hash x.block_height) b db.blocks m in
      (
        r.0,
        r.1,
        ap (λ (y : DbBlock). y.block_height) (sym r.2),
        ap (λ (y : DbBlock). y.index_block_hash) (sym r.2),
      )

  above_kept : (b : DbBlock) → In b db.blocks → x.block_height < b.block_height → In b bs'
  above_kept b m higher = In-after db.blocks x mending b m (λ q. omega (arith, q, higher))

  finished : (fuel : ℕ) → parents ≡ [] → IsChain bs' → Restores (suc fuel) db x u
  finished fuel none_found chain = record {
    result = stepped;
    runs = ends fuel none_found;
    chain = subst IsChain (sym stepped-blocks) chain;
    restored = subst (In _) (sym stepped-blocks) (restored-In db.blocks x mending);
    kept = λ b m higher. subst (In b) (sym stepped-blocks) (above_kept b m higher);
    same_rows = λ b m. rows_of_stepped b (subst (In b) stepped-blocks m);
  }

  continued :
      (fuel : ℕ) (p : DbBlock)
      → parents ≡ p ∷ []
      → p.block_height + 1 ≡ x.block_height
      → Restores fuel stepped.0 p stepped.1
      → Restores (suc fuel) db x u
  continued fuel p one_found below rest = record {
    result = rest.result;
    runs = goes_on fuel p one_found ∙ rest.runs;
    chain = rest.chain;
    restored =
        rest.kept _ (subst (In _) (sym stepped-blocks) (restored-In db.blocks x mending))
          (omega (arith, below));
    kept = λ b m higher.
        rest.kept b (subst (In b) (sym stepped-blocks) (above_kept b m higher))
          (omega (arith, below, higher));
    same_rows = λ b m.
        let a = rest.same_rows b m in
        let c = rows_of_stepped a.0 (subst (In a.0) stepped-blocks a.1) in
        (c.0, c.1, c.2 ∙ a.2, c.3 ∙ a.3);
  }

  abbrev forest' : IsForest bs'
  forest' = IsForest-map x.index_block_hash x.block_height db.blocks mending.forest

  -- No parent is an orphan where `x` stands at the bottom.
  no_parents_at_bottom : ltb 1 x.block_height ≡ false → parents ≡ []
  no_parents_at_bottom low =
      subst (λ bs. select is_parent_of_x bs ≡ []) (sym stepped-blocks)
        (select-none is_parent_of_x bs' λ y m. elim (Bool-cases (is_parent_of_x y)) [
          | inl t ↦
              let facts = orphaned_parent_facts x.block_height x.parent_index_block_hash y t in
              let positive = forest'.positive y m in
              absurd (false≢true (sym low ∙ lt→ltb _ _ (omega (arith, facts.0, positive))))
          | inr f ↦ f
        ])

  module _ (p : DbBlock) (m : In p bs') (up : IsParent x p) where
    is_the_parent :
        (y : DbBlock) → In y bs' → y.index_block_hash ≡ x.parent_index_block_hash → y ≡ p
    is_the_parent y my e = same_hash bs' y p forest'.distinct my m (e ∙ sym up.named)

    no_parents_if_canonical : p.canonical ≡ true → parents ≡ []
    no_parents_if_canonical c =
        subst (λ bs. select is_parent_of_x bs ≡ []) (sym stepped-blocks)
          (select-none is_parent_of_x bs' λ y my. elim (Bool-cases (is_parent_of_x y)) [
            | inl t ↦
                let facts = orphaned_parent_facts x.block_height x.parent_index_block_hash y t in
                let e = is_the_parent y my facts.1 in
                absurd (false≢true (sym facts.2 ∙ (ap (λ (z : DbBlock). z.canonical) e ∙ c)))
            | inr f ↦ f
          ])

    one_parent_if_orphan : p.canonical ≡ false → parents ≡ p ∷ []
    one_parent_if_orphan c =
        subst (λ bs. select is_parent_of_x bs ≡ p ∷ []) (sym stepped-blocks)
          (select-one is_parent_of_x bs' p forest'.distinct m
            (orphaned_parent_self x.block_height x.parent_index_block_hash p up.below up.named c)
            (λ y my t.
              ap (λ (z : DbBlock). z.index_block_hash)
                (is_the_parent y my
                  (orphaned_parent_facts x.block_height x.parent_index_block_hash y t).1)))

pub restores :
    (fuel : ℕ) (db : Db) (x : DbBlock) (u : UpdatedEntities)
    → IsMending db.blocks x
    → x.block_height < fuel
    → Restores fuel db x u
restores zero db x u mending enough = absurd (omega arith)
restores (suc fuel) db x u mending enough = elim (Bool-cases (ltb 1 x.block_height)) [
  | inr low ↦
      finished db x u mending fuel (no_parents_at_bottom db x u mending low) (
        IsChain-after db.blocks x mending (λ high. absurd (false≢true (sym low ∙ lt→ltb _ _ high))))
  | inl high ↦
      let link =
        (forest' db x u mending).has_parent (record x { canonical = true })
          (restored-In db.blocks x mending) (ltb→lt _ _ high) in
      let up : IsParent x link.0 = record { below = link.2.below; named = link.2.named } in
      elim (Bool-cases (link.0.canonical)) [
        | inl c ↦
            finished db x u mending fuel (no_parents_if_canonical db x u mending link.0 link.1 up c)
              (IsChain-after db.blocks x mending (λ _. (link.0, link.1, c, link.2)))
        | inr orphan ↦
            let next = IsMending-after db.blocks x mending link.0 link.1 orphan up in
            continued db x u mending fuel link.0
              (one_parent_if_orphan db x u mending link.0 link.1 up orphan) up.below
              (restores fuel (stepped db x u mending).0 link.0 (stepped db x u mending).1
                (subst (λ bs. IsMending bs link.0) (sym (stepped-blocks db x u mending)) next)
                (omega (arith, up.below)))
      ]
]
