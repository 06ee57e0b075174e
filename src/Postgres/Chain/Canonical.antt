-- ===== src/Postgres/Chain/Canonical.antt =====
-- What a client of `update` relies on: the canonical blocks stay one chain, a block above the tip
-- becomes the tip, a block below it is kept aside, and a block with no parent or with a row that the
-- tables do not take is refused.
use stacks_blockchain_rosett.Base.{
  ◌≤◌, ◌<◌, ◌≡◌, ◌≢◌, refl, sym, ap, subst, ◌∙◌, ◌⊎◌, inl, inr, true, List, [], ◌∷◌, In, ok, err,
  none, some, arith, lt→ltb, Bool, false, result-cases,
}
use stacks_blockchain_rosett.Datastore.Common.{DbBlock, DataStoreUpdateData}
use stacks_blockchain_rosett.Postgres.Tables.{Db}
use stacks_blockchain_rosett.Postgres.Reorg.{
  PgError, no_parent, UpdatedEntities, get_chain_tip_height, handle_reorg,
}
use stacks_blockchain_rosett.Postgres.Update.{
  update_block, candidate_tx_ids, store_incoming, is_new, update_rows, Outcome, commit_or_rollback,
  update,
}
use stacks_blockchain_rosett.Postgres.Refusals.{
  Inserted, inserted, insert_result, block_fits, accept_parent_height, accept_data, accept_rows,
}
use stacks_blockchain_rosett.Postgres.Chain.Invariant.{IsChain}
use stacks_blockchain_rosett.Postgres.Chain.Restore.{prune_blocks}
use stacks_blockchain_rosett.Postgres.Chain.Tip.{le-get_chain_tip_height, tip_row}
use stacks_blockchain_rosett.Postgres.Chain.Updates.{
  HasRow, Reorganised, handle_reorg_lem, blocks-store_data,
}
use stacks_blockchain_rosett.Postgres.Chain.Keeps.{
  store_incoming-IsChain, update_block-fresh, below_tip,
}

-- A block as the event server hands it over: flagged canonical, at height 1 or above.
pub record IsIncoming (b : DbBlock) : Type 0 where
  pub flagged : b.canonical ≡ true
  pub positive : 1 ≤ b.block_height

-- What a refused update comes to: the database as it was, nothing emitted, and the error.
abbrev pub rolled_back : Db → PgError → Outcome
rolled_back db e = record { db = db; events = []; thrown = some e }

-- What refuses the rows once the block is stored or found refuses them for a new block.
refused_data :
    (is_new : Bool) (d : DataStoreUpdateData) (e : PgError)
    → accept_data is_new d ≡ err e
    → accept_data true d ≡ err e
unfolding accept_data
refused_data true d e h = h
refused_data false d e h = elim (result-cases (insert_result (block_fits d.block))) [
  | inl a ↦ absurd (let bad : ok inserted ≡ err e = rw a.1 at h in cc)
  | inr f ↦ rw f.1 (let same : err f.0 ≡ err e = rw f.1 at h in same)
]

module _ (db : Db) (d : DataStoreUpdateData) where
  -- What `update` commits.
  pub record Committed (p : Db × UpdatedEntities) : Type 0 where
    pub stored : (update db d).db ≡ (store_incoming (p.0) d (get_chain_tip_height db.blocks)).0
    pub returned : (update db d).thrown ≡ none

  committed :
      (a : Inserted)
      → accept_parent_height d.block ≡ ok a
      → (p : Db × UpdatedEntities) → handle_reorg db d.block (get_chain_tip_height db.blocks) ≡ ok p
      → (b : Inserted) → accept_data (is_new p.0.blocks d.block) d ≡ ok b
      → Committed p
  unfolding update update_rows commit_or_rollback
  committed a h p e b k = record { stored = rw (h, e, k) refl; returned = rw (h, e, k) refl }

  refused_height :
      (e : PgError)
      → accept_parent_height d.block ≡ err e
      → (accept_rows d ≡ err e) × (update db d ≡ rolled_back db e)
  unfolding update update_rows commit_or_rollback accept_rows
  refused_height e h = (rw h refl, rw h refl)

  refused_parent :
      (a : Inserted)
      → accept_parent_height d.block ≡ ok a
      → (e : PgError) → handle_reorg db d.block (get_chain_tip_height db.blocks) ≡ err e
      → update db d ≡ rolled_back db e
  unfolding update update_rows commit_or_rollback
  refused_parent a h e k = rw (h, k) refl

  refused_rows :
      (a : Inserted)
      → accept_parent_height d.block ≡ ok a
      → (p : Db × UpdatedEntities) → handle_reorg db d.block (get_chain_tip_height db.blocks) ≡ ok p
      → (e : PgError) → accept_data (is_new p.0.blocks d.block) d ≡ err e
      → (accept_rows d ≡ err e) × (update db d ≡ rolled_back db e)
  unfolding update update_rows commit_or_rollback accept_rows
  refused_rows a h p e f k = (rw h (refused_data _ d f k), rw (h, e, k) refl)

  -- The ways that an update of a chain goes: the reorganisation it makes is committed with what it
  -- stores, or its parent has no row, or a row that it inserts is refused.
  pub update-cases :
      IsChain db.blocks
      → ((p : Db × UpdatedEntities) × Reorganised db p.0 d.block (get_chain_tip_height db.blocks)
          × Committed p)
        ⊎ (((1 < d.block.block_height)
              × (HasRow db.blocks d.block → ⊥)
              × (update db d
                  ≡ rolled_back db
                      (no_parent d.block.block_height d.block.parent_index_block_hash)))
            ⊎ ((e : PgError) × (accept_rows d ≡ err e) × (update db d ≡ rolled_back db e)))
  update-cases chain = elim (result-cases (accept_parent_height d.block)) [
    | inr f ↦ let r = refused_height f.0 f.1 in inr (inr (f.0, r.0, r.1))
    | inl a ↦ elim (handle_reorg_lem db d.block chain) [
      | inr r ↦ inr (inl (r.0, r.1, refused_parent a.0 a.1 _ r.2))
      | inl r ↦ elim (result-cases (accept_data (is_new (r.0.0.blocks) d.block) d)) [
        | inl b ↦ inl (r.0, r.2, committed a.0 a.1 r.0 r.1 b.0 b.1)
        | inr f ↦ let q = refused_rows a.0 a.1 r.0 r.1 f.0 f.1 in inr (inr (f.0, q.0, q.1))
      ]
    ]
  ]

  -- `update` keeps the canonical blocks one chain: one at each height, each above height 1 on its
  -- canonical parent, and a canonical one as high as any block. The block that comes in is flagged
  -- canonical, at height 1 or above, as the event server hands it over. `update` may reorganise,
  -- store the block as an orphan, or refuse it.
  pub update-IsChain : IsChain db.blocks → IsIncoming d.block → IsChain (update db d).db.blocks
  update-IsChain chain incoming = elim (update-cases chain) [
    | inl r ↦
        subst (λ (s : Db). IsChain s.blocks) (sym (r.2.stored))
          (store_incoming-IsChain db (r.0.0) d chain r.1 incoming.flagged incoming.positive)
    | inr (inl r) ↦ subst (λ o. IsChain o.db.blocks) (sym r.2) chain
    | inr (inr r) ↦ subst (λ o. IsChain o.db.blocks) (sym r.2) chain
  ]

  -- A block that is flagged canonical, at height 1 or above, above the tip, of a new hash and on a
  -- parent that has a row, and whose rows are accepted, is stored canonical, and its height is the
  -- new tip: `update` commits, whatever reorganisation the parent asks for.
  pub update_tip :
      IsChain db.blocks
      → IsIncoming d.block
      → accept_rows d ≡ ok inserted
      → get_chain_tip_height db.blocks < d.block.block_height
      → ((x : DbBlock) → In x db.blocks → x.index_block_hash ≢ d.block.index_block_hash)
      → (1 < d.block.block_height → HasRow db.blocks d.block)
      → ((update db d).thrown ≡ none)
        × In d.block (update db d).db.blocks
        × (get_chain_tip_height (update db d).db.blocks ≡ d.block.block_height)
  unfolding store_incoming
  update_tip chain incoming accepted above fresh grounded = elim (update-cases chain) [
    | inr (inl r) ↦ absurd (r.1 (grounded r.0))
    | inr (inr r) ↦ absurd (let bad : ok inserted ≡ err r.0 = sym accepted ∙ r.1 in cc)
    | inl r ↦
        let tip = get_chain_tip_height db.blocks in
        let bs = r.0.0.blocks in
        let result = (update db d).db.blocks in
        let stored = (store_incoming (r.0.0) d tip).0.blocks in
        let result_eq = ap (λ (s : Db). s.blocks) (r.2.stored) in
        let stored_eq : stored ≡ d.block ∷ bs = rw (lt→ltb _ _ above) (
          blocks-store_data _ d
          ∙ (ap (λ t. (update_block t d.block).0) (prune_blocks (r.0.0) (candidate_tx_ids d.txs))
              ∙ update_block-fresh bs d.block
                  (λ x m e. let a = r.1.same_rows x m in fresh a.0 a.1 (a.3 ∙ e)))) in
        let all_eq = result_eq ∙ stored_eq in
        let there = subst (In d.block) (sym all_eq) (inl refl) in
        let chain' = update-IsChain chain incoming in
        let low = le-get_chain_tip_height result d.block chain' there in
        let t = tip_row result (omega (arith, low, incoming.positive)) in
        let high = at_most bs (subst (In t.0) all_eq t.1) (λ x m. omega (
          arith,
          below_tip db (r.0.0) d chain r.1 incoming.flagged incoming.positive x m,
          above,
        )) in
        (r.2.returned, there, omega (arith, low, high, t.3))
  ]
    where
      at_most :
          {t : DbBlock} (bs : List DbBlock)
          → In t (d.block ∷ bs)
          → ((x : DbBlock) → In x bs → x.block_height ≤ d.block.block_height)
          → t.block_height ≤ d.block.block_height
      at_most bs (inl e) all = omega (arith, ap (λ (y : DbBlock). y.block_height) e)
      at_most {t} bs (inr m) all = all t m
