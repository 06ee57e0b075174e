-- ===== src/Postgres/Chain/Updates.antt =====
-- `update` keeps the chain of canonical blocks, whatever block arrives.
use stacks_blockchain_rosett.Base.{
  ℕ, ◌+◌, ◌<◌, ◌≡◌, refl, sym, ap, subst, ◌∙◌, ◌⊎◌, inl, inr, true, false, not, ◌&&◌, List, [], ◌∷◌,
  In, Result, ok, err, arith, ◌==◌, ltb, ltb→lt, lt→ltb, Bool-cases,
}
use mathlib.Core.Bool.{false≢true}
use stacks_blockchain_rosett.Datastore.Common.{DbBlock, DbTx, TxUpdate, DataStoreUpdateData}
use stacks_blockchain_rosett.Postgres.Tables.{select, one_row, rows, Row, Db}
use stacks_blockchain_rosett.Postgres.Reorg.{
  PgError, no_parent, UpdatedEntities, no_updates, get_chain_tip_height, is_parent, reorg_onto,
  handle_reorg,
}
use stacks_blockchain_rosett.Postgres.Update.{
  update_block, unless_found, update_tx, store_tx, store_txs, store_data,
}
use stacks_blockchain_rosett.Postgres.Chain.Invariant.{
  IsParent, IsChain, In-select, In-select_inv, select-one,
}
use stacks_blockchain_rosett.Postgres.Chain.Mending.{Linked, IsMending}
use stacks_blockchain_rosett.Postgres.Chain.Recursion.{restores}
use stacks_blockchain_rosett.Postgres.Chain.Tip.{le-get_chain_tip_height}

pub unless_found-cases {ℓ} :
    {A : Type 0} {B : Type ℓ} (found : List A) (inserted unchanged : B)
    → ((found ≡ []) × (unless_found found inserted unchanged ≡ inserted))
      ⊎ (unless_found found inserted unchanged ≡ unchanged)
unless_found-cases [] inserted unchanged = inl (refl, refl)
unless_found-cases (x ∷ xs) inserted unchanged = inr refl

-- The rows of transactions and events do not touch the blocks.
blocks-update_tx : (db : Db) (entry : TxUpdate) → (store_tx db entry).blocks ≡ db.blocks
unfolding store_tx update_tx
blocks-update_tx db entry =
    let tx = entry.tx in
    elim (unless_found-cases
      (select
        (λ (row : Row DbTx).
          row.entry.tx_id == tx.tx_id && row.index_block_hash == tx.index_block_hash)
        db.txs)
      (record db { txs = record { index_block_hash = tx.index_block_hash; entry = tx } ∷ db.txs })
      db) [ inl e ↦ ap (λ (d : Db). d.blocks) e.1 | inr e ↦ ap (λ (d : Db). d.blocks) e ]

blocks-store_txs : (db : Db) (txs : List TxUpdate) → (store_txs db txs).blocks ≡ db.blocks
unfolding store_txs
blocks-store_txs db [] = refl
blocks-store_txs db (entry ∷ txs) =
    blocks-store_txs (store_tx db entry) txs ∙ blocks-update_tx db entry

pub blocks-store_data :
    (db : Db) (d : DataStoreUpdateData)
    → (store_data db d).blocks ≡ (update_block db.blocks d.block).0
unfolding store_data
blocks-store_data db d = elim (Bool-cases ((update_block db.blocks d.block).1 == 0)) [
  | inl e ↦ rw e
  | inr e ↦ rw e (blocks-store_txs _ d.txs)
]

-- Restoring the orphaned parent, where the incoming block asks for it.
abbrev pub HasRow : List DbBlock → DbBlock → Type 0
HasRow bs b = (p : DbBlock) × In p bs × IsParent b p

pub is_parent-facts :
    (block p : DbBlock)
    → is_parent block p ≡ true
    → (p.block_height + 1 ≡ block.block_height)
      × (p.index_block_hash ≡ block.parent_index_block_hash)
is_parent-facts block p h = ground arith

is_parent-intro :
    (block p : DbBlock)
    → p.block_height + 1 ≡ block.block_height
    → p.index_block_hash ≡ block.parent_index_block_hash
    → is_parent block p ≡ true
is_parent-intro block p h1 h2 = ground arith

two_rows : (p q : DbBlock) (rest : List DbBlock) → p ∷ [] ≡ p ∷ q ∷ rest → ⊥
two_rows p q rest e = cc

-- What `handleReorg` leaves when it returns.
pub record Reorganised (db db' : Db) (block : DbBlock) (tip : ℕ) : Type 0 where
  pub chain : IsChain db'.blocks
  pub grounded : 1 < block.block_height → HasRow db'.blocks block
  pub linked : 1 < block.block_height → tip < block.block_height → Linked db'.blocks block
  pub same_rows :
      (b : DbBlock)
      → In b db'.blocks
      → (a : DbBlock) × In a db.blocks
        × (a.block_height ≡ b.block_height)
        × (a.index_block_hash ≡ b.index_block_hash)
  pub stale : (tip < block.block_height → ⊥) → db' ≡ db

to_restore-facts :
    (p : DbBlock) (tip height : ℕ)
    → (not p.canonical && ltb tip height) ≡ true
    → (p.canonical ≡ false) × (tip < height)
to_restore-facts p tip height h = ground arith

not_to_restore :
    (p : DbBlock) (tip height : ℕ)
    → (not p.canonical && ltb tip height) ≡ false
    → tip < height
    → p.canonical ≡ true
not_to_restore p tip height h lt = ground arith

module _ (db : Db) (block : DbBlock) (chain : IsChain db.blocks) where
  abbrev pub tip : ℕ
  tip = get_chain_tip_height db.blocks

  -- Nothing stands on an orphan whose child would be above the tip.
  IsMending-at :
      (p : DbBlock)
      → In p db.blocks
      → IsParent block p
      → p.canonical ≡ false
      → tip < block.block_height
      → IsMending db.blocks p
  IsMending-at p m up orphan above = record {
    forest = chain.forest;
    present = m;
    orphaned = orphan;
    one_at_height = chain.one_at_height;
    linked_elsewhere = λ b mb c high _. chain.linked b mb c high;
    child_names = λ b mb c e.
        absurd (omega (arith, le-get_chain_tip_height db.blocks b chain mb, up.below, e, above));
    tip = chain.tip;
  }

  abbrev pub Succeeds : Result PgError (Db × UpdatedEntities) → Type 0
  Succeeds r = (q : Db × UpdatedEntities) × (r ≡ ok q) × Reorganised db (q.0) block tip

  unchanged :
      (u : UpdatedEntities)
      → (1 < block.block_height → HasRow db.blocks block)
      → (1 < block.block_height → tip < block.block_height → Linked db.blocks block)
      → Reorganised db db block tip
  unchanged u grounded linked = record {
    chain = chain;
    grounded = grounded;
    linked = linked;
    same_rows = λ b m. (b, m, refl, refl);
    stale = λ _. refl;
  }

  pub reorg_onto_lem :
      (p : DbBlock) (u : UpdatedEntities)
      → In p db.blocks
      → IsParent block p
      → Succeeds (reorg_onto (one_row p) db block tip u)
  unfolding reorg_onto
  reorg_onto_lem p u m up = elim (Bool-cases (not p.canonical && ltb tip block.block_height)) [
    | inl t ↦
        let facts = to_restore-facts p tip block.block_height t in
        let r =
          restores block.block_height db p u (IsMending-at p m up facts.0 facts.1)
            (omega (arith, up.below)) in
        let up' : IsParent block (record p { canonical = true }) = record {
          below = up.below;
          named = up.named;
        } in
        (
          r.result,
          rw t r.runs,
          record {
            chain = r.chain;
            grounded = λ _. (record p { canonical = true }, r.restored, up');
            linked = λ _ _. (record p { canonical = true }, r.restored, refl, up');
            same_rows = r.same_rows;
            stale = λ low. absurd (low facts.1);
          },
        )
    | inr f ↦ (
      (db, u),
      rw f,
      unchanged u (λ _. (p, m, up))
          (λ _ above. (p, m, not_to_restore p tip block.block_height f above, up)),
    )
  ]

  -- The parent has no row, and `handleReorg` says so.
  abbrev pub Refused : Result PgError (Db × UpdatedEntities) → Type 0
  Refused r =
      (1 < block.block_height)
      × (HasRow db.blocks block → ⊥)
      × (r ≡ err (no_parent block.block_height block.parent_index_block_hash))

  found_parent :
      (found : List DbBlock)
      → 1 < block.block_height
      → select (is_parent block) db.blocks ≡ found
      → Succeeds (reorg_onto (rows found) db block tip no_updates)
        ⊎ Refused (reorg_onto (rows found) db block tip no_updates)
  unfolding reorg_onto
  found_parent [] high e = inr (
    high,
    (λ up. subst (In up.0) e (
        In-select (is_parent block) up.0 db.blocks up.1
          (is_parent-intro block up.0 up.2.below up.2.named))),
    refl,
  )
  found_parent (p ∷ []) high e =
      let row = In-select_inv (is_parent block) p db.blocks (subst (In p) (sym e) (inl refl)) in
      let facts = is_parent-facts block p row.1 in
      inl (reorg_onto_lem p no_updates row.0 (record { below = facts.0; named = facts.1 }))
  found_parent (p ∷ q ∷ rest) high e =
      let row = In-select_inv (is_parent block) p db.blocks (subst (In p) (sym e) (inl refl)) in
      let facts = is_parent-facts block p row.1 in
      let one =
        select-one (is_parent block) db.blocks p chain.forest.distinct row.0 row.1
          (λ y _ t. (is_parent-facts block y t).1 ∙ sym facts.1) in
      absurd (two_rows p q rest (sym one ∙ e))

  pub handle_reorg_lem : Succeeds (handle_reorg db block tip) ⊎ Refused (handle_reorg db block tip)
  unfolding handle_reorg
  handle_reorg_lem = elim (Bool-cases (ltb 1 block.block_height)) [
    | inl high ↦ rw high (found_parent (select (is_parent block) db.blocks) (ltb→lt _ _ high) refl)
    | inr low ↦
        let none_above = λ (h : 1 < block.block_height). false≢true (sym low ∙ lt→ltb 1 _ h) in
        inl (
          (db, no_updates),
          rw low,
          unchanged no_updates (λ h. absurd (none_above h)) (λ h. absurd (none_above h)),
        )
  ]
