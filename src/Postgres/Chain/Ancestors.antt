-- ===== src/Postgres/Chain/Ancestors.antt =====
-- The canonical blocks are the ancestors of the tip.
use stacks_blockchain_rosett.Base.{
  ℕ, zero, suc, ◌+◌, ◌≤◌, ◌<◌, ◌≡◌, sym, subst, ◌∙◌, ◌↔◌, inl, inr, true, List, [], ◌∷◌, In, arith,
  ◌==◌, Bool-cases, ==_iff,
}
use mathlib.Core.Bool.{false≢true}
use stacks_blockchain_rosett.Wire.Reads.{All}
use stacks_blockchain_rosett.Datastore.Common.{DbBlock, DataStoreUpdateData}
use stacks_blockchain_rosett.Postgres.Tables.{Db}
use stacks_blockchain_rosett.Postgres.Reorg.{get_chain_tip_height}
use stacks_blockchain_rosett.Postgres.Update.{update}
use stacks_blockchain_rosett.Postgres.Chain.Invariant.{IsParent, IsChain, same_hash}
use stacks_blockchain_rosett.Postgres.Chain.Tip.{le-get_chain_tip_height}
use stacks_blockchain_rosett.Postgres.Chain.Canonical.{IsIncoming, update-IsChain}

-- `a` is reached from `b` by going from block to parent, any number of times.
pub data Ancestor (bs : List DbBlock) (a : DbBlock) : DbBlock → Type 0 where
  self : Ancestor bs a a
  older : {b p : DbBlock} → In p bs → IsParent b p → Ancestor bs a p → Ancestor bs a b

module _ (bs : List DbBlock) (chain : IsChain bs) where
  -- An ancestor of a canonical block is canonical.
  Ancestor-canonical :
      {a b : DbBlock}
      → Ancestor bs a b
      → In b bs
      → b.canonical ≡ true
      → In a bs × (a.canonical ≡ true)
  Ancestor-canonical self m c = (m, c)
  Ancestor-canonical (older {b} {p} mp up rest) m c =
      let positive = chain.forest.positive p mp in
      let link = chain.linked b m c (omega (arith, positive, up.below)) in
      let same =
        same_hash bs link.0 p chain.forest.distinct link.1 mp (link.3.named ∙ sym up.named) in
      Ancestor-canonical rest mp (subst (λ (y : DbBlock). y.canonical ≡ true) same link.2)

  -- A canonical block is an ancestor of every canonical block that is at least as high.
  canonical-Ancestor :
      (n : ℕ) (a b : DbBlock)
      → b.block_height ≤ a.block_height + n
      → a.block_height ≤ b.block_height
      → In a bs
      → a.canonical ≡ true
      → In b bs
      → b.canonical ≡ true
      → Ancestor bs a b
  canonical-Ancestor zero a b near le ma ca mb cb =
      subst (Ancestor bs a) (chain.one_at_height a b ma mb ca cb (omega (arith, near, le))) self
  canonical-Ancestor (suc n) a b near le ma ca mb cb =
      elim (Bool-cases (a.block_height == b.block_height)) [
        | inl e ↦
            subst (Ancestor bs a) (chain.one_at_height a b ma mb ca cb ((==_iff _ _).0 e)) self
        | inr ne ↦
            let different =
              λ (e : a.block_height ≡ b.block_height). false≢true (sym ne ∙ (==_iff _ _).1 e) in
            let positive = chain.forest.positive a ma in
            let above : a.block_height < b.block_height = grind (arith, different, le) in
            let link = chain.linked b mb cb (omega (arith, positive, above)) in
            older link.1 link.3 (
              canonical-Ancestor n a link.0 (omega (arith, near, link.3.below))
                (omega (arith, above, link.3.below)) ma ca link.1 link.2)
      ]

-- Updates one after the other, as the event server makes them.
unfoldable pub updates : Db → List DataStoreUpdateData → Db
updates db [] = db
updates db (d ∷ ds) = updates (update db d).db ds

abbrev pub empty_db : Db
empty_db = record {
  blocks = [];
  txs = [];
  stx_events = [];
  ft_events = [];
  nft_events = [];
  contract_logs = [];
  smart_contracts = [];
  mempool_txs = [];
}

abbrev pub blocks_after : List DataStoreUpdateData → List DbBlock
blocks_after ds = (updates empty_db ds).blocks

pub IsChain-empty : IsChain []
IsChain-empty = record {
  forest = record { distinct = tt; positive = λ b m. absurd m; has_parent = λ b m high. absurd m };
  one_at_height = λ a b ma mb ca cb e. absurd ma;
  linked = λ b m c high. absurd m;
  tip = λ b m. absurd m;
}

pub updates-IsChain :
    (db : Db) (ds : List DataStoreUpdateData)
    → IsChain db.blocks
    → All (λ (d : DataStoreUpdateData). IsIncoming d.block) ds
    → IsChain (updates db ds).blocks
unfolding updates
updates-IsChain db [] chain incoming = chain
updates-IsChain db (d ∷ ds) chain incoming =
    updates-IsChain (update db d).db ds (update-IsChain db d chain incoming.0) incoming.1

-- After any sequence of updates of an empty database with blocks that are flagged canonical and at
-- height 1 or above, reorganisations, orphans and refused updates included: if `t` is a canonical block at the tip height, then a block is canonical exactly when it
-- is `t` or is reached from `t` by going from parent to parent.
pub canonical_iff_Ancestor :
    (ds : List DataStoreUpdateData)
    → All (λ (d : DataStoreUpdateData). IsIncoming d.block) ds
    → (t a : DbBlock) → In t (blocks_after ds)
    → t.canonical ≡ true
    → t.block_height ≡ get_chain_tip_height (blocks_after ds)
    → In a (blocks_after ds)
    → (a.canonical ≡ true) ↔ Ancestor (blocks_after ds) a t
canonical_iff_Ancestor ds incoming t a mt ct at_tip ma =
    let bs = blocks_after ds in
    let chain = updates-IsChain empty_db ds IsChain-empty incoming in
    let low : a.block_height ≤ t.block_height =
      omega (arith, le-get_chain_tip_height bs a chain ma, at_tip) in
    (
      λ c. canonical-Ancestor bs chain t.block_height a t (omega arith) low ma c mt ct,
      λ anc. (Ancestor-canonical bs chain anc mt ct).1,
    )
