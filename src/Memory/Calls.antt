-- ===== src/Memory/Calls.antt =====
-- The canonical blocks of a MemoryDataStore after any calls, and after a reorganisation.
use stacks_blockchain_rosett.Base.{
  ℕ, ◌<◌, ◌≡◌, ◌⊎◌, refl, sym, ap, ◌∙◌, subst, inl, inr, Bool, true, List, [], ◌∷◌, In, In-map_inv,
  some, arith,
}
use stacks_blockchain_rosett.Datastore.Common.{Hash, DbBlock, TxUpdate, DataStoreUpdateData}
use stacks_blockchain_rosett.Memory.Store.{
  same_hash, orphaned_block, MemoryDataStore, empty_store, reorg_detected, update_block, update_tx,
  update_stx_event, update_ft_event, update_nft_event, update_smart_contract_event,
  update_smart_contract, for_each, update_entry, update, update_mempool_tx, insert_faucet_request,
  StoreCall, call_update, call_update_mempool_tx, call_insert_faucet_request, on_call, on_calls,
}
use stacks_blockchain_rosett.Memory.Queries.{values, get_block, get_entry}
use stacks_blockchain_rosett.Memory.Maps.{In-set_entry, get_entry-set_entry, In-orphan_from}
use stacks_blockchain_rosett.Memory.Canonical.{
  Blocks, IsStore, marked, marked-DistinctKeys, stored, stored-IsStore, update_block-blocks,
}

for_each-blocks {ℓ} :
    {A : Type ℓ} (f : A → MemoryDataStore → MemoryDataStore)
    → ((x : A) (m : MemoryDataStore) → (f x m).blocks ≡ m.blocks)
    → (xs : List A) (m : MemoryDataStore) → (for_each f xs m).blocks ≡ m.blocks
unfolding for_each
for_each-blocks f keeps [] m = refl
for_each-blocks f keeps (x ∷ xs) m = for_each-blocks f keeps xs (f x m) ∙ keeps x m

update_entry-blocks :
    (entry : TxUpdate) (m : MemoryDataStore) → (update_entry entry m).blocks ≡ m.blocks
unfolding update_entry update_tx update_stx_event update_ft_event update_nft_event
    update_smart_contract_event update_smart_contract
update_entry-blocks entry m =
    for_each-blocks (update_smart_contract entry.tx) (λ x n. refl) entry.smart_contracts _
    ∙ (for_each-blocks (update_smart_contract_event entry.tx) (λ x n. refl)
          entry.contract_log_events _
        ∙ (for_each-blocks (update_nft_event entry.tx) (λ x n. refl) entry.nft_events _
            ∙ (for_each-blocks (update_ft_event entry.tx) (λ x n. refl) entry.ft_events _
                ∙ for_each-blocks (update_stx_event entry.tx) (λ x n. refl) entry.stx_events _)))

update-blocks :
    (data' : DataStoreUpdateData) (m : MemoryDataStore)
    → (update data' m).1.blocks ≡ stored data'.block m.blocks
unfolding update
update-blocks data' m =
    for_each-blocks update_entry update_entry-blocks data'.txs (update_block data'.block m)
    ∙ update_block-blocks data'.block m

on_call-IsStore :
    (call : StoreCall) (m : MemoryDataStore) → IsStore m.blocks → IsStore (on_call call m).blocks
unfolding on_call update_mempool_tx insert_faucet_request
on_call-IsStore (call_update data') m s =
    subst IsStore (sym (update-blocks data' m)) (stored-IsStore data'.block m.blocks s)
on_call-IsStore (call_update_mempool_tx tx) m s = s
on_call-IsStore (call_insert_faucet_request request) m s = s

pub on_calls-IsStore :
    (calls : List StoreCall) (m : MemoryDataStore)
    → IsStore m.blocks
    → IsStore (on_calls calls m).blocks
unfolding on_calls
on_calls-IsStore [] m s = s
on_calls-IsStore (c ∷ cs) m s = on_calls-IsStore cs (on_call c m) (on_call-IsStore c m s)

pub IsStore-empty : IsStore []
IsStore-empty = record {
  distinct = tt;
  keyed = λ e i. absurd i;
  one_at_height = λ e f i j c c' h. absurd i;
}

-- After any calls of a MemoryDataStore that change it, whatever blocks they bring, two canonical blocks
-- of its map that are equally high are one.
pub on_calls-one_at_height :
    (calls : List StoreCall) (a b : DbBlock)
    → In a (values (on_calls calls empty_store).blocks)
    → In b (values (on_calls calls empty_store).blocks)
    → a.canonical ≡ true
    → b.canonical ≡ true
    → a.block_height ≡ b.block_height
    → a ≡ b
on_calls-one_at_height calls a b i j c c' h =
    let s = on_calls-IsStore calls empty_store IsStore-empty in
    let e = In-map_inv value a _ i in
    let f = In-map_inv value b _ j in
    e.2
    ∙ (ap value (
          s.one_at_height e.0 f.0 e.1 f.1 (ap flag (sym e.2) ∙ c) (ap flag (sym f.2) ∙ c')
            (ap height (sym e.2) ∙ (h ∙ ap height f.2)))
        ∙ sym f.2)
  where
    value : Hash × DbBlock → DbBlock
    value e = e.1

    flag : DbBlock → Bool
    flag x = x.canonical

    height : DbBlock → ℕ
    height x = x.block_height

lower :
    (block : DbBlock) (m : Blocks) (e : Hash × DbBlock)
    → reorg_detected block m ≡ true
    → In e (marked block m)
    → e.1.canonical ≡ true
    → e.1.block_height < block.block_height
lower block m e r i c =
    let found =
      In-orphan_from (λ (b : DbBlock). b.block_height) orphaned_block block.block_height m e
        (rw r at i) in
    elim found.2 [
      | inl (same, low) ↦ omega (arith, low, ap (λ (x : Hash × DbBlock). x.1.block_height) same)
      | inr (same, high) ↦ let f = ap (λ (x : Hash × DbBlock). x.1.canonical) same in absurd (cc)
    ]

stored_lower :
    (block : DbBlock) (m : Blocks) (x : DbBlock)
    → IsStore m
    → reorg_detected block m ≡ true
    → In x (values (stored block m))
    → x.canonical ≡ true
    → (x ≡ block) ⊎ (x.block_height < block.block_height)
stored_lower block m x s r i c =
    let e = In-map_inv (λ (f : Hash × DbBlock). f.1) x (stored block m) i in
    let d = marked-DistinctKeys block m s.distinct in
    elim (In-set_entry block.block_hash block (marked block m) e.0 d e.1) [
      | inl new ↦ inl (e.2 ∙ ap (λ (f : Hash × DbBlock). f.1) new)
      | inr old ↦
          let low = lower block m e.0 r old.0 (ap (λ (b : DbBlock). b.canonical) (sym e.2) ∙ c) in
          inr (omega (arith, low, ap (λ (b : DbBlock). b.block_height) e.2))
    ]

-- Where `updateBlock` detects a reorganisation, `update` makes the new block the top of the canonical
-- blocks, however high the others were: it is found under its hash, and any other canonical block is lower.
pub update_reorg :
    (data' : DataStoreUpdateData) (m : MemoryDataStore) (x : DbBlock)
    → IsStore m.blocks
    → reorg_detected data'.block m.blocks ≡ true
    → In x (values (update data' m).1.blocks)
    → x.canonical ≡ true
    → (get_block (update data' m).1 data'.block.block_hash ≡ some data'.block)
      × ((x ≡ data'.block) ⊎ (x.block_height < data'.block.block_height))
unfolding get_block
update_reorg data' m x s r i c =
    let after = update-blocks data' m in
    (
      subst (λ bs. get_entry same_hash data'.block.block_hash bs ≡ some data'.block) (sym after)
          (get_entry-set_entry data'.block.block_hash data'.block (marked data'.block m.blocks)),
      stored_lower data'.block m.blocks x s r (subst (λ bs. In x (values bs)) after i) c,
    )
