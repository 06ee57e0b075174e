-- ===== src/Postgres/Queries/Tests.antt =====
-- A small database: the theorems on the queries at it, and runs.
use stacks_blockchain_rosett.Base.{
  ℕ, ◌≤◌, ◌≡◌, ◌↔◌, ◌≢◌, ap, refl, inl, inr, true, false, List, [], ◌∷◌, map, In, none, some,
  IsSortedBy, insert_by, sort_by, page, arith,
}
use stacks_blockchain_rosett.Wire.Signed.{pos, ◌+ℤ◌, ◌-ℤ◌}
use stacks_blockchain_rosett.Wire.Tx.{Text}
use stacks_blockchain_rosett.Datastore.Common.{
  DbBlock, DataStoreUpdateData, DbTx, DbTxTypeId, DbTxStatus, DbStxEvent, DbAssetEventTypeId,
}
use stacks_blockchain_rosett.Postgres.Tables.{Db, select}
use stacks_blockchain_rosett.Postgres.Reorg.{get_chain_tip_height}
use stacks_blockchain_rosett.Postgres.Chain.Canonical.{IsIncoming}
use stacks_blockchain_rosett.Postgres.Chain.Ancestors.{
  empty_db, updates, IsChain-empty, updates-IsChain,
}
use stacks_blockchain_rosett.Postgres.Queries.Rows.{no_columns}
use stacks_blockchain_rosett.Postgres.Queries.Lists.{get_blocks}
use stacks_blockchain_rosett.Postgres.Queries.Events.{
  by_index, stx_asset, DbEvent, get_tx_events, tx_events, index_of,
}
use stacks_blockchain_rosett.Postgres.Queries.Balances.{sum_of, get_stx_balance}
use stacks_blockchain_rosett.Postgres.Queries.Supply.{
  is_mint, is_burn, minted, burned, all_fees, Covers,
}
use stacks_blockchain_rosett.Postgres.Queries.Conservation.{balances_conserved}
use stacks_blockchain_rosett.Postgres.Queries.Heights.{countdown, get_blocks_heights}
use stacks_blockchain_rosett.Postgres.Queries.TxEvents.{IsEventOf, get_tx_events_sorted}

abbrev mined : ℕ → ℕ → ℕ → DataStoreUpdateData
mined hash parent height = record {
  block = record {
    block_hash = hash;
    burn_block_time = 1594647994;
    index_block_hash = hash;
    parent_index_block_hash = parent;
    parent_block_hash = parent;
    parent_microblock = 0;
    block_height = height;
    canonical = true;
  };
  txs = [];
}

-- Three canonical blocks and one that competes with the second.
abbrev stored : Db
stored = updates empty_db (mined 1 0 1 ∷ mined 12 1 2 ∷ mined 22 1 2 ∷ mined 13 12 3 ∷ [])

incoming : (hash parent height : ℕ) → 1 ≤ height → IsIncoming (mined hash parent height).block
incoming hash parent height h = record { flagged = refl; positive = h }

get_blocks_heights_example :
    ((get_blocks stored 2 1).total ≡ get_chain_tip_height stored.blocks)
    × (map (λ (b : DbBlock). b.block_height) (get_blocks stored 2 1).results
        ≡ page 2 1 (countdown (get_chain_tip_height stored.blocks)))
get_blocks_heights_example = get_blocks_heights stored 2 1 (
    updates-IsChain empty_db (mined 1 0 1 ∷ mined 12 1 2 ∷ mined 22 1 2 ∷ mined 13 12 3 ∷ [])
      IsChain-empty
      (
        incoming 1 0 1 (omega arith),
        (
          incoming 12 1 2 (omega arith),
          (incoming 22 1 2 (omega arith), (incoming 13 12 3 (omega arith), tt)),
        ),
      ))

abbrev coinbase_tx : ℕ → ℕ → DbTx
coinbase_tx hash height = record {
  index_block_hash = hash;
  block_hash = hash;
  block_height = height;
  burn_block_time = 0;
  tx_id = 5;
  raw_tx = [];
  tx_index = 0;
  type_id = DbTxTypeId.coinbase;
  status = DbTxStatus.success;
  raw_result = none;
  canonical = true;
  post_conditions = [];
  fee_rate = 3;
  sender_address = 83 ∷ [];
  origin_hash_mode = 0;
  sponsored = false;
  sponsor_address = none;
  payload = no_columns;
}

-- The same transaction in an orphan, which is higher, and in a canonical block.
abbrev two_rows : Db
two_rows = record empty_db {
  txs =
      record { index_block_hash = 13; entry = record (coinbase_tx 13 3) { canonical = false } }
      ∷ record { index_block_hash = 12; entry = coinbase_tx 12 2 }
      ∷ [];
}

abbrev transferred : ℕ → DbStxEvent
transferred index = record {
  event_index = index;
  tx_id = 5;
  tx_index = 0;
  block_height = 1;
  canonical = true;
  asset_event_type_id = DbAssetEventTypeId.transfer;
  sender = some (83 ∷ []);
  recipient = some (84 ∷ []);
  amount = pos 7;
}

abbrev with_events : Db
with_events = record empty_db {
  stx_events =
      record { index_block_hash = 1; entry = transferred 1 }
      ∷ record { index_block_hash = 1; entry = transferred 0 }
      ∷ [];
}

get_tx_events_sorted_example :
    ((e : DbEvent) → In e (get_tx_events with_events 5 1) ↔ IsEventOf with_events 5 1 e)
    × IsSortedBy by_index (get_tx_events with_events 5 1)
get_tx_events_sorted_example = get_tx_events_sorted with_events 5 1

two_events :
    get_tx_events with_events 5 1 ≡ stx_asset (transferred 0) ∷ stx_asset (transferred 1) ∷ []
unfolding get_tx_events tx_events select sort_by insert_by index_of
two_events = refl

abbrev credited : DbStxEvent
credited = record (transferred 2) {
  asset_event_type_id = DbAssetEventTypeId.mint;
  sender = none;
  recipient = some (83 ∷ []);
  amount = pos 100;
}

-- A mint to the first address, its transfer to the second, and the fee of the transaction.
abbrev ledger : Db
ledger = record empty_db {
  txs = record { index_block_hash = 1; entry = coinbase_tx 1 1 } ∷ [];
  stx_events =
      record { index_block_hash = 1; entry = transferred 0 }
      ∷ record { index_block_hash = 1; entry = credited }
      ∷ [];
}

abbrev holders : List Text
holders = (83 ∷ []) ∷ (84 ∷ []) ∷ []

abbrev first_unit : Text → ℕ
first_unit [] = 0
first_unit (c ∷ cs) = c

two_holders : ◌≢◌ {A = Text} (83 ∷ []) (84 ∷ [])
two_holders e = let k : 83 ≡ 84 = ap first_unit e in absurd (omega (arith, k))

ledger-Covers : Covers ledger holders
ledger-Covers = record {
  distinct = (λ m. elim m [ inl e ↦ absurd (two_holders e) | inr n ↦ n ], (λ m. m, tt));
  senders = λ e t m flag there. elim m [
    | inl same ↦ inl (cc)
    | inr (inl same) ↦ absurd (cc)
    | inr (inr n) ↦ absurd n
  ];
  recipients = λ e t m flag there. elim m [
    | inl same ↦ inr (inl (cc))
    | inr (inl same) ↦ inl (cc)
    | inr (inr n) ↦ absurd n
  ];
  payers = λ t m flag. elim m [ inl same ↦ inl (cc) | inr n ↦ absurd n ];
}

balances_conserved_example :
    sum_of (λ a. (get_stx_balance ledger a).balance) holders
    ≡ minted ledger -ℤ burned ledger -ℤ all_fees ledger
balances_conserved_example = balances_conserved ledger holders ledger-Covers

ninety_seven : minted ledger -ℤ burned ledger -ℤ all_fees ledger ≡ pos 97
unfolding minted burned all_fees is_mint is_burn select sum_of ◌+ℤ◌ ◌-ℤ◌
ninety_seven = refl
