-- ===== src/Wire/Transaction.antt =====
-- src/p2p/tx.ts: `readTransaction` and `readTransactions`.
use stacks_blockchain_rosett.Base.{List}
use stacks_blockchain_rosett.Wire.Reader.{Read, Library, pure, ◌>>=◌, read_times, read_uint8_enum}
use stacks_blockchain_rosett.Wire.Tx.{
  TransactionAuthTypeId, TransactionAuthTypeId_enum, TransactionAuth, auth_standard, auth_sponsored,
  TransactionAnchorMode_enum, TransactionPostConditionMode, TransactionPostConditionMode_enum,
  TransactionVersion_enum, TransactionPostCondition, Transaction,
}
use stacks_blockchain_rosett.Wire.Spending.{read_transaction_spending_condition}
use stacks_blockchain_rosett.Wire.PostConditions.{read_transaction_post_conditions}
use stacks_blockchain_rosett.Wire.Payload.{with_raw, read_transaction_payload}

module _ (lib : Library) where
  unfoldable pub auth_of_type : TransactionAuthTypeId → Read TransactionAuth
  auth_of_type TransactionAuthTypeId.standard = do
    origin_condition ← read_transaction_spending_condition lib
    pure (auth_standard origin_condition)
  auth_of_type TransactionAuthTypeId.sponsored = do
    origin_condition ← read_transaction_spending_condition lib
    sponsor_condition ← read_transaction_spending_condition lib
    pure (auth_sponsored origin_condition sponsor_condition)

  -- The post-condition mode and the post-conditions, the span whose bytes are kept raw.
  unfoldable pub read_mode_and_conditions :
      Read (TransactionPostConditionMode × List (TransactionPostCondition lib.ClarityValue))
  read_mode_and_conditions = do
    post_condition_mode ←
        read_uint8_enum lib TransactionPostConditionMode_enum "unexpected tx post condition mode: "
    post_conditions ← read_transaction_post_conditions lib
    pure (post_condition_mode, post_conditions)

  unfoldable pub read_transaction : Read (Transaction lib.ClarityValue)
  read_transaction = do
    version ← read_uint8_enum lib TransactionVersion_enum "unexpected transactions version: "
    chain_id ← lib.read_uint32_be
    auth_type ← read_uint8_enum lib TransactionAuthTypeId_enum "unexpected transaction auth type: "
    auth ← auth_of_type auth_type
    anchor_mode ←
        read_uint8_enum lib TransactionAnchorMode_enum "unexpected tx post condition anchor mode: "
    conditions ← with_raw read_mode_and_conditions
    payload ← read_transaction_payload lib
    pure (record {
      version = version;
      chain_id = chain_id;
      auth = auth;
      anchor_mode = anchor_mode;
      post_condition_mode = conditions.0.0;
      post_conditions = conditions.0.1;
      raw_post_conditions = conditions.1;
      payload = payload;
    })

  unfoldable pub read_transactions : Read (List (Transaction lib.ClarityValue))
  read_transactions = lib.read_uint32_be >>= λ tx_count. read_times tx_count read_transaction
