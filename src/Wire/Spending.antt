-- ===== src/Wire/Spending.antt =====
-- src/p2p/tx.ts: `readTransactionSpendingCondition`.
use stacks_blockchain_rosett.Wire.Reader.{Read, Library, pure, ◌>>=◌, read_times, read_uint8_enum}
use stacks_blockchain_rosett.Wire.Tx.{
  SigHashMode, SigHashMode_enum, SingleSigHashMode, MultiSigHashMode, TransactionSpendingCondition,
  single_sig, multi_sig, TransactionAuthFieldTypeId, TransactionAuthFieldTypeId_enum,
  TransactionAuthField, key_compressed, key_uncompressed, sig_compressed, sig_uncompressed,
}

module _ (lib : Library) where
  unfoldable pub auth_field_of_type : TransactionAuthFieldTypeId → Read TransactionAuthField
  auth_field_of_type TransactionAuthFieldTypeId.public_key_compressed =
      lib.read_buffer 33 >>= λ public_key. pure (key_compressed public_key)
  auth_field_of_type TransactionAuthFieldTypeId.public_key_uncompressed =
      lib.read_buffer 33 >>= λ public_key. pure (key_uncompressed public_key)
  auth_field_of_type TransactionAuthFieldTypeId.signature_compressed =
      lib.read_buffer 65 >>= λ signature. pure (sig_compressed signature)
  auth_field_of_type TransactionAuthFieldTypeId.signature_uncompressed =
      lib.read_buffer 65 >>= λ signature. pure (sig_uncompressed signature)

  -- The body of the loop over the auth fields.
  unfoldable pub read_auth_field : Read TransactionAuthField
  read_auth_field =
      read_uint8_enum lib TransactionAuthFieldTypeId_enum "unexpected tx auth field type: "
      >>= auth_field_of_type

  unfoldable pub read_single_sig : SingleSigHashMode → Read TransactionSpendingCondition
  read_single_sig hash_mode = do
    signer ← lib.read_buffer 20
    nonce ← lib.read_big_uint64_be
    fee_rate ← lib.read_big_uint64_be
    key_encoding ← lib.read_uint8
    signature ← lib.read_buffer 65
    pure (
        single_sig (record {
          hash_mode = hash_mode;
          signer = signer;
          nonce = nonce;
          fee_rate = fee_rate;
          key_encoding = key_encoding;
          signature = signature;
        }))

  unfoldable pub read_multi_sig : MultiSigHashMode → Read TransactionSpendingCondition
  read_multi_sig hash_mode = do
    signer ← lib.read_buffer 20
    nonce ← lib.read_big_uint64_be
    fee_rate ← lib.read_big_uint64_be
    field_count ← lib.read_uint32_be
    auth_fields ← read_times field_count read_auth_field
    signature_count ← lib.read_uint16_be
    pure (
        multi_sig (record {
          hash_mode = hash_mode;
          signer = signer;
          nonce = nonce;
          fee_rate = fee_rate;
          auth_fields = auth_fields;
          signature_count = signature_count;
        }))

  unfoldable pub condition_of_type : SigHashMode → Read TransactionSpendingCondition
  condition_of_type SigHashMode.p2pkh = read_single_sig SingleSigHashMode.p2pkh
  condition_of_type SigHashMode.p2wpkh = read_single_sig SingleSigHashMode.p2wpkh
  condition_of_type SigHashMode.p2sh = read_multi_sig MultiSigHashMode.p2sh
  condition_of_type SigHashMode.p2wsh = read_multi_sig MultiSigHashMode.p2wsh

  unfoldable pub read_transaction_spending_condition : Read TransactionSpendingCondition
  read_transaction_spending_condition =
      read_uint8_enum lib SigHashMode_enum "unexpected tx spend condition hash mode: "
      >>= condition_of_type
