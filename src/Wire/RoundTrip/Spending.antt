-- ===== src/Wire/RoundTrip/Spending.antt =====
-- Auth fields and spending conditions read back what was encoded.
use stacks_blockchain_rosett.Base.{◌≡◌, refl, [], ◌∷◌, ◌++◌, length, arith}
use stacks_blockchain_rosett.Wire.Reader.{Library, parse_enum}
use stacks_blockchain_rosett.Wire.Tx.{
  SigHashMode, SigHashMode_enum, SingleSigHashMode, MultiSigHashMode,
  TransactionSpendingConditionSingleSig, TransactionSpendingConditionMultiSig,
  TransactionSpendingCondition, single_sig, multi_sig, TransactionAuthFieldTypeId,
  TransactionAuthFieldTypeId_enum, TransactionAuthField, key_compressed, key_uncompressed,
  sig_compressed, sig_uncompressed,
}
use stacks_blockchain_rosett.Wire.Spending.{
  auth_field_of_type, read_auth_field, read_single_sig, read_multi_sig, condition_of_type,
  read_transaction_spending_condition,
}
use stacks_blockchain_rosett.Wire.Reads.{
  Reads, LibraryLaws, Reads-bind, Reads-last, Reads-read_times, encode_all, All-map,
}
use stacks_blockchain_rosett.Wire.Encode.{be_bytes, encode_auth_field, encode_spending_condition}
use stacks_blockchain_rosett.Wire.Encodable.{FitsAuthField, FitsCondition}
use stacks_blockchain_rosett.Wire.RoundTrip.Numbers.{
  Finds, u16-Reads, u32-Reads, u64-Reads, buffer-Reads, enum-Reads,
}

hash_mode-Finds : Finds SigHashMode_enum
unfolding parse_enum
hash_mode-Finds SigHashMode.p2pkh = (refl, omega arith)
hash_mode-Finds _ = (refl, omega arith)

auth_field_type-Finds : Finds TransactionAuthFieldTypeId_enum
unfolding parse_enum
auth_field_type-Finds TransactionAuthFieldTypeId.public_key_compressed = (refl, omega arith)
auth_field_type-Finds _ = (refl, omega arith)

module _ (lib : Library) (laws : LibraryLaws lib) where
  auth_field-Reads :
      (f : TransactionAuthField)
      → FitsAuthField f
      → Reads (read_auth_field lib) (encode_auth_field f) f
  unfolding read_auth_field auth_field_of_type encode_auth_field
  auth_field-Reads (key_compressed k) h =
      Reads-bind _
        (enum-Reads lib laws TransactionAuthFieldTypeId_enum _
          TransactionAuthFieldTypeId.public_key_compressed auth_field_type-Finds)
        (Reads-last _ (buffer-Reads lib laws 33 k h))
  auth_field-Reads (key_uncompressed k) h =
      Reads-bind _
        (enum-Reads lib laws TransactionAuthFieldTypeId_enum _
          TransactionAuthFieldTypeId.public_key_uncompressed auth_field_type-Finds)
        (Reads-last _ (buffer-Reads lib laws 33 k h))
  auth_field-Reads (sig_compressed s) h =
      Reads-bind _
        (enum-Reads lib laws TransactionAuthFieldTypeId_enum _
          TransactionAuthFieldTypeId.signature_compressed auth_field_type-Finds)
        (Reads-last _ (buffer-Reads lib laws 65 s h))
  auth_field-Reads (sig_uncompressed s) h =
      Reads-bind _
        (enum-Reads lib laws TransactionAuthFieldTypeId_enum _
          TransactionAuthFieldTypeId.signature_uncompressed auth_field_type-Finds)
        (Reads-last _ (buffer-Reads lib laws 65 s h))

  single_sig-Reads :
      (c : TransactionSpendingConditionSingleSig) (mode : SingleSigHashMode)
      → FitsCondition (single_sig c)
      → c.hash_mode ≡ mode
      → Reads
          (read_single_sig lib mode)
          (c.signer
            ++ (be_bytes 8 c.nonce
                ++ (be_bytes 8 c.fee_rate ++ (c.key_encoding ∷ [] ++ c.signature))))
          (single_sig c)
  unfolding read_single_sig
  single_sig-Reads c mode h e = rw (← e) (
      Reads-bind _ (buffer-Reads lib laws 20 c.signer h.0) (
        Reads-bind _ (u64-Reads lib laws c.nonce h.1) (
          Reads-bind _ (u64-Reads lib laws c.fee_rate h.2) (
            Reads-bind _ (laws.read_uint8_reads c.key_encoding h.3)
              (Reads-last _ (buffer-Reads lib laws 65 c.signature h.4))))))

  multi_sig-Reads :
      (c : TransactionSpendingConditionMultiSig) (mode : MultiSigHashMode)
      → FitsCondition (multi_sig c)
      → c.hash_mode ≡ mode
      → Reads
          (read_multi_sig lib mode)
          (c.signer
            ++ (be_bytes 8 c.nonce
                ++ (be_bytes 8 c.fee_rate
                    ++ (be_bytes 4 (length c.auth_fields)
                        ++ (encode_all encode_auth_field c.auth_fields
                            ++ be_bytes 2 c.signature_count)))))
          (multi_sig c)
  unfolding read_multi_sig
  multi_sig-Reads c mode h e = rw (← e) (
      Reads-bind _ (buffer-Reads lib laws 20 c.signer h.0) (
        Reads-bind _ (u64-Reads lib laws c.nonce h.1) (
          Reads-bind _ (u64-Reads lib laws c.fee_rate h.2) (
            Reads-bind _ (u32-Reads lib laws (length c.auth_fields) h.3) (
              Reads-bind _
                (Reads-read_times _ encode_auth_field c.auth_fields
                  (All-map c.auth_fields auth_field-Reads h.4))
                (Reads-last _ (u16-Reads lib laws c.signature_count h.5)))))))

  single_mode-Reads :
      (c : TransactionSpendingConditionSingleSig) (mode : SingleSigHashMode)
      → FitsCondition (single_sig c)
      → c.hash_mode ≡ mode
      → Reads
          (read_transaction_spending_condition lib)
          (encode_spending_condition (single_sig c))
          (single_sig c)
  unfolding read_transaction_spending_condition condition_of_type encode_spending_condition
  single_mode-Reads c SingleSigHashMode.p2pkh h e = simp e (
      Reads-bind _ (enum-Reads lib laws SigHashMode_enum _ SigHashMode.p2pkh hash_mode-Finds)
        (single_sig-Reads c SingleSigHashMode.p2pkh h e))
  single_mode-Reads c SingleSigHashMode.p2wpkh h e = simp e (
      Reads-bind _ (enum-Reads lib laws SigHashMode_enum _ SigHashMode.p2wpkh hash_mode-Finds)
        (single_sig-Reads c SingleSigHashMode.p2wpkh h e))

  multi_mode-Reads :
      (c : TransactionSpendingConditionMultiSig) (mode : MultiSigHashMode)
      → FitsCondition (multi_sig c)
      → c.hash_mode ≡ mode
      → Reads
          (read_transaction_spending_condition lib)
          (encode_spending_condition (multi_sig c))
          (multi_sig c)
  unfolding read_transaction_spending_condition condition_of_type encode_spending_condition
  multi_mode-Reads c MultiSigHashMode.p2sh h e = simp e (
      Reads-bind _ (enum-Reads lib laws SigHashMode_enum _ SigHashMode.p2sh hash_mode-Finds)
        (multi_sig-Reads c MultiSigHashMode.p2sh h e))
  multi_mode-Reads c MultiSigHashMode.p2wsh h e = simp e (
      Reads-bind _ (enum-Reads lib laws SigHashMode_enum _ SigHashMode.p2wsh hash_mode-Finds)
        (multi_sig-Reads c MultiSigHashMode.p2wsh h e))

  pub spending_condition-Reads :
      (c : TransactionSpendingCondition)
      → FitsCondition c
      → Reads (read_transaction_spending_condition lib) (encode_spending_condition c) c
  spending_condition-Reads (single_sig c) h = single_mode-Reads c c.hash_mode h refl
  spending_condition-Reads (multi_sig c) h = multi_mode-Reads c c.hash_mode h refl
