-- ===== src/Wire/RoundTrip/Transaction.antt =====
-- Payloads, whole transactions and lists of them read back what was encoded.
use stacks_blockchain_rosett.Base.{◌^◌, ◌<◌, refl, List, ◌++◌, length, ap, sym, Option, arith}
use stacks_blockchain_rosett.Wire.Reader.{Buffer, Read, Library, parse_enum, ◌>>=◌, read_uint8_enum}
use stacks_blockchain_rosett.Wire.Tx.{
  TransactionAuthTypeId, TransactionAuthTypeId_enum, TransactionAuth, auth_standard, auth_sponsored,
  TransactionAnchorMode_enum, on_chain_only, TransactionPostConditionMode_enum, allow, deny,
  TransactionVersion_enum, mainnet, testnet, RecipientPrincipal, recipient_address,
  recipient_contract, TransactionPayloadTypeId, TransactionPayloadTypeId_enum, TransactionPayload,
  TransactionPayloadContractCall, payload_token_transfer, payload_coinbase, payload_contract_call,
  payload_smart_contract, payload_poison_microblock, Transaction,
}
use stacks_blockchain_rosett.Wire.Payload.{
  recipient_of_type, payload_of_type, read_transaction_payload,
}
use stacks_blockchain_rosett.Wire.Transaction.{
  auth_of_type, read_mode_and_conditions, read_transaction, read_transactions,
}
use stacks_blockchain_rosett.Wire.Reads.{
  Reads, LibraryLaws, Reads-value, Reads-bind, Reads-last, Reads-with_raw, Reads-read_times, All,
  All-map,
}
use stacks_blockchain_rosett.Wire.Encode.{
  encode_list, encode_recipient, encode_auth, encode_payload, encode_mode_and_conditions,
  encode_transaction,
}
use stacks_blockchain_rosett.Wire.Encodable.{FitsRecipient, FitsAuth, FitsPayload, FitsTransaction}
use stacks_blockchain_rosett.Wire.RoundTrip.Numbers.{
  Finds, u32-Reads, i64-Reads, buffer-Reads, enum-Reads, contract_name-Reads, clarity_name-Reads,
  string-Reads,
}
use stacks_blockchain_rosett.Wire.RoundTrip.Conditions.{
  address-Reads, clarity_values-Reads, post_conditions-Reads,
}
use stacks_blockchain_rosett.Wire.RoundTrip.Spending.{spending_condition-Reads}

auth_type-Finds : Finds TransactionAuthTypeId_enum
unfolding parse_enum
auth_type-Finds TransactionAuthTypeId.standard = (refl, omega arith)
auth_type-Finds TransactionAuthTypeId.sponsored = (refl, omega arith)

anchor_mode-Finds : Finds TransactionAnchorMode_enum
unfolding parse_enum
anchor_mode-Finds on_chain_only = (refl, omega arith)
anchor_mode-Finds _ = (refl, omega arith)

mode-Finds : Finds TransactionPostConditionMode_enum
unfolding parse_enum
mode-Finds allow = (refl, omega arith)
mode-Finds deny = (refl, omega arith)

version-Finds : Finds TransactionVersion_enum
unfolding parse_enum
version-Finds mainnet = (refl, omega arith)
version-Finds testnet = (refl, omega arith)

pub payload_type-Finds : Finds TransactionPayloadTypeId_enum
unfolding parse_enum
payload_type-Finds TransactionPayloadTypeId.coinbase = (refl, omega arith)
payload_type-Finds _ = (refl, omega arith)

module _ (lib : Library) (laws : LibraryLaws lib) where
  -- The recipient's type id and the recipient that it announces, before the parser's next step.
  pub recipient-Reads {ℓ} :
      {B : Type ℓ} (k : RecipientPrincipal → Read B) {cs : Buffer} {b : B} (p : RecipientPrincipal)
      → FitsRecipient p
      → Reads (k p) cs b
      → Reads (lib.read_uint8 >>= λ id. recipient_of_type lib id >>= k) (encode_recipient p ++ cs) b
  unfolding recipient_of_type encode_recipient
  recipient-Reads k {cs} (recipient_address a) h hk =
      Reads-bind _ (laws.read_uint8_reads 5 (omega arith))
        (Reads-bind _ (Reads-last _ (address-Reads lib laws a h)) hk)
  recipient-Reads k {cs} (recipient_contract a name) h hk =
      Reads-bind _ (laws.read_uint8_reads 6 (omega arith)) (
        Reads-bind _
          (Reads-bind _ (address-Reads lib laws a h.0)
            (Reads-last _ (contract_name-Reads lib laws name h.1)))
          hk)

  call-Reads :
      (p : TransactionPayloadContractCall lib.ClarityValue)
      → FitsPayload laws.serialize_cv (payload_contract_call p)
      → Reads
          (read_transaction_payload lib)
          (encode_payload laws.serialize_cv (payload_contract_call p))
          (payload_contract_call p)
  unfolding read_transaction_payload payload_of_type encode_payload
  call-Reads p h =
      let with_args =
        λ (raw : Option Buffer). payload_contract_call (record p { raw_function_args = raw }) in
      let raw_eq = ap with_args (sym h.4) in
      Reads-bind _
        (enum-Reads lib laws TransactionPayloadTypeId_enum _ TransactionPayloadTypeId.contract_call
          payload_type-Finds)
        (Reads-bind _ (address-Reads lib laws p.address h.0) (
          Reads-bind _ (contract_name-Reads lib laws p.contract_name h.1) (
            Reads-bind _ (clarity_name-Reads lib laws p.function_name h.2) (
              Reads-value raw_eq (
                Reads-last _
                  (Reads-with_raw (clarity_values-Reads lib laws p.function_args h.3)))))))

  payload-Reads :
      (p : TransactionPayload lib.ClarityValue)
      → FitsPayload laws.serialize_cv p
      → Reads (read_transaction_payload lib) (encode_payload laws.serialize_cv p) p
  unfolding read_transaction_payload payload_of_type encode_payload
  payload-Reads (payload_coinbase bytes) h =
      Reads-bind _
        (enum-Reads lib laws TransactionPayloadTypeId_enum _ TransactionPayloadTypeId.coinbase
          payload_type-Finds)
        (Reads-last _ (buffer-Reads lib laws 32 bytes h))
  payload-Reads (payload_token_transfer p) h =
      Reads-bind _
        (enum-Reads lib laws TransactionPayloadTypeId_enum _ TransactionPayloadTypeId.token_transfer
          payload_type-Finds)
        (recipient-Reads _ p.recipient h.0 (
          Reads-bind _ (i64-Reads lib laws p.amount h.1)
            (Reads-last _ (buffer-Reads lib laws 34 p.memo h.2))))
  payload-Reads (payload_smart_contract p) h =
      Reads-bind _
        (enum-Reads lib laws TransactionPayloadTypeId_enum _ TransactionPayloadTypeId.smart_contract
          payload_type-Finds)
        (Reads-bind _ (contract_name-Reads lib laws p.name h.0)
          (Reads-last _ (string-Reads lib laws p.code_body h.1 h.2)))
  payload-Reads (payload_contract_call p) h = call-Reads p h
  payload-Reads (payload_poison_microblock h1 h2) h =
      Reads-bind _
        (enum-Reads lib laws TransactionPayloadTypeId_enum _
          TransactionPayloadTypeId.poison_microblock payload_type-Finds)
        (Reads-bind _ (buffer-Reads lib laws _ h1 h.0)
          (Reads-last _ (buffer-Reads lib laws _ h2 h.1)))

  auth-Reads {ℓ} :
      {B : Type ℓ} (k : TransactionAuth → Read B) {cs : Buffer} {b : B} (a : TransactionAuth)
      → FitsAuth a
      → Reads (k a) cs b
      → Reads
          (read_uint8_enum lib TransactionAuthTypeId_enum "unexpected transaction auth type: "
            >>= λ t. auth_of_type lib t >>= k)
          (encode_auth a ++ cs)
          b
  unfolding auth_of_type encode_auth
  auth-Reads k {cs} (auth_standard origin) h hk =
      Reads-bind _
        (enum-Reads lib laws TransactionAuthTypeId_enum _ TransactionAuthTypeId.standard
          auth_type-Finds)
        (Reads-bind _ (Reads-last _ (spending_condition-Reads lib laws origin h)) hk)
  auth-Reads k {cs} (auth_sponsored origin sponsor) h hk =
      Reads-bind _
        (enum-Reads lib laws TransactionAuthTypeId_enum _ TransactionAuthTypeId.sponsored
          auth_type-Finds)
        (Reads-bind _
          (Reads-bind _ (spending_condition-Reads lib laws origin h.0)
            (Reads-last _ (spending_condition-Reads lib laws sponsor h.1)))
          hk)

  -- Each transaction that fits the wire format is parsed from its bytes, whatever follows them.
  pub transaction-Reads :
      (tx : Transaction lib.ClarityValue)
      → FitsTransaction laws.serialize_cv tx
      → Reads (read_transaction lib) (encode_transaction laws.serialize_cv tx) tx
  unfolding read_transaction read_mode_and_conditions encode_transaction encode_mode_and_conditions
  transaction-Reads tx h =
      let raw_eq = ap (λ raw. record tx { raw_post_conditions = raw }) (sym h.4) in
      Reads-value raw_eq (
        Reads-bind _ (enum-Reads lib laws TransactionVersion_enum _ tx.version version-Finds) (
          Reads-bind _ (u32-Reads lib laws tx.chain_id h.0) (
            auth-Reads _ tx.auth h.1 (
              Reads-bind _
                (enum-Reads lib laws TransactionAnchorMode_enum _ tx.anchor_mode anchor_mode-Finds)
                (Reads-bind _
                  (Reads-with_raw (
                    Reads-bind _
                      (enum-Reads lib laws TransactionPostConditionMode_enum _
                        tx.post_condition_mode mode-Finds)
                      (Reads-last _ (post_conditions-Reads lib laws tx.post_conditions h.2 h.3))))
                  (Reads-last _ (payload-Reads tx.payload h.5)))))))

  pub transactions-Reads :
      (txs : List (Transaction lib.ClarityValue))
      → length txs < 2 ^ 32
      → All (FitsTransaction laws.serialize_cv) txs
      → Reads (read_transactions lib) (encode_list (encode_transaction laws.serialize_cv) txs) txs
  unfolding read_transactions encode_list
  transactions-Reads txs h fits = Reads-bind _ (u32-Reads lib laws (length txs) h) (
      Reads-read_times _ (encode_transaction laws.serialize_cv) txs
        (All-map txs transaction-Reads fits))
