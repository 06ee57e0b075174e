-- ===== src/Wire/Payload.antt =====
-- src/p2p/tx.ts: `readTransactionPayload`.
use stacks_blockchain_rosett.Base.{ℕ, List, [], ◌∷◌, Option, none, some, ◌==◌, if◌then◌else◌}
use stacks_blockchain_rosett.Wire.Reader.{
  plain_error, Buffer, Read, Library, pure, throw, ◌>>=◌, offset, copy_since, read_uint8_enum,
}
use stacks_blockchain_rosett.Wire.Tx.{
  microblock_header_size, RecipientPrincipal, recipient_address, recipient_contract,
  TransactionPayloadTypeId, TransactionPayloadTypeId_enum, TransactionPayload,
  payload_token_transfer, payload_coinbase, payload_contract_call, payload_smart_contract,
  payload_poison_microblock,
}
use stacks_blockchain_rosett.Wire.Fields.{
  read_string, read_contract_name, read_clarity_name, read_stacks_address, read_clarity_value_array,
}

-- `rawFunctionArgs` is left undefined where there is no argument.
unfoldable pub raw_unless_empty {ℓ} : {A : Type ℓ} → List A → Buffer → Option Buffer
raw_unless_empty [] raw = none
raw_unless_empty (x ∷ xs) raw = some raw

-- `p`, and the bytes that it has read, copied from the reader's buffer.
unfoldable pub with_raw {ℓ} : {A : Type ℓ} → Read A → Read (A × Buffer)
with_raw p = do index_start ← offset; a ← p; raw ← copy_since index_start; pure (a, raw)

module _ (lib : Library) where
  -- The recipient's type id is a plain number, tested against 5 and 6.
  unfoldable pub recipient_of_type : ℕ → Read RecipientPrincipal
  recipient_of_type recipient_type_id =
      if recipient_type_id == 0x05
      then (do address ← read_stacks_address lib; pure (recipient_address address))
      else if recipient_type_id == 0x06
      then (do
        address ← read_stacks_address lib
        contract_name ← read_contract_name lib
        pure (recipient_contract address contract_name))
      else throw (plain_error "Unexpected recipient principal type ID " recipient_type_id)

  unfoldable pub payload_of_type :
      TransactionPayloadTypeId → Read (TransactionPayload lib.ClarityValue)
  payload_of_type TransactionPayloadTypeId.coinbase =
      lib.read_buffer 32 >>= λ payload. pure (payload_coinbase payload)
  payload_of_type TransactionPayloadTypeId.token_transfer = do
    recipient_type_id ← lib.read_uint8
    recipient ← recipient_of_type recipient_type_id
    amount ← lib.read_big_int64_be
    memo ← lib.read_buffer 34
    pure (payload_token_transfer (record { recipient = recipient; amount = amount; memo = memo }))
  payload_of_type TransactionPayloadTypeId.smart_contract = do
    name ← read_contract_name lib
    code_body ← read_string lib
    pure (payload_smart_contract (record { name = name; code_body = code_body }))
  payload_of_type TransactionPayloadTypeId.contract_call = do
    address ← read_stacks_address lib
    contract_name ← read_contract_name lib
    function_name ← read_clarity_name lib
    args ← with_raw (read_clarity_value_array lib)
    pure (
        payload_contract_call (record {
          address = address;
          contract_name = contract_name;
          function_name = function_name;
          function_args = args.0;
          raw_function_args = raw_unless_empty args.0 args.1;
        }))
  payload_of_type TransactionPayloadTypeId.poison_microblock = do
    microblock_header1 ← lib.read_buffer microblock_header_size
    microblock_header2 ← lib.read_buffer microblock_header_size
    pure (payload_poison_microblock microblock_header1 microblock_header2)

  unfoldable pub read_transaction_payload : Read (TransactionPayload lib.ClarityValue)
  read_transaction_payload =
      read_uint8_enum lib TransactionPayloadTypeId_enum "unexpected tx payload type: "
      >>= payload_of_type
