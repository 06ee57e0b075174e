-- ===== src/Events/Sender.antt =====
-- src/event-stream/reader.ts: the addresses of a transaction, and `parseMessageTransactions`.
use stacks_blockchain_rosett.Base.{
  ℕ, List, [], ◌∷◌, ◌++◌, Option, none, some, Result, ok, err, and_then, ◌==◌, if◌then◌else◌,
  length, drop,
}
use stacks_blockchain_rosett.Wire.Reader.{
  Error, message_error, not_implemented_error, Buffer, Library, from_buffer,
}
use stacks_blockchain_rosett.Wire.Tx.{
  Text, SigHashMode, SingleSigHashMode, MultiSigHashMode, TransactionSpendingCondition, single_sig,
  multi_sig, TransactionAuth, auth_standard, auth_sponsored, TransactionVersion, StacksAddress,
  RecipientPrincipal, recipient_address, recipient_contract, Transaction, TransactionPayload,
  payload_token_transfer, payload_coinbase, payload_contract_call, payload_smart_contract,
  payload_poison_microblock,
}
use stacks_blockchain_rosett.Wire.Transaction.{read_transaction}
use stacks_blockchain_rosett.Events.Message.{
  Services, CoreNodeTxMessage, CoreNodeMessage, CoreNodeParsedTxMessage,
}
use stacks_blockchain_rosett.Events.Hex.{to_hex, from_hex}

-- The fields that both kinds of spending condition have.
unfoldable pub condition_hash_mode : TransactionSpendingCondition → SigHashMode
condition_hash_mode (single_sig c) = elim (c.hash_mode) [
  | SingleSigHashMode.p2pkh ↦ SigHashMode.p2pkh
  | SingleSigHashMode.p2wpkh ↦ SigHashMode.p2wpkh
]
condition_hash_mode (multi_sig c) = elim (c.hash_mode) [
  | MultiSigHashMode.p2sh ↦ SigHashMode.p2sh
  | MultiSigHashMode.p2wsh ↦ SigHashMode.p2wsh
]

unfoldable pub condition_signer : TransactionSpendingCondition → Buffer
condition_signer (single_sig c) = c.signer
condition_signer (multi_sig c) = c.signer

unfoldable pub condition_fee_rate : TransactionSpendingCondition → ℕ
condition_fee_rate (single_sig c) = c.fee_rate
condition_fee_rate (multi_sig c) = c.fee_rate

unfoldable pub origin_condition : TransactionAuth → TransactionSpendingCondition
origin_condition (auth_standard origin) = origin
origin_condition (auth_sponsored origin sponsor) = origin

module _ (services : Services) where
  -- `addressFromVersionHash` and `addressToString` are one operation of the services.
  unfoldable pub get_address_from_public_key_hash :
      Buffer → SigHashMode → TransactionVersion → Result Error Text
  get_address_from_public_key_hash public_key_hash hash_mode version =
      and_then (services.address_hash_mode_to_version hash_mode version) (λ addr_ver.
        if length public_key_hash == 20
        then services.address_string addr_ver (to_hex public_key_hash)
        else err (message_error "expected 20-byte pubkeyhash"))

  unfoldable pub get_tx_sender_address : {V : Type 0} → Transaction V → Result Error Text
  get_tx_sender_address tx =
      let origin = origin_condition tx.auth in
      get_address_from_public_key_hash (condition_signer origin) (condition_hash_mode origin)
        tx.version

  unfoldable pub sponsor_of_auth : TransactionAuth → TransactionVersion → Result Error (Option Text)
  sponsor_of_auth (auth_standard origin) version = ok none
  sponsor_of_auth (auth_sponsored origin sponsor) version =
      and_then
        (get_address_from_public_key_hash (condition_signer sponsor) (condition_hash_mode sponsor)
          version)
        (λ a. ok (some a))

  unfoldable pub get_tx_sponsor_address : {V : Type 0} → Transaction V → Result Error (Option Text)
  get_tx_sponsor_address tx = sponsor_of_auth tx.auth tx.version

  -- `c32address(address.version, address.bytes.toString('hex'))`
  unfoldable pub c32_of : StacksAddress → Result Error Text
  c32_of address = services.c32address address.version (to_hex address.bytes)

  -- The address of a recipient, with `.` and the contract's name for a contract.
  unfoldable pub recipient_principal : RecipientPrincipal → Result Error Text
  recipient_principal (recipient_address address) = c32_of address
  recipient_principal (recipient_contract address name) =
      and_then (c32_of address) (λ a. ok (a ++ 46 ∷ name))

  -- The `switch` behind a parsed transaction: what it throws; its log lines are left out.
  unfoldable pub check_payload : {V : Type 0} → TransactionPayload V → Result {0} Error Unit
  check_payload (payload_coinbase bytes) = ok tt
  check_payload (payload_smart_contract p) = ok tt
  check_payload (payload_contract_call p) = and_then (c32_of p.address) (λ a. ok tt)
  check_payload (payload_token_transfer p) = and_then (recipient_principal p.recipient) (λ a. ok tt)
  check_payload (payload_poison_microblock one two) =
      err (not_implemented_error "extracting data for tx type: 3 'PoisonMicroblock'")

  module _ (lib : Library) where
    abbrev pub Msg : Type 0
    Msg = CoreNodeMessage services.ClarityAbi

    abbrev pub ParsedTx : Type 0
    ParsedTx = CoreNodeParsedTxMessage services.ClarityAbi lib.ClarityValue

    -- One round of the loop of `parseMessageTransactions`; `substring(2)` is `drop 2`.
    unfoldable pub parse_message_transaction :
        Msg → CoreNodeTxMessage services.ClarityAbi → Result Error ParsedTx
    parse_message_transaction msg core_tx =
        let tx_buffer = from_hex (drop 2 core_tx.raw_tx) in
        and_then (read_transaction lib (from_buffer tx_buffer)) (λ parsed.
          and_then (get_tx_sender_address parsed.0) (λ sender.
            and_then (get_tx_sponsor_address parsed.0) (λ sponsor.
              and_then (check_payload parsed.0.payload) (λ u. ok (record {
                core_tx = core_tx;
                parsed_tx = parsed.0;
                raw_tx = tx_buffer;
                sender_address = sender;
                sponsor_address = sponsor;
                block_hash = msg.block_hash;
                index_block_hash = msg.index_block_hash;
                block_height = msg.block_height;
                burn_block_time = msg.burn_block_time;
              })))))

    unfoldable pub parse_transactions :
        Msg → List (CoreNodeTxMessage services.ClarityAbi) → Result Error (List ParsedTx)
    parse_transactions msg [] = ok []
    parse_transactions msg (t ∷ ts) =
        and_then (parse_message_transaction msg t)
          (λ p. and_then (parse_transactions msg ts) (λ ps. ok (p ∷ ps)))

    unfoldable pub parse_message_transactions : Msg → Result Error (List ParsedTx)
    parse_message_transactions msg = parse_transactions msg msg.transactions
