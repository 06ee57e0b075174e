-- ===== src/Events/Tests.antt =====
-- Concrete messages of the node: the theorems on the event stream at them, and runs.
use stacks_blockchain_rosett.Base.{
  map_or_throw, none, ℕ, ◌≡◌, refl, inl, inr, List, [], ◌∷◌, ◌++◌, replicate, Result, ok, err, drop,
  arith,
}
use stacks_blockchain_rosett.Wire.Signed.{pos}
use stacks_blockchain_rosett.Wire.Reader.{
  Error, Buffer, Reader, from_buffer, read_uint8_enum, enum_or_throw, parse_enum, pure, throw,
  ◌>>=◌, offset, copy_since, read_times,
}
use stacks_blockchain_rosett.Wire.Tx.{
  Text, Transaction, TransactionPayload, payload_coinbase, payload_poison_microblock, testnet,
  auth_standard, single_sig, SingleSigHashMode, any, allow,
}
use stacks_blockchain_rosett.Wire.PostConditions.{read_transaction_post_conditions}
use stacks_blockchain_rosett.Wire.Spending.{
  read_transaction_spending_condition, condition_of_type, read_single_sig,
}
use stacks_blockchain_rosett.Wire.Payload.{read_transaction_payload, payload_of_type, with_raw}
use stacks_blockchain_rosett.Wire.Transaction.{
  read_transaction, auth_of_type, read_mode_and_conditions,
}
use stacks_blockchain_rosett.Wire.Reads.{be_value}
use stacks_blockchain_rosett.Wire.Sample.{sample_library, read_bytes, read_as}
use stacks_blockchain_rosett.Datastore.Common.{DataStoreUpdateData}
use stacks_blockchain_rosett.Postgres.Chain.Invariant.{IsChain}
use stacks_blockchain_rosett.Postgres.Chain.Ancestors.{empty_db, IsChain-empty}
use stacks_blockchain_rosett.Events.Message.{
  Services, CoreNodeTxStatus, CoreNodeTxMessage, CoreNodeMessage, contract_event,
  stx_transfer_event,
}
use stacks_blockchain_rosett.Events.HexRoundTrip.{hex_to_buffer-buffer_to_hex_prefix_string}
use stacks_blockchain_rosett.Events.Hex.{
  buffer_to_hex_prefix_string, to_hex, hex_digit, from_hex, digit_value, hex_byte, before_stop,
  starts_with_0x, hex_to_buffer,
}
use stacks_blockchain_rosett.Events.Sender.{
  condition_hash_mode, condition_signer, origin_condition, condition_fee_rate,
  get_address_from_public_key_hash, get_tx_sender_address, sponsor_of_auth, get_tx_sponsor_address,
  check_payload, parse_message_transaction, parse_transactions, parse_message_transactions,
}
use stacks_blockchain_rosett.Events.Record.{
  create_db_mempool_tx_from_core_msg, get_tx_db_status, type_id_of, is_sponsored, payload_columns,
  extract_transaction_payload, create_db_tx_from_core_msg,
}
use stacks_blockchain_rosett.Events.Server.{
  event_index, push_stx, push_log, push_event, add_event, add_events, deployed, create_entries,
  db_block, client_data, handle_client_message,
}
use stacks_blockchain_rosett.Events.Numbering.{AllNumbered, client_data-IsNumbered}
use stacks_blockchain_rosett.Events.Mempool.{
  DecodedTx, decode_tx, decode_txs, mempool_tx_of, store_decoded, store_all,
  handle_mempool_txs_message,
}
use stacks_blockchain_rosett.Events.Pending.{
  Extends, IsReceived, handle_mempool_txs_message-Extends,
}
use stacks_blockchain_rosett.Events.Stored.{HasId, handle_mempool_txs_message-HasId}
use stacks_blockchain_rosett.Events.Chain.{
  handle_client_messages, handle_client_messages-IsChain, handle_client_message-poison,
}

-- Addresses are the version in front of the hash; every amount reads as 7.
abbrev services : Services
services = record {
  ClarityAbi = ℕ;
  address_hash_mode_to_version = λ mode version. ok 26;
  address_string = λ version hash. ok (version ∷ hash);
  c32address = λ version hash. ok (version ∷ hash);
  digest_sha512_256 = λ bytes. be_value 0 bytes;
  big_int = λ text. ok (pos 7);
  stringify = λ abi. [];
}

-- A transaction with a standard, single-signature authorisation and the given payload.
abbrev raw : Buffer → Text
raw payload =
    48
    ∷ 120
    ∷ to_hex (
        128 ∷ replicate 4 0
        ++ 4 ∷ 0 ∷ replicate 20 1
        ++ replicate 16 0
        ++ 0 ∷ replicate 65 9
        ++ 3 ∷ 1 ∷ replicate 4 0
        ++ payload)

abbrev coinbase : CoreNodeTxMessage ℕ
coinbase = record {
  raw_tx = raw (4 ∷ replicate 32 5);
  status = CoreNodeTxStatus.success;
  raw_result = [];
  txid = 501;
  tx_index = 0;
  contract_abi = 0;
}

abbrev poison : CoreNodeTxMessage ℕ
poison = record coinbase { raw_tx = raw (3 ∷ replicate 132 1 ++ replicate 132 2) }

abbrev message : List (CoreNodeTxMessage ℕ) → CoreNodeMessage ℕ
message txs = record {
  block_hash = 61;
  block_height = 1;
  burn_block_time = 1594647994;
  index_block_hash = 71;
  parent_index_block_hash = 70;
  parent_block_hash = 60;
  parent_microblock = 0;
  events =
      record { txid = 501; event = stx_transfer_event (82 ∷ []) (83 ∷ []) (55 ∷ []) }
      ∷ record { txid = 501; event = contract_event (84 ∷ []) (85 ∷ []) (48 ∷ 120 ∷ 48 ∷ 51 ∷ []) }
      ∷ record { txid = 501; event = stx_transfer_event (83 ∷ []) (82 ∷ []) (55 ∷ []) }
      ∷ [];
  transactions = txs;
}

abbrev or_else {ℓ} : {A : Type ℓ} → A → Result Error A → A
or_else a (ok b) = b
or_else a (err e) = a

-- What the message with the coinbase becomes.
abbrev data' : DataStoreUpdateData
data' =
    or_else (record { block = db_block services sample_library (message []); txs = [] })
      (client_data services sample_library (message (coinbase ∷ [])))

data'_eq : client_data services sample_library (message (coinbase ∷ [])) ≡ ok data'
unfolding client_data parse_message_transactions parse_transactions parse_message_transaction
    read_transaction auth_of_type read_mode_and_conditions read_transaction_spending_condition
    condition_of_type read_single_sig with_raw read_transaction_post_conditions
    read_transaction_payload payload_of_type read_uint8_enum enum_or_throw parse_enum pure throw
    ◌>>=◌ offset copy_since from_buffer read_times read_bytes read_as be_value to_hex hex_digit
    from_hex digit_value hex_byte before_stop starts_with_0x hex_to_buffer condition_hash_mode
    condition_signer origin_condition condition_fee_rate get_address_from_public_key_hash
    get_tx_sender_address sponsor_of_auth get_tx_sponsor_address check_payload get_tx_db_status
    type_id_of is_sponsored payload_columns extract_transaction_payload create_db_tx_from_core_msg
    event_index push_stx push_log push_event add_event add_events deployed create_entries
data'_eq = refl

client_data-IsNumbered_example : AllNumbered data'.txs
client_data-IsNumbered_example =
    client_data-IsNumbered services sample_library (message (coinbase ∷ [])) data' data'_eq

handle_client_messages-IsChain_example :
    IsChain
      (handle_client_messages services sample_library empty_db
        (message (coinbase ∷ []) ∷ message (poison ∷ []) ∷ [])).blocks
handle_client_messages-IsChain_example =
    handle_client_messages-IsChain services sample_library
      (message (coinbase ∷ []) ∷ message (poison ∷ []) ∷ []) empty_db
      (omega arith, (omega arith, tt)) IsChain-empty

-- The transaction of `raw`, read, with a payload.
abbrev parsed : TransactionPayload ℕ → Transaction ℕ
parsed payload = record {
  version = testnet;
  chain_id = 0;
  auth = auth_standard (
      single_sig (record {
        hash_mode = SingleSigHashMode.p2pkh;
        signer = replicate 20 1;
        nonce = 0;
        fee_rate = 0;
        key_encoding = 0;
        signature = replicate 65 9;
      }));
  anchor_mode = any;
  post_condition_mode = allow;
  post_conditions = [];
  raw_post_conditions = 1 ∷ replicate 4 0;
  payload = payload;
}

abbrev parsed_poison : Transaction ℕ × Reader
parsed_poison = (
  parsed (payload_poison_microblock (replicate 132 1) (replicate 132 2)),
  record { internal_buffer = from_hex (drop 2 poison.raw_tx); read_offset = 380 },
)

poison_reads :
    read_transaction sample_library (from_buffer (from_hex (drop 2 poison.raw_tx)))
    ≡ ok parsed_poison
unfolding read_transaction auth_of_type read_mode_and_conditions read_transaction_spending_condition
    condition_of_type read_single_sig with_raw read_transaction_post_conditions
    read_transaction_payload payload_of_type read_uint8_enum enum_or_throw parse_enum pure throw
    ◌>>=◌ offset copy_since from_buffer read_times read_bytes read_as be_value to_hex hex_digit
    from_hex digit_value hex_byte before_stop
poison_reads = refl

handle_client_message-poison_example :
    handle_client_message services sample_library empty_db (message (coinbase ∷ poison ∷ []))
    ≡ empty_db
handle_client_message-poison_example =
    handle_client_message-poison services sample_library (message (coinbase ∷ poison ∷ [])) poison
      (replicate 132 1) (replicate 132 2) parsed_poison poison_reads refl empty_db (inr (inl refl))

-- Two transactions for the mempool, the second of them the first again.
abbrev pending : List Text
pending = coinbase.raw_tx ∷ coinbase.raw_tx ∷ []

handle_mempool_txs_message-Extends_example :
    Extends
      (IsReceived services sample_library 1594647994)
      empty_db
      (handle_mempool_txs_message services sample_library 1594647994 empty_db pending).0
handle_mempool_txs_message-Extends_example =
    handle_mempool_txs_message-Extends services sample_library 1594647994 empty_db pending

abbrev first : DecodedTx ℕ
first = record {
  tx_id = be_value 0 (from_hex (drop 2 coinbase.raw_tx));
  sender = 26 ∷ to_hex (replicate 20 1);
  sponsor_address = none;
  tx_data = parsed (payload_coinbase (replicate 32 5));
  raw_tx = from_hex (drop 2 coinbase.raw_tx);
}

abbrev decoded : List (DecodedTx ℕ)
decoded = first ∷ first ∷ []

decoded_eq : decode_txs services sample_library pending ≡ ok decoded
unfolding decode_txs map_or_throw decode_tx read_transaction auth_of_type read_mode_and_conditions
    read_transaction_spending_condition condition_of_type read_single_sig with_raw
    read_transaction_post_conditions read_transaction_payload payload_of_type read_uint8_enum
    enum_or_throw parse_enum pure throw ◌>>=◌ offset copy_since from_buffer read_times read_bytes
    read_as be_value to_hex hex_digit from_hex digit_value hex_byte before_stop starts_with_0x
    hex_to_buffer condition_hash_mode condition_signer origin_condition
    get_address_from_public_key_hash get_tx_sender_address sponsor_of_auth get_tx_sponsor_address
decoded_eq = refl

nothing_thrown :
    (handle_mempool_txs_message services sample_library 1594647994 empty_db pending).1 ≡ none
unfolding handle_mempool_txs_message store_all store_decoded mempool_tx_of
    create_db_mempool_tx_from_core_msg extract_transaction_payload payload_columns decode_txs
    map_or_throw decode_tx read_transaction auth_of_type read_mode_and_conditions
    read_transaction_spending_condition condition_of_type read_single_sig with_raw
    read_transaction_post_conditions read_transaction_payload payload_of_type read_uint8_enum
    enum_or_throw parse_enum pure throw ◌>>=◌ offset copy_since from_buffer read_times read_bytes
    read_as be_value to_hex hex_digit from_hex digit_value hex_byte before_stop starts_with_0x
    hex_to_buffer condition_hash_mode condition_signer origin_condition
    get_address_from_public_key_hash get_tx_sender_address sponsor_of_auth get_tx_sponsor_address
nothing_thrown = refl

handle_mempool_txs_message-HasId_example :
    HasId first.tx_id
      (handle_mempool_txs_message services sample_library 1594647994 empty_db pending).0
handle_mempool_txs_message-HasId_example =
    handle_mempool_txs_message-HasId services sample_library 1594647994 empty_db pending decoded
      decoded_eq nothing_thrown first (inl refl)

hex_to_buffer-buffer_to_hex_prefix_string_example :
    hex_to_buffer (buffer_to_hex_prefix_string (171 ∷ 9 ∷ [])) ≡ ok (171 ∷ 9 ∷ [])
hex_to_buffer-buffer_to_hex_prefix_string_example =
    hex_to_buffer-buffer_to_hex_prefix_string (171 ∷ 9 ∷ []) (omega arith, (omega arith, tt))
