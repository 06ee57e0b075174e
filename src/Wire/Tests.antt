-- ===== src/Wire/Tests.antt =====
-- Concrete transactions and blocks: the theorems on the wire format at them, and runs of the parsers.
use stacks_blockchain_rosett.Base.{
  ℕ, ◌+◌, ◌≡◌, refl, [], ◌∷◌, ◌++◌, length, replicate, List, take, drop, zero, suc, ap, sym, ◌∙◌,
  append-nil, ◌<◌, ◌^◌, false, ok, err, arith, In, ◌≢◌, ◌⊎◌,
}
use stacks_blockchain_rosett.Wire.Signed.{pos, negsuc, pattern64}
use stacks_blockchain_rosett.Wire.Reader.{
  Buffer, Reader, from_buffer, stacks_message_parsing_error, read_uint8_enum,
}
use stacks_blockchain_rosett.Wire.Tx.{
  SingleSigHashMode, single_sig, auth_standard, any, deny, testnet, sent_ge, recipient_address,
  principal_origin, post_condition_stx, payload_token_transfer, Transaction, StacksAddress,
  TransactionAuth, TransactionVersion, TransactionVersion_enum,
}
use stacks_blockchain_rosett.Wire.Payload.{read_transaction_payload}
use stacks_blockchain_rosett.Wire.Transaction.{read_transaction}
use stacks_blockchain_rosett.Wire.Block.{BlockHeader, Block, read_blocks}
use stacks_blockchain_rosett.Wire.Reads.{Reads, encode_all, advance}
use stacks_blockchain_rosett.Wire.Encode.{
  be_bytes, encode_list, encode_mode_and_conditions, encode_transaction, encode_block,
  encode_recipient, encode_post_condition, encode_principal, encode_auth, encode_spending_condition,
  encode_payload, encode_address,
}
use stacks_blockchain_rosett.Wire.Encodable.{FitsTransaction, FitsBlock}
use stacks_blockchain_rosett.Wire.Sample.{sample_library, sample_laws}
use stacks_blockchain_rosett.Wire.RoundTrip.Blocks.{read_transaction-encode, read_blocks-encode}
use stacks_blockchain_rosett.Wire.Messages.{
  StacksMessage, message_blocks, message_transaction, read_messages,
}
use stacks_blockchain_rosett.Wire.RoundTrip.Messages.{
  encode_relayers, encode_body, FitsMessage, Sent, encode_sent_payload, IsSendable,
}
use stacks_blockchain_rosett.Wire.RoundTrip.Deliveries.{encode_all_sent, read_messages-encode}
use stacks_blockchain_rosett.Wire.SampleStream.{Chunks, sample_stream, sample_stream_laws}
use stacks_blockchain_rosett.Wire.Rejects.{read_uint8_enum_outcome, token_transfer_amount_signed}

abbrev serialize : ℕ → Buffer
serialize = sample_laws.serialize_cv

abbrev someone : StacksAddress
someone = record { version = 26; bytes = replicate 20 7 }

abbrev signed_by : ℕ → TransactionAuth
signed_by nonce = auth_standard (
    single_sig (record {
      hash_mode = SingleSigHashMode.p2pkh;
      signer = replicate 20 1;
      nonce = nonce;
      fee_rate = 180;
      key_encoding = 0;
      signature = replicate 65 9;
    }))

-- A transfer of 5 micro-STX with one post-condition, and a coinbase.
abbrev transfer : Transaction ℕ
transfer = record {
  version = testnet;
  chain_id = 2147483648;
  auth = signed_by 3;
  anchor_mode = any;
  post_condition_mode = deny;
  post_conditions =
      post_condition_stx
        (record { principal = principal_origin; condition_code = sent_ge; amount = pos 5 })
      ∷ [];
  raw_post_conditions = 2 ∷ 0 ∷ 0 ∷ 0 ∷ 1 ∷ 0 ∷ 1 ∷ 3 ∷ 0 ∷ 0 ∷ 0 ∷ 0 ∷ 0 ∷ 0 ∷ 0 ∷ 5 ∷ [];
  payload =
      payload_token_transfer
        (record { recipient = recipient_address someone; amount = pos 5; memo = replicate 34 0 });
}

transfer_fits : FitsTransaction serialize transfer
unfolding encode_mode_and_conditions encode_list encode_all encode_post_condition encode_principal
    be_bytes pattern64
transfer_fits = (
  omega arith,
  omega arith,
  omega arith,
  omega arith,
  refl,
  (omega arith, omega arith, omega arith),
)

read_transaction-encode_example :
    read_transaction sample_library (from_buffer (encode_transaction serialize transfer ++ 1 ∷ []))
    ≡ ok (
      transfer,
      record {
        internal_buffer = encode_transaction serialize transfer ++ 1 ∷ [];
        read_offset = 0 + length (encode_transaction serialize transfer);
      },
    )
read_transaction-encode_example =
    read_transaction-encode sample_library sample_laws transfer (1 ∷ []) transfer_fits

abbrev header : BlockHeader
header = record {
  version = 1;
  work_score = record { burn = 11; work = 2 };
  vrf_proof = record { gamma = replicate 32 3; c = replicate 16 4; s = replicate 32 5 };
  parent_block_hash = replicate 32 6;
  parent_microblock_hash = replicate 32 0;
  parent_microblock_sequence = 0;
  tx_merkle_root_hash = replicate 32 8;
  state_merkle_root_hash = replicate 32 9;
  microblock_pubkey_hash = replicate 20 10;
}

abbrev block : Block ℕ
block = record { header = header; transactions = transfer ∷ [] }

block_fits : FitsBlock serialize block
block_fits = (omega arith, omega arith, (transfer_fits, tt))

read_blocks-encode_example :
    read_blocks sample_library
      (from_buffer (encode_list (encode_block serialize) (block ∷ []) ++ []))
    ≡ ok (
      block ∷ [],
      record {
        internal_buffer = encode_list (encode_block serialize) (block ∷ []) ++ [];
        read_offset = 0 + length (encode_list (encode_block serialize) (block ∷ []));
      },
    )
read_blocks-encode_example =
    read_blocks-encode sample_library sample_laws (block ∷ []) [] (omega arith) (block_fits, tt)

abbrev three_bytes : Reader
three_bytes = record { internal_buffer = 9 ∷ 128 ∷ 4 ∷ []; read_offset = 1 }

read_uint8_enum_outcome_example :
    ((a : TransactionVersion) × In a TransactionVersion_enum.members
      × (TransactionVersion_enum.value a ≡ 128)
      × (read_uint8_enum sample_library TransactionVersion_enum "version " three_bytes
          ≡ ok (a, advance 1 three_bytes)))
    ⊎ (((a : TransactionVersion)
          → In a TransactionVersion_enum.members
          → TransactionVersion_enum.value a ≢ 128)
        × (read_uint8_enum sample_library TransactionVersion_enum "version " three_bytes
            ≡ err (stacks_message_parsing_error "version " 128)))
read_uint8_enum_outcome_example =
    read_uint8_enum_outcome sample_library sample_laws TransactionVersion_enum "version " 128
      (4 ∷ []) three_bytes (omega arith) refl

-- 2^64 - 1 micro-STX reads as -1.
token_transfer_amount_signed_example :
    Reads
      (read_transaction_payload sample_library)
      (0 ∷ []
        ++ (encode_recipient (recipient_address someone)
            ++ (be_bytes 8 18446744073709551615 ++ replicate 34 0)))
      (payload_token_transfer (record {
        recipient = recipient_address someone;
        amount = negsuc 0;
        memo = replicate 34 0;
      }))
token_transfer_amount_signed_example =
    token_transfer_amount_signed sample_library sample_laws (recipient_address someone)
      18446744073709551615 (replicate 34 0) (omega arith) (omega arith) (omega arith) refl

abbrev one_transfer : StacksMessage ℕ
one_transfer = message_transaction transfer

abbrev payload_of : StacksMessage ℕ → Buffer
payload_of m = encode_relayers 1 (replicate 107 0) ++ encode_body sample_library sample_laws m

abbrev sent : StacksMessage ℕ → Sent sample_library sample_laws
sent m = record {
  preamble = record {
    peer_version = 24;
    network_id = 2147483648;
    sequence_number = 7;
    burn_block_height = 100;
    burn_consensus_hash = replicate 20 1;
    burn_stable_block_height = 93;
    burn_stable_consensus_hash = replicate 20 2;
    additional_data = 0;
    signature = replicate 65 3;
    payload_length = length (payload_of m);
  };
  relayers = 1;
  relayer_data = replicate 107 0;
  message = m;
}

sent-IsSendable :
    (m : StacksMessage ℕ)
    → FitsMessage sample_library sample_laws m
    → length (payload_of m) < 2 ^ 32
    → IsSendable sample_library sample_laws (sent m)
unfolding encode_sent_payload
sent-IsSendable m fits small = record {
  preamble = record {
    peer_version = omega arith;
    network_id = omega arith;
    sequence_number = omega arith;
    burn_block_height = omega arith;
    burn_consensus_hash = refl;
    burn_stable_block_height = omega arith;
    burn_stable_consensus_hash = refl;
    additional_data = omega arith;
    signature = refl;
    payload_length = small;
  };
  relayers = omega arith;
  relayer_data = refl;
  message = fits;
  payload_length = refl;
}

abbrev two_sent : List (Sent sample_library sample_laws)
two_sent = sent one_transfer ∷ sent (message_blocks []) ∷ []

-- Both messages, ten bytes of them buffered and the others still to come.
abbrev all_sent : Buffer
all_sent = encode_all_sent sample_library sample_stream sample_stream_laws sample_laws two_sent

abbrev arriving : Chunks
arriving = (take 10 all_sent, drop 10 all_sent ∷ [])

take-drop : (n : ℕ) (b : Buffer) → take n b ++ drop n b ≡ b
take-drop zero b = refl
take-drop (suc n) [] = refl
take-drop (suc n) (x ∷ b) = ap (◌∷◌ x) (take-drop n b)

transfer-small : length (payload_of one_transfer) < 2 ^ 32
unfolding encode_relayers encode_body be_bytes encode_transaction encode_mode_and_conditions
    encode_list encode_all encode_post_condition encode_principal pattern64 encode_auth
    encode_spending_condition encode_payload encode_recipient encode_address
transfer-small = omega arith

no_blocks-small : length (payload_of (message_blocks [])) < 2 ^ 32
unfolding encode_relayers encode_body be_bytes encode_list encode_all
no_blocks-small = omega arith

transfer-FitsMessage : FitsMessage sample_library sample_laws one_transfer
unfolding FitsMessage
transfer-FitsMessage = transfer_fits

no_blocks-FitsMessage : FitsMessage sample_library sample_laws (message_blocks [])
unfolding FitsMessage
no_blocks-FitsMessage = (omega arith, tt)

read_messages-encode_example :
    (read_messages sample_library sample_stream (λ s. false) 2 2 arriving).0
    ≡ one_transfer ∷ message_blocks [] ∷ []
unfolding sample_stream_laws
read_messages-encode_example =
    read_messages-encode sample_library sample_stream sample_stream_laws sample_laws (λ s. false) 2
      two_sent arriving [] (λ t. refl)
      (
        sent-IsSendable one_transfer transfer-FitsMessage transfer-small,
        (sent-IsSendable (message_blocks []) no_blocks-FitsMessage no_blocks-small, tt),
      )
      (ap (λ b. take 10 all_sent ++ b) (append-nil (drop 10 all_sent))
        ∙ (take-drop 10 all_sent ∙ sym (append-nil all_sent)))
      (omega arith)
