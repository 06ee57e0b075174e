-- ===== src/Api/Tests.antt =====
-- Concrete inputs of the API: the theorems at them, and runs.
use stacks_blockchain_rosett.Base.{
  ◌^◌, map_or_throw, ℕ, ◌≡◌, ◌≢◌, ◌↔◌, ◌⊎◌, refl, true, false, List, [], ◌∷◌, ◌++◌, map, none, some,
  Result, ok, err, length, ltb, if◌then◌else◌, units, replicate, arith,
}
use stacks_blockchain_rosett.Wire.Signed.{pos}
use stacks_blockchain_rosett.Wire.Reader.{Error, Buffer, message_error, library_error}
use stacks_blockchain_rosett.Wire.Tx.{
  Text, sent_eq, sent_ge, principal_origin, post_condition_stx, TransactionPostCondition,
}
use stacks_blockchain_rosett.Wire.Encode.{encode_list, encode_post_condition}
use stacks_blockchain_rosett.Wire.Sample.{sample_library, sample_laws}
use stacks_blockchain_rosett.Datastore.Common.{DbMempoolTx, DbTxTypeId, DbTxStatus}
use stacks_blockchain_rosett.Postgres.Tables.{Db, select}
use stacks_blockchain_rosett.Postgres.Chain.Ancestors.{empty_db}
use stacks_blockchain_rosett.Postgres.Queries.Rows.{
  no_columns, parse_mempool_tx_query_result, parse_payload_columns, unless_empty,
}
use stacks_blockchain_rosett.Postgres.Queries.Lists.{get_mempool_tx, mempool_row}
use stacks_blockchain_rosett.Events.Hex.{
  to_hex, hex_digit, from_hex, digit_value, hex_byte, before_stop,
}
use stacks_blockchain_rosett.Api.Services.{◌>>=◌, decimal_ℕ}
use stacks_blockchain_rosett.Api.Sample.{sample_api}
use stacks_blockchain_rosett.Api.Labels.{
  parse_tx_type_strings, get_tx_type_string, get_tx_type_id, parse_tx_type_strings_lem,
}
use stacks_blockchain_rosett.Api.PostConditions.{
  LabelHolds, CodeHolds, serialize_fungible_condition_code, serialize_fungible_condition_code_label,
  serialize_post_condition,
}
use stacks_blockchain_rosett.Api.Payloads.{post_condition_views, parse_db_mempool_tx}
use stacks_blockchain_rosett.Api.Transactions.{get_tx_from_data_store}
use stacks_blockchain_rosett.Api.Lookup.{
  without_events, get_tx_from_data_store-mempool, post_condition_views-encode_list,
}
use stacks_blockchain_rosett.Api.Terms.{
  hash_buffer, has_0x_prefix, if_32_bytes, normalize_hash_string, is_valid_principal,
  contract_address, is_valid_c32_address, is_valid_contract_name, query_string, finite, infinity,
  double_of, round_to_double, nearest_multiple, parse_paging_query_input, parse_limit_query,
  bigint_parameter,
}
use stacks_blockchain_rosett.Api.Hashes.{normalize_hash_string_idempotent}
use stacks_blockchain_rosett.Api.Paging.{parse_limit_query-decimal_ℕ}
use stacks_blockchain_rosett.Api.Principals.{HasNoDot, IsRest, is_valid_principal_contract}

abbrev two_types : List Text
two_types = units "coinbase" ∷ units "token_transfer" ∷ []

parse_tx_type_strings_lem_example : (parse_tx_type_strings two_types ≡ ok two_types) ↔ (
    (types : List DbTxTypeId) × (two_types ≡ map get_tx_type_string types)
    × (two_types ≡ two_types)
    × (map_or_throw get_tx_type_id two_types ≡ ok types))
parse_tx_type_strings_lem_example = parse_tx_type_strings_lem two_types two_types

-- A code that the amount sent meets and whose label says otherwise.
serialize_fungible_condition_code_label_example :
    (LabelHolds (serialize_fungible_condition_code sent_ge) 5 5 ↔ CodeHolds sent_ge 5 5)
    ↔ ((sent_ge ≡ sent_eq) ⊎ (◌≢◌ {A = ℕ} 5 5))
serialize_fungible_condition_code_label_example =
    serialize_fungible_condition_code_label sent_ge 5 5

-- 32 bytes in upper-case digits with an upper-case prefix.
abbrev shouted : Text
shouted = 48 ∷ 88 ∷ replicate 64 65

abbrev normal : Text
normal = 48 ∷ 120 ∷ replicate 64 97

shouted_eq : normalize_hash_string shouted ≡ some normal
unfolding normalize_hash_string hash_buffer has_0x_prefix if_32_bytes from_hex to_hex hex_digit
    digit_value hex_byte before_stop
shouted_eq = refl

normalize_hash_string_idempotent_example :
    (normalize_hash_string normal ≡ some normal)
    × ((bytes : Buffer) × (hash_buffer shouted ≡ some bytes)
        × (length bytes ≡ 32)
        × (normal ≡ 48 ∷ 120 ∷ to_hex bytes))
normalize_hash_string_idempotent_example =
    normalize_hash_string_idempotent shouted normal shouted_eq

parse_limit_query-decimal_ℕ_example :
    (parse_paging_query_input (query_string (decimal_ℕ 201)) ≡ ok (finite 201))
    × (parse_limit_query 200 "`limit` must be equal to or less than 200"
          (query_string (decimal_ℕ 201))
        ≡ (if ltb 200 201
            then err (message_error "`limit` must be equal to or less than 200")
            else ok 201))
parse_limit_query-decimal_ℕ_example =
    parse_limit_query-decimal_ℕ 200 "`limit` must be equal to or less than 200" 201 (omega arith)

-- A decoder that takes a text that begins with `S`.
abbrev begins_with_s : Text → Result Error ℕ
begins_with_s [] = err (library_error "Invalid c32 address")
begins_with_s (c ∷ cs) =
    if ltb c 83 then err (library_error "Invalid c32 address") else ok (length cs)

is_valid_principal_contract_example :
    (is_valid_principal begins_with_s (units "SP3.hello-world.more") ≡ some contract_address) ↔ (
      (addr : Text) × (name : Text) × (rest : Text) × (units "SP3.hello-world.more"
        ≡ addr ++ (46 ∷ (name ++ rest)))
      × HasNoDot addr
      × (is_valid_c32_address begins_with_s addr ≡ true)
      × (is_valid_contract_name name ≡ true)
      × IsRest rest)
is_valid_principal_contract_example =
    is_valid_principal_contract begins_with_s (units "SP3.hello-world.more")

abbrev waiting : DbMempoolTx
waiting = record {
  tx_id = 5;
  raw_tx = [];
  type_id = DbTxTypeId.coinbase;
  status = DbTxStatus.pending;
  receipt_time = 1594647994;
  post_conditions = 1 ∷ 0 ∷ 0 ∷ 0 ∷ 0 ∷ [];
  fee_rate = 180;
  sender_address = 83 ∷ [];
  origin_hash_mode = 0;
  sponsored = false;
  sponsor_address = none;
  payload = record no_columns { coinbase_payload = some (replicate 32 0) };
}

abbrev waiting_db : Db
waiting_db = record empty_db { mempool_txs = waiting ∷ [] }

waiting_found : get_mempool_tx waiting_db 5 ≡ ok (some waiting)
unfolding get_mempool_tx mempool_row select parse_mempool_tx_query_result parse_payload_columns
    unless_empty
waiting_found = refl

get_tx_from_data_store-mempool_example :
    get_tx_from_data_store sample_library sample_api waiting_db 5 ≡ (
      parse_db_mempool_tx sample_library sample_api waiting >>= λ view.
      ok (some (without_events DbTxTypeId.coinbase view)))
get_tx_from_data_store-mempool_example =
    get_tx_from_data_store-mempool sample_library sample_api waiting_db 5 waiting waiting_found refl
      (λ e. absurd (cc)) (omega arith)

abbrev one_condition : List (TransactionPostCondition ℕ)
one_condition =
    post_condition_stx
      (record { principal = principal_origin; condition_code = sent_ge; amount = pos 5 })
    ∷ []

post_condition_views-encode_list_example :
    post_condition_views sample_library sample_api
      (2 ∷ encode_list (encode_post_condition sample_laws.serialize_cv) one_condition)
    ≡ map_or_throw (serialize_post_condition sample_api) one_condition
post_condition_views-encode_list_example =
    post_condition_views-encode_list sample_library sample_api sample_laws 2 one_condition
      (omega arith) (omega arith)

-- An offset that is no double, and one past the doubles.
rounded_even : double_of 9007199254740993 ≡ finite 9007199254740992
unfolding double_of round_to_double nearest_multiple
rounded_even = refl

rounded_up : double_of 9007199254740995 ≡ finite 9007199254740996
unfolding double_of round_to_double nearest_multiple
rounded_up = refl

too_large : double_of (10 ^ 309) ≡ infinity
unfolding double_of round_to_double nearest_multiple
too_large = refl

refused_offset :
    bigint_parameter (finite 9223372036854775808)
    ≡ err (library_error "value is out of range for type bigint")
unfolding bigint_parameter
refused_offset = refl
