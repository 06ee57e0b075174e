-- ===== src/Api/Routes/Tests.antt =====
-- Concrete requests: the theorems on the routes at them, and runs.
use stacks_blockchain_rosett.Base.{
  arith, map_or_throw, ℕ, ◌≡◌, ◌↔◌, ◌⊎◌, refl, true, false, List, [], ◌∷◌, map, In, none, some,
  Result, ok, err, units, replicate, ◌++◌, order_by, sort_by, insert_by,
}
use stacks_blockchain_rosett.Wire.Reader.{Error, Buffer, library_error}
use stacks_blockchain_rosett.Wire.Tx.{Text}
use stacks_blockchain_rosett.Wire.Reads.{be_value}
use stacks_blockchain_rosett.Wire.Sample.{sample_library}
use stacks_blockchain_rosett.Datastore.Common.{DbBlock, DbTx, DbTxTypeId, DbTxStatus}
use stacks_blockchain_rosett.Postgres.Tables.{Db, select}
use stacks_blockchain_rosett.Postgres.Chain.Ancestors.{empty_db}
use stacks_blockchain_rosett.Postgres.Queries.Rows.{
  no_columns, parse_rows, parse_tx_query_result, parse_payload_columns, or_empty, unless_empty,
}
use stacks_blockchain_rosett.Postgres.Queries.Lists.{
  Listed, get_blocks, get_tx, get_tx_list, get_mempool_tx, mempool_row, listed_tx,
}
use stacks_blockchain_rosett.Postgres.Queries.Events.{get_tx_events, tx_events}
use stacks_blockchain_rosett.Events.Hex.{
  to_hex, from_hex, digit_value, hex_byte, before_stop, buffer_to_hex_prefix_string, hex_digit,
}
use stacks_blockchain_rosett.Api.Services.{unwrap_optional, unix_epoch_to_iso, decimal_ℕ, digits}
use stacks_blockchain_rosett.Api.PostConditions.{label_allow, serialize_post_condition_mode}
use stacks_blockchain_rosett.Api.Sample.{sample_api}
use stacks_blockchain_rosett.Api.Labels.{get_tx_type_id, get_tx_type_string, get_tx_status_string}
use stacks_blockchain_rosett.Api.Events.{BlockView}
use stacks_blockchain_rosett.Api.Payloads.{
  TransactionView, coinbase_view, read_first_byte, payload_view,
}
use stacks_blockchain_rosett.Api.Transactions.{
  find_tx, is_pending, can_have_events, result_view, mined_view, event_views, common_view,
  get_tx_from_data_store,
}
use stacks_blockchain_rosett.Api.Terms.{
  has_0x_prefix, hash_buffer, parse_paging_query_input, limit_or_error, parse_limit_query, finite,
  bigint_parameter,
}
use stacks_blockchain_rosett.Api.Routes.Search.{SearchResult, perform_search, is_hit}
use stacks_blockchain_rosett.Api.Routes.Known.{IsKnown, subject, perform_search_hash}
use stacks_blockchain_rosett.Api.Routes.Lists.{
  PageReply, or_number, no_type, tx_type_filter, found_or_throw, listed_tx_view, list_txs,
  list_blocks,
}
use stacks_blockchain_rosett.Api.Routes.Blocks.{list_blocks_found}
use stacks_blockchain_rosett.Api.Routes.Transactions.{list_txs_ids}

abbrev coinbase_tx : DbTx
coinbase_tx = record {
  index_block_hash = 1;
  block_hash = 1;
  block_height = 1;
  burn_block_time = 1594647994;
  tx_id = 5;
  raw_tx = [];
  tx_index = 0;
  type_id = DbTxTypeId.coinbase;
  status = DbTxStatus.success;
  raw_result = none;
  canonical = true;
  post_conditions = 1 ∷ 0 ∷ 0 ∷ 0 ∷ 0 ∷ [];
  fee_rate = 3;
  sender_address = 83 ∷ [];
  origin_hash_mode = 0;
  sponsored = false;
  sponsor_address = none;
  payload = record no_columns { coinbase_payload = some (0 ∷ []) };
}

abbrev first_block : DbBlock
first_block = record {
  block_hash = 1;
  burn_block_time = 1594647994;
  index_block_hash = 1;
  parent_index_block_hash = 0;
  parent_block_hash = 0;
  parent_microblock = 0;
  block_height = 1;
  canonical = true;
}

abbrev one_block : Db
one_block = record empty_db {
  blocks = first_block ∷ [];
  txs = record { index_block_hash = 1; entry = coinbase_tx } ∷ [];
}

-- The hash 5 in 64 digits.
abbrev five : Text
five = units "0000000000000000000000000000000000000000000000000000000000000005"

abbrev five_bytes : Buffer
five_bytes = replicate 31 0 ++ 5 ∷ []

five_eq : hash_buffer five ≡ some five_bytes
unfolding hash_buffer has_0x_prefix from_hex digit_value hex_byte before_stop
five_eq = refl

abbrev no_address : Text → Result Error ℕ
no_address text = err (library_error "Invalid c32 address")

perform_search_hash_example :
    ((e : Error) × (perform_search no_address one_block five ≡ err e)
      × IsKnown one_block (be_value 0 five_bytes))
    ⊎ ((found : SearchResult) × (perform_search no_address one_block five ≡ ok found)
        × (subject found ≡ 48 ∷ 120 ∷ to_hex five_bytes)
        × ((is_hit found ≡ true) ↔ IsKnown one_block (be_value 0 five_bytes)))
perform_search_hash_example = perform_search_hash no_address one_block five five_bytes five_eq refl

limit_accepted :
    parse_limit_query 30 "`limit` must be equal to or less than 30" (or_number none 20) ≡ ok 20
unfolding parse_limit_query limit_or_error parse_paging_query_input
limit_accepted = refl

offset_accepted : parse_paging_query_input (or_number none 0) ≡ ok (finite 0)
unfolding parse_paging_query_input
offset_accepted = refl

list_blocks_found_example :
    (reply : PageReply BlockView) × (list_blocks (λ ts. ts) one_block none none ≡ ok reply)
    × (reply.total ≡ (get_blocks one_block 20 0).total)
    × (map (λ (v : BlockView). v.hash) reply.results
        ≡ map (λ (b : DbBlock). b.block_hash) (get_blocks one_block 20 0).results)
    × ((v : BlockView) → In v reply.results → v.canonical ≡ true)
list_blocks_found_example =
    list_blocks_found (λ ts. ts) one_block none none 20 0 limit_accepted offset_accepted
      (omega arith)

abbrev shown : PageReply TransactionView
shown = record {
  limit = 96;
  offset = 0;
  total = 1;
  results =
      record {
        tx_id = 5;
        tx_status = units "success";
        tx_type = units "coinbase";
        fee_rate = 51 ∷ [];
        sender_address = 83 ∷ [];
        sponsored = false;
        sponsor_address = none;
        post_condition_mode = label_allow;
        mined = some (record {
          block_hash = 1;
          block_height = 1;
          burn_block_time = 1594647994;
          burn_block_time_iso = unix_epoch_to_iso 1594647994;
          canonical = true;
          tx_index = 0;
          tx_result = none;
        });
        receipt = none;
        payload = coinbase_view (units "0x00");
        events = none;
      }
      ∷ [];
}

one_shown : list_txs sample_library sample_api one_block none none no_type ≡ ok shown
unfolding list_txs parse_limit_query limit_or_error parse_paging_query_input bigint_parameter
    tx_type_filter map_or_throw order_by sort_by insert_by or_empty get_tx_list select listed_tx
    parse_rows parse_tx_query_result parse_payload_columns unless_empty listed_tx_view
    get_tx_from_data_store find_tx get_mempool_tx mempool_row get_tx get_tx_events tx_events
    common_view read_first_byte serialize_post_condition_mode mined_view is_pending result_view
    payload_view unwrap_optional buffer_to_hex_prefix_string to_hex hex_digit event_views
    can_have_events found_or_throw decimal_ℕ digits get_tx_type_string get_tx_status_string
one_shown = refl

list_txs_ids_example :
    (strings : List Text) × (type_ids : List DbTxTypeId) × (listed : Listed DbTx) × (tx_type_filter
        no_type
      ≡ ok strings)
    × (map_or_throw get_tx_type_id strings ≡ ok type_ids)
    × (get_tx_list one_block 96 0 type_ids ≡ ok listed)
    × (shown.total ≡ listed.total)
    × (map (λ (v : TransactionView). v.tx_id) shown.results
        ≡ map (λ (t : DbTx). t.tx_id) listed.results)
list_txs_ids_example =
    list_txs_ids sample_library sample_api one_block none none no_type shown one_shown
