-- ===== src/Api/Routes/Search.antt =====
-- src/api/routes/search.ts. An `entity_id` is the text of the source, for a hash its hex string. A
-- reply that nothing was found carries what its message names.
use stacks_blockchain_rosett.Base.{
  ℕ, Bool, true, false, [], ◌∷◌, ◌==◌, leb, ◌||◌, ◌&&◌, length, Option, none, some, Result, ok, err,
  if◌then◌else◌,
}
use stacks_blockchain_rosett.Wire.Reader.{Error, message_error, Buffer}
use stacks_blockchain_rosett.Wire.Tx.{Text}
use stacks_blockchain_rosett.Wire.Reads.{be_value}
use stacks_blockchain_rosett.Wire.Encode.{be_bytes}
use stacks_blockchain_rosett.Datastore.Common.{Hash, DbBlock, DbTx}
use stacks_blockchain_rosett.Postgres.Tables.{Db}
use stacks_blockchain_rosett.Postgres.Queries.Search.{
  DbSearchResult, tx_id_result, mempool_tx_id_result, block_hash_result, contract_mempool_result,
  contract_tx_result, standard_address_result, search_hash, search_principal,
}
use stacks_blockchain_rosett.Events.Hex.{buffer_to_hex_prefix_string}
use stacks_blockchain_rosett.Api.Services.{◌>>=◌}
use stacks_blockchain_rosett.Api.Labels.{get_tx_type_string}
use stacks_blockchain_rosett.Api.Terms.{
  PrincipalType, standard_address, contract_address, is_valid_principal, hash_buffer,
}

-- The text of the 32 bytes of a hash.
unfoldable pub hash_text : Hash → Text
hash_text h = buffer_to_hex_prefix_string (be_bytes 32 h)

pub record BlockData : Type 0 where
  pub canonical : Bool
  pub hash : Hash
  pub parent_block_hash : Hash
  pub burn_block_time : ℕ
  pub height : ℕ

pub record TxData : Type 0 where
  pub canonical : Bool
  pub block_hash : Hash
  pub burn_block_time : ℕ
  pub block_height : ℕ
  pub tx_type : Text

-- The transaction of a contract, mined or of the mempool.
pub data ContractTx : Type 0 where
  mined_contract : TxData → ContractTx
  unmined_contract : (tx_type : Text) → ContractTx

pub data SearchResult : Type 0 where
  found_block : (entity_id : Text) → BlockData → SearchResult
  found_tx : (entity_id : Text) → TxData → SearchResult
  found_mempool_tx : (entity_id tx_type : Text) → SearchResult
  found_contract : (entity_id : Text) → Option ContractTx → SearchResult
  found_address : (entity_id : Text) → SearchResult
  unknown_hash : (hash : Text) → SearchResult
  unknown_principal : PrincipalType → (term : Text) → SearchResult
  invalid_term : (term : Text) → SearchResult

unfoldable pub block_data : DbBlock → BlockData
block_data b = record {
  canonical = b.canonical;
  hash = b.block_hash;
  parent_block_hash = b.parent_block_hash;
  burn_block_time = b.burn_block_time;
  height = b.block_height;
}

unfoldable pub tx_data : DbTx → TxData
tx_data t = record {
  canonical = t.canonical;
  block_hash = t.block_hash;
  burn_block_time = t.burn_block_time;
  block_height = t.block_height;
  tx_type = get_tx_type_string t.type_id;
}

-- By `entity_type`: a contract's mined transaction has `tx_id` there too.
unfoldable pub hash_result : DbSearchResult → Result Error SearchResult
hash_result (block_hash_result h b) = ok (found_block (hash_text h) (block_data b))
hash_result (tx_id_result h t) = ok (found_tx (hash_text h) (tx_data t))
hash_result (contract_tx_result p t) = ok (found_tx p (tx_data t))
hash_result (mempool_tx_id_result h t) =
    ok (found_mempool_tx (hash_text h) (get_tx_type_string t.type_id))
hash_result (contract_mempool_result p t) =
    err (message_error "Unexpected entity_type from db search result: ")
hash_result (standard_address_result p) =
    err (message_error "Unexpected entity_type from db search result: ")

unfoldable pub hash_reply : Buffer → Option DbSearchResult → Result Error SearchResult
hash_reply buffer none = ok (unknown_hash (buffer_to_hex_prefix_string buffer))
hash_reply buffer (some r) = hash_result r

unfoldable pub search_by_hash : Db → Buffer → Result Error SearchResult
search_by_hash db buffer = search_hash db (be_value 0 buffer) >>= λ r. hash_reply buffer r

-- A contract's `entity_data`: a mined transaction has a block hash. A block has none of the types
-- of transactions.
unfoldable pub contract_reply : DbSearchResult → Result Error SearchResult
contract_reply (contract_tx_result p t) = ok (found_contract p (some (mined_contract (tx_data t))))
contract_reply (contract_mempool_result p t) =
    ok (found_contract p (some (unmined_contract (get_tx_type_string t.type_id))))
contract_reply (tx_id_result h t) =
    ok (found_contract (hash_text h) (some (mined_contract (tx_data t))))
contract_reply (mempool_tx_id_result h t) =
    ok (found_contract (hash_text h) (some (unmined_contract (get_tx_type_string t.type_id))))
contract_reply (block_hash_result h b) = err (message_error "Unexpected DbTxTypeId: ")
contract_reply (standard_address_result p) = ok (found_contract p none)

unfoldable pub result_id : DbSearchResult → Text
result_id (tx_id_result h t) = hash_text h
result_id (mempool_tx_id_result h t) = hash_text h
result_id (block_hash_result h b) = hash_text h
result_id (contract_mempool_result p t) = p
result_id (contract_tx_result p t) = p
result_id (standard_address_result p) = p

unfoldable pub principal_reply :
    PrincipalType → Text → Option DbSearchResult → Result Error SearchResult
principal_reply principal term none = ok (unknown_principal principal term)
principal_reply contract_address term (some r) = contract_reply r
principal_reply standard_address term (some r) = ok (found_address (result_id r))

-- White space and line ends, as `trim` removes them.
unfoldable pub is_space : ℕ → Bool
is_space c =
    (leb 9 c && leb c 13)
    || (c == 32
        || (c == 160
            || (c == 5760
                || ((leb 8192 c && leb c 8202)
                    || (c == 8232
                        || (c == 8233
                            || (c == 8239 || (c == 8287 || (c == 12288 || c == 65279)))))))))

unfoldable pub trim_start : Text → Text
trim_start [] = []
trim_start (c ∷ cs) = let rest = trim_start cs in if is_space c then rest else c ∷ cs

-- A character stays if it is no space, or if something stays behind it.
unfoldable pub before_space : ℕ → Text → Text
before_space c [] = if is_space c then [] else c ∷ []
before_space c (d ∷ ds) = c ∷ d ∷ ds

unfoldable pub trim_end : Text → Text
trim_end [] = []
trim_end (c ∷ cs) = before_space c (trim_end cs)

unfoldable pub trim : Text → Text
trim text = trim_end (trim_start text)

pub record SearchReply : Type 0 where
  pub status : ℕ
  pub body : SearchResult

unfoldable pub is_hit : SearchResult → Bool
is_hit (found_block id b) = true
is_hit (found_tx id t) = true
is_hit (found_mempool_tx id t) = true
is_hit (found_contract id t) = true
is_hit (found_address id) = true
is_hit (unknown_hash hash) = false
is_hit (unknown_principal p term) = false
is_hit (invalid_term term) = false

module _ {Decoded : Type 0} (c32address_decode : Text → Result Error Decoded) where
  unfoldable pub search_by_principal : Db → Text → Option PrincipalType → Result Error SearchResult
  search_by_principal db term none = ok (invalid_term term)
  search_by_principal db term (some principal) =
      search_principal db term >>= λ r. principal_reply principal term r

  -- The bytes of a term of the length of a hash; where they are not 32, the term is tried as a
  -- principal.
  unfoldable pub search_bytes : Db → Text → Option Buffer → Result Error SearchResult
  search_bytes db term none =
      search_by_principal db term (is_valid_principal c32address_decode term)
  search_bytes db term (some buffer) =
      if length buffer == 32
      then search_by_hash db buffer
      else search_by_principal db term (is_valid_principal c32address_decode term)

  unfoldable pub perform_search : Db → Text → Result Error SearchResult
  perform_search db term = search_bytes db term (hash_buffer term)

  -- `router.getAsync('/:term', …)`
  unfoldable pub search_route : Db → Text → Result Error SearchReply
  search_route db raw_term = perform_search db (trim raw_term) >>= λ result.
      ok (record { status = if is_hit result then 200 else 404; body = result })
