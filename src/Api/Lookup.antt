-- ===== src/Api/Lookup.antt =====
-- What `getTxFromDataStore` returns: for a transaction of the mempool what `parseDbMempoolTx` makes of
-- it, and the post-conditions that were put in the stored bytes.
use stacks_blockchain_rosett.Base.{
  map_or_throw, ℕ, ◌^◌, ◌<◌, ◌≤◌, ◌≡◌, ◌≢◌, refl, List, [], ◌∷◌, Option, none, some, Result, ok,
  sym, append-nil, length, if◌then◌else◌, result-cases, inl, inr, zero, suc, arith,
}
use stacks_blockchain_rosett.Wire.Reader.{Error, Buffer, Library, from_buffer}
use stacks_blockchain_rosett.Wire.Tx.{TransactionPostCondition}
use stacks_blockchain_rosett.Wire.Reads.{LibraryLaws, All}
use stacks_blockchain_rosett.Wire.Encode.{encode_list, encode_post_condition}
use stacks_blockchain_rosett.Wire.Encodable.{FitsPostCondition}
use stacks_blockchain_rosett.Wire.RoundTrip.Conditions.{post_conditions-Reads}
use stacks_blockchain_rosett.Datastore.Common.{
  Hash, DbTxTypeId, token_transfer, smart_contract, contract_call, poison_microblock, coinbase,
  pending, DbTxPayload, DbMempoolTx,
}
use stacks_blockchain_rosett.Postgres.Tables.{Db}
use stacks_blockchain_rosett.Postgres.Queries.Lists.{get_mempool_tx}
use stacks_blockchain_rosett.Api.Services.{ApiServices, ◌>>=◌, unix_epoch_to_iso}
use stacks_blockchain_rosett.Api.PostConditions.{
  serialize_post_condition, serialize_post_condition_mode,
}
use stacks_blockchain_rosett.Api.Payloads.{
  TransactionView, ContractCallView, read_first_byte, post_condition_views, payload_view,
  call_with_abi, call_without_abi, parse_db_mempool_tx,
}
use stacks_blockchain_rosett.Api.Transactions.{
  find_tx, from_mempool, is_pending, can_have_events, receipt_view, mined_view, event_views,
  common_view, get_tx_from_data_store,
}

-- No events: an empty list for the types that can have some.
abbrev pub without_events : DbTxTypeId → TransactionView → TransactionView
without_events t view = record view { events = if can_have_events t then some [] else none }

module _ (lib : Library) (api : ApiServices lib.ClarityValue) where
  payload_view_any_call :
      (f g : (contract_id function_name : List ℕ) → Option Buffer → Result Error ContractCallView)
      (t : DbTxTypeId) (bytes : Buffer) (p : DbTxPayload)
      → t ≢ contract_call
      → payload_view lib api f t bytes p ≡ payload_view lib api g t bytes p
  unfolding payload_view
  payload_view_any_call f g token_transfer bytes p h = refl
  payload_view_any_call f g smart_contract bytes p h = refl
  payload_view_any_call f g contract_call bytes p h = absurd (h refl)
  payload_view_any_call f g poison_microblock bytes p h = refl
  payload_view_any_call f g coinbase bytes p h = refl

  event_views_empty :
      (t : DbTxTypeId) → event_views lib api t [] ≡ ok (if can_have_events t then some [] else none)
  unfolding event_views can_have_events map_or_throw
  event_views_empty token_transfer = refl
  event_views_empty smart_contract = refl
  event_views_empty contract_call = refl
  event_views_empty poison_microblock = refl
  event_views_empty coinbase = refl

  receipt_view_positive :
      (n : ℕ)
      → 1 ≤ n
      → receipt_view n ≡ some (record { receipt_time = n; receipt_time_iso = unix_epoch_to_iso n })
  unfolding receipt_view
  receipt_view_positive zero h = absurd (omega (arith, h))
  receipt_view_positive (suc n) h = refl

  common_view_mempool :
      (db : Db) (m : DbMempoolTx)
      → m.status ≡ pending
      → m.type_id ≢ contract_call
      → 1 ≤ m.receipt_time
      → common_view lib api db (from_mempool m)
        ≡ (parse_db_mempool_tx lib api m >>= λ view. ok (without_events m.type_id view))
  unfolding common_view parse_db_mempool_tx mined_view is_pending
  common_view_mempool db m unmined other positive =
      let one = receipt_view_positive m.receipt_time positive in
      let empty = event_views_empty m.type_id in
      let same =
        payload_view_any_call (call_with_abi lib api db) (call_without_abi lib api) m.type_id
          m.post_conditions m.payload other in
      rw (unmined, one, empty, same)
        (elim (result-cases (read_first_byte m.post_conditions)) [
          | inr e ↦ rw e.1 refl
          | inl b ↦ rw b.1 (elim (result-cases (serialize_post_condition_mode b.0)) [
            | inr e ↦ rw e.1 refl
            | inl mode ↦
                rw mode.1
                  (elim (result-cases (
                    payload_view lib api (call_without_abi lib api) m.type_id m.post_conditions
                      m.payload)) [ inr e ↦ rw e.1 refl | inl p ↦ rw p.1 refl ])
          ])
        ])

  -- For a pending transaction of the mempool that calls no contract and has a receipt time that is not
  -- 0, `getTxFromDataStore` gives what `parseDbMempoolTx` gives, its errors included, with an empty list of events where the type can have
  -- some, whatever the tables of the blocks hold.
  pub get_tx_from_data_store-mempool :
      (db : Db) (tx_id : Hash) (m : DbMempoolTx)
      → get_mempool_tx db tx_id ≡ ok (some m)
      → m.status ≡ pending
      → m.type_id ≢ contract_call
      → 1 ≤ m.receipt_time
      → get_tx_from_data_store lib api db tx_id
        ≡ (parse_db_mempool_tx lib api m >>= λ view. ok (some (without_events m.type_id view)))
  unfolding get_tx_from_data_store find_tx
  get_tx_from_data_store-mempool db tx_id m there unmined other positive =
      rw (there, common_view_mempool db m unmined other positive)
        (elim (result-cases (parse_db_mempool_tx lib api m)) [
          | inl v ↦ rw v.1 refl
          | inr e ↦ rw e.1 refl
        ])

  -- The post-conditions that the API shows of stored bytes are those that were encoded in them behind
  -- the byte of the mode, each serialized, for up to 2 ^ 32 - 1 post-conditions that fit the format.
  pub post_condition_views-encode_list :
      (laws : LibraryLaws lib) (mode : ℕ) (cs : List (TransactionPostCondition lib.ClarityValue))
      → length cs < 2 ^ 32
      → All (FitsPostCondition laws.serialize_cv) cs
      → post_condition_views lib api
          (mode ∷ encode_list (encode_post_condition laws.serialize_cv) cs)
        ≡ map_or_throw (serialize_post_condition api) cs
  unfolding post_condition_views from_buffer
  post_condition_views-encode_list laws mode cs fewer fits =
      let bytes = encode_list (encode_post_condition laws.serialize_cv) cs in
      let read =
        (post_conditions-Reads lib laws cs fewer fits).at (from_buffer bytes) []
          (sym (append-nil bytes)) in
      rw read refl
