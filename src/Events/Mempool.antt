-- ===== src/Events/Mempool.antt =====
-- src/event-stream/event-server.ts: `handleMempoolTxsMessage`.
use stacks_blockchain_rosett.Base.{
  map_or_throw, ℕ, List, [], ◌∷◌, Option, none, some, Result, ok, err, and_then,
}
use stacks_blockchain_rosett.Wire.Reader.{Error, Buffer, Library, from_buffer}
use stacks_blockchain_rosett.Wire.Tx.{Text, Transaction}
use stacks_blockchain_rosett.Wire.Transaction.{read_transaction}
use stacks_blockchain_rosett.Datastore.Common.{Hash, DbMempoolTx}
use stacks_blockchain_rosett.Postgres.Tables.{Db}
use stacks_blockchain_rosett.Postgres.Update.{update_mempool_tx}
use stacks_blockchain_rosett.Events.Message.{Services}
use stacks_blockchain_rosett.Events.Hex.{hex_to_buffer}
use stacks_blockchain_rosett.Events.Sender.{get_tx_sender_address, get_tx_sponsor_address}
use stacks_blockchain_rosett.Events.Record.{create_db_mempool_tx_from_core_msg}

-- An element of `decodedTxs`.
pub record DecodedTx (V : Type 0) : Type 0 where
  pub tx_id : Hash
  pub sender : Text
  pub sponsor_address : Option Text
  pub tx_data : Transaction V
  pub raw_tx : Buffer

module _ (services : Services) (lib : Library) where
  unfoldable pub decode_tx : Buffer → Result Error (DecodedTx lib.ClarityValue)
  decode_tx buffer = and_then (read_transaction lib (from_buffer buffer)) (λ parsed.
      and_then (get_tx_sender_address services parsed.0) (λ sender.
        and_then (get_tx_sponsor_address services parsed.0) (λ sponsor. ok (record {
          tx_id = services.digest_sha512_256 buffer;
          sender = sender;
          sponsor_address = sponsor;
          tx_data = parsed.0;
          raw_tx = buffer;
        }))))

  unfoldable pub decode_txs : List Text → Result Error (List (DecodedTx lib.ClarityValue))
  decode_txs raw_txs = and_then (map_or_throw hex_to_buffer raw_txs) (map_or_throw decode_tx)

  unfoldable pub mempool_tx_of : ℕ → DecodedTx lib.ClarityValue → Result Error DbMempoolTx
  mempool_tx_of receipt_date tx =
      create_db_mempool_tx_from_core_msg services tx.tx_data tx.tx_id tx.sender tx.sponsor_address
        tx.raw_tx receipt_date

  -- The database after the loop over the decoded transactions, with what is thrown: an error leaves
  -- the transactions before it stored.
  unfoldable pub store_decoded : ℕ → Db → List (DecodedTx lib.ClarityValue) → Db × Option Error
  store_decoded receipt_date db [] = (db, none)
  store_decoded receipt_date db (tx ∷ txs) = elim (mempool_tx_of receipt_date tx) [
    | err e ↦ (db, some e)
    | ok row ↦ store_decoded receipt_date (update_mempool_tx db row).db txs
  ]

  -- The loop, or the error of the decoding, which leaves the database as it was.
  unfoldable pub store_all :
      ℕ → Db → Result Error (List (DecodedTx lib.ClarityValue)) → Db × Option Error
  store_all receipt_date db (err e) = (db, some e)
  store_all receipt_date db (ok txs) = store_decoded receipt_date db txs

  unfoldable pub handle_mempool_txs_message : ℕ → Db → List Text → Db × Option Error
  handle_mempool_txs_message receipt_date db raw_txs =
      store_all receipt_date db (decode_txs raw_txs)
