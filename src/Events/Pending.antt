-- ===== src/Events/Pending.antt =====
-- What `handleMempoolTxsMessage` does to the tables.
use stacks_blockchain_rosett.Base.{
  map_or_throw, ℕ, ◌≡◌, ◌≢◌, ◌⊎◌, refl, sym, subst, inl, inr, List, [], ◌∷◌, Option, Result, ok,
  err, none, some, ◌==◌, ==_iff, In, Ensures, Ensures-and_then, Ensures-and_then_any,
}
use stacks_blockchain_rosett.Wire.Reader.{Error, Buffer, Library, from_buffer}
use stacks_blockchain_rosett.Wire.Tx.{Text}
use stacks_blockchain_rosett.Wire.Transaction.{read_transaction}
use stacks_blockchain_rosett.Wire.Reads.{All}
use stacks_blockchain_rosett.Datastore.Common.{DbTxStatus, DbMempoolTx}
use stacks_blockchain_rosett.Postgres.Tables.{select, Db}
use stacks_blockchain_rosett.Postgres.Update.{
  Outcome, mempool_tx_update, update_mempool_tx, unless_found,
}
use stacks_blockchain_rosett.Postgres.Chain.Invariant.{In-select}
use stacks_blockchain_rosett.Events.Message.{Services}
use stacks_blockchain_rosett.Events.Hex.{hex_to_buffer}
use stacks_blockchain_rosett.Events.Sender.{get_tx_sender_address, get_tx_sponsor_address}
use stacks_blockchain_rosett.Events.Record.{
  extract_transaction_payload, create_db_mempool_tx_from_core_msg,
}
use stacks_blockchain_rosett.Events.Mempool.{
  DecodedTx, decode_tx, decode_txs, mempool_tx_of, store_decoded, store_all,
  handle_mempool_txs_message,
}

-- No two rows have the same id: the constraint `unique_tx_id`.
abbrev pub DistinctIds : List DbMempoolTx → Type 0
DistinctIds [] = Unit
DistinctIds (t ∷ ts) = ((s : DbMempoolTx) → In s ts → s.tx_id ≢ t.tx_id) × DistinctIds ts

module _ (P : DbMempoolTx → Type 0) where
  -- From `db` to `db'` only the mempool table changes: the ids stay distinct, every row stays, and a
  -- new row has the property.
  pub record Extends (db db' : Db) : Type 0 where
    pub distinct : DistinctIds db.mempool_txs → DistinctIds db'.mempool_txs
    pub kept : (tx : DbMempoolTx) → In tx db.mempool_txs → In tx db'.mempool_txs
    pub new : (tx : DbMempoolTx) → In tx db'.mempool_txs → In tx db.mempool_txs ⊎ P tx
    pub rest : record db' { mempool_txs = db.mempool_txs } ≡ db

  Extends-refl : (db : Db) → Extends db db
  Extends-refl db = record { distinct = λ d. d; kept = λ tx m. m; new = λ tx m. inl m; rest = refl }

  Extends-trans : (a b c : Db) → Extends a b → Extends b c → Extends a c
  Extends-trans a b c f g = record {
    distinct = λ d. g.distinct (f.distinct d);
    kept = λ tx m. g.kept tx (f.kept tx m);
    new = λ tx m. elim (g.new tx m) [ inl m' ↦ f.new tx m' | inr p ↦ inr p ];
    rest = subst (λ (x : Db). record x { mempool_txs = a.mempool_txs } ≡ a) (sym g.rest) f.rest;
  }

  insert-Extends :
      (db : Db) (tx : DbMempoolTx) (found : List DbMempoolTx)
      → select (λ (t : DbMempoolTx). t.tx_id == tx.tx_id) db.mempool_txs ≡ found
      → P tx
      → Extends db
          (unless_found {B = Outcome} found
            (record {
              db = record db { mempool_txs = tx ∷ db.mempool_txs };
              events = mempool_tx_update tx ∷ [];
              thrown = none;
            })
            (record { db = db; events = []; thrown = none })).db
  insert-Extends db tx (x ∷ xs) h p = Extends-refl db
  insert-Extends db tx [] h p = record {
    distinct =
        λ d. (λ s m e. subst (In s) h (In-select _ s db.mempool_txs m ((==_iff _ _).1 e)), d);
    kept = λ s m. inr m;
    new = λ s m. elim m [ inl e ↦ inr (subst P (sym e) p) | inr m' ↦ inl m' ];
    rest = refl;
  }

  pub update_mempool_tx-Extends :
      (db : Db) (tx : DbMempoolTx) → P tx → Extends db (update_mempool_tx db tx).db
  unfolding update_mempool_tx
  update_mempool_tx-Extends db tx p = insert-Extends db tx _ refl p

module _ (services : Services) (lib : Library) (receipt_date : ℕ) where
  -- A row that the message brings: pending, received at the given date, and under the hash of its bytes.
  pub record IsReceived (tx : DbMempoolTx) : Type 0 where
    pub hashed : tx.tx_id ≡ services.digest_sha512_256 tx.raw_tx
    pub received : tx.receipt_time ≡ receipt_date
    pub pending : tx.status ≡ DbTxStatus.pending

  abbrev IsHashed : DecodedTx lib.ClarityValue → Type 0
  IsHashed tx = tx.tx_id ≡ services.digest_sha512_256 tx.raw_tx

  decode_tx-IsHashed : (buffer : Buffer) → Ensures IsHashed (decode_tx services lib buffer)
  unfolding decode_tx
  decode_tx-IsHashed buffer =
      Ensures-and_then_any IsHashed (read_transaction lib (from_buffer buffer)) _ (λ parsed.
        Ensures-and_then_any IsHashed (get_tx_sender_address services parsed.0) _ (λ sender.
          Ensures-and_then_any IsHashed (get_tx_sponsor_address services parsed.0) _
            (λ sponsor. refl)))

  decode-All-IsHashed :
      (buffers : List Buffer)
      → Ensures (All IsHashed) (map_or_throw (decode_tx services lib) buffers)
  unfolding map_or_throw
  decode-All-IsHashed [] = tt
  decode-All-IsHashed (b ∷ bs) =
      Ensures-and_then IsHashed (All IsHashed) (decode_tx services lib b) _ (decode_tx-IsHashed b)
        (λ tx h.
          Ensures-and_then (All IsHashed) (All IsHashed) (map_or_throw (decode_tx services lib) bs)
            _ (decode-All-IsHashed bs) (λ txs hs. (h, hs)))

  mempool_tx_of-IsReceived :
      (tx : DecodedTx lib.ClarityValue)
      → IsHashed tx
      → Ensures IsReceived (mempool_tx_of services lib receipt_date tx)
  unfolding mempool_tx_of create_db_mempool_tx_from_core_msg
  mempool_tx_of-IsReceived tx h =
      Ensures-and_then_any IsReceived (extract_transaction_payload services tx.tx_data) _
        (λ payload. record { hashed = h; received = refl; pending = refl })

  store_decoded-Extends :
      (txs : List (DecodedTx lib.ClarityValue)) (db : Db)
      → All IsHashed txs
      → Extends IsReceived db (store_decoded services lib receipt_date db txs).0
  unfolding store_decoded
  store_decoded-Extends [] db h = Extends-refl IsReceived db
  store_decoded-Extends (tx ∷ txs) db h =
      step (mempool_tx_of services lib receipt_date tx) (mempool_tx_of-IsReceived tx h.0)
        (λ row. store_decoded-Extends txs (update_mempool_tx db row).db h.1)
    where
      step :
          (m : Result Error DbMempoolTx)
          → Ensures IsReceived m
          → ((row : DbMempoolTx)
              → Extends IsReceived
                  (update_mempool_tx db row).db
                  (store_decoded services lib receipt_date (update_mempool_tx db row).db txs).0)
          → Extends IsReceived db
              (elim m as (λ (r : Result Error _). Db × Option Error) [
                | err e ↦ (db, some e)
                | ok row ↦ store_decoded services lib receipt_date (update_mempool_tx db row).db txs
              ]).0
      step (err e) p rest = Extends-refl IsReceived db
      step (ok row) p rest =
          Extends-trans IsReceived db _ _ (update_mempool_tx-Extends IsReceived db row p) (rest row)

  -- Whatever the message holds, and whether it is refused half-way: only the mempool table changes,
  -- no row leaves it, its ids stay distinct, and a new row is pending, has the receipt date and is
  -- stored under the hash of its bytes.
  pub handle_mempool_txs_message-Extends :
      (db : Db) (raw_txs : List Text)
      → Extends IsReceived db (handle_mempool_txs_message services lib receipt_date db raw_txs).0
  unfolding handle_mempool_txs_message store_all decode_txs
  handle_mempool_txs_message-Extends db raw_txs = step (decode_txs services lib raw_txs) (
      Ensures-and_then_any (All IsHashed) (map_or_throw hex_to_buffer raw_txs) _
        decode-All-IsHashed)
    where
      step :
          (m : Result Error (List (DecodedTx lib.ClarityValue)))
          → Ensures (All IsHashed) m
          → Extends IsReceived db (store_all services lib receipt_date db m).0
      step (err e) h = Extends-refl IsReceived db
      step (ok txs) h = store_decoded-Extends txs db h
