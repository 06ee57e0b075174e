-- ===== src/Events/Stored.antt =====
-- What `handleMempoolTxsMessage` has stored where it throws nothing.
use stacks_blockchain_rosett.Base.{
  ℕ, ◌≡◌, refl, sym, subst, ◌∙◌, ap, inl, inr, List, [], ◌∷◌, Option, none, some, Result, ok, err,
  ◌==◌, ==_iff, In, Ensures, Ensures-and_then_any,
}
use stacks_blockchain_rosett.Wire.Reader.{Error, Library}
use stacks_blockchain_rosett.Wire.Tx.{Text}
use stacks_blockchain_rosett.Datastore.Common.{Hash, DbMempoolTx}
use stacks_blockchain_rosett.Postgres.Tables.{select, Db}
use stacks_blockchain_rosett.Postgres.Update.{
  Outcome, mempool_tx_update, update_mempool_tx, unless_found,
}
use stacks_blockchain_rosett.Postgres.Chain.Invariant.{In-select_inv}
use stacks_blockchain_rosett.Events.Message.{Services}
use stacks_blockchain_rosett.Events.Record.{
  extract_transaction_payload, create_db_mempool_tx_from_core_msg,
}
use stacks_blockchain_rosett.Events.Mempool.{
  DecodedTx, decode_txs, mempool_tx_of, store_decoded, store_all, handle_mempool_txs_message,
}
use stacks_blockchain_rosett.Events.Pending.{update_mempool_tx-Extends}

abbrev pub HasId : Hash → Db → Type 0
HasId id db = (row : DbMempoolTx) × In row db.mempool_txs × (row.tx_id ≡ id)

insert-HasId :
    (db : Db) (tx : DbMempoolTx) (found : List DbMempoolTx)
    → select (λ (t : DbMempoolTx). t.tx_id == tx.tx_id) db.mempool_txs ≡ found
    → HasId tx.tx_id
        (unless_found {B = Outcome} found
          (record {
            db = record db { mempool_txs = tx ∷ db.mempool_txs };
            events = mempool_tx_update tx ∷ [];
            thrown = none;
          })
          (record { db = db; events = []; thrown = none })).db
insert-HasId db tx [] h = (tx, inl refl, refl)
insert-HasId db tx (x ∷ xs) h =
    let p = λ (t : DbMempoolTx). t.tx_id == tx.tx_id in
    let r = In-select_inv p x db.mempool_txs (subst (In x) (sym h) (inl refl)) in
    (x, r.0, (==_iff _ _).0 r.1)

update_mempool_tx-HasId : (db : Db) (tx : DbMempoolTx) → HasId tx.tx_id (update_mempool_tx db tx).db
unfolding update_mempool_tx
update_mempool_tx-HasId db tx = insert-HasId db tx _ refl

module _ (services : Services) (lib : Library) (receipt_date : ℕ) where
  mempool_tx_of_id :
      (tx : DecodedTx lib.ClarityValue)
      → Ensures
          (λ (row : DbMempoolTx). row.tx_id ≡ tx.tx_id)
          (mempool_tx_of services lib receipt_date tx)
  unfolding mempool_tx_of create_db_mempool_tx_from_core_msg
  mempool_tx_of_id tx =
      Ensures-and_then_any (λ (row : DbMempoolTx). row.tx_id ≡ tx.tx_id)
        (extract_transaction_payload services tx.tx_data) _ (λ payload. refl)

  abbrev IsAny : DbMempoolTx → Type 0
  IsAny tx = Unit

  store_decoded-kept :
      (txs : List (DecodedTx lib.ClarityValue)) (db : Db) (id : Hash)
      → HasId id db
      → HasId id (store_decoded services lib receipt_date db txs).0
  unfolding store_decoded
  store_decoded-kept [] db id h = h
  store_decoded-kept (tx ∷ txs) db id h = step (mempool_tx_of services lib receipt_date tx) (λ row.
      store_decoded-kept txs (update_mempool_tx db row).db id
        (h.0, (update_mempool_tx-Extends IsAny db row tt).kept h.0 h.1, h.2))
    where
      step :
          (m : Result Error DbMempoolTx)
          → ((row : DbMempoolTx)
              → HasId id
                  (store_decoded services lib receipt_date (update_mempool_tx db row).db txs).0)
          → HasId id
              (elim m as (λ (r : Result Error _). Db × Option Error) [
                | err e ↦ (db, some e)
                | ok row ↦ store_decoded services lib receipt_date (update_mempool_tx db row).db txs
              ]).0
      step (err e) rest = h
      step (ok row) rest = rest row

  store_decoded-HasId :
      (txs : List (DecodedTx lib.ClarityValue)) (db : Db)
      → (store_decoded services lib receipt_date db txs).1 ≡ none
      → (tx : DecodedTx lib.ClarityValue) → In tx txs
      → HasId tx.tx_id (store_decoded services lib receipt_date db txs).0
  unfolding store_decoded
  store_decoded-HasId [] db h tx m = absurd m
  store_decoded-HasId (t ∷ txs) db h tx m =
      step (mempool_tx_of services lib receipt_date t) (mempool_tx_of_id t)
        (λ row k n. store_decoded-HasId txs (update_mempool_tx db row).db k tx n) h m
    where
      step :
          (r : Result Error DbMempoolTx)
          → Ensures (λ (row : DbMempoolTx). row.tx_id ≡ t.tx_id) r
          → ((row : DbMempoolTx)
              → (store_decoded services lib receipt_date (update_mempool_tx db row).db txs).1 ≡ none
              → In tx txs
              → HasId tx.tx_id
                  (store_decoded services lib receipt_date (update_mempool_tx db row).db txs).0)
          → (elim r as (λ (r' : Result Error _). Db × Option Error) [
            | err e ↦ (db, some e)
            | ok row ↦ store_decoded services lib receipt_date (update_mempool_tx db row).db txs
          ]).1
            ≡ none
          → In tx (t ∷ txs)
          → HasId tx.tx_id
              (elim r as (λ (r' : Result Error _). Db × Option Error) [
                | err e ↦ (db, some e)
                | ok row ↦ store_decoded services lib receipt_date (update_mempool_tx db row).db txs
              ]).0
      step (err e) p rest k n = cc k
      step (ok row) p rest k (inr n) = rest row k n
      step (ok row) p rest k (inl e) =
          let same = p ∙ ap (λ (x : DecodedTx lib.ClarityValue). x.tx_id) (sym e) in
          let there = update_mempool_tx-HasId db row in
          store_decoded-kept txs (update_mempool_tx db row).db tx.tx_id
            (there.0, there.1, there.2 ∙ same)

  -- Where the message decodes to some transactions and nothing is thrown, each of them is in the
  -- mempool table under its id, stored now or before.
  pub handle_mempool_txs_message-HasId :
      (db : Db) (raw_txs : List Text) (txs : List (DecodedTx lib.ClarityValue))
      → decode_txs services lib raw_txs ≡ ok txs
      → (handle_mempool_txs_message services lib receipt_date db raw_txs).1 ≡ none
      → (tx : DecodedTx lib.ClarityValue) → In tx txs
      → HasId tx.tx_id (handle_mempool_txs_message services lib receipt_date db raw_txs).0
  unfolding handle_mempool_txs_message store_all
  handle_mempool_txs_message-HasId db raw_txs txs decoded h tx m =
      let run = λ (r : Result Error (List (DecodedTx lib.ClarityValue))).
        store_all services lib receipt_date db r in
      subst (λ r. HasId tx.tx_id (run r).0) (sym decoded)
        (store_decoded-HasId txs db (subst (λ r. (run r).1 ≡ none) decoded h) tx m)
