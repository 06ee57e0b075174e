-- ===== src/Events/Chain.antt =====
-- What the messages of the node do to the chain of the store.
use stacks_blockchain_rosett.Base.{
  ◌≤◌, ◌≡◌, refl, sym, subst, inl, inr, List, [], ◌∷◌, Result, ok, err, Ensures, Ensures-and_then,
  Ensures-and_then_any, In,
}
use stacks_blockchain_rosett.Wire.Reader.{Error, Buffer, Reader, Library, from_buffer}
use stacks_blockchain_rosett.Wire.Tx.{Transaction, payload_poison_microblock}
use stacks_blockchain_rosett.Wire.Transaction.{read_transaction}
use stacks_blockchain_rosett.Wire.Reads.{All}
use stacks_blockchain_rosett.Datastore.Common.{DataStoreUpdateData}
use stacks_blockchain_rosett.Postgres.Tables.{Db}
use stacks_blockchain_rosett.Postgres.Chain.Invariant.{IsChain}
use stacks_blockchain_rosett.Postgres.Chain.Canonical.{IsIncoming, update-IsChain}
use stacks_blockchain_rosett.Events.Message.{Services, CoreNodeTxMessage}
use stacks_blockchain_rosett.Events.Hex.{from_hex}
use stacks_blockchain_rosett.Events.Sender.{
  Msg, ParsedTx, get_tx_sender_address, get_tx_sponsor_address, check_payload,
  parse_message_transaction, parse_transactions, parse_message_transactions,
}
use stacks_blockchain_rosett.Events.Server.{
  add_events, create_entries, db_block, client_data, db_after, handle_client_message,
}
use stacks_blockchain_rosett.Base.{drop}

db_after-IsChain :
    (db : Db) (m : Result Error DataStoreUpdateData)
    → IsChain db.blocks
    → Ensures (λ (d : DataStoreUpdateData). IsIncoming d.block) m
    → IsChain (db_after db m).blocks
unfolding db_after
db_after-IsChain db (err e) chain h = chain
db_after-IsChain db (ok d) chain h = update-IsChain db d chain h

db_after-refused :
    (db : Db) (m : Result Error DataStoreUpdateData)
    → Ensures (λ (d : DataStoreUpdateData). ⊥) m
    → db_after db m ≡ db
unfolding db_after
db_after-refused db (err e) h = refl
db_after-refused db (ok d) h = absurd h

module _ (services : Services) (lib : Library) where
  client_data-IsIncoming :
      (msg : Msg services lib)
      → 1 ≤ msg.block_height
      → Ensures (λ (d : DataStoreUpdateData). IsIncoming d.block) (client_data services lib msg)
  unfolding client_data db_block
  client_data-IsIncoming msg h =
      let Q = λ (d : DataStoreUpdateData). IsIncoming d.block in
      Ensures-and_then_any Q (parse_message_transactions services lib msg) _ (λ parsed.
        Ensures-and_then_any Q (create_entries services lib msg parsed) _ (λ entries.
          Ensures-and_then_any Q (add_events services msg.block_height msg.events entries) _
            (λ txs. record { flagged = refl; positive = h })))

  -- Messages one after the other, as the queue of the event server handles them.
  unfoldable pub handle_client_messages : Db → List (Msg services lib) → Db
  handle_client_messages db [] = db
  handle_client_messages db (msg ∷ msgs) =
      handle_client_messages (handle_client_message services lib db msg) msgs

  -- Whatever block messages of height 1 and above the node sends, one after the other, to a store
  -- whose canonical blocks are a chain: they stay one. A message may be malformed, name a parent that
  -- is missing, build on an orphan or repeat a block.
  pub handle_client_messages-IsChain :
      (msgs : List (Msg services lib)) (db : Db)
      → All (λ (msg : Msg services lib). 1 ≤ msg.block_height) msgs
      → IsChain db.blocks
      → IsChain (handle_client_messages db msgs).blocks
  unfolding handle_client_messages handle_client_message
  handle_client_messages-IsChain [] db h chain = chain
  handle_client_messages-IsChain (msg ∷ msgs) db h chain =
      handle_client_messages-IsChain msgs _ h.1
        (db_after-IsChain db (client_data services lib msg) chain (client_data-IsIncoming msg h.0))

  check_payload-refused :
      (tx : Transaction lib.ClarityValue) (one two : Buffer)
      → tx.payload ≡ payload_poison_microblock one two
      → Ensures (λ u. ⊥) (check_payload services tx.payload)
  unfolding check_payload
  check_payload-refused tx one two h =
      subst (λ p. Ensures (λ u. ⊥) (check_payload services p)) (sym h) tt

  module _ (msg : Msg services lib) (t : CoreNodeTxMessage services.ClarityAbi) (one two : Buffer)
      (parsed : Transaction lib.ClarityValue × Reader)
      (reads : read_transaction lib (from_buffer (from_hex (drop 2 t.raw_tx))) ≡ ok parsed)
      (poison : parsed.0.payload ≡ payload_poison_microblock one two) where
    transaction-refused :
        Ensures (λ (p : ParsedTx services lib). ⊥) (parse_message_transaction services lib msg t)
    unfolding parse_message_transaction
    transaction-refused =
        let Q = λ (p : ParsedTx services lib). ⊥ in
        rw reads (
          Ensures-and_then_any Q (get_tx_sender_address services parsed.0) _ (λ sender.
            Ensures-and_then_any Q (get_tx_sponsor_address services parsed.0) _ (λ sponsor.
              Ensures-and_then (λ u. ⊥) Q (check_payload services parsed.0.payload) _
                (check_payload-refused parsed.0 one two poison) (λ u bad. absurd bad))))

    transactions-refused :
        (ts : List (CoreNodeTxMessage services.ClarityAbi))
        → In t ts
        → Ensures
            (λ (ps : List (ParsedTx services lib)). ⊥)
            (parse_transactions services lib msg ts)
    unfolding parse_transactions
    transactions-refused [] m = absurd m
    transactions-refused (s ∷ ts) (inl e) =
        Ensures-and_then (λ p. ⊥) _ (parse_message_transaction services lib msg s) _
          (subst
            (λ x.
              Ensures (λ (p : ParsedTx services lib). ⊥)
                (parse_message_transaction services lib msg x))
            e transaction-refused)
          (λ p bad. absurd bad)
    transactions-refused (s ∷ ts) (inr m) =
        Ensures-and_then_any _ (parse_message_transaction services lib msg s) _ (λ p.
          Ensures-and_then (λ ps. ⊥) _ (parse_transactions services lib msg ts) _
            (transactions-refused ts m) (λ ps bad. absurd bad))

    -- A block message with a transaction that parses to a poison-microblock payload stores nothing:
    -- the whole block is refused, although the store has columns for such a transaction.
    pub handle_client_message-poison :
        (db : Db) → In t msg.transactions → handle_client_message services lib db msg ≡ db
    unfolding handle_client_message client_data parse_message_transactions
    handle_client_message-poison db m = db_after-refused db _ (
        Ensures-and_then (λ ps. ⊥) _ (parse_transactions services lib msg msg.transactions) _
          (transactions-refused msg.transactions m) (λ ps bad. absurd bad))
