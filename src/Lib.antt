-- ===== src/Lib.antt =====
-- The core of the Stacks blockchain API: what it reads from the node, how it keeps the chain, and
-- what it answers.
--
-- The node sends blocks and transactions in a binary format. The parsers of src/p2p read them with
-- a BufferReader (src/binary-reader.ts); the data store (src/datastore) keeps one row for each
-- block and flags the rows of the canonical chain. `PgDataStore.update` stores a block with its
-- transactions; where the block builds on an orphaned fork that has become the longest, it first
-- reorganises the chain. The API (src/api) reads the store with queries, makes JSON of the rows,
-- and tells its websocket clients what the store has emitted.
--
-- Wire models the format. Reader is the state of a BufferReader (its bytes and its offset) with the
-- operations that the source builds on it, Tx the types of src/p2p/tx.ts, Fields, PostConditions,
-- Spending, Payload and Transaction its parsers, and Block those of src/p2p/block-header.ts and
-- src/p2p/block.ts. A parser is a function from a reader to a result and the reader after it, or to
-- what is thrown. SmartBuffer and `deserializeCV` are third-party code: their operations are the
-- fields of `Library`, and `LibraryLaws` states what is documented of them: each read takes a fixed
-- number of bytes, big-endian or two's complement for numbers, and the deserializer inverts the
-- serializer of the same package. Sample fills both with functions that run. The repository holds
-- no serializer of transactions: Encode is the format written down a second time, as lists of
-- bytes, and the RoundTrip modules measure the parsers against it. Stream is the BinaryReader,
-- which waits for the bytes of a Node stream: a read has as much fuel as events may come, and more
-- than the chunks that are to come is enough. Messages is src/p2p/messages.ts over it.
--
-- Datastore.Common holds the records of src/datastore/common.ts. A hash or a transaction id is the
-- number that its bytes stand for. A hash that reaches `hexToBuffer` is thus well-formed hex.
-- Postgres models src/datastore/postgres-store.ts: Tables has the tables as lists of rows and the
-- SQL statements on them, Reorg `getChainTipHeight`, `pruneMempoolTxs`, `markEntitiesCanonical`,
-- `restoreOrphanedChain` and `handleReorg`, Refusals the rows that `update` cannot insert (what
-- `hexToBuffer` throws at `raw_result`, what the ranges of columns and the CHECK constraints of
-- src/migrations refuse), Update the inserts, `update` as one database transaction with its COMMIT
-- or ROLLBACK, the events that it emits, and `updateMempoolTx`. A refused row rolls the whole
-- transaction back, so the rows are looked over in the order of the inserts before they are stored.
-- A call is a function of the database: the calls run one after another, as
-- `createMessageProcessorQueue` of src/event-stream/event-server.ts runs them. The recursion of
-- `restoreOrphanedChain` has as much fuel as the incoming block is high, which is enough because
-- each round goes down one height. Postgres.Queries models the reading methods: Rows the readers of
-- a row, Lists the queries of blocks, transactions and contracts, Events those of events, Balances
-- the sums over events, and Search `searchHash` and `searchPrincipal`. A query without ORDER BY
-- returns its rows in the order of the table, and `order_by` keeps that order between rows with
-- equal keys.
--
-- Memory models src/datastore/memory-store.ts: Store has its maps with the methods that change
-- them, Queries those that read them.
--
-- Events models src/event-stream: Message the types of core-node-message.ts, Hex the hex strings of
-- src/helpers.ts, Sender reader.ts, Record the functions of src/datastore/common.ts that make rows
-- of parsed transactions, Server `handleClientMessage`, from a block message to
-- `PgDataStore.update`, and Mempool `handleMempoolTxsMessage`. The node's JSON is taken to have its
-- declared types. The address functions of stacks-transactions and c32check, the hash of a
-- transaction, `BigInt` and `JSON.stringify` are the fields of `Services`, with no law asked of
-- them.
--
-- Api models src/api and the helpers of src/helpers.ts that it uses. Labels, Events, Payloads and
-- Transactions are src/api/controllers/db-controller.ts, PostConditions
-- src/api/serializers/post-conditions.ts, Terms the texts that requests carry with
-- src/api/pagination.ts, whose numbers are doubles, and the bigint that a query takes as its
-- offset, Rpc src/api/routes/ws-rpc.ts (Subscriptions the SubscriptionManager, Handlers the
-- messages of clients and the notifications), Routes the handlers of src/api/routes/block.ts,
-- tx.ts, contract.ts, info.ts, address.ts and search.ts, Faucets src/api/routes/faucets.ts with its
-- table. Its `Services` are the functions of third-party packages, with no law asked of them; what
-- jsonrpc-lite makes of a message, and what paying and broadcasting return, are arguments.
--
-- An error carries the fixed part of its message and the number or text in it. The comparators of
-- one argument that the source hands to `Array.sort`, whose result the language leaves to the
-- engine, and `localeCompare` are parameters of the queries that use them.
--
-- Not modelled: log lines, the connection pool and its errors, the rows that mempool_txs refuses,
-- the migrations but for the constraints named above, the set-up of the HTTP server, the stream of
-- transactions, the pages of src/api/routes/debug.ts, the bitcoin faucet's wallet, the client of
-- the node's RPC interface, the contract ABI types, and the generated client. They are input and
-- output around the modelled functions, or types without operations.
pub mod Base
pub mod Wire
pub mod Datastore
pub mod Postgres
pub mod Events
pub mod Memory
pub mod Api
