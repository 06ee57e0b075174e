-- ===== src/Api/Routes/Transactions.antt =====
-- The transactions that `/extended/v1/tx` replies with.
use stacks_blockchain_rosett.Base.{
  map_or_throw, ℕ, ◌≡◌, refl, sym, ap, ap₂, ◌∙◌, inl, List, [], ◌∷◌, map, Option, none, some,
  Result, ok, err, In, ◌==◌, ==_iff, and_then, and_then-eq_ok, Ensures, Ensures-and_then_any, subst,
  order_by,
}
use stacks_blockchain_rosett.Wire.Reader.{Error, Library}
use stacks_blockchain_rosett.Datastore.Common.{Hash, DbTx, DbTxTypeId, DbMempoolTx}
use stacks_blockchain_rosett.Postgres.Tables.{select, Rows, no_row, one_row, many_rows, rows, Db}
use stacks_blockchain_rosett.Postgres.Chain.Invariant.{In-select_inv}
use stacks_blockchain_rosett.Postgres.Queries.Rows.{
  parse_mempool_tx_query_result, parse_payload_columns,
}
use stacks_blockchain_rosett.Postgres.Queries.Lists.{
  Listed, first, entries, tx_order, get_tx, mempool_row, get_mempool_tx, get_tx_list,
}
use stacks_blockchain_rosett.Postgres.Queries.Picks.{
  first_of_order, parsed_row, parse_tx_query_result-keeps,
}
use stacks_blockchain_rosett.Api.Services.{ApiServices}
use stacks_blockchain_rosett.Api.PostConditions.{serialize_post_condition_mode}
use stacks_blockchain_rosett.Api.Payloads.{
  TransactionView, read_first_byte, payload_view, call_with_abi,
}
use stacks_blockchain_rosett.Api.Transactions.{
  FoundTx, from_mempool, from_chain, find_tx, mined_view, event_views, common_view,
  get_tx_from_data_store,
}
use stacks_blockchain_rosett.Api.Labels.{get_tx_type_id}
use stacks_blockchain_rosett.Api.Terms.{
  QueryValue, parse_paging_query_input, parse_limit_query, bigint_parameter,
}
use stacks_blockchain_rosett.Postgres.Queries.Events.{get_tx_events}
use stacks_blockchain_rosett.Wire.Tx.{Text}
use stacks_blockchain_rosett.Api.Routes.Lists.{
  PageReply, TypeQuery, tx_type_filter, or_number, found_or_throw, listed_tx_view, list_txs,
}

rows-one_row : {A : Type 0} (xs : List A) (x : A) → rows xs ≡ one_row x → In x xs
rows-one_row [] x h = absurd (cc)
rows-one_row (y ∷ []) x h = inl (cc)
rows-one_row (y ∷ z ∷ zs) x h = absurd (cc)

parse_mempool-keeps :
    (row t : DbMempoolTx) → parse_mempool_tx_query_result row ≡ ok t → t.tx_id ≡ row.tx_id
unfolding parse_mempool_tx_query_result
parse_mempool-keeps row t h =
    let r = and_then-eq_ok (parse_payload_columns row.type_id row.payload) _ h in cc

-- What `getMempoolTx` and `getTx` find has the id that was asked for.
get_mempool_tx-tx_id :
    (db : Db) (id : Hash) (t : DbMempoolTx) → get_mempool_tx db id ≡ ok (some t) → t.tx_id ≡ id
unfolding get_mempool_tx mempool_row
get_mempool_tx-tx_id db id t h =
    from_rows (rows (select (λ (x : DbMempoolTx). x.tx_id == id) db.mempool_txs)) refl h
  where
    from_rows :
        (r : Rows DbMempoolTx)
        → rows (select (λ (x : DbMempoolTx). x.tx_id == id) db.mempool_txs) ≡ r
        → mempool_row id r ≡ ok (some t)
        → t.tx_id ≡ id
    from_rows no_row e k = absurd (cc)
    from_rows many_rows e k = absurd (cc)
    from_rows (one_row row) e k =
        let r = and_then-eq_ok (parse_mempool_tx_query_result row) _ k in
        let found = In-select_inv _ row db.mempool_txs (rows-one_row _ row e) in
        let same : r.0 ≡ t = cc in
        sym (ap (λ (x : DbMempoolTx). x.tx_id) same)
        ∙ (parse_mempool-keeps row r.0 r.1 ∙ (==_iff row.tx_id id).0 found.1)

get_tx-tx_id : (db : Db) (id : Hash) (t : DbTx) → get_tx db id ≡ ok (some t) → t.tx_id ≡ id
unfolding get_tx order_by
get_tx-tx_id db id t h =
    let asked = λ (x : DbTx). x.tx_id == id in
    let listed = select asked (entries db.txs) in
    let r = parsed_row (first (order_by tx_order listed)) t h in
    let best = first_of_order tx_order listed r.0 r.1 in
    let mine = In-select_inv asked r.0 (entries db.txs) best.0 in
    (parse_tx_query_result-keeps r.0 t r.2).0 ∙ (==_iff r.0.tx_id id).0 mine.1

found_id : FoundTx → Hash
found_id (from_mempool t) = t.tx_id
found_id (from_chain t events) = t.tx_id

Ensures-eq_ok :
    {A : Type 0} (P : A → Type 0) (r : Result Error A) (a : A) → Ensures P r → r ≡ ok a → P a
Ensures-eq_ok P (ok b) a h e = let same : b ≡ a = cc in subst P same h
Ensures-eq_ok P (err b) a h e = absurd (cc)

map_or_throw-keys :
    {A B : Type 0} (f : A → Result Error B) (key : A → ℕ) (key' : B → ℕ)
    → ((x : A) (y : B) → f x ≡ ok y → key' y ≡ key x)
    → (xs : List A) (ys : List B) → map_or_throw f xs ≡ ok ys
    → map key' ys ≡ map key xs
unfolding map_or_throw
map_or_throw-keys f key key' h [] ys e = let same : [] ≡ ys = cc in ap (map key') (sym same)
map_or_throw-keys f key key' h (x ∷ xs) ys e =
    let one = and_then-eq_ok (f x) _ e in
    let rest = and_then-eq_ok (map_or_throw f xs) _ one.2 in
    let same : one.0 ∷ rest.0 ≡ ys = cc in
    ap (map key') (sym same)
    ∙ ap₂ ◌∷◌ (h x one.0 one.1) (map_or_throw-keys f key key' h xs rest.0 rest.1)

module _ (lib : Library) (api : ApiServices lib.ClarityValue) where
  common_view-tx_id :
      (db : Db) (f : FoundTx)
      → Ensures (λ (v : TransactionView). v.tx_id ≡ found_id f) (common_view lib api db f)
  unfolding common_view found_id
  common_view-tx_id db (from_mempool t) =
      let Q = λ (v : TransactionView). v.tx_id ≡ t.tx_id in
      Ensures-and_then_any Q (read_first_byte t.post_conditions) _ (λ byte.
        Ensures-and_then_any Q (serialize_post_condition_mode byte) _ (λ mode.
          Ensures-and_then_any Q (mined_view lib api (from_mempool t)) _ (λ mined.
            Ensures-and_then_any Q
              (payload_view lib api (call_with_abi lib api db) t.type_id t.post_conditions
                t.payload)
              _
              (λ payload.
                Ensures-and_then_any Q (event_views lib api t.type_id []) _ (λ views. refl)))))
  common_view-tx_id db (from_chain t events) =
      let Q = λ (v : TransactionView). v.tx_id ≡ t.tx_id in
      Ensures-and_then_any Q (read_first_byte t.post_conditions) _ (λ byte.
        Ensures-and_then_any Q (serialize_post_condition_mode byte) _ (λ mode.
          Ensures-and_then_any Q (mined_view lib api (from_chain t events)) _ (λ mined.
            Ensures-and_then_any Q
              (payload_view lib api (call_with_abi lib api db) t.type_id t.post_conditions
                t.payload)
              _
              (λ payload.
                Ensures-and_then_any Q (event_views lib api t.type_id events) _ (λ views. refl)))))

  find_tx-tx_id :
      (db : Db) (id : Hash) (f : FoundTx) → find_tx db id ≡ ok (some f) → found_id f ≡ id
  unfolding find_tx found_id
  find_tx-tx_id db id f h = from_both (get_mempool_tx db id) refl h
    where
      from_both :
          (m : Result Error (Option DbMempoolTx))
          → get_mempool_tx db id ≡ m
          → find_tx db id ≡ ok (some f)
          → found_id f ≡ id
      from_both (err e) k h' = absurd (cc)
      from_both (ok (some t)) k h' =
          let same : from_mempool t ≡ f = cc in
          subst (λ g. found_id g ≡ id) same (get_mempool_tx-tx_id db id t k)
      from_both (ok none) k h' = mined (get_tx db id) refl
        where
          mined : (m : Result Error (Option DbTx)) → get_tx db id ≡ m → found_id f ≡ id
          mined (err e) l = absurd (cc)
          mined (ok none) l = absurd (cc)
          mined (ok (some t)) l =
              let same : from_chain t (get_tx_events db id t.index_block_hash) ≡ f = cc in
              subst (λ g. found_id g ≡ id) same (get_tx-tx_id db id t l)

  -- The view that `getTxFromDataStore` gives has the id that was asked for.
  get_tx_from_data_store-tx_id :
      (db : Db) (id : Hash) (v : TransactionView)
      → get_tx_from_data_store lib api db id ≡ ok (some v)
      → v.tx_id ≡ id
  unfolding get_tx_from_data_store
  get_tx_from_data_store-tx_id db id v h =
      let r = and_then-eq_ok (find_tx db id) _ h in of_found r.0 r.1 r.2
    where
      of_found :
          (found : Option FoundTx)
          → find_tx db id ≡ ok found
          → (elim found [
            | none ↦ ok none
            | some tx ↦ and_then (common_view lib api db tx) (λ view. ok (some view))
          ])
            ≡ ok (some v)
          → v.tx_id ≡ id
      of_found none e k = absurd (cc)
      of_found (some f) e k =
          let r = and_then-eq_ok (common_view lib api db f) _ k in
          let same : r.0 ≡ v = cc in
          let view =
            Ensures-eq_ok (λ (w : TransactionView). w.tx_id ≡ found_id f) (common_view lib api db f)
              r.0 (common_view-tx_id db f) r.1 in
          sym (ap (λ (w : TransactionView). w.tx_id) same) ∙ (view ∙ find_tx-tx_id db id f e)

  listed_tx_view-tx_id :
      (db : Db) (t : DbTx) (v : TransactionView)
      → listed_tx_view lib api db t ≡ ok v
      → v.tx_id ≡ t.tx_id
  unfolding listed_tx_view found_or_throw
  listed_tx_view-tx_id db t v h =
      let r = and_then-eq_ok (get_tx_from_data_store lib api db t.tx_id) _ h in of_view r.0 r.1 r.2
    where
      of_view :
          (found : Option TransactionView)
          → get_tx_from_data_store lib api db t.tx_id ≡ ok found
          → found_or_throw "unexpected tx not found -- fix tx enumeration query" found ≡ ok v
          → v.tx_id ≡ t.tx_id
      of_view none e k = absurd (cc)
      of_view (some w) e k =
          let same : w ≡ v = cc in
          get_tx_from_data_store-tx_id db t.tx_id v (e ∙ ap (λ x. ok (some x)) same)

  ok-eq : {A : Type 0} (a b : A) → (let r : Result Error A = ok a in r ≡ ok b) → a ≡ b
  ok-eq a b h = cc

  -- Where the list of transactions is replied with, the strings of the filter are types, and the
  -- reply has the total and, in their order, the ids of the page of `getTxList` for these types.
  pub list_txs_ids :
      (db : Db) (limit offset : Option QueryValue) (type : TypeQuery)
      (reply : PageReply TransactionView)
      → list_txs lib api db limit offset type ≡ ok reply
      → (strings : List Text) × (type_ids : List DbTxTypeId) × (listed : Listed DbTx)
        × (tx_type_filter type ≡ ok strings)
        × (map_or_throw get_tx_type_id strings ≡ ok type_ids)
        × (get_tx_list db reply.limit reply.offset type_ids ≡ ok listed)
        × (reply.total ≡ listed.total)
        × (map (λ (v : TransactionView). v.tx_id) reply.results
            ≡ map (λ (t : DbTx). t.tx_id) listed.results)
  unfolding list_txs
  list_txs_ids db limit offset type reply h =
      let n = and_then-eq_ok (parse_limit_query 200 _ (or_number limit 96)) _ h in
      let given = and_then-eq_ok (parse_paging_query_input (or_number offset 0)) _ n.2 in
      let strings = and_then-eq_ok (tx_type_filter type) _ given.2 in
      let type_ids = and_then-eq_ok (map_or_throw get_tx_type_id strings.0) _ strings.2 in
      let m = and_then-eq_ok (bigint_parameter given.0) _ type_ids.2 in
      let listed = and_then-eq_ok (get_tx_list db n.0 m.0 type_ids.0) _ m.2 in
      let views =
        and_then-eq_ok (map_or_throw (listed_tx_view lib api db) listed.0.results) _ listed.2 in
      let made = sym (ok-eq _ reply views.2) in
      (
        strings.0,
        type_ids.0,
        listed.0,
        strings.1,
        type_ids.1,
        ap₂ (λ a b. get_tx_list db a b type_ids.0)
              (ap (λ (r : PageReply TransactionView). r.limit) made)
              (ap (λ (r : PageReply TransactionView). r.offset) made)
            ∙ listed.1,
        ap (λ (r : PageReply TransactionView). r.total) made,
        ap (λ (r : PageReply TransactionView). map (λ (v : TransactionView). v.tx_id) r.results)
              made
            ∙ map_or_throw-keys (listed_tx_view lib api db) _ _ (listed_tx_view-tx_id db)
                listed.0.results views.0 views.1,
      )
