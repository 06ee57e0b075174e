-- ===== src/Postgres/Queries/TxEvents.antt =====
-- What `getTxEvents` returns, and in which order.
use stacks_blockchain_rosett.Base.{
  ◌≡◌, refl, sym, ap, subst, ◌∙◌, inl, inr, ◌⊎◌, ◌↔◌, Bool, true, false, List, [], ◌∷◌, ◌++◌, ◌&&◌,
  In-map, In-map_inv, map, In, ◌==◌, ==_iff, In-sort_by, IsSortedBy, sort_by-IsSortedBy, IsOrder,
  arith,
}
use stacks_blockchain_rosett.Datastore.Common.{
  Hash, DbSmartContractEvent, DbStxEvent, DbFtEvent, DbNftEvent,
}
use stacks_blockchain_rosett.Postgres.Tables.{Row, Db}
use stacks_blockchain_rosett.Postgres.Chain.Invariant.{In-select, In-select_inv}
use stacks_blockchain_rosett.Postgres.Queries.Events.{
  DbEvent, smart_contract_log, stx_asset, fungible_token_asset, non_fungible_token_asset, of_block,
  by_index, tx_events, get_tx_events,
}

by_index-IsOrder : IsOrder by_index
by_index-IsOrder = record { total = λ x y h. ground arith; trans = λ x y z h k. ground arith }

-- A row with the index hash holds the entry.
abbrev pub InBlock : {E : Type 0} → Hash → E → List (Row E) → Type 0
InBlock {E} hash e table =
    (row : Row E) × In row table × (row.entry ≡ e) × (row.index_block_hash ≡ hash)

-- The event is in a row of its table, with the index hash, and of the transaction.
abbrev pub IsEventOf : Db → (tx_id index_block_hash : Hash) → DbEvent → Type 0
IsEventOf db id hash (smart_contract_log e) = InBlock hash e db.contract_logs × (e.tx_id ≡ id)
IsEventOf db id hash (stx_asset e) = InBlock hash e db.stx_events × (e.tx_id ≡ id)
IsEventOf db id hash (fungible_token_asset e) = InBlock hash e db.ft_events × (e.tx_id ≡ id)
IsEventOf db id hash (non_fungible_token_asset e) = InBlock hash e db.nft_events × (e.tx_id ≡ id)

and_true : (a b : Bool) → (a && b) ≡ true → (a ≡ true) × (b ≡ true)
and_true true b h = (refl, h)
and_true false b h = absurd (cc)

In-of_block :
    {E : Type 0} (id_of : E → Hash) (id hash : Hash) (e : E) (table : List (Row E))
    → In e (of_block (λ x. id_of x == id) hash table) ↔ (InBlock hash e table × (id_of e ≡ id))
In-of_block id_of id hash e table = (
  λ m.
      let r = In-map_inv (λ (row : Row _). row.entry) e _ m in
      let q =
        In-select_inv (λ (row : Row _). id_of row.entry == id && row.index_block_hash == hash) r.0
          table r.1 in
      let both = and_true _ _ q.1 in
      (
        (r.0, q.0, sym r.2, (==_iff r.0.index_block_hash hash).0 both.1),
        ap id_of r.2 ∙ (==_iff (id_of r.0.entry) id).0 both.0,
      ),
  λ m.
      let row = m.0.0 in
      let same : (id_of row.entry == id) ≡ true =
        (==_iff (id_of row.entry) id).1 (ap id_of m.0.2 ∙ m.1) in
      let here : (row.index_block_hash == hash) ≡ true =
        (==_iff row.index_block_hash hash).1 m.0.3 in
      let kept =
        In-select (λ (x : Row _). id_of x.entry == id && x.index_block_hash == hash) row table m.0.1
          (rw same here) in
      subst (λ x. In x (of_block (λ y. id_of y == id) hash table)) m.0.2
        (In-map (λ (x : Row _). x.entry) row _ kept),
)

In-append : {A : Type 0} (x : A) (xs ys : List A) → In x (xs ++ ys) ↔ (In x xs ⊎ In x ys)
In-append x [] ys = (λ m. inr m, λ m. elim m [ inl n ↦ absurd n | inr n ↦ n ])
In-append x (z ∷ xs) ys =
    let r = In-append x xs ys in
    (
      λ m. elim m [
        | inl e ↦ inl (inl e)
        | inr n ↦ elim (r.0 n) [ inl o ↦ inl (inr o) | inr o ↦ inr o ]
      ],
      λ m. elim m [
        | inl (inl e) ↦ inl e
        | inl (inr o) ↦ inr (r.1 (inl o))
        | inr o ↦ inr (r.1 (inr o))
      ],
    )

-- An injective `f` keeps membership exactly.
In-map_iff :
    {A B : Type 0} (f : A → B) (x : A) (xs : List A)
    → ((y : A) → f x ≡ f y → x ≡ y)
    → In (f x) (map f xs) ↔ In x xs
In-map_iff f x xs inj = (
  λ m. let r = In-map_inv f (f x) xs m in subst (λ z. In z xs) (sym (inj r.0 r.2)) r.1,
  λ m. In-map f x xs m,
)

module _ (db : Db) (id hash : Hash) where
  abbrev stxs : List DbStxEvent
  stxs = of_block (λ (e : DbStxEvent). e.tx_id == id) hash db.stx_events

  abbrev fts : List DbFtEvent
  fts = of_block (λ (e : DbFtEvent). e.tx_id == id) hash db.ft_events

  abbrev nfts : List DbNftEvent
  nfts = of_block (λ (e : DbNftEvent). e.tx_id == id) hash db.nft_events

  abbrev logs : List DbSmartContractEvent
  logs = of_block (λ (e : DbSmartContractEvent). e.tx_id == id) hash db.contract_logs

  In-four :
      (e : DbEvent)
      → In e (tx_events db id hash) ↔ (
          In e (map stx_asset stxs)
          ⊎ (In e (map fungible_token_asset fts)
              ⊎ (In e (map non_fungible_token_asset nfts) ⊎ In e (map smart_contract_log logs))))
  unfolding tx_events
  In-four e =
      let a = In-append e (map stx_asset stxs) _ in
      let b = In-append e (map fungible_token_asset fts) _ in
      let c = In-append e (map non_fungible_token_asset nfts) (map smart_contract_log logs) in
      (
        λ m. elim (a.0 m) [
          | inl n ↦ inl n
          | inr n ↦ elim (b.0 n) [ inl o ↦ inr (inl o) | inr o ↦ inr (inr (c.0 o)) ]
        ],
        λ m. elim m [
          | inl n ↦ a.1 (inl n)
          | inr (inl n) ↦ a.1 (inr (b.1 (inl n)))
          | inr (inr n) ↦ a.1 (inr (b.1 (inr (c.1 n))))
        ],
      )

  In-tx_events : (e : DbEvent) → In e (tx_events db id hash) ↔ IsEventOf db id hash e
  In-tx_events (stx_asset e) =
      let four = In-four (stx_asset e) in
      let kept = In-map_iff stx_asset e stxs (λ y same. cc) in
      let rows = In-of_block (λ (x : DbStxEvent). x.tx_id) id hash e db.stx_events in
      (
        λ m. elim (four.0 m) [
          | inl n ↦ rows.0 (kept.0 n)
          | inr (inl n) ↦ let r = In-map_inv fungible_token_asset _ fts n in absurd (cc)
          | inr (inr (inl n)) ↦ let r = In-map_inv non_fungible_token_asset _ nfts n in absurd (cc)
          | inr (inr (inr n)) ↦ let r = In-map_inv smart_contract_log _ logs n in absurd (cc)
        ],
        λ m. four.1 (inl (kept.1 (rows.1 m))),
      )
  In-tx_events (fungible_token_asset e) =
      let four = In-four (fungible_token_asset e) in
      let kept = In-map_iff fungible_token_asset e fts (λ y same. cc) in
      let rows = In-of_block (λ (x : DbFtEvent). x.tx_id) id hash e db.ft_events in
      (
        λ m. elim (four.0 m) [
          | inl n ↦ let r = In-map_inv stx_asset _ stxs n in absurd (cc)
          | inr (inl n) ↦ rows.0 (kept.0 n)
          | inr (inr (inl n)) ↦ let r = In-map_inv non_fungible_token_asset _ nfts n in absurd (cc)
          | inr (inr (inr n)) ↦ let r = In-map_inv smart_contract_log _ logs n in absurd (cc)
        ],
        λ m. four.1 (inr (inl (kept.1 (rows.1 m)))),
      )
  In-tx_events (non_fungible_token_asset e) =
      let four = In-four (non_fungible_token_asset e) in
      let kept = In-map_iff non_fungible_token_asset e nfts (λ y same. cc) in
      let rows = In-of_block (λ (x : DbNftEvent). x.tx_id) id hash e db.nft_events in
      (
        λ m. elim (four.0 m) [
          | inl n ↦ let r = In-map_inv stx_asset _ stxs n in absurd (cc)
          | inr (inl n) ↦ let r = In-map_inv fungible_token_asset _ fts n in absurd (cc)
          | inr (inr (inl n)) ↦ rows.0 (kept.0 n)
          | inr (inr (inr n)) ↦ let r = In-map_inv smart_contract_log _ logs n in absurd (cc)
        ],
        λ m. four.1 (inr (inr (inl (kept.1 (rows.1 m))))),
      )
  In-tx_events (smart_contract_log e) =
      let four = In-four (smart_contract_log e) in
      let kept = In-map_iff smart_contract_log e logs (λ y same. cc) in
      let rows = In-of_block (λ (x : DbSmartContractEvent). x.tx_id) id hash e db.contract_logs in
      (
        λ m. elim (four.0 m) [
          | inl n ↦ let r = In-map_inv stx_asset _ stxs n in absurd (cc)
          | inr (inl n) ↦ let r = In-map_inv fungible_token_asset _ fts n in absurd (cc)
          | inr (inr (inl n)) ↦ let r = In-map_inv non_fungible_token_asset _ nfts n in absurd (cc)
          | inr (inr (inr n)) ↦ rows.0 (kept.0 n)
        ],
        λ m. four.1 (inr (inr (inr (kept.1 (rows.1 m))))),
      )

-- `getTxEvents` returns an event exactly if a row of the table of its kind holds it, with the index hash
-- and the id asked for, and in ascending order of the events' indices.
pub get_tx_events_sorted :
    (db : Db) (tx_id index_block_hash : Hash)
    → ((e : DbEvent)
        → In e (get_tx_events db tx_id index_block_hash) ↔ IsEventOf db tx_id index_block_hash e)
      × IsSortedBy by_index (get_tx_events db tx_id index_block_hash)
unfolding get_tx_events
get_tx_events_sorted db tx_id hash =
    let events = tx_events db tx_id hash in
    (
      λ e.
          let sorted = In-sort_by by_index e events in
          let stored = In-tx_events db tx_id hash e in
          (λ m. stored.0 (sorted.0 m), λ m. sorted.1 (stored.1 m)),
      sort_by-IsSortedBy by_index events by_index-IsOrder,
    )
