-- ===== src/Api/Routes/Known.antt =====
-- What the search for a hash returns.
use stacks_blockchain_rosett.Base.{
  ℕ, ◌≡◌, ◌↔◌, ◌⊎◌, refl, sym, ap, ◌∙◌, inl, inr, true, false, List, [], ◌∷◌, Option, none, some,
  Result, ok, err, In, length, ◌==◌, ==_iff, Bool-cases, result-cases,
}
use stacks_blockchain_rosett.Wire.Reader.{Error, Buffer}
use stacks_blockchain_rosett.Wire.Tx.{Text}
use stacks_blockchain_rosett.Wire.Reads.{be_value}
use stacks_blockchain_rosett.Datastore.Common.{Hash, DbBlock, DbTx, DbMempoolTx}
use stacks_blockchain_rosett.Postgres.Tables.{select, Db}
use stacks_blockchain_rosett.Postgres.Queries.Rows.{
  parse_tx_query_result, parse_mempool_tx_query_result,
}
use stacks_blockchain_rosett.Postgres.Queries.Lists.{first, entries}
use stacks_blockchain_rosett.Postgres.Queries.Search.{
  DbSearchResult, tx_id_result, mempool_tx_id_result, block_hash_result, search_hash,
}
use stacks_blockchain_rosett.Events.Hex.{to_hex, buffer_to_hex_prefix_string}
use stacks_blockchain_rosett.Api.Labels.{get_tx_type_string}
use stacks_blockchain_rosett.Api.Terms.{hash_buffer}
use stacks_blockchain_rosett.Api.Hashes.{hash_buffer-bytes}
use stacks_blockchain_rosett.Api.Routes.Search.{
  SearchResult, found_block, found_tx, found_mempool_tx, found_contract, found_address,
  unknown_hash, unknown_principal, invalid_term, is_hit, tx_data, block_data, hash_text,
  hash_result, hash_reply, search_by_hash, search_bytes, perform_search,
}
use stacks_blockchain_rosett.Api.Routes.HashText.{hash_text-be_value}

-- A row of one of the three tables has the hash.
abbrev pub IsKnown : Db → Hash → Type 0
IsKnown db h =
    ((t : DbTx) × In t (entries db.txs) × (t.tx_id ≡ h))
    ⊎ (((t : DbMempoolTx) × In t db.mempool_txs × (t.tx_id ≡ h))
        ⊎ ((b : DbBlock) × In b db.blocks × (b.block_hash ≡ h)))

-- The text that a result is about.
unfoldable pub subject : SearchResult → Text
subject (found_block id b) = id
subject (found_tx id t) = id
subject (found_mempool_tx id t) = id
subject (found_contract id t) = id
subject (found_address id) = id
subject (unknown_hash hash) = hash
subject (unknown_principal p term) = term
subject (invalid_term term) = term

first-select :
    {A : Type 0} (key : A → ℕ) (h : ℕ) (xs : List A)
    → ((x : A) × (first (select (λ x. key x == h) xs) ≡ some x) × In x xs × (key x ≡ h))
      ⊎ ((first (select (λ x. key x == h) xs) ≡ none) × ((x : A) → In x xs → key x ≡ h → ⊥))
unfolding select
first-select key h [] = inr (refl, λ x m e. m)
first-select key h (y ∷ xs) = elim (Bool-cases (key y == h)) [
  | inl t ↦ inl (y, rw t refl, inl refl, (==_iff (key y) h).0 t)
  | inr f ↦ elim (first-select key h xs) [
    | inl r ↦ inl (r.0, rw f r.1, inr r.2, r.3)
    | inr n ↦ inr (
      rw f n.0,
      λ x m e. elim m [
        | inl same ↦
            let there : (key y == h) ≡ true = (==_iff (key y) h).1 (sym (ap key same) ∙ e) in
            absurd (cc)
        | inr later ↦ n.1 x later e
      ],
    )
  ]
]

-- What the search in the three tables comes to: an error and a hit only where a row has the hash.
abbrev IsOutcome : Db → Hash → Result Error (Option DbSearchResult) → Type 0
IsOutcome db h r =
    ((e : Error) × (r ≡ err e) × IsKnown db h)
    ⊎ (((s : DbSearchResult) × (f : SearchResult) × (r ≡ ok (some s))
          × (hash_result s ≡ ok f)
          × (subject f ≡ hash_text h)
          × (is_hit f ≡ true)
          × IsKnown db h)
        ⊎ ((r ≡ ok none) × (IsKnown db h → ⊥)))

search_hash-IsOutcome : (db : Db) (h : Hash) → IsOutcome db h (search_hash db h)
unfolding search_hash hash_result subject is_hit
search_hash-IsOutcome db h = elim (first-select (λ (t : DbTx). t.tx_id) h (entries db.txs)) [
  | inl r ↦
      let known : IsKnown db h = inl (r.0, r.2, r.3) in
      elim (result-cases (parse_tx_query_result r.0)) [
        | inl p ↦ inr (
            inl (
              tx_id_result r.0.tx_id p.0,
              found_tx (hash_text r.0.tx_id) (tx_data p.0),
              rw (r.1, p.1) refl,
              refl,
              ap hash_text r.3,
              refl,
              known,
            ))
        | inr p ↦ inl (p.0, rw (r.1, p.1) refl, known)
      ]
  | inr no_tx ↦ elim (first-select (λ (t : DbMempoolTx). t.tx_id) h db.mempool_txs) [
    | inl r ↦
        let known : IsKnown db h = inr (inl (r.0, r.2, r.3)) in
        elim (result-cases (parse_mempool_tx_query_result r.0)) [
          | inl p ↦ inr (
              inl (
                mempool_tx_id_result r.0.tx_id p.0,
                found_mempool_tx (hash_text r.0.tx_id) (get_tx_type_string p.0.type_id),
                rw (no_tx.0, r.1, p.1) refl,
                refl,
                ap hash_text r.3,
                refl,
                known,
              ))
          | inr p ↦ inl (p.0, rw (no_tx.0, r.1, p.1) refl, known)
        ]
    | inr no_mempool ↦ elim (first-select (λ (b : DbBlock). b.block_hash) h db.blocks) [
      | inl r ↦
          let known : IsKnown db h = inr (inr (r.0, r.2, r.3)) in
          inr (
            inl (
              block_hash_result r.0.block_hash r.0,
              found_block (hash_text r.0.block_hash) (block_data r.0),
              rw (no_tx.0, no_mempool.0, r.1) refl,
              refl,
              ap hash_text r.3,
              refl,
              known,
            ))
      | inr no_block ↦ inr (
          inr (
            rw (no_tx.0, no_mempool.0, no_block.0) refl,
            λ k. elim k [
              | inl t ↦ no_tx.1 t.0 t.1 t.2
              | inr (inl t) ↦ no_mempool.1 t.0 t.1 t.2
              | inr (inr b) ↦ no_block.1 b.0 b.1 b.2
            ],
          ))
    ]
  ]
]

-- A term of the length of a hash that spells 32 bytes: `performSearch` throws only where a row has that
-- hash; otherwise it answers about the hex string of these bytes, and it has found something exactly if
-- a transaction, one of the mempool or a block has the hash.
pub perform_search_hash :
    {Decoded : Type 0} (c32address_decode : Text → Result Error Decoded) (db : Db) (term : Text)
    (bytes : Buffer)
    → hash_buffer term ≡ some bytes
    → length bytes ≡ 32
    → let result = perform_search c32address_decode db term in
      ((e : Error) × (result ≡ err e) × IsKnown db (be_value 0 bytes))
      ⊎ ((found : SearchResult) × (result ≡ ok found)
          × (subject found ≡ 48 ∷ 120 ∷ to_hex bytes)
          × ((is_hit found ≡ true) ↔ IsKnown db (be_value 0 bytes)))
unfolding perform_search search_bytes search_by_hash hash_reply subject is_hit
    buffer_to_hex_prefix_string
perform_search_hash c32address_decode db term bytes spelled long =
    let text = hash_text-be_value bytes long (hash_buffer-bytes term bytes spelled) in
    let size : (length bytes == 32) ≡ true = (==_iff (length bytes) 32).1 long in
    elim (search_hash-IsOutcome db (be_value 0 bytes)) [
      | inl failed ↦ inl (failed.0, rw (spelled, size, failed.1) refl, failed.2)
      | inr (inl hit) ↦
          inr (hit.1, rw (spelled, size, hit.2) hit.3, hit.4 ∙ text, (λ t. hit.6, λ k. hit.5))
      | inr (inr miss) ↦ inr (
        unknown_hash (48 ∷ 120 ∷ to_hex bytes),
        rw (spelled, size, miss.0) refl,
        refl,
        ((λ (t : false ≡ true). absurd (cc)), λ k. absurd (miss.1 k)),
      )
    ]
