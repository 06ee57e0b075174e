-- ===== src/Api/Routes/Blocks.antt =====
-- The list of blocks that `/extended/v1/block` replies with.
use stacks_blockchain_rosett.Base.{
  map_or_throw, ℕ, ◌<◌, lt→ltb, ◌≡◌, refl, sym, subst, ap₂, inl, inr, true, List, [], ◌∷◌, map,
  Option, some, Result, ok, In, ◌==◌, ==_iff, by_key, order_by, In-sort_by, In-page,
}
use stacks_blockchain_rosett.Wire.Reader.{Error}
use stacks_blockchain_rosett.Datastore.Common.{DbBlock, DbTx}
use stacks_blockchain_rosett.Postgres.Tables.{select, Db}
use stacks_blockchain_rosett.Postgres.Chain.Invariant.{In-select, In-select_inv}
use stacks_blockchain_rosett.Postgres.Queries.Lists.{block_order, get_block, get_blocks}
use stacks_blockchain_rosett.Postgres.Queries.Events.{get_block_txs}
use stacks_blockchain_rosett.Postgres.Queries.Picks.{first-In, first_of_order, prefers_canonical}
use stacks_blockchain_rosett.Api.Events.{BlockView, block_view, get_block_from_data_store}
use stacks_blockchain_rosett.Api.Terms.{
  QueryValue, finite, parse_paging_query_input, parse_limit_query, bigint_parameter,
}
use stacks_blockchain_rosett.Api.Routes.Lists.{
  PageReply, or_number, found_or_throw, listed_block, list_blocks,
}

-- A canonical row is found by its hash: the row that `getBlock` picks is canonical too.
get_block-canonical :
    (db : Db) (b : DbBlock)
    → In b db.blocks
    → b.canonical ≡ true
    → (c : DbBlock) × (get_block db b.block_hash ≡ some c)
      × (c.block_hash ≡ b.block_hash)
      × (c.canonical ≡ true)
unfolding get_block order_by
get_block-canonical db b m flag =
    let asked = λ (x : DbBlock). x.block_hash == b.block_hash in
    let listed = select asked db.blocks in
    let there = In-select asked b db.blocks m ((==_iff b.block_hash b.block_hash).1 refl) in
    let top =
      first-In b (order_by block_order listed)
        ((In-sort_by (by_key block_order) b listed).1 there) in
    let best = first_of_order block_order listed top.0 top.1 in
    let mine = In-select_inv asked top.0 db.blocks best.0 in
    let p =
      prefers_canonical top.0.canonical b.canonical top.0.block_height b.block_height
        (best.1 b there) flag in
    (top.0, top.1, (==_iff top.0.block_hash b.block_hash).0 mine.1, p.0)

-- `map` with a function that returns on each element, and keeps a key.
map_or_throw-keeps :
    {A B : Type 0} (f : A → Result Error B) (Q : B → Type 0) (key : A → ℕ) (key' : B → ℕ)
    (xs : List A)
    → ((x : A) → In x xs → (y : B) × (f x ≡ ok y) × (key' y ≡ key x) × Q y)
    → (ys : List B) × (map_or_throw f xs ≡ ok ys)
      × (map key' ys ≡ map key xs)
      × ((y : B) → In y ys → Q y)
unfolding map_or_throw
map_or_throw-keeps f Q key key' [] h = ([], refl, refl, λ y m. absurd m)
map_or_throw-keeps f Q key key' (x ∷ xs) h =
    let one = h x (inl refl) in
    let rest = map_or_throw-keeps f Q key key' xs (λ z m. h z (inr m)) in
    (
      one.0 ∷ rest.0,
      rw (one.1, rest.1) refl,
      ap₂ ◌∷◌ one.2 rest.2,
      λ y m. elim m [ inl e ↦ subst Q (sym e) one.3 | inr n ↦ rest.3 y n ],
    )

listed_block-found :
    (engine_sort : List DbTx → List DbTx) (db : Db) (b : DbBlock)
    → In b db.blocks
    → b.canonical ≡ true
    → (v : BlockView) × (listed_block engine_sort db b ≡ ok v)
      × (v.hash ≡ b.block_hash)
      × (v.canonical ≡ true)
unfolding listed_block found_or_throw get_block_from_data_store block_view
listed_block-found engine_sort db b m flag =
    let r = get_block-canonical db b m flag in
    (
      block_view r.0 (get_block_txs engine_sort db r.0.index_block_hash),
      rw (r.1, listed_block, get_block_from_data_store, found_or_throw) refl,
      r.2,
      r.3,
    )

get_blocks-In :
    (db : Db) (limit offset : ℕ) (b : DbBlock)
    → In b (get_blocks db limit offset).results
    → In b db.blocks × (b.canonical ≡ true)
unfolding get_blocks order_by
get_blocks-In db limit offset b m =
    let flag = λ (x : DbBlock). x.canonical in
    let listed = select flag db.blocks in
    let by_height = λ (x : DbBlock). x.block_height ∷ [] in
    In-select_inv flag b db.blocks (
      (In-sort_by (by_key by_height) b listed).0
        (In-page b limit offset (order_by by_height listed) m))

-- Where the limit is accepted and the offset is a number below 2 ^ 63, which `OFFSET` takes, the list
-- of blocks is replied with and no block is missing: it has the hashes of the page of `getBlocks` in their order, and each block in it is canonical.
pub list_blocks_found :
    (engine_sort : List DbTx → List DbTx) (db : Db) (limit offset : Option QueryValue) (n m : ℕ)
    → parse_limit_query 30 "`limit` must be equal to or less than 30" (or_number limit 20) ≡ ok n
    → parse_paging_query_input (or_number offset 0) ≡ ok (finite m)
    → m < 9223372036854775808
    → (reply : PageReply BlockView) × (list_blocks engine_sort db limit offset ≡ ok reply)
      × (reply.total ≡ (get_blocks db n m).total)
      × (map (λ (v : BlockView). v.hash) reply.results
          ≡ map (λ (b : DbBlock). b.block_hash) (get_blocks db n m).results)
      × ((v : BlockView) → In v reply.results → v.canonical ≡ true)
unfolding list_blocks bigint_parameter
list_blocks_found engine_sort db limit offset n m limited placed small =
    let fits = lt→ltb m 9223372036854775808 small in
    let views =
      map_or_throw-keeps (listed_block engine_sort db) (λ (v : BlockView). v.canonical ≡ true)
        (λ (b : DbBlock). b.block_hash) (λ (v : BlockView). v.hash) (get_blocks db n m).results
        (λ b i. let r = get_blocks-In db n m b i in listed_block-found engine_sort db b r.0 r.1) in
    (
      record { limit = n; offset = m; total = (get_blocks db n m).total; results = views.0 },
      rw (limited, placed, fits, views.1) refl,
      refl,
      views.2,
      views.3,
    )
