-- ===== src/Memory/Agreement.antt =====
-- Where MemoryDataStore and PgDataStore hold the same rows, in any order: their lists of blocks and
-- transactions.
use stacks_blockchain_rosett.Base.{
  In, ok, and_then, ℕ, zero, suc, ◌+◌, ◌-◌, ◌≤◌, ◌≡◌, refl, ap, ◌∙◌, inl, inr, false, ◌&&◌, List,
  [], ◌∷◌, leb, take, drop, order_by, sort_by, desc, by_key, by_key-IsOrder, sort_by-perm_eq,
  length-perm, page, arith, Bool, true, sym, Bool-cases,
}
use mathlib.Core.List.{Permᴰ}
use mathlib.Core.List.Permᴰ
use stacks_blockchain_rosett.Datastore.Common.{DbBlock, DbTx, DbTxTypeId}
use stacks_blockchain_rosett.Postgres.Tables.{select, Db}
use stacks_blockchain_rosett.Postgres.Chain.Invariant.{IsChain, In-select_inv}
use stacks_blockchain_rosett.Postgres.Queries.Rows.{parse_tx_query_result, parse_rows}
use stacks_blockchain_rosett.Postgres.Queries.Lists.{Listed, entries, listed_tx, newest_tx}
use stacks_blockchain_rosett.Postgres.Queries.Lists as Pg
use stacks_blockchain_rosett.Memory.Store.{MemoryDataStore}
use stacks_blockchain_rosett.Memory.Queries.{
  values, in_range, page_of, get_blocks, of_types, get_tx_list,
}

module _ {A : Type 0} where
  take-take : (m n : ℕ) (xs : List A) → m ≤ n → take m (take n xs) ≡ take m xs
  take-take zero n xs h = refl
  take-take (suc m) zero xs h = absurd (omega (arith, h))
  take-take (suc m) (suc n) [] h = refl
  take-take (suc m) (suc n) (x ∷ xs) h = ap (◌∷◌ x) (take-take m n xs (omega (arith, h)))

  -- From an index that is not before the offset.
  in_range_inside :
      (k i limit offset : ℕ) (xs : List A)
      → offset ≤ i
      → k ≡ suc (offset + limit) - i
      → in_range i limit offset xs ≡ take k xs
  unfolding in_range
  in_range_inside zero i limit offset [] h e = refl
  in_range_inside (suc k) i limit offset [] h e = refl
  in_range_inside zero i limit offset (x ∷ xs) h e =
      let out : leb i (offset + limit) ≡ false = ground arith in
      let rest =
        in_range_inside zero (suc i) limit offset xs (omega (arith, h)) (omega (arith, e)) in
      ground (arith, rest)
  in_range_inside (suc k) i limit offset (x ∷ xs) h e =
      let rest = in_range_inside k (suc i) limit offset xs (omega (arith, h)) (omega (arith, e)) in
      ground (arith, rest)

  page_from :
      (d i limit offset : ℕ) (xs : List A)
      → offset ≡ i + d
      → take limit (in_range i limit offset xs) ≡ take limit (drop d xs)
  unfolding in_range
  page_from zero i limit offset xs e =
      ap (take limit)
        (in_range_inside (suc limit) i limit offset xs (omega (arith, e)) (omega (arith, e)))
      ∙ take-take limit (suc limit) xs (omega arith)
  page_from (suc d) i limit offset [] e = refl
  page_from (suc d) i limit offset (x ∷ xs) e =
      let out : (leb offset i && leb i (offset + limit)) ≡ false = ground arith in
      rw out (page_from d (suc i) limit offset xs (omega (arith, e)))

  -- The filter on indices with the slice behind it is `LIMIT` and `OFFSET`.
  page_of-eq_page :
      (limit offset : ℕ) (xs : List A) → page_of limit offset xs ≡ page limit offset xs
  unfolding page_of
  page_of-eq_page limit offset xs = page_from offset 0 limit offset xs (omega arith)

select-perm :
    {A : Type 0} (p : A → Bool) {xs ys : List A} → Permᴰ xs ys → Permᴰ (select p xs) (select p ys)
unfolding select
select-perm p Permᴰ.nil = Permᴰ.nil
select-perm p (Permᴰ.cons {a = a} {b = b} e d) = elim (Bool-cases (p b)) [
  | inl t ↦ let u : p a ≡ true = ap p e ∙ t in rw (t, u) (Permᴰ.cons e (select-perm p d))
  | inr f ↦ let u : p a ≡ false = ap p e ∙ f in rw (f, u) (select-perm p d)
]
select-perm p (Permᴰ.swap {a = a} {b = b} {a' = c} {b' = d} {l = l} e f) = elim (Bool-cases (p a)) [
  | inl t ↦
      let u : p d ≡ true = ap p (sym e) ∙ t in
      elim (Bool-cases (p b)) [
        | inl v ↦ let w : p c ≡ true = ap p (sym f) ∙ v in rw (t, u, v, w) (Permᴰ.swap e f)
        | inr v ↦
            let w : p c ≡ false = ap p (sym f) ∙ v in
            rw (t, u, v, w) (Permᴰ.cons e (Permᴰ.refl (select p l)))
      ]
  | inr t ↦
      let u : p d ≡ false = ap p (sym e) ∙ t in
      elim (Bool-cases (p b)) [
        | inl v ↦
            let w : p c ≡ true = ap p (sym f) ∙ v in
            rw (t, u, v, w) (Permᴰ.cons f (Permᴰ.refl (select p l)))
        | inr v ↦
            let w : p c ≡ false = ap p (sym f) ∙ v in rw (t, u, v, w) (Permᴰ.refl (select p l))
      ]
]
select-perm p (Permᴰ.trans d c) = Permᴰ.trans (select-perm p d) (select-perm p c)

same_height : (m n : ℕ) → desc (m ∷ []) (n ∷ []) ≡ true → desc (n ∷ []) (m ∷ []) ≡ true → m ≡ n
unfolding desc
same_height m n h k = ground arith

-- Where the blocks of PgDataStore are a chain, and MemoryDataStore holds the same blocks in any order,
-- their `getBlocks` return the same page and total.
pub get_blocks_agree :
    (m : MemoryDataStore) (db : Db) (limit offset : ℕ)
    → IsChain db.blocks
    → Permᴰ db.blocks (values m.blocks)
    → get_blocks m limit offset ≡ Pg.get_blocks db limit offset
unfolding get_blocks Pg.get_blocks order_by
get_blocks_agree m db limit offset chain rows =
    let flag = λ (b : DbBlock). b.canonical in
    let by_height = by_key (λ (b : DbBlock). b.block_height ∷ []) in
    let flagged = select-perm flag rows in
    let sorted = sort_by-perm_eq by_height (by_key-IsOrder _) flagged (λ a b i j h k.
      let p = In-select_inv flag a db.blocks i in
      let q = In-select_inv flag b db.blocks j in
      chain.one_at_height a b p.0 q.0 p.1 q.1 (same_height a.block_height b.block_height h k)) in
    let counted = length-perm flagged in
    let paged = page_of-eq_page limit offset (sort_by by_height (select flag (values m.blocks))) in
    rw (sorted, counted, paged) refl

of_types-select :
    (type_ids : List DbTxTypeId) (txs : List DbTx)
    → of_types type_ids (select (λ (t : DbTx). t.canonical) txs) ≡ select (listed_tx type_ids) txs
unfolding of_types listed_tx select
of_types-select [] [] = refl
of_types-select [] (t ∷ ts) = ground (arith, of_types-select [] ts)
of_types-select (u ∷ us) [] = refl
of_types-select (u ∷ us) (t ∷ ts) = ground (arith, of_types-select (u ∷ us) ts)

of_types-perm :
    (type_ids : List DbTxTypeId) {xs ys : List DbTx}
    → Permᴰ xs ys
    → Permᴰ (of_types type_ids xs) (of_types type_ids ys)
unfolding of_types
of_types-perm [] d = d
of_types-perm (u ∷ us) d = select-perm _ d

In-of_types :
    (type_ids : List DbTxTypeId) (t : DbTx) (xs : List DbTx) → In t (of_types type_ids xs) → In t xs
unfolding of_types
In-of_types [] t xs m = m
In-of_types (u ∷ us) t xs m = (In-select_inv _ t xs m).0

same_place :
    (h i k j : ℕ)
    → desc (h ∷ i ∷ []) (k ∷ j ∷ []) ≡ true
    → desc (k ∷ j ∷ []) (h ∷ i ∷ []) ≡ true
    → (h ≡ k) × (i ≡ j)
unfolding desc
same_place h i k j a b = ground arith

-- Where the two stores hold the same canonical transactions, in any order, and no two of them stand at
-- the same height and index, `getTxList` of PgDataStore gives the page and the total that
-- `getTxList` of MemoryDataStore gives, with each transaction parsed as a row.
pub get_tx_list_agree :
    (m : MemoryDataStore) (db : Db) (limit offset : ℕ) (type_ids : List DbTxTypeId)
    → Permᴰ
        (select (λ (t : DbTx). t.canonical) (entries db.txs))
        (select (λ (t : DbTx). t.canonical) (values m.txs))
    → ((a b : DbTx)
        → In a (select (λ (t : DbTx). t.canonical) (entries db.txs))
        → In b (select (λ (t : DbTx). t.canonical) (entries db.txs))
        → a.block_height ≡ b.block_height
        → a.tx_index ≡ b.tx_index
        → a ≡ b)
    → Pg.get_tx_list db limit offset type_ids
      ≡ and_then
          (parse_rows parse_tx_query_result (get_tx_list m limit offset type_ids).results)
          (λ parsed.
            ok (record { results = parsed; total = (get_tx_list m limit offset type_ids).total }))
unfolding get_tx_list Pg.get_tx_list order_by
get_tx_list_agree m db limit offset type_ids rows apart =
    let mine = select (λ (t : DbTx). t.canonical) (entries db.txs) in
    let theirs = select (λ (t : DbTx). t.canonical) (values m.txs) in
    let found = of_types-perm type_ids rows in
    let newest = by_key newest_tx in
    let sorted = sort_by-perm_eq newest (by_key-IsOrder _) found (λ a b i j h k.
      let e = same_place a.block_height a.tx_index b.block_height b.tx_index h k in
      apart a b (In-of_types type_ids a mine i) (In-of_types type_ids b mine j) e.0 e.1) in
    let counted = length-perm found in
    let paged = page_of-eq_page limit offset (sort_by newest (of_types type_ids theirs)) in
    rw (sym (of_types-select type_ids (entries db.txs))) (rw (sorted, counted, paged) refl)
