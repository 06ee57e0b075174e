-- ===== src/Postgres/Queries/Heights.antt =====
-- What `getBlocks` lists where the canonical blocks are a chain.
use stacks_blockchain_rosett.Base.{
  ℕ, zero, suc, ◌+◌, ◌-◌, ◌≤◌, ◌<◌, ◌≡◌, ◌≢◌, refl, sym, ap, ap₂, subst, ◌∙◌, inl, inr, Bool, true,
  List, [], ◌∷◌, map, In, In-map, In-map_inv, length, length-sort_by, Bool-cases, desc, by_key,
  sort_by, order_by, insert_by, In-insert_by, In-sort_by, IsSortedBy, sort_by-IsSortedBy,
  by_key-IsOrder, page, arith,
}
use stacks_blockchain_rosett.Datastore.Common.{DbBlock}
use stacks_blockchain_rosett.Postgres.Tables.{select, Db}
use stacks_blockchain_rosett.Postgres.Reorg.{get_chain_tip_height}
use stacks_blockchain_rosett.Postgres.Chain.Invariant.{
  DistinctHashes, IsChain, In-select, In-select_inv,
}
use stacks_blockchain_rosett.Postgres.Chain.Tip.{le-get_chain_tip_height, tip_row}
use stacks_blockchain_rosett.Postgres.Queries.Lists.{get_blocks}

-- The heights from `n` down to 1.
unfoldable pub countdown : ℕ → List ℕ
countdown zero = []
countdown (suc n) = suc n ∷ countdown n

abbrev pub IsDescending : List ℕ → Type 0
IsDescending [] = Unit
IsDescending (x ∷ xs) = ((y : ℕ) → In y xs → y < x) × IsDescending xs

-- A descending list that holds exactly the numbers from 1 to `n` is the countdown from `n`.
IsDescending-countdown :
    (n : ℕ) (xs : List ℕ)
    → IsDescending xs
    → ((y : ℕ) → In y xs → 1 ≤ y)
    → ((y : ℕ) → In y xs → y ≤ n)
    → ((y : ℕ) → 1 ≤ y → y ≤ n → In y xs)
    → xs ≡ countdown n
unfolding countdown
IsDescending-countdown zero [] d low high all = refl
IsDescending-countdown zero (x ∷ xs) d low high all =
    absurd (omega (arith, low x (inl refl), high x (inl refl)))
IsDescending-countdown (suc n) [] d low high all = absurd (all (suc n) (omega arith) (omega arith))
IsDescending-countdown (suc n) (x ∷ xs) d low high all =
    let top : x ≡ suc n = elim (all (suc n) (omega arith) (omega arith)) [
      | inl e ↦ sym e
      | inr m ↦ omega (arith, d.0 (suc n) m, high x (inl refl))
    ] in
    ap₂ ◌∷◌ top (
      IsDescending-countdown n xs d.1 (λ y m. low y (inr m)) (λ y m. omega (arith, d.0 y m, top))
        (λ y one le. elim (all y one (omega (arith, le))) [
          | inl e ↦ absurd (omega (arith, e, top, le))
          | inr m ↦ m
        ]))

abbrev height : DbBlock → ℕ
height b = b.block_height

abbrev DistinctHeights : List DbBlock → Type 0
DistinctHeights [] = Unit
DistinctHeights (b ∷ bs) =
    ((c : DbBlock) → In c bs → c.block_height ≢ b.block_height) × DistinctHeights bs

insert_by-DistinctHeights :
    (le : DbBlock → DbBlock → Bool) (x : DbBlock) (ys : List DbBlock)
    → ((c : DbBlock) → In c ys → c.block_height ≢ x.block_height)
    → DistinctHeights ys
    → DistinctHeights (insert_by le x ys)
unfolding insert_by
insert_by-DistinctHeights le x [] h d = (λ c m. absurd m, tt)
insert_by-DistinctHeights le x (y ∷ ys) h d = elim (Bool-cases (le x y)) [
  | inl t ↦ rw t (h, d)
  | inr f ↦ rw f (
    λ c m. elim ((In-insert_by le c x ys).0 m) [
      | inl e ↦ λ k. h y (inl refl) (sym k ∙ ap height e)
      | inr n ↦ d.0 c n
    ],
    insert_by-DistinctHeights le x ys (λ c m. h c (inr m)) d.1,
  )
]

sort_by-DistinctHeights :
    (le : DbBlock → DbBlock → Bool) (xs : List DbBlock)
    → DistinctHeights xs
    → DistinctHeights (sort_by le xs)
unfolding sort_by
sort_by-DistinctHeights le [] d = tt
sort_by-DistinctHeights le (x ∷ xs) d =
    insert_by-DistinctHeights le x (sort_by le xs) (λ c m. d.0 c ((In-sort_by le c xs).0 m))
      (sort_by-DistinctHeights le xs d.1)

abbrev by_height : DbBlock → List ℕ
by_height b = b.block_height ∷ []

le_of_desc : (a b : DbBlock) → by_key by_height a b ≡ true → b.block_height ≤ a.block_height
unfolding desc
le_of_desc a b h = ground arith

heights-IsDescending :
    (xs : List DbBlock)
    → IsSortedBy (by_key by_height) xs
    → DistinctHeights xs
    → IsDescending (map height xs)
heights-IsDescending [] s d = tt
heights-IsDescending (x ∷ xs) s d = (
  λ y m.
      let r = In-map_inv height y xs m in
      let le = le_of_desc x r.0 (s.0 r.0 r.1) in let ne = d.0 r.0 r.1 in grind (arith, le, ne, r.2),
  heights-IsDescending xs s.1 d.1,
)

module _ (bs : List DbBlock) (chain : IsChain bs) where
  abbrev canonical_blocks : List DbBlock
  canonical_blocks = select (λ (b : DbBlock). b.canonical) bs

  canonical-In : (b : DbBlock) → In b canonical_blocks → In b bs × (b.canonical ≡ true)
  canonical-In b m = In-select_inv (λ (x : DbBlock). x.canonical) b bs m

  -- From a canonical block the heights below it have canonical blocks too.
  found_below :
      (k h : ℕ) (b : DbBlock)
      → In b bs
      → b.canonical ≡ true
      → b.block_height ≡ h + k
      → 1 ≤ h
      → (c : DbBlock) × In c bs × (c.canonical ≡ true) × (c.block_height ≡ h)
  found_below zero h b m c e one = (b, m, c, omega (arith, e))
  found_below (suc k) h b m c e one =
      let link = chain.linked b m c (omega (arith, e, one)) in
      found_below k h link.0 link.1 link.2 (omega (arith, e, link.3.below)) one

DistinctHeights-select :
    (bs xs : List DbBlock)
    → IsChain bs
    → ((b : DbBlock) → In b xs → In b bs)
    → DistinctHashes xs
    → DistinctHeights (select (λ (b : DbBlock). b.canonical) xs)
unfolding select
DistinctHeights-select bs [] chain sub d = tt
DistinctHeights-select bs (x ∷ xs) chain sub d = elim (Bool-cases x.canonical) [
  | inr f ↦ rw f (DistinctHeights-select bs xs chain (λ b m. sub b (inr m)) d.1)
  | inl t ↦ rw t (
    λ c m e.
        let r = In-select_inv (λ (b : DbBlock). b.canonical) c xs m in
        let same = chain.one_at_height c x (sub c (inr r.0)) (sub x (inl refl)) r.1 t e in
        d.0 c r.0 (ap (λ (b : DbBlock). b.index_block_hash) same),
    DistinctHeights-select bs xs chain (λ b m. sub b (inr m)) d.1,
  )
]

-- The heights of the canonical blocks, newest first, are those from the tip down to 1.
sorted_heights :
    (bs : List DbBlock)
    → IsChain bs
    → map height (order_by by_height (select (λ (b : DbBlock). b.canonical) bs))
      ≡ countdown (get_chain_tip_height bs)
unfolding order_by
sorted_heights bs chain =
    let le = by_key by_height in
    let listed = canonical_blocks bs chain in
    let sorted = sort_by le listed in
    let row =
      λ (b : DbBlock) (m : In b sorted). canonical-In bs chain b ((In-sort_by le b listed).0 m) in
    IsDescending-countdown (get_chain_tip_height bs) (map height sorted)
      (heights-IsDescending sorted (sort_by-IsSortedBy le listed (by_key-IsOrder by_height)) (
        sort_by-DistinctHeights le listed
          (DistinctHeights-select bs bs chain (λ b m. m) chain.forest.distinct)))
      (λ y m.
        let r = In-map_inv height y sorted m in
        omega (arith, chain.forest.positive r.0 (row r.0 r.1).0, r.2))
      (λ y m.
        let r = In-map_inv height y sorted m in
        omega (arith, le-get_chain_tip_height bs r.0 chain (row r.0 r.1).0, r.2))
      (λ y one high.
        let t = tip_row bs (omega (arith, one, high)) in
        let c =
          found_below bs chain (t.0.block_height - y) y t.0 t.1 t.2 (omega (arith, t.3, high))
            one in
        let there =
          (In-sort_by le c.0 listed).1 (In-select (λ (b : DbBlock). b.canonical) c.0 bs c.1 c.2) in
        subst (λ h. In h (map height sorted)) c.3 (In-map height c.0 sorted there))

map-page :
    {A B : Type 0} (f : A → B) (limit offset : ℕ) (xs : List A)
    → map f (page limit offset xs) ≡ page limit offset (map f xs)
map-page f zero offset xs = refl
map-page f (suc n) zero [] = refl
map-page f (suc n) zero (x ∷ xs) = ap (◌∷◌ (f x)) (map-page f n zero xs)
map-page f (suc n) (suc m) [] = refl
map-page f (suc n) (suc m) (x ∷ xs) = map-page f (suc n) m xs

length-countdown : (n : ℕ) → length (countdown n) ≡ n
unfolding countdown
length-countdown zero = refl
length-countdown (suc n) = omega (arith, length-countdown n)

length-map : {A B : Type 0} (f : A → B) (xs : List A) → length (map f xs) ≡ length xs
length-map f [] = refl
length-map f (x ∷ xs) = omega (arith, length-map f xs)

-- Where the canonical blocks are a chain, `getBlocks` counts as many as the tip is high, and the page
-- that it returns has the heights of the same page of the countdown from the tip to 1.
pub get_blocks_heights :
    (db : Db) (limit offset : ℕ)
    → IsChain db.blocks
    → let tip = get_chain_tip_height db.blocks in
      ((get_blocks db limit offset).total ≡ tip)
      × (map (λ (b : DbBlock). b.block_height) (get_blocks db limit offset).results
          ≡ page limit offset (countdown tip))
unfolding get_blocks order_by
get_blocks_heights db limit offset chain =
    let listed = canonical_blocks db.blocks chain in
    let sorted = order_by by_height listed in
    let heights = sorted_heights db.blocks chain in
    (
      omega (
        arith,
        length-sort_by (by_key by_height) listed,
        length-map height sorted,
        ap length heights,
        length-countdown (get_chain_tip_height db.blocks),
      ),
      map-page height limit offset sorted ∙ ap (page limit offset) heights,
    )
