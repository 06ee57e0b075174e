-- ===== src/Postgres/Chain/Tip.antt =====
-- `getChainTipHeight` on a chain: no block is higher, and a canonical block is as high.
use Prim.Native.Nat.{max}
use stacks_blockchain_rosett.Base.{
  ℕ, ◌≤◌, ◌≡◌, refl, ap, ◌⊎◌, inl, inr, Bool, true, ◌&&◌, List, [], ◌∷◌, In, ◌==◌, arith,
}
use stacks_blockchain_rosett.Datastore.Common.{DbBlock}
use stacks_blockchain_rosett.Postgres.Tables.{select}
use stacks_blockchain_rosett.Postgres.Reorg.{max_height, get_chain_tip_height, first_height}
use stacks_blockchain_rosett.Postgres.Chain.Invariant.{IsChain, In-select, In-select_inv}

le-max_height : (b : DbBlock) (bs : List DbBlock) → In b bs → b.block_height ≤ max_height bs
unfolding max_height
le-max_height b [] m = absurd m
le-max_height b (c ∷ bs) (inl e) = omega (arith, ap (λ (y : DbBlock). y.block_height) e)
le-max_height b (c ∷ bs) (inr m) = omega (arith, le-max_height b bs m)

max_height_row :
    (b : DbBlock) (bs : List DbBlock)
    → In b bs
    → (t : DbBlock) × In t bs × (max_height bs ≤ t.block_height)
unfolding max_height
max_height_row b [] m = absurd m
max_height_row b (c ∷ []) m = (c, inl refl, omega arith)
max_height_row b (c ∷ d ∷ bs) m =
    let rest = max_height_row d (d ∷ bs) (inl refl) in
    elim (max_cases c.block_height (max_height (d ∷ bs))) [
      | inl e ↦ (c, inl refl, omega (arith, e))
      | inr e ↦ (rest.0, inr rest.1, omega (arith, e, rest.2))
    ]
  where
    max_cases : (m n : ℕ) → (max m n ≡ m) ⊎ (max m n ≡ n)
    max_cases m n = grind arith

first_height_all :
    (l : List DbBlock) (t : DbBlock) (k : ℕ)
    → In t l
    → ((y : DbBlock) → In y l → y.block_height ≡ k)
    → first_height l ≡ k
first_height_all [] t k m all = absurd m
first_height_all (y ∷ l) t k m all = all y (inl refl)

abbrev at_top : List DbBlock → DbBlock → Bool
at_top bs b = b.canonical && b.block_height == max_height bs

at_top_facts :
    (bs : List DbBlock) (b : DbBlock)
    → at_top bs b ≡ true
    → (b.canonical ≡ true) × (b.block_height ≡ max_height bs)
at_top_facts bs b h = ground arith

at_top_intro :
    (bs : List DbBlock) (b : DbBlock)
    → b.canonical ≡ true
    → b.block_height ≡ max_height bs
    → at_top bs b ≡ true
at_top_intro bs b c h = ground arith

pub le-get_chain_tip_height :
    (bs : List DbBlock) (b : DbBlock)
    → IsChain bs
    → In b bs
    → b.block_height ≤ get_chain_tip_height bs
unfolding get_chain_tip_height
le-get_chain_tip_height bs b chain m =
    let highest = max_height_row b bs m in
    let t = chain.tip highest.0 highest.1 in
    let t_max : t.0.block_height ≡ max_height bs =
      omega (arith, le-max_height t.0 bs t.1, highest.2, t.3) in
    let found = In-select (at_top bs) t.0 bs t.1 (at_top_intro bs t.0 t.2 t_max) in
    let tip_eq =
      first_height_all (select (at_top bs) bs) t.0 (max_height bs) found
        (λ y my. (at_top_facts bs y (In-select_inv (at_top bs) y bs my).1).1) in
    omega (arith, tip_eq, le-max_height b bs m)

first_row :
    (l : List DbBlock)
    → 1 ≤ first_height l
    → (t : DbBlock) × In t l × (t.block_height ≡ first_height l)
first_row [] h = absurd (omega arith)
first_row (t ∷ l) h = (t, inl refl, refl)

pub tip_row :
    (bs : List DbBlock)
    → 1 ≤ get_chain_tip_height bs
    → (t : DbBlock) × In t bs × (t.canonical ≡ true) × (t.block_height ≡ get_chain_tip_height bs)
unfolding get_chain_tip_height
tip_row bs h =
    let first = first_row (select (at_top bs) bs) h in
    let row = In-select_inv (at_top bs) first.0 bs first.1 in
    (first.0, row.0, (at_top_facts bs first.0 row.1).0, first.2)
