-- ===== src/Postgres/Queries/Picks.antt =====
-- Which row `getTx` picks.
use stacks_blockchain_rosett.Base.{
  ℕ, ◌≤◌, ◌≡◌, refl, sym, subst, inl, inr, Bool, true, false, List, [], ◌∷◌, Option, none, some, ok,
  and_then-eq_ok, In, desc, by_key, sort_by, order_by, In-sort_by, IsSortedBy, sort_by-IsSortedBy,
  by_key-IsOrder, arith,
}
use stacks_blockchain_rosett.Datastore.Common.{DbTx}
use stacks_blockchain_rosett.Postgres.Queries.Rows.{parse_tx_query_result, parse_payload_columns}
use stacks_blockchain_rosett.Postgres.Queries.Lists.{bit, first, parse_first}

desc_refl : (k : List ℕ) → desc k k ≡ true
unfolding desc
desc_refl [] = refl
desc_refl (x ∷ k) = ground (arith, desc_refl k)

first_of_sorted :
    {A : Type 0} (le : A → A → Bool) (ys : List A) (b : A)
    → ((x : A) → le x x ≡ true)
    → IsSortedBy le ys
    → first ys ≡ some b
    → In b ys × ((c : A) → In c ys → le b c ≡ true)
first_of_sorted le [] b same sorted h = absurd (cc)
first_of_sorted le (y ∷ ys) b same sorted h =
    let e : y ≡ b = cc in
    (
      inl (sym e),
      λ c m.
          subst (λ x. le x c ≡ true) e
            (elim m [ inl n ↦ subst (λ x. le y x ≡ true) (sym n) (same y) | inr n ↦ sorted.0 c n ]),
    )

-- The first row in descending order of keys is a row that no other row comes before.
pub first_of_order :
    {A : Type 0} (key : A → List ℕ) (xs : List A) (b : A)
    → first (order_by key xs) ≡ some b
    → In b xs × ((c : A) → In c xs → desc (key b) (key c) ≡ true)
unfolding order_by
first_of_order key xs b h =
    let le = by_key key in
    let sorted = sort_by-IsSortedBy le xs (by_key-IsOrder key) in
    let r = first_of_sorted le (sort_by le xs) b (λ x. desc_refl (key x)) sorted h in
    ((In-sort_by le b xs).0 r.0, λ c m. r.1 c ((In-sort_by le c xs).1 m))

-- What `ORDER BY canonical DESC, block_height DESC` puts first.
pub prefers_canonical :
    (a c : Bool) (m n : ℕ)
    → desc (bit a ∷ m ∷ []) (bit c ∷ n ∷ []) ≡ true
    → c ≡ true
    → (a ≡ true) × (n ≤ m)
unfolding desc
prefers_canonical true true m n h k = (refl, ground arith)
prefers_canonical false true m n h k = absurd (ground arith)
prefers_canonical a false m n h k = absurd (cc)

pub parse_tx_query_result-keeps :
    (row t : DbTx)
    → parse_tx_query_result row ≡ ok t
    → (t.tx_id ≡ row.tx_id)
      × (t.canonical ≡ row.canonical)
      × (t.block_height ≡ row.block_height)
      × (t.index_block_hash ≡ row.index_block_hash)
unfolding parse_tx_query_result
parse_tx_query_result-keeps row t h =
    let r = and_then-eq_ok (parse_payload_columns row.type_id row.payload) _ h in (cc, cc, cc, cc)

pub parsed_row :
    (found : Option DbTx) (t : DbTx)
    → parse_first parse_tx_query_result found ≡ ok (some t)
    → (row : DbTx) × (found ≡ some row) × (parse_tx_query_result row ≡ ok t)
parsed_row none t h = absurd (cc)
parsed_row (some row) t h =
    let r = and_then-eq_ok (parse_tx_query_result row) _ h in (row, refl, cc)

pub first-In : {A : Type 0} (x : A) (xs : List A) → In x xs → (y : A) × (first xs ≡ some y)
first-In x [] m = absurd m
first-In x (y ∷ ys) m = (y, refl)
