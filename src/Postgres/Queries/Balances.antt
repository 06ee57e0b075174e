-- ===== src/Postgres/Queries/Balances.antt =====
-- PgDataStore: `getStxBalance`, `getFungibleTokenBalances` and `getNonFungibleTokenCounts`.
use stacks_blockchain_rosett.Base.{
  Bool, ◌&&◌, true, false, List, [], ◌∷◌, map, length, same_text, if◌then◌else◌,
}
use stacks_blockchain_rosett.Wire.Signed.{ℤ, pos, ◌+ℤ◌, ◌-ℤ◌}
use stacks_blockchain_rosett.Wire.Tx.{Text}
use stacks_blockchain_rosett.Datastore.Common.{DbTx, DbStxEvent, DbFtEvent, DbNftEvent}
use stacks_blockchain_rosett.Postgres.Tables.{select, Db}
use stacks_blockchain_rosett.Postgres.Queries.Lists.{entries, column_is}
use stacks_blockchain_rosett.Postgres.Queries.Events.{touches}

-- `sum(column)`; null over no row, which the source reads as 0.
unfoldable pub sum_of : {A : Type 0} → (A → ℤ) → List A → ℤ
sum_of f [] = pos 0
sum_of f (x ∷ xs) = f x +ℤ sum_of f xs

pub record Balance : Type 0 where
  pub balance : ℤ
  pub total_sent : ℤ
  pub total_received : ℤ

-- The rows of `transfers`, `credit` and `debit`.
abbrev pub stx_transfers : Db → Text → List DbStxEvent
stx_transfers db address =
    select (λ (e : DbStxEvent). e.canonical && touches address e.sender e.recipient)
      (entries db.stx_events)

unfoldable pub stx_received : Db → Text → ℤ
stx_received db address =
    sum_of (λ (e : DbStxEvent). e.amount)
      (select (λ (e : DbStxEvent). column_is address e.recipient) (stx_transfers db address))

unfoldable pub stx_sent : Db → Text → ℤ
stx_sent db address =
    sum_of (λ (e : DbStxEvent). e.amount)
      (select (λ (e : DbStxEvent). column_is address e.sender) (stx_transfers db address))

unfoldable pub fees_paid : Db → Text → ℤ
fees_paid db address =
    sum_of (λ (t : DbTx). pos t.fee_rate)
      (select (λ (t : DbTx). t.canonical && same_text t.sender_address address) (entries db.txs))

unfoldable pub get_stx_balance : Db → Text → Balance
get_stx_balance db address = record {
  balance = stx_received db address -ℤ stx_sent db address -ℤ fees_paid db address;
  total_sent = stx_sent db address;
  total_received = stx_received db address;
}

-- The identifiers of a list of assets, each once, the first occurrence kept.
unfoldable pub mem_text : Text → List Text → Bool
mem_text t [] = false
mem_text t (u ∷ us) = let rest = mem_text t us in if same_text u t then true else rest

unfoldable pub distinct : List Text → List Text
distinct [] = []
distinct (t ∷ ts) = let rest = distinct ts in if mem_text t rest then rest else t ∷ rest

abbrev pub ft_transfers : Db → Text → List DbFtEvent
ft_transfers db address =
    select (λ (e : DbFtEvent). e.canonical && touches address e.sender e.recipient)
      (entries db.ft_events)

-- One row of the FULL JOIN of `credit` and `debit`: a side that is missing counts 0.
unfoldable pub ft_balance : Text → List DbFtEvent → Text → Balance
ft_balance address transfers asset =
    let of_asset = select (λ (e : DbFtEvent). same_text e.asset_identifier asset) transfers in
    let received =
      sum_of (λ (e : DbFtEvent). e.amount)
        (select (λ (e : DbFtEvent). column_is address e.recipient) of_asset) in
    let sent =
      sum_of (λ (e : DbFtEvent). e.amount)
        (select (λ (e : DbFtEvent). column_is address e.sender) of_asset) in
    record { balance = received -ℤ sent; total_sent = sent; total_received = received }

-- `localeCompare` is code outside the repository, here `collate`, which puts the identifiers in order.
unfoldable pub get_fungible_token_balances :
    (collate : List Text → List Text) → Db → Text → List (Text × Balance)
get_fungible_token_balances collate db address =
    let transfers = ft_transfers db address in
    map (λ asset. (asset, ft_balance address transfers asset))
      (collate (distinct (map (λ (e : DbFtEvent). e.asset_identifier) transfers)))

abbrev pub nft_transfers : Db → Text → List DbNftEvent
nft_transfers db address =
    select (λ (e : DbNftEvent). e.canonical && touches address e.sender e.recipient)
      (entries db.nft_events)

unfoldable pub nft_count : Text → List DbNftEvent → Text → Balance
nft_count address transfers asset =
    let of_asset = select (λ (e : DbNftEvent). same_text e.asset_identifier asset) transfers in
    let received =
      pos (length (select (λ (e : DbNftEvent). column_is address e.recipient) of_asset)) in
    let sent = pos (length (select (λ (e : DbNftEvent). column_is address e.sender) of_asset)) in
    record { balance = received -ℤ sent; total_sent = sent; total_received = received }

unfoldable pub get_non_fungible_token_counts :
    (collate : List Text → List Text) → Db → Text → List (Text × Balance)
get_non_fungible_token_counts collate db address =
    let transfers = nft_transfers db address in
    map (λ asset. (asset, nft_count address transfers asset))
      (collate (distinct (map (λ (e : DbNftEvent). e.asset_identifier) transfers)))
