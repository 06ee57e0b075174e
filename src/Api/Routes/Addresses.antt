-- ===== src/Api/Routes/Addresses.antt =====
-- src/api/routes/address.ts. An object with a member for each asset is the list of its members.
use stacks_blockchain_rosett.Base.{map_or_throw, List, map, Option, none, some, Result, ok}
use stacks_blockchain_rosett.Wire.Reader.{Error, Library}
use stacks_blockchain_rosett.Wire.Tx.{Text}
use stacks_blockchain_rosett.Postgres.Tables.{Db}
use stacks_blockchain_rosett.Postgres.Queries.Lists.{get_address_txs}
use stacks_blockchain_rosett.Postgres.Queries.Events.{get_address_asset_events}
use stacks_blockchain_rosett.Postgres.Queries.Balances.{
  Balance, get_stx_balance, get_fungible_token_balances, get_non_fungible_token_counts,
}
use stacks_blockchain_rosett.Api.Services.{ApiServices, ◌>>=◌, decimal}
use stacks_blockchain_rosett.Api.Events.{TransactionEvent, parse_db_event}
use stacks_blockchain_rosett.Api.Payloads.{TransactionView}
use stacks_blockchain_rosett.Api.Terms.{
  PrincipalType, QueryValue, is_valid_principal, parse_paging_query_input, parse_limit_query,
  bigint_parameter,
}
use stacks_blockchain_rosett.Api.Routes.Lists.{
  HttpReply, json, refused, PageReply, or_number, listed_tx_view,
}

-- The three numbers of a balance, in decimal; the first is the count of a non-fungible asset.
pub record BalanceView : Type 0 where
  pub balance : Text
  pub total_sent : Text
  pub total_received : Text

unfoldable pub balance_view : Balance → BalanceView
balance_view b = record {
  balance = decimal b.balance;
  total_sent = decimal b.total_sent;
  total_received = decimal b.total_received;
}

-- `formatMapToObject`
unfoldable pub format_map_to_object {ℓ κ} :
    {V : Type ℓ} {F : Type κ} → List (Text × V) → (V → F) → List (Text × F)
format_map_to_object entries formatter = map (λ e. (e.0, formatter e.1)) entries

pub record AddressBalances : Type 0 where
  pub stx : BalanceView
  pub fungible_tokens : List (Text × BalanceView)
  pub non_fungible_tokens : List (Text × BalanceView)

-- `if (!isValidPrincipal(stxAddress)) { return res.status(400)… }`
unfoldable pub if_valid_principal :
    {A : Type 0} → Option PrincipalType → Text → Result Error A → Result Error (HttpReply A)
if_valid_principal none stx_address reply = ok (refused 400 "invalid STX address " stx_address)
if_valid_principal (some principal) stx_address reply = reply >>= λ a. ok (json a)

module _ {Decoded : Type 0} (c32address_decode : Text → Result Error Decoded) where
  -- `/:stx_address/stx`
  unfoldable pub stx_route : Db → Text → Result Error (HttpReply BalanceView)
  stx_route db stx_address =
      if_valid_principal (is_valid_principal c32address_decode stx_address) stx_address
        (ok (balance_view (get_stx_balance db stx_address)))

  -- `/:stx_address/balances`
  unfoldable pub balances_route :
      (collate : List Text → List Text) → Db → Text → Result Error (HttpReply AddressBalances)
  balances_route collate db stx_address =
      if_valid_principal (is_valid_principal c32address_decode stx_address) stx_address (
        ok (record {
          stx = balance_view (get_stx_balance db stx_address);
          fungible_tokens =
              format_map_to_object (get_fungible_token_balances collate db stx_address)
                balance_view;
          non_fungible_tokens =
              format_map_to_object (get_non_fungible_token_counts collate db stx_address)
                balance_view;
        }))

  module _ (lib : Library) (api : ApiServices lib.ClarityValue) where
    unfoldable pub address_txs :
        Db → Text → (limit offset : Option QueryValue) → Result Error (PageReply TransactionView)
    address_txs db stx_address limit offset = do
      n ← parse_limit_query 50 "`limit` must be equal to or less than 50" (or_number limit 20)
      placed ← parse_paging_query_input (or_number offset 0)
      m ← bigint_parameter placed
      listed ← get_address_txs db stx_address n m
      views ← map_or_throw (listed_tx_view lib api db) listed.results
      ok (record { limit = n; offset = m; total = listed.total; results = views })

    -- `/:stx_address/transactions`
    unfoldable pub address_txs_route :
        Db
        → Text
        → (limit offset : Option QueryValue) → Result Error (HttpReply (PageReply TransactionView))
    address_txs_route db stx_address limit offset =
        if_valid_principal (is_valid_principal c32address_decode stx_address) stx_address
          (address_txs db stx_address limit offset)

    unfoldable pub address_assets :
        Db → Text → (limit offset : Option QueryValue) → Result Error (PageReply TransactionEvent)
    address_assets db stx_address limit offset = do
      n ← parse_limit_query 50 "`limit` must be equal to or less than 50" (or_number limit 20)
      placed ← parse_paging_query_input (or_number offset 0)
      m ← bigint_parameter placed
      views ←
          map_or_throw (parse_db_event lib api)
            (get_address_asset_events db stx_address n m).results
      ok (record {
        limit = n;
        offset = m;
        total = (get_address_asset_events db stx_address n m).total;
        results = views;
      })

    -- `/:stx_address/assets`
    unfoldable pub address_assets_route :
        Db
        → Text
        → (limit offset : Option QueryValue) → Result Error (HttpReply (PageReply TransactionEvent))
    address_assets_route db stx_address limit offset =
        if_valid_principal (is_valid_principal c32address_decode stx_address) stx_address
          (address_assets db stx_address limit offset)
