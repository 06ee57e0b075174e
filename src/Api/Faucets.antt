-- ===== src/Api/Faucets.antt =====
-- src/api/routes/faucets.ts with the faucet queries of src/datastore/postgres-store.ts. The table
-- `faucet_requests` is the list of its rows, a new row in front. What the payments and the broadcast
-- return or throw is part of a request: they are calls of bitcoin and Stacks nodes. Each route handles
-- its requests one after the other.
pub mod Counting
pub mod Limit
mod Tests
use stacks_blockchain_rosett.Base.{
  ℕ, ◌-◌, ◌*◌, Bool, true, false, ◌&&◌, List, [], ◌∷◌, map, Result, ok, err, leb, if◌then◌else◌,
  same_text, length, order_by, page,
}
use stacks_blockchain_rosett.Wire.Reader.{Error}
use stacks_blockchain_rosett.Wire.Tx.{Text}
use stacks_blockchain_rosett.Datastore.Common.{DbFaucetRequestCurrency, btc, stx, DbFaucetRequest}
use stacks_blockchain_rosett.Postgres.Tables.{select}

unfoldable pub same_currency : DbFaucetRequestCurrency → DbFaucetRequestCurrency → Bool
same_currency btc btc = true
same_currency stx stx = true
same_currency _ _ = false

-- `WHERE address = $1 AND currency = …`
unfoldable pub asked_by : DbFaucetRequestCurrency → Text → DbFaucetRequest → Bool
asked_by currency address r = same_text r.address address && same_currency r.currency currency

abbrev newest : DbFaucetRequest → List ℕ
newest r = r.occurred_at ∷ []

abbrev get_faucet_requests :
    DbFaucetRequestCurrency → List DbFaucetRequest → Text → List DbFaucetRequest
get_faucet_requests currency table address =
    page 5 0 (order_by newest (select (asked_by currency address) table))

unfoldable pub get_btc_faucet_requests : List DbFaucetRequest → Text → List DbFaucetRequest
get_btc_faucet_requests = get_faucet_requests btc

unfoldable pub get_stx_faucet_requests : List DbFaucetRequest → Text → List DbFaucetRequest
get_stx_faucet_requests = get_faucet_requests stx

unfoldable pub insert_faucet_request : DbFaucetRequest → List DbFaucetRequest → List DbFaucetRequest
insert_faucet_request request table = request ∷ table

-- `5 * 60 * 1000`, in milliseconds.
abbrev pub window : ℕ
window = 5 * 60 * 1000

unfoldable pub requests_in_window : ℕ → List DbFaucetRequest → List ℕ
requests_in_window now requests =
    select (λ r. leb r window) (map (λ (r : DbFaucetRequest). now - r.occurred_at) requests)

pub record FaucetRequest : Type 0 where
  pub address : Text
  pub ip : Text
  pub now : ℕ
  -- The transaction that pays, or the error of making it.
  pub payment : Result Error Text
  -- What the broadcast of a Stacks transfer returns.
  pub broadcast : Result Error Text

pub data FaucetResponse : Type 0 where
  paid : (tx_id : Text) → FaucetResponse
  too_many_requests : FaucetResponse
  failed : Error → FaucetResponse

abbrev pub row_of : DbFaucetRequestCurrency → FaucetRequest → DbFaucetRequest
row_of currency req = record {
  currency = currency;
  address = req.address;
  ip = req.ip;
  occurred_at = req.now;
}

abbrev Handled : Type 0
Handled = FaucetResponse × List DbFaucetRequest

-- The payment comes before the row: where it fails, there is no row.
unfoldable pub pay_btc : FaucetRequest → List DbFaucetRequest → Result Error Text → Handled
pay_btc req table (err e) = (failed e, table)
pay_btc req table (ok tx_id) = (paid tx_id, insert_faucet_request (row_of btc req) table)

unfoldable pub handle_btc : FaucetRequest → List DbFaucetRequest → Handled
handle_btc req table =
    if leb 5 (length (requests_in_window req.now (get_btc_faucet_requests table req.address)))
    then (too_many_requests, table)
    else pay_btc req table req.payment

unfoldable pub broadcast_stx : List DbFaucetRequest → Result Error Text → Handled
broadcast_stx table (err e) = (failed e, table)
broadcast_stx table (ok tx_id) = (paid tx_id, table)

-- The row comes before the broadcast: where that fails, the row stays.
unfoldable pub pay_stx : FaucetRequest → List DbFaucetRequest → Result Error Text → Handled
pay_stx req table (err e) = (failed e, table)
pay_stx req table (ok tx) =
    broadcast_stx (insert_faucet_request (row_of stx req) table) req.broadcast

unfoldable pub handle_stx : FaucetRequest → List DbFaucetRequest → Handled
handle_stx req table =
    if leb 5 (length (requests_in_window req.now (get_stx_faucet_requests table req.address)))
    then (too_many_requests, table)
    else pay_stx req table req.payment

-- `router.postAsync('/btc', …)` and `'/stx'`
unfoldable pub handle_faucet :
    DbFaucetRequestCurrency → FaucetRequest → List DbFaucetRequest → Handled
handle_faucet btc req table = handle_btc req table
handle_faucet stx req table = handle_stx req table

-- Requests of both routes, in the order in which they are handled.
unfoldable pub handle_faucets :
    List (DbFaucetRequestCurrency × FaucetRequest) → List DbFaucetRequest → List DbFaucetRequest
handle_faucets [] table = table
handle_faucets ((currency, req) ∷ reqs) table =
    handle_faucets reqs (handle_faucet currency req table).1
