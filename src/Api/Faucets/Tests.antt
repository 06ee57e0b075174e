-- ===== src/Api/Faucets/Tests.antt =====
-- Requests of the faucets: the theorems at them, and runs.
use stacks_blockchain_rosett.Base.{
  ℕ, ◌≤◌, ◌≡◌, ◌↔◌, refl, List, [], ◌∷◌, ok, err, replicate, sort_by, insert_by, order_by, desc,
  same_text, arith,
}
use stacks_blockchain_rosett.Wire.Reader.{library_error}
use stacks_blockchain_rosett.Datastore.Common.{DbFaucetRequestCurrency, btc, stx, DbFaucetRequest}
use stacks_blockchain_rosett.Postgres.Tables.{select}
use stacks_blockchain_rosett.Api.Faucets.{
  FaucetRequest, too_many_requests, handle_faucet, handle_faucets, handle_stx,
  get_stx_faucet_requests, requests_in_window, asked_by, same_currency, row_of,
}
use stacks_blockchain_rosett.Api.Faucets.Counting.{count}
use stacks_blockchain_rosett.Api.Faucets.Limit.{
  counted, paid_in, handle_faucet_refuses, handle_faucets-five_in_window,
}

-- A request whose payment works and whose broadcast fails.
abbrev asking : ℕ → FaucetRequest
asking now = record {
  address = 83 ∷ [];
  ip = 49 ∷ [];
  now = now;
  payment = ok (48 ∷ []);
  broadcast = err (library_error "");
}

abbrev full : List DbFaucetRequest
full = replicate 5 (row_of stx (asking 1000))

handle_faucet_refuses_example :
    ((handle_faucet stx (asking 301000) full).0 ≡ too_many_requests)
    ↔ (5 ≤ count (counted stx (83 ∷ []) 301000) full)
handle_faucet_refuses_example = handle_faucet_refuses stx (asking 301000) full

refused_at_last : (handle_faucet stx (asking 301000) full).0 ≡ too_many_requests
unfolding handle_faucet handle_stx get_stx_faucet_requests requests_in_window order_by sort_by
    insert_by desc select asked_by same_currency same_text
refused_at_last = refl

abbrev six : List (DbFaucetRequestCurrency × FaucetRequest)
six =
    (stx, asking 0)
    ∷ (btc, asking 0)
    ∷ (stx, asking 1)
    ∷ (stx, asking 2)
    ∷ (stx, asking 3)
    ∷ (stx, asking 4)
    ∷ (stx, asking 300000)
    ∷ []

handle_faucets-five_in_window_example : count (paid_in stx (83 ∷ []) 0) (handle_faucets six []) ≤ 5
handle_faucets-five_in_window_example =
    handle_faucets-five_in_window six (omega arith) stx (83 ∷ []) 0
