-- ===== src/Postgres/Queries/Conservation.antt =====
-- The balances of all addresses together.
use stacks_blockchain_rosett.Base.{ℕ, ◌+◌, ◌≡◌, ◌&&◌, List, arith}
use stacks_blockchain_rosett.Wire.Signed.{pos_part, neg_part, ◌-ℤ◌, -ℤ_parts, eq_of_parts}
use stacks_blockchain_rosett.Wire.Tx.{Text}
use stacks_blockchain_rosett.Datastore.Common.{DbStxEvent}
use stacks_blockchain_rosett.Postgres.Tables.{select, Db}
use stacks_blockchain_rosett.Postgres.Queries.Lists.{entries}
use stacks_blockchain_rosett.Postgres.Queries.Balances.{
  sum_of, stx_received, stx_sent, fees_paid, get_stx_balance,
}
use stacks_blockchain_rosett.Postgres.Queries.Sums.{
  sum_ℕ, sum_of_parts, sum_of_sums, sum_ℕ-plus, sum_of_differences,
}
use stacks_blockchain_rosett.Postgres.Queries.Supply.{
  is_some, is_mint, is_burn, minted, burned, all_fees, Covers, received_once, sent_once, paid_once,
  transfers_cancel, up, down, fee, receives, sends, pays, received_parts, sent_parts, fee_parts,
  all_fee_parts,
}

minted_parts :
    (db : Db)
    → pos_part (minted db) + sum_ℕ down (select is_mint (entries db.stx_events))
      ≡ sum_ℕ up (select is_mint (entries db.stx_events)) + neg_part (minted db)
unfolding minted up down
minted_parts db =
    sum_of_parts (λ (e : DbStxEvent). e.amount) (select is_mint (entries db.stx_events))

burned_parts :
    (db : Db)
    → pos_part (burned db) + sum_ℕ down (select is_burn (entries db.stx_events))
      ≡ sum_ℕ up (select is_burn (entries db.stx_events)) + neg_part (burned db)
unfolding burned up down
burned_parts db =
    sum_of_parts (λ (e : DbStxEvent). e.amount) (select is_burn (entries db.stx_events))

module _ (db : Db) (addresses : List Text) (covers : Covers db addresses) where
  received_sums :
      (g : DbStxEvent → ℕ)
      → sum_ℕ (λ a. sum_ℕ g (select (receives a) (entries db.stx_events))) addresses
        ≡ sum_ℕ g (select (λ e. e.canonical && is_some e.recipient) (entries db.stx_events))
  unfolding receives
  received_sums g =
      sum_of_sums g receives (λ e. e.canonical && is_some e.recipient) addresses
        (entries db.stx_events)
        (λ e m.
          received_once addresses covers.distinct e.canonical e.sender e.recipient
            (λ t flag there. covers.recipients e t m flag there))

  sent_sums :
      (g : DbStxEvent → ℕ)
      → sum_ℕ (λ a. sum_ℕ g (select (sends a) (entries db.stx_events))) addresses
        ≡ sum_ℕ g (select (λ e. e.canonical && is_some e.sender) (entries db.stx_events))
  unfolding sends
  sent_sums g =
      sum_of_sums g sends (λ e. e.canonical && is_some e.sender) addresses (entries db.stx_events)
        (λ e m.
          sent_once addresses covers.distinct e.canonical e.sender e.recipient
            (λ t flag there. covers.senders e t m flag there))

  fee_sums :
      sum_ℕ (λ a. sum_ℕ fee (select (pays a) (entries db.txs))) addresses
      ≡ sum_ℕ fee (select (λ t. t.canonical) (entries db.txs))
  unfolding pays
  fee_sums =
      sum_of_sums fee pays (λ t. t.canonical) addresses (entries db.txs)
        (λ t m.
          paid_once addresses covers.distinct t.canonical t.sender_address
            (λ flag. covers.payers t m flag))

-- What raises and what lowers the balance of an address.
raised : Db → Text → ℕ
raised db a =
    sum_ℕ up (select (receives a) (entries db.stx_events))
    + sum_ℕ down (select (sends a) (entries db.stx_events))

lowered : Db → Text → ℕ
lowered db a =
    sum_ℕ down (select (receives a) (entries db.stx_events))
    + sum_ℕ up (select (sends a) (entries db.stx_events))

one_balance :
    (db : Db) (a : Text)
    → pos_part (get_stx_balance db a).balance
        + (lowered db a + sum_ℕ fee (select (pays a) (entries db.txs)))
      ≡ raised db a + neg_part (get_stx_balance db a).balance
unfolding get_stx_balance raised lowered
one_balance db a =
    let r = stx_received db a in
    let s = stx_sent db a in
    let f = fees_paid db a in
    omega (
      arith,
      -ℤ_parts r s,
      -ℤ_parts (r -ℤ s) f,
      received_parts db a,
      sent_parts db a,
      fee_parts db a,
    )

-- Over addresses that are each listed once, those of the canonical events and of the payers of
-- canonical fees among them, the balances of `getStxBalance` add up to what the canonical events
-- mint less what they burn, less the fees of the canonical transactions.
pub balances_conserved :
    (db : Db) (addresses : List Text)
    → Covers db addresses
    → sum_of (λ a. (get_stx_balance db a).balance) addresses ≡ minted db -ℤ burned db -ℤ all_fees db
unfolding raised lowered
balances_conserved db addresses covers =
    let rows = entries db.stx_events in
    let got = λ (g : DbStxEvent → ℕ) (a : Text). sum_ℕ g (select (receives a) rows) in
    let gave = λ (g : DbStxEvent → ℕ) (a : Text). sum_ℕ g (select (sends a) rows) in
    let paid = λ (a : Text). sum_ℕ fee (select (pays a) (entries db.txs)) in
    eq_of_parts _ _ (
      omega (
        arith,
        sum_of_differences (λ a. (get_stx_balance db a).balance) (raised db)
            (λ a. lowered db a + paid a) (one_balance db) addresses,
        sum_ℕ-plus (lowered db) paid addresses,
        sum_ℕ-plus (got up) (gave down) addresses,
        sum_ℕ-plus (got down) (gave up) addresses,
        received_sums db addresses covers up,
        received_sums db addresses covers down,
        sent_sums db addresses covers up,
        sent_sums db addresses covers down,
        fee_sums db addresses covers,
        transfers_cancel up rows,
        transfers_cancel down rows,
        minted_parts db,
        burned_parts db,
        all_fee_parts db,
        -ℤ_parts (minted db) (burned db),
        -ℤ_parts (minted db -ℤ burned db) (all_fees db),
      ))
