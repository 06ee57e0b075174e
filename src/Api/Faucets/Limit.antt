-- ===== src/Api/Faucets/Limit.antt =====
-- How often a faucet pays: at most five times to an address in five minutes.
use stacks_blockchain_rosett.Base.{
  ℕ, ◌+◌, ◌-◌, ◌≤◌, ◌<◌, ◌≡◌, ◌≢◌, ◌↔◌, refl, sym, ap, subst, ◌∙◌, inl, inr, Bool, true, false,
  ◌&&◌, List, [], ◌∷◌, Result, ok, err, leb, length, take, In, desc, by_key, sort_by, order_by,
  sort_by-IsSortedBy, by_key-IsOrder, Bool-cases, same_text-eq, arith,
}
use stacks_blockchain_rosett.Wire.Reader.{Error}
use stacks_blockchain_rosett.Wire.Tx.{Text}
use stacks_blockchain_rosett.Datastore.Common.{DbFaucetRequestCurrency, btc, stx, DbFaucetRequest}
use stacks_blockchain_rosett.Postgres.Tables.{select}
use stacks_blockchain_rosett.Api.Faucets.Counting.{
  count, count-cons, count-sort_by, count-take, count-select, count_mono,
}
use stacks_blockchain_rosett.Api.Faucets.{
  asked_by, same_currency, newest, get_faucet_requests, get_btc_faucet_requests,
  get_stx_faucet_requests, insert_faucet_request, window, requests_in_window, FaucetRequest,
  FaucetResponse, paid, too_many_requests, failed, row_of, pay_btc, handle_btc, broadcast_stx,
  pay_stx, handle_stx, handle_faucet, handle_faucets,
}

abbrev recent : ℕ → DbFaucetRequest → Bool
recent now r = leb (now - r.occurred_at) window

-- The rows that count against a request.
abbrev pub counted : DbFaucetRequestCurrency → Text → ℕ → DbFaucetRequest → Bool
counted currency address now r = asked_by currency address r && recent now r

count-map_age :
    (now : ℕ) (rs : List DbFaucetRequest)
    → length (requests_in_window now rs) ≡ count (recent now) rs
unfolding requests_in_window select
count-map_age now [] = refl
count-map_age now (r ∷ rs) = ground (arith, count-map_age now rs)

recent_below :
    (now : ℕ) (x y : DbFaucetRequest)
    → by_key newest x y ≡ true
    → recent now x ≡ false
    → recent now y ≡ false
unfolding desc
recent_below now x y h k = ground arith

-- The five rows of the query decide whether there are five in the window.
pub five_in_window :
    (currency : DbFaucetRequestCurrency) (table : List DbFaucetRequest) (address : Text) (now : ℕ)
    → leb 5 (length (requests_in_window now (get_faucet_requests currency table address)))
      ≡ leb 5 (count (counted currency address now) table)
unfolding order_by
five_in_window currency table address now =
    let rows = select (asked_by currency address) table in
    let le = by_key newest in
    let sorted = sort_by le rows in
    ap (leb 5) (count-map_age now (take 5 sorted))
    ∙ (count-take (recent now) le (recent_below now) 5 sorted
          (sort_by-IsSortedBy le rows (by_key-IsOrder newest))
        ∙ ap (leb 5) (
            count-sort_by (recent now) le rows
            ∙ count-select (asked_by currency address) (recent now) table))

-- A row is stored, of the request, or the table is as it was.
pub data Change (currency : DbFaucetRequestCurrency) (req : FaucetRequest)
    (table : List DbFaucetRequest) : FaucetResponse × List DbFaucetRequest → Type 0 where
  refused :
      5 ≤ count (counted currency req.address req.now) table
      → Change currency req table (too_many_requests, table)
  not_paid :
      count (counted currency req.address req.now) table < 5
      → (e : Error) → Change currency req table (failed e, table)
  counts :
      count (counted currency req.address req.now) table < 5
      → (response : FaucetResponse) → response ≢ too_many_requests
      → Change currency req table (response, row_of currency req ∷ table)

abbrev Few : DbFaucetRequestCurrency → FaucetRequest → List DbFaucetRequest → Type 0
Few currency req table = count (counted currency req.address req.now) table < 5

pay_btc-Change :
    (req : FaucetRequest) (table : List DbFaucetRequest) (payment : Result Error Text)
    → Few btc req table
    → Change btc req table (pay_btc req table payment)
unfolding pay_btc insert_faucet_request
pay_btc-Change req table (ok tx) few = counts few (paid tx) (λ e. cc)
pay_btc-Change req table (err e) few = not_paid few e

broadcast_stx-Change :
    (req : FaucetRequest) (table : List DbFaucetRequest) (sent : Result Error Text)
    → Few stx req table
    → Change stx req table (broadcast_stx (row_of stx req ∷ table) sent)
unfolding broadcast_stx
broadcast_stx-Change req table (ok tx) few = counts few (paid tx) (λ e. cc)
broadcast_stx-Change req table (err e) few = counts few (failed e) (λ e. cc)

pay_stx-Change :
    (req : FaucetRequest) (table : List DbFaucetRequest) (payment : Result Error Text)
    → Few stx req table
    → Change stx req table (pay_stx req table payment)
unfolding pay_stx insert_faucet_request
pay_stx-Change req table (ok tx) few = broadcast_stx-Change req table req.broadcast few
pay_stx-Change req table (err e) few = not_paid few e

handle_faucet-Change :
    (currency : DbFaucetRequestCurrency) (req : FaucetRequest) (table : List DbFaucetRequest)
    → Change currency req table (handle_faucet currency req table)
unfolding handle_faucet handle_btc handle_stx get_btc_faucet_requests get_stx_faucet_requests
handle_faucet-Change btc req table =
    rw (five_in_window btc table req.address req.now)
      (elim (Bool-cases (leb 5 (count (counted btc req.address req.now) table))) [
        | inl t ↦ rw t (refused (ground arith))
        | inr f ↦ rw f (pay_btc-Change req table req.payment (ground arith))
      ])
handle_faucet-Change stx req table =
    rw (five_in_window stx table req.address req.now)
      (elim (Bool-cases (leb 5 (count (counted stx req.address req.now) table))) [
        | inl t ↦ rw t (refused (ground arith))
        | inr f ↦ rw f (pay_stx-Change req table req.payment (ground arith))
      ])

refused_iff :
    (currency : DbFaucetRequestCurrency) (req : FaucetRequest) (table : List DbFaucetRequest)
    (done : FaucetResponse × List DbFaucetRequest)
    → Change currency req table done
    → (done.0 ≡ too_many_requests) ↔ (5 ≤ count (counted currency req.address req.now) table)
refused_iff currency req table done (refused many) = (λ e. many, λ m. refl)
refused_iff currency req table done (not_paid few e) =
    (λ h. absurd (cc), λ m. absurd (omega (arith, few, m)))
refused_iff currency req table done (counts few response other) =
    (λ h. absurd (other h), λ m. absurd (omega (arith, few, m)))

-- A faucet answers "Too many requests" exactly if the table has five rows or more of the currency and the
-- address that are at most five minutes old, although the query returns five rows at most.
pub handle_faucet_refuses :
    (currency : DbFaucetRequestCurrency) (req : FaucetRequest) (table : List DbFaucetRequest)
    → ((handle_faucet currency req table).0 ≡ too_many_requests)
      ↔ (5 ≤ count (counted currency req.address req.now) table)
handle_faucet_refuses currency req table =
    refused_iff currency req table _ (handle_faucet-Change currency req table)

-- The rows of a currency and an address in the five minutes from `start`.
abbrev pub paid_in : DbFaucetRequestCurrency → Text → (start : ℕ) → DbFaucetRequest → Bool
paid_in currency address start r =
    asked_by currency address r && (leb start r.occurred_at && leb r.occurred_at (start + window))

-- The requests are handled in the order of their times, none before `from`.
abbrev pub InOrder : (from : ℕ) → List (DbFaucetRequestCurrency × FaucetRequest) → Type 0
InOrder from [] = Unit
InOrder from ((currency, req) ∷ reqs) = (from ≤ req.now) × InOrder req.now reqs

record IsLimited (now : ℕ) (table : List DbFaucetRequest) : Type 0 where
  five :
      (currency : DbFaucetRequestCurrency) (address : Text) (start : ℕ)
      → count (paid_in currency address start) table ≤ 5
  past : (r : DbFaucetRequest) → In r table → r.occurred_at ≤ now

asked_by_same :
    (c d : DbFaucetRequestCurrency) (a : Text) (req : FaucetRequest)
    → asked_by c a (row_of d req) ≡ true
    → (c ≡ d) × (a ≡ req.address)
unfolding asked_by same_currency
asked_by_same btc btc a req h = (refl, sym (same_text-eq req.address a (ground arith)))
asked_by_same stx stx a req h = (refl, sym (same_text-eq req.address a (ground arith)))
asked_by_same btc stx a req h = absurd (ground arith)
asked_by_same stx btc a req h = absurd (ground arith)

stored-five :
    (d : DbFaucetRequestCurrency) (req : FaucetRequest) (table : List DbFaucetRequest)
    → IsLimited req.now table
    → Few d req table
    → (c : DbFaucetRequestCurrency) (a : Text) (start : ℕ)
    → count (paid_in c a start) (row_of d req ∷ table) ≤ 5
stored-five d req table lim few c a start = elim (Bool-cases (paid_in c a start (row_of d req))) [
  | inr f ↦ rw (count-cons (paid_in c a start) (row_of d req) table, f) (lim.five c a start)
  | inl t ↦
      let same = asked_by_same c d a req (ground arith) in
      let fewer =
        count_mono (paid_in c a start) (counted c a req.now) table (λ x m h. ground arith) in
      let room =
        subst (λ x. count (counted x a req.now) table < 5) (sym same.0)
          (subst (λ x. count (counted d x req.now) table < 5) (sym same.1) few) in
      rw (count-cons (paid_in c a start) (row_of d req) table, t) (omega (arith, fewer, room))
]

Change-IsLimited :
    (d : DbFaucetRequestCurrency) (req : FaucetRequest) (table : List DbFaucetRequest)
    (done : FaucetResponse × List DbFaucetRequest)
    → Change d req table done
    → IsLimited req.now table
    → IsLimited req.now done.1
Change-IsLimited d req table done (refused many) lim = lim
Change-IsLimited d req table done (not_paid few e) lim = lim
Change-IsLimited d req table done (counts few response other) lim = record {
  five = stored-five d req table lim few;
  past = λ r m. elim m [
    | inl e ↦ omega (arith, ap (λ (x : DbFaucetRequest). x.occurred_at) e)
    | inr n ↦ lim.past r n
  ];
}

later-IsLimited :
    (t u : ℕ) (table : List DbFaucetRequest) → t ≤ u → IsLimited t table → IsLimited u table
later-IsLimited t u table h lim = record {
  five = lim.five;
  past = λ r m. omega (arith, lim.past r m, h);
}

handle_faucets-five :
    (reqs : List (DbFaucetRequestCurrency × FaucetRequest)) (from : ℕ)
    (table : List DbFaucetRequest)
    → InOrder from reqs
    → IsLimited from table
    → (currency : DbFaucetRequestCurrency) (address : Text) (start : ℕ)
    → count (paid_in currency address start) (handle_faucets reqs table) ≤ 5
unfolding handle_faucets
handle_faucets-five [] from table order lim = lim.five
handle_faucets-five ((d, req) ∷ reqs) from table order lim =
    handle_faucets-five reqs req.now (handle_faucet d req table).1 order.1 (
      Change-IsLimited d req table _ (handle_faucet-Change d req table)
        (later-IsLimited from req.now table order.0 lim))

-- After any requests of both faucets, handled in the order of their times from an empty table, no five
-- minutes hold more than five rows of one currency and one address.
pub handle_faucets-five_in_window :
    (reqs : List (DbFaucetRequestCurrency × FaucetRequest))
    → InOrder 0 reqs
    → (currency : DbFaucetRequestCurrency) (address : Text) (start : ℕ)
    → count (paid_in currency address start) (handle_faucets reqs []) ≤ 5
unfolding select
handle_faucets-five_in_window reqs order =
    handle_faucets-five reqs 0 [] order
      (record { five = λ c a s. omega arith; past = λ r m. absurd m })
