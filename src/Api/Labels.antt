-- ===== src/Api/Labels.antt =====
-- src/api/controllers/db-controller.ts: the strings that stand for the types and the states of
-- transactions and of their events. A `switch` on an enum is a case split on it: the error after its
-- cases names no member of the enum and has no case.
use stacks_blockchain_rosett.Base.{
  map_or_throw, ◌||◌, List, [], ◌∷◌, map, Result, ok, err, same_text, units, if◌then◌else◌, ◌≡◌,
  refl, ap₂, inl, inr, Bool-cases, same_text-eq, and_then-eq_ok, ◌↔◌,
}
use stacks_blockchain_rosett.Datastore.Common.{
  DbTxTypeId, token_transfer, smart_contract, contract_call, poison_microblock, coinbase,
  DbTxStatus, pending, success, abort_by_response, abort_by_post_condition, DbAssetEventTypeId,
  transfer, mint, burn,
}
use stacks_blockchain_rosett.Postgres.Queries.Events.{
  DbEvent, smart_contract_log, stx_asset, fungible_token_asset, non_fungible_token_asset,
}
use stacks_blockchain_rosett.Wire.Reader.{Error, message_error}
use stacks_blockchain_rosett.Wire.Tx.{Text}

unfoldable pub get_tx_type_string : DbTxTypeId → Text
get_tx_type_string token_transfer = units "token_transfer"
get_tx_type_string smart_contract = units "smart_contract"
get_tx_type_string contract_call = units "contract_call"
get_tx_type_string poison_microblock = units "poison_microblock"
get_tx_type_string coinbase = units "coinbase"

unfoldable pub get_tx_type_id : Text → Result Error DbTxTypeId
get_tx_type_id type_string =
    if same_text type_string (units "token_transfer")
    then ok token_transfer
    else if same_text type_string (units "smart_contract")
    then ok smart_contract
    else if same_text type_string (units "contract_call")
    then ok contract_call
    else if same_text type_string (units "poison_microblock")
    then ok poison_microblock
    else if same_text type_string (units "coinbase")
    then ok coinbase
    else err (message_error "Unexpected tx type string: ")

unfoldable pub parse_tx_type_string : Text → Result Error Text
parse_tx_type_string v =
    if same_text v (units "contract_call")
      || (same_text v (units "smart_contract")
          || (same_text v (units "token_transfer")
              || (same_text v (units "coinbase") || same_text v (units "poison_microblock"))))
    then ok v
    else err (message_error "Unexpected tx type: ")

unfoldable pub parse_tx_type_strings : List Text → Result Error (List Text)
parse_tx_type_strings values = map_or_throw parse_tx_type_string values

unfoldable pub get_tx_status_string : DbTxStatus → Text
get_tx_status_string pending = units "pending"
get_tx_status_string success = units "success"
get_tx_status_string abort_by_response = units "abort_by_response"
get_tx_status_string abort_by_post_condition = units "abort_by_post_condition"

unfoldable pub get_event_type_string : DbEvent → Text
get_event_type_string (smart_contract_log e) = units "smart_contract_log"
get_event_type_string (stx_asset e) = units "stx_asset"
get_event_type_string (fungible_token_asset e) = units "fungible_token_asset"
get_event_type_string (non_fungible_token_asset e) = units "non_fungible_token_asset"

unfoldable pub get_asset_event_type_string : DbAssetEventTypeId → Text
get_asset_event_type_string transfer = units "transfer"
get_asset_event_type_string mint = units "mint"
get_asset_event_type_string burn = units "burn"

get_tx_type_id-get_tx_type_string : (t : DbTxTypeId) → get_tx_type_id (get_tx_type_string t) ≡ ok t
unfolding get_tx_type_id get_tx_type_string same_text
get_tx_type_id-get_tx_type_string token_transfer = refl
get_tx_type_id-get_tx_type_string smart_contract = refl
get_tx_type_id-get_tx_type_string contract_call = refl
get_tx_type_id-get_tx_type_string poison_microblock = refl
get_tx_type_id-get_tx_type_string coinbase = refl

parse_tx_type_string-get_tx_type_string :
    (t : DbTxTypeId) → parse_tx_type_string (get_tx_type_string t) ≡ ok (get_tx_type_string t)
unfolding parse_tx_type_string get_tx_type_string same_text
parse_tx_type_string-get_tx_type_string token_transfer = refl
parse_tx_type_string-get_tx_type_string smart_contract = refl
parse_tx_type_string-get_tx_type_string contract_call = refl
parse_tx_type_string-get_tx_type_string poison_microblock = refl
parse_tx_type_string-get_tx_type_string coinbase = refl

-- A string that is accepted is the string of a type.
accepted_type :
    (v w : Text)
    → parse_tx_type_string v ≡ ok w
    → (t : DbTxTypeId) × (v ≡ get_tx_type_string t) × (w ≡ v)
unfolding parse_tx_type_string get_tx_type_string
accepted_type v w h = elim (Bool-cases (same_text v (units "contract_call"))) [
  | inl t ↦ (contract_call, same_text-eq v _ t, cc)
  | inr f1 ↦ elim (Bool-cases (same_text v (units "smart_contract"))) [
    | inl t ↦ (smart_contract, same_text-eq v _ t, cc)
    | inr f2 ↦ elim (Bool-cases (same_text v (units "token_transfer"))) [
      | inl t ↦ (token_transfer, same_text-eq v _ t, cc)
      | inr f3 ↦ elim (Bool-cases (same_text v (units "coinbase"))) [
        | inl t ↦ (coinbase, same_text-eq v _ t, cc)
        | inr f4 ↦ elim (Bool-cases (same_text v (units "poison_microblock"))) [
          | inl t ↦ (poison_microblock, same_text-eq v _ t, cc)
          | inr f5 ↦ absurd (cc)
        ]
      ]
    ]
  ]
]

strings-accepted :
    (types : List DbTxTypeId)
    → map_or_throw parse_tx_type_string (map get_tx_type_string types)
      ≡ ok (map get_tx_type_string types)
unfolding map_or_throw
strings-accepted [] = refl
strings-accepted (t ∷ ts) = rw (parse_tx_type_string-get_tx_type_string t, strings-accepted ts) refl

ids_found :
    (types : List DbTxTypeId)
    → map_or_throw get_tx_type_id (map get_tx_type_string types) ≡ ok types
unfolding map_or_throw
ids_found [] = refl
ids_found (t ∷ ts) = rw (get_tx_type_id-get_tx_type_string t, ids_found ts) refl

accepted_types :
    (vs ws : List Text)
    → map_or_throw parse_tx_type_string vs ≡ ok ws
    → (types : List DbTxTypeId) × (vs ≡ map get_tx_type_string types) × (ws ≡ vs)
unfolding map_or_throw
accepted_types [] ws h = ([], refl, cc)
accepted_types (v ∷ vs) ws h =
    let first = and_then-eq_ok (parse_tx_type_string v) _ h in
    let rest = and_then-eq_ok (map_or_throw parse_tx_type_string vs) _ first.2 in
    let one = accepted_type v first.0 first.1 in
    let many = accepted_types vs rest.0 rest.1 in (one.0 ∷ many.0, ap₂ ◌∷◌ one.1 many.1, cc)

-- `parseTxTypeStrings` accepts exactly the lists of the strings that `getTxTypeString` gives, returns
-- them unchanged, and `getTxTypeId` then finds the types again.
pub parse_tx_type_strings_lem :
    (values accepted : List Text)
    → (parse_tx_type_strings values ≡ ok accepted) ↔ (
        (types : List DbTxTypeId) × (values ≡ map get_tx_type_string types)
        × (accepted ≡ values)
        × (map_or_throw get_tx_type_id accepted ≡ ok types))
unfolding parse_tx_type_strings
parse_tx_type_strings_lem values accepted = (
  λ h.
      let found = accepted_types values accepted h in
      let whole = ids_found found.0 in
      let same = found.1 in let kept = found.2 in (found.0, found.1, found.2, cc),
  λ found. let whole = strings-accepted found.0 in let same = found.1 in let kept = found.2 in cc,
)
