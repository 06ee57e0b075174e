-- ===== src/Api/Rpc/Handlers.antt =====
-- src/api/routes/ws-rpc.ts: the messages of clients, and the notifications. What jsonrpc-lite makes of
-- a message is an argument; a missing parameter is the empty text, which the checks refuse as well.
use stacks_blockchain_rosett.Base.{
  Bool, true, false, String, List, [], ◌∷◌, ◌++◌, map, Option, none, some, Result, same_text, units,
  if◌then◌else◌,
}
use stacks_blockchain_rosett.Wire.Reader.{Error}
use stacks_blockchain_rosett.Wire.Tx.{Text}
use stacks_blockchain_rosett.Datastore.Common.{DbTxTypeId, DbTxStatus}
use stacks_blockchain_rosett.Postgres.Tables.{Db}
use stacks_blockchain_rosett.Postgres.Queries.Balances.{get_stx_balance}
use stacks_blockchain_rosett.Api.Services.{decimal}
use stacks_blockchain_rosett.Api.Labels.{get_tx_type_string, get_tx_status_string}
use stacks_blockchain_rosett.Api.Terms.{normalize_hash_string, is_valid_principal}
use stacks_blockchain_rosett.Api.Rpc.Subscriptions.{
  Client, SubscriptionManager, subscribers, add_subscription, remove_subscription,
}

pub record SubscriptionParams : Type 0 where
  pub event : Text
  pub tx_id : Text
  pub address : Text

pub record RpcRequest : Type 0 where
  pub id : Text
  pub method : Text
  pub params : Option SubscriptionParams

pub data RpcErrorKind : Type 0 where
  method_not_found invalid_params invalid_request invalid_message thrown_error : RpcErrorKind

-- The id of an error is null where there is none.
pub data RpcResponse : Type 0 where
  rpc_error : (id : Option Text) (kind : RpcErrorKind) (message : String) → RpcResponse
  rpc_success : (id : Text) (field : String) (value : Text) → RpcResponse

pub record RpcState : Type 0 where
  pub tx_updates : SubscriptionManager
  pub address_tx_updates : SubscriptionManager
  pub address_balance_updates : SubscriptionManager

-- `if (subscribe) … else …`
unfoldable pub set_subscription : Bool → Client → Text → SubscriptionManager → SubscriptionManager
set_subscription subscribe client topic m =
    if subscribe then add_subscription client topic m else remove_subscription client topic m

-- The types of what `parse` returns, and the errors that it throws.
pub data ParsedObject : Type 0 where
  request_object : RpcRequest → ParsedObject
  notification_object invalid_object : ParsedObject
  error_object success_object : (id : Text) → ParsedObject

pub data ClientData : Type 0 where
  single : ParsedObject → ClientData
  batch : List ParsedObject → ClientData
  refused : (message : String) → ClientData

pub data Reply : Type 0 where
  no_reply : Reply
  one_reply : RpcResponse → Reply
  batch_reply : List RpcResponse → Reply

-- Refuse where a check found nothing.
unfoldable pub if_found :
    {A : Type 0}
    → Option A
    → RpcResponse × RpcState
    → (A → RpcResponse × RpcState)
    → RpcResponse × RpcState
if_found none refusal f = refusal
if_found (some a) refusal f = f a

unfoldable pub handle_tx_update_subscription :
    RpcState → Client → RpcRequest → SubscriptionParams → Bool → RpcResponse × RpcState
handle_tx_update_subscription s client req params subscribe =
    if_found (normalize_hash_string params.tx_id)
      (rpc_error (some req.id) invalid_params "invalid tx_id", s)
      (λ tx_id. (
        rpc_success req.id "tx_id" tx_id,
        record s { tx_updates = set_subscription subscribe client tx_id s.tx_updates },
      ))

module _ {Decoded : Type 0} (c32address_decode : Text → Result Error Decoded) where
  unfoldable pub handle_address_tx_update_subscription :
      RpcState → Client → RpcRequest → SubscriptionParams → Bool → RpcResponse × RpcState
  handle_address_tx_update_subscription s client req params subscribe =
      if_found (is_valid_principal c32address_decode params.address)
        (rpc_error (some req.id) invalid_params "invalid address", s)
        (λ kind. (
          rpc_success req.id "address" params.address,
          record s {
            address_tx_updates =
                set_subscription subscribe client params.address s.address_tx_updates;
          },
        ))

  unfoldable pub handle_address_balance_update_subscription :
      RpcState → Client → RpcRequest → SubscriptionParams → Bool → RpcResponse × RpcState
  handle_address_balance_update_subscription s client req params subscribe =
      if_found (is_valid_principal c32address_decode params.address)
        (rpc_error (some req.id) invalid_params "invalid address", s)
        (λ kind. (
          rpc_success req.id "address" params.address,
          record s {
            address_balance_updates =
                set_subscription subscribe client params.address s.address_balance_updates;
          },
        ))

  abbrev missing_event : RpcRequest → RpcResponse
  missing_event req =
      rpc_error (some req.id) invalid_params "subscription requests must include an event name"

  -- The `switch` on an event name that is not empty.
  unfoldable pub handle_named_event :
      RpcState → Client → RpcRequest → SubscriptionParams → Bool → RpcResponse × RpcState
  handle_named_event s client req params subscribe =
      if same_text params.event (units "tx_update")
      then handle_tx_update_subscription s client req params subscribe
      else if same_text params.event (units "address_tx_update")
      then handle_address_tx_update_subscription s client req params subscribe
      else if same_text params.event (units "address_balance_update")
      then handle_address_balance_update_subscription s client req params subscribe
      else (
        rpc_error (some req.id) invalid_params "subscription request must use a valid event name",
        s,
      )

  unfoldable pub handle_client_subscription :
      RpcState → Client → RpcRequest → Bool → RpcResponse × RpcState
  handle_client_subscription s client req subscribe =
      if_found req.params (missing_event req, s)
        (λ params.
          if same_text params.event []
          then (missing_event req, s)
          else handle_named_event s client req params subscribe)

  unfoldable pub handle_client_rpc_req : RpcState → Client → RpcRequest → RpcResponse × RpcState
  handle_client_rpc_req s client req =
      if same_text req.method (units "subscribe")
      then handle_client_subscription s client req true
      else if same_text req.method (units "unsubscribe")
      then handle_client_subscription s client req false
      else (rpc_error (some req.id) method_not_found "", s)

  -- The responses to the objects that are no notifications, in order.
  unfoldable pub handle_objects :
      RpcState → Client → List ParsedObject → List RpcResponse × RpcState
  handle_objects s client [] = ([], s)
  handle_objects s client (notification_object ∷ os) = handle_objects s client os
  handle_objects s client (request_object req ∷ os) =
      let r = handle_client_rpc_req s client req in
      let rest = handle_objects r.1 client os in (r.0 ∷ rest.0, rest.1)
  handle_objects s client (error_object id ∷ os) =
      let rest = handle_objects s client os in
      (rpc_error (some id) invalid_request "unexpected error msg from client" ∷ rest.0, rest.1)
  handle_objects s client (success_object id ∷ os) =
      let rest = handle_objects s client os in
      (rpc_error (some id) invalid_request "unexpected success msg from client" ∷ rest.0, rest.1)
  handle_objects s client (invalid_object ∷ os) =
      let rest = handle_objects s client os in (rpc_error none invalid_message "" ∷ rest.0, rest.1)

  abbrev reply_to_one : List RpcResponse → Reply
  reply_to_one [] = no_reply
  reply_to_one (r ∷ rs) = one_reply r

  unfoldable pub handle_client_message : RpcState → Client → ClientData → Reply × RpcState
  handle_client_message s client (single o) =
      let r = handle_objects s client (o ∷ []) in (reply_to_one r.0, r.1)
  handle_client_message s client (batch os) =
      let r = handle_objects s client os in (batch_reply r.0, r.1)
  handle_client_message s client (refused message) =
      (one_reply (rpc_error none thrown_error message), s)

pub data RpcNotification : Type 0 where
  tx_update : (tx_id tx_status tx_type : Text) → RpcNotification
  address_tx_update : (address tx_id tx_status tx_type : Text) → RpcNotification
  address_balance_update : (address balance : Text) → RpcNotification

-- `subscribers.forEach(client => client.send(payload))`
unfoldable pub send_all : RpcNotification → List Client → List (Client × RpcNotification)
send_all notification clients = map (λ client. (client, notification)) clients

-- What the store says of a transaction that changed.
pub record TxInfo : Type 0 where
  pub tx_id : Text
  pub status : DbTxStatus
  pub type_id : DbTxTypeId

unfoldable pub process_tx_update : RpcState → TxInfo → List (Client × RpcNotification)
process_tx_update s tx =
    send_all (tx_update tx.tx_id (get_tx_status_string tx.status) (get_tx_type_string tx.type_id))
      (subscribers tx.tx_id s.tx_updates)

unfoldable pub process_address_update :
    RpcState → Text → List TxInfo → List (Client × RpcNotification)
process_address_update s address [] = []
process_address_update s address (tx ∷ txs) =
    send_all
      (address_tx_update address tx.tx_id (get_tx_status_string tx.status)
        (get_tx_type_string tx.type_id))
      (subscribers address s.address_tx_updates)
    ++ process_address_update s address txs

-- The callback of the queue, run before any later message or `close` event is handled: the source
-- sends to the `Set` that the topic had when the callback was queued.
unfoldable pub process_address_balance_update :
    RpcState → Db → Text → List (Client × RpcNotification)
process_address_balance_update s db address =
    send_all (address_balance_update address (decimal (get_stx_balance db address).balance))
      (subscribers address s.address_balance_updates)
