-- ===== src/Api/Rpc/Answers.antt =====
-- Whom the messages of clients are answered with, and what a subscription to a transaction changes.
use stacks_blockchain_rosett.Base.{
  ◌≡◌, refl, ap, ap₂, String, Bool, true, false, List, [], ◌∷◌, map, Option, none, some, Result,
  same_text, units, Bool-cases, inl, inr,
}
use stacks_blockchain_rosett.Wire.Reader.{Error}
use stacks_blockchain_rosett.Wire.Tx.{Text}
use stacks_blockchain_rosett.Api.Rpc.Subscriptions.{Client}
use stacks_blockchain_rosett.Api.Rpc.Handlers.{
  SubscriptionParams, RpcErrorKind, RpcRequest, RpcResponse, rpc_error, rpc_success, RpcState,
  handle_tx_update_subscription, handle_address_tx_update_subscription,
  handle_address_balance_update_subscription, handle_named_event, handle_client_subscription,
  handle_client_rpc_req, ParsedObject, request_object, notification_object, invalid_object,
  error_object, success_object, handle_objects, if_found,
}

abbrev pub response_id : RpcResponse → Option Text
response_id (rpc_error id kind message) = id
response_id (rpc_success id field value) = some id

-- The ids that the objects of a message are to be answered with.
unfoldable pub expected_ids : List ParsedObject → List (Option Text)
expected_ids [] = []
expected_ids (request_object req ∷ os) = some req.id ∷ expected_ids os
expected_ids (notification_object ∷ os) = expected_ids os
expected_ids (invalid_object ∷ os) = none ∷ expected_ids os
expected_ids (error_object id ∷ os) = some id ∷ expected_ids os
expected_ids (success_object id ∷ os) = some id ∷ expected_ids os

-- An answer with the id of the request.
data IsAnswer (req : RpcRequest) : RpcResponse × RpcState → Type 0 where
  refusal :
      (kind : RpcErrorKind) (message : String) (s : RpcState)
      → IsAnswer req (rpc_error (some req.id) kind message, s)
  success :
      (field : String) (value : Text) (s : RpcState)
      → IsAnswer req (rpc_success req.id field value, s)

same_id :
    (req : RpcRequest) (r : RpcResponse × RpcState) → IsAnswer req r → response_id r.0 ≡ some req.id
same_id req r (refusal kind message s) = refl
same_id req r (success field value s) = refl

if_found-IsAnswer :
    {A : Type 0} (req : RpcRequest) (found : Option A) (otherwise : RpcResponse × RpcState)
    (f : A → RpcResponse × RpcState)
    → IsAnswer req otherwise
    → ((a : A) → IsAnswer req (f a))
    → IsAnswer req (if_found found otherwise f)
unfolding if_found
if_found-IsAnswer req none otherwise f h k = h
if_found-IsAnswer req (some a) otherwise f h k = k a

module _ {Decoded : Type 0} (decode : Text → Result Error Decoded) where
  tx_update-IsAnswer :
      (s : RpcState) (c : Client) (req : RpcRequest) (p : SubscriptionParams) (b : Bool)
      → IsAnswer req (handle_tx_update_subscription s c req p b)
  unfolding handle_tx_update_subscription
  tx_update-IsAnswer s c req p b = if_found-IsAnswer req _ _ _ (refusal _ _ _) (λ a. success _ _ _)

  address_tx_update-IsAnswer :
      (s : RpcState) (c : Client) (req : RpcRequest) (p : SubscriptionParams) (b : Bool)
      → IsAnswer req (handle_address_tx_update_subscription decode s c req p b)
  unfolding handle_address_tx_update_subscription
  address_tx_update-IsAnswer s c req p b =
      if_found-IsAnswer req _ _ _ (refusal _ _ _) (λ a. success _ _ _)

  address_balance_update-IsAnswer :
      (s : RpcState) (c : Client) (req : RpcRequest) (p : SubscriptionParams) (b : Bool)
      → IsAnswer req (handle_address_balance_update_subscription decode s c req p b)
  unfolding handle_address_balance_update_subscription
  address_balance_update-IsAnswer s c req p b =
      if_found-IsAnswer req _ _ _ (refusal _ _ _) (λ a. success _ _ _)

  handle_named_event-IsAnswer :
      (s : RpcState) (c : Client) (req : RpcRequest) (p : SubscriptionParams) (b : Bool)
      → IsAnswer req (handle_named_event decode s c req p b)
  unfolding handle_named_event
  handle_named_event-IsAnswer s c req p b =
      elim (Bool-cases (same_text p.event (units "tx_update"))) [
        | inl t ↦ rw t (tx_update-IsAnswer s c req p b)
        | inr f ↦ rw f (elim (Bool-cases (same_text p.event (units "address_tx_update"))) [
          | inl t ↦ rw t (address_tx_update-IsAnswer s c req p b)
          | inr g ↦ rw g (elim (Bool-cases (same_text p.event (units "address_balance_update"))) [
            | inl t ↦ rw t (address_balance_update-IsAnswer s c req p b)
            | inr h ↦ rw h (refusal _ _ _)
          ])
        ])
      ]

  handle_client_subscription-IsAnswer :
      (s : RpcState) (c : Client) (req : RpcRequest) (b : Bool)
      → IsAnswer req (handle_client_subscription decode s c req b)
  unfolding handle_client_subscription
  handle_client_subscription-IsAnswer s c req b = if_found-IsAnswer req _ _ _ (refusal _ _ _) (λ p.
      elim (Bool-cases (same_text p.event [])) [
        | inl t ↦ rw t (refusal _ _ _)
        | inr f ↦ rw f (handle_named_event-IsAnswer s c req p b)
      ])

  handle_client_rpc_req-IsAnswer :
      (s : RpcState) (c : Client) (req : RpcRequest)
      → IsAnswer req (handle_client_rpc_req decode s c req)
  unfolding handle_client_rpc_req
  handle_client_rpc_req-IsAnswer s c req =
      elim (Bool-cases (same_text req.method (units "subscribe"))) [
        | inl t ↦ rw t (handle_client_subscription-IsAnswer s c req true)
        | inr f ↦ rw f (elim (Bool-cases (same_text req.method (units "unsubscribe"))) [
          | inl t ↦ rw t (handle_client_subscription-IsAnswer s c req false)
          | inr g ↦ rw g (refusal _ _ _)
        ])
      ]

  -- Each object of a message that is no notification is answered once, in the order of the message, with
  -- its own id where it has one and with null where it is invalid; notifications are not answered.
  pub handle_objects-expected_ids :
      (s : RpcState) (client : Client) (os : List ParsedObject)
      → map response_id (handle_objects decode s client os).0 ≡ expected_ids os
  unfolding handle_objects expected_ids
  handle_objects-expected_ids s c [] = refl
  handle_objects-expected_ids s c (notification_object ∷ os) = handle_objects-expected_ids s c os
  handle_objects-expected_ids s c (request_object req ∷ os) =
      let r = handle_client_rpc_req decode s c req in
      ap₂ ◌∷◌ (same_id req r (handle_client_rpc_req-IsAnswer s c req))
        (handle_objects-expected_ids r.1 c os)
  handle_objects-expected_ids s c (error_object id ∷ os) =
      ap (◌∷◌ (some id)) (handle_objects-expected_ids s c os)
  handle_objects-expected_ids s c (success_object id ∷ os) =
      ap (◌∷◌ (some id)) (handle_objects-expected_ids s c os)
  handle_objects-expected_ids s c (invalid_object ∷ os) =
      ap (◌∷◌ none) (handle_objects-expected_ids s c os)
