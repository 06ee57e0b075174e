-- ===== src/Api/Rpc/Tests.antt =====
-- Concrete messages of websocket clients: the theorems at them, and runs.
use stacks_blockchain_rosett.Base.{
  ℕ, ◌≡◌, refl, false, List, [], ◌∷◌, map, some, Result, ok, units, same_text, length,
}
use stacks_blockchain_rosett.Wire.Reader.{Error}
use stacks_blockchain_rosett.Wire.Tx.{Text}
use stacks_blockchain_rosett.Api.Rpc.Subscriptions.{
  Client, SubscriptionEvent, subscribe, unsubscribe, closed, on_events, on_event, no_subscriptions,
  subscribers, mem_client, get_clients, add_subscription, remove_subscription, close_client,
  run_close_listeners, add_to_topic, remove_from_topic, add_client, delete_client,
}
use stacks_blockchain_rosett.Api.Rpc.Topics.{IsTopics}
use stacks_blockchain_rosett.Api.Rpc.Runs.{after_events, on_events-after_events}
use stacks_blockchain_rosett.Api.Rpc.Handlers.{
  RpcState, RpcRequest, ParsedObject, request_object, notification_object, invalid_object,
  error_object, handle_objects,
}
use stacks_blockchain_rosett.Api.Rpc.Answers.{
  response_id, expected_ids, handle_objects-expected_ids,
}

abbrev topic : Text
topic = units "0x05"

-- Client 1 subscribes, cancels and subscribes again; client 2 subscribes and closes.
abbrev happenings : List SubscriptionEvent
happenings =
    subscribe 1 topic ∷ subscribe 2 topic ∷ unsubscribe 1 topic ∷ subscribe 1 topic ∷ closed 2 ∷ []

on_events-after_events_example :
    IsTopics (on_events happenings no_subscriptions).subscriptions
    × ((d : Client) (u : Text)
        → mem_client d (subscribers u (on_events happenings no_subscriptions))
          ≡ after_events happenings (λ c t. false) d u)
on_events-after_events_example = on_events-after_events happenings

subscribed_then : subscribers topic (on_events happenings no_subscriptions) ≡ 1 ∷ []
unfolding on_events on_event subscribers get_clients mem_client add_subscription remove_subscription
    close_client run_close_listeners add_to_topic remove_from_topic add_client delete_client
    same_text
subscribed_then = refl

abbrev idle : RpcState
idle = record {
  tx_updates = no_subscriptions;
  address_tx_updates = no_subscriptions;
  address_balance_updates = no_subscriptions;
}

abbrev request : RpcRequest
request = record {
  id = units "a";
  method = units "subscribe";
  params = some (record { event = units "address_tx_update"; tx_id = []; address = units "ST1" });
}

abbrev objects : List ParsedObject
objects =
    notification_object ∷ request_object request ∷ invalid_object ∷ error_object (units "b") ∷ []

abbrev decode : Text → Result Error ℕ
decode text = ok (length text)

handle_objects-expected_ids_example :
    map response_id (handle_objects decode idle 1 objects).0 ≡ expected_ids objects
handle_objects-expected_ids_example = handle_objects-expected_ids decode idle 1 objects
