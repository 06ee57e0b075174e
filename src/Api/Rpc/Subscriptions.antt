-- ===== src/Api/Rpc/Subscriptions.antt =====
-- src/api/routes/ws-rpc.ts: the class SubscriptionManager. A `Map` is the list of its entries and a
-- `Set` the list of its elements, in the order of insertion; a client is a number. The callbacks that
-- `client.on('close', …)` registers are part of the state.
use stacks_blockchain_rosett.Base.{
  ℕ, Bool, false, ◌||◌, List, [], ◌∷◌, ◌++◌, Option, none, some, ◌==◌, same_text, if◌then◌else◌,
}
use stacks_blockchain_rosett.Wire.Tx.{Text}

abbrev pub Client : Type 0
Client = ℕ

abbrev pub Topics : Type 0
Topics = List (Text × List Client)

pub record SubscriptionManager : Type 0 where
  pub subscriptions : Topics
  pub close_listeners : List (Client × Text)

-- `subscriptions.get(topicId)`
unfoldable pub get_clients : Text → Topics → Option (List Client)
get_clients t [] = none
get_clients t ((u, cs) ∷ ts) =
    let rest = get_clients t ts in if same_text u t then some cs else rest

unfoldable pub mem_client : Client → List Client → Bool
mem_client c [] = false
mem_client c (d ∷ ds) = let rest = mem_client c ds in d == c || rest

-- `clients.add(client)`
unfoldable pub add_client : Client → List Client → List Client
add_client c cs = if mem_client c cs then cs else cs ++ (c ∷ [])

-- `clients.delete(client)`
unfoldable pub delete_client : Client → List Client → List Client
delete_client c [] = []
delete_client c (d ∷ ds) = let rest = delete_client c ds in if d == c then rest else d ∷ rest

unfoldable pub add_to_topic : Client → Text → Topics → Topics
add_to_topic c t [] = (t, c ∷ []) ∷ []
add_to_topic c t ((u, cs) ∷ ts) =
    let rest = add_to_topic c t ts in
    if same_text u t then (u, add_client c cs) ∷ ts else (u, cs) ∷ rest

-- `if (clients.size === 0) this.subscriptions.delete(topicId)`
abbrev pub unless_deserted : Text → List Client → Topics → Topics
unless_deserted u [] ts = ts
unless_deserted u (c ∷ cs) ts = (u, c ∷ cs) ∷ ts

unfoldable pub remove_from_topic : Client → Text → Topics → Topics
remove_from_topic c t [] = []
remove_from_topic c t ((u, cs) ∷ ts) =
    let rest = remove_from_topic c t ts in
    if same_text u t then unless_deserted u (delete_client c cs) ts else (u, cs) ∷ rest

unfoldable pub add_subscription : Client → Text → SubscriptionManager → SubscriptionManager
add_subscription c t m = record {
  subscriptions = add_to_topic c t m.subscriptions;
  close_listeners = m.close_listeners ++ ((c, t) ∷ []);
}

unfoldable pub remove_subscription : Client → Text → SubscriptionManager → SubscriptionManager
remove_subscription c t m = record m { subscriptions = remove_from_topic c t m.subscriptions }

-- The `close` event of a client runs its callbacks, in the order in which they were registered.
unfoldable pub run_close_listeners : Client → List (Client × Text) → Topics → Topics
run_close_listeners c [] ts = ts
run_close_listeners c ((d, t) ∷ ls) ts =
    run_close_listeners c ls (if d == c then remove_from_topic d t ts else ts)

unfoldable pub close_client : Client → SubscriptionManager → SubscriptionManager
close_client c m = record m {
  subscriptions = run_close_listeners c m.close_listeners m.subscriptions;
}

-- `if (subscribers)`
abbrev pub clients_of : Option (List Client) → List Client
clients_of none = []
clients_of (some cs) = cs

-- `subscribers.forEach(client => …)`: the clients that a notification of a topic goes to.
unfoldable pub subscribers : Text → SubscriptionManager → List Client
subscribers t m = clients_of (get_clients t m.subscriptions)

-- What happens to a manager.
pub data SubscriptionEvent : Type 0 where
  subscribe unsubscribe : Client → Text → SubscriptionEvent
  closed : Client → SubscriptionEvent

unfoldable pub on_event : SubscriptionEvent → SubscriptionManager → SubscriptionManager
on_event (subscribe c t) m = add_subscription c t m
on_event (unsubscribe c t) m = remove_subscription c t m
on_event (closed c) m = close_client c m

unfoldable pub on_events : List SubscriptionEvent → SubscriptionManager → SubscriptionManager
on_events [] m = m
on_events (e ∷ es) m = on_events es (on_event e m)

abbrev pub no_subscriptions : SubscriptionManager
no_subscriptions = record { subscriptions = []; close_listeners = [] }
