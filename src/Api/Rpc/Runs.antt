-- ===== src/Api/Rpc/Runs.antt =====
-- Who gets the notifications of a topic after any sequence of subscriptions, cancellations and closed
-- connections.
use stacks_blockchain_rosett.Base.{
  ◌≡◌, inl, inr, refl, sym, ap, ◌∙◌, Bool, true, false, not, ◌&&◌, ◌||◌, List, [], ◌∷◌, ◌++◌, ◌==◌,
  ==_iff, same_text, Bool-cases, arith,
}
use stacks_blockchain_rosett.Wire.Tx.{Text}
use stacks_blockchain_rosett.Api.Rpc.Subscriptions.{
  Client, Topics, SubscriptionManager, get_clients, mem_client, remove_from_topic, add_subscription,
  remove_subscription, run_close_listeners, close_client, subscribers, SubscriptionEvent, subscribe,
  unsubscribe, closed, on_event, on_events, no_subscriptions,
}
use stacks_blockchain_rosett.Api.Rpc.Topics.{
  IsTopics, has, has-add_to_topic, has-remove_from_topic, IsTopics-add_to_topic,
  IsTopics-remove_from_topic,
}

-- Whether a client has registered a callback for a topic.
unfoldable pub listens : Client → Text → List (Client × Text) → Bool
listens d u [] = false
listens d u ((c, t) ∷ ls) = let rest = listens d u ls in (same_text t u && c == d) || rest

-- Each topic stands once with at least one client, and each client in it has a callback for it.
pub record IsManager (m : SubscriptionManager) : Type 0 where
  pub topics : IsTopics m.subscriptions
  pub listening :
      (d : Client) (u : Text)
      → has d u m.subscriptions ≡ true
      → listens d u m.close_listeners ≡ true

-- The view from outside: who is subscribed to what.
abbrev pub Subscribed : Type 0
Subscribed = Client → Text → Bool

unfoldable pub after_event : SubscriptionEvent → Subscribed → Subscribed
after_event (subscribe c t) f d u = (same_text t u && c == d) || f d u
after_event (unsubscribe c t) f d u = not (same_text t u && c == d) && f d u
after_event (closed c) f d u = not (c == d) && f d u

unfoldable pub after_events : List SubscriptionEvent → Subscribed → Subscribed
after_events [] f = f
after_events (e ∷ es) f = after_events es (after_event e f)

or_swap : (a b r : Bool) → (a || (b || r)) ≡ (b || (a || r))
or_swap true true r = refl
or_swap true false r = refl
or_swap false b r = refl

-- `p`: it is the client; `s`: it is the topic; `l`: another callback is for both.
closed_once :
    (p s l f : Bool) → (not (p && l) && (not (s && p) && f)) ≡ (not (p && ((s && p) || l)) && f)
closed_once false true l f = refl
closed_once false false l f = refl
closed_once true true true f = refl
closed_once true true false f = refl
closed_once true false true f = refl
closed_once true false false f = refl

other_client : (c d e : Client) → (e == c) ≡ false → (c == d) ≡ true → (e == d) ≡ false
other_client c d e h k = ground arith

listens_snoc :
    (d c : Client) (u t : Text) (ls : List (Client × Text))
    → listens d u (ls ++ ((c, t) ∷ [])) ≡ ((same_text t u && c == d) || listens d u ls)
unfolding listens
listens_snoc d c u t [] = refl
listens_snoc d c u t ((e, v) ∷ ls) =
    rw (listens_snoc d c u t ls)
      (or_swap (same_text v u && e == d) (same_text t u && c == d) (listens d u ls))

IsTopics-run_close_listeners :
    (c : Client) (ls : List (Client × Text)) (ts : Topics)
    → IsTopics ts
    → IsTopics (run_close_listeners c ls ts)
unfolding run_close_listeners
IsTopics-run_close_listeners c [] ts h = h
IsTopics-run_close_listeners c ((e, t) ∷ ls) ts h = elim (Bool-cases (e == c)) [
  | inl y ↦ rw y (
      IsTopics-run_close_listeners c ls (remove_from_topic e t ts)
        (IsTopics-remove_from_topic e t ts h))
  | inr n ↦ rw n (IsTopics-run_close_listeners c ls ts h)
]

-- Closing a client takes it from the topics for which it has a callback, and no other client.
has-run_close_listeners :
    (c d : Client) (u : Text) (ls : List (Client × Text)) (ts : Topics)
    → IsTopics ts
    → has d u (run_close_listeners c ls ts) ≡ (not (c == d && listens d u ls) && has d u ts)
unfolding run_close_listeners listens
has-run_close_listeners c d u [] ts h = elim (Bool-cases (c == d)) [
  | inl y ↦ rw y refl
  | inr n ↦ rw n refl
]
has-run_close_listeners c d u ((e, t) ∷ ls) ts h = elim (Bool-cases (e == c)) [
  | inl y ↦
      let rest =
        has-run_close_listeners c d u ls (remove_from_topic e t ts)
          (IsTopics-remove_from_topic e t ts h) in
      let one = has-remove_from_topic e d t u ts h in
      let same : e ≡ c = (==_iff e c).0 y in
      rw (y, rest, one, same) (closed_once (c == d) (same_text t u) (listens d u ls) (has d u ts))
  | inr n ↦
      let rest = has-run_close_listeners c d u ls ts h in
      rw (n, rest)
        (elim (Bool-cases (c == d)) [
          | inl q ↦
              let o = other_client c d e n q in
              rw (q, o)
                (elim (Bool-cases (same_text t u)) [ inl s ↦ rw s refl | inr s ↦ rw s refl ])
          | inr q ↦ rw q refl
        ])
]

and_right : (a b : Bool) → (a && b) ≡ true → b ≡ true
and_right true b h = h
and_right false b h = absurd (cc)

listener_counts : (c l s : Bool) → (s ≡ true → l ≡ true) → (not (c && l) && s) ≡ (not c && s)
listener_counts false l s h = refl
listener_counts true true s h = refl
listener_counts true false true h = absurd (let e = h refl in cc)
listener_counts true false false h = refl

IsManager-on_event :
    (e : SubscriptionEvent) (m : SubscriptionManager) → IsManager m → IsManager (on_event e m)
unfolding on_event add_subscription remove_subscription close_client
IsManager-on_event (subscribe c t) m h = record {
  topics = IsTopics-add_to_topic c t m.subscriptions h.topics;
  listening = λ d u k.
      let law = has-add_to_topic c d t u m.subscriptions in
      rw (listens_snoc d c u t m.close_listeners) (elim (Bool-cases (same_text t u && c == d)) [
        | inl y ↦ rw y refl
        | inr n ↦ rw n (h.listening d u (cc))
      ]);
}
IsManager-on_event (unsubscribe c t) m h = record {
  topics = IsTopics-remove_from_topic c t m.subscriptions h.topics;
  listening = λ d u k.
      let law = has-remove_from_topic c d t u m.subscriptions h.topics in
      h.listening d u (and_right (not (same_text t u && c == d)) _ (sym law ∙ k));
}
IsManager-on_event (closed c) m h = record {
  topics = IsTopics-run_close_listeners c m.close_listeners m.subscriptions h.topics;
  listening = λ d u k.
      let law = has-run_close_listeners c d u m.close_listeners m.subscriptions h.topics in
      h.listening d u (and_right (not (c == d && listens d u m.close_listeners)) _ (sym law ∙ k));
}

-- One event changes who is subscribed as the view from outside says.
on_event-after_event :
    (e : SubscriptionEvent) (m : SubscriptionManager) (f : Subscribed)
    → IsManager m
    → ((d : Client) (u : Text) → has d u m.subscriptions ≡ f d u)
    → (d : Client) (u : Text) → has d u (on_event e m).subscriptions ≡ after_event e f d u
unfolding on_event add_subscription remove_subscription close_client after_event
on_event-after_event (subscribe c t) m f h same d u =
    has-add_to_topic c d t u m.subscriptions ∙ ap (λ b. (same_text t u && c == d) || b) (same d u)
on_event-after_event (unsubscribe c t) m f h same d u =
    has-remove_from_topic c d t u m.subscriptions h.topics
    ∙ ap (λ b. not (same_text t u && c == d) && b) (same d u)
on_event-after_event (closed c) m f h same d u =
    has-run_close_listeners c d u m.close_listeners m.subscriptions h.topics
    ∙ (listener_counts (c == d) (listens d u m.close_listeners) (has d u m.subscriptions)
          (h.listening d u)
        ∙ ap (λ b. not (c == d) && b) (same d u))

runs :
    (es : List SubscriptionEvent) (m : SubscriptionManager) (f : Subscribed)
    → IsManager m
    → ((d : Client) (u : Text) → has d u m.subscriptions ≡ f d u)
    → IsManager (on_events es m)
      × ((d : Client) (u : Text) → has d u (on_events es m).subscriptions ≡ after_events es f d u)
unfolding on_events after_events
runs [] m f h same = (h, same)
runs (e ∷ es) m f h same =
    runs es (on_event e m) (after_event e f) (IsManager-on_event e m h)
      (on_event-after_event e m f h same)

-- After any events from a manager without subscriptions, each topic has one entry with at least one
-- client, and a notification of a topic goes to a client exactly if the view from outside has the
-- client subscribed to it: subscribed since it last cancelled or its connection closed.
pub on_events-after_events :
    (es : List SubscriptionEvent)
    → IsTopics (on_events es no_subscriptions).subscriptions
      × ((d : Client) (u : Text)
          → mem_client d (subscribers u (on_events es no_subscriptions))
            ≡ after_events es (λ c t. false) d u)
unfolding subscribers get_clients mem_client
on_events-after_events es =
    let r = runs es no_subscriptions (λ c t. false) start (λ d u. refl) in (r.0.topics, r.1)
  where
    start : IsManager no_subscriptions
    start = record { topics = tt; listening = λ d u h. absurd (cc) }
