-- ===== src/Events/Numbering.antt =====
-- The event indexes that `handleClientMessage` gives out.
use stacks_blockchain_rosett.Base.{
  ℕ, ◌+◌, ◌<◌, ◌≡◌, ◌↔◌, ◌⊎◌, subst, inl, inr, Bool, true, false, List, [], ◌∷◌, map, Option, ok,
  and_then, Ensures, Ensures-and_then, Ensures-and_then_any, In, In-map_snoc, length-append, ◌==◌,
  if◌then◌else◌, arith,
}
use stacks_blockchain_rosett.Wire.Reader.{Library}
use stacks_blockchain_rosett.Wire.Tx.{Text}
use stacks_blockchain_rosett.Wire.Reads.{All}
use stacks_blockchain_rosett.Datastore.Common.{
  DbAssetEventTypeId, DbSmartContractEvent, DbStxEvent, DbFtEvent, DbNftEvent, TxUpdate,
  DataStoreUpdateData,
}
use stacks_blockchain_rosett.Events.Message.{
  Services, CoreNodeEventType, contract_event, stx_transfer_event, stx_mint_event, stx_burn_event,
  ft_transfer_event, ft_mint_event, nft_transfer_event, nft_mint_event, CoreNodeEvent,
}
use stacks_blockchain_rosett.Events.Hex.{hex_to_buffer}
use stacks_blockchain_rosett.Events.Sender.{Msg, ParsedTx, parse_message_transactions}
use stacks_blockchain_rosett.Events.Record.{create_db_tx_from_core_msg}
use stacks_blockchain_rosett.Events.Server.{
  event_index, push_stx, push_ft, push_nft, push_log, push_event, add_event, add_events,
  create_entries, client_data,
}

-- Whether one of the events of an entry has the index `i`.
abbrev pub HasIndex : TxUpdate → ℕ → Type 0
HasIndex t i =
    In i (map (λ (e : DbStxEvent). e.event_index) t.stx_events)
    ⊎ (In i (map (λ (e : DbFtEvent). e.event_index) t.ft_events)
        ⊎ (In i (map (λ (e : DbNftEvent). e.event_index) t.nft_events)
            ⊎ In i (map (λ (e : DbSmartContractEvent). e.event_index) t.contract_log_events)))

-- The indexes are the numbers below the count of the events.
pub record IsNumbered (t : TxUpdate) : Type 0 where
  pub index_iff : (i : ℕ) → HasIndex t i ↔ (i < event_index t)

abbrev pub AllNumbered : List TxUpdate → Type 0
AllNumbered = All IsNumbered

grows_left : {A A' B E : Type 0} → A' ↔ (A ⊎ E) → (A' ⊎ B) ↔ ((A ⊎ B) ⊎ E)
grows_left r = (
  λ m. elim m [
    | inl a ↦ elim (r.0 a) [ inl o ↦ inl (inl o) | inr e ↦ inr e ]
    | inr b ↦ inl (inr b)
  ],
  λ m. elim m [ inl (inl a) ↦ inl (r.1 (inl a)) | inl (inr b) ↦ inr b | inr e ↦ inl (r.1 (inr e)) ],
)

grows_right : {A B B' E : Type 0} → B' ↔ (B ⊎ E) → (A ⊎ B') ↔ ((A ⊎ B) ⊎ E)
grows_right r = (
  λ m. elim m [
    | inl a ↦ inl (inl a)
    | inr b ↦ elim (r.0 b) [ inl o ↦ inl (inr o) | inr e ↦ inr e ]
  ],
  λ m. elim m [ inl (inl a) ↦ inl a | inl (inr b) ↦ inr (r.1 (inl b)) | inr e ↦ inr (r.1 (inr e)) ],
)

below_or_top : (n i : ℕ) → i < n + 1 → (i < n) ⊎ (i ≡ n)
below_or_top n i h = ground arith

-- An entry that has one index more, the count of the events before it.
next-IsNumbered :
    (t t' : TxUpdate)
    → IsNumbered t
    → event_index t' ≡ event_index t + 1
    → ((i : ℕ) → HasIndex t' i ↔ (HasIndex t i ⊎ (i ≡ event_index t)))
    → IsNumbered t'
next-IsNumbered t t' numbered count grown = record {
  index_iff = λ i. (
    λ h. elim ((grown i).0 h) [
      | inl o ↦ omega (arith, (numbered.index_iff i).0 o, count)
      | inr e ↦ omega (arith, e, count)
    ],
    λ h. elim (below_or_top (event_index t) i (omega (arith, h, count))) [
      | inl low ↦ (grown i).1 (inl ((numbered.index_iff i).1 low))
      | inr e ↦ (grown i).1 (inr e)
    ],
  );
}

module _ (services : Services) (height : ℕ) where
  push_stx-IsNumbered :
      (ty : DbAssetEventTypeId) (sender recipient : Option Text) (amount : Text) (t : TxUpdate)
      → IsNumbered t
      → Ensures IsNumbered (push_stx services height ty sender recipient amount t)
  unfolding push_stx event_index
  push_stx-IsNumbered ty sender recipient amount t h =
      Ensures-and_then_any IsNumbered (services.big_int amount) _ (λ n.
        next-IsNumbered t _ h (omega (arith, length-append t.stx_events (_ ∷ [])))
          (λ i. grows_left (In-map_snoc _ i t.stx_events _)))

  push_ft-IsNumbered :
      (ty : DbAssetEventTypeId) (sender recipient : Option Text) (asset amount : Text)
      (t : TxUpdate)
      → IsNumbered t
      → Ensures IsNumbered (push_ft services height ty sender recipient asset amount t)
  unfolding push_ft event_index
  push_ft-IsNumbered ty sender recipient asset amount t h =
      Ensures-and_then_any IsNumbered (services.big_int amount) _ (λ n.
        next-IsNumbered t _ h (omega (arith, length-append t.ft_events (_ ∷ [])))
          (λ i. grows_right (grows_left (In-map_snoc _ i t.ft_events _))))

  push_nft-IsNumbered :
      (ty : DbAssetEventTypeId) (sender recipient : Option Text) (asset raw_value : Text)
      (t : TxUpdate)
      → IsNumbered t
      → Ensures IsNumbered (push_nft services height ty sender recipient asset raw_value t)
  unfolding push_nft event_index
  push_nft-IsNumbered ty sender recipient asset raw_value t h =
      Ensures-and_then_any IsNumbered (hex_to_buffer raw_value) _ (λ v.
        next-IsNumbered t _ h (omega (arith, length-append t.nft_events (_ ∷ [])))
          (λ i. grows_right (grows_right (grows_left (In-map_snoc _ i t.nft_events _)))))

  push_log-IsNumbered :
      (identifier topic raw_value : Text) (t : TxUpdate)
      → IsNumbered t
      → Ensures IsNumbered (push_log services height identifier topic raw_value t)
  unfolding push_log event_index
  push_log-IsNumbered identifier topic raw_value t h =
      Ensures-and_then_any IsNumbered (hex_to_buffer raw_value) _ (λ v.
        next-IsNumbered t _ h (omega (arith, length-append t.contract_log_events (_ ∷ [])))
          (λ i. grows_right (grows_right (grows_right (In-map_snoc _ i t.contract_log_events _)))))

  push_event-IsNumbered :
      (e : CoreNodeEventType) (t : TxUpdate)
      → IsNumbered t
      → Ensures IsNumbered (push_event services height e t)
  unfolding push_event
  push_event-IsNumbered (contract_event i p v) t h = push_log-IsNumbered i p v t h
  push_event-IsNumbered (stx_transfer_event r s a) t h = push_stx-IsNumbered _ _ _ a t h
  push_event-IsNumbered (stx_mint_event r a) t h = push_stx-IsNumbered _ _ _ a t h
  push_event-IsNumbered (stx_burn_event s a) t h = push_stx-IsNumbered _ _ _ a t h
  push_event-IsNumbered (ft_transfer_event k r s a) t h = push_ft-IsNumbered _ _ _ k a t h
  push_event-IsNumbered (ft_mint_event k r a) t h = push_ft-IsNumbered _ _ _ k a t h
  push_event-IsNumbered (nft_transfer_event k r s v) t h = push_nft-IsNumbered _ _ _ k v t h
  push_event-IsNumbered (nft_mint_event k r v) t h = push_nft-IsNumbered _ _ _ k v t h

  add_event-IsNumbered :
      (e : CoreNodeEvent) (ts : List TxUpdate)
      → AllNumbered ts
      → Ensures AllNumbered (add_event services height e ts)
  unfolding add_event
  add_event-IsNumbered e [] h = tt
  add_event-IsNumbered e (t ∷ ts) h = branch (t.tx.tx_id == e.txid) (add_event-IsNumbered e ts h.1)
    where
      branch :
          (b : Bool)
          → Ensures AllNumbered (add_event services height e ts)
          → Ensures AllNumbered (
              if b
              then and_then (push_event services height e.event t) (λ t'. ok (t' ∷ ts))
              else and_then (add_event services height e ts) (λ ts'. ok (t ∷ ts')))
      branch true rest =
          Ensures-and_then IsNumbered AllNumbered (push_event services height e.event t) _
            (push_event-IsNumbered e.event t h.0) (λ t' n. (n, h.1))
      branch false rest =
          Ensures-and_then AllNumbered AllNumbered (add_event services height e ts) _ rest
            (λ ts' n. (h.0, n))

  add_events-IsNumbered :
      (es : List CoreNodeEvent) (ts : List TxUpdate)
      → AllNumbered ts
      → Ensures AllNumbered (add_events services height es ts)
  unfolding add_events
  add_events-IsNumbered [] ts h = h
  add_events-IsNumbered (e ∷ es) ts h =
      Ensures-and_then AllNumbered AllNumbered (add_event services height e ts) _
        (add_event-IsNumbered e ts h) (λ ts' n. add_events-IsNumbered es ts' n)

module _ (services : Services) (lib : Library) where
  create_entries-IsNumbered :
      (msg : Msg services lib) (txs : List (ParsedTx services lib))
      → Ensures AllNumbered (create_entries services lib msg txs)
  unfolding create_entries event_index
  create_entries-IsNumbered msg [] = tt
  create_entries-IsNumbered msg (tx ∷ txs) =
      Ensures-and_then_any AllNumbered (create_db_tx_from_core_msg services tx) _ (λ db_tx.
        Ensures-and_then AllNumbered AllNumbered (create_entries services lib msg txs) _
          (create_entries-IsNumbered msg txs)
          (λ entries n. (record { index_iff = λ i. (λ h. no_index h, λ h. omega (arith, h)) }, n)))
    where
      no_index : {A : Type 0} → ⊥ ⊎ (⊥ ⊎ (⊥ ⊎ ⊥)) → A
      no_index (inl m) = absurd m
      no_index (inr (inl m)) = absurd m
      no_index (inr (inr (inl m))) = absurd m
      no_index (inr (inr (inr m))) = absurd m

  -- Where a message becomes an update, the events of each transaction in it are numbered: an event of
  -- the transaction has the index `i` exactly when `i` is below the count of its events of the four
  -- kinds together.
  pub client_data-IsNumbered :
      (msg : Msg services lib) (d : DataStoreUpdateData)
      → client_data services lib msg ≡ ok d
      → AllNumbered d.txs
  unfolding client_data
  client_data-IsNumbered msg d h =
      subst (Ensures (λ (u : DataStoreUpdateData). AllNumbered u.txs)) h (
        Ensures-and_then_any (λ (u : DataStoreUpdateData). AllNumbered u.txs)
          (parse_message_transactions services lib msg) _
          (λ parsed.
            Ensures-and_then AllNumbered (λ (u : DataStoreUpdateData). AllNumbered u.txs)
              (create_entries services lib msg parsed) _ (create_entries-IsNumbered msg parsed)
              (λ entries n.
                Ensures-and_then AllNumbered (λ (u : DataStoreUpdateData). AllNumbered u.txs)
                  (add_events services msg.block_height msg.events entries) _
                  (add_events-IsNumbered services msg.block_height msg.events entries n)
                  (λ txs k. k))))
