-- ===== src/Api/Rpc/Topics.antt =====
-- What adding a client to a topic and removing it does to the entries of a SubscriptionManager.
use stacks_blockchain_rosett.Base.{
  ◌≡◌, ◌≢◌, inl, inr, refl, sym, ap, ◌∙◌, subst, Bool, true, false, not, ◌&&◌, ◌||◌, List, [], ◌∷◌,
  ◌++◌, none, ◌==◌, ==_iff, same_text, same_text-eq, Bool-cases, arith,
}
use stacks_blockchain_rosett.Wire.Tx.{Text}
use stacks_blockchain_rosett.Api.Rpc.Subscriptions.{
  Client, Topics, get_clients, clients_of, mem_client, add_client, delete_client, add_to_topic,
  unless_deserted, remove_from_topic,
}

-- Each topic stands once, with at least one client.
abbrev pub IsTopics : Topics → Type 0
IsTopics [] = Unit
IsTopics ((u, cs) ∷ ts) = (get_clients u ts ≡ none) × (cs ≢ []) × IsTopics ts

abbrev pub has : Client → Text → Topics → Bool
has d u ts = mem_client d (clients_of (get_clients u ts))

mem_client_snoc :
    (c d : Client) (cs : List Client) → mem_client d (cs ++ (c ∷ [])) ≡ (c == d || mem_client d cs)
unfolding mem_client
mem_client_snoc c d [] = refl
mem_client_snoc c d (e ∷ es) = ground (arith, mem_client_snoc c d es)

mem_client-add_client :
    (c d : Client) (cs : List Client) → mem_client d (add_client c cs) ≡ (c == d || mem_client d cs)
unfolding add_client
mem_client-add_client c d cs = elim (Bool-cases (mem_client c cs)) [
  | inr f ↦ rw f (mem_client_snoc c d cs)
  | inl t ↦ rw t (elim (Bool-cases (c == d)) [
    | inl e ↦ rw e (subst (λ x. mem_client x cs ≡ true) ((==_iff c d).0 e) t)
    | inr n ↦ rw n refl
  ])
]

mem_client-delete_client :
    (c d : Client) (cs : List Client)
    → mem_client d (delete_client c cs) ≡ (not (c == d) && mem_client d cs)
unfolding mem_client delete_client
mem_client-delete_client c d [] = ground arith
mem_client-delete_client c d (e ∷ es) = ground (arith, mem_client-delete_client c d es)

add_client-nonempty : (c : Client) (cs : List Client) → add_client c cs ≢ []
unfolding add_client mem_client
add_client-nonempty c [] h = absurd (cc)
add_client-nonempty c (d ∷ ds) h = elim (Bool-cases (mem_client c (d ∷ ds))) [
  | inl t ↦ absurd (cc)
  | inr f ↦ absurd (cc)
]

pub same_text_other : (s t u : Text) → same_text s t ≡ true → same_text s u ≡ same_text t u
same_text_other s t u h = ap (λ x. same_text x u) (same_text-eq s t h)

pub same_text_sym : (s t : Text) → same_text s t ≡ same_text t s
unfolding same_text
same_text_sym [] [] = refl
same_text_sym [] (b ∷ t) = refl
same_text_sym (a ∷ s) [] = refl
same_text_sym (a ∷ s) (b ∷ t) = ground (arith, same_text_sym s t)

-- What an operation on one topic does to the entries of the others.
get_clients-add_to_topic :
    (c : Client) (t u : Text) (ts : Topics)
    → same_text t u ≡ false
    → get_clients u (add_to_topic c t ts) ≡ get_clients u ts
unfolding add_to_topic get_clients
get_clients-add_to_topic c t u [] h = rw h refl
get_clients-add_to_topic c t u ((v, cs) ∷ ts) h = elim (Bool-cases (same_text v t)) [
  | inl e ↦ let o : same_text v u ≡ false = same_text_other v t u e ∙ h in rw (e, o) refl
  | inr n ↦ rw n (elim (Bool-cases (same_text v u)) [
    | inl o ↦ rw o refl
    | inr o ↦ rw o (get_clients-add_to_topic c t u ts h)
  ])
]

get_clients-unless_deserted :
    (v u : Text) (cs : List Client) (ts : Topics)
    → same_text v u ≡ false
    → get_clients u (unless_deserted v cs ts) ≡ get_clients u ts
unfolding get_clients
get_clients-unless_deserted v u [] ts h = refl
get_clients-unless_deserted v u (c ∷ cs) ts h = rw h refl

get_clients-remove_from_topic :
    (c : Client) (t u : Text) (ts : Topics)
    → same_text t u ≡ false
    → get_clients u (remove_from_topic c t ts) ≡ get_clients u ts
unfolding remove_from_topic get_clients
get_clients-remove_from_topic c t u [] h = refl
get_clients-remove_from_topic c t u ((v, cs) ∷ ts) h = elim (Bool-cases (same_text v t)) [
  | inl e ↦
      let o : same_text v u ≡ false = same_text_other v t u e ∙ h in
      rw (e, o) (get_clients-unless_deserted v u (delete_client c cs) ts o)
  | inr n ↦ rw n (elim (Bool-cases (same_text v u)) [
    | inl o ↦ rw o refl
    | inr o ↦ rw o (get_clients-remove_from_topic c t u ts h)
  ])
]

pub IsTopics-add_to_topic :
    (c : Client) (t : Text) (ts : Topics) → IsTopics ts → IsTopics (add_to_topic c t ts)
unfolding add_to_topic get_clients
IsTopics-add_to_topic c t [] h = (refl, λ e. absurd (cc), tt)
IsTopics-add_to_topic c t ((v, cs) ∷ ts) h = elim (Bool-cases (same_text v t)) [
  | inl e ↦ rw e (h.0, add_client-nonempty c cs, h.2)
  | inr n ↦ rw n (
    get_clients-add_to_topic c t v ts (same_text_sym t v ∙ n) ∙ h.0,
    h.1,
    IsTopics-add_to_topic c t ts h.2,
  )
]

IsTopics-unless_deserted :
    (v : Text) (cs : List Client) (ts : Topics)
    → get_clients v ts ≡ none
    → IsTopics ts
    → IsTopics (unless_deserted v cs ts)
IsTopics-unless_deserted v [] ts new h = h
IsTopics-unless_deserted v (c ∷ cs) ts new h = (new, λ e. absurd (cc), h)

pub IsTopics-remove_from_topic :
    (c : Client) (t : Text) (ts : Topics) → IsTopics ts → IsTopics (remove_from_topic c t ts)
unfolding remove_from_topic
IsTopics-remove_from_topic c t [] h = tt
IsTopics-remove_from_topic c t ((v, cs) ∷ ts) h = elim (Bool-cases (same_text v t)) [
  | inl e ↦ rw e (IsTopics-unless_deserted v (delete_client c cs) ts h.0 h.2)
  | inr n ↦ rw n (
    get_clients-remove_from_topic c t v ts (same_text_sym t v ∙ n) ∙ h.0,
    h.1,
    IsTopics-remove_from_topic c t ts h.2,
  )
]

pub has-add_to_topic :
    (c d : Client) (t u : Text) (ts : Topics)
    → has d u (add_to_topic c t ts) ≡ ((same_text t u && c == d) || has d u ts)
unfolding add_to_topic get_clients mem_client
has-add_to_topic c d t u [] = elim (Bool-cases (same_text t u)) [
  | inl e ↦ rw e refl
  | inr n ↦ rw n refl
]
has-add_to_topic c d t u ((v, cs) ∷ ts) = elim (Bool-cases (same_text v t)) [
  | inl e ↦
      let o : same_text t u ≡ same_text v u = sym (same_text_other v t u e) in
      rw (e, o)
        (elim (Bool-cases (same_text v u)) [
          | inl s ↦ rw s (mem_client-add_client c d cs)
          | inr s ↦ rw s refl
        ])
  | inr n ↦ rw n (elim (Bool-cases (same_text v u)) [
    | inl s ↦
        let o : same_text t u ≡ false =
          ap (same_text t) (sym (same_text-eq v u s)) ∙ (same_text_sym t v ∙ n) in
        rw (s, o) refl
    | inr s ↦ rw s (has-add_to_topic c d t u ts)
  ])
]

has-unless_deserted :
    (d : Client) (v u : Text) (cs : List Client) (ts : Topics)
    → same_text v u ≡ true
    → get_clients u ts ≡ none
    → has d u (unless_deserted v cs ts) ≡ mem_client d cs
unfolding get_clients
has-unless_deserted d v u [] ts h new = rw new refl
has-unless_deserted d v u (c ∷ cs) ts h new = rw h refl

and_false : (b : Bool) → false ≡ (b && false)
and_false true = refl
and_false false = refl

pub has-remove_from_topic :
    (c d : Client) (t u : Text) (ts : Topics)
    → IsTopics ts
    → has d u (remove_from_topic c t ts) ≡ (not (same_text t u && c == d) && has d u ts)
unfolding remove_from_topic get_clients mem_client
has-remove_from_topic c d t u [] h = and_false (not (same_text t u && c == d))
has-remove_from_topic c d t u ((v, cs) ∷ ts) h = elim (Bool-cases (same_text v t)) [
  | inl e ↦
      let o : same_text t u ≡ same_text v u = sym (same_text_other v t u e) in
      rw (e, o)
        (elim (Bool-cases (same_text v u)) [
          | inl s ↦
              let new : get_clients u ts ≡ none =
                ap (λ x. get_clients x ts) (sym (same_text-eq v u s)) ∙ h.0 in
              rw s (
                has-unless_deserted d v u (delete_client c cs) ts s new
                ∙ mem_client-delete_client c d cs)
          | inr s ↦ rw s (
              ap (λ found. mem_client d (clients_of found))
                (get_clients-unless_deserted v u (delete_client c cs) ts s))
        ])
  | inr n ↦ rw n (elim (Bool-cases (same_text v u)) [
    | inl s ↦
        let o : same_text t u ≡ false =
          ap (same_text t) (sym (same_text-eq v u s)) ∙ (same_text_sym t v ∙ n) in
        rw (s, o) refl
    | inr s ↦ rw s (has-remove_from_topic c d t u ts h.2)
  ])
]
