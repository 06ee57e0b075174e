-- ===== src/Postgres/Queries/Supply.antt =====
-- What was minted, burned and paid as fees, and the share of each address in it.
use stacks_blockchain_rosett.Base.{
  ℕ, ◌+◌, ◌≡◌, refl, ◌∙◌, Bool, true, false, not, ◌&&◌, ◌||◌, List, [], ◌∷◌, In, Option, none, some,
  same_text, if◌then◌else◌, arith,
}
use stacks_blockchain_rosett.Wire.Signed.{ℤ, pos, pos_part, neg_part}
use stacks_blockchain_rosett.Wire.Tx.{Text}
use stacks_blockchain_rosett.Datastore.Common.{DbTx, DbStxEvent}
use stacks_blockchain_rosett.Postgres.Tables.{select, Db}
use stacks_blockchain_rosett.Postgres.Queries.Lists.{bit, entries, column_is}
use stacks_blockchain_rosett.Postgres.Queries.Events.{touches}
use stacks_blockchain_rosett.Postgres.Queries.Balances.{sum_of, stx_received, stx_sent, fees_paid}
use stacks_blockchain_rosett.Postgres.Queries.Sums.{
  select-select, sum_ℕ, count, sum_of_parts, IsDistinct, count-present, count-congruent,
  count-never, select_step, sum_ℕ-nothing,
}

abbrev pub is_some : {A : Type 0} → Option A → Bool
is_some none = false
is_some (some a) = true

-- A canonical event without a sender is a mint, one without a recipient a burn.
unfoldable pub is_mint : DbStxEvent → Bool
is_mint e = e.canonical && (is_some e.recipient && not (is_some e.sender))

unfoldable pub is_burn : DbStxEvent → Bool
is_burn e = e.canonical && (is_some e.sender && not (is_some e.recipient))

unfoldable pub minted : Db → ℤ
minted db = sum_of (λ (e : DbStxEvent). e.amount) (select is_mint (entries db.stx_events))

unfoldable pub burned : Db → ℤ
burned db = sum_of (λ (e : DbStxEvent). e.amount) (select is_burn (entries db.stx_events))

unfoldable pub all_fees : Db → ℤ
all_fees db =
    sum_of (λ (t : DbTx). pos t.fee_rate) (select (λ (t : DbTx). t.canonical) (entries db.txs))

-- Each address once, and among them those of the canonical events and of the payers of fees.
pub record Covers (db : Db) (addresses : List Text) : Type 0 where
  pub distinct : IsDistinct addresses
  pub senders :
      (e : DbStxEvent) (t : Text)
      → In e (entries db.stx_events)
      → e.canonical ≡ true
      → e.sender ≡ some t
      → In t addresses
  pub recipients :
      (e : DbStxEvent) (t : Text)
      → In e (entries db.stx_events)
      → e.canonical ≡ true
      → e.recipient ≡ some t
      → In t addresses
  pub payers :
      (t : DbTx) → In t (entries db.txs) → t.canonical ≡ true → In t.sender_address addresses

absorb : (a b : Bool) → (a || b) && b ≡ b
absorb true b = refl
absorb false true = refl
absorb false false = refl

absorb_left : (a b : Bool) → (a || b) && a ≡ a
absorb_left true b = refl
absorb_left false true = refl
absorb_left false false = refl

and-false : (a : Bool) → a && false ≡ false
and-false true = refl
and-false false = refl

module _ (addresses : List Text) (distinct : IsDistinct addresses) where
  pub received_once :
      (c : Bool) (s r : Option Text)
      → ((t : Text) → c ≡ true → r ≡ some t → In t addresses)
      → count (λ a. (c && touches a s r) && column_is a r) addresses ≡ bit (c && is_some r)
  unfolding column_is
  received_once false s r h = count-never addresses
  received_once true s none h =
      count-congruent _ (λ a. false) addresses (λ a. and-false (touches a s none))
      ∙ count-never addresses
  received_once true s (some t) h =
      count-congruent _ (λ a. same_text t a) addresses (λ a. absorb (column_is a s) (same_text t a))
      ∙ count-present t addresses distinct (h t refl refl)

  pub sent_once :
      (c : Bool) (s r : Option Text)
      → ((t : Text) → c ≡ true → s ≡ some t → In t addresses)
      → count (λ a. (c && touches a s r) && column_is a s) addresses ≡ bit (c && is_some s)
  unfolding column_is
  sent_once false s r h = count-never addresses
  sent_once true none r h =
      count-congruent _ (λ a. false) addresses (λ a. and-false (touches a none r))
      ∙ count-never addresses
  sent_once true (some t) r h =
      count-congruent _ (λ a. same_text t a) addresses
        (λ a. absorb_left (same_text t a) (column_is a r))
      ∙ count-present t addresses distinct (h t refl refl)

  pub paid_once :
      (c : Bool) (t : Text)
      → (c ≡ true → In t addresses)
      → count (λ a. c && same_text t a) addresses ≡ bit c
  paid_once false t h = count-never addresses
  paid_once true t h = count-present t addresses distinct (h refl)

-- A transfer is received and sent; what is left of the two is minted or burned.
one_event :
    (c s r : Bool) (n : ℕ)
    → (if c && r then n else 0) + (if c && (s && not r) then n else 0)
      ≡ (if c && s then n else 0) + (if c && (r && not s) then n else 0)
one_event false s r n = refl
one_event true true true n = refl
one_event true true false n = omega arith
one_event true false true n = omega arith
one_event true false false n = refl

pub transfers_cancel :
    (g : DbStxEvent → ℕ) (es : List DbStxEvent)
    → sum_ℕ g (select (λ e. e.canonical && is_some e.recipient) es) + sum_ℕ g (select is_burn es)
      ≡ sum_ℕ g (select (λ e. e.canonical && is_some e.sender) es) + sum_ℕ g (select is_mint es)
unfolding is_burn is_mint sum_ℕ select
transfers_cancel g [] = refl
transfers_cancel g (e ∷ es) = omega (
  arith,
  select_step g (λ e. e.canonical && is_some e.recipient) e es,
  select_step g (λ e. e.canonical && is_some e.sender) e es,
  select_step g is_mint e es,
  select_step g is_burn e es,
  one_event e.canonical (is_some e.sender) (is_some e.recipient) (g e),
  transfers_cancel g es,
)

unfoldable pub up : DbStxEvent → ℕ
up e = pos_part e.amount

unfoldable pub down : DbStxEvent → ℕ
down e = neg_part e.amount

unfoldable pub fee : DbTx → ℕ
fee t = t.fee_rate

unfoldable pub receives : Text → DbStxEvent → Bool
receives a e = (e.canonical && touches a e.sender e.recipient) && column_is a e.recipient

unfoldable pub sends : Text → DbStxEvent → Bool
sends a e = (e.canonical && touches a e.sender e.recipient) && column_is a e.sender

unfoldable pub pays : Text → DbTx → Bool
pays a t = t.canonical && same_text t.sender_address a

module _ (db : Db) where
  pub received_parts :
      (a : Text)
      → pos_part (stx_received db a) + sum_ℕ down (select (receives a) (entries db.stx_events))
        ≡ sum_ℕ up (select (receives a) (entries db.stx_events)) + neg_part (stx_received db a)
  unfolding stx_received up down receives
  received_parts a =
      rw
        (select-select (λ (e : DbStxEvent). column_is a e.recipient)
          (λ (e : DbStxEvent). e.canonical && touches a e.sender e.recipient)
          (entries db.stx_events))
        (sum_of_parts (λ (e : DbStxEvent). e.amount) (select (receives a) (entries db.stx_events)))

  pub sent_parts :
      (a : Text)
      → pos_part (stx_sent db a) + sum_ℕ down (select (sends a) (entries db.stx_events))
        ≡ sum_ℕ up (select (sends a) (entries db.stx_events)) + neg_part (stx_sent db a)
  unfolding stx_sent up down sends
  sent_parts a =
      rw
        (select-select (λ (e : DbStxEvent). column_is a e.sender)
          (λ (e : DbStxEvent). e.canonical && touches a e.sender e.recipient)
          (entries db.stx_events))
        (sum_of_parts (λ (e : DbStxEvent). e.amount) (select (sends a) (entries db.stx_events)))

  pub fee_parts :
      (a : Text)
      → pos_part (fees_paid db a)
        ≡ sum_ℕ fee (select (pays a) (entries db.txs)) + neg_part (fees_paid db a)
  unfolding fees_paid fee pays
  fee_parts a =
      let rows = select (pays a) (entries db.txs) in
      omega (arith, sum_of_parts (λ (t : DbTx). pos t.fee_rate) rows, sum_ℕ-nothing rows)

  pub all_fee_parts :
      pos_part (all_fees db)
      ≡ sum_ℕ fee (select (λ (t : DbTx). t.canonical) (entries db.txs)) + neg_part (all_fees db)
  unfolding all_fees fee
  all_fee_parts =
      let rows = select (λ (t : DbTx). t.canonical) (entries db.txs) in
      omega (arith, sum_of_parts (λ (t : DbTx). pos t.fee_rate) rows, sum_ℕ-nothing rows)
