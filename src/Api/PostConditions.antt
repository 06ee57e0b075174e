-- ===== src/Api/PostConditions.antt =====
-- src/api/serializers/post-conditions.ts.
use stacks_blockchain_rosett.Base.{
  ℕ, Result, ok, err, ◌==◌, if◌then◌else◌, ◌≡◌, ◌≢◌, ◌↔◌, ◌⊎◌, ◌<◌, ◌≤◌, refl, inl, inr, arith,
}
use stacks_blockchain_rosett.Wire.Signed.{pos}
use stacks_blockchain_rosett.Wire.Reader.{Error, plain_error}
use stacks_blockchain_rosett.Wire.Tx.{
  Text, StacksAddress, PostConditionPrincipal, principal_origin, principal_standard,
  principal_contract, FungibleConditionCode, sent_eq, sent_gt, sent_ge, sent_lt, sent_le,
  NonfungibleConditionCode, sent, not_sent, AssetInfo, TransactionPostCondition, post_condition_stx,
  post_condition_fungible, post_condition_nonfungible,
}
use stacks_blockchain_rosett.Events.Hex.{to_hex, buffer_to_hex_prefix_string}
use stacks_blockchain_rosett.Api.Services.{ApiServices, ◌>>=◌, decimal}

-- The strings of `PostConditionFungibleConditionCode`.
pub data FungibleConditionLabel : Type 0 where
  sent_equal_to sent_greater_than sent_greater_than_or_equal_to : FungibleConditionLabel
  sent_less_than sent_less_than_or_equal_to : FungibleConditionLabel

unfoldable pub serialize_fungible_condition_code : FungibleConditionCode → FungibleConditionLabel
serialize_fungible_condition_code sent_eq = sent_equal_to
serialize_fungible_condition_code sent_ge = sent_greater_than
serialize_fungible_condition_code sent_gt = sent_greater_than_or_equal_to
serialize_fungible_condition_code sent_le = sent_less_than
serialize_fungible_condition_code sent_lt = sent_less_than_or_equal_to

pub data NonFungibleConditionLabel : Type 0 where
  label_sent label_not_sent : NonFungibleConditionLabel

unfoldable pub serialize_non_fungible_condition_code :
    NonfungibleConditionCode → NonFungibleConditionLabel
serialize_non_fungible_condition_code not_sent = label_not_sent
serialize_non_fungible_condition_code sent = label_sent

pub data PostConditionModeLabel : Type 0 where
  label_allow label_deny : PostConditionModeLabel

unfoldable pub serialize_post_condition_mode : ℕ → Result Error PostConditionModeLabel
serialize_post_condition_mode byte =
    if byte == 1
    then ok label_allow
    else if byte == 2
    then ok label_deny
    else err (plain_error "PostConditionMode byte must be either 1 or 2 but was " byte)

pub record SerializedAsset : Type 0 where
  pub contract_name : Text
  pub asset_name : Text
  pub contract_address : Text

-- `type_id` is the constructor.
pub data SerializedPrincipal : Type 0 where
  serialized_origin : SerializedPrincipal
  serialized_standard : (address : Text) → SerializedPrincipal
  serialized_contract : (contract_name address : Text) → SerializedPrincipal

-- `{ hex, repr }`
pub record ClarityView : Type 0 where
  pub hex : Text
  pub repr : Text

pub data SerializedPostCondition : Type 0 where
  serialized_stx :
      (condition_code : FungibleConditionLabel) (amount : Text) (principal : SerializedPrincipal)
      → SerializedPostCondition
  serialized_fungible :
      (condition_code : FungibleConditionLabel) (amount : Text) (principal : SerializedPrincipal)
      (asset : SerializedAsset)
      → SerializedPostCondition
  serialized_nonfungible :
      (condition_code : NonFungibleConditionLabel) (principal : SerializedPrincipal)
      (asset : SerializedAsset) (asset_value : ClarityView)
      → SerializedPostCondition

module _ {V : Type 0} (api : ApiServices V) where
  abbrev pub address_text : StacksAddress → Result Error Text
  address_text a = api.c32address a.version (to_hex a.bytes)

  unfoldable pub serialize_post_condition_principal :
      PostConditionPrincipal → Result Error SerializedPrincipal
  serialize_post_condition_principal (principal_standard a) =
      address_text a >>= λ address. ok (serialized_standard address)
  serialize_post_condition_principal (principal_contract a name) =
      address_text a >>= λ address. ok (serialized_contract name address)
  serialize_post_condition_principal principal_origin = ok serialized_origin

  unfoldable pub serialize_post_condition_asset : AssetInfo → Result Error SerializedAsset
  serialize_post_condition_asset asset = address_text asset.contract_address >>= λ address.
      ok (record {
        contract_name = asset.contract_name;
        asset_name = asset.asset_name;
        contract_address = address;
      })

  unfoldable pub clarity_view : V → ClarityView
  clarity_view value = record {
    hex = buffer_to_hex_prefix_string (api.serialize_cv value);
    repr = api.cv_to_string value;
  }

  unfoldable pub serialize_post_condition :
      TransactionPostCondition V → Result Error SerializedPostCondition
  serialize_post_condition (post_condition_stx pc) =
      serialize_post_condition_principal pc.principal >>= λ principal. ok (
        serialized_stx (serialize_fungible_condition_code pc.condition_code) (decimal pc.amount)
          principal)
  serialize_post_condition (post_condition_fungible pc) = do
    principal ← serialize_post_condition_principal pc.principal
    asset ← serialize_post_condition_asset pc.asset
    ok (
        serialized_fungible (serialize_fungible_condition_code pc.condition_code)
          (decimal (pos pc.amount)) principal asset)
  serialize_post_condition (post_condition_nonfungible pc) = do
    principal ← serialize_post_condition_principal pc.principal
    asset ← serialize_post_condition_asset pc.asset
    ok (
        serialized_nonfungible (serialize_non_fungible_condition_code pc.condition_code) principal
          asset (clarity_view pc.asset_value))

-- What a fungible condition code says of the amount sent, against the amount of the condition, in
-- the words of its label.
abbrev pub LabelHolds : FungibleConditionLabel → (sent limit : ℕ) → Type 0
LabelHolds sent_equal_to s l = s ≡ l
LabelHolds sent_greater_than s l = l < s
LabelHolds sent_greater_than_or_equal_to s l = l ≤ s
LabelHolds sent_less_than s l = s < l
LabelHolds sent_less_than_or_equal_to s l = s ≤ l

abbrev pub CodeHolds : FungibleConditionCode → (sent limit : ℕ) → Type 0
CodeHolds sent_eq s l = s ≡ l
CodeHolds sent_gt s l = l < s
CodeHolds sent_ge s l = l ≤ s
CodeHolds sent_lt s l = s < l
CodeHolds sent_le s l = s ≤ l

-- What the label says and what the code says are the same exactly where the amount sent is not the
-- limit, or the code is `SentEq`: a label claims a strict bound of a code with a bound that is not.
pub serialize_fungible_condition_code_label :
    (code : FungibleConditionCode) (sent limit : ℕ)
    → (LabelHolds (serialize_fungible_condition_code code) sent limit ↔ CodeHolds code sent limit)
      ↔ ((code ≡ sent_eq) ⊎ (sent ≢ limit))
unfolding serialize_fungible_condition_code
serialize_fungible_condition_code_label sent_eq s l = (λ e. inl refl, λ e. (λ h. h, λ h. h))
serialize_fungible_condition_code_label sent_gt s l = (
  λ e. inr (λ same. absurd (omega (arith, e.0 (omega (arith, same)), same))),
  λ e. elim e [ inl c ↦ absurd (cc) | inr ne ↦ (λ h. grind (arith, ne, h), λ h. omega (arith, h)) ],
)
serialize_fungible_condition_code_label sent_ge s l = (
  λ e. inr (λ same. absurd (omega (arith, e.1 (omega (arith, same)), same))),
  λ e. elim e [ inl c ↦ absurd (cc) | inr ne ↦ (λ h. omega (arith, h), λ h. grind (arith, ne, h)) ],
)
serialize_fungible_condition_code_label sent_lt s l = (
  λ e. inr (λ same. absurd (omega (arith, e.0 (omega (arith, same)), same))),
  λ e. elim e [ inl c ↦ absurd (cc) | inr ne ↦ (λ h. grind (arith, ne, h), λ h. omega (arith, h)) ],
)
serialize_fungible_condition_code_label sent_le s l = (
  λ e. inr (λ same. absurd (omega (arith, e.1 (omega (arith, same)), same))),
  λ e. elim e [ inl c ↦ absurd (cc) | inr ne ↦ (λ h. omega (arith, h), λ h. grind (arith, ne, h)) ],
)
