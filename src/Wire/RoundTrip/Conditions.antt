-- ===== src/Wire/RoundTrip/Conditions.antt =====
-- Addresses, Clarity values, post-conditions and spending conditions read back what was encoded.
use stacks_blockchain_rosett.Base.{◌^◌, ◌<◌, refl, List, [], ◌∷◌, length, arith}
use stacks_blockchain_rosett.Wire.Reader.{Library, parse_enum}
use stacks_blockchain_rosett.Wire.Tx.{
  AssetInfoTypeId, AssetInfoTypeId_enum, PostConditionPrincipalTypeId,
  PostConditionPrincipalTypeId_enum, StacksAddress, PostConditionPrincipal, principal_origin,
  principal_standard, principal_contract, sent_eq, FungibleConditionCode_enum, sent, not_sent,
  NonfungibleConditionCode_enum, AssetInfo, TransactionPostCondition, post_condition_stx,
  post_condition_fungible, post_condition_nonfungible,
}
use stacks_blockchain_rosett.Wire.Fields.{
  read_stacks_address, read_asset_info, read_clarity_value, read_clarity_value_array,
}
use stacks_blockchain_rosett.Wire.PostConditions.{
  principal_of_type, read_transaction_post_condition_principal, post_condition_of_type,
  read_transaction_post_condition, read_transaction_post_conditions,
}
use stacks_blockchain_rosett.Wire.Reads.{
  Reads, LibraryLaws, Reads-pure, Reads-bind, Reads-last, Reads-on_remaining, Reads-read_times, All,
  All-map,
}
use stacks_blockchain_rosett.Wire.Encode.{
  encode_list, encode_address, encode_asset_info, encode_principal, encode_post_condition,
}
use stacks_blockchain_rosett.Wire.Encodable.{
  FitsAddress, FitsAssetInfo, FitsPrincipal, FitsPostCondition,
}
use stacks_blockchain_rosett.Wire.RoundTrip.Numbers.{
  Finds, u32-Reads, u64-Reads, i64-Reads, buffer-Reads, enum-Reads, contract_name-Reads,
  clarity_name-Reads,
}

principal_type-Finds : Finds PostConditionPrincipalTypeId_enum
unfolding parse_enum
principal_type-Finds PostConditionPrincipalTypeId.origin = (refl, omega arith)
principal_type-Finds PostConditionPrincipalTypeId.standard = (refl, omega arith)
principal_type-Finds PostConditionPrincipalTypeId.contract = (refl, omega arith)

asset_type-Finds : Finds AssetInfoTypeId_enum
unfolding parse_enum
asset_type-Finds AssetInfoTypeId.stx = (refl, omega arith)
asset_type-Finds AssetInfoTypeId.fungible_asset = (refl, omega arith)
asset_type-Finds AssetInfoTypeId.nonfungible_asset = (refl, omega arith)

fungible_code-Finds : Finds FungibleConditionCode_enum
unfolding parse_enum
fungible_code-Finds sent_eq = (refl, omega arith)
fungible_code-Finds _ = (refl, omega arith)

nonfungible_code-Finds : Finds NonfungibleConditionCode_enum
unfolding parse_enum
nonfungible_code-Finds sent = (refl, omega arith)
nonfungible_code-Finds not_sent = (refl, omega arith)

module _ (lib : Library) (laws : LibraryLaws lib) where
  pub address-Reads :
      (a : StacksAddress) → FitsAddress a → Reads (read_stacks_address lib) (encode_address a) a
  unfolding read_stacks_address encode_address
  address-Reads a h =
      Reads-bind _ (laws.read_uint8_reads a.version h.0)
        (Reads-last _ (buffer-Reads lib laws 20 a.bytes h.1))

  pub asset_info-Reads :
      (a : AssetInfo) → FitsAssetInfo a → Reads (read_asset_info lib) (encode_asset_info a) a
  unfolding read_asset_info encode_asset_info
  asset_info-Reads a h = Reads-bind _ (address-Reads a.contract_address h.0) (
      Reads-bind _ (contract_name-Reads lib laws a.contract_name h.1)
        (Reads-last _ (clarity_name-Reads lib laws a.asset_name h.2)))

  pub principal-Reads :
      (p : PostConditionPrincipal)
      → FitsPrincipal p
      → Reads (read_transaction_post_condition_principal lib) (encode_principal p) p
  unfolding read_transaction_post_condition_principal principal_of_type encode_principal
  principal-Reads principal_origin h =
      Reads-bind _ {cs = []}
        (enum-Reads lib laws PostConditionPrincipalTypeId_enum _ PostConditionPrincipalTypeId.origin
          principal_type-Finds)
        (Reads-pure principal_origin)
  principal-Reads (principal_standard a) h =
      Reads-bind _
        (enum-Reads lib laws PostConditionPrincipalTypeId_enum _
          PostConditionPrincipalTypeId.standard principal_type-Finds)
        (Reads-last _ (address-Reads a h))
  principal-Reads (principal_contract a name) h =
      Reads-bind _
        (enum-Reads lib laws PostConditionPrincipalTypeId_enum _
          PostConditionPrincipalTypeId.contract principal_type-Finds)
        (Reads-bind _ (address-Reads a h.0) (Reads-last _ (contract_name-Reads lib laws name h.1)))

  pub clarity_value-Reads :
      (v : lib.ClarityValue) → Reads (read_clarity_value lib) (laws.serialize_cv v) v
  unfolding read_clarity_value
  clarity_value-Reads v = Reads-on_remaining (laws.deserialize_cv_reads v)

  clarity_values_fit :
      (vs : List lib.ClarityValue) → All (λ v. Reads lib.deserialize_cv (laws.serialize_cv v) v) vs
  clarity_values_fit [] = tt
  clarity_values_fit (v ∷ vs) = (laws.deserialize_cv_reads v, clarity_values_fit vs)

  pub clarity_values-Reads :
      (vs : List lib.ClarityValue)
      → length vs < 2 ^ 32
      → Reads (read_clarity_value_array lib) (encode_list laws.serialize_cv vs) vs
  unfolding read_clarity_value_array encode_list
  clarity_values-Reads vs h = Reads-bind _ (u32-Reads lib laws (length vs) h) (
      Reads-on_remaining
        (Reads-read_times lib.deserialize_cv laws.serialize_cv vs (clarity_values_fit vs)))

  pub post_condition-Reads :
      (c : TransactionPostCondition lib.ClarityValue)
      → FitsPostCondition laws.serialize_cv c
      → Reads (read_transaction_post_condition lib) (encode_post_condition laws.serialize_cv c) c
  unfolding read_transaction_post_condition post_condition_of_type encode_post_condition
  post_condition-Reads (post_condition_stx c) h =
      Reads-bind _ (enum-Reads lib laws AssetInfoTypeId_enum _ AssetInfoTypeId.stx asset_type-Finds)
        (Reads-bind _ (principal-Reads c.principal h.0) (
          Reads-bind _
            (enum-Reads lib laws FungibleConditionCode_enum _ c.condition_code fungible_code-Finds)
            (Reads-last _ (i64-Reads lib laws c.amount h.1))))
  post_condition-Reads (post_condition_fungible c) h =
      Reads-bind _
        (enum-Reads lib laws AssetInfoTypeId_enum _ AssetInfoTypeId.fungible_asset asset_type-Finds)
        (Reads-bind _ (principal-Reads c.principal h.0) (
          Reads-bind _ (asset_info-Reads c.asset h.1) (
            Reads-bind _
              (enum-Reads lib laws FungibleConditionCode_enum _ c.condition_code
                fungible_code-Finds)
              (Reads-last _ (u64-Reads lib laws c.amount h.2)))))
  post_condition-Reads (post_condition_nonfungible c) h =
      Reads-bind _
        (enum-Reads lib laws AssetInfoTypeId_enum _ AssetInfoTypeId.nonfungible_asset
          asset_type-Finds)
        (Reads-bind _ (principal-Reads c.principal h.0) (
          Reads-bind _ (asset_info-Reads c.asset h.1) (
            Reads-bind _ (clarity_value-Reads c.asset_value) (
              Reads-last _ (
                enum-Reads lib laws NonfungibleConditionCode_enum _ c.condition_code
                  nonfungible_code-Finds)))))

  pub post_conditions-Reads :
      (cs : List (TransactionPostCondition lib.ClarityValue))
      → length cs < 2 ^ 32
      → All (FitsPostCondition laws.serialize_cv) cs
      → Reads
          (read_transaction_post_conditions lib)
          (encode_list (encode_post_condition laws.serialize_cv) cs)
          cs
  unfolding read_transaction_post_conditions encode_list
  post_conditions-Reads cs h fits = Reads-bind _ (u32-Reads lib laws (length cs) h) (
      Reads-read_times _ (encode_post_condition laws.serialize_cv) cs
        (All-map cs post_condition-Reads fits))
