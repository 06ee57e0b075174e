-- ===== src/Wire/PostConditions.antt =====
-- src/p2p/tx.ts: `readTransactionPostConditions`, in the order in which the source reads. A chain of
-- `===` on an enum is a case split on it: the NotImplementedError after such a chain names no member
-- of the enum and has no case.
use stacks_blockchain_rosett.Base.{List}
use stacks_blockchain_rosett.Wire.Reader.{Read, Library, pure, ◌>>=◌, read_times, read_uint8_enum}
use stacks_blockchain_rosett.Wire.Tx.{
  AssetInfoTypeId, AssetInfoTypeId_enum, PostConditionPrincipalTypeId,
  PostConditionPrincipalTypeId_enum, PostConditionPrincipal, principal_origin, principal_standard,
  principal_contract, FungibleConditionCode_enum, NonfungibleConditionCode_enum,
  TransactionPostCondition, post_condition_stx, post_condition_fungible, post_condition_nonfungible,
}
use stacks_blockchain_rosett.Wire.Fields.{
  read_contract_name, read_stacks_address, read_asset_info, read_clarity_value,
}

module _ (lib : Library) where
  unfoldable pub principal_of_type : PostConditionPrincipalTypeId → Read PostConditionPrincipal
  principal_of_type PostConditionPrincipalTypeId.origin = pure principal_origin
  principal_of_type PostConditionPrincipalTypeId.standard =
      read_stacks_address lib >>= λ address. pure (principal_standard address)
  principal_of_type PostConditionPrincipalTypeId.contract = do
    address ← read_stacks_address lib
    contract_name ← read_contract_name lib
    pure (principal_contract address contract_name)

  unfoldable pub read_transaction_post_condition_principal : Read PostConditionPrincipal
  read_transaction_post_condition_principal =
      read_uint8_enum lib PostConditionPrincipalTypeId_enum
        "unexpected tx post condition principal type: "
      >>= principal_of_type

  unfoldable pub post_condition_of_type :
      AssetInfoTypeId → PostConditionPrincipal → Read (TransactionPostCondition lib.ClarityValue)
  post_condition_of_type AssetInfoTypeId.stx principal = do
    condition_code ← read_uint8_enum lib FungibleConditionCode_enum "unexpected condition code: "
    amount ← lib.read_big_int64_be
    pure (
        post_condition_stx
          (record { principal = principal; condition_code = condition_code; amount = amount }))
  post_condition_of_type AssetInfoTypeId.fungible_asset principal = do
    asset ← read_asset_info lib
    condition_code ← read_uint8_enum lib FungibleConditionCode_enum "unexpected condition code: "
    amount ← lib.read_big_uint64_be
    pure (
        post_condition_fungible (record {
          principal = principal;
          asset = asset;
          condition_code = condition_code;
          amount = amount;
        }))
  post_condition_of_type AssetInfoTypeId.nonfungible_asset principal = do
    asset ← read_asset_info lib
    asset_value ← read_clarity_value lib
    condition_code ←
        read_uint8_enum lib NonfungibleConditionCode_enum "unexpected nonfungible condition code: "
    pure (
        post_condition_nonfungible (record {
          principal = principal;
          asset = asset;
          asset_value = asset_value;
          condition_code = condition_code;
        }))

  -- The body of the loop of `readTransactionPostConditions`.
  unfoldable pub read_transaction_post_condition : Read (TransactionPostCondition lib.ClarityValue)
  read_transaction_post_condition = do
    type_id ← read_uint8_enum lib AssetInfoTypeId_enum "unexpected tx asset info type: "
    principal ← read_transaction_post_condition_principal
    post_condition_of_type type_id principal

  unfoldable pub read_transaction_post_conditions :
      Read (List (TransactionPostCondition lib.ClarityValue))
  read_transaction_post_conditions = lib.read_uint32_be >>= λ condition_count.
      read_times condition_count read_transaction_post_condition
