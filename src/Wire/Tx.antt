-- ===== src/Wire/Tx.antt =====
-- The types of src/p2p/tx.ts. An `enum` is a data type with its table of numbers, a tagged union a
-- data type with a constructor for each tag. Strings are lists of code units, bigints numbers.
use stacks_blockchain_rosett.Base.{ℕ, ◌+◌, List, [], ◌∷◌, Option}
use stacks_blockchain_rosett.Wire.Signed.{ℤ}
use stacks_blockchain_rosett.Wire.Reader.{Buffer, Enum}

abbrev pub Text : Type 0
Text = List ℕ

abbrev pub microblock_header_size : ℕ
microblock_header_size = 1 + 2 + 32 + 32 + 65

pub data SigHashMode : Type 0 where
  p2pkh p2wpkh p2sh p2wsh : SigHashMode

abbrev pub SigHashMode_enum : Enum SigHashMode
SigHashMode_enum = record {
  members = p2pkh ∷ p2wpkh ∷ p2sh ∷ p2wsh ∷ [];
  value = elim [ p2pkh ↦ 0x00 | p2wpkh ↦ 0x02 | p2sh ↦ 0x01 | p2wsh ↦ 0x03 ];
}

-- The hash modes of a single-signature and of a multi-signature spending condition.
pub data SingleSigHashMode : Type 0 where
  p2pkh p2wpkh : SingleSigHashMode

pub data MultiSigHashMode : Type 0 where
  p2sh p2wsh : MultiSigHashMode

pub record TransactionSpendingConditionSingleSig : Type 0 where
  pub hash_mode : SingleSigHashMode
  pub signer : Buffer
  pub nonce : ℕ
  pub fee_rate : ℕ
  pub key_encoding : ℕ
  pub signature : Buffer

pub data TransactionAuthFieldTypeId : Type 0 where
  public_key_compressed public_key_uncompressed : TransactionAuthFieldTypeId
  signature_compressed signature_uncompressed : TransactionAuthFieldTypeId

abbrev pub TransactionAuthFieldTypeId_enum : Enum TransactionAuthFieldTypeId
TransactionAuthFieldTypeId_enum = record {
  members =
      public_key_compressed ∷ public_key_uncompressed ∷ signature_compressed
      ∷ signature_uncompressed ∷ [];
  value = elim [
    | public_key_compressed ↦ 0x00
    | public_key_uncompressed ↦ 0x01
    | signature_compressed ↦ 0x02
    | signature_uncompressed ↦ 0x03
  ];
}

-- The type id is the constructor: a key or a signature, compressed or not.
pub data TransactionAuthField : Type 0 where
  key_compressed key_uncompressed : Buffer → TransactionAuthField
  sig_compressed sig_uncompressed : Buffer → TransactionAuthField

pub record TransactionSpendingConditionMultiSig : Type 0 where
  pub hash_mode : MultiSigHashMode
  pub signer : Buffer
  pub nonce : ℕ
  pub fee_rate : ℕ
  pub auth_fields : List TransactionAuthField
  pub signature_count : ℕ

pub data TransactionSpendingCondition : Type 0 where
  single_sig : TransactionSpendingConditionSingleSig → TransactionSpendingCondition
  multi_sig : TransactionSpendingConditionMultiSig → TransactionSpendingCondition

pub data TransactionAuthTypeId : Type 0 where
  standard sponsored : TransactionAuthTypeId

abbrev pub TransactionAuthTypeId_enum : Enum TransactionAuthTypeId
TransactionAuthTypeId_enum = record {
  members = standard ∷ sponsored ∷ [];
  value = elim [ standard ↦ 0x04 | sponsored ↦ 0x05 ];
}

-- The origin's condition, and for a sponsored transaction the sponsor's too.
pub data TransactionAuth : Type 0 where
  auth_standard : TransactionSpendingCondition → TransactionAuth
  auth_sponsored : TransactionSpendingCondition → TransactionSpendingCondition → TransactionAuth

pub data TransactionAnchorMode : Type 0 where
  on_chain_only off_chain_only any : TransactionAnchorMode

abbrev pub TransactionAnchorMode_enum : Enum TransactionAnchorMode
TransactionAnchorMode_enum = record {
  members = on_chain_only ∷ off_chain_only ∷ any ∷ [];
  value = elim [ on_chain_only ↦ 1 | off_chain_only ↦ 2 | any ↦ 3 ];
}

pub data TransactionPostConditionMode : Type 0 where
  allow deny : TransactionPostConditionMode

abbrev pub TransactionPostConditionMode_enum : Enum TransactionPostConditionMode
TransactionPostConditionMode_enum = record {
  members = allow ∷ deny ∷ [];
  value = elim [ allow ↦ 0x01 | deny ↦ 0x02 ];
}

pub data TransactionVersion : Type 0 where
  mainnet testnet : TransactionVersion

abbrev pub TransactionVersion_enum : Enum TransactionVersion
TransactionVersion_enum = record {
  members = mainnet ∷ testnet ∷ [];
  value = elim [ mainnet ↦ 0x00 | testnet ↦ 0x80 ];
}

pub data AssetInfoTypeId : Type 0 where
  stx fungible_asset nonfungible_asset : AssetInfoTypeId

abbrev pub AssetInfoTypeId_enum : Enum AssetInfoTypeId
AssetInfoTypeId_enum = record {
  members = stx ∷ fungible_asset ∷ nonfungible_asset ∷ [];
  value = elim [ stx ↦ 0 | fungible_asset ↦ 1 | nonfungible_asset ↦ 2 ];
}

pub data PostConditionPrincipalTypeId : Type 0 where
  origin standard contract : PostConditionPrincipalTypeId

abbrev pub PostConditionPrincipalTypeId_enum : Enum PostConditionPrincipalTypeId
PostConditionPrincipalTypeId_enum = record {
  members =
      PostConditionPrincipalTypeId.origin ∷ PostConditionPrincipalTypeId.standard
      ∷ PostConditionPrincipalTypeId.contract ∷ [];
  value = elim [
    | PostConditionPrincipalTypeId.origin ↦ 0x01
    | PostConditionPrincipalTypeId.standard ↦ 0x02
    | PostConditionPrincipalTypeId.contract ↦ 0x03
  ];
}

pub record StacksAddress : Type 0 where
  pub version : ℕ
  pub bytes : Buffer

pub data PostConditionPrincipal : Type 0 where
  principal_origin : PostConditionPrincipal
  principal_standard : StacksAddress → PostConditionPrincipal
  principal_contract : StacksAddress → Text → PostConditionPrincipal

-- `RecipientPrincipalTypeId` is a `const enum`: Address = 5, Contract = 6.
pub data RecipientPrincipal : Type 0 where
  recipient_address : StacksAddress → RecipientPrincipal
  recipient_contract : StacksAddress → Text → RecipientPrincipal

pub data FungibleConditionCode : Type 0 where
  sent_eq sent_gt sent_ge sent_lt sent_le : FungibleConditionCode

abbrev pub FungibleConditionCode_enum : Enum FungibleConditionCode
FungibleConditionCode_enum = record {
  members = sent_eq ∷ sent_gt ∷ sent_ge ∷ sent_lt ∷ sent_le ∷ [];
  value = elim [
    | sent_eq ↦ 0x01
    | sent_gt ↦ 0x02
    | sent_ge ↦ 0x03
    | sent_lt ↦ 0x04
    | sent_le ↦ 0x05
  ];
}

pub data NonfungibleConditionCode : Type 0 where
  sent not_sent : NonfungibleConditionCode

abbrev pub NonfungibleConditionCode_enum : Enum NonfungibleConditionCode
NonfungibleConditionCode_enum = record {
  members = sent ∷ not_sent ∷ [];
  value = elim [ sent ↦ 0x10 | not_sent ↦ 0x11 ];
}

pub record AssetInfo : Type 0 where
  pub contract_address : StacksAddress
  pub contract_name : Text
  pub asset_name : Text

pub record TransactionPostConditionStx : Type 0 where
  pub principal : PostConditionPrincipal
  pub condition_code : FungibleConditionCode
  pub amount : ℤ

pub record TransactionPostConditionFungible : Type 0 where
  pub principal : PostConditionPrincipal
  pub asset : AssetInfo
  pub condition_code : FungibleConditionCode
  pub amount : ℕ

pub data TransactionPayloadTypeId : Type 0 where
  token_transfer smart_contract contract_call poison_microblock coinbase : TransactionPayloadTypeId

abbrev pub TransactionPayloadTypeId_enum : Enum TransactionPayloadTypeId
TransactionPayloadTypeId_enum = record {
  members = token_transfer ∷ smart_contract ∷ contract_call ∷ poison_microblock ∷ coinbase ∷ [];
  value = elim [
    | token_transfer ↦ 0
    | smart_contract ↦ 1
    | contract_call ↦ 2
    | poison_microblock ↦ 3
    | coinbase ↦ 4
  ];
}

pub record TransactionPayloadTokenTransfer : Type 0 where
  pub recipient : RecipientPrincipal
  pub amount : ℤ
  pub memo : Buffer

pub record TransactionPayloadSmartContract : Type 0 where
  pub name : Text
  pub code_body : Text

-- The types that hold Clarity values, over the type that the deserializer returns.
module _ (ClarityValue : Type 0) where
  pub record TransactionPostConditionNonfungible : Type 0 where
    pub principal : PostConditionPrincipal
    pub asset : AssetInfo
    pub asset_value : ClarityValue
    pub condition_code : NonfungibleConditionCode

  pub data TransactionPostCondition : Type 0 where
    post_condition_stx : TransactionPostConditionStx → TransactionPostCondition
    post_condition_fungible : TransactionPostConditionFungible → TransactionPostCondition
    post_condition_nonfungible : TransactionPostConditionNonfungible → TransactionPostCondition

  pub record TransactionPayloadContractCall : Type 0 where
    pub address : StacksAddress
    pub contract_name : Text
    pub function_name : Text
    pub function_args : List ClarityValue
    pub raw_function_args : Option Buffer

  pub data TransactionPayload : Type 0 where
    payload_token_transfer : TransactionPayloadTokenTransfer → TransactionPayload
    payload_coinbase : Buffer → TransactionPayload
    payload_contract_call : TransactionPayloadContractCall → TransactionPayload
    payload_smart_contract : TransactionPayloadSmartContract → TransactionPayload
    payload_poison_microblock : Buffer → Buffer → TransactionPayload

  pub record Transaction : Type 0 where
    pub version : TransactionVersion
    pub chain_id : ℕ
    pub auth : TransactionAuth
    pub anchor_mode : TransactionAnchorMode
    pub post_condition_mode : TransactionPostConditionMode
    pub post_conditions : List TransactionPostCondition
    pub raw_post_conditions : Buffer
    pub payload : TransactionPayload
