-- ===== src/Wire/Fields.antt =====
-- src/p2p/tx.ts: the parsers of the fields that several parts of a transaction share: texts,
-- addresses, asset names and Clarity values.
use stacks_blockchain_rosett.Base.{◌+◌, List, Result, ok, and_then, drop}
use stacks_blockchain_rosett.Wire.Reader.{
  Error, Buffer, Read, Library, pure, ◌>>=◌, from_buffer, read_times,
}
use stacks_blockchain_rosett.Wire.Tx.{Text, StacksAddress, AssetInfo}

-- `p` runs on a second reader over the bytes that are left; its offset is added to the reader's.
unfoldable pub on_remaining {ℓ} : {A : Type ℓ} → Read A → Read A
on_remaining p r =
    let remaining_buffer = drop r.read_offset r.internal_buffer in
    and_then (p (from_buffer remaining_buffer))
      (λ q. ok (q.0, record r { read_offset = r.read_offset + q.1.read_offset }))

module _ (lib : Library) where
  unfoldable pub read_string : Read Text
  read_string = lib.read_uint32_be >>= λ length. lib.read_string length

  unfoldable pub read_contract_name : Read Text
  read_contract_name = lib.read_uint8 >>= λ length. lib.read_string length

  unfoldable pub read_clarity_name : Read Text
  read_clarity_name = lib.read_uint8 >>= λ length. lib.read_string length

  unfoldable pub read_stacks_address : Read StacksAddress
  read_stacks_address = do
    version ← lib.read_uint8
    bytes ← lib.read_buffer 20
    pure (record { version = version; bytes = bytes })

  unfoldable pub read_asset_info : Read AssetInfo
  read_asset_info = do
    contract_address ← read_stacks_address
    contract_name ← read_contract_name
    asset_name ← read_clarity_name
    pure (record {
      contract_address = contract_address;
      contract_name = contract_name;
      asset_name = asset_name;
    })

  unfoldable pub read_clarity_value : Read lib.ClarityValue
  read_clarity_value = on_remaining lib.deserialize_cv

  unfoldable pub read_clarity_value_array : Read (List lib.ClarityValue)
  read_clarity_value_array =
      lib.read_uint32_be >>= λ value_count. on_remaining (read_times value_count lib.deserialize_cv)

  -- The same function on an input that is a Buffer.
  unfoldable pub clarity_values_of_buffer : Buffer → Result Error (List lib.ClarityValue)
  clarity_values_of_buffer input =
      and_then (read_clarity_value_array (from_buffer input)) (λ p. ok p.0)
