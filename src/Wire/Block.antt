-- ===== src/Wire/Block.antt =====
-- src/p2p/block-header.ts and src/p2p/block.ts.
use stacks_blockchain_rosett.Base.{ℕ, List}
use stacks_blockchain_rosett.Wire.Reader.{Buffer, Read, Library, pure, ◌>>=◌, read_times}
use stacks_blockchain_rosett.Wire.Tx.{Transaction}
use stacks_blockchain_rosett.Wire.Transaction.{read_transactions}

pub record WorkScore : Type 0 where
  pub burn : ℕ
  pub work : ℕ

pub record VrfProof : Type 0 where
  pub gamma : Buffer
  pub c : Buffer
  pub s : Buffer

pub record BlockHeader : Type 0 where
  pub version : ℕ
  pub work_score : WorkScore
  pub vrf_proof : VrfProof
  pub parent_block_hash : Buffer
  pub parent_microblock_hash : Buffer
  pub parent_microblock_sequence : ℕ
  pub tx_merkle_root_hash : Buffer
  pub state_merkle_root_hash : Buffer
  pub microblock_pubkey_hash : Buffer

pub record Block (ClarityValue : Type 0) : Type 0 where
  pub header : BlockHeader
  pub transactions : List (Transaction ClarityValue)

module _ (lib : Library) where
  unfoldable pub read_block_header : Read BlockHeader
  read_block_header = do
    version ← lib.read_uint8
    burn ← lib.read_big_uint64_be
    work ← lib.read_big_uint64_be
    gamma ← lib.read_buffer 32
    c ← lib.read_buffer 16
    s ← lib.read_buffer 32
    parent_block_hash ← lib.read_buffer 32
    parent_microblock_hash ← lib.read_buffer 32
    parent_microblock_sequence ← lib.read_uint16_be
    tx_merkle_root_hash ← lib.read_buffer 32
    state_merkle_root_hash ← lib.read_buffer 32
    microblock_pubkey_hash ← lib.read_buffer 20
    pure (record {
      version = version;
      work_score = record { burn = burn; work = work };
      vrf_proof = record { gamma = gamma; c = c; s = s };
      parent_block_hash = parent_block_hash;
      parent_microblock_hash = parent_microblock_hash;
      parent_microblock_sequence = parent_microblock_sequence;
      tx_merkle_root_hash = tx_merkle_root_hash;
      state_merkle_root_hash = state_merkle_root_hash;
      microblock_pubkey_hash = microblock_pubkey_hash;
    })

  -- The body of the loop of `readBlocks`.
  unfoldable pub read_block : Read (Block lib.ClarityValue)
  read_block = do
    header ← read_block_header
    transactions ← read_transactions lib
    pure (record { header = header; transactions = transactions })

  unfoldable pub read_blocks : Read (List (Block lib.ClarityValue))
  read_blocks = lib.read_uint32_be >>= λ block_count. read_times block_count read_block
