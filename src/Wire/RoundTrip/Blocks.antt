-- ===== src/Wire/RoundTrip/Blocks.antt =====
-- Block headers and blocks read back what was encoded, and the statements about whole messages.
use stacks_blockchain_rosett.Base.{◌+◌, ◌^◌, ◌<◌, ◌≡◌, refl, List, ◌++◌, length, ok}
use stacks_blockchain_rosett.Wire.Reader.{Buffer, Library, from_buffer}
use stacks_blockchain_rosett.Wire.Tx.{Transaction}
use stacks_blockchain_rosett.Wire.Transaction.{read_transaction}
use stacks_blockchain_rosett.Wire.Block.{
  BlockHeader, Block, read_block_header, read_block, read_blocks,
}
use stacks_blockchain_rosett.Wire.Reads.{
  Reads, LibraryLaws, Reads-bind, Reads-last, Reads-read_times, All, All-map,
}
use stacks_blockchain_rosett.Wire.Encode.{
  encode_list, encode_transaction, encode_block_header, encode_block,
}
use stacks_blockchain_rosett.Wire.Encodable.{FitsHeader, FitsTransaction, FitsBlock}
use stacks_blockchain_rosett.Wire.RoundTrip.Numbers.{u16-Reads, u32-Reads, u64-Reads, buffer-Reads}
use stacks_blockchain_rosett.Wire.RoundTrip.Transaction.{transaction-Reads, transactions-Reads}

module _ (lib : Library) (laws : LibraryLaws lib) where
  header-Reads :
      (h : BlockHeader) → FitsHeader h → Reads (read_block_header lib) (encode_block_header h) h
  unfolding read_block_header encode_block_header
  header-Reads h fits = Reads-bind _ (laws.read_uint8_reads h.version fits.0) (
      Reads-bind _ (u64-Reads lib laws _ fits.1) (
        Reads-bind _ (u64-Reads lib laws _ fits.2) (
          Reads-bind _ (buffer-Reads lib laws 32 _ fits.3) (
            Reads-bind _ (buffer-Reads lib laws 16 _ fits.4) (
              Reads-bind _ (buffer-Reads lib laws 32 _ fits.5) (
                Reads-bind _ (buffer-Reads lib laws 32 _ fits.6) (
                  Reads-bind _ (buffer-Reads lib laws 32 _ fits.7) (
                    Reads-bind _ (u16-Reads lib laws _ fits.8) (
                      Reads-bind _ (buffer-Reads lib laws 32 _ fits.9) (
                        Reads-bind _ (buffer-Reads lib laws 32 _ fits.10)
                          (Reads-last _ (buffer-Reads lib laws 20 _ fits.11))))))))))))

  block-Reads :
      (b : Block lib.ClarityValue)
      → FitsBlock laws.serialize_cv b
      → Reads (read_block lib) (encode_block laws.serialize_cv b) b
  unfolding read_block encode_block
  block-Reads b h =
      Reads-bind _ (header-Reads b.header h.0)
        (Reads-last _ (transactions-Reads lib laws b.transactions h.1 h.2))

  pub blocks-Reads :
      (bs : List (Block lib.ClarityValue))
      → length bs < 2 ^ 32
      → All (FitsBlock laws.serialize_cv) bs
      → Reads (read_blocks lib) (encode_list (encode_block laws.serialize_cv) bs) bs
  unfolding read_blocks encode_list
  blocks-Reads bs h fits =
      Reads-bind _ (u32-Reads lib laws (length bs) h)
        (Reads-read_times _ (encode_block laws.serialize_cv) bs (All-map bs block-Reads fits))

  -- For every transaction whose fields fit the wire format, and whatever bytes follow: parsing the
  -- encoded transaction from the start of the buffer returns it whole, the raw post-conditions and
  -- raw arguments included, and leaves the reader just behind its last byte.
  pub read_transaction-encode :
      (tx : Transaction lib.ClarityValue) (rest : Buffer)
      → FitsTransaction laws.serialize_cv tx
      → let bytes = encode_transaction laws.serialize_cv tx in
        read_transaction lib (from_buffer (bytes ++ rest))
        ≡ ok (tx, record { internal_buffer = bytes ++ rest; read_offset = 0 + length bytes })
  unfolding from_buffer
  read_transaction-encode tx rest h = (transaction-Reads lib laws tx h).at _ rest refl

  -- For every list of fewer than 2^32 blocks that fit the wire format, and whatever bytes follow:
  -- parsing its encoding returns those blocks, headers and transactions, and leaves the reader just
  -- behind the last one.
  pub read_blocks-encode :
      (bs : List (Block lib.ClarityValue)) (rest : Buffer)
      → length bs < 2 ^ 32
      → All (FitsBlock laws.serialize_cv) bs
      → let bytes = encode_list (encode_block laws.serialize_cv) bs in
        read_blocks lib (from_buffer (bytes ++ rest))
        ≡ ok (bs, record { internal_buffer = bytes ++ rest; read_offset = 0 + length bytes })
  unfolding from_buffer
  read_blocks-encode bs rest h fits = (blocks-Reads bs h fits).at _ rest refl
