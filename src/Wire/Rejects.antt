-- ===== src/Wire/Rejects.antt =====
-- What the parsers do with a byte that they do not know, and with amounts above the signed range.
use stacks_blockchain_rosett.Base.{
  ℕ, ◌-◌, ◌^◌, ◌≤◌, ◌<◌, ◌≡◌, ◌≢◌, refl, ap, sym, ◌∙◌, ◌+◌, ◌⊎◌, inl, inr, List, [], ◌∷◌, ◌++◌, In,
  Option, none, some, ok, err, ◌==◌, ==_iff, Bool-cases, length, false, String, arith,
}
use stacks_blockchain_rosett.Wire.Signed.{negsuc, signed64}
use stacks_blockchain_rosett.Wire.Reader.{
  Buffer, Reader, Library, stacks_message_parsing_error, plain_error, from_buffer, pure, throw,
  ◌>>=◌, Enum, parse_enum, enum_or_throw, read_uint8_enum,
}
use stacks_blockchain_rosett.Wire.Tx.{
  TransactionPayloadTypeId, TransactionPayloadTypeId_enum, RecipientPrincipal,
  payload_token_transfer,
}
use stacks_blockchain_rosett.Wire.Payload.{
  recipient_of_type, payload_of_type, read_transaction_payload,
}
use stacks_blockchain_rosett.Wire.Reads.{
  Reads, LibraryLaws, remaining, advance, Reads-bind, Reads-last,
}
use stacks_blockchain_rosett.Wire.Encode.{be_bytes, encode_recipient}
use stacks_blockchain_rosett.Wire.Encodable.{FitsRecipient}
use stacks_blockchain_rosett.Wire.RoundTrip.Numbers.{signed-Reads, buffer-Reads, enum-Reads}
use stacks_blockchain_rosett.Wire.RoundTrip.Transaction.{recipient-Reads, payload_type-Finds}

-- What `readUInt8Enum` makes of the byte `n`: the member with that number, or the error if none has.
abbrev pub EnumOutcome : {A : Type 0} → Enum A → ℕ → Option A → Type 0
EnumOutcome {A} e n (some a) = In a e.members × (e.value a ≡ n)
EnumOutcome {A} e n none = (a : A) → In a e.members → e.value a ≢ n

outcome_of_more :
    {A : Type 0} (value : A → ℕ) (m : A) (ms : List A) (n : ℕ) (o : Option A)
    → value m ≢ n
    → EnumOutcome (record { members = ms; value = value }) n o
    → EnumOutcome (record { members = m ∷ ms; value = value }) n o
outcome_of_more value m ms n (some a) ne h = (inr h.0, h.1)
outcome_of_more value m ms n none ne h =
    λ a. elim [ inl e ↦ λ at. ne (ap value (sym e) ∙ at) | inr later ↦ h a later ]

parse_enum_outcome :
    {A : Type 0} (value : A → ℕ) (members : List A) (n : ℕ)
    → EnumOutcome (record { members = members; value = value }) n (parse_enum value members n)
unfolding parse_enum
parse_enum_outcome value [] n = λ a h. absurd h
parse_enum_outcome value (m ∷ ms) n = elim (Bool-cases (value m == n)) [
  | inl e ↦ rw e (inl refl, (==_iff (value m) n).0 e)
  | inr e ↦ rw e (
      outcome_of_more value m ms n (parse_enum value ms n) (λ at. cc (e, (==_iff (value m) n).1 at))
        (parse_enum_outcome value ms n))
]

module _ (lib : Library) (laws : LibraryLaws lib) where
  enum_or_throw_outcome :
      {A : Type 0} (e : Enum A) (message : String) (b : ℕ) (r : Reader) (o : Option A)
      → EnumOutcome e b o
      → ((a : A) × In a e.members
          × (e.value a ≡ b)
          × (enum_or_throw o (stacks_message_parsing_error message b) r ≡ ok (a, r)))
        ⊎ (((a : A) → In a e.members → e.value a ≢ b)
            × (enum_or_throw o (stacks_message_parsing_error message b) r
                ≡ err (stacks_message_parsing_error message b)))
  unfolding enum_or_throw pure throw
  enum_or_throw_outcome e message b r (some a) h = inl (a, h.0, h.1, refl)
  enum_or_throw_outcome e message b r none h = inr (h, refl)

  -- At a reader whose next byte is `b`, reading an enum either returns a member of the enum whose
  -- number is `b` and moves past the byte, or no member has the number `b` and it throws a
  -- StacksMessageParsingError with the given message and `b`.
  pub read_uint8_enum_outcome :
      {A : Type 0} (e : Enum A) (message : String) (b : ℕ) (rest : Buffer) (r : Reader)
      → b < 256
      → remaining r ≡ b ∷ rest
      → ((a : A) × In a e.members
          × (e.value a ≡ b)
          × (read_uint8_enum lib e message r ≡ ok (a, advance 1 r)))
        ⊎ (((a : A) → In a e.members → e.value a ≢ b)
            × (read_uint8_enum lib e message r ≡ err (stacks_message_parsing_error message b)))
  unfolding read_uint8_enum ◌>>=◌
  read_uint8_enum_outcome e message b rest r small h =
      rw ((laws.read_uint8_reads b small).at r rest h) (
        enum_or_throw_outcome e message b (advance 1 r) (parse_enum e.value e.members b)
          (parse_enum_outcome e.value e.members b))

  -- A token transfer whose recipient's type id is neither 5 nor 6 is refused: parsing the payload
  -- throws an Error that names the type id.
  read_transaction_payload-bad_recipient :
      (b : ℕ) (rest : Buffer)
      → b < 256
      → b ≢ 0x05
      → b ≢ 0x06
      → read_transaction_payload lib (from_buffer (0 ∷ b ∷ rest))
        ≡ err (plain_error "Unexpected recipient principal type ID " b)
  unfolding read_transaction_payload payload_of_type recipient_of_type throw from_buffer ◌>>=◌
  read_transaction_payload-bad_recipient b rest small h5 h6 =
      let e5 : (b == 0x05) ≡ false = ground arith in
      let e6 : (b == 0x06) ≡ false = ground arith in
      let type_id =
        (enum-Reads lib laws TransactionPayloadTypeId_enum "unexpected tx payload type: "
            TransactionPayloadTypeId.token_transfer payload_type-Finds).at
          (from_buffer (0 ∷ b ∷ rest)) (b ∷ rest) refl in
      rw type_id (
        rw
          ((laws.read_uint8_reads b small).at
            (record { internal_buffer = 0 ∷ b ∷ rest; read_offset = 0 + 1 }) rest refl)
          (rw (e5, e6)))

  -- A token transfer whose u64 amount is 2^63 or more parses to a negative amount: the source reads
  -- the field as a signed integer.
  pub token_transfer_amount_signed :
      (recipient : RecipientPrincipal) (n : ℕ) (memo : Buffer)
      → FitsRecipient recipient
      → 2 ^ 63 ≤ n
      → n < 2 ^ 64
      → length memo ≡ 34
      → Reads
          (read_transaction_payload lib)
          (0 ∷ [] ++ (encode_recipient recipient ++ (be_bytes 8 n ++ memo)))
          (payload_token_transfer
            (record { recipient = recipient; amount = negsuc (2 ^ 64 - 1 - n); memo = memo }))
  unfolding read_transaction_payload payload_of_type
  token_transfer_amount_signed recipient n memo fits large small h =
      let negative : signed64 n ≡ negsuc (2 ^ 64 - 1 - n) = unfold signed64 in ground arith in
      rw (← negative) (
        Reads-bind _
          (enum-Reads lib laws TransactionPayloadTypeId_enum _
            TransactionPayloadTypeId.token_transfer payload_type-Finds)
          (recipient-Reads lib laws _ recipient fits (
            Reads-bind _ (signed-Reads lib laws n small)
              (Reads-last _ (buffer-Reads lib laws 34 memo h)))))
