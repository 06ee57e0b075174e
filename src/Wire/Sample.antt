-- ===== src/Wire/Sample.antt =====
-- A concrete reader library, in which a Clarity value is one byte, with the laws that the theorems
-- ask for: the hypotheses on the third-party code can be met.
use stacks_blockchain_rosett.Base.{
  ℕ, ◌+◌, ◌*◌, ◌%◌, ◌≤◌, ◌≡◌, refl, [], ◌∷◌, ◌++◌, map, ok, err, leb, if◌then◌else◌, true, length,
  length-append, take, take-length_append, arith,
}
use stacks_blockchain_rosett.Wire.Signed.{signed64}
use stacks_blockchain_rosett.Wire.Reader.{Buffer, Read, Library, library_error, pure, ◌>>=◌}
use stacks_blockchain_rosett.Wire.Reads.{
  Reads, Reads-last, LibraryLaws, remaining, advance, be_value,
}

unfoldable pub read_bytes : ℕ → Read Buffer
read_bytes n r =
    if leb n (length (remaining r))
    then ok (take n (remaining r), advance n r)
    else err (library_error "Attempted to read beyond the bounds of the managed data.")

pub read_bytes-Reads : (bs : Buffer) → Reads (read_bytes (length bs)) bs bs
unfolding read_bytes
read_bytes-Reads bs = record {
  at = λ r rest h.
      let fits : leb (length bs) (length (bs ++ rest)) ≡ true =
        le→leb _ _ (omega (arith, length-append bs rest)) in
      rw (h, fits) (rw (take-length_append bs rest));
}
  where
    le→leb : (a b : ℕ) → a ≤ b → leb a b ≡ true
    le→leb a b h = ground arith

-- `n` bytes, of which a value is made.
unfoldable pub read_as {ℓ} : {A : Type ℓ} → ℕ → (Buffer → A) → Read A
read_as n f = read_bytes n >>= λ bytes. pure (f bytes)

pub read_as-Reads {ℓ} :
    {A : Type ℓ} (n : ℕ) (f : Buffer → A) (bs : Buffer)
    → length bs ≡ n
    → Reads (read_as n f) bs (f bs)
unfolding read_as
read_as-Reads n f bs h = rw (← h) (Reads-last f (read_bytes-Reads bs))

abbrev pub sample_library : Library
sample_library = record {
  ClarityValue = ℕ;
  read_uint8 = read_as 1 (be_value 0);
  read_uint16_be = read_as 2 (be_value 0);
  read_uint32_be = read_as 4 (be_value 0);
  read_big_uint64_be = read_as 8 (be_value 0);
  read_big_int64_be = read_as 8 (λ bytes. signed64 (be_value 0 bytes));
  read_buffer = read_bytes;
  read_string = λ n. read_as n (map (λ b. b % 128));
  deserialize_cv = read_as 1 (be_value 0);
}

pub byte-Reads : (b : ℕ) → Reads (read_as 1 (be_value 0)) (b ∷ []) b
unfolding be_value
byte-Reads b =
    let e : 0 * 256 + b ≡ b = omega arith in rw e at (read_as-Reads 1 (be_value 0) (b ∷ []) refl)

abbrev pub sample_laws : LibraryLaws sample_library
sample_laws = record {
  read_uint8_reads = λ b _. byte-Reads b;
  read_uint16_be_reads = read_as-Reads 2 (be_value 0);
  read_uint32_be_reads = read_as-Reads 4 (be_value 0);
  read_big_uint64_be_reads = read_as-Reads 8 (be_value 0);
  read_big_int64_be_reads = read_as-Reads 8 (λ bytes. signed64 (be_value 0 bytes));
  read_buffer_reads = read_bytes-Reads;
  read_string_reads = λ bs. read_as-Reads (length bs) (map (λ b. b % 128)) bs refl;
  serialize_cv = λ v. v ∷ [];
  deserialize_cv_reads = byte-Reads;
}
