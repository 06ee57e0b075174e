-- ===== src/Wire/Reads.antt =====
-- What it means for a parser to read a value off bytes, with a rule for each way to build a parser,
-- and what the third-party readers promise on input that is long enough.
use stacks_blockchain_rosett.Base.{
  ◌<◌, ℕ, ◌+◌, ◌-◌, ◌*◌, ◌%◌, ◌≡◌, ap, ◌∙◌, sym, List, [], ◌∷◌, ◌++◌, map, append_assoc, subst, ok,
  length, length-append, drop, drop-drop, drop-length_append, take-length_append, arith,
}
use stacks_blockchain_rosett.Wire.Signed.{signed64}
use stacks_blockchain_rosett.Wire.Reader.{
  Buffer, Reader, Read, Library, pure, ◌>>=◌, offset, copy_since, from_buffer, read_times,
}
use stacks_blockchain_rosett.Wire.Fields.{on_remaining}
use stacks_blockchain_rosett.Wire.Payload.{with_raw}

-- The bytes that a reader has not read.
abbrev pub remaining : Reader → Buffer
remaining r = drop r.read_offset r.internal_buffer

abbrev pub advance : ℕ → Reader → Reader
advance n r = record r { read_offset = r.read_offset + n }

-- Wherever the unread bytes begin with `bytes`, `p` returns `a` and moves past them.
pub record Reads {ℓ} {A : Type ℓ} (p : Read A) (bytes : Buffer) (a : A) : Type ℓ where
  pub at :
      (r : Reader) (rest : Buffer)
      → remaining r ≡ bytes ++ rest
      → p r ≡ ok (a, advance (length bytes) r)

-- A big-endian number.
unfoldable pub be_value : ℕ → Buffer → ℕ
be_value acc [] = acc
be_value acc (b ∷ bs) = be_value (acc * 256 + b) bs

-- Documented behaviour of the third-party readers.
pub record LibraryLaws (lib : Library) : Type 0 where
  pub read_uint8_reads : (b : ℕ) → b < 256 → Reads lib.read_uint8 (b ∷ []) b
  pub read_uint16_be_reads :
      (bs : Buffer) → length bs ≡ 2 → Reads lib.read_uint16_be bs (be_value 0 bs)
  pub read_uint32_be_reads :
      (bs : Buffer) → length bs ≡ 4 → Reads lib.read_uint32_be bs (be_value 0 bs)
  pub read_big_uint64_be_reads :
      (bs : Buffer) → length bs ≡ 8 → Reads lib.read_big_uint64_be bs (be_value 0 bs)
  pub read_big_int64_be_reads :
      (bs : Buffer) → length bs ≡ 8 → Reads lib.read_big_int64_be bs (signed64 (be_value 0 bs))
  pub read_buffer_reads : (bs : Buffer) → Reads (lib.read_buffer (length bs)) bs bs
  -- the encoding 'ascii' clears the high bit
  pub read_string_reads :
      (bs : Buffer) → Reads (lib.read_string (length bs)) bs (map (λ b. b % 128) bs)
  pub serialize_cv : lib.ClarityValue → Buffer
  pub deserialize_cv_reads : (v : lib.ClarityValue) → Reads lib.deserialize_cv (serialize_cv v) v

pub advance-advance : (m n : ℕ) (r : Reader) → advance n (advance m r) ≡ advance (m + n) r
advance-advance m n r =
    let e : r.read_offset + m + n ≡ r.read_offset + (m + n) = omega arith in rw e

pub remaining-advance :
    (bs rest : Buffer) (r : Reader)
    → remaining r ≡ bs ++ rest
    → remaining (advance (length bs) r) ≡ rest
remaining-advance bs rest r h =
    sym (drop-drop r.read_offset (length bs) r.internal_buffer)
    ∙ (ap (drop (length bs)) h ∙ drop-length_append bs rest)

module _ {ℓ} {A : Type ℓ} where
  pub Reads-pure : (a : A) → Reads (pure a) [] a
  unfolding pure
  Reads-pure a = record {
    at = λ r rest h. let e : r.read_offset + 0 ≡ r.read_offset = omega arith in rw e;
  }

  pub Reads-value : {p : Read A} {bs : Buffer} {a b : A} → a ≡ b → Reads p bs a → Reads p bs b
  Reads-value {p} {bs} e = subst (λ x. Reads p bs x) e

  pub Reads-bind {κ} :
      {B : Type κ} {p : Read A} (f : A → Read B) {bs cs : Buffer} {a : A} {b : B}
      → Reads p bs a
      → Reads (f a) cs b
      → Reads (p >>= f) (bs ++ cs) b
  unfolding ◌>>=◌
  Reads-bind f {bs} {cs} {a} hp hf = record {
    at = λ r rest h.
        let h' = h ∙ append_assoc bs cs rest in
        let e = hf.at (advance (length bs) r) rest (remaining-advance bs (cs ++ rest) r h') in
        rw (hp.at r (cs ++ rest) h')
          (rw e (rw (advance-advance (length bs) (length cs) r, length-append bs cs)));
  }

  -- The last read of a chain, whose value goes into the result.
  pub Reads-last {κ} :
      {B : Type κ} {p : Read A} {bs : Buffer} {a : A} (f : A → B)
      → Reads p bs a
      → Reads (p >>= λ x. pure (f x)) bs (f a)
  unfolding ◌>>=◌ pure
  Reads-last f hp = record { at = λ r rest h. rw (hp.at r rest h) }

-- The concatenation of the encodings of the items.
unfoldable pub encode_all {ℓ} : {A : Type ℓ} → (A → Buffer) → List A → Buffer
encode_all encode [] = []
encode_all encode (a ∷ xs) = encode a ++ encode_all encode xs

abbrev pub All {ℓ κ} : {A : Type ℓ} → (A → Type κ) → List A → Type κ
All P [] = Unit
All P (x ∷ xs) = P x × All P xs

pub All-map {ℓ κ λ'} :
    {A : Type ℓ} {P : A → Type κ} {Q : A → Type λ'} (xs : List A)
    → ((x : A) → P x → Q x)
    → All P xs
    → All Q xs
All-map [] f h = tt
All-map (x ∷ xs) f h = (f x h.0, All-map xs f h.1)

module _ {ℓ} {A : Type ℓ} {p : Read A} where
  -- `readOffset` before and after `p` spans the bytes that `p` has read.
  pub Reads-with_raw : {bs : Buffer} {a : A} → Reads p bs a → Reads (with_raw p) bs (a, bs)
  unfolding with_raw offset copy_since ◌>>=◌ pure
  Reads-with_raw {bs} {a} hp = record {
    at = λ r rest h.
        let span : r.read_offset + length bs - r.read_offset ≡ length bs = omega arith in
        rw (hp.at r rest h) (rw (span, h) (rw (take-length_append bs rest)));
  }

  pub Reads-on_remaining : {bs : Buffer} {a : A} → Reads p bs a → Reads (on_remaining p) bs a
  unfolding on_remaining from_buffer
  Reads-on_remaining {bs} hp = record {
    at = λ r rest h.
        let inner = hp.at (from_buffer (remaining r)) rest h in
        let e : 0 + length bs ≡ length bs = omega arith in rw inner (rw e);
  }

module _ {ℓ} {A : Type ℓ} (p : Read A) where
  -- A loop of `length xs` rounds, each of which reads one item.
  pub Reads-read_times :
      (encode : A → Buffer) (xs : List A)
      → All (λ a. Reads p (encode a) a) xs
      → Reads (read_times (length xs) p) (encode_all encode xs) xs
  unfolding read_times encode_all
  Reads-read_times encode [] h = Reads-pure []
  Reads-read_times encode (a ∷ xs) h =
      Reads-bind _ h.0 (Reads-last _ (Reads-read_times encode xs h.1))
