-- ===== src/Wire/SampleStream.antt =====
-- A stream that runs: its buffered bytes and the chunks to come. It does not end.
use stacks_blockchain_rosett.Base.{
  ℕ, ◌≤◌, ◌≡◌, refl, ap, inl, inr, true, false, List, [], ◌∷◌, ◌++◌, Option, none, some, length,
  take, drop, leb, ◌<◌, Bool-cases, arith,
}
use stacks_blockchain_rosett.Wire.Reader.{Buffer}
use stacks_blockchain_rosett.Wire.Stream.{Readable}
use stacks_blockchain_rosett.Wire.RoundTrip.Streams.{ReadableLaws}

abbrev pub Chunks : Type 0
Chunks = Buffer × List Buffer

unfoldable pub read_chunks : ℕ → Chunks → Option Buffer × Chunks
read_chunks n s = elim (leb n (length s.0)) [
  | true ↦ (some (take n s.0), (drop n s.0, s.1))
  | false ↦ (none, s)
]

unfoldable pub next_chunk : Chunks → Option Chunks
next_chunk (b, []) = none
next_chunk (b, c ∷ cs) = some (b ++ c, cs)

abbrev pub sample_stream : Readable
sample_stream = record { Stream = Chunks; read = read_chunks; next_readable = next_chunk }

pub read_chunks-enough :
    (n : ℕ) (s : Chunks) → n ≤ length s.0 → read_chunks n s ≡ (some (take n s.0), (drop n s.0, s.1))
unfolding read_chunks
read_chunks-enough n s h = elim (Bool-cases (leb n (length s.0))) [
  | inl t ↦ rw (t, read_chunks) refl
  | inr f ↦ absurd (ground arith)
]

pub read_chunks-short : (n : ℕ) (s : Chunks) → length s.0 < n → read_chunks n s ≡ (none, s)
unfolding read_chunks
read_chunks-short n s h = elim (Bool-cases (leb n (length s.0))) [
  | inl t ↦ absurd (ground arith)
  | inr f ↦ rw (f, read_chunks) refl
]

pub next_chunk-eq_some :
    (s : Chunks) (c : Buffer) (cs : List Buffer) → s.1 ≡ c ∷ cs → next_chunk s ≡ some (s.0 ++ c, cs)
unfolding next_chunk
next_chunk-eq_some (b, []) c cs e = absurd (cc)
next_chunk-eq_some (b, d ∷ ds) c cs e = cc

unfoldable pub sample_stream_laws : ReadableLaws sample_stream
sample_stream_laws = record {
  buffered = λ s. s.0;
  coming = λ s. s.1;
  read_enough = λ n s one h.
      let e = read_chunks-enough n s h in (ap (λ p. p.0) e, ap (λ p. p.1.0) e, ap (λ p. p.1.1) e);
  read_short = λ n s c cs short e. read_chunks-short n s short;
  next_event = λ s c cs e. ((s.0 ++ c, cs), next_chunk-eq_some s c cs e, refl, refl);
}
