-- ===== src/Wire/RoundTrip/Deliveries.antt =====
-- Messages of the network over a stream, in whatever chunks their bytes arrive.
use stacks_blockchain_rosett.Base.{
  ℕ, ◌≤◌, ◌<◌, ◌≡◌, refl, sym, ap, ◌∙◌, Bool, false, List, [], ◌∷◌, ◌++◌, map, length,
  length-append, take, drop, take-length_append, drop-length_append, append_assoc, append-nil,
  arith,
}
use stacks_blockchain_rosett.Wire.Reader.{Buffer, Library, Read, from_buffer}
use stacks_blockchain_rosett.Wire.Reads.{Reads, LibraryLaws, All}
use stacks_blockchain_rosett.Wire.RoundTrip.Numbers.{length-be_bytes}
use stacks_blockchain_rosett.Wire.Encode.{be_bytes}
use stacks_blockchain_rosett.Wire.RoundTrip.Streams.{ReadableLaws, all_bytes, read_exact_whole}
use stacks_blockchain_rosett.Wire.Stream.{
  Readable, resolved, then_do, read_exact, read_buffer, read_fixed,
}
use stacks_blockchain_rosett.Wire.Messages.{
  preamble_fields, message_payload, parse_buffer, read_preamble, read_message, read_messages,
}
use stacks_blockchain_rosett.Wire.RoundTrip.Messages.{
  encode_preamble, length-encode_preamble, encode_relayers, encode_sent_payload, encode_sent, Sent,
  IsSendable, preamble-Reads, payload-Reads, encode_body,
}

module _ (lib : Library) (node : Readable) (stream : ReadableLaws node) where
  parse_buffer-Reads :
      {A : Type 0} (p : Read A) (bytes : Buffer) (a : A) (s : node.Stream)
      → Reads p bytes a
      → parse_buffer lib node p (from_buffer bytes) s ≡ resolved a s
  unfolding parse_buffer from_buffer
  parse_buffer-Reads p bytes a s reads =
      rw (reads.at (from_buffer bytes) [] (sym (append-nil bytes)), parse_buffer) refl

  -- Where the bytes of a stream begin with those that a parser reads, reading as many and parsing
  -- them gives the value, and leaves the bytes behind them.
  read_whole :
      {A : Type 0} (p : Read A) (fuel : ℕ) (s : node.Stream) (bytes rest : Buffer) (a : A)
      → 1 ≤ length bytes
      → all_bytes node stream s ≡ bytes ++ rest
      → length (stream.coming s) < fuel
      → Reads p bytes a
      → (t : node.Stream) × (then_do
            (read_fixed node fuel (length bytes) s)
            (parse_buffer lib node p)
          ≡ resolved a t)
        × (all_bytes node stream t ≡ rest)
        × (length (stream.coming t) ≤ length (stream.coming s))
  unfolding read_fixed read_buffer then_do
  read_whole p fuel s bytes rest a one there enough reads =
      let r =
        read_exact_whole node stream fuel (length bytes) s one
          (omega (arith, ap length there, length-append bytes rest)) enough in
      let got : take (length bytes) (all_bytes node stream s) ≡ bytes =
        ap (take (length bytes)) there ∙ take-length_append bytes rest in
      let read : read_exact node fuel (length bytes) s ≡ resolved bytes r.0 =
        r.1 ∙ ap (λ b. resolved b r.0) got in
      (
        r.0,
        rw (read, parse_buffer-Reads p bytes a r.0 reads) refl,
        r.2 ∙ (ap (drop (length bytes)) there ∙ drop-length_append bytes rest),
        r.3,
      )

  module _ (laws : LibraryLaws lib) where
    read_message-encode :
        (fuel : ℕ) (s : node.Stream) (m : Sent lib laws) (rest : Buffer)
        → IsSendable lib laws m
        → all_bytes node stream s ≡ encode_sent lib laws m ++ rest
        → length (stream.coming s) < fuel
        → (t : node.Stream) × (read_message lib node fuel s ≡ resolved m.message t)
          × (all_bytes node stream t ≡ rest)
          × (length (stream.coming t) ≤ length (stream.coming s))
    unfolding read_message read_preamble encode_sent encode_sent_payload then_do encode_relayers
    read_message-encode fuel s m rest fits there enough =
        let front = encode_preamble m.preamble in
        let payload = encode_sent_payload lib laws m in
        let size = length-encode_preamble m.preamble fits.preamble in
        let first =
          read_whole (preamble_fields lib) fuel s front (payload ++ rest) m.preamble
            (omega (arith, size)) (there ∙ append_assoc front payload rest) enough
            (preamble-Reads lib laws m.preamble fits.preamble) in
        let read : read_preamble lib node fuel s ≡ resolved m.preamble first.0 =
          ap (λ n. then_do (read_fixed node fuel n s) (parse_buffer lib node (preamble_fields lib)))
            (sym size)
          ∙ first.1 in
        let second =
          read_whole (message_payload lib) fuel first.0 payload rest m.message
            (omega (
              arith,
              length-append (be_bytes 4 m.relayers) m.relayer_data,
              length-append (be_bytes 4 m.relayers ++ m.relayer_data)
                  (encode_body lib laws m.message),
              length-be_bytes 4 m.relayers,
            ))
            first.2 (omega (arith, enough, first.3))
            (payload-Reads lib laws m.relayers m.relayer_data m.message fits.relayers
              fits.relayer_data fits.message) in
        let body : then_do (read_fixed node fuel m.preamble.payload_length first.0)
              (parse_buffer lib node (message_payload lib))
            ≡ resolved m.message second.0 =
          ap
            (λ n.
              then_do (read_fixed node fuel n first.0)
                (parse_buffer lib node (message_payload lib)))
            fits.payload_length
          ∙ second.1 in
        (second.0, rw (read, body) refl, second.2, omega (arith, second.3, first.3))

    unfoldable pub encode_all_sent : List (Sent lib laws) → Buffer
    encode_all_sent [] = []
    encode_all_sent (m ∷ ms) = encode_sent lib laws m ++ encode_all_sent ms

    -- For all messages of blocks and of transactions whose fields fit the wire format, in whatever
    -- chunks the bytes of a stream arrive that begins with their encodings: with more fuel than
    -- chunks are to come, as many rounds of `readMessages` as there are messages yield them all, in
    -- their order, if the stream is not destroyed.
    pub read_messages-encode :
        (destroyed : node.Stream → Bool) (fuel : ℕ) (ms : List (Sent lib laws)) (s : node.Stream)
        (rest : Buffer)
        → ((t : node.Stream) → destroyed t ≡ false)
        → All (IsSendable lib laws) ms
        → all_bytes node stream s ≡ encode_all_sent ms ++ rest
        → length (stream.coming s) < fuel
        → (read_messages lib node destroyed (length ms) fuel s).0
          ≡ map (λ (m : Sent lib laws). m.message) ms
    unfolding read_messages encode_all_sent
    read_messages-encode destroyed fuel [] s rest alive fits there enough = refl
    read_messages-encode destroyed fuel (m ∷ ms) s rest alive fits there enough =
        let others = encode_all_sent ms in
        let r =
          read_message-encode fuel s m (others ++ rest) fits.0
            (there ∙ append_assoc (encode_sent lib laws m) others rest) enough in
        let more =
          read_messages-encode destroyed fuel ms r.0 rest alive fits.1 r.2
            (omega (arith, enough, r.3)) in
        rw (alive s, r.1) (ap (◌∷◌ m.message) more)
