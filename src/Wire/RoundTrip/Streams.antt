-- ===== src/Wire/RoundTrip/Streams.antt =====
-- Exact reads from a stream: they do not depend on the chunks in which the bytes arrive.
use stacks_blockchain_rosett.Base.{
  ℕ, zero, suc, ◌≤◌, ◌<◌, ◌≡◌, refl, sym, ap, ap₂, ◌∙◌, subst, inl, inr, List, [], ◌∷◌, ◌++◌, none,
  some, length, length-append, take, drop, ltb, ◌==◌, ==_iff, true, Bool-cases, append_assoc, arith,
}
use stacks_blockchain_rosett.Wire.Reader.{Buffer}
use stacks_blockchain_rosett.Wire.Stream.{Readable, resolved, on_chunk, read_exact}

-- The bytes of chunks, one behind the other.
abbrev pub joined : List Buffer → Buffer
joined [] = []
joined (c ∷ cs) = c ++ joined cs

-- Documented behaviour of Node's readable streams: `read(n)` for n of 1 or more returns n bytes where as
-- many are buffered, and null, changing nothing, where they are not and more chunks are to come; a
-- chunk that comes is put behind the buffered bytes, with an event.
pub record ReadableLaws (node : Readable) : Type 0 where
  pub buffered : node.Stream → Buffer
  pub coming : node.Stream → List Buffer
  pub read_enough :
      (n : ℕ) (s : node.Stream)
      → 1 ≤ n
      → n ≤ length (buffered s)
      → ((node.read n s).0 ≡ some (take n (buffered s)))
        × (buffered (node.read n s).1 ≡ drop n (buffered s))
        × (coming (node.read n s).1 ≡ coming s)
  pub read_short :
      (n : ℕ) (s : node.Stream) (c : Buffer) (cs : List Buffer)
      → length (buffered s) < n
      → coming s ≡ c ∷ cs
      → node.read n s ≡ (none, s)
  pub next_event :
      (s : node.Stream) (c : Buffer) (cs : List Buffer)
      → coming s ≡ c ∷ cs
      → (t : node.Stream) × (node.next_readable s ≡ some t)
        × (buffered t ≡ buffered s ++ c)
        × (coming t ≡ cs)

take_append : (n : ℕ) (b r : Buffer) → n ≤ length b → take n (b ++ r) ≡ take n b
take_append zero b r h = refl
take_append (suc n) [] r h = absurd (omega (arith, h))
take_append (suc n) (x ∷ b) r h = ap (◌∷◌ x) (take_append n b r (omega (arith, h)))

drop_append : (n : ℕ) (b r : Buffer) → n ≤ length b → drop n (b ++ r) ≡ drop n b ++ r
drop_append zero b r h = refl
drop_append (suc n) [] r h = absurd (omega (arith, h))
drop_append (suc n) (x ∷ b) r h = drop_append n b r (omega (arith, h))

length-take : (n : ℕ) (b : Buffer) → n ≤ length b → length (take n b) ≡ n
length-take zero b h = refl
length-take (suc n) [] h = absurd (omega (arith, h))
length-take (suc n) (x ∷ b) h = ap suc (length-take n b (omega (arith, h)))

module _ (node : Readable) (laws : ReadableLaws node) where
  -- All the bytes that a stream still gives.
  abbrev pub all_bytes : node.Stream → Buffer
  all_bytes s = laws.buffered s ++ joined (laws.coming s)

  -- What a read of n bytes leaves: the bytes behind them, with no more chunks to come than before.
  abbrev pub ReadsExactly : (n fuel : ℕ) → node.Stream → Type 0
  ReadsExactly n fuel s =
      (t : node.Stream) × (read_exact node fuel n s ≡ resolved (take n (all_bytes s)) t)
      × (all_bytes t ≡ drop n (all_bytes s))
      × (length (laws.coming t) ≤ length (laws.coming s))

  exact_chunk :
      (fuel n : ℕ) (s : node.Stream) (chunk : Buffer)
      → (node.read n s).0 ≡ some chunk
      → length chunk ≡ n
      → read_exact node (suc fuel) n s ≡ resolved chunk (node.read n s).1
  unfolding read_exact on_chunk
  exact_chunk fuel n s chunk e size =
      let fits : (length chunk == n) ≡ true = (==_iff (length chunk) n).1 size in
      rw (e, fits, read_exact, on_chunk) refl

  exact_later :
      (fuel n : ℕ) (s t : node.Stream)
      → node.read n s ≡ (none, s)
      → node.next_readable s ≡ some t
      → read_exact node (suc fuel) n s ≡ read_exact node fuel n t
  unfolding read_exact
  exact_later fuel n s t e next =
      let nothing : (node.read n s).0 ≡ none = ap (λ p. p.0) e in
      let later : node.next_readable (node.read n s).1 ≡ some t =
        ap (λ p. node.next_readable p.1) e ∙ next in
      rw (nothing, later, read_exact) refl

  read_at_once :
      (fuel n : ℕ) (s : node.Stream)
      → 1 ≤ n
      → n ≤ length (laws.buffered s)
      → ReadsExactly n (suc fuel) s
  read_at_once fuel n s one enough =
      let r = laws.read_enough n s one enough in
      let b = laws.buffered s in
      let rest = joined (laws.coming s) in
      let size = length-take n b enough in
      (
        (node.read n s).1,
        exact_chunk fuel n s (take n b) r.0 size
            ∙ ap (λ bytes. resolved bytes (node.read n s).1) (sym (take_append n b rest enough)),
        ap₂ (λ left chunks. left ++ joined chunks) r.1 r.2 ∙ sym (drop_append n b rest enough),
        omega (arith, ap length r.2),
      )

  -- One event further, where more chunks are to come.
  read_after_event :
      (fuel n : ℕ) (s : node.Stream) (chunks : List Buffer)
      → laws.coming s ≡ chunks
      → length (laws.buffered s) < n
      → n ≤ length (all_bytes s)
      → ((t : node.Stream)
          → n ≤ length (all_bytes t)
          → suc (length (laws.coming t)) ≡ length (laws.coming s)
          → ReadsExactly n fuel t)
      → ReadsExactly n (suc fuel) s
  read_after_event fuel n s [] e short there ih =
      let k : n ≤ length (laws.buffered s ++ []) =
        subst (λ cs. n ≤ length (laws.buffered s ++ joined cs)) e there in
      absurd (omega (arith, k, short, length-append (laws.buffered s) []))
  read_after_event fuel n s (c ∷ cs) e short there ih =
      let next = laws.next_event s c cs e in
      let same : all_bytes next.0 ≡ all_bytes s =
        ap₂ (λ left chunks. left ++ joined chunks) next.2 next.3
        ∙ (append_assoc (laws.buffered s) c (joined cs)
            ∙ ap (λ chunks. laws.buffered s ++ joined chunks) (sym e)) in
      let fewer : suc (length (laws.coming next.0)) ≡ length (laws.coming s) =
        omega (arith, ap length e, ap length next.3) in
      let r = ih next.0 (subst (λ b. n ≤ length b) (sym same) there) fewer in
      (
        r.0,
        exact_later fuel n s next.0 (laws.read_short n s c cs short e) next.1
            ∙ (r.1 ∙ ap (λ b. resolved (take n b) r.0) same),
        r.2 ∙ ap (drop n) same,
        omega (arith, r.3, fewer),
      )

  pub read_exact_whole :
      (fuel n : ℕ) (s : node.Stream)
      → 1 ≤ n
      → n ≤ length (all_bytes s)
      → length (laws.coming s) < fuel
      → ReadsExactly n fuel s
  read_exact_whole zero n s one there enough = absurd (omega (arith, enough))
  read_exact_whole (suc fuel) n s one there enough =
      elim (Bool-cases (ltb (length (laws.buffered s)) n)) [
        | inr f ↦ read_at_once fuel n s one (ground arith)
        | inl t ↦
            read_after_event fuel n s (laws.coming s) refl (ground arith) there (λ next more fewer.
              read_exact_whole fuel n next one more (omega (arith, enough, fewer)))
      ]
