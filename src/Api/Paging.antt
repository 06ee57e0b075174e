-- ===== src/Api/Paging.antt =====
-- What `parseLimitQuery` makes of a number that is written in decimal.
use stacks_blockchain_rosett.Base.{
  ℕ, zero, suc, ◌+◌, ◌*◌, ◌-◌, ◌/◌, ◌%◌, ◌<◌, ◌≤◌, ◌≡◌, refl, true, false, String, [], ◌∷◌, ◌++◌,
  ok, err, ltb, if◌then◌else◌, Bool-cases, inl, inr, arith, length, length-append, lt→ltb,
}
use stacks_blockchain_rosett.Wire.Reader.{message_error}
use stacks_blockchain_rosett.Wire.Tx.{Text}
use stacks_blockchain_rosett.Api.Services.{digits, decimal_ℕ}
use stacks_blockchain_rosett.Api.Terms.{
  is_digit, all_chars, parse_digits, finite, double_of, all_digits, query_string,
  parse_paging_query_input, limit_or_error, parse_limit_query,
}

parse_digits-append :
    (acc : ℕ) (s t : Text) → parse_digits acc (s ++ t) ≡ parse_digits (parse_digits acc s) t
unfolding parse_digits
parse_digits-append acc [] t = refl
parse_digits-append acc (c ∷ s) t = parse_digits-append (acc * 10 + (c - 48)) s t

all_chars-append :
    (s : Text) (c : ℕ)
    → all_chars is_digit s ≡ true
    → is_digit c ≡ true
    → all_chars is_digit (s ++ (c ∷ [])) ≡ true
unfolding all_chars
all_chars-append [] c h k = rw k refl
all_chars-append (d ∷ s) c h k = elim (Bool-cases (is_digit d)) [
  | inl t ↦ rw t (all_chars-append s c (cc) k)
  | inr f ↦ absurd (cc)
]

digits-small : (fuel n : ℕ) → ltb n 10 ≡ true → digits (suc fuel) n ≡ (48 + n) ∷ []
unfolding digits
digits-small fuel n h = ground arith

digits-large :
    (fuel n : ℕ)
    → ltb n 10 ≡ false
    → digits (suc fuel) n ≡ digits fuel (n / 10) ++ ((48 + n % 10) ∷ [])
unfolding digits
digits-large fuel n h = ground arith

parse_one : (acc c : ℕ) → parse_digits acc (c ∷ []) ≡ acc * 10 + (c - 48)
unfolding parse_digits
parse_one acc c = refl

parse_digits-digits : (fuel n : ℕ) → n < fuel → parse_digits 0 (digits fuel n) ≡ n
parse_digits-digits zero n h = absurd (omega (arith, h))
parse_digits-digits (suc fuel) n h = elim (Bool-cases (ltb n 10)) [
  | inl t ↦ rw (digits-small fuel n t, parse_one 0 (48 + n)) (omega arith)
  | inr f ↦
      let big : 10 ≤ n = ground arith in
      let rest = parse_digits-digits fuel (n / 10) (omega (arith, h, big)) in
      rw
        (
          digits-large fuel n f,
          parse_digits-append 0 (digits fuel (n / 10)) ((48 + n % 10) ∷ []),
          rest,
          parse_one (n / 10) (48 + n % 10),
        )
        (omega arith)
]

digit-is_digit : (n : ℕ) → n < 10 → is_digit (48 + n) ≡ true
unfolding is_digit
digit-is_digit n h = ground arith

digits-all_chars : (fuel n : ℕ) → all_chars is_digit (digits fuel n) ≡ true
unfolding all_chars digits
digits-all_chars zero n = refl
digits-all_chars (suc fuel) n = elim (Bool-cases (ltb n 10)) [
  | inl t ↦ rw (digits-small fuel n t, digit-is_digit n (ground arith)) refl
  | inr f ↦ rw (digits-large fuel n f) (
      all_chars-append (digits fuel (n / 10)) (48 + n % 10) (digits-all_chars fuel (n / 10))
        (digit-is_digit (n % 10) (omega arith)))
]

all_digits_of : (s : Text) → 1 ≤ length s → all_chars is_digit s ≡ true → all_digits s ≡ true
unfolding all_digits
all_digits_of [] h k = absurd (omega (arith, h))
all_digits_of (c ∷ cs) h k = k

digits-nonempty : (fuel n : ℕ) → 1 ≤ length (digits (suc fuel) n)
digits-nonempty fuel n = elim (Bool-cases (ltb n 10)) [
  | inl t ↦ rw (digits-small fuel n t) (omega arith)
  | inr f ↦
      rw (digits-large fuel n f)
        (omega (arith, length-append (digits fuel (n / 10)) ((48 + n % 10) ∷ [])))
]

-- A number below 2 ^ 53 written in decimal is parsed as itself, and `parseLimitQuery` then throws the
-- given message if it is greater than the maximum, and returns it otherwise.
pub parse_limit_query-decimal_ℕ :
    (max_items : ℕ) (error_msg : String) (n : ℕ)
    → n < 9007199254740992
    → (parse_paging_query_input (query_string (decimal_ℕ n)) ≡ ok (finite n))
      × (parse_limit_query max_items error_msg (query_string (decimal_ℕ n))
          ≡ (if ltb max_items n then err (message_error error_msg) else ok n))
unfolding parse_limit_query limit_or_error parse_paging_query_input decimal_ℕ double_of
parse_limit_query-decimal_ℕ max_items error_msg n small =
    let there =
      all_digits_of (digits (suc n) n) (digits-nonempty n n) (digits-all_chars (suc n) n) in
    let value = parse_digits-digits (suc n) n (omega arith) in
    let exact = lt→ltb n 9007199254740992 small in rw (there, value, exact) (refl, refl)
