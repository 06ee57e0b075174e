-- ===== src/Api/Terms.antt =====
-- src/helpers.ts: `isValidPrincipal`, `has0xPrefix`, `normalizeHashString` and `parsePort`, and
-- src/api/pagination.ts. `c32addressDecode` of c32check is a parameter.
use stacks_blockchain_rosett.Base.{
  ℕ, zero, suc, ◌+◌, ◌*◌, ◌-◌, ◌/◌, ◌%◌, ◌^◌, Bool, true, false, not, ◌&&◌, ◌||◌, String, [], ◌∷◌,
  Option, none, some, Result, ok, err, length, drop, leb, ltb, ◌==◌, if◌then◌else◌,
}
use stacks_blockchain_rosett.Wire.Reader.{Error, message_error, library_error, Buffer}
use stacks_blockchain_rosett.Wire.Tx.{Text}
use stacks_blockchain_rosett.Events.Hex.{from_hex, to_hex}

unfoldable pub is_letter : ℕ → Bool
is_letter c = (leb 97 c && leb c 122) || (leb 65 c && leb c 90)

unfoldable pub is_digit : ℕ → Bool
is_digit c = leb 48 c && leb c 57

-- `([a-zA-Z0-9]|[-_])`
unfoldable pub is_name_char : ℕ → Bool
is_name_char c = is_letter c || (is_digit c || (c == 45 || c == 95))

unfoldable pub all_chars : (ℕ → Bool) → Text → Bool
all_chars p [] = true
all_chars p (c ∷ cs) = let rest = all_chars p cs in p c && rest

-- `/^[a-zA-Z]([a-zA-Z0-9]|[-_])*$/`
unfoldable pub matches_name : Text → Bool
matches_name [] = false
matches_name (c ∷ cs) = is_letter c && all_chars is_name_char cs

unfoldable pub is_valid_contract_name : Text → Bool
is_valid_contract_name contract_name =
    if ltb 128 (length contract_name) || ltb (length contract_name) 5
    then false
    else matches_name contract_name

-- `principal.includes('.')`
unfoldable pub includes_dot : Text → Bool
includes_dot [] = false
includes_dot (c ∷ cs) = let rest = includes_dot cs in c == 46 || rest

-- The part before the first dot, and what follows that dot.
unfoldable pub before_dot : Text → Text
before_dot [] = []
before_dot (c ∷ cs) = let rest = before_dot cs in if c == 46 then [] else c ∷ rest

unfoldable pub after_dot : Text → Text
after_dot [] = []
after_dot (c ∷ cs) = let rest = after_dot cs in if c == 46 then cs else rest

pub data PrincipalType : Type 0 where
  standard_address contract_address : PrincipalType

module _ {Decoded : Type 0} (c32address_decode : Text → Result Error Decoded) where
  unfoldable pub is_valid_c32_address : Text → Bool
  is_valid_c32_address stx_address = elim (c32address_decode stx_address) [
    | ok decoded ↦ true
    | err e ↦ false
  ]

  -- `const [addr, contractName] = principal.split('.')` takes the first two parts.
  unfoldable pub is_valid_principal : Text → Option PrincipalType
  is_valid_principal [] = none
  is_valid_principal (c ∷ cs) =
      let principal = c ∷ cs in
      if includes_dot principal
      then (if not (is_valid_c32_address (before_dot principal))
          then none
          else if not (is_valid_contract_name (before_dot (after_dot principal)))
          then none
          else some contract_address)
      else if is_valid_c32_address principal
      then some standard_address
      else none

-- `id.substr(0, 2).toLowerCase() === '0x'`
unfoldable pub has_0x_prefix : Text → Bool
has_0x_prefix [] = false
has_0x_prefix (c ∷ []) = false
has_0x_prefix (c ∷ d ∷ cs) = c == 48 && (d == 120 || d == 88)

-- The bytes of a term of the length of a hash, with its prefix or without.
unfoldable pub hash_buffer : Text → Option Buffer
hash_buffer input =
    if length input == 66 && has_0x_prefix input
    then some (from_hex (drop 2 input))
    else if length input == 64
    then some (from_hex input)
    else none

unfoldable pub if_32_bytes : Option Buffer → Option Text
if_32_bytes none = none
if_32_bytes (some buffer) = if length buffer == 32 then some (48 ∷ 120 ∷ to_hex buffer) else none

unfoldable pub normalize_hash_string : Text → Option Text
normalize_hash_string input = if_32_bytes (hash_buffer input)

-- The number that digits spell.
unfoldable pub parse_digits : ℕ → Text → ℕ
parse_digits acc [] = acc
parse_digits acc (c ∷ cs) = parse_digits (acc * 10 + (c - 48)) cs

-- A JavaScript number that is no fraction and not negative: a double, or `Infinity`.
pub data JsNumber : Type 0 where
  finite : ℕ → JsNumber
  infinity : JsNumber

-- The multiple of `step` that is nearest, and of two the one that is even.
unfoldable pub nearest_multiple : (step n : ℕ) → ℕ
nearest_multiple step n =
    let q = n / step in
    let r = n % step in
    if ltb step (2 * r) || (2 * r == step && q % 2 == 1) then suc q * step else q * step

-- Doubling the step until the significand has 53 bits. A double has a step of at most 2 ^ 971, which
-- is the last of 972, and is less than 2 ^ 1024.
unfoldable pub round_to_double : (fuel step n : ℕ) → JsNumber
round_to_double zero step n = infinity
round_to_double (suc fuel) step n = elim (ltb (n / step) 9007199254740992) [
  | true ↦
      let value = nearest_multiple step n in if ltb value (2 ^ 1024) then finite value else infinity
  | false ↦ round_to_double fuel (2 * step) n
]

-- The double nearest to a number.
unfoldable pub double_of : ℕ → JsNumber
double_of n = if ltb n 9007199254740992 then finite n else round_to_double 972 1 n

-- A query value: a number, a string, or something else.
pub data QueryValue : Type 0 where
  query_number : ℕ → QueryValue
  query_string : Text → QueryValue
  query_other : QueryValue

-- `/^\d+$/`
unfoldable pub all_digits : Text → Bool
all_digits [] = false
all_digits (c ∷ cs) = all_chars is_digit (c ∷ cs)

-- `parseInt(val, 10)` gives the double nearest to the number that the digits spell.
unfoldable pub parse_paging_query_input : QueryValue → Result Error JsNumber
parse_paging_query_input (query_number n) = ok (finite n)
parse_paging_query_input query_other =
    err (message_error "Input must be either typeof `string` or `number`")
parse_paging_query_input (query_string val) =
    if all_digits val
    then ok (double_of (parse_digits 0 val))
    else err (message_error "`limit` and `offset` must be integers")

unfoldable pub limit_or_error : ℕ → String → Result Error JsNumber → Result Error ℕ
limit_or_error max_items error_msg (err e) = err e
limit_or_error max_items error_msg (ok infinity) = err (message_error error_msg)
limit_or_error max_items error_msg (ok (finite limit)) =
    if ltb max_items limit then err (message_error error_msg) else ok limit

unfoldable pub parse_limit_query : (max_items : ℕ) → String → QueryValue → Result Error ℕ
parse_limit_query max_items error_msg val =
    limit_or_error max_items error_msg (parse_paging_query_input val)

-- A number as the parameter of a query's `OFFSET`, a `bigint`. The server refuses one that is too
-- large, or that is not written in digits, as from 10 ^ 21 on; the message is given without the
-- value. From 2 ^ 53 on, where JavaScript writes zeros for the last digits, the number itself stands
-- for what it writes: no table has as many rows.
unfoldable pub bigint_parameter : JsNumber → Result Error ℕ
bigint_parameter infinity = err (library_error "invalid input syntax for type bigint")
bigint_parameter (finite n) =
    if ltb n 9223372036854775808
    then ok n
    else if ltb n (10 ^ 21)
    then err (library_error "value is out of range for type bigint")
    else err (library_error "invalid input syntax for type bigint")
