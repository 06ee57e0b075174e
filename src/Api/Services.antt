-- ===== src/Api/Services.antt =====
-- What src/api takes from third-party packages, and the helpers of src/helpers.ts that it uses on
-- optional values, numbers and times.
use stacks_blockchain_rosett.Base.{
  ℕ, zero, suc, ◌+◌, ◌-◌, ◌*◌, ◌/◌, ◌%◌, String, true, false, List, [], ◌∷◌, ◌++◌, Option, none,
  some, Result, ok, err, and_then, ltb, units, if◌then◌else◌,
}
use stacks_blockchain_rosett.Wire.Signed.{ℤ, pos, negsuc}
use stacks_blockchain_rosett.Wire.Reader.{Error, message_error, Buffer, Library, from_buffer}
use stacks_blockchain_rosett.Wire.Tx.{Text}

infixl 5 ◌>>=◌
abbrev pub ◌>>=◌ {ℓ κ} :
    {A : Type ℓ} {B : Type κ} → Result Error A → (A → Result Error B) → Result Error B
m >>= f = and_then m f

pub record FunctionArgAbi (AbiType : Type 0) : Type 0 where
  pub name : Text
  pub arg_type : AbiType

pub record FunctionAbi (AbiType : Type 0) : Type 0 where
  pub name : Text
  pub args : List (FunctionArgAbi AbiType)

-- c32check, @blockstack/stacks-transactions, and the ABI that `JSON.parse` makes of a stored text.
pub record ApiServices (ClarityValue : Type 0) : Type 1 where
  pub AbiType : Type 0
  pub c32address : ℕ → Text → Result Error Text
  pub serialize_cv : ClarityValue → Buffer
  pub cv_to_string : ClarityValue → Text
  pub parse_abi_functions : Text → Result Error (List (FunctionAbi AbiType))
  pub abi_function_to_string : FunctionAbi AbiType → Text
  pub get_type_string : AbiType → Text

-- `assertNotNullish`
unfoldable pub unwrap_optional {ℓ} : {A : Type ℓ} → Option A → String → Result Error A
unwrap_optional none message = err (message_error message)
unwrap_optional (some a) message = ok a

-- `deserializeCV` on a buffer.
unfoldable pub deserialize_cv : (lib : Library) → Buffer → Result Error lib.ClarityValue
deserialize_cv lib buffer = lib.deserialize_cv (from_buffer buffer) >>= λ p. ok p.0

-- The decimal digits of a number below 10 ^ `fuel`.
unfoldable pub digits : (fuel : ℕ) → ℕ → Text
digits zero n = []
digits (suc fuel) n = elim (ltb n 10) [
  | true ↦ (48 + n) ∷ []
  | false ↦ digits fuel (n / 10) ++ ((48 + n % 10) ∷ [])
]

-- `toString(10)`
unfoldable pub decimal_ℕ : ℕ → Text
decimal_ℕ n = digits (suc n) n

unfoldable pub decimal : ℤ → Text
decimal (pos n) = decimal_ℕ n
decimal (negsuc n) = 45 ∷ decimal_ℕ (suc n)

-- `n` with zeros in front, in four digits at most.
abbrev two_digits : ℕ → Text
two_digits n = (48 + n / 10 % 10) ∷ (48 + n % 10) ∷ []

abbrev four_digits : ℕ → Text
four_digits n = two_digits (n / 100) ++ two_digits (n % 100)

pub record CivilDate : Type 0 where
  pub year : ℕ
  pub month : ℕ
  pub day : ℕ

-- The date of a day counted from 1970-01-01, by cycles of 400 years that start in March of year 0.
unfoldable pub civil_date : ℕ → CivilDate
civil_date days =
    let z = days + 719468 in
    let era = z / 146097 in
    let day_of_era = z % 146097 in
    let year_of_era =
      (day_of_era - day_of_era / 1460 + day_of_era / 36524 - day_of_era / 146096) / 365 in
    let day_of_year = day_of_era - (365 * year_of_era + year_of_era / 4 - year_of_era / 100) in
    let march_month = (5 * day_of_year + 2) / 153 in
    let month = if ltb march_month 10 then march_month + 3 else march_month - 9 in
    record {
      year = year_of_era + era * 400 + (if ltb month 3 then 1 else 0);
      month = month;
      day = day_of_year - (153 * march_month + 2) / 5 + 1;
    }

-- `unixEpochToIso`: `YYYY-MM-DDTHH:mm:ss.sssZ`, for the years that have four digits.
unfoldable pub unix_epoch_to_iso : ℕ → Text
unix_epoch_to_iso timestamp =
    let date = civil_date (timestamp / 86400) in
    let second = timestamp % 86400 in
    four_digits date.year
    ++ (45 ∷ two_digits date.month
        ++ (45 ∷ two_digits date.day
            ++ (84 ∷ two_digits (second / 3600)
                ++ (58 ∷ two_digits (second / 60 % 60)
                    ++ (58 ∷ two_digits (second % 60) ++ units ".000Z")))))
