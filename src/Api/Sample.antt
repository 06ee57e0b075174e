-- ===== src/Api/Sample.antt =====
-- The third-party functions of the API, filled with functions that run.
use stacks_blockchain_rosett.Base.{ℕ, [], ◌∷◌, ok}
use stacks_blockchain_rosett.Api.Services.{ApiServices}

-- A Clarity value is one byte, and an ABI has no functions.
abbrev pub sample_api : ApiServices ℕ
sample_api = record {
  AbiType = ℕ;
  c32address = λ version text. ok (version ∷ text);
  serialize_cv = λ v. v ∷ [];
  cv_to_string = λ v. v ∷ [];
  parse_abi_functions = λ text. ok [];
  abi_function_to_string = λ f. f.name;
  get_type_string = λ t. t ∷ [];
}
