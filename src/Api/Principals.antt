-- ===== src/Api/Principals.antt =====
-- Which texts `isValidPrincipal` takes for a contract.
use stacks_blockchain_rosett.Base.{
  ◌≡◌, ◌↔◌, inl, inr, refl, ap, ◌∙◌, Bool, true, false, ◌||◌, [], ◌∷◌, ◌++◌, some, Result, ◌==◌,
  Bool-cases, arith,
}
use stacks_blockchain_rosett.Wire.Reader.{Error}
use stacks_blockchain_rosett.Wire.Tx.{Text}
use stacks_blockchain_rosett.Api.Terms.{
  is_letter, is_digit, is_name_char, all_chars, matches_name, is_valid_contract_name, includes_dot,
  before_dot, after_dot, contract_address, is_valid_c32_address, is_valid_principal,
}

abbrev pub HasNoDot : Text → Type 0
HasNoDot s = includes_dot s ≡ false

-- Empty, or a dot and more.
abbrev pub IsRest : Text → Type 0
IsRest [] = Unit
IsRest (c ∷ cs) = c ≡ 46

split_dot :
    (p : Text)
    → includes_dot p ≡ true
    → (p ≡ before_dot p ++ (46 ∷ after_dot p)) × HasNoDot (before_dot p)
unfolding includes_dot before_dot after_dot
split_dot [] h = absurd (cc)
split_dot (c ∷ cs) h = elim (Bool-cases (c == 46)) [
  | inl t ↦ rw t (let e : c ≡ 46 = ground arith in rw e refl, refl)
  | inr f ↦
      let r = split_dot cs (cc) in
      let kept : includes_dot (c ∷ before_dot cs) ≡ false = let q = r.1 in cc in
      rw f (ap (◌∷◌ c) r.0, kept)
]

before_dot-append : (s rest : Text) → HasNoDot s → IsRest rest → before_dot (s ++ rest) ≡ s
unfolding includes_dot before_dot
before_dot-append [] [] h r = refl
before_dot-append [] (c ∷ cs) h r = rw r refl
before_dot-append (c ∷ cs) rest h r = elim (Bool-cases (c == 46)) [
  | inl t ↦ absurd (cc)
  | inr f ↦ rw f (ap (◌∷◌ c) (before_dot-append cs rest (cc) r))
]

after_dot-append : (s t : Text) → HasNoDot s → after_dot (s ++ (46 ∷ t)) ≡ t
unfolding includes_dot after_dot
after_dot-append [] t h = refl
after_dot-append (c ∷ cs) t h = elim (Bool-cases (c == 46)) [
  | inl d ↦ absurd (cc)
  | inr f ↦ rw f (after_dot-append cs t (cc))
]

includes_dot-append : (s t : Text) → includes_dot (s ++ (46 ∷ t)) ≡ true
unfolding includes_dot
includes_dot-append [] t = refl
includes_dot-append (c ∷ cs) t = rw (includes_dot-append cs t) (or_true (c == 46))
  where
    or_true : (b : Bool) → (b || true) ≡ true
    or_true true = refl
    or_true false = refl

-- The first part, and the others with their dots.
first_part : (q : Text) → (rest : Text) × (q ≡ before_dot q ++ rest) × IsRest rest
unfolding before_dot
first_part [] = ([], refl, tt)
first_part (c ∷ cs) = elim (Bool-cases (c == 46)) [
  | inl t ↦ rw t (c ∷ cs, refl, ground arith)
  | inr f ↦ let r = first_part cs in rw f (r.0, ap (◌∷◌ c) r.1, r.2)
]

name_char-HasNoDot : (cs : Text) → all_chars is_name_char cs ≡ true → HasNoDot cs
unfolding all_chars is_name_char is_letter is_digit includes_dot
name_char-HasNoDot [] h = refl
name_char-HasNoDot (c ∷ cs) h = ground (arith, name_char-HasNoDot cs)

contract_name-HasNoDot : (name : Text) → is_valid_contract_name name ≡ true → HasNoDot name
unfolding is_valid_contract_name matches_name is_letter includes_dot
contract_name-HasNoDot [] h = refl
contract_name-HasNoDot (c ∷ cs) h = ground (arith, name_char-HasNoDot cs)

module _ {Decoded : Type 0} (c32address_decode : Text → Result Error Decoded) where
  contract_parts :
      (p : Text)
      → is_valid_principal c32address_decode p ≡ some contract_address
      → (includes_dot p ≡ true)
        × (is_valid_c32_address c32address_decode (before_dot p) ≡ true)
        × (is_valid_contract_name (before_dot (after_dot p)) ≡ true)
  unfolding is_valid_principal
  contract_parts [] h = absurd (cc)
  contract_parts (c ∷ cs) h = elim (Bool-cases (includes_dot (c ∷ cs))) [
    | inl dot ↦ elim (Bool-cases (is_valid_c32_address c32address_decode (before_dot (c ∷ cs)))) [
      | inl addr ↦ elim (Bool-cases (is_valid_contract_name (before_dot (after_dot (c ∷ cs))))) [
        | inl name ↦ (dot, addr, name)
        | inr no_name ↦ absurd (cc)
      ]
      | inr no_addr ↦ absurd (cc)
    ]
    | inr no_dot ↦ elim (Bool-cases (is_valid_c32_address c32address_decode (c ∷ cs))) [
      | inl addr ↦ absurd (cc)
      | inr no_addr ↦ absurd (cc)
    ]
  ]

  contract_of_parts :
      (p : Text)
      → includes_dot p ≡ true
      → is_valid_c32_address c32address_decode (before_dot p) ≡ true
      → is_valid_contract_name (before_dot (after_dot p)) ≡ true
      → is_valid_principal c32address_decode p ≡ some contract_address
  unfolding is_valid_principal includes_dot
  contract_of_parts [] dot addr name = absurd (cc)
  contract_of_parts (c ∷ cs) dot addr name = cc

  -- `isValidPrincipal` takes a text for a contract exactly if the text is an address that c32check
  -- decodes, a dot and a valid contract name, with nothing behind it or with a further dot and any text
  -- behind that, which the source ignores.
  pub is_valid_principal_contract :
      (principal : Text)
      → (is_valid_principal c32address_decode principal ≡ some contract_address) ↔ (
          (addr : Text) × (name : Text) × (rest : Text) × (principal
            ≡ addr ++ (46 ∷ (name ++ rest)))
          × HasNoDot addr
          × (is_valid_c32_address c32address_decode addr ≡ true)
          × (is_valid_contract_name name ≡ true)
          × IsRest rest)
  is_valid_principal_contract p = (
    λ h.
        let parts = contract_parts p h in
        let split = split_dot p parts.0 in
        let more = first_part (after_dot p) in
        (
          before_dot p,
          before_dot (after_dot p),
          more.0,
          split.0 ∙ ap (λ q. before_dot p ++ (46 ∷ q)) more.1,
          split.1,
          parts.1,
          parts.2,
          more.2,
        ),
    λ (addr, name, rest, e, no_dot, valid_addr, valid_name, is_rest).
        let tail = name ++ rest in
        let first = before_dot-append addr (46 ∷ tail) no_dot refl in
        let after = after_dot-append addr tail no_dot in
        let second = before_dot-append name rest (contract_name-HasNoDot name valid_name) is_rest in
        rw e (
          contract_of_parts (addr ++ (46 ∷ tail)) (includes_dot-append addr tail)
            (rw first valid_addr) (rw (after, second) valid_name)),
  )
