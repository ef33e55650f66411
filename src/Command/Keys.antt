-- ===== src/Command/Keys.antt =====
-- `parseAPIKeys`: none is the exit of the program on a key that is too short.
use carrier_gateway.Prelude.{
  ℕ, Text, is_empty, ltb, ◌≡◌, ◌≢◌, ◌≤◌, ◌⊎◌, inl, inr, Option, none, some, List, [], ◌∷◌, length,
  All, Bool-cases, if◌then◌else◌, arith,
}
use mathlib.Core.Path.{subst}
use carrier_gateway.Prelude.Parts.{split, trim_space, Lacks, split-Lacks, trim_space-All}

abbrev pub min_api_key_length : ℕ
min_api_key_length = 32

abbrev pub comma : ℕ
comma = 0x2C

abbrev keep_key : Text → Option (List Text) → Option (List Text)
keep_key k none = none
keep_key k (some ks) = some (k ∷ ks)

unfoldable pub check_keys : List Text → Option (List Text)
check_keys [] = some []
check_keys (p ∷ ps) =
    let rest = check_keys ps in
    let k = trim_space p in
    if is_empty k then rest else if ltb (length k) min_api_key_length then none else keep_key k rest

unfoldable pub parse_api_keys : Text → Option (List Text)
unfolding check_keys
parse_api_keys raw = check_keys (split comma raw)

abbrev nonempty : Option (List Text) → Option (List Text)
nonempty none = none
nonempty (some []) = none
nonempty (some (k ∷ ks)) = some (k ∷ ks)

-- The keys that the program starts with; it exits also if there is none.
unfoldable pub required_keys : Text → Option (List Text)
unfolding parse_api_keys
required_keys raw = nonempty (parse_api_keys raw)

-- The parts that are not empty.
abbrev pub drop_empty : List Text → List Text
drop_empty [] = []
drop_empty ([] ∷ ps) = drop_empty ps
drop_empty ((b ∷ k) ∷ ps) = (b ∷ k) ∷ drop_empty ps

-- What is left of the parts without the white space around them.
abbrev pub trimmed : List Text → List Text
trimmed [] = []
trimmed (p ∷ ps) = trim_space p ∷ trimmed ps

abbrev pub AllLong : List Text → Type 0
AllLong = All (λ k. min_api_key_length ≤ length k)

-- Exactly these keys are returned, if all of them are long enough.
abbrev Returns : List Text → Option (List Text) → Type 0
Returns ks o = (o ≡ some ks × AllLong ks) ⊎ (o ≡ none × (¬ (AllLong ks)))

abbrev IsKey : Text → Type 0
IsKey k = Lacks comma k × min_api_key_length ≤ length k

-- The keys that a check of the parts returns, if it does.
abbrev AllKeys : Option (List Text) → Type 0
AllKeys none = Unit
AllKeys (some ks) = All IsKey ks

keep_key-AllKeys :
    (k : Text) (o : Option (List Text)) → IsKey k → AllKeys o → AllKeys (keep_key k o)
keep_key-AllKeys k none h ho = tt
keep_key-AllKeys k (some ks) h ho = (h, ho)

checked-AllKeys :
    (k : Text) (rest : Option (List Text))
    → Lacks comma k
    → AllKeys rest
    → AllKeys (
        if is_empty k
        then rest
        else if ltb (length k) min_api_key_length
        then none
        else keep_key k rest)
checked-AllKeys [] rest l h = h
checked-AllKeys (b ∷ k) rest l h = elim (Bool-cases (ltb (length (b ∷ k)) min_api_key_length)) [
  | inl e ↦ rw e tt
  | inr e ↦ rw e (keep_key-AllKeys (b ∷ k) rest (l, ground arith) h)
]

check_keys-AllKeys : (ps : List Text) → All (Lacks comma) ps → AllKeys (check_keys ps)
unfolding check_keys
check_keys-AllKeys [] h = tt
check_keys-AllKeys (p ∷ ps) h =
    checked-AllKeys (trim_space p) (check_keys ps) (trim_space-All (λ c. c ≢ comma) p h.0)
      (check_keys-AllKeys ps h.1)

-- What the parser returns: every key has 32 bytes at least and no comma.
pub parse_api_keys-All :
    (raw : Text) (ks : List Text)
    → parse_api_keys raw ≡ some ks
    → All (λ k. Lacks comma k × min_api_key_length ≤ length k) ks
unfolding parse_api_keys
parse_api_keys-All raw ks e =
    subst AllKeys e (check_keys-AllKeys (split comma raw) (split-Lacks comma raw))
