-- ===== src/Tests/Format.antt =====
-- A word format with one word for each value, and that it is lawful.
use aragon_zk_governance.Common.{ℕ, String, ◌≡◌, refl, Option, none, some, List, [], ◌∷◌, ◌++◌}
use aragon_zk_governance.Config.{Address, Tally}
use aragon_zk_governance.Steel.{Env}
use aragon_zk_governance.Stdin.{Codec, Wire, IsLawfulWire, IsCanonical}

pub data Word : Type 0 where
  env_word : Env → Word
  string_word : String → Word
  address_word : Address → Word
  u256_word : ℕ → Word
  u8_word : ℕ → Word
  tally_word : Tally → Word

-- A codec of one word for each value.
abbrev pub one_word : {A : Type 0} → (A → Word) → (Word → Option A) → Codec Word A
one_word {A} w r = record { write = λ a. w a ∷ []; read = first }
  where
    first : List Word → Option (A × List Word)
    first [] = none
    first (x ∷ rest) = elim (r x) [ none ↦ none | some a ↦ some (a, rest) ]

abbrev pub as_env : Word → Option Env
as_env (env_word e) = some e
as_env _ = none

abbrev pub as_string : Word → Option String
as_string (string_word s) = some s
as_string _ = none

abbrev pub as_address : Word → Option Address
as_address (address_word a) = some a
as_address _ = none

abbrev pub as_u256 : Word → Option ℕ
as_u256 (u256_word n) = some n
as_u256 _ = none

abbrev pub as_u8 : Word → Option ℕ
as_u8 (u8_word n) = some n
as_u8 _ = none

abbrev pub as_tally : Word → Option Tally
as_tally (tally_word t) = some t
as_tally _ = none

abbrev pub wire : Wire
wire = record {
  Word = Word;
  Input = Env;
  into_env = some;
  input = one_word env_word as_env;
  string = one_word string_word as_string;
  address = one_word address_word as_address;
  u256 = one_word u256_word as_u256;
  u8 = one_word u8_word as_u8;
  tally = one_word tally_word as_tally;
}

pub wire-IsLawful : IsLawfulWire wire
wire-IsLawful = record {
  input = record { read-write = λ a rest. refl };
  string = record { read-write = λ a rest. refl };
  address = record { read-write = λ a rest. refl };
  u256 = record { read-write = λ a rest. refl };
  u8 = record { read-write = λ a rest. refl };
  tally = record { read-write = λ a rest. refl };
}

-- Only the word of a value reads as that value.
tally_first :
    (words : List Word) (t : Tally) (rest : List Word)
    → wire.tally.read words ≡ some (t, rest)
    → words ≡ wire.tally.write t ++ rest
tally_first [] t rest h = cc
tally_first (env_word _ ∷ ws) t rest h = cc
tally_first (string_word _ ∷ ws) t rest h = cc
tally_first (address_word _ ∷ ws) t rest h = cc
tally_first (u256_word _ ∷ ws) t rest h = cc
tally_first (u8_word _ ∷ ws) t rest h = cc
tally_first (tally_word u ∷ ws) t rest h = cc

address_first :
    (words : List Word) (a : Address) (rest : List Word)
    → wire.address.read words ≡ some (a, rest)
    → words ≡ wire.address.write a ++ rest
address_first [] a rest h = cc
address_first (env_word _ ∷ ws) a rest h = cc
address_first (string_word _ ∷ ws) a rest h = cc
address_first (address_word b ∷ ws) a rest h = cc
address_first (u256_word _ ∷ ws) a rest h = cc
address_first (u8_word _ ∷ ws) a rest h = cc
address_first (tally_word _ ∷ ws) a rest h = cc

pub tally-IsCanonical : IsCanonical wire.tally
tally-IsCanonical = record { write-read = tally_first }

pub address-IsCanonical : IsCanonical wire.address
address-IsCanonical = record { write-read = address_first }
