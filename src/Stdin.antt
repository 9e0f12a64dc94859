-- ===== src/Stdin.antt =====
-- The guest's standard input: what the host's `ExecutorEnv::builder().write(..)` puts there and
-- `env::read()` takes off, in order. The word format is risc0_zkvm's serde, so it is a parameter.
use aragon_zk_governance.Common.{ℕ, String, ◌≡◌, Option, some, List, ◌++◌}
use aragon_zk_governance.Outcome.{Outcome, unwrap}
use aragon_zk_governance.Config.{Address, Tally}
use aragon_zk_governance.Steel.{Env}

pub record Codec (Word A : Type 0) : Type 0 where
  pub write : A → List Word
  pub read : List Word → Option (A × List Word)

-- What was written is read back, and the rest is left.
pub record IsLawful {Word A : Type 0} (c : Codec Word A) : Type 0 where
  pub read-write : (a : A) (rest : List Word) → c.read (c.write a ++ rest) ≡ some (a, rest)

pub record Wire : Type 1 where
  pub Word : Type 0
  -- `EthEvmInput`, and `into_env`, which checks the state root
  pub Input : Type 0
  pub into_env : Input → Option Env
  pub input : Codec Word Input
  pub string : Codec Word String
  pub address : Codec Word Address
  pub u256 : Codec Word ℕ
  pub u8 : Codec Word ℕ
  pub tally : Codec Word Tally

pub record IsLawfulWire (w : Wire) : Type 0 where
  pub input : IsLawful w.input
  pub string : IsLawful w.string
  pub address : IsLawful w.address
  pub u256 : IsLawful w.u256
  pub u8 : IsLawful w.u8
  pub tally : IsLawful w.tally

-- No two encodings share a reading: what is read is what was written.
pub record IsCanonical {Word A : Type 0} (c : Codec Word A) : Type 0 where
  pub write-read :
      (words : List Word) (a : A) (rest : List Word)
      → c.read words ≡ some (a, rest)
      → words ≡ c.write a ++ rest

-- `env::read()`, which panics on words that do not decode.
abbrev pub env_read : {Word A : Type 0} → Codec Word A → List Word → Outcome (A × List Word)
env_read c words = unwrap (c.read words) "read"
