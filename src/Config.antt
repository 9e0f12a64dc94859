-- ===== src/Config.antt =====
-- The configuration of a proposal: the structs that strategies/src/lib.rs and apps/src/lib.rs both
-- declare, word for word. Reading them from JSON is done by `serde_json`.
use aragon_zk_governance.Common.{ℕ, String, List}

-- `alloy_primitives::Address`, its twenty bytes.
abbrev pub Address : Type 0
Address = List ℕ

abbrev pub Bytes : Type 0
Bytes = List ℕ

pub record DelegationObject : Type 0 where
  pub contract : Address
  pub strategy : String

pub record Asset : Type 0 where
  pub contract : Address
  pub chain_id : ℕ
  pub voting_power_strategy : String
  pub delegation : DelegationObject

pub record RiscVotingProtocolConfig : Type 0 where
  pub voting_protocol_version : String
  pub assets : List Asset
  pub execution_strategy : String

-- What a delegation strategy returns for one account whose power the voter claims.
pub record Delegation : Type 0 where
  pub delegate : Address
  pub ratio : ℕ

-- `[U256; 3]`: the votes for yes, for no and to abstain.
pub record Tally : Type 0 where
  pub yes_votes : ℕ
  pub no_votes : ℕ
  pub abstain_votes : ℕ
