-- ===== src/Guest/Context.antt =====
-- `Context` of strategies/src/lib.rs: the strategies by name, and the environment.
pub mod Registry
use aragon_zk_governance.Common.{
  ℕ, String, ◌≡◌, refl, Bool, Option, none, some, List, [], ◌∷◌, str_eq, if◌then◌else◌,
}
use aragon_zk_governance.Outcome.{Outcome, ok, err, panic, no_strategy, strategy_not_found}
use aragon_zk_governance.Config.{Address, Bytes, Asset, Delegation, Tally}
use aragon_zk_governance.Steel.{Env, Commitment}
use aragon_zk_governance.Crates.{Crates}
use aragon_zk_governance.Guest.VotingPower.{
  VotingPowerStrategy, balance_of_strategy, past_votes_strategy,
}
use aragon_zk_governance.Guest.Delegation.{DelegationStrategy, split_delegation}
use aragon_zk_governance.Guest.Majority.{ProtocolExecutionStrategy, majority_voting}
use aragon_zk_governance.Common.Dict
use aragon_zk_governance.Common.Dict.{Dict}

pub record Context : Type 0 where
  pub voting_power_strategies : Dict VotingPowerStrategy
  pub delegation_strategies : Dict DelegationStrategy
  pub execution_strategies : Dict ProtocolExecutionStrategy
  pub env : Env

abbrev pub new : Env → Context
new env = record {
  voting_power_strategies = [];
  delegation_strategies = [];
  execution_strategies = [];
  env = env;
}

unfoldable pub default_context : Crates → Env → Context
default_context ext env = record {
  voting_power_strategies =
      Dict.insert "GetPastVotes" past_votes_strategy
        (Dict.insert "BalanceOf" balance_of_strategy []);
  delegation_strategies = Dict.insert "SplitDelegation" (split_delegation ext) [];
  execution_strategies = Dict.insert "MajorityVoting" majority_voting [];
  env = env;
}

unfoldable pub add_strategy : Context → String → VotingPowerStrategy → Context
add_strategy c name strategy = record c {
  voting_power_strategies = Dict.insert name strategy c.voting_power_strategies;
}

unfoldable pub process_voting_strategy : Context → String → Address → Asset → Outcome ℕ
process_voting_strategy c name account asset = elim (Dict.lookup name c.voting_power_strategies) [
  | none ↦ panic (no_strategy name)
  | some strategy ↦ strategy.process c.env account asset
]

unfoldable pub process_total_supply : Context → Asset → Outcome ℕ
process_total_supply c asset =
    elim (Dict.lookup asset.voting_power_strategy c.voting_power_strategies) [
      | none ↦ panic (no_strategy asset.voting_power_strategy)
      | some strategy ↦ strategy.get_supply c.env asset
    ]

unfoldable pub process_delegation_strategy :
    Context → Address → Asset → Bytes → Outcome (List Delegation)
process_delegation_strategy c account asset additional_data =
    elim (Dict.lookup asset.delegation.strategy c.delegation_strategies) [
      | none ↦ err (strategy_not_found asset.delegation.strategy)
      | some strategy ↦ strategy.process c.env account asset additional_data
    ]

unfoldable pub process_execution_strategy : Context → String → ℕ → Tally → Outcome Bool
process_execution_strategy c name total_supply tally =
    elim (Dict.lookup name c.execution_strategies) [
      | none ↦ panic (no_strategy name)
      | some strategy ↦ ok (strategy.proof_execution c.env total_supply tally)
    ]

unfoldable pub block_commitment : Context → Commitment
block_commitment c = c.env.commitment

pub block_commitment-default_context :
    (ext : Crates) (env : Env) → block_commitment (default_context ext env) ≡ env.commitment
unfolding block_commitment default_context
block_commitment-default_context ext env = refl
