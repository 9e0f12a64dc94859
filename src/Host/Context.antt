-- ===== src/Host/Context.antt =====
-- `HostContext` of apps/src/lib.rs: the strategies by name, and the environment.
use aragon_zk_governance.Common.{ℕ, String, Bool, none, some, List, []}
use aragon_zk_governance.Common.Dict
use aragon_zk_governance.Common.Dict.{Dict}
use aragon_zk_governance.Outcome.{ok, err, panic, no_strategy, strategy_not_found}
use aragon_zk_governance.Config.{Address, Bytes, Asset, Delegation, Tally}
use aragon_zk_governance.Steel.{Env}
use aragon_zk_governance.Crates.{Crates}
use aragon_zk_governance.Host.Preflight.{Preflight, lift}
use aragon_zk_governance.Host.VotingPower.{
  VotingPowerStrategy, balance_of_strategy, past_votes_strategy,
}
use aragon_zk_governance.Host.Delegation.{DelegationStrategy, split_delegation}
use aragon_zk_governance.Host.Majority.{ExecutionStrategy, majority_voting}

pub record HostContext : Type 0 where
  pub voting_power_strategies : Dict VotingPowerStrategy
  pub delegation_strategies : Dict DelegationStrategy
  pub execution_strategies : Dict ExecutionStrategy
  pub env : Env

unfoldable pub default_context : Crates → Env → HostContext
default_context ext env = record {
  voting_power_strategies =
      Dict.insert "GetPastVotes" past_votes_strategy
        (Dict.insert "BalanceOf" balance_of_strategy []);
  delegation_strategies = Dict.insert "SplitDelegation" (split_delegation ext) [];
  execution_strategies = Dict.insert "MajorityVoting" majority_voting [];
  env = env;
}

unfoldable pub process_voting_power_strategy : HostContext → String → Address → Asset → Preflight ℕ
process_voting_power_strategy c name account asset =
    elim (Dict.lookup name c.voting_power_strategies) [
      | none ↦ lift (panic (no_strategy name))
      | some strategy ↦ strategy.process c.env account asset
    ]

unfoldable pub process_delegation_strategy :
    HostContext → Address → Asset → Bytes → Preflight (List Delegation)
process_delegation_strategy c account asset additional_data =
    elim (Dict.lookup asset.delegation.strategy c.delegation_strategies) [
      | none ↦ lift (panic (no_strategy asset.delegation.strategy))
      | some strategy ↦ strategy.process c.env account asset additional_data
    ]

unfoldable pub process_total_supply : HostContext → Asset → Preflight ℕ
process_total_supply c asset =
    elim (Dict.lookup asset.voting_power_strategy c.voting_power_strategies) [
      | none ↦ lift (err (strategy_not_found asset.voting_power_strategy))
      | some strategy ↦ strategy.get_supply c.env asset
    ]

unfoldable pub process_execution_strategy : HostContext → String → ℕ → Tally → Preflight Bool
process_execution_strategy c name total_supply tally =
    elim (Dict.lookup name c.execution_strategies) [
      | none ↦ lift (err (strategy_not_found name))
      | some strategy ↦ lift (ok (strategy.proof_execution c.env total_supply tally))
    ]
