-- ===== src/Guest/VotingPower.antt =====
-- strategies/src/voting_strategies.rs and the two strategies below it.
use aragon_zk_governance.Common.{ℕ}
use aragon_zk_governance.Outcome.{Outcome}
use aragon_zk_governance.Config.{Address, Asset}
use aragon_zk_governance.Steel.{
  Env, call, balance_of, get_total_supply, get_past_votes, get_past_total_supply,
}

-- The trait: a strategy is a value with its two methods.
pub record VotingPowerStrategy : Type 0 where
  pub process : Env → Address → Asset → Outcome ℕ
  pub get_supply : Env → Asset → Outcome ℕ

unfoldable pub balance_of_process : Env → Address → Asset → Outcome ℕ
balance_of_process env account asset = call env (balance_of asset.contract account)

unfoldable pub balance_of_supply : Env → Asset → Outcome ℕ
balance_of_supply env asset = call env (get_total_supply asset.contract)

abbrev pub balance_of_strategy : VotingPowerStrategy
balance_of_strategy = record { process = balance_of_process; get_supply = balance_of_supply }

unfoldable pub past_votes_process : Env → Address → Asset → Outcome ℕ
past_votes_process env account asset = call env (get_past_votes asset.contract account env.number)

unfoldable pub past_votes_supply : Env → Asset → Outcome ℕ
past_votes_supply env asset = call env (get_past_total_supply asset.contract env.number)

abbrev pub past_votes_strategy : VotingPowerStrategy
past_votes_strategy = record { process = past_votes_process; get_supply = past_votes_supply }
