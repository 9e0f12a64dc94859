-- ===== src/Guest/Context/Registry.antt =====
-- Which strategies the default `Context` knows, by their names.
use aragon_zk_governance.Common.{
  ℕ, String, ◌≡◌, refl, ap, ◌∙◌, Bool, true, false, Option, some, none, arith, str_eq,
  if◌then◌else◌,
}
use aragon_zk_governance.Common.Dict.{lookup, insert, lookup-insert}
use aragon_zk_governance.Outcome.{Outcome, ok, err, panic, no_strategy, strategy_not_found}
use aragon_zk_governance.Config.{Address, Bytes, Asset, Tally}
use aragon_zk_governance.Steel.{Env}
use aragon_zk_governance.Crates.{Crates}
use aragon_zk_governance.Guest.VotingPower.{
  VotingPowerStrategy, balance_of_strategy, past_votes_strategy, balance_of_process,
  past_votes_process, balance_of_supply, past_votes_supply,
}
use aragon_zk_governance.Guest.Delegation.{split_process}
use aragon_zk_governance.Guest.Majority.{proof_execution}
use aragon_zk_governance.Guest.Context.{
  Context, default_context, add_strategy, process_voting_strategy, process_total_supply,
  process_delegation_strategy, process_execution_strategy,
}

-- Reading a map of two entries.
two_names {ℓ κ} :
    {V : Type ℓ} {B : Type κ} (p q : Bool) (u v : V) (missing : B) (f : V → B)
    → elim (if p then some u else if q then some v else none) [ none ↦ missing | some s ↦ f s ]
      ≡ (if p then f u else if q then f v else missing)
two_names true q u v missing f = refl
two_names false true u v missing f = refl
two_names false false u v missing f = refl

module _ (ext : Crates) (env : Env) where
  -- In the default context, a voting power strategy is found exactly under its name: "BalanceOf" and
  -- "GetPastVotes"; any other name panics.
  pub process_voting_strategy_by_name :
      (name : String) (account : Address) (asset : Asset)
      → process_voting_strategy (default_context ext env) name account asset ≡ (
          if str_eq "BalanceOf" name
          then balance_of_process env account asset
          else if str_eq "GetPastVotes" name
          then past_votes_process env account asset
          else panic (no_strategy name))
  unfolding process_voting_strategy default_context lookup insert
  process_voting_strategy_by_name name account asset =
      two_names (str_eq "BalanceOf" name) (str_eq "GetPastVotes" name) balance_of_strategy
        past_votes_strategy _ (λ s. s.process env account asset)

  pub process_delegation_strategy_by_name :
      (account : Address) (asset : Asset) (bytes : Bytes)
      → process_delegation_strategy (default_context ext env) account asset bytes ≡ (
          if str_eq "SplitDelegation" asset.delegation.strategy
          then split_process ext env account asset bytes
          else err (strategy_not_found asset.delegation.strategy))
  unfolding process_delegation_strategy default_context lookup insert
  process_delegation_strategy_by_name account asset bytes = ground arith

  pub process_total_supply_by_name :
      (asset : Asset)
      → process_total_supply (default_context ext env) asset ≡ (
          if str_eq "BalanceOf" asset.voting_power_strategy
          then balance_of_supply env asset
          else if str_eq "GetPastVotes" asset.voting_power_strategy
          then past_votes_supply env asset
          else panic (no_strategy asset.voting_power_strategy))
  unfolding process_total_supply default_context lookup insert
  process_total_supply_by_name asset =
      let name = asset.voting_power_strategy in
      two_names (str_eq "BalanceOf" name) (str_eq "GetPastVotes" name) balance_of_strategy
        past_votes_strategy _ (λ s. s.get_supply env asset)

  pub process_execution_strategy_by_name :
      (name : String) (supply : ℕ) (t : Tally)
      → process_execution_strategy (default_context ext env) name supply t ≡ (
          if str_eq "MajorityVoting" name
          then ok (proof_execution env supply t)
          else panic (no_strategy name))
  unfolding process_execution_strategy default_context lookup insert
  process_execution_strategy_by_name name supply t = ground arith

abbrev run_found : String → Env → Address → Asset → Option VotingPowerStrategy → Outcome ℕ
run_found name env account asset none = panic (no_strategy name)
run_found name env account asset (some s) = s.process env account asset

run_found-if :
    (b : Bool) (name : String) (s : VotingPowerStrategy) (c : Context) (account : Address)
    (asset : Asset)
    → run_found name c.env account asset
        (if b then some s else lookup name c.voting_power_strategies)
      ≡ (if b then s.process c.env account asset else process_voting_strategy c name account asset)
unfolding process_voting_strategy
run_found-if true name s c account asset = refl
run_found-if false name s c account asset = run_found_lem (lookup name c.voting_power_strategies)
  where
    run_found_lem :
        (o : Option VotingPowerStrategy)
        → run_found name c.env account asset o
          ≡ elim o [ none ↦ panic (no_strategy name) | some t ↦ t.process c.env account asset ]
    run_found_lem none = refl
    run_found_lem (some t) = refl

-- A strategy that is added under a name is the one used under it, whatever the context held before,
-- and under every other name the context behaves as it did.
pub process_voting_strategy-add_strategy :
    (c : Context) (added name : String) (s : VotingPowerStrategy) (account : Address)
    (asset : Asset)
    → process_voting_strategy (add_strategy c added s) name account asset ≡ (
        if str_eq added name
        then s.process c.env account asset
        else process_voting_strategy c name account asset)
unfolding process_voting_strategy add_strategy
process_voting_strategy-add_strategy c added name s account asset =
    ap (run_found name c.env account asset) (lookup-insert added name s c.voting_power_strategies)
    ∙ run_found-if (str_eq added name) name s c account asset
