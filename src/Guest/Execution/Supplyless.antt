-- ===== src/Guest/Execution/Supplyless.antt =====
-- execution_protocol.rs over tokens that follow the standards: an ERC-20 has `totalSupply`, where the
-- program asks for `getTotalSupply`, and a token with votes answers about earlier blocks only.
use aragon_zk_governance.Common.{
  ℕ, ◌≡◌, ◌≢◌, ◌∙◌, sym, none, some, List, ◌∷◌, ◌++◌, Bool-cases, inl, inr, str_eq,
}
use aragon_zk_governance.Outcome.{ok, panic, call_failed}
use aragon_zk_governance.Config.{Address, Asset, RiscVotingProtocolConfig}
use aragon_zk_governance.Steel.{Env, call, get_total_supply, get_past_total_supply}
use aragon_zk_governance.Crates.{Crates}
use aragon_zk_governance.Stdin.{Wire}
use aragon_zk_governance.Guest.VotingPower.{balance_of_supply, past_votes_supply}
use aragon_zk_governance.Guest.Context.{default_context, process_total_supply}
use aragon_zk_governance.Guest.Context.Registry.{process_total_supply_by_name}
use aragon_zk_governance.Guest.Voting.{read_config}
use aragon_zk_governance.Guest.Execution.{ExecutionInput, ExecutionJournal, prove_execution}
use aragon_zk_governance.Guest.Execution.Unsupplied.{prove_execution-unsupplied}

-- The token has no `getTotalSupply`, and no past supply for the block itself.
pub record IsSupplyless (env : Env) (token : Address) : Type 0 where
  pub balances : env.answer (get_total_supply token) ≡ none
  pub past : env.answer (get_past_total_supply token env.number) ≡ none

no_supply :
    (ext : Crates) (env : Env) (asset : Asset) (supply : ℕ)
    → IsSupplyless env asset.contract
    → process_total_supply (default_context ext env) asset ≢ ok supply
unfolding balance_of_supply past_votes_supply call
no_supply ext env asset supply is h =
    let named = sym (process_total_supply_by_name ext env asset) ∙ h in
    let of_balances : balance_of_supply env asset ≡ panic call_failed = rw (is.balances, call) in
    let of_past : past_votes_supply env asset ≡ panic call_failed = rw (is.past, call) in
    elim (Bool-cases (str_eq "BalanceOf" asset.voting_power_strategy)) [
      | inl balances ↦ let e = rw balances at named in cc (e, of_balances)
      | inr other ↦
          let named = rw other at named in
          elim (Bool-cases (str_eq "GetPastVotes" asset.voting_power_strategy)) [
            | inl past ↦ let e = rw past at named in cc (e, of_past)
            | inr unknown ↦ let e = rw unknown at named in cc e
          ]
    ]

-- With a configuration that has an asset whose token has no `getTotalSupply` and no past supply for
-- the block itself, under any strategy, the execution program commits nothing.
pub prove_execution-supplyless :
    (ext : Crates) (wire : Wire) (i : ExecutionInput wire.Input) (env : Env)
    (config : RiscVotingProtocolConfig) (before after : List Asset) (asset : Asset)
    → wire.into_env i.input ≡ some env
    → read_config ext env i.config_contract i.proposal_id ≡ ok config
    → config.assets ≡ before ++ asset ∷ after
    → IsSupplyless env asset.contract
    → (j : ExecutionJournal) → prove_execution ext wire i ≢ ok j
prove_execution-supplyless ext wire i env config before after asset opens configured listed is =
    prove_execution-unsupplied ext wire i env config before after asset opens configured listed
      (λ supply. no_supply ext env asset supply is)
