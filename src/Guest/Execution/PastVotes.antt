-- ===== src/Guest/Execution/PastVotes.antt =====
-- `GetPastVotes` asks a token about the guest's own block (get_past_votes.rs), where ERC-5805 lets a
-- token answer about earlier blocks only.
use aragon_zk_governance.Common.{ℕ, ◌≤◌, ◌≡◌, ◌∙◌, Option, none, List, ◌∷◌, ◌++◌, arith}
use aragon_zk_governance.Outcome.{ok, panic, call_failed}
use aragon_zk_governance.Config.{Address, Asset, RiscVotingProtocolConfig}
use aragon_zk_governance.Steel.{Env, call, get_past_votes, get_past_total_supply}
use aragon_zk_governance.Crates.{Crates}
use aragon_zk_governance.Stdin.{Wire}
use aragon_zk_governance.Guest.VotingPower.{past_votes_process, past_votes_supply}
use aragon_zk_governance.Guest.Context.{default_context, process_total_supply}
use aragon_zk_governance.Guest.Context.Registry.{process_total_supply_by_name}
use aragon_zk_governance.Guest.Voting.{read_config}
use aragon_zk_governance.Guest.Execution.Unsupplied.{prove_execution-unsupplied}
use aragon_zk_governance.Guest.Execution.{ExecutionInput, ExecutionJournal, prove_execution}

-- The token reverts a lookup at its current block or later.
pub record IsPastOnly (env : Env) (token : Address) : Type 0 where
  pub votes :
      (account : Address) (timepoint : ℕ)
      → env.number ≤ timepoint
      → env.answer (get_past_votes token account timepoint) ≡ none
  pub supply :
      (timepoint : ℕ)
      → env.number ≤ timepoint
      → env.answer (get_past_total_supply token timepoint) ≡ none

-- Over such a token the guest's strategy panics for every account, and for the supply.
pub past_votes_panic :
    (env : Env) (asset : Asset) (account : Address)
    → IsPastOnly env asset.contract
    → (past_votes_process env account asset ≡ panic call_failed)
      × (past_votes_supply env asset ≡ panic call_failed)
unfolding past_votes_process past_votes_supply call
past_votes_panic env asset account only = (
  rw (only.votes account env.number (omega arith), call),
  rw (only.supply env.number (omega arith), call),
)

past_votes_named :
    (ext : Crates) (env : Env) (asset : Asset)
    → asset.voting_power_strategy ≡ "GetPastVotes"
    → process_total_supply (default_context ext env) asset ≡ past_votes_supply env asset
past_votes_named ext env asset named = process_total_supply_by_name ext env asset ∙ rw named

-- With a configuration that has an asset under "GetPastVotes" whose token answers about the past
-- only, the execution program commits nothing.
pub prove_execution-past_votes :
    (ext : Crates) (wire : Wire) (i : ExecutionInput wire.Input) (env : Env)
    (config : RiscVotingProtocolConfig) (before after : List Asset) (asset : Asset)
    → wire.into_env i.input ≡ Option.some env
    → read_config ext env i.config_contract i.proposal_id ≡ ok config
    → config.assets ≡ before ++ asset ∷ after
    → asset.voting_power_strategy ≡ "GetPastVotes"
    → IsPastOnly env asset.contract
    → (j : ExecutionJournal) → ¬ (prove_execution ext wire i ≡ ok j)
prove_execution-past_votes ext wire i env config before after asset opens configured listed named
      only j =
    prove_execution-unsupplied ext wire i env config before after asset opens configured listed
      (λ supply e. cc (
        e,
        past_votes_named ext env asset named,
        (past_votes_panic env asset i.config_contract only).1,
      ))
      j
