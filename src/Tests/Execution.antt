-- ===== src/Tests/Execution.antt =====
-- The execution of a proposal that passes, and one over a token that answers about the past only.
use aragon_zk_governance.Common.{
  ◌+◌, ◌*◌, ◌<◌, ◌≡◌, ◌≢◌, ◌↔◌, true, refl, some, List, [], ◌∷◌, ◌++◌, arith,
}
use aragon_zk_governance.Common.Dict.{lookup, insert}
use aragon_zk_governance.Outcome.{ok, ok-injective}
use aragon_zk_governance.U256.{◌⊕◌}
use aragon_zk_governance.Config.{Tally}
use aragon_zk_governance.Steel.{Env, call}
use aragon_zk_governance.Agreement.Accepted.{IsComparableConfig}
use aragon_zk_governance.Agreement.Execution.{execution_input, preflight_execution-prove_execution}
use aragon_zk_governance.Guest.Majority.{proof_execution}
use aragon_zk_governance.Guest.Majority.Threshold.{proof_execution_iff}
use aragon_zk_governance.Guest.Voting.{read_config}
use aragon_zk_governance.Guest.Execution.{
  ExecutionInput, ExecutionJournal, prove_execution, read_execution_input,
}
use aragon_zk_governance.Guest.Execution.Accepts.{prove_execution_iff, IsExecutable}
use aragon_zk_governance.Guest.Execution.PastVotes.{IsPastOnly}
use aragon_zk_governance.Host.Preflight.{try_call, preflight_call}
use aragon_zk_governance.Host.VotingPower as HostPower
use aragon_zk_governance.Host.Majority as HostMajority
use aragon_zk_governance.Host.Context as HostContext
use aragon_zk_governance.Host.Publisher.{fetch_config}
use aragon_zk_governance.Host.ExecutionPublisher.{
  Args, preflight_execution, sum_supplies, write_input,
}
use aragon_zk_governance.Host.ExecutionPublisher.Order.{read_execution_input-misordered}
use aragon_zk_governance.Tests.World.{dao, token, plugin, commitment, past_config, env, ext}
use aragon_zk_governance.Tests.Format.{
  Word, wire, wire-IsLawful, tally-IsCanonical, address-IsCanonical,
}
use aragon_zk_governance.Tests.Prover.{node}

abbrev pub tally : Tally
tally = record { yes_votes = 60; no_votes = 30; abstain_votes = 20 }

abbrev pub execution_args : Args
execution_args = record {
  chain_id = 11155111;
  rpc_url = "https://rpc";
  block_number = some 10;
  dao_address = dao;
  proposal_id = 1;
  config_contract = plugin;
  tally = 60 ∷ 30 ∷ 20 ∷ [];
  testing = 0;
}

abbrev pub executed : ExecutionJournal
executed = record {
  commitment = commitment;
  config_contract = plugin;
  proposal_id = 1;
  tally = tally;
}

preflight_succeeds : (preflight_execution ext execution_args tally env []).0 ≡ ok tt
unfolding preflight_execution fetch_config sum_supplies try_call preflight_call lookup insert ◌⊕◌
    HostContext.default_context HostContext.process_total_supply
    HostContext.process_execution_strategy HostPower.balance_of_supply HostMajority.proof_execution
preflight_succeeds = refl

-- The configuration has no asset under "GetPastVotes".
comparable : IsComparableConfig ext env plugin 1
unfolding fetch_config try_call
comparable config e = rw (← ok-injective e) ((λ named. cc named), tt)

pub proves_execution :
    prove_execution ext wire (execution_input execution_args tally env) ≡ ok executed
proves_execution =
    preflight_execution-prove_execution ext wire execution_args tally env env env comparable
      preflight_succeeds refl (λ c r. refl)

preflight_execution-prove_execution_example :
    prove_execution ext wire (execution_input execution_args tally env) ≡ ok executed
preflight_execution-prove_execution_example =
    preflight_execution-prove_execution ext wire execution_args tally env env env comparable
      preflight_succeeds refl (λ c r. refl)

proof_execution_iff_example :
    (proof_execution env 170 tally ≡ true) ↔ ((170 < 2 * (60 + 30 + 20)) × (30 < 60))
proof_execution_iff_example = proof_execution_iff env 170 tally (omega arith)

-- The two orders of the words for the contract and the tally.
abbrev contract_then_tally : List Word
contract_then_tally = wire.address.write plugin ++ wire.tally.write tally

abbrev tally_then_contract : List Word
tally_then_contract = wire.tally.write tally ++ wire.address.write plugin

orders_differ : contract_then_tally ≢ tally_then_contract
orders_differ e = cc e

read_execution_input-misordered_example :
    read_execution_input ext wire (write_input ext wire node execution_args tally env)
    ≢ ok (execution_input execution_args tally env)
read_execution_input-misordered_example =
    read_execution_input-misordered ext wire node execution_args tally env wire-IsLawful
      tally-IsCanonical address-IsCanonical orders_differ

past_only : IsPastOnly env token
past_only = record {
  votes = λ account timepoint late. ground arith;
  supply = λ timepoint late. ground arith;
}

abbrev past_input : ExecutionInput Env
past_input = record {
  input = env;
  dao = dao;
  proposal_id = 2;
  tally = tally;
  config_contract = plugin;
}

past_configured : read_config ext env plugin 2 ≡ ok past_config
unfolding read_config call
past_configured = refl

abbrev passing_input : ExecutionInput Env
passing_input = execution_input execution_args tally env

prove_execution_iff_example :
    (prove_execution ext wire passing_input ≡ ok executed)
    ↔ IsExecutable ext wire passing_input executed
prove_execution_iff_example = prove_execution_iff ext wire passing_input executed
