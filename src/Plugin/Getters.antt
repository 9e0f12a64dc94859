-- ===== src/Plugin/Getters.antt =====
-- `getProposal` and the configuration's getter of contracts/MajorityVotingBase.sol.
use aragon_zk_governance.Common.{ℕ, String, Bool, List}
use aragon_zk_governance.Plugin.{Tx, done, ◌>>=◌, Action, Tally, ProposalParameters, Plugin, Block}
use aragon_zk_governance.Plugin.Vote.{is_proposal_open}

-- What `getProposal` returns.
pub record ProposalView : Type 0 where
  pub is_open : Bool
  pub executed : Bool
  pub parameters : ProposalParameters
  pub tally : Tally
  pub actions : List Action
  pub allow_failure_map : ℕ

unfoldable pub get_proposal : Block → Plugin → ℕ → Tx ProposalView
get_proposal block p proposal_id = do
  let proposal = p.proposals proposal_id
  is_open ← is_proposal_open block proposal
  done (record {
    is_open = is_open;
    executed = proposal.executed;
    parameters = proposal.parameters;
    tally = proposal.tally;
    actions = proposal.actions;
    allow_failure_map = proposal.allow_failure_map;
  })

-- `votingProtocolConfig(_proposalId)`
unfoldable pub proposal_config : Plugin → ℕ → String
proposal_config p proposal_id = (p.proposals proposal_id).parameters.voting_protocol_config
