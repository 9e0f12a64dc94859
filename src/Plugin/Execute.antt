-- ===== src/Plugin/Execute.antt =====
-- `execute` and `_canExecute` of contracts/RiscVotingProtocolPlugin.sol and its base.
pub mod Accepts
pub mod AnyTally
pub mod Never
use aragon_zk_governance.Common.{ℕ, Bool, true, false, ◌&&◌, not, bytes_eq, if◌then◌else◌}
use aragon_zk_governance.Config.{Bytes}
use aragon_zk_governance.Plugin.{
  Tx, done, revert, required, rejected_call, undecodable, proposal_execution_forbidden, ◌>>=◌, ◌>>◌,
  require, expect, VotingMode, standard, early_execution, vote_replacement, Proposal, Plugin,
  set_proposal, Block, Externals,
}
use aragon_zk_governance.Plugin.Vote.{check_proof, is_proposal_open}

abbrev pub is_early_execution : VotingMode → Bool
is_early_execution early_execution = true
is_early_execution standard = false
is_early_execution vote_replacement = false

-- The early return stands before the first use of the time.
unfoldable pub can_execute : Block → Plugin → ℕ → Tx Bool
can_execute block p id =
    let proposal = p.proposals id in
    if proposal.executed then done false else do
      open_now ← is_proposal_open block proposal
      done (
          if open_now && not (is_early_execution proposal.parameters.voting_mode)
          then false
          else true)

-- `_execute`. Nothing follows the DAO's call, so what its actions call of the plugin comes after.
unfoldable pub execute_actions : Externals → Plugin → ℕ → Tx Plugin
execute_actions ext p id = do
  let proposal = p.proposals id
  let marked = set_proposal p id (record proposal { executed = true })
  require (ext.execute_proposal id proposal.actions proposal.allow_failure_map) rejected_call
  done marked

unfoldable pub execute : Externals → Block → Plugin → Bytes → Bytes → Tx Plugin
execute ext block p journal_data seal = do
  journal ← expect (ext.decode_execution_journal journal_data) undecodable
  require (bytes_eq journal.config_contract p.this) (required "Invalid token address")
  let proposal = p.proposals journal.proposal_id
  allowed ← can_execute block p journal.proposal_id
  require allowed (proposal_execution_forbidden journal.proposal_id)
  check_proof ext proposal.parameters proposal.parameters.execution_protocol_image_id journal
      journal_data seal
  execute_actions ext p journal.proposal_id
