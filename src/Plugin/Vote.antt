-- ===== src/Plugin/Vote.antt =====
-- `vote`, `_canVote` and `getVoteOption` of contracts/RiscVotingProtocolPlugin.sol and its base.
pub mod Counts
pub mod AnyTime
pub mod Accepts
pub mod Backed
pub mod Never
use aragon_zk_governance.Common.{
  ℕ, zero, suc, Bool, true, false, ◌&&◌, not, leb, ltb, ◌==◌, bytes_eq, if◌then◌else◌,
}
use aragon_zk_governance.Config.{Address, Bytes}
use aragon_zk_governance.Guest.Voting.{Journal}
use aragon_zk_governance.Plugin.{
  Tx, done, revert, required, rejected_call, undecodable, bad_conversion, ◌>>=◌, ◌>>◌, require,
  expect, add, sub, to_u64, VoteOption, vote_none, vote_abstain, vote_yes, vote_no, VotingMode,
  standard, early_execution, vote_replacement, Tally, Proposal, ProposalParameters, Plugin,
  set_proposal, set_voter, Block, Externals,
}

-- `VoteOption(direction)`, which reverts past the last option.
unfoldable pub vote_option : ℕ → Tx VoteOption
vote_option direction =
    if direction == 0
    then done vote_none
    else if direction == 1
    then done vote_abstain
    else if direction == 2
    then done vote_yes
    else if direction == 3
    then done vote_no
    else revert bad_conversion

-- The two tests of the commitment, and the verifier's call for one of the two programs.
unfoldable pub check_proof :
    Externals → ProposalParameters → Bytes → Journal → Bytes → Bytes → Tx (Unit {0})
check_proof ext parameters image_id journal journal_data seal = do
  require (bytes_eq journal.commitment.digest parameters.snapshot_block_hash)
      (required "Invalid commitment")
  let (claim_id, version) = ext.decode_versioned_id journal.commitment.id
  require (claim_id == parameters.snapshot_block) (required "Invalid commitment")
  require (ext.verify parameters.verifier seal image_id (ext.sha256 journal_data)) rejected_call

-- What a voter has voted with before is taken off.
unfoldable pub withdraw : VoteOption → ℕ → Tally → Tx Tally
withdraw vote_yes voting_power tally = do
  n ← sub tally.yes_votes voting_power
  done (record tally { yes_votes = n })
withdraw vote_no voting_power tally = do
  n ← sub tally.no_votes voting_power
  done (record tally { no_votes = n })
withdraw vote_abstain voting_power tally = do
  n ← sub tally.abstain_votes voting_power
  done (record tally { abstain_votes = n })
withdraw vote_none voting_power tally = done tally

unfoldable pub deposit : VoteOption → ℕ → Tally → Tx Tally
deposit vote_yes voting_power tally = do
  n ← add 256 tally.yes_votes voting_power
  done (record tally { yes_votes = n })
deposit vote_no voting_power tally = do
  n ← add 256 tally.no_votes voting_power
  done (record tally { no_votes = n })
deposit vote_abstain voting_power tally = do
  n ← add 256 tally.abstain_votes voting_power
  done (record tally { abstain_votes = n })
deposit vote_none voting_power tally = done tally

-- The actual vote.
unfoldable pub cast_vote : Proposal → Journal → Tx Proposal
cast_vote proposal journal = do
  withdrawn ← withdraw (proposal.voters journal.voter) journal.balance proposal.tally
  option ← vote_option journal.direction
  tally ← deposit option journal.balance withdrawn
  done (record proposal { tally = tally; voters = set_voter proposal.voters journal.voter option })

unfoldable pub vote : Externals → Plugin → Bytes → Bytes → Tx Plugin
vote ext p journal_data seal = do
  journal ← expect (ext.decode_voting_journal journal_data) undecodable
  require (bytes_eq journal.config_contract p.this) (required "Invalid token address")
  let proposal = p.proposals journal.proposal_id
  check_proof ext proposal.parameters proposal.parameters.voting_protocol_image_id journal
      journal_data seal
  cast ← cast_vote proposal journal
  done (set_proposal p journal.proposal_id cast)

unfoldable pub is_proposal_open : Block → Proposal → Tx Bool
is_proposal_open block proposal = do
  current_time ← to_u64 block.timestamp
  done (
      leb proposal.parameters.start_date current_time
      && (ltb current_time proposal.parameters.end_date && not proposal.executed))

abbrev pub is_vote_none : VoteOption → Bool
is_vote_none vote_none = true
is_vote_none vote_abstain = false
is_vote_none vote_yes = false
is_vote_none vote_no = false

abbrev pub is_vote_replacement : VotingMode → Bool
is_vote_replacement vote_replacement = true
is_vote_replacement standard = false
is_vote_replacement early_execution = false

-- `_canVote`: three early returns of false.
unfoldable pub can_vote : Block → Plugin → ℕ → Address → VoteOption → Tx Bool
can_vote block p id account option = do
  let proposal = p.proposals id
  open_now ← is_proposal_open block proposal
  done (
      if not open_now
      then false
      else if is_vote_none option
      then false
      else if not (is_vote_none (proposal.voters account))
          && not (is_vote_replacement proposal.parameters.voting_mode)
      then false
      else true)

unfoldable pub get_vote_option : Plugin → ℕ → Address → VoteOption
get_vote_option p id voter = (p.proposals id).voters voter
