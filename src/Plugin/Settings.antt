-- ===== src/Plugin/Settings.antt =====
-- The settings, the dates and `createProposal`, of contracts/MajorityVotingBase.sol and
-- contracts/RiscVotingProtocolPlugin.sol.
pub mod Accepts
use aragon_zk_governance.Common.{
  ℕ, ◌+◌, ◌-◌, ◌%◌, ◌^◌, List, ◌++◌, leb, ltb, ◌==◌, if◌then◌else◌, not, true,
}
use aragon_zk_governance.Config.{Address, Bytes}
use aragon_zk_governance.Plugin.{
  Tx, done, revert, ratio_out_of_bounds, min_duration_out_of_bounds, date_out_of_bounds,
  unauthorized, already_initialized, ◌>>=◌, ◌>>◌, require, add, to_u64, VotingSettings,
  ProposalParameters, Action, Proposal, Plugin, set_proposal, Block, Externals, create_proposal,
  update_voting_settings,
}

abbrev pub minutes_60 : ℕ
minutes_60 = 3600

abbrev pub days_365 : ℕ
days_365 = 31536000

-- `_updateVotingSettings`, for the library's `RATIO_BASE`, which is 10 ^ 6.
abbrev pub ratio_base : ℕ
ratio_base = 10 ^ 6

unfoldable pub update_settings : VotingSettings → Plugin → Tx Plugin
update_settings s p = do
  require (leb s.support_threshold (ratio_base - 1))
      (ratio_out_of_bounds (ratio_base - 1) s.support_threshold)
  require (leb s.min_participation ratio_base) (ratio_out_of_bounds ratio_base s.min_participation)
  require (not (ltb s.min_duration minutes_60))
      (min_duration_out_of_bounds minutes_60 s.min_duration)
  require (leb s.min_duration days_365) (min_duration_out_of_bounds days_365 s.min_duration)
  done (record p { settings = s })

-- `initialize`, which the modifier `initializer` lets pass only once.
unfoldable pub initialize : VotingSettings → Plugin → Tx Plugin
initialize s p = do
  require (not p.initialized) already_initialized
  update_settings s (record p { initialized = true })

unfoldable pub update_voting_settings_tx : Externals → Address → VotingSettings → Plugin → Tx Plugin
update_voting_settings_tx ext sender s p = do
  require (ext.has_permission sender update_voting_settings) unauthorized
  update_settings s p

-- `_validateProposalDates`
unfoldable pub start_date_of : ℕ → ℕ → Tx ℕ
start_date_of current_timestamp start =
    if start == 0
    then done current_timestamp
    else if ltb start current_timestamp
    then revert (date_out_of_bounds current_timestamp start)
    else done start

unfoldable pub end_date_of : ℕ → ℕ → Tx ℕ
end_date_of earliest_end_date end =
    if end == 0
    then done earliest_end_date
    else if ltb end earliest_end_date
    then revert (date_out_of_bounds earliest_end_date end)
    else done end

unfoldable pub validate_proposal_dates : VotingSettings → Block → ℕ → ℕ → Tx (ℕ × ℕ)
validate_proposal_dates settings block start end = do
  current_timestamp ← to_u64 block.timestamp
  start_date ← start_date_of current_timestamp start
  earliest_end_date ← add 64 start_date settings.min_duration
  end_date ← end_date_of earliest_end_date end
  done (start_date, end_date)

-- The caller, the number that Aragon OSx gives the proposal, the actions, the failure map, and the
-- two dates. The metadata is only emitted.
pub record Request : Type 0 where
  pub sender : Address
  pub proposal_id : ℕ
  pub actions : List Action
  pub allow_failure_map : ℕ
  pub start_date : ℕ
  pub end_date : ℕ

-- What is stored for a proposal. `block.number - 1` is unchecked.
unfoldable pub stored : VotingSettings → Block → ℕ → ℕ → ℕ → Request → Proposal → Proposal
stored s block snapshot_block start_date end_date r proposal = record proposal {
  parameters = record {
    voting_mode = s.voting_mode;
    support_threshold = s.support_threshold;
    start_date = start_date;
    end_date = end_date;
    snapshot_block = snapshot_block;
    snapshot_block_hash = block.block_hash ((block.number + 2 ^ 256 - 1) % 2 ^ 256);
    voting_protocol_config = s.voting_protocol_config;
    verifier = s.verifier;
    voting_protocol_image_id = s.voting_protocol_image_id;
    execution_protocol_image_id = s.execution_protocol_image_id;
  };
  allow_failure_map =
      if r.allow_failure_map == 0 then proposal.allow_failure_map else r.allow_failure_map;
  actions = proposal.actions ++ r.actions;
}

unfoldable pub create : Externals → Block → Request → Plugin → Tx Plugin
create ext block r p = do
  require (ext.has_permission r.sender create_proposal) unauthorized
  (start_date, end_date) ← validate_proposal_dates p.settings block r.start_date r.end_date
  snapshot_block ← to_u64 ((block.number + 2 ^ 256 - 1) % 2 ^ 256)
  done (
      set_proposal p r.proposal_id
        (stored p.settings block snapshot_block start_date end_date r (p.proposals r.proposal_id)))
