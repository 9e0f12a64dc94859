-- ===== src/Tests/Chain.antt =====
-- A plugin on a small chain: its settings, a proposal, a vote of Alice's and an execution.
use aragon_zk_governance.Common.{◌≡◌, refl, [], ◌∷◌, bytes_eq, true}
use aragon_zk_governance.Plugin.{
  done, early_execution, vote_none, vote_yes, Proposal, set_proposal, set_voter, add, to_u64,
  VotingSettings, Plugin, Block, Externals,
}
use aragon_zk_governance.Plugin.Vote.{
  vote, check_proof, cast_vote, withdraw, deposit, vote_option, is_proposal_open,
}
use aragon_zk_governance.Plugin.Execute.{execute, can_execute, execute_actions}
use aragon_zk_governance.Plugin.Execute.Accepts.{executed_at}
use aragon_zk_governance.Plugin.Settings.{
  Request, initialize, update_settings, create, stored, validate_proposal_dates, start_date_of,
  end_date_of,
}
use aragon_zk_governance.Plugin.Reach.{
  voted, executed, created, Runs, here, next, Reach, new_storage, begun, no_proposal,
}
use aragon_zk_governance.Tests.World.{alice, bob, dao, plugin, repeat, commitment}
use aragon_zk_governance.Tests.Prover.{encode, decode}
use aragon_zk_governance.Tests.Publisher.{journal}

-- The verifier takes the empty seal.
abbrev pub chain : Externals
chain = record {
  decode_voting_journal = decode;
  decode_execution_journal = decode;
  decode_versioned_id = λ n. (n, 0);
  sha256 = λ b. b;
  verify = λ verifier seal image_id digest. bytes_eq seal [];
  has_permission = λ account permission. bytes_eq account dao;
  execute_proposal = λ id actions failures. true;
}

abbrev pub settings : VotingSettings
settings = record {
  voting_mode = early_execution;
  support_threshold = 500000;
  min_participation = 100000;
  min_duration = 3600;
  min_proposer_voting_power = 0;
  voting_protocol_config = "{}";
  verifier = repeat 20 0x7e;
  voting_protocol_image_id = repeat 32 1;
  execution_protocol_image_id = repeat 32 2;
}

abbrev pub block : Block
block = record { number = 11; timestamp = 1000; block_hash = λ n. commitment.digest }

abbrev pub request : Request
request = record {
  sender = dao;
  proposal_id = 1;
  actions = record { to = bob; value = 7; calldata = [] } ∷ [];
  allow_failure_map = 0;
  start_date = 0;
  end_date = 0;
}

abbrev pub at_first : Plugin
at_first = begun plugin settings

abbrev pub at_create : Plugin
at_create = set_proposal at_first 1 (stored settings block 10 1000 4600 request no_proposal)

abbrev pub voted_yes : Proposal
voted_yes = record (at_create.proposals 1) {
  tally = record { abstain_votes = 0; yes_votes = 110; no_votes = 0 };
  voters = set_voter (λ a. vote_none) alice vote_yes;
}

abbrev pub at_vote : Plugin
at_vote = set_proposal at_create 1 voted_yes

abbrev pub at_execute : Plugin
at_execute = executed_at at_vote 1

pub initialises : initialize settings (new_storage plugin settings) ≡ done at_first
unfolding initialize update_settings
initialises = refl

pub creates : create chain block request at_first ≡ done at_create
unfolding create stored validate_proposal_dates start_date_of end_date_of add to_u64
creates = refl

pub casts : cast_vote (at_create.proposals 1) journal ≡ done voted_yes
unfolding cast_vote withdraw deposit vote_option add stored
casts = refl

pub votes : vote chain at_create (encode journal) [] ≡ done at_vote
unfolding vote check_proof stored
votes = rw casts refl

pub executes : execute chain block at_vote (encode journal) [] ≡ done at_execute
unfolding execute check_proof can_execute is_proposal_open execute_actions to_u64 stored
executes = refl

abbrev pub poll_runs : Runs chain at_first at_execute
poll_runs =
    next (next (next here (created block request creates)) (voted (encode journal) [] votes))
      (executed block (encode journal) [] executes)

abbrev pub poll : Reach chain at_execute
poll = record {
  this = plugin;
  zeros = settings;
  settings = settings;
  first = at_first;
  initialized = initialises;
  runs = poll_runs;
}
