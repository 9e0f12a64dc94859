-- ===== src/Plugin/Reach.antt =====
-- The plugin's transactions as steps, in any order and by anyone.
pub mod Steps
pub mod Bounds
pub mod Once
pub mod Poll
pub mod Backed
pub mod Frozen
pub mod Shown
pub mod Initialized
use aragon_zk_governance.Common.{ℕ, ◌+◌, ◌≤◌, ◌≡◌, true, false, [], ◌∷◌, zero, suc}
use aragon_zk_governance.Config.{Address, Bytes}
use aragon_zk_governance.Plugin.{
  done, standard, vote_none, VotingSettings, ProposalParameters, Proposal, Plugin, Block, Externals,
}
use aragon_zk_governance.Plugin.Vote.{vote}
use aragon_zk_governance.Plugin.Execute.{execute}
use aragon_zk_governance.Plugin.Settings.{Request, initialize, update_voting_settings_tx, create}

-- A transaction that succeeds. One that reverts changes nothing.
pub data Step (ext : Externals) (p q : Plugin) : Type 0 where
  voted : (journal_data seal : Bytes) → vote ext p journal_data seal ≡ done q → Step ext p q
  executed :
      (block : Block) (journal_data seal : Bytes)
      → execute ext block p journal_data seal ≡ done q
      → Step ext p q
  created : (block : Block) (r : Request) → create ext block r p ≡ done q → Step ext p q
  updated :
      (sender : Address) (s : VotingSettings)
      → update_voting_settings_tx ext sender s p ≡ done q
      → Step ext p q

pub data Runs (ext : Externals) (p : Plugin) : Plugin → Type 0 where
  here : Runs ext p p
  next : {q r : Plugin} → Runs ext p q → Step ext q r → Runs ext p r

abbrev pub zero_bytes : ℕ → Bytes
zero_bytes zero = []
zero_bytes (suc n) = 0 ∷ zero_bytes n

abbrev pub no_parameters : ProposalParameters
no_parameters = record {
  voting_mode = standard;
  support_threshold = 0;
  start_date = 0;
  end_date = 0;
  snapshot_block = 0;
  snapshot_block_hash = zero_bytes 32;
  voting_protocol_config = "";
  verifier = zero_bytes 20;
  voting_protocol_image_id = zero_bytes 32;
  execution_protocol_image_id = zero_bytes 32;
}

abbrev pub no_proposal : Proposal
no_proposal = record {
  executed = false;
  parameters = no_parameters;
  tally = record { abstain_votes = 0; yes_votes = 0; no_votes = 0 };
  voters = λ a. vote_none;
  actions = [];
  allow_failure_map = 0;
}

-- The storage of a new contract, which is all zeros.
abbrev pub new_storage : Address → VotingSettings → Plugin
new_storage this s = record {
  this = this;
  initialized = false;
  settings = s;
  proposals = λ id. no_proposal;
}

-- The same in the body of `initialize`.
abbrev pub begun : Address → VotingSettings → Plugin
begun this s = record (new_storage this s) { initialized = true }

-- Initialised once on new storage, then used.
pub record Reach (ext : Externals) (p : Plugin) : Type 0 where
  pub this : Address
  pub zeros : VotingSettings
  pub settings : VotingSettings
  pub first : Plugin
  pub initialized : initialize settings (new_storage this zeros) ≡ done first
  pub runs : Runs ext first p
