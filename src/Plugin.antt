-- ===== src/Plugin.antt =====
-- The state of the plugin contract: the storage of contracts/MajorityVotingBase.sol, and what its
-- code reaches outside.
pub mod Settings
pub mod Reverts
pub mod Writes
pub mod Ledger
pub mod Reach
pub mod Vote
pub mod Execute
pub mod Published
pub mod Getters
use aragon_zk_governance.Common.{
  ℕ, ◌+◌, ◌-◌, ◌^◌, String, Bool, false, Option, List, [], ltb, bytes_eq, ◌==◌, if◌then◌else◌,
}
use aragon_zk_governance.Config.{Address, Bytes}
use aragon_zk_governance.Guest.Voting.{Journal}

-- Why a transaction reverts: a `require`, a custom error with its limit and the value, a panic of
-- checked arithmetic or of a conversion, or a call that reverts.
pub data Revert : Type 0 where
  required : String → Revert
  ratio_out_of_bounds : ℕ → ℕ → Revert
  min_duration_out_of_bounds : ℕ → ℕ → Revert
  date_out_of_bounds : ℕ → ℕ → Revert
  proposal_execution_forbidden : ℕ → Revert
  unauthorized : Revert
  arithmetic : Revert
  bad_conversion : Revert
  undecodable : Revert
  rejected_call : Revert
  wrong_helpers_array_length : ℕ → Revert
  already_initialized : Revert

pub data Tx {ℓ} (A : Type ℓ) : Type ℓ where
  done : A → Tx A
  revert : Revert → Tx A

infixl 5 ◌>>=◌ ◌>>◌
abbrev pub ◌>>=◌ {ℓ κ} : {B : Type κ} {A : Type ℓ} → Tx A → (A → Tx B) → Tx B
revert why >>= next = revert why
done x >>= next = next x

abbrev pub ◌>>◌ {ℓ} : {A : Type ℓ} → Tx (Unit {0}) → Tx A → Tx A
check >> next = check >>= λ passed. next

-- `if (!test) revert why`
abbrev pub require : Bool → Revert → Tx (Unit {0})
require test why = if test then done tt else revert why

abbrev pub expect {ℓ} : {A : Type ℓ} → Option A → Revert → Tx A
expect Option.none why = revert why
expect (Option.some a) why = done a

-- The checked `+` of a `uint` of so many bits, and the checked `-` of any.
unfoldable pub add : ℕ → ℕ → ℕ → Tx ℕ
add bits a b = if ltb (a + b) (2 ^ bits) then done (a + b) else revert arithmetic

unfoldable pub sub : ℕ → ℕ → Tx ℕ
sub a b = if ltb a b then revert arithmetic else done (a - b)

-- `SafeCastUpgradeable.toUint64`
unfoldable pub to_u64 : ℕ → Tx ℕ
to_u64 n = if ltb n (2 ^ 64) then done n else revert bad_conversion

pub data VotingMode : Type 0 where
  standard early_execution vote_replacement : VotingMode

pub data VoteOption : Type 0 where
  vote_none vote_abstain vote_yes vote_no : VoteOption

pub record VotingSettings : Type 0 where
  pub voting_mode : VotingMode
  pub support_threshold : ℕ
  pub min_participation : ℕ
  pub min_duration : ℕ
  pub min_proposer_voting_power : ℕ
  pub voting_protocol_config : String
  pub verifier : Address
  pub voting_protocol_image_id : Bytes
  pub execution_protocol_image_id : Bytes

pub record ProposalParameters : Type 0 where
  pub voting_mode : VotingMode
  pub support_threshold : ℕ
  pub start_date : ℕ
  pub end_date : ℕ
  pub snapshot_block : ℕ
  pub snapshot_block_hash : Bytes
  pub voting_protocol_config : String
  pub verifier : Address
  pub voting_protocol_image_id : Bytes
  pub execution_protocol_image_id : Bytes

pub record Tally : Type 0 where
  pub abstain_votes : ℕ
  pub yes_votes : ℕ
  pub no_votes : ℕ

-- A call that the DAO makes if the proposal passes: target, value and calldata.
pub record Action : Type 0 where
  pub to : Address
  pub value : ℕ
  pub calldata : Bytes

pub record Proposal : Type 0 where
  pub executed : Bool
  pub parameters : ProposalParameters
  pub tally : Tally
  pub voters : Address → VoteOption
  pub actions : List Action
  pub allow_failure_map : ℕ

-- The storage, and the contract's own address.
pub record Plugin : Type 0 where
  pub this : Address
  pub initialized : Bool
  pub settings : VotingSettings
  pub proposals : ℕ → Proposal

-- A write to a mapping.
abbrev pub set_proposal : Plugin → ℕ → Proposal → Plugin
set_proposal p id q = record p { proposals = λ k. if k == id then q else p.proposals k }

abbrev pub set_voter : (Address → VoteOption) → Address → VoteOption → Address → VoteOption
set_voter voters a v = λ b. if bytes_eq b a then v else voters b

pub record Block : Type 0 where
  pub number : ℕ
  pub timestamp : ℕ
  pub block_hash : ℕ → Bytes

pub data Permission : Type 0 where
  create_proposal update_voting_settings : Permission

-- What is not the plugin's: the ABI decoding and hash of the language, the verifier's contract,
-- RISC Zero's `Encoding`, and the DAO of Aragon OSx, which numbers the proposals, holds the
-- permissions and executes the actions. `execute_proposal` says whether that does not revert.
pub record Externals : Type 0 where
  pub decode_voting_journal : Bytes → Option Journal
  pub decode_execution_journal : Bytes → Option Journal
  pub decode_versioned_id : ℕ → ℕ × ℕ
  pub sha256 : Bytes → Bytes
  pub verify : Address → Bytes → Bytes → Bytes → Bool
  pub has_permission : Address → Permission → Bool
  pub execute_proposal : ℕ → List Action → ℕ → Bool
