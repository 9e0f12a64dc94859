-- ===== src/Guest/Voting.antt =====
-- `main` of methods/guest/src/bin/voting_protocol.rs, the program whose run is proved.
pub mod Undelegated
pub mod Signer
pub mod Inversion
pub mod Counted
pub mod Repeats
pub mod Accepts
use aragon_zk_governance.Common.{
  ℕ, String, Bool, Option, none, some, List, [], ◌∷◌, ◌||◌, ltb, ◌==◌, get_elem?, take,
}
use aragon_zk_governance.Outcome.{
  Outcome, ok, err, panic, assertion, index_out_of_bounds, unwrap, assert, ◌>>=◌, ◌>>◌,
}
use aragon_zk_governance.U256.{◌⊕◌, divide}
use aragon_zk_governance.Config.{Address, Bytes, Asset, Delegation, RiscVotingProtocolConfig}
use aragon_zk_governance.Steel.{Env, Commitment, call, voting_protocol_config}
use aragon_zk_governance.Crates.{Crates}
use aragon_zk_governance.Stdin.{Wire, env_read}
use aragon_zk_governance.Guest.Context.{
  Context, default_context, process_voting_strategy, process_delegation_strategy, block_commitment,
}
use aragon_zk_governance.Guest.Signature.{hash_vote, ecrecover}

pub record Journal : Type 0 where
  pub commitment : Commitment
  pub config_contract : Address
  pub proposal_id : ℕ
  pub voter : Address
  pub balance : ℕ
  pub direction : ℕ

-- What the program reads, in this order.
pub record VotingInput (Input : Type 0) : Type 0 where
  pub input : Input
  pub signature : String
  pub voter : Address
  pub dao : Address
  pub proposal_id : ℕ
  pub direction : ℕ
  pub balance : ℕ
  pub config_contract : Address
  pub additional_delegation_data : String

-- The `fold` over the delegations of one asset.
unfoldable pub fold_delegations : Context → Asset → ℕ → List Delegation → Outcome ℕ
fold_delegations c asset acc [] = ok acc
fold_delegations c asset acc (d ∷ ds) = do
  power ← process_voting_strategy c asset.voting_power_strategy d.delegate asset
  share ← divide power d.ratio
  fold_delegations c asset (share ⊕ acc) ds

-- `assert!(false)` where the delegations are an `Err`.
unfoldable pub delegations_or_panic : Outcome (List Delegation) → Outcome (List Delegation)
delegations_or_panic (ok ds) = ok ds
delegations_or_panic (err e) = panic (assertion "false")
delegations_or_panic (panic p) = panic p

-- The assertions on what is voted with.
unfoldable pub check_vote : ℕ → ℕ → ℕ → Outcome (Unit {0})
check_vote direction balance total_voting_power = do
  assert (direction == 1 || (direction == 2 || direction == 3)) "direction"
  assert (ltb 0 balance) "balance > 0"
  assert (balance == total_voting_power) "balance == total_voting_power"

module _ (ext : Crates) where
  -- The closure that is mapped over the assets.
  unfoldable pub asset_voting_power : Context → Address → String → Asset → Outcome ℕ
  asset_voting_power c voter additional_delegation_data asset = do
    additional_data ← unwrap (ext.bytes_from_str additional_delegation_data) "Bytes::from_str"
    delegations ← delegations_or_panic (process_delegation_strategy c voter asset additional_data)
    fold_delegations c asset 0 delegations

  -- `map(..).sum::<U256>()`
  unfoldable pub sum_voting_power : Context → Address → String → ℕ → List Asset → Outcome ℕ
  sum_voting_power c voter additional_delegation_data acc [] = ok acc
  sum_voting_power c voter additional_delegation_data acc (asset ∷ assets) = do
    power ← asset_voting_power c voter additional_delegation_data asset
    sum_voting_power c voter additional_delegation_data (acc ⊕ power) assets

  -- The configuration of the proposal, from the contract's answer.
  unfoldable pub read_config : Env → Address → ℕ → Outcome RiscVotingProtocolConfig
  read_config env config_contract proposal_id = do
    text ← call env (voting_protocol_config config_contract proposal_id)
    unwrap (ext.config_from_str text) "serde_json::from_str"

  -- The signature has its 65 bytes and recovers to some address, which is only printed.
  unfoldable pub check_signature : {Input : Type 0} → VotingInput Input → Outcome Address
  check_signature i = do
    let digest = hash_vote ext ext.sepolia_chain_id i.dao i.proposal_id i.direction i.balance
    byte_signature ← unwrap (ext.vec_from_hex i.signature) "Invalid hex string"
    v ← elim (get_elem? byte_signature 64) [ none ↦ panic index_out_of_bounds | some v ↦ ok v ]
    ecrecover ext v (take 64 byte_signature) digest

  module _ (wire : Wire) where
    unfoldable pub read_voting_input : List wire.Word → Outcome (VotingInput wire.Input)
    read_voting_input words = do
      (input, words) ← env_read wire.input words
      (signature, words) ← env_read wire.string words
      (voter, words) ← env_read wire.address words
      (dao, words) ← env_read wire.address words
      (proposal_id, words) ← env_read wire.u256 words
      (direction, words) ← env_read wire.u8 words
      (balance, words) ← env_read wire.u256 words
      (config_contract, words) ← env_read wire.address words
      (additional_delegation_data, words) ← env_read wire.string words
      ok (record {
        input = input;
        signature = signature;
        voter = voter;
        dao = dao;
        proposal_id = proposal_id;
        direction = direction;
        balance = balance;
        config_contract = config_contract;
        additional_delegation_data = additional_delegation_data;
      })

    -- The program after its reads: the journal that it commits.
    unfoldable pub prove_vote : VotingInput wire.Input → Outcome Journal
    prove_vote i = do
      signature_address ← check_signature i
      env ← unwrap (wire.into_env i.input) "into_env"
      config ← read_config env i.config_contract i.proposal_id
      let c = default_context ext env
      total ← sum_voting_power c i.voter i.additional_delegation_data 0 config.assets
      check_vote i.direction i.balance total
      ok (record {
        commitment = block_commitment c;
        config_contract = i.config_contract;
        proposal_id = i.proposal_id;
        voter = i.voter;
        balance = i.balance;
        direction = i.direction;
      })

    unfoldable pub voting_main : List wire.Word → Outcome Journal
    voting_main words = do i ← read_voting_input words; prove_vote i
