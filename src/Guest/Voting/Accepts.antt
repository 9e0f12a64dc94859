-- ===== src/Guest/Voting/Accepts.antt =====
-- Which inputs the voting program of methods/guest/src/bin/voting_protocol.rs accepts, and the
-- journal that it then commits.
use aragon_zk_governance.Common.{ℕ, ◌≤◌, ◌<◌, ◌≡◌, ◌↔◌, refl, sym, ap, ◌∙◌, some, arith}
use aragon_zk_governance.Outcome.{ok, unwrap, >>=-eq-ok, unwrap-eq-ok, ok-injective}
use aragon_zk_governance.Config.{Address, RiscVotingProtocolConfig}
use aragon_zk_governance.Steel.{Env}
use aragon_zk_governance.Crates.{Crates}
use aragon_zk_governance.Stdin.{Wire}
use aragon_zk_governance.Guest.Context.{default_context, block_commitment-default_context}
use aragon_zk_governance.Guest.Voting.{
  Journal, VotingInput, sum_voting_power, read_config, check_signature, check_vote, prove_vote,
}

pub check_vote_iff :
    {direction balance total : ℕ}
    → (check_vote direction balance total ≡ ok tt)
      ↔ ((1 ≤ direction) × (direction ≤ 3) × (0 < balance) × (balance ≡ total))
unfolding check_vote
check_vote_iff = ground arith

module _ (ext : Crates) (wire : Wire) where
  -- The facts that an accepted vote rests on.
  pub record IsAccepted (i : VotingInput wire.Input) (j : Journal) : Type 0 where
    pub signer : Address
    pub env : Env
    pub config : RiscVotingProtocolConfig
    pub recovers : check_signature ext i ≡ ok signer
    pub opens : wire.into_env i.input ≡ some env
    pub configured : read_config ext env i.config_contract i.proposal_id ≡ ok config
    -- the balance that is voted with is the power of the claimed accounts
    pub counted :
        sum_voting_power ext
          (default_context ext env)
          i.voter
          i.additional_delegation_data
          0
          config.assets
        ≡ ok i.balance
    pub direction_from : 1 ≤ i.direction
    pub direction_to : i.direction ≤ 3
    pub not_empty : 0 < i.balance
    pub journal : j ≡ record {
      commitment = env.commitment;
      config_contract = i.config_contract;
      proposal_id = i.proposal_id;
      voter = i.voter;
      balance = i.balance;
      direction = i.direction;
    }

  prove_vote-IsAccepted :
      (i : VotingInput wire.Input) (j : Journal) → prove_vote ext wire i ≡ ok j → IsAccepted i j
  unfolding prove_vote
  prove_vote-IsAccepted i j h =
      let (signer, recovers, h) = >>=-eq-ok (check_signature ext i) _ h in
      let (env, opens, h) = >>=-eq-ok (unwrap (wire.into_env i.input) "into_env") _ h in
      let (config, configured, h) =
        >>=-eq-ok (read_config ext env i.config_contract i.proposal_id) _ h in
      let (total, counted, h) = >>=-eq-ok (sum_voting_power ext _ i.voter _ 0 config.assets) _ h in
      let (_, checked, h) = >>=-eq-ok (check_vote i.direction i.balance total) _ h in
      let (from, to, positive, same) = check_vote_iff.0 checked in
      record {
        signer = signer;
        env = env;
        config = config;
        recovers = recovers;
        opens = unwrap-eq-ok (wire.into_env i.input) _ opens;
        configured = configured;
        counted = counted ∙ ap ok (sym same);
        direction_from = from;
        direction_to = to;
        not_empty = positive;
        journal = rw (← block_commitment-default_context ext env) (sym (ok-injective h));
      }

  IsAccepted-prove_vote :
      (i : VotingInput wire.Input) (j : Journal) → IsAccepted i j → prove_vote ext wire i ≡ ok j
  unfolding prove_vote
  IsAccepted-prove_vote i j a = rw (
    a.recovers,
    a.opens,
    a.configured,
    a.counted,
    check_vote_iff.1 (a.direction_from, a.direction_to, a.not_empty, refl),
    a.journal,
    block_commitment-default_context,
  )

  -- The program commits a journal exactly if the signature recovers to some address, the input
  -- opens as an environment, the contract gives a configuration, the direction is 1, 2 or 3, and the
  -- balance is above 0 and is the power that is counted over all assets; and the journal then holds
  -- the environment's commitment and the contract, proposal, voter, balance and direction as read.
  pub prove_vote_iff :
      (i : VotingInput wire.Input) (j : Journal) → (prove_vote ext wire i ≡ ok j) ↔ IsAccepted i j
  prove_vote_iff i j = (prove_vote-IsAccepted i j, IsAccepted-prove_vote i j)
