-- ===== src/Guest/Execution.antt =====
-- `main` of methods/guest/src/bin/execution_protocol.rs.
pub mod Accepts
pub mod PastVotes
pub mod Unsupplied
pub mod Supplyless
use aragon_zk_governance.Common.{ℕ, List, [], ◌∷◌}
use aragon_zk_governance.Outcome.{Outcome, ok, unwrap, assert, ◌>>=◌, ◌>>◌}
use aragon_zk_governance.U256.{◌⊕◌}
use aragon_zk_governance.Config.{Address, Asset, Tally}
use aragon_zk_governance.Steel.{Commitment}
use aragon_zk_governance.Crates.{Crates}
use aragon_zk_governance.Stdin.{Wire, env_read}
use aragon_zk_governance.Guest.Context.{
  Context, default_context, process_total_supply, process_execution_strategy, block_commitment,
}
use aragon_zk_governance.Guest.Voting.{read_config}

pub record ExecutionJournal : Type 0 where
  pub commitment : Commitment
  pub config_contract : Address
  pub proposal_id : ℕ
  pub tally : Tally

pub record ExecutionInput (Input : Type 0) : Type 0 where
  pub input : Input
  pub dao : Address
  pub proposal_id : ℕ
  pub tally : Tally
  pub config_contract : Address

-- `map(..).sum::<U256>()`
unfoldable pub sum_total_supply : Context → ℕ → List Asset → Outcome ℕ
sum_total_supply c acc [] = ok acc
sum_total_supply c acc (asset ∷ assets) = do
  supply ← process_total_supply c asset
  sum_total_supply c (acc ⊕ supply) assets

module _ (ext : Crates) (wire : Wire) where
  unfoldable pub read_execution_input : List wire.Word → Outcome (ExecutionInput wire.Input)
  read_execution_input words = do
    (input, words) ← env_read wire.input words
    (dao, words) ← env_read wire.address words
    (proposal_id, words) ← env_read wire.u256 words
    (tally, words) ← env_read wire.tally words
    (config_contract, words) ← env_read wire.address words
    ok (record {
      input = input;
      dao = dao;
      proposal_id = proposal_id;
      tally = tally;
      config_contract = config_contract;
    })

  -- The program after its reads: the journal that it commits.
  unfoldable pub prove_execution : ExecutionInput wire.Input → Outcome ExecutionJournal
  prove_execution i = do
    env ← unwrap (wire.into_env i.input) "into_env"
    config ← read_config ext env i.config_contract i.proposal_id
    let c = default_context ext env
    total_voting_power ← sum_total_supply c 0 config.assets
    passes ← process_execution_strategy c config.execution_strategy total_voting_power i.tally
    assert passes "process_execution_strategy"
    ok (record {
      commitment = block_commitment c;
      config_contract = i.config_contract;
      proposal_id = i.proposal_id;
      tally = i.tally;
    })

  unfoldable pub execution_main : List wire.Word → Outcome ExecutionJournal
  execution_main words = do i ← read_execution_input words; prove_execution i
