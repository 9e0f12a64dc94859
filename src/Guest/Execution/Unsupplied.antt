-- ===== src/Guest/Execution/Unsupplied.antt =====
-- execution_protocol.rs over a configuration with an asset whose supply cannot be read.
use aragon_zk_governance.Common.{ℕ, ◌≡◌, ◌≢◌, Option, List, ◌∷◌, [], ◌++◌}
use aragon_zk_governance.Outcome.{ok, >>=-eq-ok}
use aragon_zk_governance.U256.{◌⊕◌}
use aragon_zk_governance.Config.{Asset, RiscVotingProtocolConfig}
use aragon_zk_governance.Steel.{Env}
use aragon_zk_governance.Crates.{Crates}
use aragon_zk_governance.Stdin.{Wire}
use aragon_zk_governance.Guest.Context.{Context, default_context, process_total_supply}
use aragon_zk_governance.Guest.Voting.{read_config}
use aragon_zk_governance.Guest.Execution.{
  ExecutionInput, ExecutionJournal, sum_total_supply, prove_execution,
}

-- A sum that succeeds has asked every asset.
sum_total_supply-eq-ok :
    (c : Context) (acc : ℕ) (before : List Asset) (asset : Asset) (after : List Asset) {total : ℕ}
    → sum_total_supply c acc (before ++ asset ∷ after) ≡ ok total
    → (supply : ℕ) × (process_total_supply c asset ≡ ok supply)
unfolding sum_total_supply
sum_total_supply-eq-ok c acc [] asset after h =
    let (supply, e, rest) = >>=-eq-ok (process_total_supply c asset) _ h in (supply, e)
sum_total_supply-eq-ok c acc (b ∷ before) asset after h =
    let (supply, e, rest) = >>=-eq-ok (process_total_supply c b) _ h in
    sum_total_supply-eq-ok c (acc ⊕ supply) before asset after rest

-- If one asset of the configuration has no supply, the execution program commits nothing.
pub prove_execution-unsupplied :
    (ext : Crates) (wire : Wire) (i : ExecutionInput wire.Input) (env : Env)
    (config : RiscVotingProtocolConfig) (before after : List Asset) (asset : Asset)
    → wire.into_env i.input ≡ Option.some env
    → read_config ext env i.config_contract i.proposal_id ≡ ok config
    → config.assets ≡ before ++ asset ∷ after
    → ((supply : ℕ) → process_total_supply (default_context ext env) asset ≢ ok supply)
    → (j : ExecutionJournal) → prove_execution ext wire i ≢ ok j
unfolding prove_execution
prove_execution-unsupplied ext wire i env config before after asset opens configured listed
      unsupplied j h =
    let (total, summed, _) =
      >>=-eq-ok (sum_total_supply (default_context ext env) 0 config.assets) _
        (rw (opens, configured) at h) in
    let (supply, e) =
      sum_total_supply-eq-ok (default_context ext env) 0 before asset after (rw listed at summed) in
    unsupplied supply e
