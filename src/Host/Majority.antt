-- ===== src/Host/Majority.antt =====
-- apps/src/execution_strategies.rs and its majority_voting.rs.
use aragon_zk_governance.Common.{ℕ, ◌/◌, Bool, false, ltb, leb, if◌then◌else◌}
use aragon_zk_governance.U256.{◌⊕◌}
use aragon_zk_governance.Config.{Tally}
use aragon_zk_governance.Steel.{Env}

pub record ExecutionStrategy : Type 0 where
  pub proof_execution : Env → ℕ → Tally → Bool

unfoldable pub proof_execution : Env → ℕ → Tally → Bool
proof_execution env total_supply tally =
    let total_votes = tally.yes_votes ⊕ tally.no_votes ⊕ tally.abstain_votes in
    if leb total_votes (total_supply / 2)
    then false
    else let non_abstain_votes = tally.yes_votes ⊕ tally.no_votes in
      ltb (non_abstain_votes / 2) tally.yes_votes

abbrev pub majority_voting : ExecutionStrategy
majority_voting = record { proof_execution = proof_execution }
