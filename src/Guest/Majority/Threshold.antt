-- ===== src/Guest/Majority/Threshold.antt =====
-- When `proof_execution` of strategies/src/execution_strategies/majority_voting.rs lets a proposal
-- pass.
use aragon_zk_governance.Common.{ℕ, ◌+◌, ◌*◌, ◌<◌, ◌≡◌, ◌↔◌, true, arith}
use aragon_zk_governance.U256.{modulus, ⊕-eq-add}
use aragon_zk_governance.Config.{Tally}
use aragon_zk_governance.Steel.{Env}
use aragon_zk_governance.Guest.Majority.{proof_execution}

-- As long as the three counts add up to less than 2 ^ 256, a proposal passes exactly if more than
-- half of the supply took part and more voted yes than no.
pub proof_execution_iff :
    (env : Env) (supply : ℕ) (t : Tally)
    → t.yes_votes + t.no_votes + t.abstain_votes < modulus
    → (proof_execution env supply t ≡ true)
      ↔ ((supply < 2 * (t.yes_votes + t.no_votes + t.abstain_votes)) × (t.no_votes < t.yes_votes))
unfolding proof_execution
proof_execution_iff env supply t fits = ground (
  arith,
  ⊕-eq-add t.yes_votes t.no_votes (omega arith),
  ⊕-eq-add (t.yes_votes + t.no_votes) t.abstain_votes fits,
)
