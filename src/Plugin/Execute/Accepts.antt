-- ===== src/Plugin/Execute/Accepts.antt =====
-- Which executions the plugin accepts.
use aragon_zk_governance.Common.{ℕ, ◌≡◌, ◌↔◌, sym, true, some, bytes_eq, bytes_eq_iff}
use aragon_zk_governance.Config.{Bytes}
use aragon_zk_governance.Guest.Voting.{Journal}
use aragon_zk_governance.Plugin.{done, undecodable, expect, Plugin, set_proposal, Block, Externals}
use aragon_zk_governance.Plugin.Reverts.{
  >>=-eq-done, require_passed, expect-eq-done, done-injective,
}
use aragon_zk_governance.Plugin.Vote.{check_proof}
use aragon_zk_governance.Plugin.Vote.Accepts.{IsProved, check_proof_iff}
use aragon_zk_governance.Plugin.Execute.{can_execute, execute_actions, execute}

abbrev pub executed_at : Plugin → ℕ → Plugin
executed_at p id = set_proposal p id (record (p.proposals id) { executed = true })

-- The facts that an accepted execution rests on.
pub record IsExecuted (ext : Externals) (block : Block) (p : Plugin) (journal_data seal : Bytes)
    (after : Plugin) : Type 0 where
  pub journal : Journal
  pub decoded : ext.decode_execution_journal journal_data ≡ some journal
  pub contract : journal.config_contract ≡ p.this
  pub allowed : can_execute block p journal.proposal_id ≡ done true
  pub proved :
      IsProved ext
        (p.proposals journal.proposal_id).parameters
        (p.proposals journal.proposal_id).parameters.execution_protocol_image_id
        journal
        journal_data
        seal
  pub succeeded :
      ext.execute_proposal journal.proposal_id
        (p.proposals journal.proposal_id).actions
        (p.proposals journal.proposal_id).allow_failure_map
      ≡ true
  pub stored : after ≡ executed_at p journal.proposal_id

execute-IsExecuted :
    (ext : Externals) (block : Block) (p : Plugin) (journal_data seal : Bytes) {after : Plugin}
    → execute ext block p journal_data seal ≡ done after
    → IsExecuted ext block p journal_data seal after
unfolding execute execute_actions
execute-IsExecuted ext block p journal_data seal h =
    let (j, decoded, h) =
      >>=-eq-done (expect (ext.decode_execution_journal journal_data) undecodable) _ h in
    let (contract, h) = require_passed (bytes_eq j.config_contract p.this) _ _ h in
    let q = p.proposals j.proposal_id in
    let (may, can, h) = >>=-eq-done (can_execute block p j.proposal_id) _ h in
    let (allowed, h) = require_passed may _ _ h in
    let image_id = q.parameters.execution_protocol_image_id in
    let (_, checked, h) =
      >>=-eq-done (check_proof ext q.parameters image_id j journal_data seal) _ h in
    let (succeeded, h) =
      require_passed (ext.execute_proposal j.proposal_id q.actions q.allow_failure_map) _ _ h in
    record {
      journal = j;
      decoded = expect-eq-done (ext.decode_execution_journal journal_data) _ decoded;
      contract = (bytes_eq_iff j.config_contract p.this).0 contract;
      allowed = rw allowed at can;
      proved = (check_proof_iff ext q.parameters image_id j journal_data seal).0 checked;
      succeeded = succeeded;
      stored = sym (done-injective h);
    }

IsExecuted-execute :
    (ext : Externals) (block : Block) (p : Plugin) (journal_data seal : Bytes) {after : Plugin}
    → IsExecuted ext block p journal_data seal after
    → execute ext block p journal_data seal ≡ done after
unfolding execute execute_actions
IsExecuted-execute ext block p journal_data seal e = rw (
  e.decoded,
  (bytes_eq_iff e.journal.config_contract p.this).1 e.contract,
  e.allowed,
  (check_proof_iff ext _ _ e.journal journal_data seal).1 e.proved,
  e.succeeded,
  e.stored,
)

-- The plugin executes a proposal exactly if the journal decodes, names the plugin, commits to the
-- snapshot of a proposal that can be executed, and is proved for the proposal's execution program,
-- and the DAO's execution does not revert; and then just that proposal is marked as executed.
pub execute_iff :
    (ext : Externals) (block : Block) (p : Plugin) (journal_data seal : Bytes) (after : Plugin)
    → (execute ext block p journal_data seal ≡ done after)
      ↔ IsExecuted ext block p journal_data seal after
execute_iff ext block p journal_data seal after = (
  execute-IsExecuted ext block p journal_data seal,
  IsExecuted-execute ext block p journal_data seal,
)
