-- ===== src/Plugin/Execute/Never.antt =====
-- `execute` and the journals that execution_protocol.rs commits.
use aragon_zk_governance.Common.{
  ℕ, ◌/◌, ◌%◌, ◌^◌, ◌<◌, ◌≡◌, ◌≢◌, sym, some, true, List, ◌++◌, arith,
}
use aragon_zk_governance.Outcome.{ok}
use aragon_zk_governance.Config.{Address, Bytes}
use aragon_zk_governance.Crates.{Crates}
use aragon_zk_governance.Stdin.{Wire}
use aragon_zk_governance.Guest.Voting.{Journal}
use aragon_zk_governance.Guest.Execution.{ExecutionJournal, execution_main}
use aragon_zk_governance.Abi.{word, words, execution_words}
use aragon_zk_governance.Plugin.{done, Plugin, Block, Externals}
use aragon_zk_governance.Plugin.Execute.{execute}
use aragon_zk_governance.Plugin.Execute.Accepts.{execute_iff}

-- The verifier accepts a seal only for a journal that a run of the execution program committed.
pub record IsExecutionVerifier (crates : Crates) (wire : Wire) (ext : Externals)
    (verifier : Address) (image_id : Bytes) : Type 0 where
  pub ran :
      (journal_data seal : Bytes)
      → ext.verify verifier seal image_id (ext.sha256 journal_data) ≡ true
      → (stdin : List wire.Word) × (j : ExecutionJournal) × (execution_main crates wire stdin
          ≡ ok j)
        × (journal_data ≡ words (execution_words j))

-- The language's decoding of the plugin's struct, whose first word is the commitment's `id`, and
-- `Encoding.decodeVersionedID`, which takes 240 bits for the block and 16 for the version.
pub record IsAbi (ext : Externals) : Type 0 where
  pub first_word :
      (id : ℕ) (rest : Bytes) (j : Journal)
      → id < 2 ^ 256
      → ext.decode_execution_journal (word id ++ rest) ≡ some j
      → j.commitment.id ≡ id
  pub versioned : (id : ℕ) → ext.decode_versioned_id id ≡ (id % 2 ^ 240, id / 2 ^ 240)

-- No proposal is ever executed, if the verifiers accept only journals of runs of the execution
-- program: the plugin takes the first word of such a journal, which is the offset of a dynamic
-- struct and so always 32, for the committed block, and no proposal's snapshot is block 32. (The
-- plugin decodes by the contract ABI, and takes the lower 240 bits for the block.)
pub execute_never :
    (crates : Crates) (wire : Wire) (ext : Externals) (block : Block) (p after : Plugin)
    (journal_data seal : Bytes)
    → IsAbi ext
    → ((id : ℕ)
        → IsExecutionVerifier crates wire ext
            (p.proposals id).parameters.verifier
            (p.proposals id).parameters.execution_protocol_image_id)
    → ((id : ℕ) → (p.proposals id).parameters.snapshot_block ≢ 32)
    → execute ext block p journal_data seal ≢ done after
execute_never crates wire ext block p after journal_data seal abi sound other h =
    let e = (execute_iff ext block p journal_data seal after).0 h in
    let id = e.journal.proposal_id in
    let (stdin, j, ran, same) = (sound id).ran journal_data seal e.proved.verified in
    let decoded = rw same at e.decoded in
    let first : e.journal.commitment.id ≡ 32 =
      abi.first_word 32 _ e.journal (omega arith) decoded in
    let claim = rw (first, abi.versioned 32) at e.proved.claim in other id (sym claim)
