-- ===== src/Tests/Abi.antt =====
-- Journals in ABI words: a node whose receipts have them, and a plugin that decodes them.
use mathlib.Core.Option.{some-injective}
use aragon_zk_governance.Common.{
  ℕ, ◌/◌, ◌%◌, ◌^◌, ◌<◌, ◌≡◌, ◌≢◌, ◌⊎◌, refl, sym, ap, ◌∙◌, Option, none, some, List, [], ◌++◌,
  bytes_eq, bytes_eq_iff, if◌then◌else◌, take, drop, take-append, arith, Bool-cases, inl, inr,
}
use aragon_zk_governance.Outcome.{Outcome, ok, err, panic}
use aragon_zk_governance.Config.{Bytes}
use aragon_zk_governance.Bytes.{from_be_bytes}
use aragon_zk_governance.Bytes.Laws.{length-to_be_bytes, from_be_bytes-to_be_bytes}
use aragon_zk_governance.Abi.{word, words, voting_words, execution_words}
use aragon_zk_governance.Guest.Voting.{Journal, voting_main}
use aragon_zk_governance.Guest.Execution.{ExecutionJournal, read_execution_input, execution_main}
use aragon_zk_governance.Host.Node.{
  Node, Program, voting_protocol_elf, execution_protocol_elf, Transaction,
}
use aragon_zk_governance.Host.ExecutionPublisher.{main}
use aragon_zk_governance.Host.ExecutionPublisher.Nothing.{IsStrict, main-sends_nothing}
use aragon_zk_governance.Plugin.{done, Proposal, Externals}
use aragon_zk_governance.Plugin.Writes.{set_proposal_cases}
use aragon_zk_governance.Plugin.Settings.{stored}
use aragon_zk_governance.Plugin.Reach.{no_proposal}
use aragon_zk_governance.Plugin.Execute.{execute}
use aragon_zk_governance.Plugin.Execute.Never.{IsAbi, IsExecutionVerifier, execute_never}
use aragon_zk_governance.Tests.World.{env, ext, dao, plugin}
use aragon_zk_governance.Tests.Format.{wire, Word}
use aragon_zk_governance.Tests.Prover.{node}
use aragon_zk_governance.Tests.Execution.{tally, execution_args, executed, proves_execution}
use aragon_zk_governance.Tests.Chain.{chain, block, settings, request, at_first, at_create}

-- The word at a position.
abbrev word_at : ℕ → Bytes → Bytes
word_at n bytes = take 32 (drop n bytes)

abbrev read_journal : Bytes → Journal
read_journal bytes = record {
  commitment = record {
    id = from_be_bytes 0 (word_at 0 bytes);
    digest = word_at 32 bytes;
    config_id = word_at 64 bytes;
  };
  config_contract = word_at 96 bytes;
  proposal_id = from_be_bytes 0 (word_at 128 bytes);
  voter = word_at 160 bytes;
  balance = from_be_bytes 0 (word_at 192 bytes);
  direction = from_be_bytes 0 (word_at 224 bytes);
}

abbrev strict_decode : Bytes → Option Journal
strict_decode bytes =
    if bytes_eq bytes (words (voting_words (read_journal bytes)))
    then some (read_journal bytes)
    else none

strict_decode-eq-some :
    (bytes : Bytes) (j : Journal) → strict_decode bytes ≡ some j → bytes ≡ words (voting_words j)
strict_decode-eq-some bytes j h =
    let again = words (voting_words (read_journal bytes)) in
    elim (Bool-cases (bytes_eq bytes again)) [
      | inl same ↦
          let one : read_journal bytes ≡ j = some-injective _ _ (rw same at h) in
          (bytes_eq_iff bytes again).0 same ∙ ap (λ (x : Journal). words (voting_words x)) one
      | inr other ↦ cc (rw other at h)
    ]

abbrev voting_bytes : Outcome Journal → Option Bytes
voting_bytes (ok j) = some (words (voting_words j))
voting_bytes (err e) = none
voting_bytes (panic p) = none

abbrev execution_bytes : Outcome ExecutionJournal → Option Bytes
execution_bytes (ok j) = some (words (execution_words j))
execution_bytes (err e) = none
execution_bytes (panic p) = none

execution_bytes-eq-some :
    (o : Outcome ExecutionJournal) (r : Bytes)
    → execution_bytes o ≡ some r
    → (j : ExecutionJournal) × (o ≡ ok j) × (r ≡ words (execution_words j))
execution_bytes-eq-some (ok j) r h = (j, refl, sym (some-injective _ _ h))
execution_bytes-eq-some (err e) r h = cc
execution_bytes-eq-some (panic p) r h = cc

abbrev prove_bytes : Program → List Word → Option Bytes
prove_bytes voting_protocol_elf stdin = voting_bytes (voting_main ext wire stdin)
prove_bytes execution_protocol_elf stdin = execution_bytes (execution_main ext wire stdin)

abbrev abi_node : Node wire
abi_node = record node {
  Receipt = Bytes;
  prove = prove_bytes;
  journal_bytes = λ r. r;
  encode_seal = λ r. some [];
  decode_voting_journal = strict_decode;
}

abi_node-IsStrict : IsStrict ext wire abi_node
abi_node-IsStrict = record {
  encoded = λ stdin r h. execution_bytes-eq-some (execution_main ext wire stdin) r h;
  strict = strict_decode-eq-some;
}

abbrev no_transactions : List Transaction
no_transactions = []

main-sends_nothing_example :
    ((main ext wire abi_node execution_args).1 ≡ no_transactions)
    × ((execution_args.testing ≡ 1) ⊎ ((main ext wire abi_node execution_args).0 ≢ ok tt))
main-sends_nothing_example = main-sends_nothing ext wire abi_node execution_args abi_node-IsStrict

-- The words in the order in which the guest reads them.
abbrev stdin : List Word
stdin =
    wire.input.write env
    ++ (wire.address.write dao
        ++ (wire.u256.write 1 ++ (wire.tally.write tally ++ wire.address.write plugin)))

runs : execution_main ext wire stdin ≡ ok executed
unfolding execution_main read_execution_input
runs = proves_execution

-- A verifier of that one run, and a decoding by positions.
abbrev abi_chain : Externals
abi_chain = record chain {
  decode_execution_journal = λ bytes. some (read_journal bytes);
  decode_versioned_id = λ id. (id % 2 ^ 240, id / 2 ^ 240);
  verify = λ verifier seal image_id digest. bytes_eq digest (words (execution_words executed));
}

first_word :
    (id : ℕ) (rest : Bytes) → id < 2 ^ 256 → from_be_bytes 0 (word_at 0 (word id ++ rest)) ≡ id
first_word id rest h =
    let cut : take 32 (word id ++ rest) ≡ word id =
      rw (length-to_be_bytes 32 id) at (take-append (word id) rest) in
    rw cut (from_be_bytes-to_be_bytes 32 id h)

abi_chain-IsAbi : IsAbi abi_chain
abi_chain-IsAbi = record {
  first_word = λ id rest j small h.
      ap (λ (x : Journal). x.commitment.id) (sym (some-injective _ _ h)) ∙ first_word id rest small;
  versioned = λ id. refl;
}

abi_chain-IsExecutionVerifier :
    (verifier image_id : Bytes) → IsExecutionVerifier ext wire abi_chain verifier image_id
abi_chain-IsExecutionVerifier verifier image_id = record {
  ran = λ journal_data seal h.
      (stdin, executed, runs, (bytes_eq_iff journal_data (words (execution_words executed))).0 h);
}

snapshots : (id : ℕ) → (at_create.proposals id).parameters.snapshot_block ≢ 32
unfolding stored
snapshots id =
    set_proposal_cases (λ (q : Proposal). q.parameters.snapshot_block ≢ 32) at_first 1
      (stored settings block 10 1000 4600 request no_proposal) id (λ same h. omega (arith, h))
      (λ h. omega (arith, h))

execute_never_example :
    execute abi_chain block at_create (words (execution_words executed)) [] ≢ done at_create
execute_never_example =
    execute_never ext wire abi_chain block at_create at_create (words (execution_words executed)) []
      abi_chain-IsAbi
      (λ id.
        abi_chain-IsExecutionVerifier (at_create.proposals id).parameters.verifier
          (at_create.proposals id).parameters.execution_protocol_image_id)
      snapshots
