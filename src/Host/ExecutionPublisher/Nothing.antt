-- ===== src/Host/ExecutionPublisher/Nothing.antt =====
-- How a run of execution_publisher.rs ends, with the journals of execution_protocol.rs in their
-- ABI encoding.
use aragon_zk_governance.Common.{
  ◌≡◌, ◌≢◌, refl, false, sym, ap, ◌∙◌, some, List, [], ◌∷◌, arith, length, Bool-cases, inl, inr,
  ◌⊎◌, ◌==◌, ==_iff,
}
use aragon_zk_governance.Outcome.{Outcome, ok, err, panic, or_err}
use aragon_zk_governance.Config.{Bytes}
use aragon_zk_governance.Crates.{Crates}
use aragon_zk_governance.Stdin.{Wire}
use aragon_zk_governance.Abi.{words, voting_words, execution_words, length-words}
use aragon_zk_governance.Guest.Voting.{Journal}
use aragon_zk_governance.Guest.Execution.{ExecutionJournal, execution_main}
use aragon_zk_governance.Host.Node.{
  Node, Transaction, Run, then_run, execute, execution_protocol_elf, open_env, publish,
}
use aragon_zk_governance.Host.Node.Sent.{or_err-eq-ok}
use aragon_zk_governance.Host.ExecutionPublisher.{
  Args, tally_of, preflight_execution, write_input, prove_and_send, main,
}
use aragon_zk_governance.Host.ExecutionPublisher.Sent.{main-executed}

-- A receipt of the execution program has the journal of a run of it; and the strict decoding of a
-- `VotingJournal` accepts only what it would encode the result as.
pub record IsStrict (crates : Crates) (wire : Wire) (node : Node wire) : Type 0 where
  pub encoded :
      (stdin : List wire.Word) (r : node.Receipt)
      → node.prove execution_protocol_elf stdin ≡ some r
      → (j : ExecutionJournal) × (execution_main crates wire stdin ≡ ok j)
        × (node.journal_bytes r ≡ words (execution_words j))
  pub strict :
      (bytes : Bytes) (j : Journal)
      → node.decode_voting_journal bytes ≡ some j
      → bytes ≡ words (voting_words j)

-- Eight words are not eleven.
execution_words-apart :
    (e : ExecutionJournal) (j : Journal) → words (execution_words e) ≢ words (voting_words j)
execution_words-apart e j same = omega (
  arith,
  ap (λ (b : Bytes). length b) same,
  length-words (execution_words e),
  length-words (voting_words j),
)

nothing_of :
    (l : List Transaction)
    → ((sent : Transaction) (rest : List Transaction) → l ≢ sent ∷ rest)
    → l ≡ []
nothing_of [] h = refl
nothing_of (sent ∷ rest) h = absurd (h sent rest refl)

-- A run that ends well has gone through its steps.
then_run-eq-ok {ℓ} :
    {A : Type ℓ} (o : Outcome A) (k : A → Run)
    → (then_run o k).0 ≡ ok tt
    → (a : A) × (o ≡ ok a) × ((k a).0 ≡ ok tt)
then_run-eq-ok (ok a) k h = (a, refl, h)
then_run-eq-ok (err e) k h = cc
then_run-eq-ok (panic p) k h = cc

module _ (wire : Wire) (node : Node wire) where
  publish-eq-ok :
      (stdin : List wire.Word) (f : Bytes → Bytes → Transaction)
      → (publish wire node execution_protocol_elf stdin f).0 ≡ ok tt
      → (r : node.Receipt) × (j : Journal) × (node.prove execution_protocol_elf stdin ≡ some r)
        × (node.decode_voting_journal (node.journal_bytes r) ≡ some j)
  unfolding publish
  publish-eq-ok stdin f h =
      let proof = node.prove execution_protocol_elf stdin in
      let (r, er, h) = then_run-eq-ok (or_err proof _) _ h in
      let decoded = node.decode_voting_journal (node.journal_bytes r) in
      let (j, ej, _) = then_run-eq-ok (or_err decoded _) _ h in
      (r, j, or_err-eq-ok proof _ er, or_err-eq-ok decoded _ ej)

  no_journal :
      (crates : Crates)
      → IsStrict crates wire node
      → (stdin : List wire.Word) (r : node.Receipt) (j : Journal)
      → node.prove execution_protocol_elf stdin ≡ some r
      → node.decode_voting_journal (node.journal_bytes r) ≢ some j
  no_journal crates abi stdin r j proved decodes =
      let (e, _, bytes) = abi.encoded stdin r proved in
      execution_words-apart e j (sym bytes ∙ abi.strict (node.journal_bytes r) j decodes)

module _ (crates : Crates) (wire : Wire) (node : Node wire) (args : Args) where
  main-fails : IsStrict crates wire node → args.testing ≢ 1 → (main crates wire node args).0 ≢ ok tt
  unfolding main prove_and_send
  main-fails abi real h =
      let (tally, _, h) = then_run-eq-ok (tally_of args.tally) _ h in
      let (env, _, h) = then_run-eq-ok (open_env wire node args.rpc_url args.block_number) _ h in
      let preflight = preflight_execution crates args tally env [] in
      let (_, _, h) = then_run-eq-ok preflight.0 _ h in
      let not_testing : (args.testing == 1) ≡ false = ground arith in
      let h = rw not_testing at h in
      let (view, _, h) = then_run-eq-ok (or_err (node.into_input env preflight.1) _) _ h in
      let stdin = write_input crates wire node args tally view in
      let (r, j, proved, decodes) =
        publish-eq-ok wire node stdin (execute args.config_contract) h in
      no_journal wire node crates abi stdin r j proved decodes

  -- The execution publisher never sends a transaction, whatever its arguments, and unless `testing`
  -- is 1 it does not end well: the journal that the execution program commits has an array, and is
  -- no encoding of the struct that the publisher decodes before it sends. (Receipts have the
  -- ABI-encoded journals of runs, and the decoding is strict.)
  pub main-sends_nothing :
      IsStrict crates wire node
      → ((main crates wire node args).1 ≡ [])
        × ((args.testing ≡ 1) ⊎ ((main crates wire node args).0 ≢ ok tt))
  main-sends_nothing abi = (
    nothing_of (main crates wire node args).1 (λ sent rest h.
        let (_, e) = main-executed crates wire node args sent h in
        no_journal wire node crates abi _ e.receipt e.journal e.proved e.decodes),
    elim (Bool-cases (args.testing == 1)) [
      | inl testing ↦ inl ((==_iff args.testing 1).0 testing)
      | inr other ↦ inr (main-fails abi (λ e. ground arith))
    ],
  )
