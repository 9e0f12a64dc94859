-- ===== src/Host/ExecutionPublisher/Sent.antt =====
-- What execution_publisher.rs sends to the chain.
use aragon_zk_governance.Common.{◌≡◌, ◌≢◌, some, List, [], ◌∷◌, arith, Bool-cases, inl, inr, ◌==◌}
use aragon_zk_governance.Outcome.{ok, or_err}
use aragon_zk_governance.Config.{Bytes, Tally}
use aragon_zk_governance.Steel.{Env}
use aragon_zk_governance.Crates.{Crates}
use aragon_zk_governance.Stdin.{Wire}
use aragon_zk_governance.Guest.Voting.{Journal}
use aragon_zk_governance.Host.Node.{Node, Transaction, execute, execution_protocol_elf, open_env}
use aragon_zk_governance.Host.Node.Sent.{then_run-sent, publish-sent}
use aragon_zk_governance.Host.ExecutionPublisher.{
  Args, tally_of, preflight_execution, write_input, prove_and_send, main,
}

module _ (ext : Crates) (wire : Wire) (node : Node wire) (args : Args) where
  -- The facts about a transaction that the execution publisher has sent.
  pub record IsExecutionOf (sent : Transaction) : Type 0 where
    pub tally : Tally
    pub env : Env
    pub view_call_input : wire.Input
    pub receipt : node.Receipt
    pub seal : Bytes
    pub three_counts : tally_of args.tally ≡ ok tally
    pub opened : open_env wire node args.rpc_url args.block_number ≡ ok env
    pub passed : (preflight_execution ext args tally env []).0 ≡ ok tt
    pub real : args.testing ≢ 1
    pub proved :
        node.prove execution_protocol_elf (write_input ext wire node args tally view_call_input)
        ≡ some receipt
    pub journal : Journal
    pub decodes : node.decode_voting_journal (node.journal_bytes receipt) ≡ some journal
    pub call : sent ≡ execute args.config_contract (node.journal_bytes receipt) seal

  prove_and_send-executed :
      (tally : Tally) (env : Env) (sent : Transaction) {rest : List Transaction}
      → tally_of args.tally ≡ ok tally
      → open_env wire node args.rpc_url args.block_number ≡ ok env
      → (preflight_execution ext args tally env []).0 ≡ ok tt
      → args.testing ≢ 1
      → (prove_and_send ext wire node args tally env
          (preflight_execution ext args tally env []).1).1
        ≡ sent ∷ rest
      → (rest ≡ []) × IsExecutionOf sent
  unfolding prove_and_send
  prove_and_send-executed tally env sent counts opened passed real h =
      let log = (preflight_execution ext args tally env []).1 in
      let (view, ev, h) = then_run-sent (or_err (node.into_input env log) _) _ h in
      let (r, seal, proved, same, last, (j, decodes)) =
        publish-sent wire node execution_protocol_elf (write_input ext wire node args tally view)
          (execute args.config_contract) sent h in
      (
        last,
        record {
          tally = tally;
          env = env;
          view_call_input = view;
          receipt = r;
          seal = seal;
          three_counts = counts;
          opened = opened;
          passed = passed;
          real = real;
          proved = proved;
          journal = j;
          decodes = decodes;
          call = same;
        },
      )

  -- A run of the execution publisher sends at most one transaction. It sends that only if `testing`
  -- is not 1, the tally has three counts, the environment opens and the preflight passes; and it
  -- calls `execute` of the plugin with the journal of a receipt of the execution program on the
  -- words that it wrote.
  pub main-executed :
      (sent : Transaction) {rest : List Transaction}
      → (main ext wire node args).1 ≡ sent ∷ rest
      → (rest ≡ []) × IsExecutionOf sent
  unfolding main
  main-executed sent h =
      let (tally, counts, h) = then_run-sent (tally_of args.tally) _ h in
      let (env, opened, h) =
        then_run-sent (open_env wire node args.rpc_url args.block_number) _ h in
      let (_, passed, h2) = then_run-sent (preflight_execution ext args tally env []).0 _ h in
      elim (Bool-cases (args.testing == 1)) [
        | inl testing ↦ cc (rw testing at h2)
        | inr not_testing ↦
            prove_and_send-executed tally env sent counts opened passed (λ e. ground arith)
              (rw not_testing at h2)
      ]
