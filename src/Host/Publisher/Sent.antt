-- ===== src/Host/Publisher/Sent.antt =====
-- What publisher.rs sends to the chain.
use aragon_zk_governance.Common.{
  ◌≤◌, ◌<◌, ◌≡◌, ◌≢◌, sym, ap, ◌∙◌, some, List, [], ◌∷◌, arith, Bool-cases, inl, inr, ◌==◌,
}
use aragon_zk_governance.Outcome.{ok, or_err}
use aragon_zk_governance.Config.{Bytes}
use aragon_zk_governance.Steel.{Env}
use aragon_zk_governance.Crates.{Crates}
use aragon_zk_governance.Stdin.{Wire, IsLawfulWire}
use aragon_zk_governance.Host.Node.{Node, Transaction, vote, voting_protocol_elf, open_env}
use aragon_zk_governance.Host.Publisher.{Args, preflight_vote, write_input, prove_and_send, main}
use aragon_zk_governance.Host.Node.Sent.{then_run-sent, publish-sent}
use aragon_zk_governance.Host.Publisher.Stdin.{voting_main-write_input}
use aragon_zk_governance.Guest.Voting.{Journal, voting_main}
use aragon_zk_governance.Guest.Voting.Accepts.{prove_vote_iff}
use aragon_zk_governance.Agreement.Accepted.{vote_input}

-- A receipt of the voting program shows a run of it on that input, and its journal decodes to what
-- the run committed.
pub record IsSoundProver (ext : Crates) (wire : Wire) (node : Node wire) : Type 0 where
  pub proved :
      (stdin : List wire.Word) (r : node.Receipt)
      → node.prove voting_protocol_elf stdin ≡ some r
      → (j : Journal) × (voting_main ext wire stdin ≡ ok j)
        × (node.decode_voting_journal (node.journal_bytes r) ≡ some j)

-- The facts about a transaction that the publisher has sent.
pub record IsVoteOf (wire : Wire) (node : Node wire) (args : Args) (sent : Transaction)
    : Type 0 where
  pub bytes : Bytes
  pub seal : Bytes
  pub journal : Journal
  pub call : sent ≡ vote args.config_contract bytes seal
  pub decodes : node.decode_voting_journal bytes ≡ some journal
  pub voter : journal.voter ≡ args.voter
  pub proposal : journal.proposal_id ≡ args.proposal_id
  pub contract : journal.config_contract ≡ args.config_contract
  pub direction : journal.direction ≡ args.direction
  pub balance : journal.balance ≡ args.balance
  pub direction_from : 1 ≤ args.direction
  pub direction_to : args.direction ≤ 3
  pub not_empty : 0 < args.balance

module _ (ext : Crates) (wire : Wire) (node : Node wire) (args : Args) where
  -- Before a transaction stand an environment, a preflight that passed, and a run that is no test.
  main-checked :
      (sent : Transaction) {rest : List Transaction}
      → (main ext wire node args).1 ≡ sent ∷ rest
      → (env : Env) × ((preflight_vote ext args env []).0 ≡ ok tt)
        × (args.testing ≢ 1)
        × ((prove_and_send ext wire node args env (preflight_vote ext args env []).1).1
            ≡ sent ∷ rest)
  unfolding main
  main-checked sent h =
      let (env, opened, h1) =
        then_run-sent (open_env wire node args.rpc_url args.block_number) _ h in
      let (_, passed, h2) = then_run-sent (preflight_vote ext args env []).0 _ h1 in
      elim (Bool-cases (args.testing == 1)) [
        | inl testing ↦ cc (rw testing at h2)
        | inr real ↦ (env, passed, λ e. ground arith, rw real at h2)
      ]

  -- If the word format gives back what was written and receipts show what was run, a run of the
  -- publisher sends at most one transaction. It sends that only if its preflight has passed and
  -- `testing` is not 1; and it calls `vote` of the plugin with a journal that holds the voter,
  -- proposal, contract, direction and balance of the arguments, the direction being 1, 2 or 3 and
  -- the balance above 0.
  pub main-sent :
      IsLawfulWire wire
      → IsSoundProver ext wire node
      → (sent : Transaction) {rest : List Transaction} → (main ext wire node args).1 ≡ sent ∷ rest
      → (rest ≡ [])
        × (args.testing ≢ 1)
        × ((env : Env) × ((preflight_vote ext args env []).0 ≡ ok tt))
        × IsVoteOf wire node args sent
  unfolding prove_and_send
  main-sent lawful sound sent h =
      let (env, passed, real, h1) = main-checked sent h in
      let (view, ev, h2) =
        then_run-sent (or_err (node.into_input env (preflight_vote ext args env []).1) _) _ h1 in
      let stdin = write_input ext wire node args view in
      let (r, seal, proved, same, last, _) =
        publish-sent wire node voting_protocol_elf stdin (vote args.config_contract) sent h2 in
      let (j, ran, decodes) = sound.proved stdin r proved in
      let a =
        (prove_vote_iff ext wire (vote_input args view) j).0
          (sym (voting_main-write_input ext wire node args view lawful) ∙ ran) in
      (
        last,
        real,
        (env, passed),
        record {
          bytes = node.journal_bytes r;
          seal = seal;
          journal = j;
          call = same;
          decodes = decodes;
          voter = ap (λ (x : Journal). x.voter) a.journal;
          proposal = ap (λ (x : Journal). x.proposal_id) a.journal;
          contract = ap (λ (x : Journal). x.config_contract) a.journal;
          direction = ap (λ (x : Journal). x.direction) a.journal;
          balance = ap (λ (x : Journal). x.balance) a.journal;
          direction_from = a.direction_from;
          direction_to = a.direction_to;
          not_empty = a.not_empty;
        },
      )
