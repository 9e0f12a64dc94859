-- ===== src/Host/Publisher/Delivered.antt =====
-- When publisher.rs delivers its vote.
use aragon_zk_governance.Common.{◌≤◌, ◌<◌, ◌≡◌, ◌≢◌, some, true, false, List, [], ◌∷◌, arith, ◌==◌}
use aragon_zk_governance.Outcome.{ok}
use aragon_zk_governance.Config.{Address, Bytes}
use aragon_zk_governance.Steel.{Env, Call}
use aragon_zk_governance.Crates.{Crates}
use aragon_zk_governance.Stdin.{Wire, IsLawfulWire}
use aragon_zk_governance.Host.Node.{
  Node, Transaction, vote, voting_protocol_elf, open_env, submit, publish,
}
use aragon_zk_governance.Host.Publisher.{Args, preflight_vote, write_input, prove_and_send, main}
use aragon_zk_governance.Host.Publisher.Stdin.{preflight_vote-voting_main}
use aragon_zk_governance.Guest.Voting.{Journal, check_signature, voting_main}
use aragon_zk_governance.Agreement.{Agrees}
use aragon_zk_governance.Agreement.Accepted.{vote_input, IsComparableConfig}

-- Everything outside the program does its work: the input replays the recorded calls, a run that
-- commits a journal can be proved, and a transaction is confirmed.
pub record IsWorking (ext : Crates) (wire : Wire) (node : Node wire) : Type 0 where
  pub replays :
      (env : Env) (log : List Call)
      → (view : wire.Input) × (g : Env) × (node.into_input env log ≡ some view)
        × (wire.into_env view ≡ some g)
        × Agrees g env log
  pub proves :
      (stdin : List wire.Word) (j : Journal)
      → voting_main ext wire stdin ≡ ok j
      → (r : node.Receipt) × (seal : Bytes) × (node.prove voting_protocol_elf stdin ≡ some r)
        × (node.decode_voting_journal (node.journal_bytes r) ≡ some j)
        × (node.encode_seal r ≡ some seal)
  pub confirms :
      (tx : Transaction)
      → (hash : node.Hash) × (node.send tx ≡ some hash) × (node.get_receipt hash ≡ some true)

module _ (ext : Crates) (wire : Wire) (node : Node wire) (works : IsWorking ext wire node) where
  submit-confirmed : (tx : Transaction) → submit wire node tx ≡ (ok tt, tx ∷ [])
  unfolding submit
  submit-confirmed tx = let (hash, sends, confirmed) = works.confirms tx in rw (sends, confirmed)

  -- What is sent, where the voting program commits a journal.
  publish-delivered :
      (stdin : List wire.Word) (j : Journal) (f : Bytes → Bytes → Transaction)
      → voting_main ext wire stdin ≡ ok j
      → (r : node.Receipt) × (seal : Bytes) × (publish wire node voting_protocol_elf stdin f
          ≡ (ok tt, f (node.journal_bytes r) seal ∷ []))
        × (node.decode_voting_journal (node.journal_bytes r) ≡ some j)
        × (node.prove voting_protocol_elf stdin ≡ some r)
        × (node.encode_seal r ≡ some seal)
  unfolding publish
  publish-delivered stdin j f ran =
      let (r, seal, proved, decodes, sealed) = works.proves stdin j ran in
      (
        r,
        seal,
        rw (proved, decodes, sealed) (submit-confirmed (f (node.journal_bytes r) seal)),
        decodes,
        proved,
        sealed,
      )

  -- What a run of the publisher goes through to its transaction.
  pub record IsPublished (args : Args) (env : Env) : Type 0 where
    pub view : wire.Input
    pub g : Env
    pub receipt : node.Receipt
    pub seal : Bytes
    pub input : node.into_input env (preflight_vote ext args env []).1 ≡ some view
    pub opens : wire.into_env view ≡ some g
    pub agrees : Agrees g env (preflight_vote ext args env []).1
    pub proved : node.prove voting_protocol_elf (write_input ext wire node args view) ≡ some receipt
    pub sealed : node.encode_seal receipt ≡ some seal
    pub decodes :
        node.decode_voting_journal (node.journal_bytes receipt)
        ≡ some (record {
          commitment = g.commitment;
          config_contract = args.config_contract;
          proposal_id = args.proposal_id;
          voter = args.voter;
          balance = args.balance;
          direction = args.direction;
        })
    pub ends :
        main ext wire node args
        ≡ (ok tt, vote args.config_contract (node.journal_bytes receipt) seal ∷ [])

  pub main-IsPublished :
      (args : Args) (env : Env) (signer : Address)
      → IsLawfulWire wire
      → open_env wire node args.rpc_url args.block_number ≡ ok env
      → args.testing ≢ 1
      → IsComparableConfig ext env args.config_contract args.proposal_id
      → (preflight_vote ext args env []).0 ≡ ok tt
      → ((view : wire.Input) → check_signature ext (vote_input args view) ≡ ok signer)
      → 1 ≤ args.direction
      → args.direction ≤ 3
      → 0 < args.balance
      → IsPublished args env
  unfolding main prove_and_send
  main-IsPublished args env signer lawful opened real comparable passed recovers from to positive =
      let log = (preflight_vote ext args env []).1 in
      let (view, g, input, opens, agrees) = works.replays env log in
      let ran =
        preflight_vote-voting_main ext wire node args env g view signer lawful comparable passed
          opens agrees (recovers view) from to positive in
      let (receipt, seal, published, decodes, proved, sealed) =
        publish-delivered (write_input ext wire node args view) _ (vote args.config_contract) ran in
      let not_testing : (args.testing == 1) ≡ false = ground arith in
      record {
        view = view;
        g = g;
        receipt = receipt;
        seal = seal;
        input = input;
        opens = opens;
        agrees = agrees;
        proved = proved;
        sealed = sealed;
        decodes = decodes;
        ends = rw (opened, passed, not_testing, input) published;
      }

  -- A vote that passes the preflight is delivered: if everything outside works and the word format
  -- gives back what was written, then the publisher ends well, with just one transaction, which
  -- calls `vote` with a journal of the vote of the arguments. The other conditions are: the
  -- environment opens, `testing` is not 1, no asset uses `GetPastVotes`, the signature recovers to
  -- some address, the direction is 1, 2 or 3, and the balance is above 0.
  pub main-delivered :
      (args : Args) (env : Env) (signer : Address)
      → IsLawfulWire wire
      → open_env wire node args.rpc_url args.block_number ≡ ok env
      → args.testing ≢ 1
      → IsComparableConfig ext env args.config_contract args.proposal_id
      → (preflight_vote ext args env []).0 ≡ ok tt
      → ((view : wire.Input) → check_signature ext (vote_input args view) ≡ ok signer)
      → 1 ≤ args.direction
      → args.direction ≤ 3
      → 0 < args.balance
      → (bytes seal : Bytes) × (g : Env) × (main ext wire node args
          ≡ (ok tt, vote args.config_contract bytes seal ∷ []))
        × (node.decode_voting_journal bytes
            ≡ some (record {
              commitment = g.commitment;
              config_contract = args.config_contract;
              proposal_id = args.proposal_id;
              voter = args.voter;
              balance = args.balance;
              direction = args.direction;
            }))
        × Agrees g env (preflight_vote ext args env []).1
  main-delivered args env signer lawful opened real comparable passed recovers from to positive =
      let d =
        main-IsPublished args env signer lawful opened real comparable passed recovers from to
          positive in
      (node.journal_bytes d.receipt, d.seal, d.g, d.ends, d.decodes, d.agrees)
