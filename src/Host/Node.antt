-- ===== src/Host/Node.antt =====
-- What the binaries reach outside: the RPC node, the prover and the chain. All of it is third-party
-- code or another machine, so it is a parameter; a failure is `none`.
pub mod Sent
use aragon_zk_governance.Common.{ℕ, String, Bool, Option, List, [], ◌∷◌, if◌then◌else◌}
use aragon_zk_governance.Outcome.{Outcome, ok, err, panic, external, unwrap, or_err, ◌>>=◌}
use aragon_zk_governance.Config.{Address, Bytes}
use aragon_zk_governance.Steel.{Env, Call}
use aragon_zk_governance.Stdin.{Wire}
use aragon_zk_governance.Guest.Voting.{Journal}

-- The two guest programs, by their ELF constants.
pub data Program : Type 0 where
  voting_protocol_elf execution_protocol_elf : Program

-- A transaction to the contract `IMajorityVoting`: its address, the journal, the seal.
pub data Transaction : Type 0 where
  vote : Address → Bytes → Bytes → Transaction
  execute : Address → Bytes → Bytes → Transaction

pub record Node (wire : Wire) : Type 1 where
  pub Url : Type 0
  pub parse_url : String → Option Url
  -- `EthEvmEnv::builder().rpc(url).block_number(n).build()`
  pub build_env : Url → ℕ → Option Env
  -- `env.into_input()`, from what the recorded calls read
  pub into_input : Env → List Call → Option wire.Input
  pub Receipt : Type 0
  -- the program, run and proved on an input
  pub prove : Program → List wire.Word → Option Receipt
  pub journal_bytes : Receipt → Bytes
  pub encode_seal : Receipt → Option Bytes
  -- `VotingJournal::abi_decode(bytes, true)`
  pub decode_voting_journal : Bytes → Option Journal
  pub Hash : Type 0
  pub send : Transaction → Option Hash
  -- the status in the transaction's receipt
  pub get_receipt : Hash → Option Bool

-- A binary's run: how it ended, and the transactions that it sent.
abbrev pub Run : Type 0
Run = Outcome (Unit {0}) × List Transaction

-- A step that sends nothing, and the run after it.
abbrev pub then_run {ℓ} : {A : Type ℓ} → Outcome A → (A → Run) → Run
then_run (ok a) k = k a
then_run (err e) k = (err e, [])
then_run (panic p) k = (panic p, [])

module _ (wire : Wire) (node : Node wire) where
  -- The environment: the URL is parsed for the wallet's provider and again for the builder.
  unfoldable pub open_env : String → Option ℕ → Outcome Env
  open_env rpc_url block_number = do
    provider_url ← unwrap (node.parse_url rpc_url) "Url::from_str"
    url ← unwrap (node.parse_url rpc_url) "Url::from_str"
    number ← unwrap block_number "block_number"
    or_err (node.build_env url number) "build"

  -- The transaction is sent even where its receipt is missing or shows a failure.
  abbrev receipt_status : node.Hash → Outcome (Unit {0})
  receipt_status hash = do
    status ← or_err (node.get_receipt hash) "transaction did not confirm"
    if status then ok tt else err (external "transaction failed")

  unfoldable pub submit : Transaction → Run
  submit tx = then_run (or_err (node.send tx) "send") λ hash. (receipt_status hash, tx ∷ [])

  -- From the proof to the end of `main`. Both binaries decode the journal as a `VotingJournal`, of
  -- which they only print the commitment.
  unfoldable pub publish : Program → List wire.Word → (Bytes → Bytes → Transaction) → Run
  unfolding submit
  publish program stdin transaction =
      then_run (or_err (node.prove program stdin) "failed to create proof") λ receipt.
        let bytes = node.journal_bytes receipt in
        then_run (or_err (node.decode_voting_journal bytes) "invalid journal") λ journal.
          then_run (or_err (node.encode_seal receipt) "invalid receipt")
            λ seal. submit (transaction bytes seal)
