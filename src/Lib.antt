-- ===== src/Lib.antt =====
-- The zkVoting plugin: votes with tokens and delegations, counted inside a zkVM program.
--
-- The parts of the program, and the files that model them:
--
-- * The voting program, methods/guest/src/bin/voting_protocol.rs (Guest.Voting, Guest.Signature).
--   It reads a vote, checks its signature, reads the proposal's configuration from the contract, adds
--   up the voter's power over the configured assets, tests direction and balance, and commits a
--   journal. `voting_main` is `main`, in two parts: `read_voting_input` has the reads, `prove_vote`
--   the rest. `asset_voting_power` is the closure over the assets, `fold_delegations` the inner fold.
-- * The execution program, methods/guest/src/bin/execution_protocol.rs (Guest.Execution). It adds up
--   the supplies and lets the execution strategy decide: `execution_main`, in the same two parts.
-- * The strategies of both programs, in the crate strategies: strategies/src/voting_strategies
--   (Guest.VotingPower), strategies/src/delegation_strategies (Guest.Delegation),
--   strategies/src/execution_strategies (Guest.Majority), and the `Context` of strategies/src/lib.rs
--   that finds them by name (Guest.Context). A trait is a record of its methods. `Config` has the
--   structs of the configuration, which apps/src/lib.rs declares again.
-- * The host's strategies and context, in apps/src (Host.VotingPower, Host.Delegation, Host.Majority,
--   Host.Context). They run before the proof, and each of their view calls is recorded, so that the
--   proof's input has its answer. `Host.Preflight` is that: a step takes the record of calls and
--   gives an outcome and the longer record.
-- * The binaries apps/src/bin/publisher.rs (Host.Publisher) and apps/src/bin/execution_publisher.rs
--   (Host.ExecutionPublisher): the preflight, the words for the guest's standard input, the proof and
--   the transaction. `Host.Node` has what both do after the input is built. A run is how it ended
--   and the transactions it sent.
-- * The plugin, contracts/RiscVotingProtocolPlugin.sol and contracts/MajorityVotingBase.sol (Plugin).
--   A transaction takes the storage and gives the storage after it, or why it reverts: `vote` and
--   `can_vote` (Plugin.Vote), `execute` and `can_execute` (Plugin.Execute), `initialize`, `create` and
--   `update_voting_settings_tx` (Plugin.Settings). Plugin.Reach has sequences of transactions, and
--   Plugin.Ledger a count of ballots that does not look at the storage. Plugin.Published is about the
--   votes that the publisher sends, Plugin.Vote.Backed and Plugin.Reach.Backed about the runs of the
--   voting program behind the votes, Plugin.Execute.Never about what the execution program commits,
--   and Plugin.Vote.Never about what the voting program reads at a proposal's snapshot.
--   `get_proposal` and `proposal_config` are in Plugin.Getters.
-- * The plugin's setup, contracts/RiscVotingProtocolPluginSetup.sol (PluginSetup): what it prepares for
--   the installation, an update and the uninstallation. PluginSetup.Used is about the plugin that it
--   leaves.
-- * The token, contracts/ERC20.sol (Token): its functions as transactions, and its view by the
--   strategies (Token.View). Token.Turnout sets the plugin's counts beside its supply.
-- * The server, server/src/main.rs (Server): the handlers of its votes with their SQL statements, the
--   reading of the rows (Server.Rows), and the command that starts the publisher.
--   Host.Publisher.Cli is how the publisher gets its arguments from that command, and
--   Server.Delivered is about the way of a vote that is posted to its transaction, Server.Unsent
--   about its failure.
-- * The signing helper of the integration tests, tests/src/lib.rs (Signing).
--
-- How a piece of code ends is an `Outcome`: a value, an `Err` of anyhow, or a panic. `U256` has the
-- arithmetic of alloy's U256, which wraps around at 2 ^ 256 and panics on a division by 0. `Bytes`
-- has the big-endian and hexadecimal conversions. `Abi` has the words of the two journals in the
-- encoding of the contract ABI, for the hypotheses that speak of encoded journals.
--
-- What is a parameter, since it is not code of the repository:
--
-- * the chain: an environment (`Steel.Env`) answers each view call or fails. Its only assumption is
--   that an environment's answers do not change;
-- * the third-party functions (`Crates`): keccak, the curve, hexadecimal and JSON decoding, the text
--   of an address, the chain id of the Sepolia constant;
-- * the word format of the guest's input (`Stdin.Wire`), with the laws that a theorem needs of it:
--   `IsLawfulWire`, that what was written is read back (a number of any size, as the model's
--   numbers carry no width), and `IsCanonical`, that words read as a value
--   only if they are what the value is written as;
-- * what the plugin calls (`Plugin.Externals`): ABI decoding and sha256, the verifier, and the DAO,
--   which numbers the proposals, holds the permissions and runs the actions;
-- * the server's database, which takes a statement and its parameters (`Server.Database`, with
--   `IsTable`, what PostgreSQL does for the statements, where a theorem needs it), its environment's variables and the start of a process
--   (`Server.Machine`), and the reading of the publisher's command line (`IsClap`, `Cli.FromStr`);
-- * the RPC node, prover and wallet (`Host.Node.Node`), with `IsSoundProver`, `IsWorking`,
--   or `IsStrict` where a theorem needs it;
-- * the verifiers, as far as a theorem needs them: they accept only journals of runs
--   (`IsVotingVerifier`, `IsExecutionVerifier`); and ABI decoding and `Encoding.decodeVersionedID` (`IsAbi`);
-- * the history of the chain, where a theorem needs it: an input opens as the plugin's storage was at
--   its block (`IsHistory`), and a token answers from its storage (`IsTokenAt`);
-- * alloy's signer (`Signing.Signer`), with `IsSigner`, and what an installation takes from outside
--   (`PluginSetup.Deployment`), and where a
--   theorem needs it, that Aragon OSx has applied what was prepared (`IsApplied`).
--
-- The only recursion that is not on a list is `chunks_exact` of the standard library, on fuel; `addresses` gives it as much
-- fuel as there are bytes, which is enough since a round takes twenty of them
-- (Guest.Delegation.Rounds).
--
-- `Agreement` relates host and guest: over the answers that the host has recorded, the guest's code
-- follows the host's (`Mirrors`). `Tests` has a small chain and a table in memory, on which the
-- theorems are applied.
--
-- Not modelled: the deployment scripts; the events of the contracts; the plugin's getters of one
-- setting each and its interface ids; the token's name, symbol and decimals; the setup's base
-- contract and its private functions that nothing calls; Aragon OSx; the build of the guest
-- programs, which only calls RISC Zero's build functions; the copies of libraries under
-- lib, and the mock verifier of contracts/mocks, which is a copy of one of them; the
-- unit and integration tests, of which only the signing helper is modelled; the prints and logs of
-- the binaries and the server, what the wallet does with its private key, and the chain
-- specification, which is one constant. The guest programs return the journal itself; where its
-- ABI encoding matters, it is that of `Abi`.
pub mod Common
pub mod Outcome
pub mod U256
pub mod Config
pub mod Bytes
pub mod Steel
pub mod Crates
pub mod Stdin
pub mod Guest
pub mod Host
pub mod Agreement
pub mod Abi
pub mod Plugin
pub mod PluginSetup
pub mod Server
pub mod Signing
pub mod Tests
pub mod Token
