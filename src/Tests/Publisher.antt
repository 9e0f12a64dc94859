-- ===== src/Tests/Publisher.antt =====
-- A vote of Alice's, from the publisher to the transaction.
use aragon_zk_governance.Common.{◌≢◌, String, ◌≡◌, refl, some, List, [], ◌∷◌, ◌++◌, arith}
use aragon_zk_governance.Common.Dict.{lookup, insert}
use aragon_zk_governance.Outcome.{ok, ok-injective}
use aragon_zk_governance.U256.{◌⊕◌, divide}
use aragon_zk_governance.Bytes.Laws.{parse_hex, digit_value}
use aragon_zk_governance.Steel.{Env}
use aragon_zk_governance.Agreement.Accepted.{vote_input, IsComparableConfig}
use aragon_zk_governance.Guest.Delegation as GuestDelegation
use aragon_zk_governance.Guest.Voting.{Journal, check_signature, voting_main}
use aragon_zk_governance.Guest.Signature as Signature
use aragon_zk_governance.Host.Preflight.{preflight_call, try_call}
use aragon_zk_governance.Host.VotingPower as HostPower
use aragon_zk_governance.Host.Delegation as HostDelegation
use aragon_zk_governance.Host.Context as HostContext
use aragon_zk_governance.Host.Node as HostNode
use aragon_zk_governance.Host.Node.{Transaction, vote}
use aragon_zk_governance.Host.Publisher.{
  Args, main, prove_and_send, write_input, preflight_vote, fetch_config, sum_assets, asset_power,
  sum_delegations,
}
use aragon_zk_governance.Host.Publisher.Sent.{main-sent, IsVoteOf}
use aragon_zk_governance.Host.Publisher.Unregistered.{IsUnregistered, main-unregistered}
use aragon_zk_governance.Host.Publisher.Stdin.{preflight_vote-voting_main}
use aragon_zk_governance.Tests.World.{
  alice, bob, balance_asset, balance_config, dao, token, plugin, repeat, env, ext, commitment,
}
use aragon_zk_governance.Tests.Format.{wire, wire-IsLawful}
use aragon_zk_governance.Tests.Prover.{node, node-IsSound, encode}

abbrev pub signature : String
signature =
    "000000000000000000000000000000000000000000000000000000000000000000000000000000000000000000000000000000000000000000000000000000001b"

abbrev pub delegates_text : String
delegates_text = "aaaaaaaaaaaaaaaaaaaaaaaaaaaaaaaaaaaaaaaacccccccccccccccccccccccccccccccccccccccc"

abbrev pub vote_args : Args
vote_args = record {
  chain_id = 11155111;
  rpc_url = "https://rpc";
  block_number = some 10;
  voter_signature = signature;
  voter = alice;
  dao_address = dao;
  proposal_id = 1;
  direction = 2;
  balance = 110;
  config_contract = plugin;
  token = token;
  additional_delegation_data = delegates_text;
  testing = 0;
}

abbrev pub journal : Journal
journal = record {
  commitment = commitment;
  config_contract = plugin;
  proposal_id = 1;
  voter = alice;
  balance = 110;
  direction = 2;
}

abbrev pub sent : Transaction
sent = vote plugin (encode journal) []

pub preflight_passes : (preflight_vote ext vote_args env []).0 ≡ ok tt
unfolding preflight_vote fetch_config sum_assets asset_power sum_delegations divide ◌⊕◌ lookup
    insert HostContext.default_context HostContext.process_voting_power_strategy
    HostContext.process_delegation_strategy HostDelegation.split_process
    HostDelegation.process_delegates HostDelegation.process_delegate HostDelegation.print_first
    HostDelegation.match_delegation HostDelegation.find_delegation HostDelegation.total_ratios
    HostDelegation.compare_bytes32_to_address HostPower.balance_of_process GuestDelegation.addresses
    GuestDelegation.chunks_exact GuestDelegation.valid_or_bail GuestDelegation.all_valid parse_hex
    digit_value preflight_call try_call
preflight_passes = refl

pub signature_recovers :
    check_signature ext (vote_input {Input = Env} vote_args env) ≡ ok (repeat 20 0)
unfolding check_signature parse_hex digit_value Signature.ecrecover Signature.into_recovery_id
    Signature.recovery_byte Signature.skip_tag Signature.last_20
signature_recovers = refl

-- The configuration has no asset under "GetPastVotes".
pub comparable : IsComparableConfig ext env plugin 1
unfolding fetch_config try_call
comparable config e = rw (← ok-injective e) ((λ named. cc named), tt)

preflight_vote-voting_main_example :
    voting_main ext wire (write_input ext wire node vote_args env) ≡ ok journal
preflight_vote-voting_main_example =
    preflight_vote-voting_main ext wire node vote_args env env env (repeat 20 0) wire-IsLawful
      comparable preflight_passes refl (λ c r. refl) signature_recovers (omega arith) (omega arith)
      (omega arith)

pub votes_run : voting_main ext wire (write_input ext wire node vote_args env) ≡ ok journal
votes_run =
    preflight_vote-voting_main ext wire node vote_args env env env (repeat 20 0) wire-IsLawful
      comparable preflight_passes refl (λ c r. refl) signature_recovers (omega arith) (omega arith)
      (omega arith)

abbrev nothing_else : List Transaction
nothing_else = []

pub main_sends : (main ext wire node vote_args).1 ≡ sent ∷ []
unfolding main prove_and_send HostNode.open_env HostNode.publish HostNode.submit
main_sends = rw (preflight_passes, votes_run)

main-sent_example :
    (nothing_else ≡ [])
    × (vote_args.testing ≢ 1)
    × ((e : Env) × ((preflight_vote ext vote_args e []).0 ≡ ok tt))
    × IsVoteOf wire node vote_args sent
main-sent_example = main-sent ext wire node vote_args wire-IsLawful node-IsSound sent main_sends

pub env_opens : HostNode.open_env wire node "https://rpc" (some 10) ≡ ok env
unfolding HostNode.open_env
env_opens = refl

pub recovers_always :
    (view : Env) → check_signature ext (vote_input vote_args view) ≡ ok (repeat 20 0)
unfolding check_signature parse_hex digit_value Signature.ecrecover Signature.into_recovery_id
    Signature.recovery_byte Signature.skip_tag Signature.last_20
recovers_always view = refl

-- Bob has power, but no entries in the registry.
abbrev with_bob : Args
with_bob = record vote_args {
  additional_delegation_data =
      "aaaaaaaaaaaaaaaaaaaaaaaaaaaaaaaaaaaaaaaabbbbbbbbbbbbbbbbbbbbbbbbbbbbbbbbbbbbbbbb";
}

with_bob-IsUnregistered : IsUnregistered ext env with_bob
unfolding parse_hex digit_value GuestDelegation.addresses GuestDelegation.chunks_exact
with_bob-IsUnregistered = record {
  text = "balances";
  config = balance_config;
  configured = refl;
  parsed = refl;
  assets_before = [];
  assets_after = [];
  asset = balance_asset;
  assets = refl;
  split = refl;
  bytes = alice ++ bob;
  hex = refl;
  before = alice ∷ [];
  after = [];
  delegate = bob;
  named = refl;
  answer = record { delegations = []; expiration_timestamp = 0 };
  asked = refl;
  nil = refl;
}

main-unregistered_example :
    ((main ext wire node with_bob).0 ≢ ok tt) × ((main ext wire node with_bob).1 ≡ nothing_else)
main-unregistered_example =
    main-unregistered ext env with_bob with_bob-IsUnregistered wire node env_opens
