-- ===== src/Tests/Posted.antt =====
-- Alice's vote as it is posted to the server.
use Prim.Native.Char.{code}
use aragon_zk_governance.Common.{
  ℕ, zero, suc, ◌+◌, ◌*◌, ◌<◌, ◌≡◌, ◌≢◌, ◌↔◌, refl, String, none, some, [], ◌∷◌, Bool, true, ◌&&◌,
  ◌==◌, ==_iff, str_eq, if◌then◌else◌, Bool-cases, inl, inr, arith,
}
use aragon_zk_governance.Outcome.{ok}
use aragon_zk_governance.Common.Dict.{lookup, insert}
use aragon_zk_governance.U256.{◌⊕◌, divide}
use aragon_zk_governance.Guest.Delegation as GuestDelegation
use aragon_zk_governance.Host.Preflight.{preflight_call, try_call}
use aragon_zk_governance.Host.VotingPower as HostPower
use aragon_zk_governance.Host.Delegation as HostDelegation
use aragon_zk_governance.Host.Context as HostContext
use aragon_zk_governance.Host.Publisher.{
  Args, preflight_vote, fetch_config, sum_assets, asset_power, sum_delegations,
}
use aragon_zk_governance.Server.Unsent.{proof_vote-unsent}
use aragon_zk_governance.Config.{Bytes}
use aragon_zk_governance.Bytes.Laws.{parse_hex, digit_value}
use aragon_zk_governance.Host.Node as HostNode
use aragon_zk_governance.Host.Publisher.Cli.{FromStr, parse, run}
use aragon_zk_governance.Server.{
  VotingParams, Command, Machine, format_u8, flag, publisher_command, proof_vote,
}
use aragon_zk_governance.Server.Started.{
  child_var, IsDecimal, IsReadAs, publisher_command-parse_iff,
}
use aragon_zk_governance.Server.Delivered.{IsStarted}
use aragon_zk_governance.Tests.World.{env, ext}
use aragon_zk_governance.Tests.Format.{wire}
use aragon_zk_governance.Tests.Prover.{node}
use aragon_zk_governance.Tests.Publisher.{vote_args, delegates_text, env_opens}
use aragon_zk_governance.Tests.Flags.{value_of, value_of-IsClap}

-- Decimal and hexadecimal texts, without signs.
abbrev digits : ℕ → String → ℕ
digits acc String.[] = acc
digits acc (String.◌∷◌ c s) = digits (10 * acc + Prim.Native.Nat.◌-◌ (code c) 48) s

abbrev from_str : FromStr
from_str = record {
  to_u64 = λ s. some (digits 0 s);
  to_u8 = λ s. some (digits 0 s);
  to_u256 = λ s. some (digits 0 s);
  to_address = ext.bytes_from_str;
  PrivateKeySigner = String;
  to_signer = some;
}

abbrev reads_below : ℕ → Bool
reads_below zero = true
reads_below (suc n) = (digits 0 (format_u8 n) == n) && reads_below n

all_read : reads_below 256 ≡ true
unfolding format_u8
all_read = refl

reads_below-lt : (m n : ℕ) → reads_below m ≡ true → n < m → digits 0 (format_u8 n) ≡ n
reads_below-lt zero n h small = omega (arith, small)
reads_below-lt (suc m) n h small = elim (Bool-cases (n == m)) [
  | inl same ↦ rw ((==_iff n m).0 same) ((==_iff (digits 0 (format_u8 m)) m).0 (ground (arith, h)))
  | inr other ↦ reads_below-lt m n (ground (arith, h)) (ground (arith, small, other))
]

from_str-IsDecimal : IsDecimal from_str
from_str-IsDecimal = record { reads = λ n small. rw (reads_below-lt 256 n all_read small) }

abbrev machine : Machine
machine = record {
  var = λ name.
      if str_eq name "CHAIN_ID"
      then none
      else if str_eq name "RPC_URL"
      then some "https://rpc"
      else some name;
  output = λ command. some (record { status = 0 });
}

abbrev payload : String → VotingParams
payload balance = record {
  block_number = "10";
  voter_signature =
      "0x000000000000000000000000000000000000000000000000000000000000000000000000000000000000000000000000000000000000000000000000000000001b";
  voter = "aaaaaaaaaaaaaaaaaaaaaaaaaaaaaaaaaaaaaaaa";
  dao_address = "dadadadadadadadadadadadadadadadadadadada";
  proposal_id = "1";
  direction = 2;
  balance = balance;
  config_contract = "9191919191919191919191919191919191919191";
  token_address = "7070707070707070707070707070707070707070";
  additional_delegation_data = delegates_text;
}

abbrev command : String → Command
command balance = record {
  program = "./publisher";
  current_dir = "./target/release/";
  envs =
      ("BONSAI_API_KEY", "BONSAI_API_KEY")
      ∷ ("BONSAI_API_URL", "BONSAI_API_URL")
      ∷ ("RPC_URL", "https://rpc")
      ∷ ("ETH_WALLET_PRIVATE_KEY", "ETH_WALLET_PRIVATE_KEY")
      ∷ [];
  args =
      "--chain-id=11155111"
      ∷ "--rpc-url=https://rpc"
      ∷ "--block-number=10"
      ∷ "--voter-signature=000000000000000000000000000000000000000000000000000000000000000000000000000000000000000000000000000000000000000000000000000000001b"
      ∷ "--voter=aaaaaaaaaaaaaaaaaaaaaaaaaaaaaaaaaaaaaaaa"
      ∷ "--dao-address=dadadadadadadadadadadadadadadadadadadada"
      ∷ "--proposal-id=1"
      ∷ "--direction=2"
      ∷ flag ("balance", balance)
      ∷ "--config-contract=9191919191919191919191919191919191919191"
      ∷ "--token=7070707070707070707070707070707070707070"
      ∷ "--additional-delegation-data=aaaaaaaaaaaaaaaaaaaaaaaaaaaaaaaaaaaaaaaacccccccccccccccccccccccccccccccccccccccc"
      ∷ "--testing=0"
      ∷ [];
}

builds : (balance : String) → publisher_command machine (payload balance) ≡ ok (command balance)
unfolding publisher_command format_u8
builds balance = refl

-- The arguments with another balance.
abbrev args_with : String → Args
args_with balance = record vote_args { balance = digits 0 balance }

read_as : (balance : String) → IsReadAs machine from_str (payload balance) (args_with balance)
unfolding parse_hex digit_value
read_as balance = record {
  chain_id = refl;
  key = "ETH_WALLET_PRIVATE_KEY";
  key_known = refl;
  signer = "ETH_WALLET_PRIVATE_KEY";
  key_read = refl;
  rpc_url = refl;
  number = 10;
  number_read = refl;
  block_number = refl;
  voter_signature = refl;
  voter = refl;
  dao_address = refl;
  proposal_id = refl;
  direction = refl;
  balance = refl;
  config_contract = refl;
  token = refl;
  additional_delegation_data = refl;
  testing = refl;
}

publisher_command-parse_iff_example :
    (parse from_str (value_of (command "110").args) (child_var machine (command "110"))
      ≡ ok vote_args)
    ↔ IsReadAs machine from_str (payload "110") vote_args
publisher_command-parse_iff_example =
    publisher_command-parse_iff machine from_str value_of (payload "110") (command "110") vote_args
      value_of-IsClap from_str-IsDecimal (omega arith) (builds "110")

started :
    (balance : String)
    → IsStarted machine from_str value_of (payload balance) (command balance) (args_with balance)
started balance = record {
  clap = value_of-IsClap;
  decimal = from_str-IsDecimal;
  built = builds balance;
  output = record { status = 0 };
  starts = refl;
  reads = read_as balance;
}

-- The power is 110.
preflight_fails : (preflight_vote ext (args_with "111") env []).0 ≢ ok tt
unfolding preflight_vote fetch_config sum_assets asset_power sum_delegations divide ◌⊕◌ lookup
    insert HostContext.default_context HostContext.process_voting_power_strategy
    HostContext.process_delegation_strategy HostDelegation.split_process
    HostDelegation.process_delegates HostDelegation.process_delegate HostDelegation.print_first
    HostDelegation.match_delegation HostDelegation.find_delegation HostDelegation.total_ratios
    HostDelegation.compare_bytes32_to_address HostPower.balance_of_process GuestDelegation.addresses
    GuestDelegation.chunks_exact GuestDelegation.valid_or_bail GuestDelegation.all_valid parse_hex
    digit_value preflight_call try_call
preflight_fails e = cc e

proof_vote-unsent_example :
    (proof_vote machine (payload "111") ≡ ok tt)
    × ((run ext wire node from_str
          (value_of (command "111").args)
          (child_var machine (command "111"))).0
        ≢ ok tt)
    × ((run ext wire node from_str
          (value_of (command "111").args)
          (child_var machine (command "111"))).1
        ≡ [])
proof_vote-unsent_example =
    proof_vote-unsent machine from_str value_of (payload "111") (command "111") ext wire node
      (args_with "111") env (started "111") (omega arith) env_opens preflight_fails
