-- ===== src/Host/Publisher/Cli.antt =====
-- The arguments of apps/src/bin/publisher.rs, as `clap` derives their reading from the struct `Args`.
use aragon_zk_governance.Common.{ℕ, String, Option, none, some}
use aragon_zk_governance.Outcome.{Outcome, ok, err, external, or_err, ◌>>=◌}
use aragon_zk_governance.Config.{Address}
use aragon_zk_governance.Crates.{Crates}
use aragon_zk_governance.Stdin.{Wire}
use aragon_zk_governance.Host.Node.{Node, Run, then_run}
use aragon_zk_governance.Host.Publisher.{Args, main}

-- `FromStr` of the types of the arguments, a parameter.
pub record FromStr : Type 1 where
  pub to_u64 : String → Option ℕ
  pub to_u8 : String → Option ℕ
  pub to_u256 : String → Option ℕ
  pub to_address : String → Option Address
  pub PrivateKeySigner : Type 0
  pub to_signer : String → Option PrivateKeySigner

-- The text of an argument, or why there is none; `clap` ends the program then.
abbrev pub read {ℓ} : {A : Type ℓ} → (String → Option A) → Option String → String → Outcome A
read from_str none name = err (external name)
read from_str (some text) name = or_err (from_str text) name

-- For a field of type `Option`.
abbrev pub read_optional {ℓ} :
    {A : Type ℓ} → (String → Option A) → Option String → String → Outcome (Option A)
read_optional from_str none name = ok none
read_optional from_str (some text) name = or_err (from_str text) name >>= λ a. ok (some a)

-- `clap(env)`: the flag, or else the variable.
abbrev pub or_else : Option String → Option String → Option String
or_else (some text) other = some text
or_else none other = other

-- From the texts of the flags and the environment's variables.
unfoldable pub parse : FromStr → (String → Option String) → (String → Option String) → Outcome Args
parse from_str flag var = do
  chain_id ← read from_str.to_u64 (flag "chain-id") "chain-id"
  signer ←
      read from_str.to_signer
        (or_else (flag "eth-wallet-private-key") (var "ETH_WALLET_PRIVATE_KEY"))
        "eth-wallet-private-key"
  rpc_url ← or_err (or_else (flag "rpc-url") (var "RPC_URL")) "rpc-url"
  block_number ← read_optional from_str.to_u64 (flag "block-number") "block-number"
  voter_signature ← or_err (flag "voter-signature") "voter-signature"
  voter ← read from_str.to_address (flag "voter") "voter"
  dao_address ← read from_str.to_address (flag "dao-address") "dao-address"
  proposal_id ← read from_str.to_u256 (flag "proposal-id") "proposal-id"
  direction ← read from_str.to_u8 (flag "direction") "direction"
  balance ← read from_str.to_u256 (flag "balance") "balance"
  config_contract ← read from_str.to_address (flag "config-contract") "config-contract"
  token ← read from_str.to_address (flag "token") "token"
  additional_delegation_data ←
      or_err (flag "additional-delegation-data") "additional-delegation-data"
  testing ← read from_str.to_u8 (flag "testing") "testing"
  ok (record {
    chain_id = chain_id;
    rpc_url = rpc_url;
    block_number = block_number;
    voter_signature = voter_signature;
    voter = voter;
    dao_address = dao_address;
    proposal_id = proposal_id;
    direction = direction;
    balance = balance;
    config_contract = config_contract;
    token = token;
    additional_delegation_data = additional_delegation_data;
    testing = testing;
  })

-- The binary: its arguments, and then `main`.
abbrev pub run :
    Crates
    → (wire : Wire) → Node wire
    → FromStr
    → (String → Option String)
    → (String → Option String)
    → Run
run ext wire node from_str flag var = then_run (parse from_str flag var) (main ext wire node)
