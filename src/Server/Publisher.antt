-- ===== src/Server/Publisher.antt =====
-- What the server starts the publisher with.
use aragon_zk_governance.Common.{
  String, ◌≡◌, refl, Option, none, some, List, [], ◌∷◌, map, Bool, true, false, ◌&&◌, ◌||◌, not,
  str_eq,
}
use aragon_zk_governance.Common.Dict.{Dict, lookup}
use aragon_zk_governance.Outcome.{ok, unwrap, unwrap-eq-ok, ok-injective, >>=-eq-ok}
use aragon_zk_governance.Server.{
  VotingParams, Command, Machine, format_u8, flag, unwrap_or, slice_from_2, publisher_command,
}

-- The flags that `clap` derives from the fields of the publisher's `Args`.
abbrev pub publisher_flags : List String
publisher_flags =
    "chain-id" ∷ "eth-wallet-private-key" ∷ "rpc-url" ∷ "block-number" ∷ "voter-signature" ∷ "voter"
    ∷ "dao-address" ∷ "proposal-id" ∷ "direction" ∷ "balance" ∷ "config-contract" ∷ "token"
    ∷ "additional-delegation-data" ∷ "testing" ∷ []

abbrev pub contains : String → List String → Bool
contains name [] = false
contains name (other ∷ names) = str_eq name other || contains name names

abbrev pub is_given : String → Dict String → Bool
is_given name [] = false
is_given name ((other, value) ∷ d) = str_eq name other || is_given name d

-- Flags of the publisher, each at most once.
abbrev pub is_command_line : Dict String → Bool
is_command_line [] = true
is_command_line ((name, value) ∷ d) =
    contains name publisher_flags && (not (is_given name d) && is_command_line d)

-- The parser of `clap`, a parameter, gives to each flag the text after its `=`, and nothing to a flag
-- that is not given.
pub record IsClap (value_of : List String → String → Option String) : Type 0 where
  pub reads :
      (d : Dict String) (name value : String)
      → is_command_line d ≡ true
      → lookup name d ≡ some value
      → value_of (map flag d) name ≡ some value
  pub absent :
      (d : Dict String) (name : String)
      → is_command_line d ≡ true
      → contains name publisher_flags ≡ true
      → lookup name d ≡ none
      → value_of (map flag d) name ≡ none

-- What the publisher reads of the server's command.
pub record IsPassed (machine : Machine) (value_of : List String → String → Option String)
    (payload : VotingParams) (command : Command) : Type 0 where
  pub signature : String
  pub url : String
  pub tag_dropped : slice_from_2 payload.voter_signature ≡ ok signature
  pub url_known : machine.var "RPC_URL" ≡ some url
  pub chain_id :
      value_of command.args "chain-id" ≡ some (unwrap_or (machine.var "CHAIN_ID") "11155111")
  pub rpc_url : value_of command.args "rpc-url" ≡ some url
  pub block_number : value_of command.args "block-number" ≡ some payload.block_number
  pub voter_signature : value_of command.args "voter-signature" ≡ some signature
  pub voter : value_of command.args "voter" ≡ some payload.voter
  pub dao_address : value_of command.args "dao-address" ≡ some payload.dao_address
  pub proposal_id : value_of command.args "proposal-id" ≡ some payload.proposal_id
  pub direction : value_of command.args "direction" ≡ some (format_u8 payload.direction)
  pub balance : value_of command.args "balance" ≡ some payload.balance
  pub config_contract : value_of command.args "config-contract" ≡ some payload.config_contract
  pub token : value_of command.args "token" ≡ some payload.token_address
  pub additional_delegation_data :
      value_of command.args "additional-delegation-data" ≡ some payload.additional_delegation_data
  pub testing : value_of command.args "testing" ≡ some "0"
  pub private_key : value_of command.args "eth-wallet-private-key" ≡ none
  pub key : String
  pub key_known : machine.var "ETH_WALLET_PRIVATE_KEY" ≡ some key
  pub key_passed : lookup "ETH_WALLET_PRIVATE_KEY" command.envs ≡ some key

-- What the flags of a command that the server builds give: the payload's fields as they are, but the
-- signature without its first two bytes; the URL and the chain id of the environment, with Sepolia's
-- for a missing chain id; 0 for `testing`; and the private key by its variable.
pub publisher_command-IsPassed :
    (machine : Machine) (value_of : List String → String → Option String) (payload : VotingParams)
    (command : Command)
    → IsClap value_of
    → publisher_command machine payload ≡ ok command
    → IsPassed machine value_of payload command
unfolding publisher_command lookup format_u8
publisher_command-IsPassed machine value_of payload command clap h =
    let (s, tag, h) = >>=-eq-ok (slice_from_2 payload.voter_signature) _ h in
    let (api_key, _, h) = >>=-eq-ok (unwrap (machine.var "BONSAI_API_KEY") _) _ h in
    let (api_url, _, h) = >>=-eq-ok (unwrap (machine.var "BONSAI_API_URL") _) _ h in
    let (url, known, h) = >>=-eq-ok (unwrap (machine.var "RPC_URL") _) _ h in
    let (key, wallet, h) = >>=-eq-ok (unwrap (machine.var "ETH_WALLET_PRIVATE_KEY") _) _ h in
    let same = ok-injective h in
    let d : Dict String =
      ("chain-id", unwrap_or (machine.var "CHAIN_ID") "11155111")
      ∷ ("rpc-url", url)
      ∷ ("block-number", payload.block_number)
      ∷ ("voter-signature", s)
      ∷ ("voter", payload.voter)
      ∷ ("dao-address", payload.dao_address)
      ∷ ("proposal-id", payload.proposal_id)
      ∷ ("direction", format_u8 payload.direction)
      ∷ ("balance", payload.balance)
      ∷ ("config-contract", payload.config_contract)
      ∷ ("token", payload.token_address)
      ∷ ("additional-delegation-data", payload.additional_delegation_data)
      ∷ ("testing", "0")
      ∷ [] in
    rw (← same) (record {
      signature = s;
      url = url;
      tag_dropped = tag;
      url_known = unwrap-eq-ok (machine.var "RPC_URL") _ known;
      chain_id = clap.reads d "chain-id" _ refl refl;
      rpc_url = clap.reads d "rpc-url" _ refl refl;
      block_number = clap.reads d "block-number" _ refl refl;
      voter_signature = clap.reads d "voter-signature" _ refl refl;
      voter = clap.reads d "voter" _ refl refl;
      dao_address = clap.reads d "dao-address" _ refl refl;
      proposal_id = clap.reads d "proposal-id" _ refl refl;
      direction = clap.reads d "direction" _ refl refl;
      balance = clap.reads d "balance" _ refl refl;
      config_contract = clap.reads d "config-contract" _ refl refl;
      token = clap.reads d "token" _ refl refl;
      additional_delegation_data = clap.reads d "additional-delegation-data" _ refl refl;
      testing = clap.reads d "testing" _ refl refl;
      private_key = clap.absent d "eth-wallet-private-key" refl refl refl;
      key = key;
      key_known = unwrap-eq-ok (machine.var "ETH_WALLET_PRIVATE_KEY") _ wallet;
      key_passed = refl;
    })
