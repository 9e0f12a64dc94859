-- ===== src/Tests/World.antt =====
-- A small chain and stand-ins for the third-party crates: accounts, a token, a registry of
-- delegations, and two proposals.
use aragon_zk_governance.Common.{
  ℕ, ◌%◌, String, Option, none, some, List, [], ◌∷◌, ◌++◌, codes, ltb, ◌==◌, bytes_eq, str_eq,
  if◌then◌else◌, length, take,
}
use aragon_zk_governance.Config.{Address, Bytes, DelegationObject, Asset, RiscVotingProtocolConfig}
use aragon_zk_governance.Bytes.Laws.{parse_hex}
use aragon_zk_governance.Steel.{
  Env, Call, Answer, Commitment, RegistryDelegation, balance_of, get_total_supply, get_past_votes,
  get_past_total_supply, get_delegation, voting_protocol_config,
}
use aragon_zk_governance.Crates.{Crates}

abbrev pub repeat : ℕ → ℕ → Bytes
repeat Prim.Native.Nat.zero b = []
repeat (Prim.Native.Nat.suc n) b = b ∷ repeat n b

-- The voter, a delegate, an account that nobody has delegated to, and the contracts.
abbrev pub alice : Address
alice = repeat 20 0xaa

abbrev pub carol : Address
carol = repeat 20 0xcc

abbrev pub bob : Address
bob = repeat 20 0xbb

abbrev pub dao : Address
dao = repeat 20 0xda

abbrev pub token : Address
token = repeat 20 0x70

abbrev pub registry : Address
registry = repeat 20 0x4e

abbrev pub plugin : Address
plugin = repeat 20 0x91

abbrev pub entry : Address → ℕ → RegistryDelegation
entry account ratio = record { delegate = repeat 12 0 ++ account; ratio = ratio }

abbrev pub split_object : DelegationObject
split_object = record { contract = registry; strategy = "SplitDelegation" }

abbrev pub balance_asset : Asset
balance_asset = record {
  contract = token;
  chain_id = 11155111;
  voting_power_strategy = "BalanceOf";
  delegation = split_object;
}

abbrev pub past_asset : Asset
past_asset = record {
  contract = token;
  chain_id = 11155111;
  voting_power_strategy = "GetPastVotes";
  delegation = split_object;
}

abbrev pub config_of : List Asset → RiscVotingProtocolConfig
config_of assets = record {
  voting_protocol_version = "1";
  assets = assets;
  execution_strategy = "MajorityVoting";
}

abbrev pub balance_config : RiscVotingProtocolConfig
balance_config = config_of (balance_asset ∷ [])

abbrev pub past_config : RiscVotingProtocolConfig
past_config = config_of (balance_asset ∷ past_asset ∷ [])

-- Alice has 100, Carol 40 and Bob 30; a quarter of Carol's is Alice's.
abbrev pub answer_at : ℕ → (c : Call) → Option (Answer c)
answer_at number (balance_of t account) = some (
    if bytes_eq account alice
    then 100
    else if bytes_eq account carol
    then 40
    else if bytes_eq account bob
    then 30
    else 0)
answer_at number (get_total_supply t) = some 170
answer_at number (get_past_votes t account timepoint) =
    if ltb timepoint number then some 5 else none
answer_at number (get_past_total_supply t timepoint) =
    if ltb timepoint number then some 50 else none
answer_at number (get_delegation r context delegate) = some (record {
  delegations =
      if bytes_eq delegate alice
      then entry alice 1 ∷ []
      else if bytes_eq delegate carol
      then entry alice 1 ∷ entry bob 3 ∷ []
      else [];
  expiration_timestamp = 0;
})
answer_at number (voting_protocol_config contract proposal_id) =
    some (if proposal_id == 1 then "balances" else "past")

abbrev pub commitment : Commitment
commitment = record { id = 10; digest = repeat 32 7; config_id = repeat 32 3 }

abbrev pub env : Env
env = record { number = 10; parent_number = 9; commitment = commitment; answer = answer_at 10 }

-- An even number of digits is read as bytes.
abbrev pub hex_bytes : String → Option Bytes
hex_bytes s = if length (codes s) % 2 == 0 then some (parse_hex (codes s)) else none

abbrev pub ext : Crates
ext = record {
  keccak = λ bytes. take 32 (bytes ++ repeat 32 0);
  RecoveryId = ℕ;
  recovery_id_from_byte = λ b. if ltb b 4 then some b else none;
  Signature = Bytes;
  signature_from_slice = λ bytes. if length bytes == 64 then some bytes else none;
  PublicKey = Bytes;
  recover_from_prehash = λ digest signature recovery_id. some signature;
  to_encoded_point = λ key. 4 ∷ key;
  vec_from_hex = hex_bytes;
  bytes_from_str = hex_bytes;
  address_to_string = λ a. "token";
  config_from_str = λ s. if str_eq s "balances" then some balance_config else some past_config;
  sepolia_chain_id = 11155111;
}
