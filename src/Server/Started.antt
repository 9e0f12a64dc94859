-- ===== src/Server/Started.antt =====
-- The arguments with which the server starts the publisher.
use aragon_zk_governance.Common.{
  ℕ, ◌<◌, ◌^◌, ◌≡◌, ◌↔◌, refl, sym, ◌∙◌, String, Option, some, List, arith,
}
use mathlib.Core.Option.{some-injective}
use aragon_zk_governance.Common.Dict.{lookup}
use aragon_zk_governance.Outcome.{Outcome, ok, or_err, ◌>>=◌, >>=-eq-ok, ok-injective}
use aragon_zk_governance.Host.Node.Sent.{or_err-eq-ok}
use aragon_zk_governance.Host.Publisher.{Args}
use aragon_zk_governance.Host.Publisher.Cli.{FromStr, read_optional, or_else, parse}
use aragon_zk_governance.Server.{
  VotingParams, Command, Machine, format_u8, unwrap_or, slice_from_2, publisher_command,
}
use aragon_zk_governance.Server.Publisher.{IsClap, IsPassed, publisher_command-IsPassed}

-- A process has the variables of its command, and else inherits the server's.
abbrev pub child_var : Machine → Command → String → Option String
child_var machine command name = or_else (lookup name command.envs) (machine.var name)

-- Reading a `u8` inverts its print.
pub record IsDecimal (from_str : FromStr) : Type 0 where
  pub reads : (n : ℕ) → n < 2 ^ 8 → from_str.to_u8 (format_u8 n) ≡ some n

-- The arguments are what the texts of the payload and of the environment are read as.
pub record IsReadAs (machine : Machine) (from_str : FromStr) (payload : VotingParams) (args : Args)
    : Type 0 where
  pub chain_id :
      from_str.to_u64 (unwrap_or (machine.var "CHAIN_ID") "11155111") ≡ some args.chain_id
  pub key : String
  pub key_known : machine.var "ETH_WALLET_PRIVATE_KEY" ≡ some key
  pub signer : from_str.PrivateKeySigner
  pub key_read : from_str.to_signer key ≡ some signer
  pub rpc_url : machine.var "RPC_URL" ≡ some args.rpc_url
  pub number : ℕ
  pub number_read : from_str.to_u64 payload.block_number ≡ some number
  pub block_number : args.block_number ≡ some number
  pub voter_signature : slice_from_2 payload.voter_signature ≡ ok args.voter_signature
  pub voter : from_str.to_address payload.voter ≡ some args.voter
  pub dao_address : from_str.to_address payload.dao_address ≡ some args.dao_address
  pub proposal_id : from_str.to_u256 payload.proposal_id ≡ some args.proposal_id
  pub direction : args.direction ≡ payload.direction
  pub balance : from_str.to_u256 payload.balance ≡ some args.balance
  pub config_contract : from_str.to_address payload.config_contract ≡ some args.config_contract
  pub token : from_str.to_address payload.token_address ≡ some args.token
  pub additional_delegation_data :
      args.additional_delegation_data ≡ payload.additional_delegation_data
  pub testing : args.testing ≡ 0

zero_read_lem : (from_str : FromStr) → IsDecimal from_str → from_str.to_u8 "0" ≡ some 0
unfolding format_u8
zero_read_lem from_str decimal = decimal.reads 0 (omega arith)

peel {ℓ κ μ} :
    {A : Type ℓ} {B : Type κ} {P : Type μ} (o : Outcome A) (k : A → Outcome B) {result : B}
    → o >>= k ≡ ok result
    → ((x : A) → o ≡ ok x → k x ≡ ok result → P)
    → P
peel o k h go = let (x, e, h) = >>=-eq-ok o k h in go x e h

module _ (machine : Machine) (from_str : FromStr) (value_of : List String → String → Option String)
    (payload : VotingParams) (command : Command) where
  IsReadAs-parse :
      (args : Args)
      → IsDecimal from_str
      → args.direction < 2 ^ 8
      → IsPassed machine value_of payload command
      → IsReadAs machine from_str payload args
      → parse from_str (value_of command.args) (child_var machine command) ≡ ok args
  unfolding parse
  IsReadAs-parse args decimal small passed r =
      let signature = ok-injective (sym passed.tag_dropped ∙ r.voter_signature) in
      let url = some-injective _ _ (sym passed.url_known ∙ r.rpc_url) in
      let key = some-injective _ _ (sym passed.key_known ∙ r.key_known) in
      let direction = rw r.direction at (decimal.reads args.direction small) in
      rw
        (
          passed.chain_id,
          r.chain_id,
          passed.private_key,
          passed.key_passed,
          key,
          r.key_read,
          passed.rpc_url,
          passed.block_number,
          r.number_read,
          passed.voter_signature,
          passed.voter,
          r.voter,
          passed.dao_address,
          r.dao_address,
          passed.proposal_id,
          r.proposal_id,
          passed.direction,
          direction,
          passed.balance,
          r.balance,
          passed.config_contract,
          r.config_contract,
          passed.token,
          r.token,
          passed.additional_delegation_data,
          passed.testing,
          zero_read_lem from_str decimal,
          signature,
          url,
          r.additional_delegation_data,
          ← r.direction,
          r.testing,
          r.block_number,
        )
        refl

  parse-IsReadAs :
      (args : Args)
      → IsDecimal from_str
      → payload.direction < 2 ^ 8
      → IsPassed machine value_of payload command
      → parse from_str (value_of command.args) (child_var machine command) ≡ ok args
      → IsReadAs machine from_str payload args
  unfolding parse
  parse-IsReadAs args decimal small passed h =
      let h =
        rw
          (
            passed.chain_id, passed.private_key, passed.key_passed, passed.rpc_url,
            passed.block_number, passed.voter_signature, passed.voter, passed.dao_address,
            passed.proposal_id, passed.direction, passed.balance, passed.config_contract,
            passed.token, passed.additional_delegation_data, passed.testing,
          )
          at h in
      peel (or_err (from_str.to_u64 (unwrap_or (machine.var "CHAIN_ID") "11155111")) _) _ h
        λ chain_id chain_id_read h.
          peel (or_err (from_str.to_signer passed.key) _) _ h λ signer signer_read h.
            peel (read_optional from_str.to_u64 (some payload.block_number) _) _ h
              λ block_number block_number_read h.
                peel (or_err (from_str.to_address payload.voter) _) _ h λ voter voter_read h.
                  peel (or_err (from_str.to_address payload.dao_address) _) _ h
                    λ dao_address dao_address_read h.
                      peel (or_err (from_str.to_u256 payload.proposal_id) _) _ h
                        λ proposal_id proposal_id_read h.
                          peel (or_err (from_str.to_u8 (format_u8 payload.direction)) _) _ h
                            λ direction direction_read h.
                              peel (or_err (from_str.to_u256 payload.balance) _) _ h
                                λ balance balance_read h.
                                  peel (or_err (from_str.to_address payload.config_contract) _) _ h
                                    λ config_contract config_contract_read h.
                                      peel (or_err (from_str.to_address payload.token_address) _) _
                                        h
                                        λ token token_read h.
                                          peel (or_err (from_str.to_u8 "0") _) _ h
                                            λ testing testing_read h.
                                              let (number, number_read, same_number) =
                                                >>=-eq-ok
                                                  (or_err (from_str.to_u64 payload.block_number) _)
                                                  _ block_number_read in
                                              rw (← ok-injective h) (record {
                                                chain_id = or_err-eq-ok _ _ chain_id_read;
                                                key = passed.key;
                                                key_known = passed.key_known;
                                                signer = signer;
                                                key_read = or_err-eq-ok _ _ signer_read;
                                                rpc_url = passed.url_known;
                                                number = number;
                                                number_read = or_err-eq-ok _ _ number_read;
                                                block_number = sym (ok-injective same_number);
                                                voter_signature = passed.tag_dropped;
                                                voter = or_err-eq-ok _ _ voter_read;
                                                dao_address = or_err-eq-ok _ _ dao_address_read;
                                                proposal_id = or_err-eq-ok _ _ proposal_id_read;
                                                direction = some-injective _ _ (
                                                    sym (or_err-eq-ok _ _ direction_read)
                                                    ∙ decimal.reads payload.direction small);
                                                balance = or_err-eq-ok _ _ balance_read;
                                                config_contract =
                                                    or_err-eq-ok _ _ config_contract_read;
                                                token = or_err-eq-ok _ _ token_read;
                                                additional_delegation_data = refl;
                                                testing = some-injective _ _ (
                                                    sym (or_err-eq-ok _ _ testing_read)
                                                    ∙ zero_read_lem from_str decimal);
                                              })

  -- The publisher starts with just the arguments that the payload's texts are read as: the voter,
  -- the DAO, the proposal, the balance, the contract and the token as their types read them, the
  -- signature without its first two bytes, the direction, the delegation data and the block's number
  -- of the payload, the chain id (or else Sepolia's), the URL and a private key of the server's
  -- environment, and 0 for `testing`. (`clap` gives each flag the text after its `=`, reading a `u8`
  -- inverts its print, and the direction is a `u8`.)
  pub publisher_command-parse_iff :
      (args : Args)
      → IsClap value_of
      → IsDecimal from_str
      → payload.direction < 2 ^ 8
      → publisher_command machine payload ≡ ok command
      → (parse from_str (value_of command.args) (child_var machine command) ≡ ok args)
        ↔ IsReadAs machine from_str payload args
  publisher_command-parse_iff args clap decimal small built =
      let passed = publisher_command-IsPassed machine value_of payload command clap built in
      (
        parse-IsReadAs args decimal small passed,
        λ r. IsReadAs-parse args decimal (rw r.direction small) passed r,
      )
